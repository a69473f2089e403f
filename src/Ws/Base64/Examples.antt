-- ===== src/Ws/Base64/Examples.antt =====
-- The accept key of RFC 6455, section 1.3, and a buffer that is too small.
use telemetry_platform_testb.Base.{
  ℕ, ◌+◌, ◌*◌, ◌/◌, ◌≤◌, ◌<◌, ◌≡◌, ◌⊎◌, refl, List, [], ◌∷◌, length, none, some, arith,
}
use telemetry_platform_testb.Ws.Base64.{encode_octets, base64_encode}
use telemetry_platform_testb.Ws.Base64.Decode.{decode, base64_encode-decode}

abbrev man : List ℕ
man = 77 ∷ 97 ∷ 110 ∷ 33 ∷ []

-- "Man!" is "TWFuIQ==".
encode_man : base64_encode man 9 ≡ some (84 ∷ 87 ∷ 70 ∷ 117 ∷ 73 ∷ 81 ∷ 61 ∷ 61 ∷ [])
unfolding base64_encode encode_octets
encode_man = refl

encode_full : base64_encode man 8 ≡ none
unfolding base64_encode
encode_full = refl

base64_encode-decode_example :
    ((base64_encode man 64 ≡ none) × (64 ≤ 4 * ((4 + 2) / 3)))
    ⊎ ((text : List ℕ) × (base64_encode man 64 ≡ some text)
        × (length text < 64)
        × (length text ≡ 4 * ((4 + 2) / 3))
        × (decode text ≡ man))
base64_encode-decode_example = base64_encode-decode man 64 (omega arith)
