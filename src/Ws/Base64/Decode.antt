-- ===== src/Ws/Base64/Decode.antt =====
-- The decoder of RFC 4648, section 4, against base64_encode of src/core/ws_server.c.
use telemetry_platform_testb.Base.{
  Bool, ℕ, ◌+◌, ◌-◌, ◌*◌, ◌/◌, ◌%◌, ◌^◌, ◌≤◌, ◌<◌, ◌≡◌, ◌⊎◌, refl, ap₂, ◌∙◌, inl, inr, true, false,
  not, ◌&&◌, dec_le, List, [], ◌∷◌, none, some, arith, length, get_or, ltb, ◌==◌, ==_iff, IsBytes,
  passes, passes-at, &&_true, not-true, lt→ltb, le→ltb, if◌then◌else◌,
}
use native.Mathlib.Nat.{mod-lt}
use telemetry_platform_testb.Ws.Base64.{b64_tbl, sextet, encode_octets, base64_encode}

-- The value of a character: A-Z, a-z, 0-9, + and /.
abbrev pub char_value : ℕ → ℕ
char_value c =
    if ltb c 47
    then 62
    else if ltb c 48
    then 63
    else if ltb c 58
    then c + 4
    else if ltb c 91
    then c - 65
    else c - 71

-- Groups of four characters; the last one may end in one or two '='.
pub decode : List ℕ → List ℕ
decode (a ∷ b ∷ c ∷ d ∷ rest) =
    let v = ((char_value a * 64 + char_value b) * 64 + char_value c) * 64 + char_value d in
    let two = (char_value a * 64 + char_value b) / 2 ^ 4 in
    let three = ((char_value a * 64 + char_value b) * 64 + char_value c) / 2 ^ 2 in
    if c == b'='
    then two ∷ []
    else if d == b'='
    then three / 256 ∷ three % 256 ∷ []
    else v / 2 ^ 16 ∷ v / 2 ^ 8 % 256 ∷ v % 256 ∷ decode rest
decode short = []

-- The character of index `i` has that value and is not '='.
reads_back : ℕ → Bool
reads_back i = (char_value (get_or b64_tbl i 0) == i) && not (get_or b64_tbl i 0 == b'=')

table : passes reads_back 64 ≡ true
unfolding passes reads_back
table = refl

char_value-sextet : (n : ℕ) → (char_value (sextet n) ≡ n % 64) × ((sextet n == b'=') ≡ false)
unfolding reads_back
char_value-sextet n =
    let row = passes-at reads_back 64 table (n % 64) (mod-lt n (omega arith)) in
    let parts = &&_true (char_value (sextet n) == n % 64) (not (sextet n == b'=')) row in
    ((==_iff (char_value (sextet n)) (n % 64)).0 parts.0, not-true (sextet n == b'=') parts.1)

-- What base64_encode writes for bytes decodes to them.
pub encode_octets-decode : (bs : List ℕ) → IsBytes bs → decode (encode_octets bs) ≡ bs
unfolding decode encode_octets
encode_octets-decode [] h = refl
encode_octets-decode (a ∷ []) h =
    let t : ℕ = a * 2 ^ 16 in
    let v1 = char_value-sextet (t / 2 ^ 18) in
    let v2 = char_value-sextet (t / 2 ^ 12) in
    ap₂ ◌∷◌ (ap₂ (λ x y. (x * 64 + y) / 2 ^ 4) v1.0 v2.0 ∙ omega (arith, h.0)) refl
encode_octets-decode (a ∷ b ∷ []) h =
    let t : ℕ = a * 2 ^ 16 + b * 2 ^ 8 in
    let v1 = char_value-sextet (t / 2 ^ 18) in
    let v2 = char_value-sextet (t / 2 ^ 12) in
    let v3 = char_value-sextet (t / 2 ^ 6) in
    rw (v3.1, v1.0, v2.0, v3.0)
      (ap₂ (λ x y. x ∷ y ∷ []) (omega (arith, h.0, h.1.0)) (omega (arith, h.0, h.1.0)))
encode_octets-decode (a ∷ b ∷ c ∷ rest) h =
    let t : ℕ = a * 2 ^ 16 + b * 2 ^ 8 + c in
    let v1 = char_value-sextet (t / 2 ^ 18) in
    let v2 = char_value-sextet (t / 2 ^ 12) in
    let v3 = char_value-sextet (t / 2 ^ 6) in
    let v4 = char_value-sextet t in
    let later = encode_octets-decode rest h.1.1.1 in
    rw (v3.1, v4.1, v1.0, v2.0, v3.0, v4.0, later)
      (ap₂ ◌∷◌ (omega (arith, h.0, h.1.0, h.1.1.0)) (
        ap₂ (λ x y. x ∷ y ∷ rest) (omega (arith, h.0, h.1.0, h.1.1.0))
          (omega (arith, h.0, h.1.0, h.1.1.0))))

length-encode_octets : (bs : List ℕ) → length (encode_octets bs) ≡ 4 * ((length bs + 2) / 3)
unfolding encode_octets
length-encode_octets [] = refl
length-encode_octets (a ∷ []) = refl
length-encode_octets (a ∷ b ∷ []) = refl
length-encode_octets (a ∷ b ∷ c ∷ rest) = omega (arith, length-encode_octets rest)

-- base64_encode fails exactly when the text and its NUL do not fit the buffer; otherwise the text
-- fits, has four characters for each three bytes or part of three, and decodes to the input.
pub base64_encode-decode :
    (bs : List ℕ) (outcap : ℕ)
    → IsBytes bs
    → ((base64_encode bs outcap ≡ none) × (outcap ≤ 4 * ((length bs + 2) / 3)))
      ⊎ ((text : List ℕ) × (base64_encode bs outcap ≡ some text)
          × (length text < outcap)
          × (length text ≡ 4 * ((length bs + 2) / 3))
          × (decode text ≡ bs))
unfolding base64_encode
base64_encode-decode bs outcap h = elim (dec_le outcap (4 * ((length bs + 2) / 3))) [
  | yes full ↦ inl (rw (lt→ltb outcap (4 * ((length bs + 2) / 3) + 1) (omega arith)), full)
  | no room ↦ inr (
    encode_octets bs,
    rw (le→ltb outcap (4 * ((length bs + 2) / 3) + 1) (omega arith)),
    omega (arith, length-encode_octets bs),
    length-encode_octets bs,
    encode_octets-decode bs h,
  )
]
