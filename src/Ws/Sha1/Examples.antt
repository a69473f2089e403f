-- ===== src/Ws/Sha1/Examples.antt =====
-- The digest of "abc" from FIPS 180, and the theorem of Ws/Sha1/Digest at a message in two pieces.
use telemetry_platform_testb.Base.{◌≡◌, refl, [], ◌∷◌, arith}
use telemetry_platform_testb.Ws.Sha1.{sha1_transform, sha1_init, sha1_update, sha1_final}
use telemetry_platform_testb.Ws.Sha1.Digest.{sha1, update_all, sha1_final-sha1}

abc :
    sha1_final (sha1_update sha1_init (97 ∷ 98 ∷ 99 ∷ []))
    ≡ 0xA9 ∷ 0x99 ∷ 0x3E ∷ 0x36 ∷ 0x47 ∷ 0x06 ∷ 0x81 ∷ 0x6A ∷ 0xBA ∷ 0x3E ∷ 0x25 ∷ 0x71 ∷ 0x78
      ∷ 0x50 ∷ 0xC2 ∷ 0x6C ∷ 0x9C ∷ 0xD0 ∷ 0xD8 ∷ 0x9D ∷ []
unfolding sha1_final sha1_init sha1_transform
abc = refl

sha1_final-sha1_example :
    sha1_final (update_all sha1_init ((97 ∷ 98 ∷ []) ∷ (99 ∷ []) ∷ [])) ≡ sha1 (97 ∷ 98 ∷ 99 ∷ [])
sha1_final-sha1_example = sha1_final-sha1 ((97 ∷ 98 ∷ []) ∷ (99 ∷ []) ∷ []) (omega arith)
