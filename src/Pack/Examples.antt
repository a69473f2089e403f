-- ===== src/Pack/Examples.antt =====
-- The packing functions of include/pack_le.h at concrete values.
use telemetry_platform_testb.Base.{ℕ, ◌≡◌, refl, List, [], ◌∷◌}
use telemetry_platform_testb.Base.Int.{pos, negsuc}
use telemetry_platform_testb.Pack.{clamp_i16, pack_i16_le}

abbrev scratch : List ℕ
scratch = 9 ∷ 9 ∷ 9 ∷ 9 ∷ 9 ∷ 9 ∷ []

minus_two : pack_i16_le scratch 1 (negsuc 1) ≡ 9 ∷ 254 ∷ 255 ∷ 9 ∷ 9 ∷ 9 ∷ []
unfolding pack_i16_le
minus_two = refl

too_large : clamp_i16 (pos 40000) ≡ pos 32767
unfolding clamp_i16
too_large = refl
