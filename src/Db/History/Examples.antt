-- ===== src/Db/History/Examples.antt =====
-- The history of one stored sample.
use telemetry_platform_testb.Base.{ℕ, ◌≡◌, refl, List, [], ◌∷◌, map, Option, some}
use telemetry_platform_testb.Base.Int.{pos}
use telemetry_platform_testb.Db.Rows.{Value, bindings}
use telemetry_platform_testb.Db.Rows.Examples.{sample}
use telemetry_platform_testb.Db.Rows.Replay.{selected}
use telemetry_platform_testb.Db.History.{clamp_limit}

abbrev query : ℕ → Option (List (List (Value ℕ)))
query n = some (map (λ s. selected (bindings (λ f. f) s)) (sample ∷ sample ∷ []))

clamp_300 : clamp_limit (pos 0) ≡ 300
unfolding clamp_limit
clamp_300 = refl
