-- ===== src/Env/Examples.antt =====
-- Settings out of range, and no settings at all.
use telemetry_platform_testb.Base.{length, ◌+◌, ◌*◌, ◌≤◌, ◌<◌, ◌^◌, [], ◌∷◌, codes}
use telemetry_platform_testb.Base.Int.{pos, ◌≤ℤ◌}
use telemetry_platform_testb.Libc.{Environment}
use telemetry_platform_testb.Env.{knobs, initial_server, initial_exp_tag}
use telemetry_platform_testb.Env.Bounds.{settings_range}

abbrev wild : Environment
wild = (codes "WS_DROP_PCT", codes "250") ∷ (codes "GW_BATCH", codes "-3") ∷ []

settings_range_example :
    let k = knobs wild in
    let s = initial_server wild in
    (pos 1 ≤ℤ k.batch_size)
    × (k.batch_size ≤ℤ pos 4096)
    × (pos 50 ≤ℤ k.stats_interval_ms)
    × (k.stats_interval_ms ≤ℤ pos 60000)
    × (pos 0 ≤ℤ k.stats_enabled)
    × (k.stats_enabled ≤ℤ pos 1)
    × (s.delay_ms ≤ 60000)
    × (s.jitter_ms ≤ 60000)
    × (s.cut_start_s ≤ 86400)
    × (s.cut_duration_s ≤ 86400)
    × (length (initial_exp_tag wild) ≤ 63)
    × (s.drop_pct ≤ 100)
    × (s.delay_ms + (s.jitter_ms * 2 + 1) < 2 ^ 31)
    × ((s.cut_start_s + s.cut_duration_s) * 1000000000 < 2 ^ 63)
settings_range_example = settings_range wild
