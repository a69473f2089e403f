-- ===== src/Env/Bounds.antt =====
-- The ranges of the settings, whatever the environment holds.
use telemetry_platform_testb.Base.{
  length, length-take_le, ℕ, ◌+◌, ◌*◌, ◌^◌, ◌≤◌, ◌<◌, arith, [], ◌∷◌, Option, none, some, codes,
}
use telemetry_platform_testb.Base.Int.{ℤ, pos, negsuc, pos_part, ◌≤ℤ◌}
use telemetry_platform_testb.Types.{CString}
use telemetry_platform_testb.Libc.{Environment, getenv}
use telemetry_platform_testb.Env.{
  int_or, env_int, knobs, initial_server, initial_exp_tag, env_str_local,
}

int_or-range :
    (o : Option CString) (def minv maxv : ℤ)
    → minv ≤ℤ def
    → def ≤ℤ maxv
    → (minv ≤ℤ int_or o def minv maxv) × (int_or o def minv maxv ≤ℤ maxv)
unfolding int_or
int_or-range none def minv maxv low high = (low, high)
int_or-range (some []) def minv maxv low high = (low, high)
int_or-range (some (c ∷ s)) def minv maxv low high = ground arith

env_int-range :
    (name : CString) (def minv maxv : ℤ) (env : Environment)
    → minv ≤ℤ def
    → def ≤ℤ maxv
    → (minv ≤ℤ env_int name def minv maxv env) × (env_int name def minv maxv env ≤ℤ maxv)
unfolding env_int
env_int-range name def minv maxv env = int_or-range (getenv name env) def minv maxv

pos_part-le : (z : ℤ) (m : ℕ) → z ≤ℤ pos m → pos_part z ≤ m
pos_part-le (pos n) m h = omega arith
pos_part-le (negsuc n) m h = omega arith

-- Whatever the environment holds, a batch has 1 to 4096 samples, the statistics are on or off, their interval
-- is 50 ms to a minute, the delay and the jitter are at most a minute, the drop rate is at most a hundred
-- percent, the cut starts and lasts at most a day, and the tag has at most 63 bytes: so the sums that the
-- server makes of them, the span of the jitter and the window in nanoseconds, fit an int and an int64_t.
pub settings_range :
    (env : Environment)
    → let k = knobs env in
      let s = initial_server env in
      (pos 1 ≤ℤ k.batch_size)
      × (k.batch_size ≤ℤ pos 4096)
      × (pos 50 ≤ℤ k.stats_interval_ms)
      × (k.stats_interval_ms ≤ℤ pos 60000)
      × (pos 0 ≤ℤ k.stats_enabled)
      × (k.stats_enabled ≤ℤ pos 1)
      × (s.delay_ms ≤ 60000)
      × (s.jitter_ms ≤ 60000)
      × (s.cut_start_s ≤ 86400)
      × (s.cut_duration_s ≤ 86400)
      × (length (initial_exp_tag env) ≤ 63)
      × (s.drop_pct ≤ 100)
      × (s.delay_ms + (s.jitter_ms * 2 + 1) < 2 ^ 31)
      × ((s.cut_start_s + s.cut_duration_s) * 1000000000 < 2 ^ 63)
unfolding knobs initial_server initial_exp_tag env_str_local
settings_range env =
    let upto : (name : CString) (maxv : ℕ)
        → pos_part (env_int name (pos 0) (pos 0) (pos maxv) env) ≤ maxv =
      λ name maxv.
        pos_part-le (env_int name (pos 0) (pos 0) (pos maxv) env) maxv
          (env_int-range name (pos 0) (pos 0) (pos maxv) env (omega arith) (omega arith)).1 in
    let b =
      env_int-range (codes "GW_BATCH") (pos 50) (pos 1) (pos 4096) env (omega arith)
        (omega arith) in
    let e =
      env_int-range (codes "GW_STATS") (pos 0) (pos 0) (pos 1) env (omega arith) (omega arith) in
    let m =
      env_int-range (codes "GW_STATS_MS") (pos 1000) (pos 50) (pos 60000) env (omega arith)
        (omega arith) in
    (
      b.0,
      b.1,
      m.0,
      m.1,
      e.0,
      e.1,
      upto (codes "WS_DELAY_MS") 60000,
      upto (codes "WS_JITTER_MS") 60000,
      upto (codes "WS_CUT_START_S") 86400,
      upto (codes "WS_CUT_DURATION_S") 86400,
      length-take_le 63 _,
      upto (codes "WS_DROP_PCT") 100,
      omega (arith, upto (codes "WS_DELAY_MS") 60000, upto (codes "WS_JITTER_MS") 60000),
      omega (arith, upto (codes "WS_CUT_START_S") 86400, upto (codes "WS_CUT_DURATION_S") 86400),
    )
