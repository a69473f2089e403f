-- ===== src/Gateway/Statistics.antt =====
-- stats_thread of src/core/telemetry_gateway.c: what it prints in each round, and what it remembers for
-- the next. Arithmetic on double is an argument; the values of a line are before their rounding by %.1f.
pub mod Totals
mod Examples
use telemetry_platform_testb.Base.{
  ℕ, ◌+◌, ◌-◌, ◌%◌, ◌^◌, Bool, true, false, List, [], ◌∷◌, ltb, if◌then◌else◌,
}
use telemetry_platform_testb.Base.Int.{ℤ}
use telemetry_platform_testb.Sensors.{Double, ◌⊗◌, ◌⊘◌}

-- What a round reads under stats_mu and q_mu, and the clock. commit_ns_sum only grows, and stays far
-- below 2^63.
pub record Reading : Type 0 where
  pub now_ns : ℕ
  pub rx_msgs : ℕ
  pub rx_bytes : ℕ
  pub db_rows : ℕ
  pub commit_count : ℕ
  pub commit_ns_sum : ℕ
  pub commit_ns_max : ℕ
  pub q_len : ℕ
  pub q_max : ℕ

-- The variables last_*.
pub record Last : Type 0 where
  pub rx_msgs : ℕ
  pub rx_bytes : ℕ
  pub db_rows : ℕ
  pub commit_count : ℕ
  pub commit_ns_sum : ℕ
  pub mono_ns : ℕ

abbrev pub first : ℕ → Last
first start_mono_ns = record {
  rx_msgs = 0;
  rx_bytes = 0;
  db_rows = 0;
  commit_count = 0;
  commit_ns_sum = 0;
  mono_ns = start_mono_ns;
}

-- A difference of two uint64_t.
abbrev pub sub_uint64 : ℕ → ℕ → ℕ
sub_uint64 a b = (a + 2 ^ 64 - b) % 2 ^ 64

-- The variables d_*.
pub record Deltas : Type 0 where
  pub rx_msgs : ℕ
  pub rx_bytes : ℕ
  pub db_rows : ℕ
  pub commit : ℕ
  pub commit_ns_sum : ℕ

pub deltas : Last → Reading → Deltas
deltas l r = record {
  rx_msgs = sub_uint64 r.rx_msgs l.rx_msgs;
  rx_bytes = sub_uint64 r.rx_bytes l.rx_bytes;
  db_rows = sub_uint64 r.db_rows l.db_rows;
  commit = sub_uint64 r.commit_count l.commit_count;
  commit_ns_sum = r.commit_ns_sum - l.commit_ns_sum;
}

pub remember : Reading → Last
remember r = record {
  rx_msgs = r.rx_msgs;
  rx_bytes = r.rx_bytes;
  db_rows = r.db_rows;
  commit_count = r.commit_count;
  commit_ns_sum = r.commit_ns_sum;
  mono_ns = r.now_ns;
}

-- The values of the line GWSTAT.
pub record Line (R : Type 0) : Type 0 where
  pub up_s : R
  pub rx_rate : R
  pub db_rate : R
  pub kbps : R
  pub avg_payload : R
  pub avg_commit_ms : R
  pub max_commit_ms : R
  pub q_len : ℕ
  pub q_max : ℕ
  pub batch_size : ℤ

module _ {R : Type 0} ⦃d : Double R⦄ where
  -- dt_s, by which the rates are divided.
  pub elapsed_s : ℕ → ℕ → R
  elapsed_s last now =
      let dt = if ltb last now then d.lit (now - last) 0 ⊘ d.lit 1000000000 0 else d.lit 10 1 in
      if d.le dt (d.lit 0 1) then d.lit 10 1 else dt

  module _ (start_mono_ns : ℕ) (batch_size : ℤ) where
    -- The line of a round with these differences.
    pub line_with : Deltas → Last → Reading → Line R
    unfolding elapsed_s
    line_with diff l r =
        let dt_s = elapsed_s l.mono_ns r.now_ns in
        record {
          up_s = d.lit (r.now_ns - start_mono_ns) 0 ⊘ d.lit 1000000000 0;
          rx_rate = d.lit diff.rx_msgs 0 ⊘ dt_s;
          db_rate = d.lit diff.db_rows 0 ⊘ dt_s;
          kbps = d.lit diff.rx_bytes 0 ⊗ d.lit 80 1 ⊘ d.lit 10000 1 ⊘ dt_s;
          avg_payload =
              if ltb 0 r.rx_msgs then d.lit r.rx_bytes 0 ⊘ d.lit r.rx_msgs 0 else d.lit 0 1;
          avg_commit_ms =
              if ltb 0 diff.commit
              then d.lit diff.commit_ns_sum 0 ⊘ d.lit 1000000 0 ⊘ d.lit diff.commit 0
              else d.lit 0 1;
          max_commit_ms = d.lit r.commit_ns_max 0 ⊘ d.lit 1000000 0;
          q_len = r.q_len;
          q_max = r.q_max;
          batch_size = batch_size;
        }

    pub line : Last → Reading → Line R
    unfolding deltas line_with
    line l r = line_with (deltas l r) l r

    -- The rounds of the thread, one for each reading, until the gateway is stopped.
    pub stats_rounds : Last → List Reading → List (Line R)
    unfolding line remember
    stats_rounds l [] = []
    stats_rounds l (r ∷ rs) = line l r ∷ stats_rounds (remember r) rs
