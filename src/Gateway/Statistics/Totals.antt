-- ===== src/Gateway/Statistics/Totals.antt =====
-- What the lines of stats_thread in src/core/telemetry_gateway.c are about.
use telemetry_platform_testb.Base.{
  Bool-cases, inl, inr, ◌∙◌, ℕ, ◌+◌, ◌-◌, ◌%◌, ◌^◌, ◌<◌, ◌≡◌, refl, ap, ap₂, List, [], ◌∷◌, arith,
  ltb, if◌then◌else◌,
}
use telemetry_platform_testb.Base.Int.{ℤ}
use telemetry_platform_testb.Sensors.{Double, ◌⊗◌, ◌⊘◌}
use telemetry_platform_testb.Gateway.Statistics.{
  Reading, Last, Deltas, sub_uint64, deltas, remember, Line, elapsed_s, line_with, line,
  stats_rounds,
}

-- What the other threads add to the counters between two readings, and what else the second one reads.
pub record Growth : Type 0 where
  pub now_ns : ℕ
  pub messages : ℕ
  pub bytes : ℕ
  pub rows : ℕ
  pub commits : ℕ
  pub commit_ns : ℕ
  pub commit_ns_max : ℕ
  pub q_len : ℕ
  pub q_max : ℕ

-- The counters are uint64_t: on_message and writer_thread add to them modulo 2 ^ 64.
abbrev pub reading : Last → Growth → Reading
reading l g = record {
  now_ns = g.now_ns;
  rx_msgs = (l.rx_msgs + g.messages) % 2 ^ 64;
  rx_bytes = (l.rx_bytes + g.bytes) % 2 ^ 64;
  db_rows = (l.db_rows + g.rows) % 2 ^ 64;
  commit_count = (l.commit_count + g.commits) % 2 ^ 64;
  commit_ns_sum = l.commit_ns_sum + g.commit_ns;
  commit_ns_max = g.commit_ns_max;
  q_len = g.q_len;
  q_max = g.q_max;
}

-- The counters at the second reading.
abbrev pub after : Last → Growth → Last
after l g = record {
  rx_msgs = (l.rx_msgs + g.messages) % 2 ^ 64;
  rx_bytes = (l.rx_bytes + g.bytes) % 2 ^ 64;
  db_rows = (l.db_rows + g.rows) % 2 ^ 64;
  commit_count = (l.commit_count + g.commits) % 2 ^ 64;
  commit_ns_sum = l.commit_ns_sum + g.commit_ns;
  mono_ns = g.now_ns;
}

abbrev pub readings : Last → List Growth → List Reading
readings l [] = []
readings l (g ∷ gs) = reading l g ∷ readings (after l g) gs

-- Less than 2 ^ 64 is added to each counter between two readings.
pub record IsSlow (g : Growth) : Type 0 where
  pub messages : g.messages < 2 ^ 64
  pub bytes : g.bytes < 2 ^ 64
  pub rows : g.rows < 2 ^ 64
  pub commits : g.commits < 2 ^ 64

abbrev pub AllSlow : List Growth → Type 0
AllSlow [] = Unit {0}
AllSlow (g ∷ gs) = IsSlow g × AllSlow gs

-- The counters read before are uint64_t.
pub record InRange (l : Last) : Type 0 where
  pub rx_msgs : l.rx_msgs < 2 ^ 64
  pub rx_bytes : l.rx_bytes < 2 ^ 64
  pub db_rows : l.db_rows < 2 ^ 64
  pub commit_count : l.commit_count < 2 ^ 64

sub_uint64-grown : (a k : ℕ) → a < 2 ^ 64 → k < 2 ^ 64 → sub_uint64 ((a + k) % 2 ^ 64) a ≡ k
sub_uint64-grown a k small slow = omega arith

after-InRange : (l : Last) (g : Growth) → InRange (after l g)
after-InRange l g = omega arith

abbrev grown : Growth → Deltas
grown g = record {
  rx_msgs = g.messages;
  rx_bytes = g.bytes;
  db_rows = g.rows;
  commit = g.commits;
  commit_ns_sum = g.commit_ns;
}

deltas-reading : (l : Last) (g : Growth) → InRange l → IsSlow g → deltas l (reading l g) ≡ grown g
unfolding deltas
deltas-reading l g v slow = ground arith

module _ {R : Type 0} ⦃d : Double R⦄ (start_mono_ns : ℕ) (batch_size : ℤ) where
  -- The seconds from one line to the next, and 1.0 if the clock did not go on or the quotient is not positive.
  abbrev pub seconds_between : ℕ → ℕ → R
  seconds_between last now =
      let dt = d.lit (now - last) 0 ⊘ d.lit 1000000000 0 in
      if ltb last now then (if d.le dt (d.lit 0 1) then d.lit 10 1 else dt) else d.lit 10 1

  elapsed_s-between : (last now : ℕ) → elapsed_s last now ≡ seconds_between last now
  unfolding elapsed_s
  elapsed_s-between last now = elim (Bool-cases (ltb last now)) [
    | inl on ↦ rw on refl
    | inr still ↦ rw still (ground arith)
  ]

  -- The line about what was added since the line before.
  abbrev pub line_of : Last → Growth → Line R
  line_of l g =
      let r = reading l g in
      let dt_s = seconds_between l.mono_ns g.now_ns in
      record {
        up_s = d.lit (g.now_ns - start_mono_ns) 0 ⊘ d.lit 1000000000 0;
        rx_rate = d.lit g.messages 0 ⊘ dt_s;
        db_rate = d.lit g.rows 0 ⊘ dt_s;
        kbps = d.lit g.bytes 0 ⊗ d.lit 80 1 ⊘ d.lit 10000 1 ⊘ dt_s;
        avg_payload = if ltb 0 r.rx_msgs then d.lit r.rx_bytes 0 ⊘ d.lit r.rx_msgs 0 else d.lit 0 1;
        avg_commit_ms =
            if ltb 0 g.commits
            then d.lit g.commit_ns 0 ⊘ d.lit 1000000 0 ⊘ d.lit g.commits 0
            else d.lit 0 1;
        max_commit_ms = d.lit g.commit_ns_max 0 ⊘ d.lit 1000000 0;
        q_len = g.q_len;
        q_max = g.q_max;
        batch_size = batch_size;
      }

  abbrev pub lines : Last → List Growth → List (Line R)
  lines l [] = []
  lines l (g ∷ gs) = line_of l g ∷ lines (after l g) gs

  line-grown :
      (l : Last) (g : Growth)
      → InRange l
      → IsSlow g
      → line start_mono_ns batch_size l (reading l g) ≡ line_of l g
  unfolding line line_with
  line-grown l g v slow =
      ap (λ q. line_with start_mono_ns batch_size q l (reading l g)) (deltas-reading l g v slow)
      ∙ rw (elapsed_s-between l.mono_ns g.now_ns) refl

  -- Each line has the rates, over the seconds since the line before or 1.0 where these are not positive, of
  -- exactly what was added to the counters since then, wherever
  -- they wrap around between the two, as long as less than 2 ^ 64 is added in between; so nothing is
  -- left out and nothing is counted in two lines.
  pub stats_rounds-lines :
      (l : Last) (gs : List Growth)
      → InRange l
      → AllSlow gs
      → stats_rounds start_mono_ns batch_size l (readings l gs) ≡ lines l gs
  unfolding stats_rounds remember
  stats_rounds-lines l [] v slow = refl
  stats_rounds-lines l (g ∷ gs) v slow =
      ap₂ ◌∷◌ (line-grown l g v slow.0)
        (stats_rounds-lines (after l g) gs (after-InRange l g) slow.1)
