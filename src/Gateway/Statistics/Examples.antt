-- ===== src/Gateway/Statistics/Examples.antt =====
-- Two lines of the statistics, with rx_bytes wrapping around between them.
use telemetry_platform_testb.Base.{ℕ, ◌-◌, ◌*◌, ◌^◌, ◌≡◌, refl, List, [], ◌∷◌, arith}
use telemetry_platform_testb.Base.Int.{pos}
use telemetry_platform_testb.Sensors.Fixed.{unit, fixed}
use telemetry_platform_testb.Gateway.Statistics.{Last, stats_rounds, elapsed_s}
use telemetry_platform_testb.Gateway.Statistics.Totals.{
  Growth, readings, line_of, lines, stats_rounds-lines,
}

abbrev before : Last
before = record {
  rx_msgs = 100;
  rx_bytes = 2 ^ 64 - 500;
  db_rows = 90;
  commit_count = 10;
  commit_ns_sum = 7000;
  mono_ns = 4000000000;
}

abbrev second_of : ℕ → Growth
second_of now = record {
  now_ns = now;
  messages = 20;
  bytes = 4000;
  rows = 20;
  commits = 2;
  commit_ns = 6000000;
  commit_ns_max = 4000000;
  q_len = 0;
  q_max = 5;
}

abbrev growths : List Growth
growths = second_of 5000000000 ∷ second_of 6000000000 ∷ []

-- Twenty messages in one second.
first_rate : (line_of 0 (pos 50) before (second_of 5000000000)).rx_rate ≡ 20 * unit
unfolding elapsed_s
first_rate = refl

stats_rounds-lines_example :
    stats_rounds {R = ℕ} 0 (pos 50) before (readings before growths)
    ≡ lines {R = ℕ} 0 (pos 50) before growths
stats_rounds-lines_example =
    stats_rounds-lines {R = ℕ} 0 (pos 50) before growths (omega arith) (omega arith)
