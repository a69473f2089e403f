-- ===== src/Publisher/Examples.antt =====
-- Three rounds of the publisher, the second without memory; a packed message is its number.
use telemetry_platform_testb.Base.{ℕ, ◌<◌, ◌≡◌, true, false, List, [], ◌∷◌, arith, none, some}
use telemetry_platform_testb.Tick.{Timespec, second_ns, total_ns}
use telemetry_platform_testb.Types.{TelemetryMsg}
use telemetry_platform_testb.Cache.{init}
use telemetry_platform_testb.Publisher.{PubArgs, build_message, Moment, pub_rounds}
use telemetry_platform_testb.Publisher.Rounds.{pub_rounds-payloads}

abbrev robot : PubArgs
robot = record {
  robot_id = 82 ∷ [];
  imu_id = 105 ∷ [];
  tilt_id = 116 ∷ [];
  motor1_id = 109 ∷ 49 ∷ [];
  motor2_id = 109 ∷ 50 ∷ [];
}

abbrev clock_bytes : TelemetryMsg ℕ → List ℕ
clock_bytes m = elim m.header [ some h ↦ h.timestamp_ns ∷ [] | none ↦ [] ]

abbrev moments : List (Moment ℕ)
moments =
    record { cache = init 0; now = 11; room = true }
    ∷ record { cache = init 0; now = 12; room = false }
    ∷ record { cache = init 0; now = 13; room = true }
    ∷ []

abbrev start : Timespec
start = record { tv_sec = 4; tv_nsec = 900000000 }

pub_rounds-payloads_example :
    (last : Timespec) × (pub_rounds clock_bytes robot 200000000 moments start
      ≡ some ((11 ∷ []) ∷ (13 ∷ []) ∷ [], last))
    × (total_ns last ≡ 5300000000)
    × (last.tv_nsec < second_ns)
unfolding build_message
pub_rounds-payloads_example =
    pub_rounds-payloads clock_bytes robot 200000000 moments start (omega arith)
