-- ===== src/Gateway/Message/Examples.antt =====
-- A published snapshot received on an empty queue, and a message that does not unpack.
use telemetry_platform_testb.Base.{
  codes, ℕ, ◌+◌, ◌%◌, ◌^◌, ◌≡◌, refl, true, List, [], ◌∷◌, ◌++◌, Option, none, some, arith, length,
}
use telemetry_platform_testb.Base.Int.{pos}
use telemetry_platform_testb.Types.{TelemetryMsg}
use telemetry_platform_testb.Cache.{init}
use telemetry_platform_testb.Publisher.{PubArgs, build_message}
use telemetry_platform_testb.Gateway.Queue.{empty}
use telemetry_platform_testb.Gateway.Queue.Refine.{IsQueue, empty-IsQueue}
use telemetry_platform_testb.Gateway.Message.{
  topic_telemetry_state, safe_copy, copy_raw, Intake, Given, on_message,
}
use telemetry_platform_testb.Gateway.Message.Names.{
  IsName, IsFitting, snapshot_sample, safe_copy-IsName,
}
use telemetry_platform_testb.Gateway.Message.Receive.{publish-receive}

abbrev args : PubArgs
args = record {
  robot_id = codes "robot_sim";
  imu_id = codes "imu0";
  tilt_id = codes "tilt0";
  motor1_id = codes "motor1";
  motor2_id = codes "motor2";
}

args-IsFitting : IsFitting args
args-IsFitting = omega arith

abbrev sent : TelemetryMsg ℕ
sent = build_message args (init 0) 123

abbrev unpack : List ℕ → Option (TelemetryMsg ℕ)
unpack [] = none
unpack (b ∷ bs) = some sent

abbrev idle : Intake ℕ
idle = record { running = true; rx_msgs = 7; rx_bytes = 900; queue = empty }

abbrev given : Given
given = record { now_realtime_ns = pos 1700; raw_room = true; node = some 3 }

safe_copy_cuts : safe_copy [] 4 (some (codes "telemetry")) none ≡ codes "tel"
unfolding safe_copy
safe_copy_cuts = refl

telemetry_text-IsName : IsName 4 (safe_copy [] 4 (some (codes "telemetry")) (some (codes "t")))
telemetry_text-IsName =
    safe_copy-IsName [] 4 (some (codes "telemetry")) (codes "t") (omega arith) (omega arith)

publish-receive_example :
    (r : Intake ℕ) × (on_message 0 unpack idle given
        (record { topic = some topic_telemetry_state; payload = 8 ∷ 1 ∷ [] })
      ≡ some r)
    × IsQueue r.queue
        ([] ++ copy_raw true (8 ∷ 1 ∷ []) (snapshot_sample 0 (pos 1700) args (init 0) 123) ∷ [])
    × (r.rx_msgs ≡ (7 + 1) % 2 ^ 64)
    × (r.rx_bytes ≡ (900 + length {A = ℕ} (8 ∷ 1 ∷ [])) % 2 ^ 64)
unfolding empty
publish-receive_example =
    publish-receive 0 unpack idle given (8 ∷ 1 ∷ []) [] args (init 0) 123 3 empty-IsQueue
      (omega arith) refl refl refl args-IsFitting refl
