-- ===== src/Publisher.antt =====
-- src/core/telemetry_state_pub.c: the protobuf message that the publisher thread builds from a
-- snapshot of the cache, and its rounds. The packed bytes come from protobuf-c and are sent by mosquitto:
-- `pack` is a parameter.
pub mod Rounds
mod Examples
use telemetry_platform_testb.Base.{
  ℕ, Bool, true, false, List, [], ◌∷◌, ◌++◌, Option, none, some, ◌>>=◌, if◌then◌else◌,
}
use telemetry_platform_testb.Tick.{Timespec, next_tick}
use telemetry_platform_testb.Types.{CString, MotorState, TelemetryMsg}
use telemetry_platform_testb.Cache.{MotorReading, TelemetryCache, get}

-- The identifiers of telemetry_pub_args_t.
pub record PubArgs : Type 0 where
  pub robot_id : CString
  pub imu_id : CString
  pub tilt_id : CString
  pub motor1_id : CString
  pub motor2_id : CString

unfoldable pub motor_message : CString → MotorReading → MotorState
motor_message id m = record {
  motor_id = some id;
  tics = m.tics;
  rpm = m.rpm;
  temperature_c = m.temp_c;
  voltage_power_stage_mv = m.voltage_mv;
  current_power_stage_ma = m.current_ma;
}

-- One round of telemetry_pub_thread up to the packing; `now` is the monotonic clock.
unfoldable pub build_message : {F : Type 0} → PubArgs → TelemetryCache F → ℕ → TelemetryMsg F
unfolding motor_message get
build_message a cache now =
    let c = get cache in
    record {
      header = some (record { robot_id = some a.robot_id; timestamp_ns = now; seq = c.seq });
      imu_id = some a.imu_id;
      acc_g = some c.acc_g;
      gyro_dps = some c.gyro_dps;
      tilt_id = some a.tilt_id;
      tilt_deg = some c.tilt_deg;
      tilt_status = c.tilt_status;
      motor1 = some (motor_message a.motor1_id c.motor0);
      motor2 = some (motor_message a.motor2_id c.motor1);
    }

-- What a round of the thread meets: the cache, the monotonic clock, and whether malloc has room.
pub record Moment (F : Type 0) : Type 0 where
  pub cache : TelemetryCache F
  pub now : ℕ
  pub room : Bool

module _ {F : Type 0} (pack : TelemetryMsg F → List ℕ) (a : PubArgs) (period_ns : ℕ) where
  -- A round: the payloads that it publishes, and the deadline that it leaves. Without memory it starts
  -- over, and the deadline stays. The tick is the loop of next_tick, written out in the thread.
  unfoldable pub pub_round : Moment F → Timespec → Option (List (List ℕ) × Timespec)
  unfolding build_message
  pub_round m next =
      let sent =
        next_tick next period_ns >>= λ t. some (pack (build_message a m.cache m.now) ∷ [], t) in
      if m.room then sent else some ([], next)

  unfoldable pub pub_rounds : List (Moment F) → Timespec → Option (List (List ℕ) × Timespec)
  unfolding pub_round
  pub_rounds [] next = some ([], next)
  pub_rounds (m ∷ ms) next =
      pub_round m next >>= λ one. pub_rounds ms one.1 >>= λ rest. some (one.0 ++ rest.0, rest.1)
