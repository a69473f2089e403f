-- ===== src/Cache.antt =====
-- src/core/telemetry_cache.c: the latest readings that the sensor threads share with the publisher.
-- Every operation runs with the mutex held from its first access to its last, so a thread schedule
-- is a sequence of whole calls. `F` is the C type `float`. The pointers to the cache and, for
-- `get`, to the outputs are not NULL, as in every call of the program.
pub mod Snapshots
mod Examples
use telemetry_platform_testb.Base.{ℕ, ◌+◌, ◌%◌, ◌^◌, List, [], ◌∷◌, not, ◌&&◌, if◌then◌else◌}
use telemetry_platform_testb.Base.Int.{ℤ, pos, eqb_ℤ}
use telemetry_platform_testb.Types.{Vec3f}

-- One column of the motor_…[2] arrays.
pub record MotorReading : Type 0 where
  pub tics : ℕ
  pub rpm : ℤ
  pub temp_c : ℤ
  pub voltage_mv : ℤ
  pub current_ma : ℤ

pub record TelemetryCache (F : Type 0) : Type 0 where
  pub acc_g : Vec3f F
  pub gyro_dps : Vec3f F
  pub tilt_deg : Vec3f F
  pub tilt_status : ℕ
  pub motor0 : MotorReading
  pub motor1 : MotorReading
  pub seq : ℕ

pub no_reading : MotorReading
no_reading = record {
  tics = 0;
  rpm = pos 0;
  temp_c = pos 0;
  voltage_mv = pos 0;
  current_ma = pos 0;
}

module _ {F : Type 0} where
  pub init : F → TelemetryCache F
  unfolding no_reading
  init zero_f =
      let zeros : Vec3f F = record { x = zero_f; y = zero_f; z = zero_f } in
      record {
        acc_g = zeros;
        gyro_dps = zeros;
        tilt_deg = zeros;
        tilt_status = 0;
        motor0 = no_reading;
        motor1 = no_reading;
        seq = 0;
      }

  -- c->seq++ on uint32_t.
  abbrev pub bump : TelemetryCache F → TelemetryCache F
  bump c = record c { seq = (c.seq + 1) % 2 ^ 32 }

  unfoldable pub set_imu : TelemetryCache F → Vec3f F → Vec3f F → TelemetryCache F
  set_imu c acc gyro = bump (record c { acc_g = acc; gyro_dps = gyro })

  unfoldable pub set_tilt : TelemetryCache F → Vec3f F → ℕ → TelemetryCache F
  set_tilt c tilt status = bump (record c { tilt_deg = tilt; tilt_status = status })

  -- Motor 1 is column 0 and motor 2 column 1; any other index is refused.
  unfoldable pub set_motor : TelemetryCache F → ℤ → MotorReading → TelemetryCache F
  set_motor c motor_index m =
      if not (eqb_ℤ motor_index (pos 1)) && not (eqb_ℤ motor_index (pos 2))
      then c
      else if eqb_ℤ motor_index (pos 1)
      then bump (record c { motor0 = m })
      else bump (record c { motor1 = m })

  -- The copies that `get` hands out.
  unfoldable pub get : TelemetryCache F → TelemetryCache F
  get c = record {
    acc_g = c.acc_g;
    gyro_dps = c.gyro_dps;
    tilt_deg = c.tilt_deg;
    tilt_status = c.tilt_status;
    motor0 = c.motor0;
    motor1 = c.motor1;
    seq = c.seq;
  }

-- The calls of the sensor threads, in the order in which they took the mutex.
pub data Call (F : Type 0) : Type 0 where
  sets_imu : Vec3f F → Vec3f F → Call F
  sets_tilt : Vec3f F → ℕ → Call F
  sets_motor : ℤ → MotorReading → Call F

module _ {F : Type 0} where
  pub step : TelemetryCache F → Call F → TelemetryCache F
  unfolding set_imu set_tilt set_motor
  step c (sets_imu acc gyro) = set_imu c acc gyro
  step c (sets_tilt tilt status) = set_tilt c tilt status
  step c (sets_motor i m) = set_motor c i m

  pub run : TelemetryCache F → List (Call F) → TelemetryCache F
  run c [] = c
  run c (k ∷ ks) = run (step c k) ks
