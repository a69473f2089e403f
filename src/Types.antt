-- ===== src/Types.antt =====
-- The data of a telemetry sample: the protobuf structures of proto/robot_telemetry.proto as
-- include/generated/robot_telemetry.pb-c.h declares them, and telemetry_state_t of
-- include/telemetry_types.h. A C string is the list of its bytes before the NUL; a pointer that may
-- be NULL is an Option. `F` is the C type `float`, which is only copied.
use telemetry_platform_testb.Base.{ℕ, List, Option}
use telemetry_platform_testb.Base.Int.{ℤ}

abbrev pub CString : Type 0
CString = List ℕ

-- float v[3], and Robot__V1__Vec3f.
pub record Vec3f (F : Type 0) : Type 0 where
  pub x : F
  pub y : F
  pub z : F

-- Robot__V1__Header.
pub record Header : Type 0 where
  pub robot_id : Option CString
  pub timestamp_ns : ℕ
  pub seq : ℕ

-- Robot__V1__MotorState.
pub record MotorState : Type 0 where
  pub motor_id : Option CString
  pub tics : ℕ
  pub rpm : ℤ
  pub temperature_c : ℤ
  pub voltage_power_stage_mv : ℤ
  pub current_power_stage_ma : ℤ

-- Robot__V1__TelemetryState.
pub record TelemetryMsg (F : Type 0) : Type 0 where
  pub header : Option Header
  pub imu_id : Option CString
  pub acc_g : Option (Vec3f F)
  pub gyro_dps : Option (Vec3f F)
  pub tilt_id : Option CString
  pub tilt_deg : Option (Vec3f F)
  pub tilt_status : ℕ
  pub motor1 : Option MotorState
  pub motor2 : Option MotorState

-- One column of the arrays motor_…[2] of telemetry_state_t.
pub record Motor : Type 0 where
  pub id : CString
  pub tics : ℕ
  pub rpm : ℤ
  pub temperature_c : ℤ
  pub voltage_power_stage_mv : ℤ
  pub current_power_stage_ma : ℤ

-- telemetry_state_t; `motor0` and `motor1` are the columns 0 and 1 of the motor arrays, and `raw`
-- holds raw_len bytes or is NULL.
pub record TelemetryState (F : Type 0) : Type 0 where
  pub received_at_ns : ℤ
  pub msg_timestamp_ns : ℕ
  pub seq : ℕ
  pub robot_id : CString
  pub imu_id : CString
  pub tilt_id : CString
  pub acc_g : Vec3f F
  pub gyro_dps : Vec3f F
  pub tilt_deg : Vec3f F
  pub tilt_status : ℕ
  pub motor0 : Motor
  pub motor1 : Motor
  pub topic : CString
  pub raw : Option (List ℕ)
  pub raw_len : ℕ
