-- ===== src/Db/Rows.antt =====
-- The rows of telemetry_state in src/core/db_sqlite.c: the columns, and the bindings of
-- db_writer_insert_state. SQLite's conversions are a parameter; `R` is the C type double.
pub mod Json
pub mod Replay
pub mod Examples
use telemetry_platform_testb.Base.{
  ℕ, zero, suc, ◌+◌, ◌-◌, ◌^◌, Bool, true, false, not, ◌&&◌, ◌||◌, List, [], ◌∷◌, ◌++◌, Option,
  none, some, length, get_or, ltb, codes, ◌>>=◌, if◌then◌else◌,
}
use telemetry_platform_testb.Base.Int.{ℤ, pos, negsuc}
use telemetry_platform_testb.Types.{CString, Vec3f, Motor, TelemetryState}

-- What a parameter of a statement is bound to, and what a column holds.
pub data Value (R : Type 0) : Type 0 where
  null : Value R
  int : ℤ → Value R
  real : R → Value R
  text : CString → Value R
  blob : List ℕ → Value R

-- A conversion of an unsigned number below 2^w to the signed type of that width.
abbrev pub to_signed : ℕ → ℕ → ℤ
to_signed w n = if ltb n (2 ^ (w - 1)) then pos n else negsuc (2 ^ w - 1 - n)

-- The names in the INSERT and in the SELECT.
abbrev pub motor_names : CString → List CString → List CString
motor_names m rest =
    (m ++ codes "_id")
    ∷ (m ++ codes "_tics")
    ∷ (m ++ codes "_rpm")
    ∷ (m ++ codes "_temperature_c")
    ∷ (m ++ codes "_voltage_power_stage_mv")
    ∷ (m ++ codes "_current_power_stage_ma")
    ∷ rest

abbrev pub ins : List CString
ins =
    codes "received_at_ns"
    ∷ codes "topic"
    ∷ codes "robot_id"
    ∷ codes "seq"
    ∷ codes "msg_timestamp_ns"
    ∷ codes "imu_id"
    ∷ codes "acc_x"
    ∷ codes "acc_y"
    ∷ codes "acc_z"
    ∷ codes "gyro_x"
    ∷ codes "gyro_y"
    ∷ codes "gyro_z"
    ∷ codes "tilt_id"
    ∷ codes "tilt_x"
    ∷ codes "tilt_y"
    ∷ codes "tilt_z"
    ∷ codes "tilt_status"
    ∷ motor_names (codes "motor1") (motor_names (codes "motor2") (codes "raw" ∷ []))

abbrev pub select_columns : List CString
select_columns =
    codes "received_at_ns"
    ∷ codes "robot_id"
    ∷ codes "seq"
    ∷ codes "msg_timestamp_ns"
    ∷ codes "imu_id"
    ∷ codes "acc_x"
    ∷ codes "acc_y"
    ∷ codes "acc_z"
    ∷ codes "gyro_x"
    ∷ codes "gyro_y"
    ∷ codes "gyro_z"
    ∷ codes "tilt_id"
    ∷ codes "tilt_x"
    ∷ codes "tilt_y"
    ∷ codes "tilt_z"
    ∷ codes "tilt_status"
    ∷ motor_names (codes "motor1") (motor_names (codes "motor2") [])

-- `s->raw && s->raw_len > 0`
pub bind_raw : {R : Type 0} → Option (List ℕ) → ℕ → Value R
bind_raw none len = null
bind_raw (some bytes) zero = null
bind_raw (some bytes) (suc n) = blob bytes

-- The bindings of one motor. `double` converts a float.
pub bind_motor : {R : Type 0} → Motor → List (Value R) → List (Value R)
bind_motor m rest =
    text m.id
    ∷ int (pos m.tics)
    ∷ int m.rpm
    ∷ int m.temperature_c
    ∷ int m.voltage_power_stage_mv
    ∷ int m.current_power_stage_ma
    ∷ rest

module _ {F R : Type 0} (double : F → R) where
  pub bind_vec : Vec3f F → List (Value R) → List (Value R)
  bind_vec v rest = real (double v.x) ∷ real (double v.y) ∷ real (double v.z) ∷ rest

  -- The values that db_writer_insert_state hands to sqlite3_bind, in the order of its parameters. That
  -- SQLite stores NULL for a real that is NaN is left to what is assumed of SQLite in Db/Rows/Replay.
  pub bindings : TelemetryState F → List (Value R)
  unfolding bind_raw bind_motor bind_vec
  bindings s =
      int s.received_at_ns
      ∷ text s.topic
      ∷ text s.robot_id
      ∷ int (to_signed 32 s.seq)
      ∷ int (to_signed 64 s.msg_timestamp_ns)
      ∷ text s.imu_id
      ∷ bind_vec s.acc_g (
          bind_vec s.gyro_dps (
            text s.tilt_id
            ∷ bind_vec s.tilt_deg (
                int (to_signed 32 s.tilt_status)
                ∷ bind_motor s.motor0 (bind_motor s.motor1 (bind_raw s.raw s.raw_len ∷ [])))))

  -- db_writer_insert_state on valid pointers: `step` runs the INSERT with these bindings, and tells whether
  -- it returned SQLITE_DONE.
  pub db_writer_insert_state :
      {D : Type 0} → (List (Value R) → D → Bool × D) → TelemetryState F → D → Bool × D
  unfolding bindings
  db_writer_insert_state step s d = step (bindings s) d

-- sqlite3_column_int64, _int, _double and _text on a value.
pub record Conversions (R : Type 0) : Type 0 where
  pub int64 : Value R → ℤ
  pub int32 : Value R → ℤ
  pub double : Value R → R
  pub string : Value R → Option CString

-- sqlite3_column_type(…) == SQLITE_NULL
pub is_null : {R : Type 0} → Value R → Bool
is_null null = true
is_null (int i) = false
is_null (real r) = false
is_null (text s) = false
is_null (blob b) = false
