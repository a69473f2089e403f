-- ===== src/Db/Rows/Json.antt =====
-- The JSON text of a sample: append_row_as_sample_json of src/core/db_sqlite.c, which prints a stored row
-- for the history, and telemetry_state_to_json_alloc of src/core/telemetry_gateway.c, which prints the
-- sample for the stream. What printf writes for a value is a parameter; a format is its list of pieces.
use telemetry_platform_testb.Base.{
  ℕ, ◌+◌, Bool, not, ◌||◌, List, [], ◌∷◌, ◌++◌, Option, none, some, length, get_or, codes, ◌>>=◌,
  if◌then◌else◌,
}
use telemetry_platform_testb.Base.Int.{ℤ}
use telemetry_platform_testb.Types.{CString, Motor, TelemetryState}
use telemetry_platform_testb.Db.StrBuf.{StrBuf, sb_append, sb_appendf}
use telemetry_platform_testb.Db.Rows.{Value, null, is_null, Conversions}

-- What printf writes for %d and %lld, %u and %llu, and %.6f; and `(double)ns / 1e9`.
pub record Printf (R : Type 0) : Type 0 where
  pub d : ℤ → CString
  pub u : ℕ → CString
  pub f6 : R → CString
  pub seconds : ℤ → R

unfoldable pub joined : List CString → CString
joined [] = []
joined (c ∷ cs) = c ++ joined cs

abbrev pub or_empty : Option CString → CString
or_empty none = []
or_empty (some s) = s

-- `"name":{"x":%.6f,"y":%.6f,"z":%.6f}` as pieces, with what is in front of it and behind it.
abbrev pub xyz : {R : Type 0} → Printf R → CString → R → R → R → List CString → List CString
xyz p front x y z rest = front ∷ p.f6 x ∷ codes ",\"y\":" ∷ p.f6 y ∷ codes ",\"z\":" ∷ p.f6 z ∷ rest

-- The members of a motor's object.
abbrev pub motor_pieces :
    {R : Type 0} → Printf R → CString → CString → CString → Motor → List CString → List CString
motor_pieces p front id tics m rest =
    front
    ∷ id
    ∷ codes "\",\"tics\":"
    ∷ tics
    ∷ codes ",\"rpm\":"
    ∷ p.d m.rpm
    ∷ codes ",\"temperature_c\":"
    ∷ p.d m.temperature_c
    ∷ codes ",\"voltage_power_stage_mv\":"
    ∷ p.d m.voltage_power_stage_mv
    ∷ codes ",\"current_power_stage_ma\":"
    ∷ p.d m.current_power_stage_ma
    ∷ rest

module _ {F R : Type 0} (p : Printf R) (double : F → R) where
  -- The text that telemetry_state_to_json_alloc prints.
  unfoldable pub sample_text : TelemetryState F → CString
  unfolding joined
  sample_text s = joined (
      codes "{\"type\":\"telemetry\",\"t\":"
      ∷ p.f6 (p.seconds s.received_at_ns)
      ∷ codes ",\"t_ns\":"
      ∷ p.d s.received_at_ns
      ∷ codes ",\"seq\":"
      ∷ p.u s.seq
      ∷ codes ",\"msg_ts_ns\":"
      ∷ p.u s.msg_timestamp_ns
      ∷ codes ",\"robot_id\":\""
      ∷ s.robot_id
      ∷ codes "\",\"imu_id\":\""
      ∷ s.imu_id
      ∷ codes "\",\"tilt_id\":\""
      ∷ s.tilt_id
      ∷ codes "\",\"tilt_status\":"
      ∷ p.u s.tilt_status
      ∷ xyz p (codes ",\"accel\":{\"x\":") (double s.acc_g.x) (double s.acc_g.y) (double s.acc_g.z)
          (xyz p (codes "},\"gyro\":{\"x\":") (double s.gyro_dps.x) (double s.gyro_dps.y)
            (double s.gyro_dps.z)
            (xyz p (codes "},\"tilt\":{\"x\":") (double s.tilt_deg.x) (double s.tilt_deg.y)
              (double s.tilt_deg.z)
              (motor_pieces p (codes "},\"motors\":{\"motor1\":{\"id\":\"") s.motor0.id
                (p.u s.motor0.tics) s.motor0
                (motor_pieces p (codes "},\"motor2\":{\"id\":\"") s.motor1.id (p.u s.motor1.tics)
                  s.motor1 (codes "}}}" ∷ []))))))

  -- telemetry_state_to_json_alloc on valid pointers, none for an error: `room` tells whether malloc has
  -- the bytes.
  pub telemetry_state_to_json_alloc : (ℕ → Bool) → TelemetryState F → Option CString
  unfolding sample_text
  telemetry_state_to_json_alloc room s =
      let json = sample_text s in if room (length json + 1) then some json else none

module _ {R : Type 0} (p : Printf R) (v : Conversions R) where
  abbrev pub column : List (Value R) → ℕ → Value R
  column row i = get_or row i null

  abbrev pub text_at : List (Value R) → ℕ → CString
  text_at row i = or_empty (v.string (column row i))

  -- The six columns of a motor, from column `i`.
  abbrev pub motor_at : List (Value R) → ℕ → CString → List CString → List CString
  motor_at row i front rest =
      front
      ∷ text_at row i
      ∷ codes "\",\"tics\":"
      ∷ p.d (v.int64 (column row (i + 1)))
      ∷ codes ",\"rpm\":"
      ∷ p.d (v.int32 (column row (i + 2)))
      ∷ codes ",\"temperature_c\":"
      ∷ p.d (v.int32 (column row (i + 3)))
      ∷ codes ",\"voltage_power_stage_mv\":"
      ∷ p.d (v.int32 (column row (i + 4)))
      ∷ codes ",\"current_power_stage_ma\":"
      ∷ p.d (v.int32 (column row (i + 5)))
      ∷ rest

  -- The pieces of the first format.
  abbrev pub head_pieces : List (Value R) → List CString
  head_pieces row =
      (codes "{\"type\":\"telemetry\",\"t\":"
        ∷ p.f6 (p.seconds (v.int64 (column row 0)))
        ∷ codes ",\"t_ns\":"
        ∷ p.d (v.int64 (column row 0))
        ∷ codes ",\"seq\":"
        ∷ p.d (v.int32 (column row 2))
        ∷ codes ",\"msg_ts_ns\":"
        ∷ p.d (v.int64 (column row 3))
        ∷ codes ",\"robot_id\":\""
        ∷ text_at row 1
        ∷ codes "\",\"imu_id\":\""
        ∷ text_at row 4
        ∷ codes "\",\"tilt_id\":\""
        ∷ text_at row 11
        ∷ codes "\",\"tilt_status\":"
        ∷ p.d (v.int32 (column row 15))
        ∷ xyz p (codes ",\"accel\":{\"x\":") (v.double (column row 5)) (v.double (column row 6))
            (v.double (column row 7))
            (xyz p (codes "},\"gyro\":{\"x\":") (v.double (column row 8)) (v.double (column row 9))
              (v.double (column row 10))
              (xyz p (codes "},\"tilt\":{\"x\":") (v.double (column row 12))
                (v.double (column row 13)) (v.double (column row 14)) (codes "}" ∷ []))))

  unfoldable pub head_text : List (Value R) → CString
  unfolding joined
  head_text row = joined (head_pieces row)

  -- The pieces of the second format.
  abbrev pub motors_pieces : List (Value R) → List CString
  motors_pieces row =
      (motor_at row 16 (codes ",\"motors\":{\"motor1\":{\"id\":\"")
        (motor_at row 22 (codes "},\"motor2\":{\"id\":\"") (codes "}}" ∷ [])))

  unfoldable pub motors_text : List (Value R) → CString
  unfolding joined
  motors_text row = joined (motors_pieces row)

  -- `if(has_motors) …`
  unfoldable pub append_motors : (ℕ → Bool) → List (Value R) → StrBuf → Option StrBuf
  unfolding motors_text
  append_motors room row sb =
      if not (is_null (column row 16)) || not (is_null (column row 22))
      then sb_appendf room sb (some (motors_text row))
      else some sb

  -- append_row_as_sample_json on a row of the SELECT; printf does not fail.
  unfoldable pub append_row_as_sample_json : (ℕ → Bool) → StrBuf → List (Value R) → Option StrBuf
  unfolding head_text append_motors
  append_row_as_sample_json room sb row = sb_appendf room sb (some (head_text row)) >>= λ sb.
      append_motors room row sb >>= λ sb. sb_append room sb (codes "}")
