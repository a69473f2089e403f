-- ===== src/Db/Rows/Replay.antt =====
-- The history of src/core/db_sqlite.c replays what src/core/telemetry_gateway.c streamed.
use telemetry_platform_testb.Base.{
  ℕ, ◌-◌, ◌^◌, ◌<◌, ◌≡◌, Bool, false, List, [], ◌∷◌, map, some, same_string, if◌then◌else◌,
}
use telemetry_platform_testb.Base.Int.{ℤ, pos, negsuc, ◌≤ℤ◌}
use telemetry_platform_testb.Types.{Vec3f, CString, Motor, TelemetryState}
use telemetry_platform_testb.Db.StrBuf.{StrBuf}
use telemetry_platform_testb.Db.Rows.{
  Value, null, int, real, text, Conversions, ins, select_columns,
}
use telemetry_platform_testb.Db.Rows.Json.{Printf}

-- What SELECT makes of a row that INSERT stored under the names of its columns.
pub stored : {R : Type 0} → CString → List CString → List (Value R) → Value R
stored name [] vs = null
stored name (n ∷ ns) [] = null
stored name (n ∷ ns) (v ∷ vs) = if same_string n name then v else stored name ns vs

pub selected : {R : Type 0} → List (Value R) → List (Value R)
selected vs = map (λ name. stored name ins vs) select_columns

abbrev pub InInt32 : ℤ → Type 0
InInt32 i = (negsuc (2 ^ 31 - 1) ≤ℤ i) × (i ≤ℤ pos (2 ^ 31 - 1))

-- The ranges of the C types, and that no signed conversion wraps around.
pub record InRange (m : Motor) : Type 0 where
  pub tics : m.tics < 2 ^ 32
  pub rpm : InInt32 m.rpm
  pub temperature : InInt32 m.temperature_c
  pub voltage : InInt32 m.voltage_power_stage_mv
  pub current : InInt32 m.current_power_stage_ma

-- No coordinate is NaN.
abbrev pub AreNumbers : {F R : Type 0} → (R → Bool) → (F → R) → Vec3f F → Type 0
AreNumbers is_nan double v =
    (is_nan (double v.x) ≡ false) × (is_nan (double v.y) ≡ false) × (is_nan (double v.z) ≡ false)

-- What the columns can hold: the unsigned numbers fit their signed types, and no reading is NaN, which
-- sqlite3_bind_double would store as NULL.
pub record IsStorable {F R : Type 0} (is_nan : R → Bool) (double : F → R) (s : TelemetryState F)
    : Type 0 where
  pub acc : AreNumbers is_nan double s.acc_g
  pub gyro : AreNumbers is_nan double s.gyro_dps
  pub tilt : AreNumbers is_nan double s.tilt_deg
  pub seq : s.seq < 2 ^ 31
  pub status : s.tilt_status < 2 ^ 31
  pub stamp : s.msg_timestamp_ns < 2 ^ 63
  pub motor0 : InRange s.motor0
  pub motor1 : InRange s.motor1

-- What printf and SQLite document: %u and %d write the same for a number that both can show, and a
-- column gives back what it holds, but for a NaN.
pub record Faithful {R : Type 0} (p : Printf R) (v : Conversions R) : Type 0 where
  pub is_nan : R → Bool
  pub unsigned : (n : ℕ) → p.u n ≡ p.d (pos n)
  pub int64 : (i : ℤ) → v.int64 (int i) ≡ i
  pub int32 : (i : ℤ) → InInt32 i → v.int32 (int i) ≡ i
  pub double : (r : R) → is_nan r ≡ false → v.double (real r) ≡ r
  pub string : (t : CString) → v.string (text t) ≡ some t
