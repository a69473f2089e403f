-- ===== src/Db/Rows/Examples.antt =====
-- A sample, a printf that writes short texts, and what append_row-sample_text says of them.
use telemetry_platform_testb.Base.{
  ◌^◌, ℕ, ◌+◌, refl, Bool, [], ◌∷◌, Option, none, some, codes, arith, leb,
}
use telemetry_platform_testb.Base.Int.{ℤ, pos, negsuc, pos_part}
use telemetry_platform_testb.Types.{CString, Motor, TelemetryState}
use telemetry_platform_testb.Db.StrBuf.{StrBuf}
use telemetry_platform_testb.Db.Rows.{Value, null, int, real, text, blob, Conversions}
use telemetry_platform_testb.Db.Rows.Json.{Printf}
use telemetry_platform_testb.Db.Rows.Replay.{InRange, IsStorable, Faithful}

abbrev pub motor : CString → Motor
motor id = record {
  id = id;
  tics = 4000000000;
  rpm = negsuc 29;
  temperature_c = pos 41;
  voltage_power_stage_mv = pos 24000;
  current_power_stage_ma = pos 900;
}

abbrev pub sample : TelemetryState ℕ
sample = record {
  received_at_ns = pos 1700000000;
  msg_timestamp_ns = 123456;
  seq = 12;
  robot_id = codes "robot";
  imu_id = codes "imu0";
  tilt_id = codes "tilt0";
  acc_g = record { x = 1; y = 2; z = 3 };
  gyro_dps = record { x = 4; y = 5; z = 6 };
  tilt_deg = record { x = 7; y = 8; z = 9 };
  tilt_status = 1;
  motor0 = motor (codes "motor1");
  motor1 = motor (codes "motor2");
  topic = codes "/robot/v1/telemetry/state";
  raw = some (8 ∷ 1 ∷ []);
  raw_len = 2;
}

-- Numbers in place of their decimal digits.
abbrev sign : ℤ → CString
sign (pos n) = n ∷ []
sign (negsuc n) = b'-' ∷ (n + 1) ∷ []

abbrev pub tally : Printf ℕ
tally = record { d = sign; u = λ n. sign (pos n); f6 = λ r. r ∷ b'.' ∷ []; seconds = pos_part }

abbrev to_int : Value ℕ → ℤ
to_int null = pos 0
to_int (int i) = i
to_int (real r) = pos r
to_int (text t) = pos 0
to_int (blob b) = pos 0

abbrev to_double : Value ℕ → ℕ
to_double null = 0
to_double (int i) = pos_part i
to_double (real r) = r
to_double (text t) = 0
to_double (blob b) = 0

abbrev to_text : Value ℕ → Option CString
to_text null = none
to_text (int i) = some (sign i)
to_text (real r) = some (r ∷ [])
to_text (text t) = some t
to_text (blob b) = some b

abbrev pub conversions : Conversions ℕ
conversions = record { int64 = to_int; int32 = to_int; double = to_double; string = to_text }

abbrev pub tally-Faithful : Faithful tally conversions
tally-Faithful = record {
  is_nan = λ r. leb (2 ^ 32) r;
  unsigned = λ n. refl;
  int64 = λ i. refl;
  int32 = λ i h. refl;
  double = λ r number. refl;
  string = λ t. refl;
}

motor-InRange : (id : CString) → InRange (motor id)
motor-InRange id = record {
  tics = omega arith;
  rpm = omega arith;
  temperature = omega arith;
  voltage = omega arith;
  current = omega arith;
}

pub sample-IsStorable : IsStorable (λ r. leb (2 ^ 32) r) (λ f. f) sample
sample-IsStorable = record {
  acc = (refl, refl, refl);
  gyro = (refl, refl, refl);
  tilt = (refl, refl, refl);
  seq = omega arith;
  status = omega arith;
  stamp = omega arith;
  motor0 = motor-InRange (codes "motor1");
  motor1 = motor-InRange (codes "motor2");
}

abbrev room : ℕ → Bool
room n = leb n 65536
