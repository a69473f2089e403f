-- ===== src/App/StateDump/Examples.antt =====
-- The output of src/apps/state_dump.c for a message without tilt and motor1.
use telemetry_platform_testb.Base.{
  ℕ, ◌≡◌, ◌⊎◌, refl, List, [], ◌∷◌, Option, none, some, codes, arith, ◌<◌, ◌^◌, ap,
}
use telemetry_platform_testb.Base.Int.{pos, negsuc}
use telemetry_platform_testb.Types.{CString, TelemetryMsg}
use telemetry_platform_testb.Libc.{strtol, decimal, digits}
use telemetry_platform_testb.App.StateDump.{dump, on_msg, arguments}
use telemetry_platform_testb.App.StateDump.Readable.{seq_of, Shown, on_msg-shows}

abbrev fixed3 : ℕ → CString
fixed3 n = codes "0.5"

abbrev message : TelemetryMsg ℕ
message = record {
  header = some (record { timestamp_ns = 70; seq = 41; robot_id = some (codes "r1") });
  imu_id = none;
  acc_g = some (record { x = 1; y = 2; z = 3 });
  gyro_dps = none;
  tilt_id = some (codes "t");
  tilt_deg = none;
  tilt_status = 2;
  motor1 = none;
  motor2 = some (record {
    motor_id = none;
    tics = 9;
    rpm = negsuc 0;
    temperature_c = pos 40;
    voltage_power_stage_mv = pos 24000;
    current_power_stage_ma = pos 300;
  });
}

abbrev payload : List ℕ
payload = 8 ∷ []

abbrev unpack : List ℕ → Option (TelemetryMsg ℕ)
unpack [] = none
unpack (b ∷ bs) = some message

dump-message :
    dump fixed3 message
    ≡ codes "seq=41  t=70  robot_id=r1\n"
      ∷ codes " acc_g:  0.5  0.5  0.5\n"
      ∷ codes " imu_id=(null)\n"
      ∷ codes " tilt_id=t  status=2\n"
      ∷ codes " motor2 id=(null)  tics=9  rpm=-1  temp=40C  vps=24000mV  cps=300mA\n"
      ∷ codes "\n"
      ∷ []
unfolding dump digits decimal
dump-message = refl

one_argument : arguments strtol (codes "robot" ∷ []) ≡ (codes "robot", pos 1883)
unfolding arguments
one_argument = refl

abbrev seq_in : Option (TelemetryMsg ℕ) → ℕ
seq_in none = 0
seq_in (some st) = seq_of st.header

small : (st : TelemetryMsg ℕ) → unpack payload ≡ some st → seq_of st.header < 2 ^ 32
small st e = let known : 41 ≡ seq_of st.header = ap seq_in e in omega arith

on_msg-shows_example :
    ((on_msg fixed3 unpack payload ≡ []) × ((payload ≡ []) ⊎ (unpack payload ≡ none)))
    ⊎ ((st : TelemetryMsg ℕ) × (unpack payload ≡ some st)
        × Shown fixed3 st (on_msg fixed3 unpack payload))
on_msg-shows_example = on_msg-shows fixed3 unpack payload small
