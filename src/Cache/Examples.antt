-- ===== src/Cache/Examples.antt =====
-- The theorems of Cache/Snapshots on a short schedule of three sensor threads.
use telemetry_platform_testb.Base.{ℕ, ◌+◌, ◌≡◌, List, [], ◌∷◌, arith}
use telemetry_platform_testb.Base.Int.{pos, negsuc}
use telemetry_platform_testb.Types.{Vec3f}
use telemetry_platform_testb.Cache.{
  MotorReading, no_reading, init, get, Call, sets_imu, sets_tilt, sets_motor, run,
}
use telemetry_platform_testb.Cache.Snapshots.{get-run}

abbrev vec : ℕ → Vec3f ℕ
vec n = record { x = n; y = n + 1; z = n + 2 }

abbrev spinning : MotorReading
spinning = record {
  tics = 77;
  rpm = pos 1500;
  temp_c = pos 40;
  voltage_mv = pos 24000;
  current_ma = negsuc 9;
}

abbrev schedule : List (Call ℕ)
schedule =
    sets_imu (vec 1) (vec 2)
    ∷ sets_motor (pos 2) spinning
    ∷ sets_motor (pos 3) spinning
    ∷ sets_tilt (vec 5) 1
    ∷ sets_imu (vec 8) (vec 9)
    ∷ []

get-run_example : get (run (init 0) schedule) ≡ record {
  acc_g = vec 8;
  gyro_dps = vec 9;
  tilt_deg = vec 5;
  tilt_status = 1;
  motor0 = no_reading;
  motor1 = spinning;
  seq = 4;
}
unfolding init
get-run_example = get-run (init 0) schedule (omega arith)
