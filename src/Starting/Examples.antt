-- ===== src/Starting/Examples.antt =====
-- The starts of a process with the number 4711.
use telemetry_platform_testb.Base.{ℕ, ◌≡◌, refl, true, false, some, arith, codes}
use telemetry_platform_testb.Base.Int.{pos}
use telemetry_platform_testb.Libc.{decimal, digits}
use telemetry_platform_testb.App.RobotMain.{th_imu, th_motor2, th_state}
use telemetry_platform_testb.Gateway.Lifecycle.{Held}
use telemetry_platform_testb.Starting.{
  Runtime, Call, refused, client_id, decimal_time, imu_sensor_start, tilt_sensor_start,
  motor1_sensor_start, motor2_sensor_start, telemetry_state_pub_start,
}
use telemetry_platform_testb.Starting.Balance.{Balanced, starts-Balanced}
use telemetry_platform_testb.Starting.Identity.{client_id-tells}

abbrev call : Call
call = record { room = true; created = false; pid = pos 4711; time = 1700000000 }

abbrev runtime : Runtime ℕ
runtime = record { host = codes "localhost"; port = pos 1883; rate_hz = 50; running = true }

abbrev nothing_held : Held
nothing_held = record {
  gateways = 0;
  servers = 0;
  databases = 0;
  statements = 0;
  sockets = 0;
  clients = 0;
  threads = 0;
  blocks = 0;
}

imu_name : client_id th_imu call ≡ codes "fake-imu-4711-1700000000"
unfolding client_id decimal_time decimal digits
imu_name = refl

publisher_name : client_id th_state call ≡ codes "telemetry-state-4711"
unfolding client_id decimal digits
publisher_name = refl

motor_without_thread :
    motor1_sensor_start (some runtime) true call nothing_held ≡ some (refused 3, nothing_held)
unfolding motor1_sensor_start
motor_without_thread = refl

starts-Balanced_example :
    Balanced nothing_held (imu_sensor_start runtime call nothing_held)
    × Balanced nothing_held (tilt_sensor_start runtime call nothing_held)
    × Balanced nothing_held (motor1_sensor_start (some runtime) true call nothing_held)
    × Balanced nothing_held (motor2_sensor_start (some runtime) true call nothing_held)
    × Balanced nothing_held (telemetry_state_pub_start runtime 20 call nothing_held)
starts-Balanced_example = starts-Balanced runtime (some runtime) true 20 call nothing_held

client_id-tells_example : (th_motor2 ≡ th_motor2) × (pos 4711 ≡ pos 4711)
client_id-tells_example =
    client_id-tells th_motor2 th_motor2 call call (omega arith) (omega arith) refl
