-- ===== src/Sensors/Readings/Examples.antt =====
-- A round of the IMU and of the tilt thread of src/sensors/*.c.
use telemetry_platform_testb.Base.{ℕ, ◌*◌, ◌/◌}
use telemetry_platform_testb.Sensors.Fixed.{unit, fixed}
use telemetry_platform_testb.Sensors.Readings.{Clock}

abbrev clock : Clock ℕ
clock = record { t = 3 * unit; seed = 100; next = record { tv_sec = 9; tv_nsec = 5 } }

-- A float of this example counts thousandths.
abbrev thousandths : ℕ → ℕ
thousandths x = x * 1000 / unit
