-- ===== src/Tick/Examples.antt =====
-- The tick at a rate below 1 Hz, where several seconds are carried.
use telemetry_platform_testb.Base.{◌≡◌, refl, some}
use telemetry_platform_testb.Tick.{Timespec, next_tick}

abbrev start : Timespec
start = record { tv_sec = 7; tv_nsec = 900000000 }

slow_rate : next_tick start 2500000000 ≡ some (record { tv_sec = 10; tv_nsec = 400000000 })
unfolding next_tick
slow_rate = refl
