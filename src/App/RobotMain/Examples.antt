-- ===== src/App/RobotMain/Examples.antt =====
-- A command line and a run of src/apps/robot_main.c.
use telemetry_platform_testb.Base.{ℕ, ◌*◌, ◌≡◌, ◌⊎◌, refl, true, false, [], ◌∷◌, codes, same_string}
use telemetry_platform_testb.Base.Int.{ℤ, pos}
use telemetry_platform_testb.Types.{CString}
use telemetry_platform_testb.Sensors.Fixed.{unit, fixed}
use telemetry_platform_testb.App.RobotMain.{
  Setup, accepted, default_setup, put_value, read_arguments, thread_rates, main_events,
}
use telemetry_platform_testb.App.RobotMain.Waits.{
  started, joined, halts_first, within_library, main_events-waits, robot_arguments,
}

-- Texts of one byte, which is the number.
abbrev read_byte : CString → ℕ
read_byte [] = 0
read_byte (c ∷ s) = c

abbrev byte : ℕ → CString
byte n = n ∷ []

abbrev byte_of : ℤ → CString
byte_of (pos n) = byte n
byte_of _ = []

abbrev wanted : Setup ℕ
wanted = record { host = codes "broker"; port = pos 200; rate = 100; state_rate = 0 }

-- A rate of zero falls back to 20 Hz.
falls_back : thread_rates wanted ≡ (100, 20 * unit)
unfolding thread_rates
falls_back = refl

main_events-waits_example :
    let run = main_events true true false true true in
    (joined run.0 ≡ started run.0)
    × (within_library false run.0 ≡ true)
    × (run.1 ≡ 1)
    × ((run.1 ≡ 0) ⊎ (halts_first run.0 ≡ true))
main_events-waits_example = main_events-waits true true false true true

reads_wanted :
    read_arguments
      (λ v. pos (read_byte v))
      read_byte
      (robot_arguments (λ v. pos (read_byte v)) read_byte byte_of byte wanted)
      default_setup
    ≡ accepted wanted
unfolding read_arguments put_value default_setup same_string
reads_wanted = refl
