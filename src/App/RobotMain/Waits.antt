-- ===== src/App/RobotMain/Waits.antt =====
-- What main of src/apps/robot_main.c promises of its options and of its threads.
use telemetry_platform_testb.Base.{
  ◌≤◌, ◌≡◌, ◌⊎◌, inl, inr, refl, Bool, true, false, ◌&&◌, not, List, [], ◌∷◌, take-all, length,
  codes, same_string, if◌then◌else◌,
}
use telemetry_platform_testb.Base.Int.{ℤ}
use telemetry_platform_testb.Types.{CString}
use telemetry_platform_testb.Sensors.{Double}
use telemetry_platform_testb.App.RobotMain.{
  Setup, accepted, default_setup, put_value, read_arguments, Thread, Event, lib_init, lib_cleanup,
  halts, starts, joins, fail_after, main_events,
}

abbrev pub started : List Event → List Thread
started [] = []
started (starts t ∷ es) = t ∷ started es
started (_ ∷ es) = started es

abbrev pub joined : List Event → List Thread
joined [] = []
joined (joins t ∷ es) = t ∷ joined es
joined (_ ∷ es) = joined es

-- No thread is waited for before it is told to end.
abbrev pub halts_first : List Event → Bool
halts_first [] = true
halts_first (halts ∷ es) = true
halts_first (joins t ∷ es) = false
halts_first (_ ∷ es) = halts_first es

-- No thread is started and none is waited for outside the use of the library.
abbrev pub within_library : Bool → List Event → Bool
within_library inside [] = not inside
within_library inside (lib_init ∷ es) = not inside && within_library true es
within_library inside (lib_cleanup ∷ es) = inside && within_library false es
within_library inside (halts ∷ es) = within_library inside es
within_library inside (starts t ∷ es) = inside && within_library inside es
within_library inside (joins t ∷ es) = inside && within_library inside es

-- Whichever of the five starts fails: main waits for exactly the threads that it started, in their order,
-- all between the init and the cleanup of the library; it returns 0 only when all have started, and
-- otherwise 1, and then it tells the threads to end before it waits for any.
pub main_events-waits :
    (imu tilt motor1 motor2 state : Bool)
    → let run = main_events imu tilt motor1 motor2 state in
      (joined run.0 ≡ started run.0)
      × (within_library false run.0 ≡ true)
      × (run.1 ≡ (if imu && tilt && motor1 && motor2 && state then 0 else 1))
      × ((run.1 ≡ 0) ⊎ (halts_first run.0 ≡ true))
unfolding main_events fail_after
main_events-waits false tilt motor1 motor2 state = (refl, refl, refl, inr refl)
main_events-waits true false motor1 motor2 state = (refl, refl, refl, inr refl)
main_events-waits true true false motor2 state = (refl, refl, refl, inr refl)
main_events-waits true true true false state = (refl, refl, refl, inr refl)
main_events-waits true true true true false = (refl, refl, refl, inr refl)
main_events-waits true true true true true = (refl, refl, refl, inl refl)

module _ {R : Type 0} ⦃d : Double R⦄ (atoi : CString → ℤ) (atof : CString → R)
    (show_int : ℤ → CString) (show : R → CString) where
  -- The arguments that name every option.
  abbrev pub robot_arguments : Setup R → List CString
  robot_arguments s =
      codes "--host"
      ∷ s.host
      ∷ codes "--port"
      ∷ show_int s.port
      ∷ codes "--rate"
      ∷ show s.rate
      ∷ codes "--state-rate"
      ∷ show s.state_rate
      ∷ []

  -- Where atoi and atof read back the values as they are written, and the host fits its array, the loop
  -- over the arguments that name all options gives those options.
  pub read_arguments-setup :
      (s : Setup R)
      → length s.host ≤ 255
      → atoi (show_int s.port) ≡ s.port
      → atof (show s.rate) ≡ s.rate
      → atof (show s.state_rate) ≡ s.state_rate
      → read_arguments atoi atof (robot_arguments s) default_setup ≡ accepted s
  unfolding read_arguments put_value default_setup same_string
  read_arguments-setup s fits port rate state_rate =
      rw (take-all s.host 255 fits, port, rate, state_rate) refl
