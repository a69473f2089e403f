-- ===== src/App/RobotMain.antt =====
-- main of src/apps/robot_main.c: the options, and the threads that it starts and waits for. What atoi and
-- atof make of a text are parameters.
pub mod Waits
mod Examples
use telemetry_platform_testb.Base.{
  ℕ, Bool, true, false, List, [], ◌∷◌, ◌++◌, Option, none, some, take, codes, same_string,
  if◌then◌else◌,
}
use telemetry_platform_testb.Base.Int.{ℤ, pos}
use telemetry_platform_testb.Types.{CString}
use telemetry_platform_testb.Sensors.{Double}

-- host, port, rate and state_rate.
pub record Setup (R : Type 0) : Type 0 where
  pub host : CString
  pub port : ℤ
  pub rate : R
  pub state_rate : R

-- What the loop over argv comes to: the setup, or the value that main returns at once.
pub data Arguments (R : Type 0) : Type 0 where
  accepted : Setup R → Arguments R
  leave : ℕ → Arguments R

module _ {R : Type 0} ⦃d : Double R⦄ where
  unfoldable pub default_setup : Setup R
  default_setup = record {
    host = codes "127.0.0.1";
    port = pos 1883;
    rate = d.lit 500 1;
    state_rate = d.lit 200 1;
  }

  -- An argument that is no option with a value behind it.
  pub alone : CString → Arguments R
  unfolding same_string
  alone arg = if same_string arg (codes "--help") then leave 0 else leave 1

  module _ (atoi : CString → ℤ) (atof : CString → R) where
    -- What an option does with the argument behind it; the array `host` holds 255 bytes and the NUL.
    pub put_value : CString → Option (CString → Setup R → Setup R)
    unfolding same_string
    put_value arg =
        if same_string arg (codes "--host")
        then some (λ v s. record s { host = take 255 v })
        else if same_string arg (codes "--port")
        then some (λ v s. record s { port = atoi v })
        else if same_string arg (codes "--rate")
        then some (λ v s. record s { rate = atof v })
        else if same_string arg (codes "--state-rate")
        then some (λ v s. record s { state_rate = atof v })
        else none

    pub read_arguments : List CString → Setup R → Arguments R
    unfolding put_value alone
    read_arguments [] s = accepted s
    read_arguments (arg ∷ []) s = alone arg
    read_arguments (arg ∷ v ∷ rest) s = elim (put_value arg) [
      | some put ↦ read_arguments rest (put v s)
      | none ↦ alone arg
    ]

  -- The rates that the sensors and the publisher get.
  pub thread_rates : Setup R → R × R
  thread_rates s = (
    if d.lt (d.lit 0 1) s.rate then s.rate else d.lit 500 1,
    if d.le s.state_rate (d.lit 0 1) then d.lit 200 1 else s.state_rate,
  )

pub data Thread : Type 0 where
  th_imu th_tilt th_motor1 th_motor2 th_state : Thread

-- What main does behind the options, in order: `halts` is `g_running = 0`.
pub data Event : Type 0 where
  lib_init lib_cleanup halts : Event
  starts joins : Thread → Event

abbrev pub join_all : List Thread → List Event
join_all [] = []
join_all (t ∷ ts) = joins t ∷ join_all ts

-- `g_running = 0;`, the joins and the cleanup of a start that failed.
pub fail_after : List Thread → List Event
fail_after ts = halts ∷ (join_all ts ++ (lib_cleanup ∷ []))

-- The starts, with what each *_start answers, and the value that main returns.
pub main_events : Bool → Bool → Bool → Bool → Bool → List Event × ℕ
unfolding fail_after
main_events false tilt motor1 motor2 state = (lib_init ∷ lib_cleanup ∷ [], 1)
main_events true false motor1 motor2 state =
    (lib_init ∷ starts th_imu ∷ fail_after (th_imu ∷ []), 1)
main_events true true false motor2 state =
    (lib_init ∷ starts th_imu ∷ starts th_tilt ∷ fail_after (th_imu ∷ th_tilt ∷ []), 1)
main_events true true true false state = (
  lib_init
      ∷ starts th_imu
      ∷ starts th_tilt
      ∷ starts th_motor1
      ∷ fail_after (th_imu ∷ th_tilt ∷ th_motor1 ∷ []),
  1,
)
main_events true true true true false = (
  lib_init
      ∷ starts th_imu
      ∷ starts th_tilt
      ∷ starts th_motor1
      ∷ starts th_motor2
      ∷ fail_after (th_imu ∷ th_tilt ∷ th_motor1 ∷ th_motor2 ∷ []),
  1,
)
main_events true true true true true = (
  lib_init
      ∷ starts th_imu
      ∷ starts th_tilt
      ∷ starts th_motor1
      ∷ starts th_motor2
      ∷ starts th_state
      ∷ (join_all (th_imu ∷ th_tilt ∷ th_motor1 ∷ th_motor2 ∷ th_state ∷ []) ++ (lib_cleanup ∷ [])),
  0,
)
