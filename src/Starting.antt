-- ===== src/Starting.antt =====
-- imu_sensor_start, tilt_sensor_start, motor1_sensor_start and motor2_sensor_start of src/sensors/*.c and
-- telemetry_state_pub_start of src/core/telemetry_state_pub.c: the block of arguments that each hands
-- to its thread, and what the thread takes and gives back around its loop. What calloc, pthread_create,
-- getpid and time answer are arguments.
pub mod Balance
pub mod Identity
mod Examples
use telemetry_platform_testb.Base.{
  ℕ, zero, suc, ◌+◌, Bool, true, false, List, [], ◌∷◌, ◌++◌, Option, none, some, ◌>>=◌, take, codes,
  if◌then◌else◌,
}
use telemetry_platform_testb.Base.Int.{ℤ}
use telemetry_platform_testb.Types.{CString}
use telemetry_platform_testb.Libc.{decimal, digits}
use telemetry_platform_testb.Publisher.{PubArgs}
use telemetry_platform_testb.App.RobotMain.{Thread, th_imu, th_tilt, th_motor1, th_motor2, th_state}
use telemetry_platform_testb.Gateway.Lifecycle.{
  Held, Answers, Handles, debit, nothing_open, mqtt_client_connect, mqtt_client_close,
}

-- sensor_runtime_t; `running` tells whether the pointer to the flag is not NULL.
pub record Runtime (R : Type 0) : Type 0 where
  pub host : CString
  pub port : ℤ
  pub rate_hz : R
  pub running : Bool

-- The arguments of a sensor's thread, and those of the publisher; the cache is passed on as it is.
pub record Args (R : Type 0) : Type 0 where
  pub rt : Runtime R
  pub client_id : CString

pub record StateArgs (R : Type 0) : Type 0 where
  pub args : Args R
  pub ids : PubArgs
  pub state_rate_hz : R

-- What the calls of the system answer; the time is in seconds, and not negative.
pub record Call : Type 0 where
  pub room : Bool
  pub created : Bool
  pub pid : ℤ
  pub time : ℕ

-- What a start comes to: the value it returns, without the sign, or a thread with its arguments.
pub data Start (A : Type 0) : Type 0 where
  refused : ℕ → Start A
  started : A → Start A

-- %ld of a time; a long has at most nineteen digits.
unfoldable pub decimal_time : ℕ → CString
decimal_time n = digits 18 n []

-- snprintf(a->client_id, 64, …)
pub client_id : Thread → Call → CString
unfolding decimal_time
client_id th_imu c =
    take 63 (codes "fake-imu-" ++ (decimal c.pid ++ (codes "-" ++ decimal_time c.time)))
client_id th_tilt c =
    take 63 (codes "fake-tilt-" ++ (decimal c.pid ++ (codes "-" ++ decimal_time c.time)))
client_id th_motor1 c =
    take 63 (codes "fake-motor1-" ++ (decimal c.pid ++ (codes "-" ++ decimal_time c.time)))
client_id th_motor2 c =
    take 63 (codes "fake-motor2-" ++ (decimal c.pid ++ (codes "-" ++ decimal_time c.time)))
client_id th_state c = take 63 (codes "telemetry-state-" ++ decimal c.pid)

-- `if(pthread_create(…) != 0){ free(a); return code; } return 0;`
pub hand_over : {A : Type 0} → Bool → A → ℕ → Held → Option (Start A × Held)
hand_over true args code l = some (started args, l)
hand_over false args code l = debit l.blocks >>= λ n. some (refused code, record l { blocks = n })

-- calloc of the arguments.
abbrev pub with_block : Held → Held
with_block l = record l { blocks = suc l.blocks }

-- The ids that telemetry_state_pub_start sets.
abbrev pub state_ids : PubArgs
state_ids = record {
  robot_id = codes "robot_sim";
  imu_id = codes "imu0";
  tilt_id = codes "tilt0";
  motor1_id = codes "motor1";
  motor2_id = codes "motor2";
}

module _ {R : Type 0} where
  pub imu_sensor_start : Runtime R → Call → Held → Option (Start (Args R) × Held)
  unfolding hand_over
  imu_sensor_start rt c l =
      let a : Args R = record { rt = rt; client_id = client_id th_imu c } in
      if c.room then hand_over c.created a 2 (with_block l) else some (refused 1, l)

  pub tilt_sensor_start : Runtime R → Call → Held → Option (Start (Args R) × Held)
  unfolding hand_over
  tilt_sensor_start rt c l =
      let a : Args R = record { rt = rt; client_id = client_id th_tilt c } in
      if c.room then hand_over c.created a 2 (with_block l) else some (refused 1, l)

  -- A motor's start checks its arguments: `out` tells whether out_thread is not NULL.
  pub motor1_sensor_start : Option (Runtime R) → Bool → Call → Held → Option (Start (Args R) × Held)
  unfolding hand_over
  motor1_sensor_start none out c l = some (refused 1, l)
  motor1_sensor_start (some rt) false c l = some (refused 1, l)
  motor1_sensor_start (some rt) true c l =
      let a : Args R = record { rt = rt; client_id = client_id th_motor1 c } in
      let onward = if c.room then hand_over c.created a 3 (with_block l) else some (refused 2, l) in
      if rt.running then onward else some (refused 1, l)

  pub motor2_sensor_start : Option (Runtime R) → Bool → Call → Held → Option (Start (Args R) × Held)
  unfolding hand_over
  motor2_sensor_start none out c l = some (refused 1, l)
  motor2_sensor_start (some rt) false c l = some (refused 1, l)
  motor2_sensor_start (some rt) true c l =
      let a : Args R = record { rt = rt; client_id = client_id th_motor2 c } in
      let onward = if c.room then hand_over c.created a 3 (with_block l) else some (refused 2, l) in
      if rt.running then onward else some (refused 1, l)

  pub telemetry_state_pub_start : Runtime R → R → Call → Held → Option (Start (StateArgs R) × Held)
  unfolding hand_over
  telemetry_state_pub_start rt rate c l =
      let a : StateArgs R = record {
        args = record { rt = rt; client_id = client_id th_state c };
        ids = state_ids;
        state_rate_hz = rate;
      } in
      if c.room then hand_over c.created a 2 (with_block l) else some (refused 1, l)

-- The five threads around their loops: a connection, or none; `mqtt_client_close(&cli);`; `free(a);`.
pub sensor_thread : Answers → Held → Option Held
sensor_thread a l =
    let end_ : Held → Option Held =
      λ held. debit held.blocks >>= λ n. some (record held { blocks = n }) in
    mqtt_client_connect a nothing_open l >>= λ o. elim o.0 [
      | zero ↦ mqtt_client_close o.1 o.2 >>= end_
      | suc _ ↦ end_ o.2
    ]
