-- ===== src/Starting/Balance.antt =====
-- Who gives back the arguments of the threads of src/sensors/*.c and src/core/telemetry_state_pub.c.
use telemetry_platform_testb.Base.{
  ℕ, suc, ◌≡◌, refl, inl, inr, Bool, true, false, Bool-cases, Option, none, some, if◌then◌else◌,
}
use telemetry_platform_testb.Gateway.Lifecycle.{
  Held, Answers, mqtt_client_connect, mqtt_client_close,
}
use telemetry_platform_testb.Starting.{
  Runtime, Call, Start, refused, started, hand_over, with_block, imu_sensor_start,
  tilt_sensor_start, motor1_sensor_start, motor2_sensor_start, telemetry_state_pub_start,
  sensor_thread,
}

-- A start that fails returns a code other than 0, and holds what it held; one that works leaves a thread
-- that, however its connection goes, gives back what the start took, and nothing else.
pub data Balanced {A : Type 0} (l : Held) (result : Option (Start A × Held)) : Type 0 where
  fails : (n : ℕ) → result ≡ some (refused (suc n), l) → Balanced l result
  works :
      (args : A) (held : Held)
      → result ≡ some (started args, held)
      → ((a : Answers) → sensor_thread a held ≡ some l)
      → Balanced l result

sensor_thread-gives : (l : Held) (a : Answers) → sensor_thread a (with_block l) ≡ some l
unfolding sensor_thread mqtt_client_connect mqtt_client_close
sensor_thread-gives l a = elim (Bool-cases a.mosq_new) [
  | inr none_new ↦ rw none_new refl
  | inl new ↦ elim (Bool-cases a.connect) [
    | inr refused_by ↦ rw (new, refused_by) refl
    | inl there ↦ elim (Bool-cases a.loop_start) [
      | inr stuck ↦ rw (new, there, stuck) refl
      | inl on ↦ rw (new, there, on) refl
    ]
  ]
]

module _ {A : Type 0} (l : Held) where
  hand_over-Balanced :
      (created : Bool) (args : A) (n : ℕ)
      → Balanced l (hand_over created args (suc n) (with_block l))
  unfolding hand_over
  hand_over-Balanced true args n = works args (with_block l) refl (sensor_thread-gives l)
  hand_over-Balanced false args n = fails n refl

  -- `if(!a) return -code;`
  allocated-Balanced :
      (room : Bool) (code : ℕ) (onward : Option (Start A × Held))
      → Balanced l onward
      → Balanced l (if room then onward else some (refused (suc code), l))
  allocated-Balanced true code onward b = b
  allocated-Balanced false code onward b = fails code refl

module _ {R : Type 0} where
  imu_sensor_start-Balanced :
      (rt : Runtime R) (c : Call) (l : Held) → Balanced l (imu_sensor_start rt c l)
  unfolding imu_sensor_start
  imu_sensor_start-Balanced rt c l =
      allocated-Balanced l c.room 0 _ (hand_over-Balanced l c.created _ 1)

  tilt_sensor_start-Balanced :
      (rt : Runtime R) (c : Call) (l : Held) → Balanced l (tilt_sensor_start rt c l)
  unfolding tilt_sensor_start
  tilt_sensor_start-Balanced rt c l =
      allocated-Balanced l c.room 0 _ (hand_over-Balanced l c.created _ 1)

  motor1_sensor_start-Balanced :
      (rt : Option (Runtime R)) (out : Bool) (c : Call) (l : Held)
      → Balanced l (motor1_sensor_start rt out c l)
  unfolding motor1_sensor_start
  motor1_sensor_start-Balanced none out c l = fails 0 refl
  motor1_sensor_start-Balanced (some rt) false c l = fails 0 refl
  motor1_sensor_start-Balanced (some rt) true c l =
      allocated-Balanced l rt.running 0 _
        (allocated-Balanced l c.room 1 _ (hand_over-Balanced l c.created _ 2))

  motor2_sensor_start-Balanced :
      (rt : Option (Runtime R)) (out : Bool) (c : Call) (l : Held)
      → Balanced l (motor2_sensor_start rt out c l)
  unfolding motor2_sensor_start
  motor2_sensor_start-Balanced none out c l = fails 0 refl
  motor2_sensor_start-Balanced (some rt) false c l = fails 0 refl
  motor2_sensor_start-Balanced (some rt) true c l =
      allocated-Balanced l rt.running 0 _
        (allocated-Balanced l c.room 1 _ (hand_over-Balanced l c.created _ 2))

  telemetry_state_pub_start-Balanced :
      (rt : Runtime R) (rate : R) (c : Call) (l : Held)
      → Balanced l (telemetry_state_pub_start rt rate c l)
  unfolding telemetry_state_pub_start
  telemetry_state_pub_start-Balanced rt rate c l =
      allocated-Balanced l c.room 0 _ (hand_over-Balanced l c.created _ 1)

  -- Each of the five starts, whatever its arguments and whatever calloc and pthread_create answer: it
  -- returns a code other than 0 and holds what it held before, or it returns 0 and leaves a thread that,
  -- however its connection to the broker goes, gives back the block of arguments and its connection, each
  -- once. Nothing is given back twice.
  pub starts-Balanced :
      (rt : Runtime R) (pointer : Option (Runtime R)) (out : Bool) (rate : R) (c : Call) (l : Held)
      → Balanced l (imu_sensor_start rt c l)
        × Balanced l (tilt_sensor_start rt c l)
        × Balanced l (motor1_sensor_start pointer out c l)
        × Balanced l (motor2_sensor_start pointer out c l)
        × Balanced l (telemetry_state_pub_start rt rate c l)
  starts-Balanced rt pointer out rate c l = (
    imu_sensor_start-Balanced rt c l,
    tilt_sensor_start-Balanced rt c l,
    motor1_sensor_start-Balanced pointer out c l,
    motor2_sensor_start-Balanced pointer out c l,
    telemetry_state_pub_start-Balanced rt rate c l,
  )
