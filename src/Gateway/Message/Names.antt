-- ===== src/Gateway/Message/Names.antt =====
-- The texts of the samples that on_message of src/core/telemetry_gateway.c builds, and the sample that
-- is built from a published snapshot.
use telemetry_platform_testb.Base.{
  length-take_le, take-all, codes, ℕ, zero, suc, ◌<◌, ◌≡◌, refl, [], ◌∷◌, Option, none, some, arith,
  length,
}
use telemetry_platform_testb.Base.Int.{ℤ}
use telemetry_platform_testb.Types.{
  CString, Header, MotorState, TelemetryMsg, Motor, TelemetryState,
}
use telemetry_platform_testb.Cache.{MotorReading, TelemetryCache}
use telemetry_platform_testb.Publisher.{PubArgs, build_message}
use telemetry_platform_testb.Gateway.Message.{
  topic_telemetry_state, choose, safe_copy, receive_motor, receive_header, to_sample,
}

-- A text that a buffer of `cap` bytes holds with its NUL, and that is not empty.
abbrev pub IsName : ℕ → CString → Type 0
IsName cap s = (0 < length s) × (length s < cap)

-- Into a buffer of at least two bytes, with a fallback that is not empty, safe_copy leaves a text
-- that is not empty and that fits with its NUL, whatever the source.
pub safe_copy-IsName :
    (dst : CString) (cap : ℕ) (src : Option CString) (f : CString)
    → 1 < cap
    → 0 < length f
    → IsName cap (safe_copy dst cap src (some f))
unfolding safe_copy choose
safe_copy-IsName dst zero src f two named = absurd (omega arith)
safe_copy-IsName dst (suc zero) src f two named = absurd (omega arith)
safe_copy-IsName dst (suc (suc n)) none [] two named = absurd (omega arith)
safe_copy-IsName dst (suc (suc n)) none (b ∷ bs) two named = omega (arith, length-take_le n bs)
safe_copy-IsName dst (suc (suc n)) (some []) [] two named = absurd (omega arith)
safe_copy-IsName dst (suc (suc n)) (some []) (b ∷ bs) two named = omega (arith, length-take_le n bs)
safe_copy-IsName dst (suc (suc n)) (some (b ∷ bs)) f two named = omega (arith, length-take_le n bs)

-- A name that fits is copied as it is.
safe_copy-name :
    (dst : CString) (cap : ℕ) (s : CString) (f : Option CString)
    → IsName cap s
    → safe_copy dst cap (some s) f ≡ s
unfolding safe_copy choose
safe_copy-name dst zero s f h = absurd (omega arith)
safe_copy-name dst (suc n) [] f h = absurd (omega arith)
safe_copy-name dst (suc n) (b ∷ bs) f h = take-all (b ∷ bs) n (omega arith)

receive_motor-IsName :
    (name : CString) (m : Option MotorState) → 0 < length name → IsName 32 (receive_motor name m).id
unfolding receive_motor
receive_motor-IsName name none h = safe_copy-IsName [] 32 none name (omega arith) h
receive_motor-IsName name (some m) h = safe_copy-IsName _ 32 m.motor_id name (omega arith) h

receive_header-IsName : (h : Option Header) → IsName 64 (receive_header h).2
unfolding receive_header
receive_header-IsName none = safe_copy-IsName [] 64 none (codes "robot") (omega arith) (omega arith)
receive_header-IsName (some h) =
    safe_copy-IsName _ 64 h.robot_id (codes "robot") (omega arith) (omega arith)

-- Every text of the sample is a name that fits its array, and the topic is the state topic.
pub record IsNamed {F : Type 0} (s : TelemetryState F) : Type 0 where
  pub robot : IsName 64 s.robot_id
  pub imu : IsName 32 s.imu_id
  pub tilt : IsName 32 s.tilt_id
  pub first : IsName 32 s.motor0.id
  pub second : IsName 32 s.motor1.id
  pub same_topic : s.topic ≡ topic_telemetry_state

abbrev of_reading : CString → MotorReading → Motor
of_reading id m = record {
  id = id;
  tics = m.tics;
  rpm = m.rpm;
  temperature_c = m.temp_c;
  voltage_power_stage_mv = m.voltage_mv;
  current_power_stage_ma = m.current_ma;
}

-- The identifiers fit the arrays of telemetry_state_t.
pub record IsFitting (a : PubArgs) : Type 0 where
  pub robot : IsName 64 a.robot_id
  pub imu : IsName 32 a.imu_id
  pub tilt : IsName 32 a.tilt_id
  pub first : IsName 32 a.motor1_id
  pub second : IsName 32 a.motor2_id

module _ {F : Type 0} (zero_f : F) where
  -- Whatever was received, absent parts and texts of any length included, the sample's texts are
  -- not empty and fit their arrays.
  pub to_sample-IsNamed : (now : ℤ) (st : TelemetryMsg F) → IsNamed (to_sample zero_f now st)
  unfolding to_sample
  to_sample-IsNamed now st = record {
    robot = receive_header-IsName st.header;
    imu = safe_copy-IsName _ 32 st.imu_id (codes "imu0") (omega arith) (omega arith);
    tilt = safe_copy-IsName _ 32 st.tilt_id (codes "tilt0") (omega arith) (omega arith);
    first = receive_motor-IsName (codes "motor1") st.motor1 (omega arith);
    second = receive_motor-IsName (codes "motor2") st.motor2 (omega arith);
    same_topic = refl;
  }

  -- The sample that a published snapshot stands for.
  abbrev pub snapshot_sample : ℤ → PubArgs → TelemetryCache F → ℕ → TelemetryState F
  snapshot_sample now a c sent = record {
    received_at_ns = now;
    msg_timestamp_ns = sent;
    seq = c.seq;
    robot_id = a.robot_id;
    imu_id = a.imu_id;
    tilt_id = a.tilt_id;
    acc_g = c.acc_g;
    gyro_dps = c.gyro_dps;
    tilt_deg = c.tilt_deg;
    tilt_status = c.tilt_status;
    motor0 = of_reading a.motor1_id c.motor0;
    motor1 = of_reading a.motor2_id c.motor1;
    topic = topic_telemetry_state;
    raw = none;
    raw_len = 0;
  }

  -- The sample made of a published snapshot has every reading, number and name of the snapshot.
  pub to_sample-build_message :
      (now : ℤ) (a : PubArgs) (c : TelemetryCache F) (sent : ℕ)
      → IsFitting a
      → to_sample zero_f now (build_message a c sent) ≡ snapshot_sample now a c sent
  unfolding to_sample build_message
  to_sample-build_message now a c sent h = simp (
    safe_copy-name _ 64 a.robot_id _ h.robot,
    safe_copy-name _ 32 a.imu_id _ h.imu,
    safe_copy-name _ 32 a.tilt_id _ h.tilt,
    safe_copy-name _ 32 a.motor1_id _ h.first,
    safe_copy-name _ 32 a.motor2_id _ h.second,
  )
