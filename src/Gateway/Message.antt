-- ===== src/Gateway/Message.antt =====
-- on_message of src/core/telemetry_gateway.c: from a received message to a queued sample.
-- protobuf-c's unpack, the wall clock and malloc are arguments. The gateway and message pointers are
-- not NULL.
pub mod Names
pub mod Receive
mod Examples
use Prim.Native.Char.{code}
use Prim.Native.String.{String}
use telemetry_platform_testb.Base.{
  codes, same_string, ◌>>=◌, ℕ, zero, suc, ◌+◌, ◌-◌, ◌%◌, ◌^◌, Bool, true, false, not, ◌&&◌, List,
  [], ◌∷◌, Option, none, some, ◌==◌, take, length, if◌then◌else◌,
}
use telemetry_platform_testb.Base.Int.{ℤ, pos}
use telemetry_platform_testb.Gateway.Queue.{Queue, queue_push}
use telemetry_platform_testb.Types.{
  CString, Vec3f, Header, MotorState, TelemetryMsg, Motor, TelemetryState,
}

abbrev pub topic_telemetry_state : CString
topic_telemetry_state = codes "/robot/v1/telemetry/state"

-- `(src && src[0]) ? src : fallback`, and "" if that is NULL.
pub choose : Option CString → Option CString → CString
choose (some (b ∷ bs)) fallback = b ∷ bs
choose (some []) none = []
choose (some []) (some f) = f
choose none none = []
choose none (some f) = f

-- safe_copy into a buffer of `cap` bytes that holds `dst`: snprintf writes at most cap - 1 bytes and
-- the NUL. A buffer of no bytes is left alone.
pub safe_copy : CString → ℕ → Option CString → Option CString → CString
unfolding choose
safe_copy dst zero src fallback = dst
safe_copy dst (suc n) src fallback = take n (choose src fallback)

-- The NULL-terminated defaults are safe_copy(…, NULL, "motor1") into a zeroed struct.
default_motor : CString → Motor
default_motor name = record {
  id = safe_copy [] 32 none (some name);
  tics = 0;
  rpm = pos 0;
  temperature_c = pos 0;
  voltage_power_stage_mv = pos 0;
  current_power_stage_ma = pos 0;
}

-- `if(st->motor1){ … }`
pub receive_motor : CString → Option MotorState → Motor
unfolding default_motor
receive_motor name none = default_motor name
receive_motor name (some m) = record {
  id = safe_copy (default_motor name).id 32 m.motor_id (some name);
  tics = m.tics;
  rpm = m.rpm;
  temperature_c = m.temperature_c;
  voltage_power_stage_mv = m.voltage_power_stage_mv;
  current_power_stage_ma = m.current_power_stage_ma;
}

-- `if(st->header){ … }`: seq, msg_timestamp_ns and robot_id.
pub receive_header : Option Header → ℕ × ℕ × CString
receive_header none = (0, 0, safe_copy [] 64 none (some (codes "robot")))
receive_header (some h) = (
  h.seq,
  h.timestamp_ns,
  safe_copy (safe_copy [] 64 none (some (codes "robot"))) 64 h.robot_id (some (codes "robot")),
)

receive_vec : {F : Type 0} → F → Option (Vec3f F) → Vec3f F
receive_vec zero_f none = record { x = zero_f; y = zero_f; z = zero_f }
receive_vec zero_f (some v) = v

-- The sample built from an unpacked message, before the raw copy; `zero_f` is 0.0f.
pub to_sample : {F : Type 0} → F → ℤ → TelemetryMsg F → TelemetryState F
unfolding receive_motor receive_header receive_vec
to_sample zero_f now st =
    let h = receive_header st.header in
    record {
      received_at_ns = now;
      msg_timestamp_ns = h.1;
      seq = h.0;
      robot_id = h.2;
      imu_id =
          safe_copy (safe_copy [] 32 none (some (codes "imu0"))) 32 st.imu_id (some (codes "imu0"));
      tilt_id =
          safe_copy (safe_copy [] 32 none (some (codes "tilt0"))) 32 st.tilt_id
            (some (codes "tilt0"));
      acc_g = receive_vec zero_f st.acc_g;
      gyro_dps = receive_vec zero_f st.gyro_dps;
      tilt_deg = receive_vec zero_f st.tilt_deg;
      tilt_status = st.tilt_status;
      motor0 = receive_motor (codes "motor1") st.motor1;
      motor1 = receive_motor (codes "motor2") st.motor2;
      topic = topic_telemetry_state;
      raw = none;
      raw_len = 0;
    }

-- The raw copy of the payload; `got` tells whether malloc gave it room.
pub copy_raw : {F : Type 0} → Bool → List ℕ → TelemetryState F → TelemetryState F
copy_raw got [] s = s
copy_raw false (b ∷ bs) s = s
copy_raw true (b ∷ bs) s = record s { raw = some (b ∷ bs); raw_len = length (b ∷ bs) % 2 ^ 32 }

-- What mosquitto hands to the callback; payloadlen is the length of the payload.
pub record Received : Type 0 where
  pub topic : Option CString
  pub payload : List ℕ

-- The part of struct telemetry_gateway that the callback reads and writes.
pub record Intake (F : Type 0) : Type 0 where
  pub running : Bool
  pub rx_msgs : ℕ
  pub rx_bytes : ℕ
  pub queue : Queue (TelemetryState F)

-- What the callback gets from outside: the wall clock, malloc's answer and calloc's.
pub record Given : Type 0 where
  pub now_realtime_ns : ℤ
  pub raw_room : Bool
  pub node : Option ℕ

-- rx_msgs and rx_bytes under stats_mu.
pub count_received : {F : Type 0} → Intake F → List ℕ → Intake F
count_received g payload = record g {
  rx_msgs = (g.rx_msgs + 1) % 2 ^ 64;
  rx_bytes = (g.rx_bytes + length payload) % 2 ^ 64;
}

module _ {F : Type 0} (zero_f : F) (unpack : List ℕ → Option (TelemetryMsg F)) where
  -- From the unpacking on; a message that does not unpack is dropped.
  pub store : Intake F → Given → List ℕ → Option (TelemetryMsg F) → Option (Intake F)
  unfolding to_sample copy_raw
  store g e payload none = some g
  store g e payload (some st) = do
    q ←
        queue_push g.queue e.node
          (copy_raw e.raw_room payload (to_sample zero_f e.now_realtime_ns st))
    some (record g { queue = q })

  -- The guards on a topic that is there.
  pub on_topic : Intake F → Given → CString → List ℕ → Option (Intake F)
  unfolding same_string count_received store
  on_topic g e topic payload =
      if not g.running
      then some g
      else if not (same_string topic topic_telemetry_state)
      then some g
      else store (count_received g payload) e payload (unpack payload)

  -- None is an access to freed memory.
  pub on_message : Intake F → Given → Received → Option (Intake F)
  unfolding on_topic
  on_message g e msg = elim msg.topic [
    | none ↦ some g
    | some topic ↦ on_topic g e topic msg.payload
  ]
