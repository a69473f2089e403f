-- ===== src/Sensors/Motor/Published.antt =====
-- A round of the motor threads of src/sensors/*.c: what a subscriber reads in its messages, and what a
-- snapshot of the cache shows.
use telemetry_platform_testb.Base.{
  ◌∷◌, ◌++◌, ℕ, ◌+◌, ◌<◌, ◌≡◌, refl, ap, sym, arith, List, [], Option, some, get_or, replicate,
  codes, ◌>>=◌,
}
use telemetry_platform_testb.Base.Int.{ℤ, pos, negsuc, ◌≤ℤ◌}
use telemetry_platform_testb.Types.{CString}
use telemetry_platform_testb.Pack.RoundTrip.{
  read_i16_le, read_u32_le, read_i32_le, clamp_i16_saturates, pack_i16_le-read, pack_u32_le-read,
  pack_i32_le-read,
}
use telemetry_platform_testb.Tick.{total_ns, next_tick-Advances}
use telemetry_platform_testb.Cache.{MotorReading, TelemetryCache, set_motor, get}
use telemetry_platform_testb.Sensors.{Double, Random, clamp_i32_ll, Message}
use telemetry_platform_testb.Sensors.Signals.{Signals, motor1_signals, motor2_signals}
use telemetry_platform_testb.Sensors.Motor.{
  Locals, motor_messages, reported, motor_rate, motor_period, encoder, reading, Round, report,
  motor1_round, motor2_round,
}

-- The topics of the messages, in order.
abbrev pub topics_of : List Message → List CString
topics_of [] = []
topics_of (m ∷ ms) = m.topic ∷ topics_of ms

abbrev pub motor_topics : CString → List CString
motor_topics prefix =
    (prefix ++ codes "tics")
    ∷ (prefix ++ codes "rpm")
    ∷ (prefix ++ codes "temperature")
    ∷ (prefix ++ codes "voltage_power_stage")
    ∷ (prefix ++ codes "current_power_stage")
    ∷ []

-- What a subscriber of the five topics reads, in the order of `motor_topics`.
abbrev pub payload_at : ℕ → List Message → List ℕ
payload_at i ms = (get_or ms i (record { topic = []; payload = [] })).payload

abbrev pub read_motor : List Message → MotorReading
read_motor ms = record {
  tics = read_u32_le (payload_at 0 ms) 0;
  rpm = read_i16_le (payload_at 1 ms) 0;
  temp_c = read_i16_le (payload_at 2 ms) 0;
  voltage_mv = read_i32_le (payload_at 3 ms) 0;
  current_ma = read_i32_le (payload_at 4 ms) 0;
}

-- The values fit the types of their payloads.
abbrev pub Fits16 : ℤ → Type 0
Fits16 v = (negsuc 32767 ≤ℤ v) × (v ≤ℤ pos 32767)

abbrev pub Fits32 : ℤ → Type 0
Fits32 v = (negsuc 2147483647 ≤ℤ v) × (v ≤ℤ pos 2147483647)

pub record IsSendable (m : MotorReading) : Type 0 where
  pub tics_fit : m.tics < 4294967296
  pub rpm_fits : Fits16 m.rpm
  pub temp_fits : Fits16 m.temp_c
  pub voltage_fits : Fits32 m.voltage_mv
  pub current_fits : Fits32 m.current_ma

read_motor-messages :
    (prefix : CString) (m : MotorReading) → IsSendable m → read_motor (motor_messages prefix m) ≡ m
unfolding motor_messages
read_motor-messages prefix m ok =
    let tics = (pack_u32_le-read (replicate 4 0) 0 m.tics (omega arith) ok.tics_fit).0 in
    let rpm =
      (pack_i16_le-read (replicate 2 0) 0 m.rpm (omega arith) ok.rpm_fits.0 ok.rpm_fits.1).0 in
    let temp =
      (pack_i16_le-read (replicate 2 0) 0 m.temp_c (omega arith) ok.temp_fits.0 ok.temp_fits.1).0 in
    let voltage =
      (pack_i32_le-read (replicate 4 0) 0 m.voltage_mv (omega arith) ok.voltage_fits.0
        ok.voltage_fits.1).0 in
    let current =
      (pack_i32_le-read (replicate 4 0) 0 m.current_ma (omega arith) ok.current_fits.0
        ok.current_fits.1).0 in
    λ i. record {
      tics = tics i;
      rpm = rpm i;
      temp_c = temp i;
      voltage_mv = voltage i;
      current_ma = current i;
    }

-- clamp_i32_ll lands in the range of int32_t, keeps what is in it, and keeps the order.
pub clamp_i32_ll_saturates :
    (v w : ℤ)
    → Fits32 (clamp_i32_ll v)
      × (v ≤ℤ w → clamp_i32_ll v ≤ℤ clamp_i32_ll w)
      × (Fits32 v → clamp_i32_ll v ≡ v)
unfolding clamp_i32_ll
clamp_i32_ll_saturates v w = ((ground arith, ground arith), λ h. ground arith, λ h. ground arith)

module _ {R : Type 0} ⦃d : Double R⦄ where
  reading-IsSendable :
      (ticks : ℕ) (s : Signals R) → ticks < 4294967296 → IsSendable (reading ticks s)
  unfolding reading
  reading-IsSendable ticks s h =
      let rpm = clamp_i16_saturates (d.lround s.rpm_motor) (pos 0) in
      let temp = clamp_i16_saturates (d.lround s.temp_c) (pos 0) in
      record {
        tics_fit = h;
        rpm_fits = (rpm.0, rpm.1);
        temp_fits = (temp.0, temp.1);
        voltage_fits = (clamp_i32_ll_saturates (d.lround s.v_ps_mv) (pos 0)).0;
        current_fits = (clamp_i32_ll_saturates (d.lround s.i_ps_ma) (pos 0)).0;
      }

  encoder_lt : (dt rpm frac : R) (count : ℕ) → (encoder dt rpm frac count).1 < 4294967296
  unfolding encoder
  encoder_lt dt rpm frac count = omega arith

module _ {R F : Type 0} ⦃d : Double R⦄ where
  -- What a round promises.
  pub record Reports (index : ℤ) (prefix : CString) (rate : R) (l : Locals R) (c : TelemetryCache F)
      (result : Option (Round R F)) : Type 0 where
    pub out : Round R F
    pub returns : result ≡ some out
    pub topics : topics_of out.messages ≡ motor_topics prefix
    pub cached : out.cache ≡ some (set_motor c index (read_motor out.messages))
    pub deadline : total_ns out.locals.next ≡ total_ns l.next + motor_period rate

  report-Reports :
      (index : ℤ) (prefix : CString) (rate : R) (l : Locals R) (c : TelemetryCache F)
      (s : Signals R)
      → Reports index prefix rate l c (report index prefix rate l (some c) s)
  unfolding report reported motor_messages
  report-Reports index prefix rate l c s =
      let dt = d.div (d.lit 10 1) (motor_rate rate) in
      let ticks = encoder dt s.rpm_motor l.tick_frac l.tick_count in
      let m = reading ticks.1 s in
      let adv = next_tick-Advances l.next (motor_period rate) in
      let sent =
        read_motor-messages prefix m
          (reading-IsSendable ticks.1 s (encoder_lt dt s.rpm_motor l.tick_frac l.tick_count)) in
      record {
        out = reported index prefix rate l (some c) s adv.deadline;
        returns = rw (adv.returns, ◌>>=◌) refl;
        topics = refl;
        cached = ap (λ m. some (set_motor c index m)) (sym sent);
        deadline = adv.total;
      }

-- For both motors and every arithmetic, noise and state: a round ends; it publishes on the five topics of
-- the motor, in the order of `motor_topics`; what a subscriber of them reads is the reading that the thread stores in the cache under the number of the motor, so that a
-- snapshot shows it in its column, and the other column as before; and the deadline is one period later.
pub motor_rounds-published :
    {R F : Type 0} ⦃d : Double R⦄ (r : Random) (rate : R) (l : Locals R) (c : TelemetryCache F)
    → ((one : Round R F) × (after : TelemetryCache F) × (motor1_round r rate l (some c) ≡ some one)
        × (one.cache ≡ some after)
        × (topics_of one.messages ≡ motor_topics (codes "/robot/sensors/motor1/"))
        × ((get after).motor0 ≡ read_motor one.messages)
        × ((get after).motor1 ≡ (get c).motor1)
        × (total_ns one.locals.next ≡ total_ns l.next + motor_period rate))
      × ((two : Round R F) × (after : TelemetryCache F) × (motor2_round r rate l (some c)
            ≡ some two)
          × (two.cache ≡ some after)
          × (topics_of two.messages ≡ motor_topics (codes "/robot/sensors/motor2/"))
          × ((get after).motor1 ≡ read_motor two.messages)
          × ((get after).motor0 ≡ (get c).motor0)
          × (total_ns two.locals.next ≡ total_ns l.next + motor_period rate))
unfolding motor1_round motor2_round set_motor get
motor_rounds-published r rate l c =
    let one =
      report-Reports (pos 1) (codes "/robot/sensors/motor1/") rate l c
        (motor1_signals r l.t l.temp_c_state l.seed) in
    let two =
      report-Reports (pos 2) (codes "/robot/sensors/motor2/") rate l c
        (motor2_signals r l.t l.temp_c_state l.seed) in
    (
      (one.out, _, one.returns, one.cached, one.topics, refl, refl, one.deadline),
      (two.out, _, two.returns, two.cached, two.topics, refl, refl, two.deadline),
    )
