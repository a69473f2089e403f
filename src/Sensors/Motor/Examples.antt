-- ===== src/Sensors/Motor/Examples.antt =====
-- A round of the motor threads of src/sensors/*.c.
use telemetry_platform_testb.Base.{
  codes, ℕ, ◌*◌, ◌/◌, ◌^◌, ◌≤◌, ◌<◌, ◌≡◌, refl, arith, ltb, ltb→lt, ltb→le, lt→ltb, le→ltb,
  Bool-cases, passes, passes-at, inl, inr, some,
}
use telemetry_platform_testb.Tick.{total_ns}
use telemetry_platform_testb.Cache.{TelemetryCache, init, get}
use telemetry_platform_testb.Sensors.Fixed.{unit, fixed, counting}
use telemetry_platform_testb.Sensors.Motor.{Locals, motor_period, Round, motor1_round, motor2_round}
use telemetry_platform_testb.Sensors.Motor.Published.{
  read_motor, topics_of, motor_topics, motor_rounds-published,
}
use telemetry_platform_testb.Sensors.Motor.Limits.{HasDigits}

places : (n : ℕ) → n ≤ 15 → 0 < unit / 10 ^ n
unfolding passes
places n h =
    ltb→lt 0 (unit / 10 ^ n) (passes-at (λ n. ltb 0 (unit / 10 ^ n)) 16 refl n (omega arith))

scaled_lt : (a b k : ℕ) → 0 < k → a < b → a * k < b * k
scaled_lt a b k hk h = grind arith

scaled_le : (a b k : ℕ) → b ≤ a → b * k ≤ a * k
scaled_le a b k h = grind arith

fixed-HasDigits : HasDigits ℕ
fixed-HasDigits = record {
  lit_lt = λ a b n few ha hb.
      let k : ℕ = unit / 10 ^ n in
      let some_k : 0 < k = places n few in
      elim (Bool-cases (ltb a b)) [
        | inl less ↦
            let h = ltb→lt a b less in rw less (lt→ltb (a * k) (b * k) (scaled_lt a b k some_k h))
        | inr not_less ↦
            let h = ltb→le a b not_less in rw not_less (le→ltb (a * k) (b * k) (scaled_le a b k h))
      ];
}

abbrev start : Locals ℕ
start = record {
  t = 0;
  tick_frac = 0;
  tick_count = 4294967290;
  temp_c_state = 32 * unit;
  seed = 7;
  next = record { tv_sec = 5; tv_nsec = 990000000 };
}

motor_rounds-published_example :
    let c : TelemetryCache ℕ = init 0 in
    ((one : Round ℕ ℕ) × (after : TelemetryCache ℕ) × (motor1_round counting
          (50 * unit)
          start
          (some c)
        ≡ some one)
      × (one.cache ≡ some after)
      × (topics_of one.messages ≡ motor_topics (codes "/robot/sensors/motor1/"))
      × ((get after).motor0 ≡ read_motor one.messages)
      × ((get after).motor1 ≡ (get c).motor1)
      × (total_ns one.locals.next ≡ 6010000000))
    × ((two : Round ℕ ℕ) × (after : TelemetryCache ℕ) × (motor2_round counting
            (50 * unit)
            start
            (some c)
          ≡ some two)
        × (two.cache ≡ some after)
        × (topics_of two.messages ≡ motor_topics (codes "/robot/sensors/motor2/"))
        × ((get after).motor1 ≡ read_motor two.messages)
        × ((get after).motor0 ≡ (get c).motor0)
        × (total_ns two.locals.next ≡ 6010000000))
unfolding motor_period
motor_rounds-published_example = motor_rounds-published counting (50 * unit) start (init 0)
