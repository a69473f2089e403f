-- ===== src/Sensors/Motor.antt =====
-- src/sensors/motor1_sensor.c and motor2_sensor.c: the loop of each motor thread. `t`, `tick_frac`,
-- `tick_count`, `temp_c_state`, the seed and the deadline live across the rounds.
pub mod Published
pub mod Limits
mod Examples
use telemetry_platform_testb.Base.{
  ℕ, zero, suc, ◌+◌, ◌%◌, ◌^◌, Bool, ◌&&◌, List, [], ◌∷◌, ◌++◌, Option, none, some, replicate,
  codes, ◌>>=◌, if◌then◌else◌,
}
use telemetry_platform_testb.Base.Int.{ℤ, pos, pos_part}
use telemetry_platform_testb.Types.{CString}
use telemetry_platform_testb.Pack.{clamp_i16, pack_i16_le, pack_u32_le, pack_i32_le}
use telemetry_platform_testb.Tick.{Timespec, next_tick}
use telemetry_platform_testb.Cache.{MotorReading, TelemetryCache, set_motor}
use telemetry_platform_testb.Sensors.Signals.{Signals, motor1_signals, motor2_signals}
use telemetry_platform_testb.Sensors.{
  Double, ◌⊕◌, ◌⊖◌, ◌⊗◌, ◌⊘◌, Random, clamp_i32_ll, Message, at_least, at_most, turns, noise,
}

pub record Locals (R : Type 0) : Type 0 where
  pub t : R
  pub tick_frac : R
  pub tick_count : ℕ
  pub temp_c_state : R
  pub seed : ℕ
  pub next : Timespec

-- The five messages of a reading.
pub motor_messages : CString → MotorReading → List Message
motor_messages prefix m =
    record { topic = prefix ++ codes "tics"; payload = pack_u32_le (replicate 4 0) 0 m.tics }
    ∷ record { topic = prefix ++ codes "rpm"; payload = pack_i16_le (replicate 2 0) 0 m.rpm }
    ∷ record {
      topic = prefix ++ codes "temperature";
      payload = pack_i16_le (replicate 2 0) 0 m.temp_c;
    }
    ∷ record {
      topic = prefix ++ codes "voltage_power_stage";
      payload = pack_i32_le (replicate 4 0) 0 m.voltage_mv;
    }
    ∷ record {
      topic = prefix ++ codes "current_power_stage";
      payload = pack_i32_le (replicate 4 0) 0 m.current_ma;
    }
    ∷ []

module _ {R : Type 0} ⦃d : Double R⦄ where
  -- rate_hz and period_ns of a thread.
  pub motor_rate : R → R
  motor_rate rate = if d.lt (d.lit 0 1) rate then rate else d.lit 500 1

  pub motor_period : R → ℕ
  unfolding motor_rate
  motor_period rate = pos_part (d.lround (d.lit 1000000000 0 ⊘ motor_rate rate))

  -- The encoder: tick_frac and tick_count after a round.
  pub encoder : R → R → R → ℕ → R × ℕ
  encoder dt rpm_motor tick_frac tick_count =
      let frac = tick_frac ⊕ rpm_motor ⊘ d.lit 600 1 ⊗ d.lit 163840 1 ⊗ dt in
      let ticks_inc = d.to_uint32 (d.floor frac) in
      (frac ⊖ d.lit ticks_inc 0, (tick_count + ticks_inc) % 2 ^ 32)

  -- rpm_i16, temp_i16, v_i32 and i_i32, with the ticks.
  pub reading : ℕ → Signals R → MotorReading
  reading ticks s = record {
    tics = ticks;
    rpm = clamp_i16 (d.lround s.rpm_motor);
    temp_c = clamp_i16 (d.lround s.temp_c);
    voltage_mv = clamp_i32_ll (d.lround s.v_ps_mv);
    current_ma = clamp_i32_ll (d.lround s.i_ps_ma);
  }

-- What a round leaves: the locals, the cache, which may be NULL, and the messages, in their order.
pub record Round (R F : Type 0) : Type 0 where
  pub locals : Locals R
  pub cache : Option (TelemetryCache F)
  pub messages : List Message

module _ {R F : Type 0} ⦃d : Double R⦄ where
  -- A round behind the waveforms, with the deadline that the sleep leaves, and the step of `t`.
  pub reported :
      ℤ → CString → R → Locals R → Option (TelemetryCache F) → Signals R → Timespec → Round R F
  unfolding motor_rate encoder reading motor_messages
  reported index prefix rate l cache s next =
      let dt = d.lit 10 1 ⊘ motor_rate rate in
      let ticks = encoder dt s.rpm_motor l.tick_frac l.tick_count in
      let m = reading ticks.1 s in
      record {
        locals = record {
          t = l.t ⊕ dt;
          tick_frac = ticks.0;
          tick_count = ticks.1;
          temp_c_state = s.temp_c;
          seed = s.seed;
          next = next;
        };
        cache = elim cache [ none ↦ none | some c ↦ some (set_motor c index m) ];
        messages = motor_messages prefix m;
      }

  pub report :
      ℤ → CString → R → Locals R → Option (TelemetryCache F) → Signals R → Option (Round R F)
  unfolding motor_period reported
  report index prefix rate l cache s = next_tick l.next (motor_period rate) >>= λ next.
      some (reported index prefix rate l cache s next)

module _ {R F : Type 0} ⦃d : Double R⦄ (r : Random) where
  pub motor1_round : R → Locals R → Option (TelemetryCache F) → Option (Round R F)
  unfolding report
  motor1_round rate l cache =
      report (pos 1) (codes "/robot/sensors/motor1/") rate l cache
        (motor1_signals r l.t l.temp_c_state l.seed)

  pub motor2_round : R → Locals R → Option (TelemetryCache F) → Option (Round R F)
  unfolding report
  motor2_round rate l cache =
      report (pos 2) (codes "/robot/sensors/motor2/") rate l cache
        (motor2_signals r l.t l.temp_c_state l.seed)
