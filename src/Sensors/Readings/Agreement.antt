-- ===== src/Sensors/Readings/Agreement.antt =====
-- A round of the IMU and of the tilt thread of src/sensors/*.c: what the messages carry, and what a
-- snapshot of the cache shows, come from the same readings.
use telemetry_platform_testb.Base.{
  min, [], ◌∷◌, codes, ◌∙◌, ℕ, ◌+◌, ◌≡◌, refl, sym, List, some, arith, ◌>>=◌,
}
use telemetry_platform_testb.Base.Int.{ℤ, pos, negsuc}
use telemetry_platform_testb.Types.{Vec3f}
use telemetry_platform_testb.Pack.{clamp_i16}
use telemetry_platform_testb.Pack.RoundTrip.{read_i16_le, read_u16_le, tilt_payload-read}
use telemetry_platform_testb.Tick.{total_ns, next_tick-Advances}
use telemetry_platform_testb.Cache.{TelemetryCache, set_tilt, get}
use telemetry_platform_testb.Sensors.{Double, Random}
use telemetry_platform_testb.Sensors.Motor.Published.{payload_at, topics_of}
use telemetry_platform_testb.Sensors.Readings.{
  Clock, Turn, floats, tilt_signals, tilt_lsb_per_deg, steps, sensor_period, tilt_turn, tilt_round,
}

-- The nearest of the numbers from -32768 to 32767.
abbrev pub saturated : ℤ → ℤ
saturated (pos n) = pos (min n 32767)
saturated (negsuc n) = negsuc (min n 32767)

clamp_i16-saturated : (z : ℤ) → clamp_i16 z ≡ saturated z
unfolding clamp_i16
clamp_i16-saturated (pos n) = ground arith
clamp_i16-saturated (negsuc n) = ground arith

-- The three words at the front of a payload are the readings, in steps and saturated.
abbrev pub Carries : {R : Type 0} ⦃d : Double R⦄ → R → Vec3f R → List ℕ → Type 0
Carries lsb v payload =
    (read_i16_le payload 0 ≡ saturated (steps lsb v.x))
    × (read_i16_le payload 2 ≡ saturated (steps lsb v.y))
    × (read_i16_le payload 4 ≡ saturated (steps lsb v.z))

module _ {R F : Type 0} ⦃d : Double R⦄ (r : Random) (to_float : R → F) (rate : R) (k : Clock R)
    (c : TelemetryCache F) where
  -- The same for the tilt thread and its message, which carries the status word as well.
  pub tilt_round-agrees :
      let s = tilt_signals r k.t k.seed in
      (turn : Turn R F) × (after : TelemetryCache F) × (tilt_round to_float rate k (some c) r
        ≡ some turn)
      × (turn.cache ≡ some after)
      × (topics_of turn.messages ≡ codes "/robot/sensors/tilt0/tilt" ∷ [])
      × ((get after).tilt_deg ≡ floats to_float s.0)
      × ((get after).tilt_status ≡ read_u16_le (payload_at 0 turn.messages) 6)
      × Carries (d.lit 1820 1) s.0 (payload_at 0 turn.messages)
      × (total_ns turn.clock.next ≡ total_ns k.next + sensor_period rate)
  unfolding tilt_round tilt_turn get set_tilt
  tilt_round-agrees =
      let s = tilt_signals r k.t k.seed in
      let adv = next_tick-Advances k.next (sensor_period rate) in
      let tilt =
        tilt_payload-read (steps tilt_lsb_per_deg s.0.x) (steps tilt_lsb_per_deg s.0.y)
          (steps tilt_lsb_per_deg s.0.z) 0 (omega arith) in
      (
        tilt_turn to_float rate k (some c) s adv.deadline,
        _,
        rw (adv.returns, ◌>>=◌) refl,
        refl,
        refl,
        refl,
        sym tilt.4,
        (
          tilt.1 ∙ clamp_i16-saturated _,
          tilt.2 ∙ clamp_i16-saturated _,
          tilt.3 ∙ clamp_i16-saturated _,
        ),
        adv.total,
      )
