-- ===== src/Sensors/Readings.antt =====
-- src/sensors/imu_sensor.c and tilt_sensor.c: the loop of each thread. `t`, the seed and the deadline live
-- across the rounds; the conversion from double to float is an argument.
pub mod Agreement
mod Examples
use telemetry_platform_testb.Base.{ℕ, ◌+◌, List, [], ◌∷◌, Option, none, some, codes, ◌>>=◌}
use telemetry_platform_testb.Base.Int.{ℤ}
use telemetry_platform_testb.Types.{CString, Vec3f}
use telemetry_platform_testb.Pack.{imu_payload, tilt_payload}
use telemetry_platform_testb.Tick.{Timespec, next_tick}
use telemetry_platform_testb.Cache.{TelemetryCache, set_imu, set_tilt}
use telemetry_platform_testb.Sensors.{
  Double, ◌⊕◌, ◌⊖◌, ◌⊗◌, ◌⊘◌, Random, Message, turns, noise_around,
}

pub record Clock (R : Type 0) : Type 0 where
  pub t : R
  pub seed : ℕ
  pub next : Timespec

pub record Turn (R F : Type 0) : Type 0 where
  pub clock : Clock R
  pub cache : Option (TelemetryCache F)
  pub messages : List Message

-- A reading of three axes, as a float.
abbrev pub floats : {R F : Type 0} → (R → F) → Vec3f R → Vec3f F
floats to_float v = record { x = to_float v.x; y = to_float v.y; z = to_float v.z }

module _ {R : Type 0} ⦃d : Double R⦄ (r : Random) where
  -- ax_g … gz_dps, and the seed behind their noise.
  pub imu_signals : R → ℕ → Vec3f R × Vec3f R × ℕ
  unfolding noise_around
  imu_signals t seed =
      let n1 = noise_around r seed (d.lit 2 2) in
      let n2 = noise_around r n1.1 (d.lit 2 2) in
      let n3 = noise_around r n2.1 (d.lit 2 2) in
      let n4 = noise_around r n3.1 (d.lit 5 1) in
      let n5 = noise_around r n4.1 (d.lit 5 1) in
      let n6 = noise_around r n5.1 (d.lit 5 1) in
      let acc : Vec3f R = record {
        x = d.lit 2 1 ⊗ d.sin (turns (d.lit 50 2) t) ⊕ n1.0;
        y = d.lit 2 1 ⊗ d.cos (turns (d.lit 40 2) t) ⊕ n2.0;
        z = d.lit 10 1 ⊕ d.lit 5 2 ⊗ d.sin (turns (d.lit 20 2) t) ⊕ n3.0;
      } in
      let gyro : Vec3f R = record {
        x = d.lit 100 1 ⊗ d.sin (turns (d.lit 30 2) t) ⊕ n4.0;
        y = d.lit 80 1 ⊗ d.cos (turns (d.lit 22 2) t) ⊕ n5.0;
        z = d.lit 50 1 ⊗ d.sin (turns (d.lit 15 2) t) ⊕ n6.0;
      } in
      (acc, gyro, n6.1)

  -- tx_deg, ty_deg and tz_deg.
  pub tilt_signals : R → ℕ → Vec3f R × ℕ
  unfolding noise_around
  tilt_signals t seed =
      let n1 = noise_around r seed (d.lit 2 1) in
      let n2 = noise_around r n1.1 (d.lit 2 1) in
      let n3 = noise_around r n2.1 (d.lit 2 1) in
      let tilt : Vec3f R = record {
        x = d.lit 200 1 ⊗ d.sin (turns (d.lit 10 2) t) ⊕ n1.0;
        y = d.lit 150 1 ⊗ d.cos (turns (d.lit 8 2) t) ⊕ n2.0;
        z = d.lit 50 1 ⊗ d.sin (turns (d.lit 5 2) t) ⊕ n3.0;
      } in
      (tilt, n3.1)

module _ {R : Type 0} ⦃d : Double R⦄ where
  -- ACC_LSB_PER_G, GYRO_LSB_PER_DPS and TILT_LSB_PER_DEG.
  abbrev pub acc_lsb_per_g : R
  acc_lsb_per_g = d.lit 54610 1

  abbrev pub gyro_lsb_per_dps : R
  gyro_lsb_per_dps = d.lit 2624 1

  abbrev pub tilt_lsb_per_deg : R
  tilt_lsb_per_deg = d.lit 1820 1

  -- The rounded reading in steps of the sensor.
  abbrev pub steps : R → R → ℤ
  steps lsb v = d.lround (v ⊗ lsb)

  -- period_ns, for a rate that the thread takes as it is.
  abbrev pub sensor_period : R → ℕ
  sensor_period rate = d.to_uint64 (d.lit 1000000000 0 ⊘ rate)

  abbrev later : R → Clock R → ℕ → Timespec → Clock R
  later rate k seed next = record { t = k.t ⊕ d.lit 10 1 ⊘ rate; seed = seed; next = next }

  module _ {F : Type 0} (to_float : R → F) (rate : R) (k : Clock R)
      (cache : Option (TelemetryCache F)) where
    -- What a round leaves, with the deadline that the sleep leaves.
    pub imu_turn : Vec3f R × Vec3f R × ℕ → Timespec → Turn R F
    imu_turn s next = record {
      clock = later rate k s.2 next;
      cache = elim cache [
        | none ↦ none
        | some c ↦ some (set_imu c (floats to_float s.0) (floats to_float s.1))
      ];
      messages =
          record {
            topic = codes "/robot/sensors/imu0/acc";
            payload =
                imu_payload (steps acc_lsb_per_g s.0.x) (steps acc_lsb_per_g s.0.y)
                  (steps acc_lsb_per_g s.0.z);
          }
          ∷ record {
            topic = codes "/robot/sensors/imu0/gyro";
            payload =
                imu_payload (steps gyro_lsb_per_dps s.1.x) (steps gyro_lsb_per_dps s.1.y)
                  (steps gyro_lsb_per_dps s.1.z);
          }
          ∷ [];
    }

    pub tilt_turn : Vec3f R × ℕ → Timespec → Turn R F
    tilt_turn s next = record {
      clock = later rate k s.1 next;
      cache = elim cache [ none ↦ none | some c ↦ some (set_tilt c (floats to_float s.0) 0) ];
      messages =
          record {
            topic = codes "/robot/sensors/tilt0/tilt";
            payload =
                tilt_payload (steps tilt_lsb_per_deg s.0.x) (steps tilt_lsb_per_deg s.0.y)
                  (steps tilt_lsb_per_deg s.0.z) 0;
          }
          ∷ [];
    }

    module _ (r : Random) where
      pub imu_round : Option (Turn R F)
      unfolding imu_signals imu_turn
      imu_round = next_tick k.next (sensor_period rate) >>= λ next.
          some (imu_turn (imu_signals r k.t k.seed) next)

      pub tilt_round : Option (Turn R F)
      unfolding tilt_signals tilt_turn
      tilt_round = next_tick k.next (sensor_period rate) >>= λ next.
          some (tilt_turn (tilt_signals r k.t k.seed) next)
