-- ===== src/Sensors/Signals.antt =====
-- The waveforms of src/sensors/motor1_sensor.c and motor2_sensor.c.
use telemetry_platform_testb.Base.{ℕ, ◌&&◌, if◌then◌else◌}
use telemetry_platform_testb.Sensors.{
  Double, ◌⊕◌, ◌⊖◌, ◌⊗◌, Random, at_least, at_most, turns, noise,
}

-- rpm_motor, v_ps_mV, i_ps_mA and temp_c_state of a round, and the seed behind its noise.
pub record Signals (R : Type 0) : Type 0 where
  pub rpm_motor : R
  pub v_ps_mv : R
  pub i_ps_ma : R
  pub temp_c : R
  pub seed : ℕ

module _ {R : Type 0} ⦃d : Double R⦄ (r : Random) where
  -- The waveforms of motor 1, and their limits.
  unfoldable pub motor1_signals : R → R → ℕ → Signals R
  unfolding noise
  motor1_signals t temp seed =
      let n1 = noise r seed (d.lit 2 2) in
      let drive = at_most (d.lit 100 2) (
        at_least (d.lit 5 2) (
          d.lit 70 2
          ⊕ d.lit 20 2 ⊗ d.sin (turns (d.lit 9 2) t)
          ⊕ d.lit 10 2 ⊗ d.sin (turns (d.lit 23 2) t ⊕ d.lit 8 1)
          ⊕ n1.0)) in
      let n2 = noise r n1.1 (d.lit 80 1) in
      let rpm =
        at_least (d.lit 0 1) (
          d.lit 7000 1
          ⊕ d.lit 17000 1 ⊗ drive
          ⊕ d.lit 600 1 ⊗ d.sin (turns (d.lit 7 1) t)
          ⊕ n2.0) in
      let brake_window = d.fmod t (d.lit 170 1) in
      let brakes = d.lt (d.lit 145 1) brake_window && d.lt brake_window (d.lit 152 1) in
      let rpm_motor = if brakes then rpm ⊗ d.lit 55 2 else rpm in
      let n3 = noise r n2.1 (d.lit 250 1) in
      let v = at_most (d.lit 260000 1) (
        at_least (d.lit 210000 1) (
          d.lit 240000 1
          ⊕ d.lit 3500 1 ⊗ d.sin (turns (d.lit 18 2) t)
          ⊖ d.lit 1800 1 ⊗ drive
          ⊕ n3.0)) in
      let n4 = noise r n3.1 (d.lit 600 1) in
      let current =
        d.lit 12000 1
        ⊕ d.lit 42000 1 ⊗ drive
        ⊕ d.lit 3000 1 ⊗ d.sin (turns (d.lit 35 2) t ⊕ d.lit 2 1)
        ⊕ n4.0 in
      let i = at_least (d.lit 0 1) (if brakes then current ⊕ d.lit 9000 1 else current) in
      let target = d.lit 280 1 ⊕ d.lit 65 4 ⊗ i ⊕ d.lit 30 4 ⊗ d.fabs (rpm_motor ⊖ d.lit 12000 1) in
      let n5 = noise r n4.1 (d.lit 5 2) in
      let warmer = temp ⊕ ((target ⊖ temp) ⊗ d.lit 3 2 ⊕ n5.0) in
      record {
        rpm_motor = rpm_motor;
        v_ps_mv = v;
        i_ps_ma = i;
        temp_c = at_most (d.lit 950 1) (at_least (d.lit 200 1) warmer);
        seed = n5.1;
      }

  -- Those of motor 2.
  unfoldable pub motor2_signals : R → R → ℕ → Signals R
  unfolding noise
  motor2_signals t temp seed =
      let n1 = noise r seed (d.lit 2 2) in
      let drive = at_most (d.lit 100 2) (
        at_least (d.lit 3 2) (
          d.lit 66 2
          ⊕ d.lit 22 2 ⊗ d.sin (turns (d.lit 10 2) t ⊕ d.lit 10 1)
          ⊕ d.lit 8 2 ⊗ d.sin (turns (d.lit 29 2) t ⊕ d.lit 21 1)
          ⊕ n1.0)) in
      let steering_bias = d.lit 10 1 ⊕ d.lit 7 2 ⊗ d.sin (turns (d.lit 5 2) t ⊕ d.lit 4 1) in
      let n2 = noise r n1.1 (d.lit 90 1) in
      let rpm = at_least (d.lit 0 1) (
        (d.lit 6500 1 ⊕ d.lit 17500 1 ⊗ drive) ⊗ steering_bias
        ⊕ d.lit 450 1 ⊗ d.sin (turns (d.lit 6 1) t ⊕ d.lit 13 1)
        ⊕ n2.0) in
      let load_window = d.fmod (t ⊕ d.lit 40 1) (d.lit 190 1) in
      let loaded = d.lt (d.lit 92 1) load_window && d.lt load_window (d.lit 101 1) in
      let rpm_motor = if loaded then rpm ⊗ d.lit 70 2 else rpm in
      let n3 = noise r n2.1 (d.lit 300 1) in
      let v = at_most (d.lit 260000 1) (
        at_least (d.lit 208000 1) (
          d.lit 239000 1
          ⊕ d.lit 3000 1 ⊗ d.sin (turns (d.lit 16 2) t ⊕ d.lit 9 1)
          ⊖ d.lit 2200 1 ⊗ drive
          ⊕ n3.0)) in
      let n4 = noise r n3.1 (d.lit 750 1) in
      let current =
        d.lit 13000 1
        ⊕ d.lit 39000 1 ⊗ drive
        ⊕ d.lit 4500 1 ⊗ d.fabs (d.sin (turns (d.lit 21 2) t ⊕ d.lit 1 1))
        ⊕ n4.0 in
      let i = at_least (d.lit 0 1) (if loaded then current ⊕ d.lit 14000 1 else current) in
      let target = d.lit 270 1 ⊕ d.lit 70 4 ⊗ i ⊕ d.lit 25 4 ⊗ rpm_motor in
      let n5 = noise r n4.1 (d.lit 6 2) in
      let warmer = temp ⊕ ((target ⊖ temp) ⊗ d.lit 28 3 ⊕ n5.0) in
      record {
        rpm_motor = rpm_motor;
        v_ps_mv = v;
        i_ps_ma = i;
        temp_c = at_most (d.lit 980 1) (at_least (d.lit 200 1) warmer);
        seed = n5.1;
      }
