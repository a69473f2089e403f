-- ===== src/Sensors/Motor/Limits.antt =====
-- The limits that the motor threads of src/sensors/*.c put on their signals.
use telemetry_platform_testb.Base.{
  ℕ, ◌≤◌, ◌<◌, ◌^◌, ◌≡◌, ◌∙◌, arith, inl, inr, false, ltb, le→ltb, Bool-cases,
}
use telemetry_platform_testb.Sensors.{Double, Random, at_least, at_most}
use telemetry_platform_testb.Sensors.Signals.{motor1_signals, motor2_signals}

-- DBL_DIG is 15: literals of at most 15 digits, as many behind the point, compare as they are written.
pub record HasDigits (R : Type 0) ⦃d : Double R⦄ : Type 0 where
  pub lit_lt :
      (a b n : ℕ) → n ≤ 15 → a < 10 ^ 15 → b < 10 ^ 15 → d.lt (d.lit a n) (d.lit b n) ≡ ltb a b

module _ {R : Type 0} ⦃d : Double R⦄ where
  -- Neither below nor above: also NaN is neither.
  abbrev pub Between : R → R → R → Type 0
  Between lo hi x = (d.lt x lo ≡ false) × (d.lt hi x ≡ false)

  at_least_lem : (lo x : R) → d.lt lo lo ≡ false → d.lt (at_least lo x) lo ≡ false
  at_least_lem lo x self = elim (Bool-cases (d.lt x lo)) [
    | inl low ↦ rw low self
    | inr fine ↦ rw fine fine
  ]

  limits-Between :
      (lo hi x : R)
      → d.lt lo lo ≡ false
      → d.lt hi hi ≡ false
      → d.lt hi lo ≡ false
      → Between lo hi (at_most hi (at_least lo x))
  limits-Between lo hi x ll hh hl = elim (Bool-cases (d.lt hi (at_least lo x))) [
    | inl high ↦ rw high (hl, hh)
    | inr fine ↦ rw fine (at_least_lem lo x ll, fine)
  ]

  module _ (digits : HasDigits R) where
    lit_ge : (a b n : ℕ) → n ≤ 15 → a < 10 ^ 15 → b ≤ a → d.lt (d.lit a n) (d.lit b n) ≡ false
    lit_ge a b n places small h = digits.lit_lt a b n places small (omega arith) ∙ le→ltb a b h

    lits-Between :
        (a b n : ℕ) (x : R)
        → n ≤ 15
        → b < 10 ^ 15
        → a ≤ b
        → Between (d.lit a n) (d.lit b n) (at_most (d.lit b n) (at_least (d.lit a n) x))
    lits-Between a b n x places small h =
        limits-Between (d.lit a n) (d.lit b n) x (lit_ge a a n places (omega arith) (omega arith))
          (lit_ge b b n places small (omega arith)) (lit_ge b a n places small h)

-- When literals compare as they are written: whatever the time, the noise and the temperature before, the
-- temperature of motor 1 is between 20 and 95 degrees and that of motor 2 between 20 and 98, the voltages
-- are between 21000 or 20800 and 26000 mV, and no current is negative.
pub motor_signals-Between :
    {R : Type 0} ⦃d : Double R⦄ (r : Random) (t temp : R) (seed : ℕ)
    → HasDigits R
    → let one = motor1_signals r t temp seed in
      let two = motor2_signals r t temp seed in
      Between (d.lit 200 1) (d.lit 950 1) one.temp_c
      × Between (d.lit 200 1) (d.lit 980 1) two.temp_c
      × Between (d.lit 210000 1) (d.lit 260000 1) one.v_ps_mv
      × Between (d.lit 208000 1) (d.lit 260000 1) two.v_ps_mv
      × (d.lt one.i_ps_ma (d.lit 0 1) ≡ false)
      × (d.lt two.i_ps_ma (d.lit 0 1) ≡ false)
unfolding motor1_signals motor2_signals
motor_signals-Between ⦃d⦄ r t temp seed digits = (
  lits-Between digits 200 950 1 _ (omega arith) (omega arith) (omega arith),
  lits-Between digits 200 980 1 _ (omega arith) (omega arith) (omega arith),
  lits-Between digits 210000 260000 1 _ (omega arith) (omega arith) (omega arith),
  lits-Between digits 208000 260000 1 _ (omega arith) (omega arith) (omega arith),
  at_least_lem (d.lit 0 1) _ (lit_ge digits 0 0 1 (omega arith) (omega arith) (omega arith)),
  at_least_lem (d.lit 0 1) _ (lit_ge digits 0 0 1 (omega arith) (omega arith) (omega arith)),
)
