-- ===== src/Sensors.antt =====
-- What the threads of src/sensors/*.c share: the arithmetic on double, the noise, the saturation to
-- int32_t, and the messages to the broker. The type double, <math.h> and rand_r are arguments; a literal
-- of the source is its digits with the number of those behind the point.
pub mod Fixed
pub mod Signals
pub mod Motor
pub mod Readings
use telemetry_platform_testb.Base.{
  ℕ, ◌+◌, ◌%◌, ◌^◌, ◌-◌, Bool, List, [], ◌∷◌, ◌++◌, Option, none, some, codes, if◌then◌else◌,
}
use telemetry_platform_testb.Base.Int.{ℤ, pos, negsuc, ltb_ℤ}
use telemetry_platform_testb.Types.{CString}

-- Arithmetic on double, and what the source calls of <math.h>. `lround` is lround and llround, on a long of 64
-- bits, and `to_uint32` and `to_uint64` the conversions
pub record Double (R : Type 0) : Type 0 where
  pub lit : ℕ → ℕ → R
  pub add : R → R → R
  pub sub : R → R → R
  pub mul : R → R → R
  pub div : R → R → R
  pub lt : R → R → Bool
  pub le : R → R → Bool
  pub sin : R → R
  pub cos : R → R
  pub fabs : R → R
  pub floor : R → R
  pub fmod : R → R → R
  pub lround : R → ℤ
  pub to_uint32 : R → ℕ
  pub to_uint64 : R → ℕ

infixl 60 ◌⊕◌ ◌⊖◌
infixl 70 ◌⊗◌ ◌⊘◌
abbrev pub ◌⊕◌ : {R : Type 0} ⦃d : Double R⦄ → R → R → R
◌⊕◌ ⦃d⦄ x y = d.add x y

abbrev pub ◌⊖◌ : {R : Type 0} ⦃d : Double R⦄ → R → R → R
◌⊖◌ ⦃d⦄ x y = d.sub x y

abbrev pub ◌⊗◌ : {R : Type 0} ⦃d : Double R⦄ → R → R → R
◌⊗◌ ⦃d⦄ x y = d.mul x y

abbrev pub ◌⊘◌ : {R : Type 0} ⦃d : Double R⦄ → R → R → R
◌⊘◌ ⦃d⦄ x y = d.div x y

-- rand_r: the number and the next seed; and RAND_MAX.
pub record Random : Type 0 where
  pub rand_r : ℕ → ℕ × ℕ
  pub rand_max : ℕ

-- clamp_i32_ll
pub clamp_i32_ll : ℤ → ℤ
clamp_i32_ll v =
    if ltb_ℤ (pos 2147483647) v
    then pos 2147483647
    else if ltb_ℤ v (negsuc 2147483647)
    then negsuc 2147483647
    else v

-- A message for the broker: its topic and its payload.
pub record Message : Type 0 where
  pub topic : CString
  pub payload : List ℕ

module _ {R : Type 0} ⦃d : Double R⦄ where
  -- `if(x < lo) x = lo;` and `if(x > hi) x = hi;`
  abbrev pub at_least : R → R → R
  at_least lo x = if d.lt x lo then lo else x

  abbrev pub at_most : R → R → R
  at_most hi x = if d.lt hi x then hi else x

  -- 2.0 * M_PI * hz * t
  abbrev pub turns : R → R → R
  turns hz t = d.lit 20 1 ⊗ d.lit 314159265358979323846 20 ⊗ hz ⊗ t

  module _ (r : Random) where
    -- frand_unit, with the seed that it leaves.
    pub frand_unit : ℕ → R × ℕ
    frand_unit seed =
        let next = r.rand_r seed in (d.lit next.0 0 ⊘ (d.lit r.rand_max 0 ⊕ d.lit 10 1), next.1)

    -- noise of the motors, and noise of the other sensors.
    pub noise : ℕ → R → R × ℕ
    unfolding frand_unit
    noise seed amp = let u = frand_unit seed in ((u.0 ⊖ d.lit 5 1) ⊗ d.lit 20 1 ⊗ amp, u.1)

    pub noise_around : ℕ → R → R × ℕ
    unfolding frand_unit
    noise_around seed sigma =
        let u = frand_unit seed in (sigma ⊗ (u.0 ⊖ d.lit 5 1) ⊗ d.lit 20 1, u.1)
