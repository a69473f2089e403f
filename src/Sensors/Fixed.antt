-- ===== src/Sensors/Fixed.antt =====
-- An arithmetic for examples: numbers with 20 decimal places, flat waves, and a rand_r that counts.
use telemetry_platform_testb.Base.{ℕ, ◌+◌, ◌-◌, ◌*◌, ◌/◌, ◌%◌, ◌^◌, ltb, leb}
use telemetry_platform_testb.Base.Int.{pos}
use telemetry_platform_testb.Sensors.{Double, Random}

abbrev pub unit : ℕ
unit = 10 ^ 20

instance abbrev pub fixed : Double ℕ
fixed = record {
  lit = λ a n. a * (unit / 10 ^ n);
  add = λ x y. x + y;
  sub = λ x y. x - y;
  mul = λ x y. x * y / unit;
  div = λ x y. x * unit / y;
  lt = ltb;
  le = leb;
  sin = λ x. 0;
  cos = λ x. 0;
  fabs = λ x. x;
  floor = λ x. x / unit * unit;
  fmod = λ x y. x % y;
  lround = λ x. pos ((x + unit / 2) / unit);
  to_uint32 = λ x. x / unit % 2 ^ 32;
  to_uint64 = λ x. x / unit % 2 ^ 64;
}

abbrev pub counting : Random
counting = record { rand_r = λ seed. (seed, seed + 1); rand_max = 2147483647 }
