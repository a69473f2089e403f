-- ===== src/Pack.antt =====
-- include/pack_le.h: saturation to int16_t and little-endian stores, and the payloads that the
-- sensor threads build with them (src/sensors/*.c). A buffer is the list of its bytes, and the
-- pointer `&buf[off]` is the buffer with the offset.
pub mod RoundTrip
mod Examples
use telemetry_platform_testb.Base.{ℕ, ◌+◌, ◌-◌, ◌/◌, ◌%◌, ◌^◌, List, if◌then◌else◌, set, replicate}
use telemetry_platform_testb.Base.Int.{ℤ, pos, negsuc, ltb_ℤ}

unfoldable pub clamp_i16 : ℤ → ℤ
clamp_i16 v =
    if ltb_ℤ (pos 32767) v then pos 32767 else if ltb_ℤ v (negsuc 32767) then negsuc 32767 else v

-- The conversion of a signed integer to an unsigned type of `w` bits.
abbrev pub to_unsigned : ℕ → ℤ → ℕ
to_unsigned w (pos n) = n % 2 ^ w
to_unsigned w (negsuc n) = 2 ^ w - 1 - n % 2 ^ w

pub pack_u16_le : List ℕ → ℕ → ℕ → List ℕ
pack_u16_le buf off v = set (set buf off (v % 256)) (off + 1) (v / 256 % 256)

pub pack_i16_le : List ℕ → ℕ → ℤ → List ℕ
pack_i16_le buf off v =
    let u = to_unsigned 16 v in set (set buf off (u % 256)) (off + 1) (u / 256 % 256)

pub pack_u32_le : List ℕ → ℕ → ℕ → List ℕ
pack_u32_le buf off v =
    set (set (set (set buf off (v % 256)) (off + 1) (v / 2 ^ 8 % 256)) (off + 2) (v / 2 ^ 16 % 256))
      (off + 3) (v / 2 ^ 24 % 256)

pub pack_i32_le : List ℕ → ℕ → ℤ → List ℕ
unfolding pack_u32_le
pack_i32_le buf off v = pack_u32_le buf off (to_unsigned 32 v)

-- payload_acc and payload_gyro: the three rounded readings, saturated and stored in 6 bytes.
pub imu_payload : ℤ → ℤ → ℤ → List ℕ
unfolding clamp_i16 pack_i16_le
imu_payload x y z =
    pack_i16_le (pack_i16_le (pack_i16_le (replicate 6 0) 0 (clamp_i16 x)) 2 (clamp_i16 y)) 4
      (clamp_i16 z)

-- The tilt payload: three angles and the status word.
pub tilt_payload : ℤ → ℤ → ℤ → ℕ → List ℕ
unfolding clamp_i16 pack_i16_le pack_u16_le
tilt_payload x y z status =
    pack_u16_le
      (pack_i16_le (pack_i16_le (pack_i16_le (replicate 8 0) 0 (clamp_i16 x)) 2 (clamp_i16 y)) 4
        (clamp_i16 z))
      6 status
