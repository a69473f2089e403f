-- ===== src/Pack/RoundTrip.antt =====
-- What a subscriber reads back from the packed bytes of include/pack_le.h.
use telemetry_platform_testb.Base.{
  ℕ, refl, ap, ◌+◌, ◌-◌, ◌*◌, ◌/◌, ◌%◌, ◌^◌, ◌≤◌, ◌<◌, ◌≡◌, ◌⊎◌, ◌∙◌, List, arith, ltb,
  if◌then◌else◌, length, get_or, set, length-set, get_or-set_self, get_or-set_ne,
}
use telemetry_platform_testb.Base.Int.{ℤ, pos, negsuc, ◌≤ℤ◌}
use telemetry_platform_testb.Pack.{
  clamp_i16, to_unsigned, pack_u16_le, pack_i16_le, pack_u32_le, pack_i32_le, imu_payload,
  tilt_payload,
}

-- The integer that a two's complement word of `w` bits stands for.
abbrev pub of_word : ℕ → ℕ → ℤ
of_word w u = if ltb u (2 ^ (w - 1)) then pos u else negsuc (2 ^ w - 1 - u)

-- The little-endian word of two or four bytes at an offset.
abbrev pub read_u16_le : List ℕ → ℕ → ℕ
read_u16_le b i = get_or b i 0 + 256 * get_or b (i + 1) 0

abbrev pub read_i16_le : List ℕ → ℕ → ℤ
read_i16_le b i = of_word 16 (read_u16_le b i)

abbrev pub read_u32_le : List ℕ → ℕ → ℕ
read_u32_le b i = read_u16_le b i + 65536 * read_u16_le b (i + 2)

abbrev pub read_i32_le : List ℕ → ℕ → ℤ
read_i32_le b i = of_word 32 (read_u32_le b i)

-- `new` is `old` with nothing changed outside the `n` bytes at `off`.
abbrev pub Within : ℕ → ℕ → List ℕ → List ℕ → Type 0
Within off n old new =
    (length new ≡ length old)
    × ((j : ℕ) → (j < off) ⊎ (off + n ≤ j) → get_or new j 0 ≡ get_or old j 0)

of_word-to_unsigned16 :
    (v : ℤ) → negsuc 32767 ≤ℤ v → v ≤ℤ pos 32767 → of_word 16 (to_unsigned 16 v) ≡ v
of_word-to_unsigned16 v lo hi = ground arith

of_word-to_unsigned32 :
    (v : ℤ) → negsuc 2147483647 ≤ℤ v → v ≤ℤ pos 2147483647 → of_word 32 (to_unsigned 32 v) ≡ v
of_word-to_unsigned32 v lo hi = ground arith

-- Saturation lands in the range of int16_t, keeps what is in it, and keeps the order.
pub clamp_i16_saturates :
    (v w : ℤ)
    → (negsuc 32767 ≤ℤ clamp_i16 v)
      × (clamp_i16 v ≤ℤ pos 32767)
      × (v ≤ℤ w → clamp_i16 v ≤ℤ clamp_i16 w)
      × (negsuc 32767 ≤ℤ v → v ≤ℤ pos 32767 → clamp_i16 v ≡ v)
unfolding clamp_i16
clamp_i16_saturates v w = (ground arith, ground arith, λ h. ground arith, λ h k. ground arith)

set2-Within : (buf : List ℕ) (off a b : ℕ) → Within off 2 buf (set (set buf off a) (off + 1) b)
set2-Within buf off a b = (
  length-set _ (off + 1) b ∙ length-set buf off a,
  λ j out.
      get_or-set_ne _ (off + 1) j b 0 (omega arith) ∙ get_or-set_ne buf off j a 0 (omega arith),
)

set2-read :
    (buf : List ℕ) (off a b : ℕ)
    → off + 1 < length buf
    → (get_or (set (set buf off a) (off + 1) b) off 0 ≡ a)
      × (get_or (set (set buf off a) (off + 1) b) (off + 1) 0 ≡ b)
set2-read buf off a b h = (
  get_or-set_ne _ (off + 1) off b 0 (omega arith) ∙ get_or-set_self buf off a 0 (omega arith),
  get_or-set_self _ (off + 1) b 0 (omega (arith, length-set buf off a)),
)

-- Storing a 16-bit word writes its two bytes, low byte first, and nothing else.
pub pack_u16_le-read :
    (buf : List ℕ) (off v : ℕ)
    → off + 1 < length buf
    → v < 65536
    → (read_u16_le (pack_u16_le buf off v) off ≡ v) × Within off 2 buf (pack_u16_le buf off v)
unfolding pack_u16_le
pack_u16_le-read buf off v fits h =
    (omega (arith, set2-read buf off (v % 256) (v / 256 % 256) fits), set2-Within buf off _ _)

-- A 16-bit signed value is read back as it was stored, at any offset inside the buffer, and no
-- byte but its two is touched.
pub pack_i16_le-read :
    (buf : List ℕ) (off : ℕ) (v : ℤ)
    → off + 1 < length buf
    → negsuc 32767 ≤ℤ v
    → v ≤ℤ pos 32767
    → (read_i16_le (pack_i16_le buf off v) off ≡ v) × Within off 2 buf (pack_i16_le buf off v)
unfolding pack_i16_le
pack_i16_le-read buf off v fits lo hi =
    let u = to_unsigned 16 v in
    let bytes = set2-read buf off (u % 256) (u / 256 % 256) fits in
    let small : u < 65536 = ground arith in
    let word : read_u16_le (pack_i16_le buf off v) off ≡ u = omega arith in
    (ap (of_word 16) word ∙ of_word-to_unsigned16 v lo hi, set2-Within buf off _ _)

set4-Within :
    (buf : List ℕ) (off a b c d : ℕ)
    → Within off 4 buf (set (set (set (set buf off a) (off + 1) b) (off + 2) c) (off + 3) d)
set4-Within buf off a b c d = (
  length-set _ (off + 3) d
      ∙ length-set _ (off + 2) c
      ∙ length-set _ (off + 1) b
      ∙ length-set buf off a,
  λ j out.
      get_or-set_ne _ (off + 3) j d 0 (omega arith)
      ∙ get_or-set_ne _ (off + 2) j c 0 (omega arith)
      ∙ get_or-set_ne _ (off + 1) j b 0 (omega arith)
      ∙ get_or-set_ne buf off j a 0 (omega arith),
)

set4-read :
    (buf : List ℕ) (off a b c d : ℕ)
    → off + 3 < length buf
    → let out = set (set (set (set buf off a) (off + 1) b) (off + 2) c) (off + 3) d in
      (get_or out off 0 ≡ a)
      × (get_or out (off + 1) 0 ≡ b)
      × (get_or out (off + 2) 0 ≡ c)
      × (get_or out (off + 2 + 1) 0 ≡ d)
set4-read buf off a b c d h =
    let one = set buf off a in
    let two = set one (off + 1) b in
    let three = set two (off + 2) c in
    let low = set2-read buf off a b (omega arith) in
    let n1 = length-set buf off a in
    let n2 = length-set one (off + 1) b in
    let n3 = length-set two (off + 2) c in
    let at3 : off + 2 + 1 ≡ off + 3 = omega arith in
    (
      get_or-set_ne three (off + 3) off d 0 (omega arith)
          ∙ get_or-set_ne two (off + 2) off c 0 (omega arith)
          ∙ low.0,
      get_or-set_ne three (off + 3) (off + 1) d 0 (omega arith)
          ∙ get_or-set_ne two (off + 2) (off + 1) c 0 (omega arith)
          ∙ low.1,
      get_or-set_ne three (off + 3) (off + 2) d 0 (omega arith)
          ∙ get_or-set_self two (off + 2) c 0 (omega arith),
      rw at3 (get_or-set_self three (off + 3) d 0 (omega arith)),
    )

-- A 32-bit word is stored in its four bytes, low byte first, and nothing else is written.
pub pack_u32_le-read :
    (buf : List ℕ) (off v : ℕ)
    → off + 3 < length buf
    → v < 4294967296
    → (read_u32_le (pack_u32_le buf off v) off ≡ v) × Within off 4 buf (pack_u32_le buf off v)
unfolding pack_u32_le
pack_u32_le-read buf off v fits h = (
  omega (arith, set4-read buf off (v % 256) (v / 2 ^ 8 % 256) (v / 2 ^ 16 % 256) _ fits),
  set4-Within buf off _ _ _ _,
)

-- The same for a signed 32-bit value, at every value of int32_t.
pub pack_i32_le-read :
    (buf : List ℕ) (off : ℕ) (v : ℤ)
    → off + 3 < length buf
    → negsuc 2147483647 ≤ℤ v
    → v ≤ℤ pos 2147483647
    → (read_i32_le (pack_i32_le buf off v) off ≡ v) × Within off 4 buf (pack_i32_le buf off v)
unfolding pack_i32_le
pack_i32_le-read buf off v fits lo hi =
    let word = pack_u32_le-read buf off (to_unsigned 32 v) fits (ground arith) in
    (ap (of_word 32) word.0 ∙ of_word-to_unsigned32 v lo hi, word.1)

-- The two bytes of a saturated reading read as the reading.
bytes_of_clamped :
    (v : ℤ)
    → of_word 16
        (to_unsigned 16 (clamp_i16 v) % 256 + 256 * (to_unsigned 16 (clamp_i16 v) / 256 % 256))
      ≡ clamp_i16 v
bytes_of_clamped v =
    let range = clamp_i16_saturates v v in
    let u = to_unsigned 16 (clamp_i16 v) in
    let small : u < 65536 = ground arith in
    let word : u % 256 + 256 * (u / 256 % 256) ≡ u = omega arith in
    ap (of_word 16) word ∙ of_word-to_unsigned16 (clamp_i16 v) range.0 range.1

-- An IMU payload has 6 bytes, and each of the three readings comes back saturated from its place.
pub imu_payload-read :
    (x y z : ℤ)
    → (length (imu_payload x y z) ≡ 6)
      × (read_i16_le (imu_payload x y z) 0 ≡ clamp_i16 x)
      × (read_i16_le (imu_payload x y z) 2 ≡ clamp_i16 y)
      × (read_i16_le (imu_payload x y z) 4 ≡ clamp_i16 z)
unfolding imu_payload
imu_payload-read x y z = (refl, bytes_of_clamped x, bytes_of_clamped y, bytes_of_clamped z)

-- A tilt payload has 8 bytes: the three angles come back saturated, and the status word as it was.
pub tilt_payload-read :
    (x y z : ℤ) (status : ℕ)
    → status < 65536
    → (length (tilt_payload x y z status) ≡ 8)
      × (read_i16_le (tilt_payload x y z status) 0 ≡ clamp_i16 x)
      × (read_i16_le (tilt_payload x y z status) 2 ≡ clamp_i16 y)
      × (read_i16_le (tilt_payload x y z status) 4 ≡ clamp_i16 z)
      × (read_u16_le (tilt_payload x y z status) 6 ≡ status)
unfolding tilt_payload
tilt_payload-read x y z status h =
    (refl, bytes_of_clamped x, bytes_of_clamped y, bytes_of_clamped z, omega arith)
