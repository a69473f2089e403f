-- ===== src/Ws/Sha1.antt =====
-- SHA-1 of src/core/ws_server.c. A uint32_t is a number below 2^32, with the wrap-around written out;
-- `~b` is 2^32 - 1 - b.
pub mod Absorb
pub mod Fips
pub mod Digest
mod Examples
use Prim.Native.Nat.{bit_and, bit_or, bit_xor}
use telemetry_platform_testb.Base.{
  ℕ, zero, suc, ◌+◌, ◌-◌, ◌*◌, ◌/◌, ◌%◌, ◌^◌, List, [], ◌∷◌, ◌++◌, length, get_or, take, drop,
  replicate, ltb, leb, if◌then◌else◌,
}

abbrev pub u32 : ℕ → ℕ
u32 n = n % 2 ^ 32

pub rol32 : ℕ → ℕ → ℕ
rol32 x n = bit_or (u32 (x * 2 ^ n)) (x / 2 ^ (32 - n))

pub record State : Type 0 where
  pub s0 : ℕ
  pub s1 : ℕ
  pub s2 : ℕ
  pub s3 : ℕ
  pub s4 : ℕ

-- sha1_ctx_t.
pub record Ctx : Type 0 where
  pub state : State
  pub count : ℕ
  pub buffer : List ℕ

-- The first loop of sha1_transform: big-endian words, from index `i`, the last one first.
pub load_words : ℕ → ℕ → List ℕ → List ℕ → List ℕ
load_words zero i block w = w
load_words (suc left) i block w = load_words left (i + 1) block (
    (get_or block (i * 4) 0 * 2 ^ 24
      + get_or block (i * 4 + 1) 0 * 2 ^ 16
      + get_or block (i * 4 + 2) 0 * 2 ^ 8
      + get_or block (i * 4 + 3) 0)
    ∷ w)

-- The second loop, with the words so far, the last one first: w[i - k] stands at index k - 1.
pub expand_words : ℕ → List ℕ → List ℕ
unfolding rol32
expand_words zero w = w
expand_words (suc left) w = expand_words left (
    rol32
      (bit_xor (bit_xor (bit_xor (get_or w 2 0) (get_or w 7 0)) (get_or w 13 0)) (get_or w 15 0)) 1
    ∷ w)

-- f + k of round `i`.
pub round_f : ℕ → ℕ → ℕ → ℕ → ℕ
round_f i b c d =
    if ltb i 20
    then bit_or (bit_and b c) (bit_and (2 ^ 32 - 1 - b) d) + 0x5A827999
    else if ltb i 40
    then bit_xor (bit_xor b c) d + 0x6ED9EBA1
    else if ltb i 60
    then bit_or (bit_or (bit_and b c) (bit_and b d)) (bit_and c d) + 0x8F1BBCDC
    else bit_xor (bit_xor b c) d + 0xCA62C1D6

-- The rounds, from index `i`, over the words in order.
pub rounds : ℕ → List ℕ → State → State
unfolding round_f rol32
rounds i [] s = s
rounds i (w ∷ ws) s = rounds (i + 1) ws (record {
  s0 = u32 (rol32 s.s0 5 + round_f i s.s1 s.s2 s.s3 + s.s4 + w);
  s1 = s.s0;
  s2 = rol32 s.s1 30;
  s3 = s.s2;
  s4 = s.s3;
})

pub reverse_onto : List ℕ → List ℕ → List ℕ
reverse_onto [] ys = ys
reverse_onto (x ∷ xs) ys = reverse_onto xs (x ∷ ys)

unfoldable pub sha1_transform : State → List ℕ → State
unfolding load_words expand_words rounds reverse_onto
sha1_transform s block =
    let w = reverse_onto (expand_words 64 (load_words 16 0 block [])) [] in
    let r = rounds 0 w s in
    record {
      s0 = u32 (s.s0 + r.s0);
      s1 = u32 (s.s1 + r.s1);
      s2 = u32 (s.s2 + r.s2);
      s3 = u32 (s.s3 + r.s3);
      s4 = u32 (s.s4 + r.s4);
    }

unfoldable pub sha1_init : Ctx
sha1_init = record {
  state = record {
    s0 = 0x67452301;
    s1 = 0xEFCDAB89;
    s2 = 0x98BADCFE;
    s3 = 0x10325476;
    s4 = 0xC3D2E1F0;
  };
  count = 0;
  buffer = replicate 64 0;
}

-- memcpy(&dst[off], src, length of src).
pub copy_at : List ℕ → ℕ → List ℕ → List ℕ
copy_at dst off src = take off dst ++ src ++ drop (off + length src) dst

-- `while (i + 63 < len)`: whole blocks straight from the data, with fuel for each; the state and the
-- data that is left.
pub whole_blocks : ℕ → State → List ℕ → State × List ℕ
whole_blocks zero s bytes = (s, bytes)
whole_blocks (suc fuel) s bytes =
    let rest = whole_blocks fuel (sha1_transform s (take 64 bytes)) (drop 64 bytes) in
    if ltb 63 (length bytes) then rest else (s, bytes)

pub sha1_update : Ctx → List ℕ → Ctx
unfolding whole_blocks copy_at
sha1_update ctx bytes =
    let idx = ctx.count / 8 % 64 in
    let part = 64 - idx in
    let count = (ctx.count + length bytes * 8) % 2 ^ 64 in
    if leb part (length bytes)
    then (let full = copy_at ctx.buffer idx (take part bytes) in
        let r = whole_blocks (length bytes) (sha1_transform ctx.state full) (drop part bytes) in
        record { state = r.0; count = count; buffer = copy_at full 0 r.1 })
    else record ctx { count = count; buffer = copy_at ctx.buffer idx bytes }

-- The length in bits, most significant byte first.
pub length_bytes : ℕ → List ℕ
length_bytes bits =
    bits / 2 ^ 56 % 256
    ∷ bits / 2 ^ 48 % 256
    ∷ bits / 2 ^ 40 % 256
    ∷ bits / 2 ^ 32 % 256
    ∷ bits / 2 ^ 24 % 256
    ∷ bits / 2 ^ 16 % 256
    ∷ bits / 2 ^ 8 % 256
    ∷ bits % 256
    ∷ []

-- The first `n` bytes of pad: 0x80 and zeros.
pub padding : ℕ → List ℕ
padding n = take n (0x80 ∷ replicate 63 0)

pub word_bytes : ℕ → List ℕ
word_bytes w = w / 2 ^ 24 % 256 ∷ w / 2 ^ 16 % 256 ∷ w / 2 ^ 8 % 256 ∷ w % 256 ∷ []

pub digest_bytes : State → List ℕ
unfolding word_bytes
digest_bytes s =
    word_bytes s.s0 ++ word_bytes s.s1 ++ word_bytes s.s2 ++ word_bytes s.s3 ++ word_bytes s.s4

unfoldable pub sha1_final : Ctx → List ℕ
unfolding length_bytes padding sha1_update digest_bytes
sha1_final ctx =
    let idx = ctx.count / 8 % 64 in
    let pad_len = if ltb idx 56 then 56 - idx else 120 - idx in
    let padded = sha1_update ctx (padding pad_len) in
    let done = sha1_update padded (length_bytes ctx.count) in digest_bytes done.state
