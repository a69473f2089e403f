-- ===== src/Ws/Sha1/Digest.antt =====
-- The SHA-1 of FIPS 180-4 over a whole message, against init, updates and final of
-- src/core/ws_server.c.
use telemetry_platform_testb.Base.{
  IsBytes, ℕ, zero, suc, ◌+◌, ◌-◌, ◌*◌, ◌/◌, ◌%◌, ◌^◌, ◌≤◌, ◌<◌, ◌≡◌, refl, ap, ap₂, sym, ◌∙◌, List,
  [], ◌∷◌, ◌++◌, append-nil, append_assoc, arith, length, take, replicate, length-append,
  length-replicate, subst, big_endian, ltb, if◌then◌else◌,
}
use telemetry_platform_testb.Ws.Sha1.{
  State, Ctx, sha1_init, sha1_update, padding, length_bytes, sha1_final, word_bytes, digest_bytes,
}
use telemetry_platform_testb.Ws.Sha1.Fips.{digest, digest_bytes-digest}
use telemetry_platform_testb.Ws.Sha1.Absorb.{
  fold_blocks, IsAbsorbed, sha1_init-IsAbsorbed, sha1_update-IsAbsorbed,
}

-- Section 5.1.1: the bit 1, zeros up to 8 bytes before the end of a block, and the length in bits.
abbrev pub padded : List ℕ → List ℕ
padded m = m ++ (0x80 ∷ replicate ((119 - length m % 64) % 64) 0) ++ big_endian 8 (length m * 8)

-- Sections 5.2 and 6.1: the blocks of the padded message, one after the other, by the constants and the
-- functions of the standard.
pub sha1 : List ℕ → List ℕ
sha1 m = digest (padded m) (length (padded m) / 64)

-- The message of several updates, and the context after them.
abbrev pub joined : List (List ℕ) → List ℕ
joined [] = []
joined (c ∷ cs) = c ++ joined cs

abbrev pub update_all : Ctx → List (List ℕ) → Ctx
update_all ctx [] = ctx
update_all ctx (c ∷ cs) = update_all (sha1_update ctx c) cs

update_all-IsAbsorbed :
    (ctx : Ctx) (m : List ℕ) (cs : List (List ℕ))
    → IsAbsorbed ctx m
    → (length m + length (joined cs)) * 8 < 2 ^ 64
    → IsAbsorbed (update_all ctx cs) (m ++ joined cs)
update_all-IsAbsorbed ctx m [] abs small = subst (IsAbsorbed ctx) (sym (append-nil m)) abs
update_all-IsAbsorbed ctx m (c ∷ cs) abs small =
    let size = length-append c (joined cs) in
    subst (IsAbsorbed (update_all (sha1_update ctx c) cs)) (append_assoc m c (joined cs)) (
      update_all-IsAbsorbed (sha1_update ctx c) (m ++ c) cs
        (sha1_update-IsAbsorbed ctx m c abs (omega (arith, size)))
        (omega (arith, size, length-append m c)))

take-replicate : (n k : ℕ) → n ≤ k → take {A = ℕ} n (replicate k 0) ≡ replicate n 0
take-replicate zero k h = refl
take-replicate (suc n) zero h = absurd (omega arith)
take-replicate (suc n) (suc k) h = ap (◌∷◌ 0) (take-replicate n k (omega arith))

padding_eq : (n : ℕ) → n < 64 → padding (suc n) ≡ 0x80 ∷ replicate n 0
unfolding padding
padding_eq n h = ap (◌∷◌ 0x80) (take-replicate n 63 (omega arith))

length_bytes-big_endian : (n : ℕ) → length_bytes n ≡ big_endian 8 n
unfolding length_bytes
length_bytes-big_endian n = ground arith

-- Init, any number of updates and final give the SHA-1 of the message that the updates make up,
-- wherever it is cut, as long as its length in bits with the padding fits a uint64_t.
pub sha1_final-sha1 :
    (cs : List (List ℕ))
    → (length (joined cs) + 72) * 8 < 2 ^ 64
    → sha1_final (update_all sha1_init cs) ≡ sha1 (joined cs)
unfolding sha1_final sha1
sha1_final-sha1 cs small =
    let m = joined cs in
    let ctx = update_all sha1_init cs in
    let abs = update_all-IsAbsorbed sha1_init [] cs sha1_init-IsAbsorbed (omega arith) in
    let z = (119 - length m % 64) % 64 in
    let zeros : List ℕ = 0x80 ∷ replicate z 0 in
    let zeros_size : length zeros ≡ suc z = ap suc (length-replicate z 0) in
    let pad_len : (if ltb (ctx.count / 8 % 64) 56
          then 56 - ctx.count / 8 % 64
          else 120 - ctx.count / 8 % 64)
        ≡ suc z =
      ground (arith, abs.counted) in
    let pad_eq : padding (suc z) ≡ zeros = padding_eq z (omega arith) in
    let one = sha1_update-IsAbsorbed ctx m zeros abs (omega (arith, zeros_size)) in
    let size = length-append m zeros in
    let bits = big_endian 8 (length m * 8) in
    let two =
      sha1_update-IsAbsorbed (sha1_update ctx zeros) (m ++ zeros) bits one
        (omega (arith, zeros_size, size)) in
    ap
      (λ n. digest_bytes (sha1_update (sha1_update ctx (padding n)) (length_bytes ctx.count)).state)
      pad_len
    ∙ ap₂ (λ p l. digest_bytes (sha1_update (sha1_update ctx p) l).state) pad_eq
        (length_bytes-big_endian ctx.count ∙ ap (big_endian 8) abs.counted)
    ∙ ap digest_bytes two.folded
    ∙ digest_bytes-digest (padded m) (length (padded m) / 64)

digest_bytes-IsBytes : (s : State) → IsBytes (digest_bytes s) × (length (digest_bytes s) ≡ 20)
unfolding digest_bytes word_bytes
digest_bytes-IsBytes s = (omega arith, refl)

pub sha1-IsBytes : (m : List ℕ) → IsBytes (sha1 m) × (length (sha1 m) ≡ 20)
unfolding sha1
sha1-IsBytes m =
    let n = length (padded m) / 64 in
    subst (λ d. IsBytes d × (length d ≡ 20)) (digest_bytes-digest (padded m) n)
      (digest_bytes-IsBytes (fold_blocks n sha1_init.state (padded m)))
