-- ===== src/Ws/Sha1/Absorb.antt =====
-- sha1_update of src/core/ws_server.c, however the message is cut up, against the hash of the whole
-- message block by block.
use telemetry_platform_testb.Base.{
  ℕ, zero, suc, ◌+◌, ◌-◌, ◌*◌, ◌/◌, ◌%◌, ◌^◌, ◌≤◌, ◌<◌, ◌≡◌, refl, ap, ap₂, sym, ◌∙◌, List, [], ◌∷◌,
  ◌++◌, append-nil, arith, length, take, drop, length-append, length-take, length-drop,
  take-append_length, take-append_le, drop-append_le, take-append_ge, drop-append_ge, drop-drop,
  drop-length, dec_le, dec_lt, le→ltb, lt→ltb, le→leb, lt→leb,
}
use telemetry_platform_testb.Ws.Sha1.{
  State, Ctx, sha1_transform, sha1_init, copy_at, whole_blocks, sha1_update,
}

-- The hash after the first `n` blocks of a message.
unfoldable pub fold_blocks : ℕ → State → List ℕ → State
fold_blocks zero s m = s
fold_blocks (suc n) s m = fold_blocks n (sha1_transform s (take 64 m)) (drop 64 m)

-- The context after the bytes of `m`: their number, the hash of the whole blocks, and the rest.
pub record IsAbsorbed (ctx : Ctx) (m : List ℕ) : Type 0 where
  pub counted : ctx.count ≡ length m * 8
  pub room : length ctx.buffer ≡ 64
  pub folded : ctx.state ≡ fold_blocks (length m / 64) sha1_init.state m
  pub pending : take (length m % 64) ctx.buffer ≡ drop (length m / 64 * 64) m

pub sha1_init-IsAbsorbed : IsAbsorbed sha1_init []
unfolding sha1_init fold_blocks
sha1_init-IsAbsorbed = record { counted = refl; room = refl; folded = refl; pending = refl }

fold_blocks_front :
    (n : ℕ) (s : State) (m x : List ℕ)
    → n * 64 ≤ length m
    → fold_blocks n s (m ++ x) ≡ fold_blocks n s m
unfolding fold_blocks
fold_blocks_front zero s m x h = refl
fold_blocks_front (suc n) s m x h =
    ap₂ (λ b r. fold_blocks n (sha1_transform s b) r) (take-append_le 64 m x (omega arith))
      (drop-append_le 64 m x (omega arith))
    ∙ fold_blocks_front n _ (drop 64 m) x (omega (arith, length-drop 64 m))

fold_blocks_add :
    (a b : ℕ) (s : State) (m : List ℕ)
    → fold_blocks (a + b) s m ≡ fold_blocks b (fold_blocks a s m) (drop (a * 64) m)
unfolding fold_blocks
fold_blocks_add zero b s m = ap (λ n. fold_blocks n s m) {x = 0 + b} {y = b} (omega arith)
fold_blocks_add (suc a) b s m =
    ap (λ n. fold_blocks n s m) {x = suc a + b} {y = suc (a + b)} (omega arith)
    ∙ fold_blocks_add a b (sha1_transform s (take 64 m)) (drop 64 m)
    ∙ ap (fold_blocks b (fold_blocks a (sha1_transform s (take 64 m)) (drop 64 m))) (
        drop-drop (a * 64) 64 m
        ∙ ap (λ n. drop n m) {x = 64 + a * 64} {y = suc a * 64} (omega arith))

-- The loop ends within its fuel, with less than a block left.
whole_blocks-fold_blocks :
    (fuel : ℕ) (s : State) (bytes : List ℕ)
    → length bytes ≤ fuel
    → whole_blocks fuel s bytes
      ≡ (fold_blocks (length bytes / 64) s bytes, drop (length bytes / 64 * 64) bytes)
unfolding whole_blocks fold_blocks
whole_blocks-fold_blocks zero s [] h = refl
whole_blocks-fold_blocks zero s (b ∷ bs) h = absurd (omega arith)
whole_blocks-fold_blocks (suc fuel) s bytes h = elim (dec_lt 63 (length bytes)) [
  | yes more ↦
      let rest = drop 64 bytes in
      let size = length-drop 64 bytes in
      let blocks : length bytes / 64 ≡ suc (length rest / 64) = omega (arith, size) in
      rw (lt→ltb 63 (length bytes) more) (
        whole_blocks-fold_blocks fuel (sha1_transform s (take 64 bytes)) rest (omega (arith, size))
        ∙ ap₂ (λ (x : State) (y : List ℕ). (x, y))
            (ap (λ n. fold_blocks n s bytes) {x = suc (length rest / 64)} {y = length bytes / 64}
              (sym blocks))
            (drop-drop (length rest / 64 * 64) 64 bytes
              ∙ ap (λ n. drop n bytes) {x = 64 + length rest / 64 * 64} {y = length bytes / 64 * 64}
                  (omega (arith, size))))
  | no short ↦
      let none_whole : length bytes / 64 ≡ 0 = omega arith in
      rw (le→ltb 63 (length bytes) (omega arith)) (
        ap₂ (λ (x : State) (y : List ℕ). (x, y))
          (ap (λ n. fold_blocks n s bytes) {x = 0} {y = length bytes / 64} (sym none_whole))
          (ap (λ n. drop n bytes) {x = 0} {y = length bytes / 64 * 64} (omega arith)))
]

-- Bytes that do not fill the buffer.
absorb_short :
    (ctx : Ctx) (m bytes : List ℕ)
    → IsAbsorbed ctx m
    → length bytes < 64 - length m % 64
    → (length m + length bytes) * 8 < 2 ^ 64
    → IsAbsorbed
        (record ctx {
          count = (ctx.count + length bytes * 8) % 2 ^ 64;
          buffer = copy_at ctx.buffer (length m % 64) bytes;
        })
        (m ++ bytes)
unfolding copy_at
absorb_short ctx m bytes abs short small =
    let i = length m % 64 in
    let k = length m / 64 in
    let size = length-append m bytes in
    let front = length-take i ctx.buffer (omega (arith, abs.room)) in
    let tail = length-drop (i + length bytes) ctx.buffer in
    let stored = take i ctx.buffer ++ bytes in
    let stored_size = length-append (take i ctx.buffer) bytes in
    let blocks : length (m ++ bytes) / 64 ≡ k = omega (arith, size) in
    let used : length (m ++ bytes) % 64 ≡ length stored = omega (arith, size, stored_size, front) in
    record {
      counted = omega (arith, abs.counted, size);
      room = omega (
        arith,
        abs.room,
        front,
        tail,
        stored_size,
        length-append stored (drop (i + length bytes) ctx.buffer),
      );
      folded =
          abs.folded
          ∙ sym (fold_blocks_front k sha1_init.state m bytes (omega arith))
          ∙ ap (λ n. fold_blocks n sha1_init.state (m ++ bytes)) (sym blocks);
      pending =
          ap (λ n. take n (stored ++ drop (i + length bytes) ctx.buffer)) used
          ∙ take-append_length stored (drop (i + length bytes) ctx.buffer)
          ∙ ap (λ x. x ++ bytes) abs.pending
          ∙ sym (drop-append_le (k * 64) m bytes (omega arith))
          ∙ ap (λ n. drop (n * 64) (m ++ bytes)) (sym blocks);
    }

-- Bytes that fill the buffer: it is hashed, then whole blocks, and the rest is kept.
absorb_long :
    (ctx : Ctx) (m bytes : List ℕ)
    → IsAbsorbed ctx m
    → 64 - length m % 64 ≤ length bytes
    → (length m + length bytes) * 8 < 2 ^ 64
    → let part = 64 - length m % 64 in
      let full = copy_at ctx.buffer (length m % 64) (take part bytes) in
      let r = whole_blocks (length bytes) (sha1_transform ctx.state full) (drop part bytes) in
      IsAbsorbed
        (record {
          state = r.0;
          count = (ctx.count + length bytes * 8) % 2 ^ 64;
          buffer = copy_at full 0 r.1;
        })
        (m ++ bytes)
unfolding copy_at fold_blocks
absorb_long ctx m bytes abs fills small =
    let i = length m % 64 in
    let k = length m / 64 in
    let part = 64 - i in
    let s0 = sha1_init.state in
    let size = length-append m bytes in
    let open_block = drop (k * 64) m in
    let later = drop part bytes in
    let later_size = length-drop part bytes in
    let q = length later / 64 in
    let open_size : length open_block ≡ i = omega (arith, length-drop (k * 64) m) in
    let rest_eq : drop (k * 64) (m ++ bytes) ≡ open_block ++ bytes =
      drop-append_le (k * 64) m bytes (omega arith) in
    let full_eq : copy_at ctx.buffer i (take part bytes) ≡ take 64 (open_block ++ bytes) =
      ap₂ (λ x y. (x ++ take part bytes) ++ y) abs.pending
        (ap (λ n. drop n ctx.buffer) {y = length ctx.buffer}
            (omega (arith, abs.room, length-take part bytes fills))
          ∙ drop-length ctx.buffer)
      ∙ append-nil (open_block ++ take part bytes)
      ∙ ap (λ n. open_block ++ take n bytes) {x = part} {y = 64 - length open_block}
          (omega (arith, open_size))
      ∙ sym (take-append_ge 64 open_block bytes (omega (arith, open_size))) in
    let later_eq : drop 64 (open_block ++ bytes) ≡ later =
      drop-append_ge 64 open_block bytes (omega (arith, open_size))
      ∙ ap (λ n. drop n bytes) {x = 64 - length open_block} {y = part} (omega (arith, open_size)) in
    let full = copy_at ctx.buffer i (take part bytes) in
    let full_size : length full ≡ 64 =
      ap length full_eq
      ∙ length-take 64 (open_block ++ bytes)
          (omega (arith, open_size, length-append open_block bytes)) in
    let loop =
      whole_blocks-fold_blocks (length bytes) (sha1_transform ctx.state full) later
        (omega (arith, later_size)) in
    let left = drop (q * 64) later in
    let left_size = length-drop (q * 64) later in
    let blocks : length (m ++ bytes) / 64 ≡ k + suc q = omega (arith, size, later_size) in
    let used : length (m ++ bytes) % 64 ≡ length left =
      omega (arith, size, later_size, left_size) in
    let hashed : fold_blocks q (sha1_transform ctx.state full) later
        ≡ fold_blocks (k + suc q) s0 (m ++ bytes) =
      ap₂ (λ b l. fold_blocks q (sha1_transform ctx.state b) l) full_eq (sym later_eq)
      ∙ ap (λ s. fold_blocks (suc q) s (open_block ++ bytes))
          (abs.folded ∙ sym (fold_blocks_front k s0 m bytes (omega arith)))
      ∙ ap (fold_blocks (suc q) (fold_blocks k s0 (m ++ bytes))) (sym rest_eq)
      ∙ sym (fold_blocks_add k (suc q) s0 (m ++ bytes)) in
    let left_eq : left ≡ drop ((k + suc q) * 64) (m ++ bytes) =
      ap (drop (q * 64))
        (sym later_eq ∙ ap (drop 64) (sym rest_eq) ∙ drop-drop 64 (k * 64) (m ++ bytes))
      ∙ drop-drop (q * 64) (k * 64 + 64) (m ++ bytes)
      ∙ ap (λ n. drop n (m ++ bytes)) {x = k * 64 + 64 + q * 64} {y = (k + suc q) * 64}
          (omega arith) in
    record {
      counted = omega (arith, abs.counted, size);
      room =
          ap (λ (r : State × List ℕ). length (copy_at full 0 r.1)) loop
          ∙ omega (
            arith,
            length-append left (drop (0 + length left) full),
            length-drop (0 + length left) full,
            full_size,
            left_size,
            later_size,
          );
      folded = ap (λ r. r.0) loop ∙ hashed ∙ ap (λ n. fold_blocks n s0 (m ++ bytes)) (sym blocks);
      pending =
          ap₂ (λ (n : ℕ) (r : State × List ℕ). take n (copy_at full 0 r.1)) used loop
          ∙ take-append_length left (drop (0 + length left) full)
          ∙ left_eq
          ∙ ap (λ n. drop (n * 64) (m ++ bytes)) (sym blocks);
    }

-- After an update the context stands for the message so far and the new bytes behind it, wherever the
-- cut between them falls.
pub sha1_update-IsAbsorbed :
    (ctx : Ctx) (m bytes : List ℕ)
    → IsAbsorbed ctx m
    → (length m + length bytes) * 8 < 2 ^ 64
    → IsAbsorbed (sha1_update ctx bytes) (m ++ bytes)
unfolding sha1_update
sha1_update-IsAbsorbed ctx m bytes abs small =
    let idx : ctx.count / 8 % 64 ≡ length m % 64 = omega (arith, abs.counted) in
    elim (dec_le (64 - length m % 64) (length bytes)) [
      | yes fills ↦
          rw (idx, le→leb (64 - length m % 64) (length bytes) fills)
            (absorb_long ctx m bytes abs fills small)
      | no short ↦
          rw (idx, lt→leb (64 - length m % 64) (length bytes) (omega arith))
            (absorb_short ctx m bytes abs (omega arith) small)
    ]
