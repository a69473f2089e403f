-- ===== src/Ws/Sha1/Fips.antt =====
-- The hash computation of FIPS 180-4, section 6.1, against sha1_transform of src/core/ws_server.c.
use Prim.Native.Nat.{bit_and, bit_or, bit_xor}
use telemetry_platform_testb.Base.{
  ℕ, zero, suc, ◌+◌, ◌-◌, ◌*◌, ◌/◌, ◌%◌, ◌^◌, ◌≡◌, refl, ap, ◌∙◌, arith, List, [], ◌∷◌, ◌++◌,
  get_or, take, drop, big_endian, ltb, if◌then◌else◌,
}
use telemetry_platform_testb.Ws.Sha1.{
  State, sha1_init, sha1_transform, load_words, expand_words, reverse_onto, round_f, rol32, rounds,
  word_bytes, digest_bytes,
}
use telemetry_platform_testb.Ws.Sha1.Absorb.{fold_blocks}

-- Section 3.2: ROTL of a word of 32 bits.
abbrev rotl : ℕ → ℕ → ℕ
rotl n x = bit_or (x * 2 ^ n % 2 ^ 32) (x / 2 ^ (32 - n))

-- Section 4.1.1.
abbrev ch : ℕ → ℕ → ℕ → ℕ
ch x y z = bit_or (bit_and x y) (bit_and (4294967295 - x) z)

abbrev parity : ℕ → ℕ → ℕ → ℕ
parity x y z = bit_xor (bit_xor x y) z

abbrev maj : ℕ → ℕ → ℕ → ℕ
maj x y z = bit_or (bit_or (bit_and x y) (bit_and x z)) (bit_and y z)

abbrev f : ℕ → ℕ → ℕ → ℕ → ℕ
f t x y z =
    if ltb t 20
    then ch x y z
    else if ltb t 40
    then parity x y z
    else if ltb t 60
    then maj x y z
    else parity x y z

-- Section 4.2.1.
abbrev constant : ℕ → ℕ
constant t =
    if ltb t 20
    then 0x5A827999
    else if ltb t 40
    then 0x6ED9EBA1
    else if ltb t 60
    then 0x8F1BBCDC
    else 0xCA62C1D6

-- Section 5.3.1.
abbrev initial : State
initial = record {
  s0 = 0x67452301;
  s1 = 0xEFCDAB89;
  s2 = 0x98BADCFE;
  s3 = 0x10325476;
  s4 = 0xC3D2E1F0;
}

-- Section 5.2.1: the words of a block, big-endian, from the one at `i` on, in front of those before it,
-- the last one first.
abbrev words : ℕ → ℕ → List ℕ → List ℕ → List ℕ
words zero i block before = before
words (suc n) i block before = words n (i + 1) block (
    (get_or block (i * 4) 0 * 16777216
      + get_or block (i * 4 + 1) 0 * 65536
      + get_or block (i * 4 + 2) 0 * 256
      + get_or block (i * 4 + 3) 0)
    ∷ before)

-- Section 6.1.2, step 1: W_(t-k) stands at k - 1 of the words so far, the last one first.
abbrev schedule : ℕ → List ℕ → List ℕ
schedule zero w = w
schedule (suc n) w = schedule n (
    rotl 1 (
      bit_xor (bit_xor (bit_xor (get_or w (3 - 1) 0) (get_or w (8 - 1) 0)) (get_or w (14 - 1) 0))
        (get_or w (16 - 1) 0))
    ∷ w)

abbrev in_order : List ℕ → List ℕ → List ℕ
in_order [] ws = ws
in_order (w ∷ rest) ws = in_order rest (w ∷ ws)

-- Steps 2 and 3.
abbrev steps : ℕ → List ℕ → State → State
steps t [] s = s
steps t (w ∷ ws) s = steps (t + 1) ws (record {
  s0 = (rotl 5 s.s0 + f t s.s1 s.s2 s.s3 + s.s4 + constant t + w) % 2 ^ 32;
  s1 = s.s0;
  s2 = rotl 30 s.s1;
  s3 = s.s2;
  s4 = s.s3;
})

-- Step 4.
abbrev compress : State → List ℕ → State
compress s block =
    let r = steps 0 (in_order (schedule 64 (words 16 0 block [])) []) s in
    record {
      s0 = (s.s0 + r.s0) % 2 ^ 32;
      s1 = (s.s1 + r.s1) % 2 ^ 32;
      s2 = (s.s2 + r.s2) % 2 ^ 32;
      s3 = (s.s3 + r.s3) % 2 ^ 32;
      s4 = (s.s4 + r.s4) % 2 ^ 32;
    }

-- The hash after the first `n` blocks, and its bytes.
abbrev pub hash : ℕ → State → List ℕ → State
hash zero s m = s
hash (suc n) s m = hash n (compress s (take 64 m)) (drop 64 m)

abbrev pub digest : List ℕ → ℕ → List ℕ
digest m n =
    let s = hash n initial m in
    big_endian 4 s.s0
    ++ big_endian 4 s.s1
    ++ big_endian 4 s.s2
    ++ big_endian 4 s.s3
    ++ big_endian 4 s.s4

round_f-f : (t b c d : ℕ) → round_f t b c d ≡ f t b c d + constant t
unfolding round_f
round_f-f t b c d = ground arith

rounds-steps : (t : ℕ) (ws : List ℕ) (s : State) → rounds t ws s ≡ steps t ws s
unfolding rounds rol32
rounds-steps t [] s = refl
rounds-steps t (w ∷ ws) s =
    rounds-steps (t + 1) ws _
    ∙ ap
        (λ a.
          steps (t + 1) ws (record { s0 = a; s1 = s.s0; s2 = rotl 30 s.s1; s3 = s.s2; s4 = s.s3 }))
        (rw (round_f-f t s.s1 s.s2 s.s3) (omega arith))

load_words-words : (n i : ℕ) (block w : List ℕ) → load_words n i block w ≡ words n i block w
unfolding load_words
load_words-words zero i block w = refl
load_words-words (suc n) i block w = load_words-words n (i + 1) block _

expand_words-schedule : (n : ℕ) (w : List ℕ) → expand_words n w ≡ schedule n w
unfolding expand_words rol32
expand_words-schedule zero w = refl
expand_words-schedule (suc n) w = expand_words-schedule n _

reverse_onto-in_order : (xs ys : List ℕ) → reverse_onto xs ys ≡ in_order xs ys
unfolding reverse_onto
reverse_onto-in_order [] ys = refl
reverse_onto-in_order (x ∷ xs) ys = reverse_onto-in_order xs (x ∷ ys)

-- The sums of the last step.
abbrev added : State → State → State
added s r = record {
  s0 = (s.s0 + r.s0) % 2 ^ 32;
  s1 = (s.s1 + r.s1) % 2 ^ 32;
  s2 = (s.s2 + r.s2) % 2 ^ 32;
  s3 = (s.s3 + r.s3) % 2 ^ 32;
  s4 = (s.s4 + r.s4) % 2 ^ 32;
}

sha1_transform_lem :
    (s : State) (block : List ℕ)
    → sha1_transform s block
      ≡ added s (rounds 0 (reverse_onto (expand_words 64 (load_words 16 0 block [])) []) s)
unfolding sha1_transform
sha1_transform_lem s block = refl

sha1_transform-compress : (s : State) (block : List ℕ) → sha1_transform s block ≡ compress s block
sha1_transform-compress s block =
    sha1_transform_lem s block
    ∙ ap (λ ws. added s (rounds 0 (reverse_onto (expand_words 64 ws) []) s))
        (load_words-words 16 0 block [])
    ∙ ap (λ ws. added s (rounds 0 (reverse_onto ws []) s))
        (expand_words-schedule 64 (words 16 0 block []))
    ∙ ap (λ ws. added s (rounds 0 ws s))
        (reverse_onto-in_order (schedule 64 (words 16 0 block [])) [])
    ∙ ap (added s) (rounds-steps 0 (in_order (schedule 64 (words 16 0 block [])) []) s)

fold_blocks-hash : (n : ℕ) (s : State) (m : List ℕ) → fold_blocks n s m ≡ hash n s m
unfolding fold_blocks
fold_blocks-hash zero s m = refl
fold_blocks-hash (suc n) s m =
    fold_blocks-hash n (sha1_transform s (take 64 m)) (drop 64 m)
    ∙ ap (λ s. hash n s (drop 64 m)) (sha1_transform-compress s (take 64 m))

word_bytes-big_endian : (w : ℕ) → word_bytes w ≡ big_endian 4 w
unfolding word_bytes
word_bytes-big_endian w = ground arith

abbrev five : (ℕ → List ℕ) → State → List ℕ
five bytes s = bytes s.s0 ++ bytes s.s1 ++ bytes s.s2 ++ bytes s.s3 ++ bytes s.s4

digest_bytes-five : (s : State) → digest_bytes s ≡ five word_bytes s
unfolding digest_bytes
digest_bytes-five s = refl

-- The bytes of the program's hash are those of the standard's.
pub digest_bytes-digest :
    (m : List ℕ) (n : ℕ) → digest_bytes (fold_blocks n sha1_init.state m) ≡ digest m n
unfolding sha1_init
digest_bytes-digest m n =
    ap digest_bytes (fold_blocks-hash n initial m)
    ∙ digest_bytes-five (hash n initial m)
    ∙ ap (λ bytes. five bytes (hash n initial m)) (λ i w. word_bytes-big_endian w i)
