-- ===== src/Ws/Request/Fields.antt =====
-- The numbers that json_find_int of src/core/ws_server.c reads.
use telemetry_platform_testb.Base.{
  ℕ, zero, suc, ◌+◌, ◌-◌, ◌*◌, ◌≤◌, ◌≡◌, ◌⊎◌, refl, subst, sym, inl, inr, arith, Bool, true, false,
  [], ◌∷◌, drop, ltb, ◌==◌, Bool-cases, Option-cases, ltb→le, ◌>>=◌, if◌then◌else◌,
}
use telemetry_platform_testb.Base.Int.{ℤ, pos, negsuc, sub_ℕ, ◌≤ℤ◌}
use telemetry_platform_testb.Libc.{isdigit}
use telemetry_platform_testb.Types.{CString}
use telemetry_platform_testb.Ws.Request.{
  strstr, strchr, skip_spaces, read_digits, signed_int, int_at, json_find_int,
}

isdigit_le : (c : ℕ) → isdigit c ≡ true → c ≤ b'9'
isdigit_le c h = ground arith

-- `v` stays below ten times the limit, and a digit more.
read_digits_le : (v : ℕ) (s : CString) → v ≤ 1000000 → read_digits v s ≤ 10000009
unfolding read_digits
read_digits_le v [] h = omega arith
read_digits_le v (c ∷ s) h = elim (Bool-cases (isdigit c)) [
  | inr other ↦ rw other (omega arith)
  | inl digit ↦
      let top = isdigit_le c digit in
      elim (Bool-cases (ltb 1000000 (v * 10 + (c - b'0')))) [
        | inl over ↦ rw (digit, over) (omega arith)
        | inr under ↦
            rw (digit, under)
              (read_digits_le (v * 10 + (c - b'0')) s (ltb→le 1000000 (v * 10 + (c - b'0')) under))
      ]
]

abbrev IsFound : ℤ → ℤ → Type 0
IsFound defv z = (z ≡ defv) ⊎ ((negsuc 10000008 ≤ℤ z) × (z ≤ℤ pos 10000009))

module _ (defv : ℤ) where
  if-IsFound :
      (b : Bool) (x y : ℤ) → IsFound defv x → IsFound defv y → IsFound defv (if b then x else y)
  if-IsFound true x y hx hy = hx
  if-IsFound false x y hx hy = hy

  signed_int-IsFound : (negative : Bool) (s : CString) → IsFound defv (signed_int negative s defv)
  unfolding signed_int
  signed_int-IsFound negative [] = inl refl
  signed_int-IsFound negative (c ∷ s) =
      let v = read_digits 0 (c ∷ s) in
      let small = read_digits_le 0 (c ∷ s) (omega arith) in
      if-IsFound (isdigit c) (if negative then sub_ℕ 0 v else pos v) defv
        (if-IsFound negative (sub_ℕ 0 v) (pos v) (minus v small)
          (inr (omega arith, omega (arith, small))))
        (inl refl)
    where
      minus : (v : ℕ) → v ≤ 10000009 → IsFound defv (sub_ℕ 0 v)
      minus zero h = inr (omega arith, omega arith)
      minus (suc v) h = inr (grind arith, grind arith)

  int_at-IsFound : (s : CString) → IsFound defv (int_at s defv)
  unfolding int_at
  int_at-IsFound [] = inl refl
  int_at-IsFound (c ∷ s) =
      if-IsFound (c == b'-') (signed_int true s defv) (signed_int false (c ∷ s) defv)
        (signed_int-IsFound true s) (signed_int-IsFound false (c ∷ s))

-- Whatever the text and the key: the default, or a number of at most eight digits, so that no
-- arithmetic of the loop leaves a long, nor the result an int.
pub json_find_int-range :
    (json key : CString) (defv : ℤ)
    → (json_find_int json key defv ≡ defv)
      ⊎ ((negsuc 10000008 ≤ℤ json_find_int json key defv)
          × (json_find_int json key defv ≤ℤ pos 10000009))
unfolding json_find_int
json_find_int-range json key defv = elim (Option-cases (strstr json key >>= λ p. strchr p b':')) [
  | inl gone ↦ inl (rw (json_find_int, gone) refl)
  | inr (p, found) ↦
      let read : json_find_int json key defv ≡ int_at (skip_spaces (drop 1 p)) defv =
        rw (json_find_int, found) refl in
      subst (IsFound defv) (sym read) (int_at-IsFound defv (skip_spaces (drop 1 p)))
]
