-- ===== src/Libc/Numbers.antt =====
-- strtol reads back what %d prints.
use telemetry_platform_testb.Base.{
  codes, ℕ, zero, suc, ◌+◌, ◌-◌, ◌*◌, ◌/◌, ◌%◌, ◌^◌, ◌≤◌, ◌<◌, ◌≡◌, refl, ap, sym, ◌∙◌, Bool, true,
  false, [], ◌∷◌, ◌++◌, arith, length, ◌==◌, ℕ_discrete, Bool-cases, inl, inr, if◌then◌else◌,
}
use telemetry_platform_testb.Base.Int.{ℤ, pos, negsuc, sub_ℕ, ◌≤ℤ◌}
use telemetry_platform_testb.Types.{CString}
use telemetry_platform_testb.Libc.{
  isdigit, isspace, digits, decimal, leading_number, after_sign, skip_white, strtol,
}

-- The number has at most `fuel + 1` digits.
abbrev pub Fits : ℕ → ℕ → Type 0
Fits zero n = n < 10
Fits (suc fuel) n = Fits fuel (n / 10)

leading_number-digit :
    (v d : ℕ) (s : CString)
    → d < 10
    → leading_number v ((b'0' + d) ∷ s) ≡ leading_number (v * 10 + d) s
unfolding leading_number
leading_number-digit v d s h =
    let value : b'0' + d - b'0' ≡ d = omega arith in
    let digit : isdigit (b'0' + d) ≡ true = ground arith in rw (digit, value) refl

leading_number-digits :
    (fuel n : ℕ) (text : CString)
    → Fits fuel n
    → leading_number 0 (digits fuel n text) ≡ leading_number n text
unfolding digits
leading_number-digits zero n text h =
    leading_number-digit 0 (n % 10) text (omega arith)
    ∙ ap (λ v. leading_number v text) {x = 0 * 10 + n % 10} {y = n} (omega arith)
leading_number-digits (suc fuel) n text h = elim (ℕ_discrete (n / 10) 0) [
  | yes last ↦
      let stop : (n / 10 == 0) ≡ true = ground arith in
      rw stop (
        leading_number-digit 0 (n % 10) text (omega arith)
        ∙ ap (λ v. leading_number v text) {x = 0 * 10 + n % 10} {y = n} (omega arith))
  | no longer ↦
      let go : (n / 10 == 0) ≡ false = ground arith in
      rw go (
        leading_number-digits fuel (n / 10) ((b'0' + n % 10) ∷ text) h
        ∙ leading_number-digit (n / 10) (n % 10) text (omega arith)
        ∙ ap (λ v. leading_number v text) {x = n / 10 * 10 + n % 10} {y = n} (omega arith))
]

-- A printed number is a digit and something behind it.
record StartsWithDigit (text : CString) : Type 0 where
  digit : ℕ
  rest : CString
  small : digit < 10
  shape : text ≡ (b'0' + digit) ∷ rest

digits-StartsWithDigit : (fuel n : ℕ) (text : CString) → StartsWithDigit (digits fuel n text)
unfolding digits
digits-StartsWithDigit zero n text = record {
  digit = n % 10;
  rest = text;
  small = omega arith;
  shape = refl;
}
digits-StartsWithDigit (suc fuel) n text =
    let more = digits-StartsWithDigit fuel (n / 10) ((b'0' + n % 10) ∷ text) in
    elim (Bool-cases (n / 10 == 0)) [
      | inl stop ↦ record { digit = n % 10; rest = text; small = omega arith; shape = rw stop refl }
      | inr go ↦ record {
        digit = more.digit;
        rest = more.rest;
        small = more.small;
        shape = rw go more.shape;
      }
    ]

strtol-digit :
    (d : ℕ) (s : CString)
    → d < 10
    → strtol ((b'0' + d) ∷ s) ≡ pos (leading_number 0 ((b'0' + d) ∷ s))
unfolding strtol skip_white after_sign
strtol-digit d s h =
    let visible : isspace (b'0' + d) ≡ false = ground arith in
    let no_minus : (b'0' + d == b'-') ≡ false = ground arith in
    let no_plus : (b'0' + d == b'+') ≡ false = ground arith in rw (visible, no_minus, no_plus) refl

-- The text behind the number does not go on with a digit.
abbrev pub Stops : CString → Type 0
Stops text = (n : ℕ) → leading_number n text ≡ n

strtol-digits : (n : ℕ) (text : CString) → Fits 9 n → Stops text → strtol (digits 9 n text) ≡ pos n
unfolding leading_number
strtol-digits n text h stop =
    let d = digits-StartsWithDigit 9 n text in
    ap strtol d.shape
    ∙ strtol-digit d.digit d.rest d.small
    ∙ ap (λ t. pos (leading_number 0 t)) (sym d.shape)
    ∙ ap pos (leading_number-digits 9 n text h ∙ stop n)

strtol-minus : (s : CString) → strtol (b'-' ∷ s) ≡ sub_ℕ 0 (leading_number 0 s)
unfolding strtol skip_white after_sign
strtol-minus s = refl

leading_number-end : (n : ℕ) → leading_number n [] ≡ n
unfolding leading_number
leading_number-end n = refl

-- The range of an int.
abbrev pub InInt : ℤ → Type 0
InInt z = (negsuc (2 ^ 31 - 1) ≤ℤ z) × (z ≤ℤ pos (2 ^ 31 - 1))

-- What %d prints of an int, strtol reads back.
pub strtol-decimal : (z : ℤ) → InInt z → strtol (decimal z) ≡ z
unfolding decimal
strtol-decimal (pos n) h = strtol-digits n [] (omega arith) leading_number-end
strtol-decimal (negsuc n) h =
    strtol-minus (digits 9 (n + 1) [])
    ∙ ap (sub_ℕ 0) (leading_number-digits 9 (n + 1) [] (omega arith) ∙ leading_number-end (n + 1))
    ∙ ground arith

digits-append :
    (fuel n : ℕ) (text more : CString) → digits fuel n (text ++ more) ≡ digits fuel n text ++ more
unfolding digits
digits-append zero n text more = refl
digits-append (suc fuel) n text more =
    ground (arith, digits-append fuel (n / 10) ((b'0' + n % 10) ∷ text) more)

-- The same where a text stands behind the number that does not go on with a digit.
pub strtol-decimal-append :
    (z : ℤ) (text : CString) → InInt z → Stops text → strtol (decimal z ++ text) ≡ z
unfolding decimal
strtol-decimal-append (pos n) text h stop =
    ap strtol (sym (digits-append 9 n [] text)) ∙ strtol-digits n text (omega arith) stop
strtol-decimal-append (negsuc n) text h stop =
    ap (λ t. strtol (b'-' ∷ t)) (sym (digits-append 9 (n + 1) [] text))
    ∙ strtol-minus (digits 9 (n + 1) text)
    ∙ ap (sub_ℕ 0) (leading_number-digits 9 (n + 1) text (omega arith) ∙ stop (n + 1))
    ∙ ground arith

-- A number of at most ten digits in front of such a text.
pub strtol-unsigned :
    (n : ℕ) (text : CString) → n < 10 ^ 10 → Stops text → strtol (digits 9 n [] ++ text) ≡ pos n
strtol-unsigned n text small stop =
    ap strtol (sym (digits-append 9 n [] text)) ∙ strtol-digits n text (omega arith) stop

pub Stops-space : (text : CString) → Stops (codes " " ++ text)
unfolding leading_number
Stops-space text n = refl

pub Stops-dash : (text : CString) → Stops (codes "-" ++ text)
unfolding leading_number
Stops-dash text n = refl

pub decimal-cons : (z : ℤ) → (c : ℕ) × (s : CString) × (decimal z ≡ c ∷ s)
unfolding decimal
decimal-cons (pos n) = let d = digits-StartsWithDigit 9 n [] in (b'0' + d.digit, d.rest, d.shape)
decimal-cons (negsuc n) = (b'-', digits 9 (n + 1) [], refl)

pub length-digits :
    (fuel n : ℕ) (text : CString) → length (digits fuel n text) ≤ fuel + 1 + length text
unfolding digits
length-digits zero n text = omega arith
length-digits (suc fuel) n text =
    let more = length-digits fuel (n / 10) ((b'0' + n % 10) ∷ text) in ground (arith, more)

-- It has at most eleven characters.
pub length-decimal : (z : ℤ) → length (decimal z) ≤ 11
unfolding decimal
length-decimal (pos n) = omega (arith, length-digits 9 n [])
length-decimal (negsuc n) = omega (arith, length-digits 9 (n + 1) [])

pub strtol-bit :
    (b : Bool) → strtol (if b then codes "1" else codes "0") ≡ (if b then pos 1 else pos 0)
unfolding strtol skip_white after_sign leading_number
strtol-bit true = refl
strtol-bit false = refl
