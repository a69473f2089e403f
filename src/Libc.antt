-- ===== src/Libc.antt =====
-- What the program uses of the C library on texts: character classes, strtol, %d, and the environment.
-- A C string is the list of its bytes before the NUL.
pub mod Numbers
use telemetry_platform_testb.Base.{
  ℕ, zero, suc, ◌+◌, ◌-◌, ◌*◌, ◌/◌, ◌%◌, ◌^◌, Bool, true, false, ◌&&◌, ◌||◌, List, [], ◌∷◌, Option,
  none, some, ltb, leb, ◌==◌, same_string, if◌then◌else◌,
}
use telemetry_platform_testb.Base.Int.{ℤ, pos, negsuc, sub_ℕ, ltb_ℤ}
use telemetry_platform_testb.Types.{CString}

-- tolower, isspace and isdigit in the C locale.
abbrev pub tolower : ℕ → ℕ
tolower c = if leb b'A' c && leb c b'Z' then c + 32 else c

abbrev pub isspace : ℕ → Bool
isspace c = c == b' ' || (leb 9 c && leb c 13)

abbrev pub isdigit : ℕ → Bool
isdigit c = leb b'0' c && leb c b'9'

-- The digits of a number of at most `fuel + 1` digits, in front of a text.
unfoldable pub digits : ℕ → ℕ → CString → CString
digits zero n text = (b'0' + n % 10) ∷ text
digits (suc fuel) n text =
    let more = digits fuel (n / 10) ((b'0' + n % 10) ∷ text) in
    if n / 10 == 0 then (b'0' + n % 10) ∷ text else more

-- %d of an int, which has at most ten digits.
unfoldable pub decimal : ℤ → CString
unfolding digits
decimal (pos n) = digits 9 n []
decimal (negsuc n) = b'-' ∷ digits 9 (n + 1) []

-- The value of the digits at the front, behind a value read so far.
pub leading_number : ℕ → CString → ℕ
leading_number v [] = v
leading_number v (c ∷ s) =
    let rest = leading_number (v * 10 + (c - b'0')) s in if isdigit c then rest else v

pub after_sign : CString → ℤ
unfolding leading_number
after_sign [] = pos 0
after_sign (c ∷ s) =
    if c == b'-'
    then sub_ℕ 0 (leading_number 0 s)
    else if c == b'+'
    then pos (leading_number 0 s)
    else pos (leading_number 0 (c ∷ s))

pub skip_white : CString → CString
skip_white [] = []
skip_white (c ∷ s) = let rest = skip_white s in if isspace c then rest else c ∷ s

-- strtol(text, NULL, 10), where the value fits a long: every caller clamps it to a smaller range.
pub strtol : CString → ℤ
unfolding skip_white after_sign
strtol text = after_sign (skip_white text)

-- The environment, the latest setting first.
abbrev pub Environment : Type 0
Environment = List (CString × CString)

unfoldable pub getenv : CString → Environment → Option CString
unfolding same_string
getenv name [] = none
getenv name (e ∷ env) =
    let later = getenv name env in if same_string e.0 name then some e.1 else later

-- setenv(name, value, 1)
abbrev pub setenv : CString → CString → Environment → Environment
setenv name value env = (name, value) ∷ env
