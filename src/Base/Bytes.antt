-- ===== src/Base/Bytes.antt =====
-- Lists of bytes, and checks by evaluation over a small range.
use Prim.Native.Char.{code}
use Prim.Native.String.{String}
use Prim.Native.Nat.{ℕ, zero, suc, ◌/◌, ◌%◌, ◌^◌, ◌<◌}
use mathlib.Core.Path.{◌≡◌, ap, ◌∙◌}
use mathlib.Core.Bool.{Bool, true, false, ◌&&◌}
use mathlib.Core.List.{List, [], ◌∷◌}
use native.Mathlib.Decide.{dec_lt}
use native.Mathlib.Omega.{arith}
use telemetry_platform_testb.Base.Tests.{◌==◌, if◌then◌else◌}

abbrev pub IsBytes : List ℕ → Type 0
IsBytes [] = Unit {0}
IsBytes (b ∷ bs) = (b < 256) × IsBytes bs

-- The low `k` bytes of a number, most significant first.
abbrev pub big_endian : ℕ → ℕ → List ℕ
big_endian zero n = []
big_endian (suc k) n = n / 256 ^ k % 256 ∷ big_endian k n

-- Does the test hold of every number that is smaller than the limit?
unfoldable pub passes : (ℕ → Bool) → ℕ → Bool
passes test zero = true
passes test (suc limit) = if passes test limit then test limit else false

pub passes-at :
    (test : ℕ → Bool) (limit : ℕ) → passes test limit ≡ true → (i : ℕ) → i < limit → test i ≡ true
unfolding passes
passes-at test zero checked i h = absurd (omega arith)
passes-at test (suc limit) checked i h =
    let smaller : passes test limit ≡ true = ground arith in
    let largest : test limit ≡ true = ground arith in
    elim (dec_lt i limit) [
      | yes below ↦ passes-at test limit smaller i below
      | no above ↦ ap test {x = i} {y = limit} (omega arith) ∙ largest
    ]

-- The bytes of an ASCII literal.
abbrev pub codes : String → List ℕ
codes String.[] = []
codes (String.◌∷◌ c s) = code c ∷ codes s

-- strcmp(…) == 0
unfoldable pub same_string : List ℕ → List ℕ → Bool
same_string [] [] = true
same_string [] (y ∷ ys) = false
same_string (x ∷ xs) [] = false
same_string (x ∷ xs) (y ∷ ys) = x == y && same_string xs ys
