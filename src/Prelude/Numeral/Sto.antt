-- ===== src/Prelude/Numeral/Sto.antt =====
-- `std::stoi` and `std::stol`: white space, a sign, digits, and anything after them. `none` is an
-- exception: there is no digit, or the number does not fit.
use prompt_cache_storage.Prelude.Tests.{ltb, leb, ◌==◌, if◌then◌else◌, lt→ltb}
use Prim.Native.Nat.{ℕ, ◌^◌, ◌<◌}
use mathlib.Core.Path.{◌≡◌, refl}
use mathlib.Core.Logic.{◌≢◌}
use mathlib.Core.Bool.{Bool, true, false, ◌&&◌, ◌||◌}
use mathlib.Core.List.{[], ◌∷◌}
use mathlib.Core.Option.{Option, none, some}
use native.Mathlib.Omega.{arith}
use prompt_cache_storage.Prelude.Lists.{All}
use prompt_cache_storage.Prelude.Int.{ℤ, pos, negsuc}
use prompt_cache_storage.Prelude.Text.{Bytes, codes}
use prompt_cache_storage.Prelude.Numeral.{
  digit_run, is_digit, value, value_step, minus, IsDigit, digit_run-All, to_string,
  to_string-IsDigit, to_string-ne-nil, value-to_string,
}

-- `isspace` in the locale "C".
is_space : ℕ → Bool
is_space c = (c == b' ') || (leb 9 c && leb c 13)

skip_space : Bytes → Bytes
unfolding is_space
skip_space [] = []
skip_space (c ∷ s) = let rest = skip_space s in if is_space c then rest else c ∷ s

number : Bytes → Option ℕ
number [] = none
number (c ∷ s) = some (value 10 (c ∷ s))

within : ℕ → Bool → Option ℕ → Option ℤ
within limit negative none = none
within limit true (some n) = if leb n limit then some (minus n) else none
within limit false (some n) = if ltb n limit then some (pos n) else none

signed_part : ℕ → Bytes → Option ℤ
signed_part limit [] = none
signed_part limit (c ∷ s) =
    if c == b'-'
    then within limit true (number (digit_run s))
    else if c == b'+'
    then within limit false (number (digit_run s))
    else within limit false (number (digit_run (c ∷ s)))

no_digits : Bytes → Bool
unfolding number digit_run is_digit
no_digits [] = true
no_digits (c ∷ s) =
    if (c == b'-') || (c == b'+')
    then elim (number (digit_run s)) [ none ↦ true | some n ↦ false ]
    else elim (number (digit_run (c ∷ s))) [ none ↦ true | some n ↦ false ]

-- Into an `int`, and into a `long` of 64 bits.
unfoldable pub stoi : Bytes → Option ℤ
unfolding signed_part skip_space number within minus digit_run is_digit value value_step
stoi s = signed_part (2 ^ 31) (skip_space s)

unfoldable pub stol : Bytes → Option ℤ
unfolding signed_part skip_space number within minus digit_run is_digit value value_step
stol s = signed_part (2 ^ 63) (skip_space s)

-- `std::atoi`, which is 0 without a digit; `none` is a number that does not fit, which is undefined.
unfoldable pub atoi : Bytes → Option ℤ
unfolding signed_part skip_space number within minus digit_run is_digit value value_step no_digits
atoi s = if no_digits (skip_space s) then some (pos 0) else signed_part (2 ^ 31) (skip_space s)

atoi_reads : atoi (codes "9000") ≡ some (pos 9000)
unfolding atoi
atoi_reads = refl

atoi_without_digits : atoi (codes "http") ≡ some (pos 0)
unfolding atoi
atoi_without_digits = refl

number-digits : (s : Bytes) (n : ℕ) → s ≢ [] → value 10 s ≡ n → number s ≡ some n
unfolding number
number-digits [] n h e = absurd (h refl)
number-digits (c ∷ s) n h e = rw e

skip_space-digits : (s : Bytes) → All IsDigit s → skip_space s ≡ s
unfolding skip_space is_space
skip_space-digits [] h = refl
skip_space-digits (c ∷ s) (h, hs) = ground arith

signed_part-digits :
    (limit : ℕ) (s : Bytes) (n : ℕ)
    → All IsDigit s
    → s ≢ []
    → value 10 s ≡ n
    → n < limit
    → signed_part limit s ≡ some (pos n)
unfolding signed_part within
signed_part-digits limit [] n d h e b = absurd (h refl)
signed_part-digits limit (c ∷ s) n d h e b =
    rw (digit_run-All (c ∷ s) d, number-digits (c ∷ s) n h e, lt→ltb n limit b) (ground arith)

-- `std::stoi` reads back what `std::to_string` printed.
pub stoi-to_string : (n : ℕ) → n < 2 ^ 31 → stoi (to_string n) ≡ some (pos n)
unfolding stoi
stoi-to_string n h = rw (skip_space-digits (to_string n) (to_string-IsDigit n)) (
    signed_part-digits (2 ^ 31) (to_string n) n (to_string-IsDigit n) (to_string-ne-nil n)
      (value-to_string n) h)

stoi_reads : stoi (codes " -12x") ≡ some (negsuc 11)
unfolding stoi
stoi_reads = refl

stoi_refuses : stoi (codes "2147483648") ≡ none
unfolding stoi
stoi_refuses = refl
