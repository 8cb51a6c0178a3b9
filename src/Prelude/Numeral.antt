-- ===== src/Prelude/Numeral.antt =====
-- What the standard library prints and reads: numbers in decimal and in hexadecimal.
pub mod Sto
use mathlib.Core.List.{foldl, foldl-append}
use native.Mathlib.Nat.{
  div-add-mod', div-lt_self, div-lt_iff_lt-mul, mod-lt, pow-suc, pow-zero, one-mul,
}
use Prim.Native.Nat.{ℕ, zero, suc, ◌+◌, ◌-◌, ◌*◌, ◌/◌, ◌%◌, ◌^◌, ◌≤◌, ◌<◌}
use mathlib.Core.Path.{◌≡◌, refl, ap, ◌∙◌}
use mathlib.Core.Bool.{Bool, true, false, ◌&&◌}
use mathlib.Core.List.{[], ◌∷◌, ◌++◌}
use mathlib.Core.Option.{Option, none, some}
use native.Mathlib.Omega.{arith}
use prompt_cache_storage.Prelude.Tests.{
  ltb, leb, ◌==◌, if◌then◌else◌, ltb→lt, lt→ltb, le→leb, Bool-cases,
}
use mathlib.Core.Logic.{◌≢◌, ◌⊎◌, inl, inr}
use prompt_cache_storage.Prelude.Lists.{All, All-append, replicate, length, length-append}
use prompt_cache_storage.Prelude.Int.{ℤ, pos, negsuc, IsInt64}
use prompt_cache_storage.Prelude.Text.{Bytes, Lacks, codes}

-- Lower-case digits, up to base 16.
pub digit_char : ℕ → ℕ
digit_char d = if ltb d 10 then b'0' + d else 87 + d

-- The digits of `n` without leading zeros, on fuel; fuel above `n` is enough.
pub print_base : ℕ → ℕ → ℕ → Bytes
print_base base zero n = []
print_base base (suc fuel) n = elim (ltb n base) [
  | true ↦ digit_char n ∷ []
  | false ↦ print_base base fuel (n / base) ++ digit_char (n % base) ∷ []
]

-- `std::to_string` of an unsigned value, and `std::hex <<`.
unfoldable pub to_string : ℕ → Bytes
unfolding print_base digit_char
to_string n = print_base 10 (suc n) n

unfoldable pub to_hex : ℕ → Bytes
unfolding print_base digit_char
to_hex n = print_base 16 (suc n) n

-- `std::to_string` of an `int64_t`.
unfoldable pub to_stringℤ : ℤ → Bytes
unfolding to_string
to_stringℤ (pos n) = to_string n
to_stringℤ (negsuc n) = b'-' ∷ to_string (suc n)

digit_value : ℕ → ℕ
digit_value c = if ltb c 58 then c - 48 else c - 87

value_step : ℕ → ℕ → ℕ → ℕ
unfolding digit_value
value_step base acc c = acc * base + digit_value c

-- The number that digits spell.
pub value : ℕ → Bytes → ℕ
value base = foldl (value_step base) 0

value_step-digit : (base acc d : ℕ) → d < 16 → value_step base acc (digit_char d) ≡ acc * base + d
unfolding value_step digit_char
value_step-digit base acc d h = ground arith

quotient_falls : (n base fuel : ℕ) → 2 ≤ base → n < suc fuel → ltb n base ≡ false → n / base < fuel
quotient_falls n base fuel lo h large =
    omega (arith, div-lt_self {n = n} {k = base} (ground arith) (omega arith))

-- Every number is read back from its digits, in each base up to 16.
pub value-print_base :
    (base fuel n : ℕ) → 2 ≤ base → base ≤ 16 → n < fuel → value base (print_base base fuel n) ≡ n
unfolding print_base value
value-print_base base zero n lo hi h = absurd (omega arith)
value-print_base base (suc fuel) n lo hi h = elim (Bool-cases (ltb n base)) [
  | inl small ↦
      rw (small, print_base)
        (value_step-digit base 0 n (omega (arith, ltb→lt n base small)) ∙ omega arith)
  | inr large ↦
      rw (large, print_base)
        (rw
          (
            foldl-append,
            value-print_base base fuel (n / base) lo hi (quotient_falls n base fuel lo h large),
          )
          (value_step-digit base (n / base) (n % base)
              (omega (arith, mod-lt n {m = base} (omega arith)))
            ∙ div-add-mod' n base))
]

pub is_digit : ℕ → Bool
is_digit c = leb b'0' c && leb c b'9'

digit_run : Bytes → Bytes
digit_run [] = []
digit_run (c ∷ s) = let rest = digit_run s in if is_digit c then c ∷ rest else []

nonnegative : Bytes → Option ℤ
nonnegative [] = none
nonnegative (c ∷ s) = let n = value 10 (c ∷ s) in if ltb n (2 ^ 63) then some (pos n) else none

minus : ℕ → ℤ
minus zero = pos zero
minus (suc n) = negsuc n

negative : Bytes → Option ℤ
unfolding minus
negative [] = none
negative (c ∷ s) = let n = value 10 (c ∷ s) in if leb n (2 ^ 63) then some (minus n) else none

-- `std::from_chars` into an `int64_t`: a sign and the digits that follow it, up to the first other
-- byte; `none` is an error code (no digit, or out of range).
signed : Bytes → Option ℤ
signed [] = none
signed (c ∷ s) = if c == b'-' then negative (digit_run s) else nonnegative (digit_run (c ∷ s))

unfoldable pub from_chars : Bytes → Option ℤ
unfolding signed is_digit digit_run nonnegative negative value value_step
from_chars s = signed s

abbrev pub IsDigit : ℕ → Type 0
IsDigit c = (b'0' ≤ c) × (c ≤ b'9')

digit_char-IsDigit : (d : ℕ) → d < 10 → IsDigit (digit_char d)
unfolding digit_char
digit_char-IsDigit d h = ground arith

print_base-IsDigit : (fuel n : ℕ) → All IsDigit (print_base 10 fuel n)
unfolding print_base
print_base-IsDigit zero n = tt
print_base-IsDigit (suc fuel) n = elim (Bool-cases (ltb n 10)) [
  | inl small ↦ rw (small, print_base) (digit_char-IsDigit n (ltb→lt n 10 small), tt)
  | inr large ↦
      rw (large, print_base)
        (All-append IsDigit (print_base 10 fuel (n / 10)) _ (print_base-IsDigit fuel (n / 10))
          (digit_char-IsDigit (n % 10) (omega arith), tt))
]

-- `0` to `9` or `a` to `f`.
abbrev pub IsHexDigit : ℕ → Type 0
IsHexDigit c = ((b'0' ≤ c) × (c ≤ b'9')) ⊎ ((b'a' ≤ c) × (c ≤ b'f'))

digit_char-IsHexDigit : (d : ℕ) → d < 16 → IsHexDigit (digit_char d)
unfolding digit_char
digit_char-IsHexDigit d h = ground arith

print_base-IsHexDigit : (fuel n : ℕ) → All IsHexDigit (print_base 16 fuel n)
unfolding print_base
print_base-IsHexDigit zero n = tt
print_base-IsHexDigit (suc fuel) n = elim (Bool-cases (ltb n 16)) [
  | inl small ↦ rw (small, print_base) (digit_char-IsHexDigit n (ltb→lt n 16 small), tt)
  | inr large ↦
      rw (large, print_base)
        (All-append IsHexDigit (print_base 16 fuel (n / 16)) _ (print_base-IsHexDigit fuel (n / 16))
          (digit_char-IsHexDigit (n % 16) (omega arith), tt))
]

pub to_hex-IsHexDigit : (n : ℕ) → All IsHexDigit (to_hex n)
unfolding to_hex
to_hex-IsHexDigit n = print_base-IsHexDigit (suc n) n

digit_run-All : (s : Bytes) → All IsDigit s → digit_run s ≡ s
unfolding digit_run is_digit
digit_run-All [] h = refl
digit_run-All (c ∷ s) (h, hs) = rw (digit_run-All s hs) (ground arith)

pub value-to_string : (n : ℕ) → value 10 (to_string n) ≡ n
unfolding to_string
value-to_string n = value-print_base 10 (suc n) n (omega arith) (omega arith) (omega arith)

pub value-to_hex : (n : ℕ) → value 16 (to_hex n) ≡ n
unfolding to_hex
value-to_hex n = value-print_base 16 (suc n) n (omega arith) (omega arith) (omega arith)

value_step_zero : (base : ℕ) → value_step base 0 b'0' ≡ 0
unfolding value_step digit_value
value_step_zero base = omega arith

-- Leading zeros do not count.
pub value_zeros : (base n : ℕ) (s : Bytes) → value base (replicate n b'0' ++ s) ≡ value base s
unfolding value
value_zeros base zero s = refl
value_zeros base (suc n) s =
    ap (λ a. foldl (value_step base) a (replicate n b'0' ++ s)) (value_step_zero base)
    ∙ value_zeros base n s

quotient-lt-pow : (base n k : ℕ) → 2 ≤ base → n < base ^ suc (suc k) → n / base < base ^ suc k
quotient-lt-pow base n k lo h =
    (div-lt_iff_lt-mul {k = base} {x = n} {y = base ^ suc k} (omega arith)).1
      (rw (← pow-suc base (suc k)) h)

one_digit : (base n : ℕ) → ltb n base ≡ false → n < base ^ 0 * base → ⊥
one_digit base n large h = ground (arith, pow-zero base, one-mul base)

-- `k` digits are enough below the `k`-th power of the base.
length-print_base :
    (base fuel n k : ℕ) → 2 ≤ base → n < base ^ suc k → length (print_base base fuel n) ≤ suc k
unfolding print_base
length-print_base base zero n k lo h = omega arith
length-print_base base (suc fuel) n zero lo h = elim (Bool-cases (ltb n base)) [
  | inl small ↦ rw (small, print_base) (omega arith)
  | inr large ↦ let h' = rw pow-suc at h in absurd (ground (arith, one_digit base n large h'))
]
length-print_base base (suc fuel) n (suc k) lo h = elim (Bool-cases (ltb n base)) [
  | inl small ↦ rw (small, print_base) (omega arith)
  | inr large ↦
      rw (large, print_base, length-append)
        (omega (arith, length-print_base base fuel (n / base) k lo (quotient-lt-pow base n k lo h)))
]

pub length-to_hex : (n : ℕ) → n < 2 ^ 64 → length (to_hex n) ≤ 16
unfolding to_hex
length-to_hex n h = length-print_base 16 (suc n) n 15 (omega arith) h

pub to_string-IsDigit : (n : ℕ) → All IsDigit (to_string n)
unfolding to_string
to_string-IsDigit n = print_base-IsDigit (suc n) n

append-ne-nil : (s : Bytes) (c : ℕ) → s ++ c ∷ [] ≢ []
append-ne-nil [] c h = cc
append-ne-nil (d ∷ s) c h = cc

pub to_string-ne-nil : (n : ℕ) → to_string n ≢ []
unfolding to_string
to_string-ne-nil n h = elim (Bool-cases (ltb n 10)) [
  | inl small ↦ let q = rw (small, print_base) at h in cc q
  | inr large ↦ append-ne-nil _ _ (rw (large, print_base) at h)
]

pub to_hex-ne-nil : (n : ℕ) → to_hex n ≢ []
unfolding to_hex
to_hex-ne-nil n h = elim (Bool-cases (ltb n 16)) [
  | inl small ↦ let q = rw (small, print_base) at h in cc q
  | inr large ↦ append-ne-nil _ _ (rw (large, print_base) at h)
]

nonnegative-digits :
    (s : Bytes) (n : ℕ) → s ≢ [] → value 10 s ≡ n → n < 2 ^ 63 → nonnegative s ≡ some (pos n)
unfolding nonnegative
nonnegative-digits [] n h e b = absurd (h refl)
nonnegative-digits (c ∷ s) n h e b = rw e (rw (lt→ltb n (2 ^ 63) b))

negative-digits :
    (s : Bytes) (n : ℕ) → s ≢ [] → value 10 s ≡ suc n → n < 2 ^ 63 → negative s ≡ some (negsuc n)
unfolding negative
negative-digits [] n h e b = absurd (h refl)
negative-digits (c ∷ s) n h e b = rw e (rw (le→leb (suc n) (2 ^ 63) b))

signed-digits :
    (s : Bytes) (n : ℕ)
    → All IsDigit s
    → s ≢ []
    → value 10 s ≡ n
    → n < 2 ^ 63
    → signed s ≡ some (pos n)
unfolding signed
signed-digits [] n d h e b = absurd (h refl)
signed-digits (c ∷ s) n d h e b =
    rw (digit_run-All (c ∷ s) d, nonnegative-digits (c ∷ s) n h e b) (ground arith)

signed-minus :
    (s : Bytes) (n : ℕ)
    → All IsDigit s
    → s ≢ []
    → value 10 s ≡ suc n
    → n < 2 ^ 63
    → signed (b'-' ∷ s) ≡ some (negsuc n)
unfolding signed
signed-minus s n d h e b = rw (digit_run-All s d) (negative-digits s n h e b)

from_chars-signed : (s : Bytes) → from_chars s ≡ signed s
unfolding from_chars
from_chars-signed s = refl

pub to_stringℤ-pos : (n : ℕ) → to_stringℤ (pos n) ≡ to_string n
unfolding to_stringℤ
to_stringℤ-pos n = refl

to_stringℤ-negsuc : (n : ℕ) → to_stringℤ (negsuc n) ≡ b'-' ∷ to_string (suc n)
unfolding to_stringℤ
to_stringℤ-negsuc n = refl

-- `std::from_chars` reads back what `std::to_string` printed, for every `int64_t`.
pub from_chars-to_stringℤ : (z : ℤ) → IsInt64 z → from_chars (to_stringℤ z) ≡ some z
from_chars-to_stringℤ (pos n) h =
    rw (to_stringℤ-pos, from_chars-signed)
      (signed-digits (to_string n) n (to_string-IsDigit n) (to_string-ne-nil n) (value-to_string n)
        h)
from_chars-to_stringℤ (negsuc n) h =
    rw (to_stringℤ-negsuc, from_chars-signed)
      (signed-minus (to_string (suc n)) n (to_string-IsDigit (suc n)) (to_string-ne-nil (suc n))
        (value-to_string (suc n)) h)

-- The print of an `int64_t` is free of any byte that is neither a digit nor the sign.
IsDigit-Lacks : (d : ℕ) (s : Bytes) → d < b'-' → All IsDigit s → Lacks d s
IsDigit-Lacks d [] h a = tt
IsDigit-Lacks d (c ∷ s) h (a, as') = (omega arith, IsDigit-Lacks d s h as')

pub to_stringℤ-Lacks : (d : ℕ) (z : ℤ) → d < b'-' → Lacks d (to_stringℤ z)
to_stringℤ-Lacks d (pos n) h =
    rw to_stringℤ-pos (IsDigit-Lacks d (to_string n) h (to_string-IsDigit n))
to_stringℤ-Lacks d (negsuc n) h =
    rw to_stringℤ-negsuc (omega arith, IsDigit-Lacks d _ h (to_string-IsDigit (suc n)))

from_chars_stops : from_chars (codes "12x7") ≡ some (pos 12)
unfolding from_chars
from_chars_stops = refl

from_chars_minus : from_chars (codes "-9223372036854775808") ≡ some (negsuc 9223372036854775807)
unfolding from_chars
from_chars_minus = refl
