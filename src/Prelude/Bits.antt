-- ===== src/Prelude/Bits.antt =====
-- When `|` and `^` are 0. The libraries state only the recursion on digits that they stand for.
use Prim.Native.Nat.{
  ℕ, zero, suc, ◌+◌, ◌-◌, ◌*◌, ◌/◌, ◌%◌, ◌≤◌, ◌<◌, max, differ, bit_or, bit_xor, digits,
  bit_or-bitwise, bit_xor-bitwise,
}
use mathlib.Core.Path.{◌≡◌, refl, sym, ap, ◌∙◌}
use native.Mathlib.Omega.{arith}

-- A number has used up its digits after as many halvings as it is large, so that further fuel does
-- nothing.
module _ (low : ℕ → ℕ) (bit : ℕ → ℕ → ℕ) where
  no_digit : (fuel y : ℕ) → digits low bit fuel 0 y ≡ low y
  no_digit zero y = refl
  no_digit (suc fuel) y = refl

  one_more : (n k : ℕ) → suc n + k ≡ suc (n + k)
  one_more n k = omega arith

  spare :
      (extra fuel x y : ℕ) → x ≤ fuel → digits low bit (fuel + extra) x y ≡ digits low bit fuel x y
  spare extra fuel zero y h = no_digit (fuel + extra) y ∙ sym (no_digit fuel y)
  spare extra zero (suc x) y h = absurd (omega arith)
  spare extra (suc fuel) (suc x) y h =
      ap (λ total. digits low bit total (suc x) y) (one_more fuel extra)
      ∙ ap (λ rest. rest * 2 + bit (suc x % 2) (y % 2))
          (spare extra fuel (suc x / 2) (y / 2) (omega arith))

  half_fuel : (x y : ℕ) → digits low bit x (suc x / 2) y ≡ digits low bit (suc x / 2) (suc x / 2) y
  half_fuel x y =
      ap (λ fuel. digits low bit fuel (suc x / 2) y) (omega arith)
      ∙ spare (x - suc x / 2) (suc x / 2) (suc x / 2) y (omega arith)

zero-bit_or : (b : ℕ) → bit_or 0 b ≡ b
zero-bit_or b = bit_or-bitwise 0 b

zero-bit_xor : (b : ℕ) → bit_xor 0 b ≡ b
zero-bit_xor b = bit_xor-bitwise 0 b

bit_or-suc : (a b : ℕ) → bit_or (suc a) b ≡ bit_or (suc a / 2) (b / 2) * 2 + max (suc a % 2) (b % 2)
bit_or-suc a b = omega (
  arith,
  bit_or-bitwise (suc a) b,
  bit_or-bitwise (suc a / 2) (b / 2),
  half_fuel (λ y. y) max a (b / 2),
)

bit_xor-suc :
    (a b : ℕ) → bit_xor (suc a) b ≡ bit_xor (suc a / 2) (b / 2) * 2 + differ (suc a % 2) (b % 2)
bit_xor-suc a b = omega (
  arith,
  bit_xor-bitwise (suc a) b,
  bit_xor-bitwise (suc a / 2) (b / 2),
  half_fuel (λ y. y) differ a (b / 2),
)

bit_or_grows : (n a b : ℕ) → a ≤ n → (a ≤ bit_or a b) × (b ≤ bit_or a b)
bit_or_grows n zero b h = omega (arith, zero-bit_or b)
bit_or_grows zero (suc a) b h = absurd (omega arith)
bit_or_grows (suc n) (suc a) b h =
    omega (arith, bit_or-suc a b, bit_or_grows n (suc a / 2) (b / 2) (omega arith))

pub bit_or-ge : (a b : ℕ) → (a ≤ bit_or a b) × (b ≤ bit_or a b)
bit_or-ge a b = bit_or_grows a a b (omega arith)

differ_bits : (x y : ℕ) → x < 2 → y < 2 → (differ x y ≡ 0 → x ≡ y) × (x ≡ y → differ x y ≡ 0)
differ_bits zero zero h k = (λ e. omega arith, λ e. refl)
differ_bits zero (suc zero) h k = (λ e. omega arith, λ e. omega arith)
differ_bits zero (suc (suc y)) h k = absurd (omega arith)
differ_bits (suc zero) zero h k = (λ e. omega arith, λ e. omega arith)
differ_bits (suc zero) (suc zero) h k = (λ e. omega arith, λ e. refl)
differ_bits (suc zero) (suc (suc y)) h k = absurd (omega arith)
differ_bits (suc (suc x)) y h k = absurd (omega arith)

differ_zero : (a b : ℕ) → differ (a % 2) (b % 2) ≡ 0 → a % 2 ≡ b % 2
differ_zero a b h = (differ_bits (a % 2) (b % 2) (omega arith) (omega arith)).0 h

xor_zero_below : (n a b : ℕ) → a ≤ n → bit_xor a b ≡ 0 → a ≡ b
xor_zero_below n zero b h e = omega (arith, zero-bit_xor b)
xor_zero_below zero (suc a) b h e = absurd (omega arith)
xor_zero_below (suc n) (suc a) b h e =
    let s = bit_xor-suc a b in
    omega (
      arith,
      xor_zero_below n (suc a / 2) (b / 2) (omega arith) (omega arith),
      differ_zero (suc a) b (omega arith),
    )

pub bit_xor-zero : (a b : ℕ) → bit_xor a b ≡ 0 → a ≡ b
bit_xor-zero a b e = xor_zero_below a a b (omega arith) e

differ_self : (a : ℕ) → differ (a % 2) (a % 2) ≡ 0
differ_self a = (differ_bits (a % 2) (a % 2) (omega arith) (omega arith)).1 refl

xor_self_below : (n a : ℕ) → a ≤ n → bit_xor a a ≡ 0
xor_self_below n zero h = refl
xor_self_below zero (suc a) h = absurd (omega arith)
xor_self_below (suc n) (suc a) h =
    omega (
      arith,
      bit_xor-suc a (suc a),
      xor_self_below n (suc a / 2) (omega arith),
      differ_self (suc a),
    )

pub bit_xor_self : (a : ℕ) → bit_xor a a ≡ 0
bit_xor_self a = xor_self_below a a (omega arith)
