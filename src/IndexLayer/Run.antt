-- ===== src/IndexLayer/Run.antt =====
-- How a call of the index layer ends: with a result, in an overflow of `int` (which is undefined
-- in C++), or not within the rounds that the fuel allows.
pub data Run {ℓ} (A : Type ℓ) : Type ℓ where
  done : A → Run A
  overflow : Run A
  out_of_fuel : Run A

infixl 5 ◌>>=◌
abbrev pub ◌>>=◌ {ℓ κ} : {A : Type ℓ} {B : Type κ} → Run A → (A → Run B) → Run B
done a >>= f = f a
overflow >>= f = overflow
out_of_fuel >>= f = out_of_fuel
