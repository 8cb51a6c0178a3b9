-- ===== src/Prelude/Order.antt =====
-- The order of `std::string`: bytes as unsigned numbers, a prefix before what it begins.
use mathlib.Core.Path.{◌≡◌, refl}
use mathlib.Core.Bool.{Bool, true, false}
use mathlib.Core.List.{[], ◌∷◌}
use native.Mathlib.Omega.{arith}
use prompt_cache_storage.Prelude.Tests.{ltb, ◌==◌, if◌then◌else◌}
use prompt_cache_storage.Prelude.Text.{Bytes, beq}

-- `a < b`
unfoldable pub before : Bytes → Bytes → Bool
before [] [] = false
before [] (d ∷ b) = true
before (c ∷ a) [] = false
before (c ∷ a) (d ∷ b) = let rest = before a b in if c == d then rest else ltb c d

pub before_trans : (a b c : Bytes) → before a b ≡ true → before b c ≡ true → before a c ≡ true
unfolding before
before_trans [] [] c h k = cc
before_trans [] (y ∷ b) [] h k = cc
before_trans [] (y ∷ b) (z ∷ c) h k = refl
before_trans (x ∷ a) [] c h k = cc
before_trans (x ∷ a) (y ∷ b) [] h k = cc
before_trans (x ∷ a) (y ∷ b) (z ∷ c) h k = ground (arith, before_trans a b c)

pub before_irrefl : (a : Bytes) → before a a ≡ false
unfolding before
before_irrefl [] = refl
before_irrefl (x ∷ a) = ground (arith, before_irrefl a)

pub before_total : (a b : Bytes) → beq b a ≡ false → before a b ≡ false → before b a ≡ true
unfolding beq before
before_total [] [] h k = cc
before_total [] (y ∷ b) h k = cc
before_total (x ∷ a) [] h k = refl
before_total (x ∷ a) (y ∷ b) h k = ground (arith, before_total a b)

pub before_antisym : (a b : Bytes) → before a b ≡ false → before b a ≡ false → a ≡ b
unfolding before
before_antisym [] [] h k = refl
before_antisym [] (y ∷ b) h k = cc
before_antisym (x ∷ a) [] h k = cc
before_antisym (x ∷ a) (y ∷ b) h k = ground (arith, before_antisym a b)
