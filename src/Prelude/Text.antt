-- ===== src/Prelude/Text.antt =====
-- Texts as lists of bytes: equality, prefixes, the lexicographic order.
use Prim.Native.Char.{code}
use Prim.Native.String.{String}
use Prim.Native.Nat.{ℕ, ◌<◌}
use mathlib.Core.Path.{◌≡◌, refl}
use mathlib.Core.Logic.{◌↔◌, ◌≢◌}
use mathlib.Core.Bool.{Bool, true, false, ◌&&◌}
use mathlib.Core.List.{List, [], ◌∷◌, ◌++◌}
use mathlib.Core.Option.{Option, none, some}
use native.Mathlib.Omega.{arith}
use prompt_cache_storage.Prelude.Tests.{◌==◌, if◌then◌else◌}
use prompt_cache_storage.Prelude.Lists.{All}

abbrev pub Bytes : Type 0
Bytes = List ℕ

abbrev pub IsByte : ℕ → Type 0
IsByte c = c < 256

-- The code points of a literal; these are its bytes when the text is ASCII.
abbrev pub codes : String → Bytes
codes String.[] = []
codes (String.◌∷◌ c s) = code c ∷ codes s

-- `std::string::empty`
abbrev pub is_empty : Bytes → Bool
is_empty [] = true
is_empty (c ∷ s) = false

pub is_empty-ne : (s : Bytes) → s ≢ [] → is_empty s ≡ false
is_empty-ne [] h = absurd (h refl)
is_empty-ne (c ∷ s) h = refl

-- `a == b` on strings.
unfoldable pub beq : Bytes → Bytes → Bool
beq [] [] = true
beq [] (d ∷ b) = false
beq (c ∷ a) [] = false
beq (c ∷ a) (d ∷ b) = (c == d) && beq a b

pub beq_iff : (a b : Bytes) → (beq a b ≡ true) ↔ (a ≡ b)
unfolding beq
beq_iff [] [] = ground arith
beq_iff [] (d ∷ b) = ground arith
beq_iff (c ∷ a) [] = ground arith
beq_iff (c ∷ a) (d ∷ b) = ground (arith, beq_iff a b)

pub beq_refl : (a : Bytes) → beq a a ≡ true
beq_refl a = (beq_iff a a).1 refl

-- What follows the prefix `p` in `s`.
unfoldable pub strip_prefix : Bytes → Bytes → Option Bytes
strip_prefix [] s = some s
strip_prefix (c ∷ p) [] = none
strip_prefix (c ∷ p) (d ∷ s) = let rest = strip_prefix p s in if c == d then rest else none

pub strip_prefix-append : (p s : Bytes) → strip_prefix p (p ++ s) ≡ some s
unfolding strip_prefix
strip_prefix-append [] s = refl
strip_prefix-append (c ∷ p) s = ground (arith, strip_prefix-append p s)

pub strip_prefix_sound : (p s : Bytes) {r : Bytes} → strip_prefix p s ≡ some r → s ≡ p ++ r
unfolding strip_prefix
strip_prefix_sound [] s h = ground arith
strip_prefix_sound (c ∷ p) [] h = cc
strip_prefix_sound (c ∷ p) (d ∷ s) {r} h = ground (arith, strip_prefix_sound p s {r = r})

-- The text before and after the first `d`: `find(d)` with the two `substr`s around it.
keep : ℕ → Option (Bytes × Bytes) → Option (Bytes × Bytes)
keep c none = none
keep c (some (a, b)) = some (c ∷ a, b)

unfoldable pub break_on : ℕ → Bytes → Option (Bytes × Bytes)
unfolding keep
break_on d [] = none
break_on d (c ∷ s) = let rest = keep c (break_on d s) in if c == d then some ([], s) else rest

abbrev pub Lacks : ℕ → Bytes → Type 0
Lacks d = All (λ c. c ≢ d)

pub break_on-append : (d : ℕ) (a b : Bytes) → Lacks d a → break_on d (a ++ d ∷ b) ≡ some (a, b)
unfolding break_on
break_on-append d [] b h = ground arith
break_on-append d (c ∷ a) b (h, hs) = rw (break_on-append d a b hs) (ground arith)

pub break_on-Lacks : (d : ℕ) (a : Bytes) → Lacks d a → break_on d a ≡ none
unfolding break_on
break_on-Lacks d [] h = refl
break_on-Lacks d (c ∷ a) (h, hs) = rw (break_on-Lacks d a hs) (ground arith)

-- The pieces between the `d`s: the loop on `find(d, start)`. There is always one.
extend : ℕ → List Bytes → List Bytes
extend c [] = (c ∷ []) ∷ []
extend c (p ∷ ps) = (c ∷ p) ∷ ps

unfoldable pub split_on : ℕ → Bytes → List Bytes
unfolding extend
split_on d [] = [] ∷ []
split_on d (c ∷ s) = let rest = split_on d s in if c == d then [] ∷ rest else extend c rest

pub split_on-Lacks : (d : ℕ) (a : Bytes) → Lacks d a → split_on d a ≡ a ∷ []
unfolding split_on
split_on-Lacks d [] h = refl
split_on-Lacks d (c ∷ a) (h, hs) = rw (split_on-Lacks d a hs) (ground arith)

pub split_on-append : (d : ℕ) (a b : Bytes) → Lacks d a → split_on d (a ++ d ∷ b) ≡ a ∷ split_on d b
unfolding split_on
split_on-append d [] b h = ground arith
split_on-append d (c ∷ a) b (h, hs) = rw (split_on-append d a b hs) (ground arith)
