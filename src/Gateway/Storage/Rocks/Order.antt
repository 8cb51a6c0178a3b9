-- ===== src/Gateway/Storage/Rocks/Order.antt =====
-- The byte order and prefixes.
use prompt_cache_storage.Prelude.{
  ◌≡◌, refl, subst, inl, inr, some, List, [], ◌∷◌, ◌++◌, Bytes, arith, All,
}
use prompt_cache_storage.Prelude.Text.{strip_prefix}
use prompt_cache_storage.Gateway.Storage.Rocks.{LeBytes, Member, IsSorted}

pub LeBytes-refl : (a : Bytes) → LeBytes a a
LeBytes-refl [] = tt
LeBytes-refl (c ∷ a) = inr (refl, LeBytes-refl a)

pub LeBytes-trans : (a b c : Bytes) → LeBytes a b → LeBytes b c → LeBytes a c
LeBytes-trans [] b c h k = tt
LeBytes-trans (x ∷ a) [] c h k = absurd h
LeBytes-trans (x ∷ a) (y ∷ b) [] h k = absurd k
LeBytes-trans (x ∷ a) (y ∷ b) (z ∷ c) (inl h) (inl k) = inl (omega arith)
LeBytes-trans (x ∷ a) (y ∷ b) (z ∷ c) (inl h) (inr (e, k)) = inl (omega arith)
LeBytes-trans (x ∷ a) (y ∷ b) (z ∷ c) (inr (e, h)) (inl k) = inl (omega arith)
LeBytes-trans (x ∷ a) (y ∷ b) (z ∷ c) (inr (e, h)) (inr (f, k)) =
    inr (omega arith, LeBytes-trans a b c h k)

pub LeBytes-antisym : (a b : Bytes) → LeBytes a b → LeBytes b a → a ≡ b
LeBytes-antisym [] [] h k = refl
LeBytes-antisym [] (y ∷ b) h k = absurd k
LeBytes-antisym (x ∷ a) [] h k = absurd h
LeBytes-antisym (x ∷ a) (y ∷ b) (inl h) (inl k) = absurd (omega arith)
LeBytes-antisym (x ∷ a) (y ∷ b) (inl h) (inr (e, k)) = absurd (omega arith)
LeBytes-antisym (x ∷ a) (y ∷ b) (inr (e, h)) (inl k) = absurd (omega arith)
LeBytes-antisym (x ∷ a) (y ∷ b) (inr (e, h)) (inr (f, k)) =
    let rest = LeBytes-antisym a b h k in cc (e, rest)

pub LeBytes-append : (p x : Bytes) → LeBytes p (p ++ x)
LeBytes-append [] x = tt
LeBytes-append (c ∷ p) x = inr (refl, LeBytes-append p x)

-- A key between a prefix and a key that has the prefix has it too.
pub strip_prefix-between :
    (p q x : Bytes)
    → LeBytes p q
    → LeBytes q (p ++ x)
    → (rest : Bytes) × (strip_prefix p q ≡ some rest)
unfolding strip_prefix
strip_prefix-between [] q x h h' = (q, refl)
strip_prefix-between (c ∷ p) [] x h h' = elim h [ ]
strip_prefix-between (c ∷ p) (d ∷ q) x (inl lt) (inl gt) = absurd (omega arith)
strip_prefix-between (c ∷ p) (d ∷ q) x (inl lt) (inr (e, h')) = absurd (omega arith)
strip_prefix-between (c ∷ p) (d ∷ q) x (inr (e, h)) (inl gt) = absurd (omega arith)
strip_prefix-between (c ∷ p) (d ∷ q) x (inr (e, h)) (inr (e', h')) =
    let (rest, found) = strip_prefix-between p q x h h' in (rest, ground arith)

-- The first of sorted entries stands before each of them.
pub first-le :
    (e : Bytes × Bytes) (es : List (Bytes × Bytes)) (j v : Bytes)
    → IsSorted (e ∷ es)
    → Member (j, v) (e ∷ es)
    → LeBytes e.0 j
first-le e es j v sorted (inl same) =
    subst (λ (x : Bytes × Bytes). LeBytes e.0 x.0) same (LeBytes-refl e.0)
first-le e es j v sorted (inr there) = later es sorted.0 there
  where
    later :
        (xs : List (Bytes × Bytes))
        → All (λ (x : Bytes × Bytes). LeBytes e.0 x.0) xs
        → Member (j, v) xs
        → LeBytes e.0 j
    later [] all m = elim m [ ]
    later (x ∷ xs) all (inl same) = subst (λ (y : Bytes × Bytes). LeBytes e.0 y.0) same all.0
    later (x ∷ xs) all (inr there) = later xs all.1 there
