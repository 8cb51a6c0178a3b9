-- ===== src/Prelude/Sort.antt =====
-- `std::sort` with a strict total order, for which every sorting algorithm has the same result:
-- insertion sort.
use mathlib.Core.Path.{◌≡◌, refl, sym, ◌∙◌, ap}
use mathlib.Core.Bool.{Bool, true, false}
use mathlib.Core.Logic.{inl, inr, ∥∥₁_elim}
use mathlib.Core.List.{List, [], ◌∷◌, Perm}
use mathlib.Core.List.{Permᴰ, is_set}
use prompt_cache_storage.Prelude.Lists.{All}
use prompt_cache_storage.Prelude.Tests.{if◌then◌else◌, Bool-cases}

-- What `std::sort` asks of a comparison, and that it tells any two values apart.
pub record StrictOrder {ℓ} (A : Type ℓ) : Type ℓ where
  pub less : A → A → Bool
  pub irrefl : (a : A) → less a a ≡ false
  pub trans : (a b c : A) → less a b ≡ true → less b c ≡ true → less a c ≡ true
  pub antisym : (a b : A) → less a b ≡ false → less b a ≡ false → a ≡ b

module _ {ℓ} {A : Type ℓ} (o : StrictOrder A) where
  open o use {less, irrefl, trans, antisym}

  pub insert_sorted : A → List A → List A
  insert_sorted x [] = x ∷ []
  insert_sorted x (y ∷ l) =
      let later = y ∷ insert_sorted x l in if less y x then later else x ∷ y ∷ l

  unfoldable pub sort : List A → List A
  unfolding insert_sorted
  sort [] = []
  sort (x ∷ l) = insert_sorted x (sort l)

  lt_asym : (x y : A) → less x y ≡ true → less y x ≡ false
  lt_asym x y h = elim (Bool-cases (less y x)) [
    | inl e ↦ cc (trans x y x h e, irrefl x)
    | inr e ↦ e
  ]

  past : (x y : A) (l : List A) → less y x ≡ true → insert_sorted x (y ∷ l) ≡ y ∷ insert_sorted x l
  unfolding insert_sorted
  past x y l h = rw h

  comm_lt :
      (x y : A) (l : List A)
      → less x y ≡ true
      → insert_sorted x (insert_sorted y l) ≡ insert_sorted y (insert_sorted x l)
  unfolding insert_sorted
  comm_lt x y [] h = rw (h, lt_asym x y h)
  comm_lt x y (z ∷ l) h = elim (Bool-cases (less z x)) [
    | inl e ↦
        let f = trans z x y e h in
        ap (insert_sorted x) (past y z l f)
        ∙ past x z (insert_sorted y l) e
        ∙ ap (λ t. z ∷ t) (comm_lt x y l h)
        ∙ sym (past y z (insert_sorted x l) f)
        ∙ ap (insert_sorted y) (sym (past x z l e))
    | inr e ↦ elim (Bool-cases (less z y)) [
      | inl f ↦ rw (e, f, insert_sorted, e, h)
      | inr f ↦ rw (e, f, insert_sorted, lt_asym x y h, h)
    ]
  ]

  insert_sorted_comm :
      (x y : A) (l : List A)
      → insert_sorted x (insert_sorted y l) ≡ insert_sorted y (insert_sorted x l)
  insert_sorted_comm x y l = elim (Bool-cases (less x y)) [
    | inl e ↦ comm_lt x y l e
    | inr e ↦ elim (Bool-cases (less y x)) [
      | inl f ↦ sym (comm_lt y x l f)
      | inr f ↦ rw (antisym x y e f)
    ]
  ]

  sort-Permᴰ : {l m : List A} → Permᴰ l m → sort l ≡ sort m
  unfolding sort
  sort-Permᴰ Permᴰ.nil = refl
  sort-Permᴰ (Permᴰ.cons {a} {b} e p) = rw (e, sort-Permᴰ p)
  sort-Permᴰ (Permᴰ.swap {a} {b} {a'} {b'} {l} e f) = rw (e, f) (insert_sorted_comm b' a' (sort l))
  sort-Permᴰ (Permᴰ.trans p q) = sort-Permᴰ p ∙ sort-Permᴰ q

  -- The result depends on the items only.
  pub sort-perm : {l m : List A} → IsSet A → Perm l m → sort l ≡ sort m
  sort-perm {l} {m} set p = ∥∥₁_elim p (is_set set (sort l) (sort m)) sort-Permᴰ

  insert_sorted-All {κ} :
      (P : A → Type κ) (x : A) (l : List A) → P x → All P l → All P (insert_sorted x l)
  unfolding insert_sorted
  insert_sorted-All P x [] p h = (p, tt)
  insert_sorted-All P x (y ∷ l) p (q, h) = elim (Bool-cases (less y x)) [
    | inl e ↦ rw e (q, insert_sorted-All P x l p h)
    | inr e ↦ rw e (p, (q, h))
  ]

  pub sort-All {κ} : (P : A → Type κ) (l : List A) → All P l → All P (sort l)
  unfolding sort
  sort-All P [] h = tt
  sort-All P (x ∷ l) (p, h) = insert_sorted-All P x (sort l) p (sort-All P l h)
