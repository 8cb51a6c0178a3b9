-- ===== src/Gateway/Storage/Listing/Walk.antt =====
-- The entries that an iterator walks, and the two places where a listing passes over one.
use prompt_cache_storage.Prelude.{
  ◌≡◌, ◌≢◌, refl, sym, ◌∙◌, ap, subst, Bool, true, false, ◌&&◌, inl, inr, Option, some, List, [],
  ◌∷◌, ◌++◌, Bytes, beq, beq_iff, All, Bool-cases,
}
use prompt_cache_storage.Gateway.Storage.Rocks.{LeBytes, Member, IsSorted}
use prompt_cache_storage.Gateway.Storage.Rocks.Order.{
  LeBytes-refl, LeBytes-trans, LeBytes-antisym, first-le,
}
use prompt_cache_storage.Gateway.Storage.Listing.{skip_seen, another}
use prompt_cache_storage.Gateway.Storage.Listing.Complete.{name_in-between}

-- What the entries from a key on are, for a database that holds `m`.
pub record IsWalk (m : Bytes → Option Bytes) (from : Bytes) (es : List (Bytes × Bytes))
    : Type 0 where
  pub behind : All (λ (e : Bytes × Bytes). LeBytes from e.0) es
  pub held : All (λ (e : Bytes × Bytes). m e.0 ≡ some e.1) es
  pub sorted : IsSorted es
  pub complete : (j v : Bytes) → LeBytes from j → m j ≡ some v → Member (j, v) es

module _ (m : Bytes → Option Bytes) (mp prefix x : Bytes) where
  abbrev target : Bytes
  target = mp ++ (prefix ++ x)

  -- The entries of the second iterator, of which the first is not looked at.
  another_there :
      (last lv v : Bytes) (es : List (Bytes × Bytes))
      → All (λ (e : Bytes × Bytes). LeBytes last e.0) es
      → IsSorted es
      → Member (last, lv) es
      → Member (target, v) es
      → LeBytes (mp ++ prefix) last
      → LeBytes last target
      → last ≢ target
      → another mp prefix es ≡ true
  unfolding another
  another_there last lv v [] lo sorted at there bound le ne = absurd there
  another_there last lv v (e ∷ []) lo sorted (inl p) (inl q) bound le ne =
      absurd (ne (ap (λ (y : Bytes × Bytes). y.0) (sym p ∙ q)))
  another_there last lv v (e ∷ []) lo sorted (inl p) (inr q) bound le ne = absurd q
  another_there last lv v (e ∷ []) lo sorted (inr p) there bound le ne = absurd p
  another_there last lv v (e ∷ (k, w) ∷ rest) lo sorted at (inl q) bound le ne =
      let first : e.0 ≡ target = ap (λ (y : Bytes × Bytes). y.0) q in
      let before : LeBytes target last =
        subst (λ j. LeBytes j last) first (first-le e ((k, w) ∷ rest) last lv sorted at) in
      absurd (ne (LeBytes-antisym last target le before))
  another_there last lv v (e ∷ (k, w) ∷ rest) lo sorted at (inr there) bound le ne =
      let low = LeBytes-trans (mp ++ prefix) last k bound lo.1.0 in
      let high = first-le (k, w) rest target v sorted.1 there in
      let (y, k_is, found) = name_in-between mp prefix x k low high in rw (found, another) refl

  pub another_found :
      (last lv v : Bytes) (es : List (Bytes × Bytes))
      → IsWalk m last es
      → LeBytes (mp ++ prefix) last
      → m last ≡ some lv
      → LeBytes last target
      → last ≢ target
      → m target ≡ some v
      → another mp prefix es ≡ true
  another_found last lv v es walk lo at le ne there =
      another_there last lv v es walk.behind walk.sorted
        (walk.complete last lv (LeBytes-refl last) at) (walk.complete target v le there) lo le ne

  -- What is left once the key of the token is skipped.
  pub skip_seen-Member :
      (resumed : Bool) (from v : Bytes) (es : List (Bytes × Bytes))
      → (resumed ≡ true → from ≢ target)
      → Member (target, v) es
      → Member (target, v) (skip_seen resumed from es)
  unfolding skip_seen
  skip_seen-Member resumed from v [] ne there = absurd there
  skip_seen-Member false from v ((k, w) ∷ rest) ne there = there
  skip_seen-Member true from v ((k, w) ∷ rest) ne there = elim (Bool-cases (beq k from)) [
    | inr e ↦ rw e there
    | inl e ↦ rw e (elim there [
      | inl same ↦
          absurd (ne refl (sym ((beq_iff k from).0 e) ∙ ap (λ (y : Bytes × Bytes). y.0) same))
      | inr later ↦ later
    ])
  ]

pub skip_seen-All :
    (P : Bytes × Bytes → Type 0) (resumed : Bool) (from : Bytes) (es : List (Bytes × Bytes))
    → All P es
    → All P (skip_seen resumed from es)
unfolding skip_seen
skip_seen-All P resumed from [] h = tt
skip_seen-All P resumed from ((k, w) ∷ rest) (h, hs) = elim (Bool-cases (resumed && beq k from)) [
  | inl e ↦ rw e hs
  | inr e ↦ rw e (h, hs)
]

pub skip_seen-IsSorted :
    (resumed : Bool) (from : Bytes) (es : List (Bytes × Bytes))
    → IsSorted es
    → IsSorted (skip_seen resumed from es)
unfolding skip_seen
skip_seen-IsSorted resumed from [] h = tt
skip_seen-IsSorted resumed from ((k, w) ∷ rest) (h, hs) =
    elim (Bool-cases (resumed && beq k from)) [ inl e ↦ rw e hs | inr e ↦ rw e (h, hs) ]

pub All-Member :
    (P : Bytes × Bytes → Type 0) {e : Bytes × Bytes} (es : List (Bytes × Bytes))
    → All P es
    → Member e es
    → P e
All-Member P [] h there = absurd there
All-Member P (d ∷ es) (h, hs) (inl same) = subst P same h
All-Member P (d ∷ es) (h, hs) (inr there) = All-Member P es hs there

pub raise :
    (low from : Bytes) (es : List (Bytes × Bytes))
    → LeBytes low from
    → All (λ (e : Bytes × Bytes). LeBytes from e.0) es
    → All (λ (e : Bytes × Bytes). LeBytes low e.0) es
raise low from [] le h = tt
raise low from (e ∷ es) le (h, hs) = (LeBytes-trans low from e.0 le h, raise low from es le hs)
