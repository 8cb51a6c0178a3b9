-- ===== src/Gateway/Storage/Listing/Complete.antt =====
-- A listing leaves no object out: what is not on a page lies behind the key of its token.
use mathlib.Core.List.{Memᴰ}
use prompt_cache_storage.Prelude.{
  ℕ, zero, suc, ◌≡◌, ◌≢◌, ◌⊎◌, refl, sym, ◌∙◌, ap, subst, inl, inr, Option, some, List, [], ◌∷◌,
  ◌++◌, append_assoc, Bytes, beq, beq_iff, All, Bool-cases, Option-cases,
}
use prompt_cache_storage.Prelude.Text.{strip_prefix-append, strip_prefix_sound}
use prompt_cache_storage.Gateway.Storage.Meta.{ObjectMeta, decode_meta}
use prompt_cache_storage.Gateway.Storage.Rocks.{LeBytes, Member, IsSorted}
use prompt_cache_storage.Gateway.Storage.Rocks.Order.{strip_prefix-between, first-le}
use prompt_cache_storage.Gateway.Storage.Listing.{ListedObject, Scan, name_in, scan}

-- Every object of the bucket `mp` with the prefix, among entries that start behind it.
module _ (mp prefix x : Bytes) where
  name_in-append :
      (rest : Bytes) → name_in mp prefix (mp ++ (prefix ++ rest)) ≡ some (prefix ++ rest)
  unfolding name_in
  name_in-append rest =
      rw (name_in, strip_prefix-append mp (prefix ++ rest), strip_prefix-append prefix rest) refl

  pub name_in-between :
      (k : Bytes)
      → LeBytes (mp ++ prefix) k
      → LeBytes k (mp ++ (prefix ++ x))
      → (rest : Bytes) × (k ≡ mp ++ (prefix ++ rest))
        × (name_in mp prefix k ≡ some (prefix ++ rest))
  name_in-between k lo hi =
      let hi' : LeBytes k ((mp ++ prefix) ++ x) =
        subst (λ j. LeBytes k j) (sym (append_assoc mp prefix x)) hi in
      let (rest, found) = strip_prefix-between (mp ++ prefix) k x lo hi' in
      let at : k ≡ mp ++ (prefix ++ rest) =
        strip_prefix_sound (mp ++ prefix) k found ∙ append_assoc mp prefix rest in
      (rest, at, ap (name_in mp prefix) at ∙ name_in-append rest)

  module _ (m : Bytes → Option Bytes) (v : Bytes) (meta : ObjectMeta)
      (decodes : decode_meta v ≡ some meta) where
    abbrev target : Bytes
    target = mp ++ (prefix ++ x)

    abbrev object : ListedObject
    object = record { key = prefix ++ x; meta = meta }

    -- The object is on the page, or the page is full and ends before it.
    abbrev pub IsCovered : List (Bytes × Bytes) → Scan → Type 0
    IsCovered es sc =
        Memᴰ object sc.objects
        ⊎ ((last : Bytes) × (lv : Bytes) × (sc.last_key ≡ some last)
            × Member (last, lv) es
            × LeBytes last target
            × (last ≢ target))

    IsCovered-later :
        (e : Bytes × Bytes) (es : List (Bytes × Bytes)) (sc : Scan)
        → IsCovered es sc
        → IsCovered (e ∷ es) sc
    IsCovered-later e es sc (inl on) = inl on
    IsCovered-later e es sc (inr (last, lv, full, there, le, ne)) =
        inr (last, lv, full, inr there, le, ne)

    IsCovered-more :
        (e : Bytes × Bytes) (es : List (Bytes × Bytes)) (o : ListedObject) (sc : Scan)
        → IsCovered es sc
        → IsCovered (e ∷ es) (record sc { objects = o ∷ sc.objects })
    IsCovered-more e es o sc (inl on) = inl (Memᴰ.tail on)
    IsCovered-more e es o sc (inr (last, lv, full, there, le, ne)) =
        inr (last, lv, full, inr there, le, ne)

    held_at :
        (es : List (Bytes × Bytes))
        → All (λ (e : Bytes × Bytes). m e.0 ≡ some e.1) es
        → Member (target, v) es
        → m target ≡ some v
    held_at [] at there = absurd there
    held_at (e ∷ es) (at, ats) (inl same) = subst (λ (y : Bytes × Bytes). m y.0 ≡ some y.1) same at
    held_at (e ∷ es) (at, ats) (inr there) = held_at es ats there

    -- The entry of the object itself.
    scan_here :
        (room : ℕ) (k w : Bytes) (rest : List (Bytes × Bytes))
        → k ≡ target
        → w ≡ v
        → IsCovered ((k, w) ∷ rest) (scan mp prefix room ((k, w) ∷ rest))
    unfolding scan
    scan_here zero k w rest e f =
        rw (ap (name_in mp prefix) e ∙ name_in-append x, ap decode_meta f ∙ decodes, scan)
          (inl (Memᴰ.head refl))
    scan_here (suc n) k w rest e f =
        rw (ap (name_in mp prefix) e ∙ name_in-append x, ap decode_meta f ∙ decodes, scan)
          (inl (Memᴰ.head refl))

    not_here :
        (k w : Bytes) (rest : List (Bytes × Bytes))
        → k ≢ target
        → Member (target, v) ((k, w) ∷ rest)
        → Member (target, v) rest
    not_here k w rest ne (inl same) = absurd (ne (ap (λ (e : Bytes × Bytes). e.0) same))
    not_here k w rest ne (inr there) = there

    -- An entry of another object.
    scan_past :
        (room : ℕ) (k w y : Bytes) (rest : List (Bytes × Bytes))
        → name_in mp prefix k ≡ some y
        → LeBytes k target
        → k ≢ target
        → ((n : ℕ) → IsCovered rest (scan mp prefix n rest))
        → IsCovered ((k, w) ∷ rest) (scan mp prefix room ((k, w) ∷ rest))
    unfolding scan
    scan_past zero k w y rest found le ne more = elim (Option-cases (decode_meta w)) [
      | inl d ↦
          rw (found, d, scan) (IsCovered-later (k, w) rest (scan mp prefix zero rest) (more zero))
      | inr (o, d) ↦ rw (found, d, scan) (inr (k, w, refl, inl refl, le, ne))
    ]
    scan_past (suc n) k w y rest found le ne more = elim (Option-cases (decode_meta w)) [
      | inl d ↦
          rw (found, d, scan)
            (IsCovered-later (k, w) rest (scan mp prefix (suc n) rest) (more (suc n)))
      | inr (o, d) ↦
          rw (found, d, scan) (IsCovered-more (k, w) rest _ (scan mp prefix n rest) (more n))
    ]

    pub scan-IsCovered :
        (room : ℕ) (es : List (Bytes × Bytes))
        → All (λ (e : Bytes × Bytes). LeBytes (mp ++ prefix) e.0) es
        → All (λ (e : Bytes × Bytes). m e.0 ≡ some e.1) es
        → IsSorted es
        → Member (target, v) es
        → IsCovered es (scan mp prefix room es)
    scan-IsCovered room [] lo held sorted there = absurd there
    scan-IsCovered room ((k, w) ∷ rest) (lo, los) (at, ats) sorted there =
        let le = first-le (k, w) rest target v sorted there in
        let (y, k_is, found) = name_in-between k lo le in
        elim (Bool-cases (beq k target)) [
          | inl e ↦
              let same = (beq_iff k target).0 e in
              let known : some w ≡ some v =
                sym at ∙ ap m same ∙ held_at ((k, w) ∷ rest) (at, ats) there in
              scan_here room k w rest same (cc known)
          | inr e ↦
              let other : k ≢ target = λ same. let q = (beq_iff k target).1 same in cc (q, e) in
              scan_past room k w (prefix ++ y) rest found le other
                (λ n. scan-IsCovered n rest los ats sorted.1 (not_here k w rest other there))
        ]
