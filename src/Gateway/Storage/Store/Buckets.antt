-- ===== src/Gateway/Storage/Store/Buckets.antt =====
-- `delete_bucket` removes the marker of an empty bucket only.
use prompt_cache_storage.Prelude.{
  ◌≡◌, refl, ◌∙◌, ◌⊎◌, inl, inr, Option, none, some, List, [], ◌∷◌, ◌++◌, Bytes, beq, if◌then◌else◌,
  Bool-cases, Option-cases, codes, All,
}
use prompt_cache_storage.Gateway.Storage.Keys.{contains_nul, bucket_key, meta_prefix, meta_key}
use prompt_cache_storage.Gateway.Storage.Rocks.{
  Rocks, RocksLaws, Status, fine, not_found, broken, delete, apply_batch, LeBytes, Member, IsSorted,
}
use prompt_cache_storage.Gateway.Storage.Rocks.Order.{
  strip_prefix-between, first-le, LeBytes-append,
}
use prompt_cache_storage.Gateway.Storage.Env.{State, seek}
use prompt_cache_storage.Gateway.Storage.Env.Laws.{held, write_cases, seek_keeps}
use prompt_cache_storage.Gateway.Storage.Store.{
  ok, delete_bucket, drop_if_empty, unless_found, not_empty, drop_marker, bucket_exists,
  delete_bucket_checked,
}
use prompt_cache_storage.Gateway.Storage.Store.Objects.{
  bucket_exists_keeps, if_exists_cases, written_ok,
}

module _ {r : Rocks} (laws : RocksLaws r) where
  -- No object of the bucket has metadata.
  abbrev pub IsEmptyBucket : Bytes → State r → Type 0
  IsEmptyBucket b s = (k : Bytes) → held laws s (meta_key b k) ≡ none

  passed :
      (p x v : Bytes) (e : Bytes × Bytes) (es : List (Bytes × Bytes)) (st : Status)
      → IsSorted (e ∷ es)
      → Member (p ++ x, v) (e ∷ es)
        ⊎ ((st ≡ fine → ⊥) × All (λ (y : Bytes × Bytes). LeBytes y.0 (p ++ x)) (e ∷ es))
      → LeBytes e.0 (p ++ x)
  passed p x v e es st sorted (inl there) = first-le e es (p ++ x) v sorted there
  passed p x v e es st sorted (inr (_, all)) = all.0

  no_key_behind :
      (b x v : Bytes) (m : Bytes → Option Bytes) (es : List (Bytes × Bytes)) (st : Status)
      → not_empty b (record { entries = es; at_end = st }) ≡ none
      → All (λ (e : Bytes × Bytes). LeBytes (meta_prefix b) e.0 × (m e.0 ≡ some e.1)) es
      → IsSorted es
      → Member (meta_prefix b ++ x, v) es
        ⊎ ((st ≡ fine → ⊥) × All (λ (e : Bytes × Bytes). LeBytes e.0 (meta_prefix b ++ x)) es)
      → ⊥
  unfolding not_empty
  no_key_behind b x v m [] fine h sound sorted (inl there) = elim there [ ]
  no_key_behind b x v m [] fine h sound sorted (inr (failed, _)) = failed refl
  no_key_behind b x v m [] not_found h sound sorted found = cc
  no_key_behind b x v m [] (broken e) h sound sorted found = cc
  no_key_behind b x v m (e ∷ es) st h sound sorted found =
      let (rest, has) =
        strip_prefix-between (meta_prefix b) e.0 x sound.0.0
          (passed (meta_prefix b) x v e es st sorted found) in
      let q = rw (has, not_empty) at h in cc q

  no_key :
      (b k v : Bytes) (s : State r)
      → not_empty b (seek (meta_prefix b) s).0 ≡ none
      → held laws s (meta_key b k) ≡ some v
      → ⊥
  unfolding meta_key seek
  no_key b k v s none_found there =
      no_key_behind b k v (held laws s) (r.seek (meta_prefix b) s.world).0.entries _ none_found
        (laws.seek_sound (meta_prefix b) s.world) (laws.seek_sorted (meta_prefix b) s.world)
        (laws.seek_complete (meta_prefix b) s.world (meta_prefix b ++ k) v
          (LeBytes-append (meta_prefix b) k) there)

  drop_marker-ok :
      (b : Bytes) (s : State r)
      → (drop_marker b s).0 ≡ ok tt
      → (j : Bytes)
      → held laws (drop_marker b s).1 j ≡ apply_batch (delete (bucket_key b) ∷ []) (held laws s) j
  unfolding drop_marker
  drop_marker-ok b s h = elim (write_cases laws (codes "delete") 0 (delete (bucket_key b) ∷ []) s) [
    | inl done ↦ done
    | inr (failed, _) ↦ absurd (failed (written_ok tt tt _ h).0)
  ]

  -- What a successful removal of a bucket means.
  pub record IsRemoved (b : Bytes) (s s' : State r) : Type 0 where
    pub was_empty : IsEmptyBucket b s
    pub marker :
        (j : Bytes) → held laws s' j ≡ (if beq (bucket_key b) j then none else held laws s j)

  drop_if_empty-ok :
      (b : Bytes) (s : State r)
      → (drop_if_empty b s).0 ≡ ok tt
      → IsRemoved b s (drop_if_empty b s).1
  unfolding drop_if_empty unless_found
  drop_if_empty-ok b s h = elim (Option-cases (not_empty b (seek (meta_prefix b) s).0)) [
    | inr (e, found) ↦ let q = rw found at h in cc q
    | inl empty ↦ rw empty (record {
      was_empty = λ k. elim (Option-cases (held laws s (meta_key b k))) [
        | inl gone ↦ gone
        | inr (v, there) ↦ absurd (no_key b k v s empty there)
      ];
      marker = λ j.
          drop_marker-ok b (seek (meta_prefix b) s).1 (rw empty at h) j
          ∙ unfold apply_batch in rw (seek_keeps laws (meta_prefix b) s) refl;
    })
  ]

  IsRemoved-from :
      (b : Bytes) (s t s' : State r)
      → held laws t ≡ held laws s
      → IsRemoved b t s'
      → IsRemoved b s s'
  IsRemoved-from b s t s' e h = record {
    was_empty = λ k. rw (← e) (h.was_empty k);
    marker = λ j. rw (← e) (h.marker j);
  }

  -- If `delete_bucket` reports success, the bucket held no metadata of any object, its marker is gone
  -- and no other key has changed.
  pub delete_bucket-IsRemoved :
      (b : Bytes) (s : State r)
      → (delete_bucket b s).0 ≡ ok tt
      → IsRemoved b s (delete_bucket b s).1
  unfolding delete_bucket delete_bucket_checked
  delete_bucket-IsRemoved b s h = elim (Bool-cases (contains_nul b)) [
    | inl e ↦ cc (rw e at h)
    | inr e ↦ elim (if_exists_cases laws b (drop_if_empty b) s) [
      | inr (x, run) ↦ let q = rw (e, run) at h in cc q
      | inl run ↦
          rw (e, run)
            (IsRemoved-from b s (bucket_exists b s).1 _ (bucket_exists_keeps laws b s)
              (drop_if_empty-ok b (bucket_exists b s).1 (rw (e, run) at h)))
    ]
  ]
