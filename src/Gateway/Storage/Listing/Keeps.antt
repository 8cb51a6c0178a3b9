-- ===== src/Gateway/Storage/Listing/Keeps.antt =====
-- A listing changes nothing that is held.
use prompt_cache_storage.Prelude.Text.{is_empty}
use prompt_cache_storage.Prelude.{
  refl, ◌∙◌, Bool, true, false, ◌||◌, ◌++◌, ◌-◌, Option, none, some, Bytes, ℕ, ℤ, Bool-cases,
  Option-cases, inl, inr,
}
use prompt_cache_storage.Gateway.Storage.Keys.{contains_nul, meta_prefix}
use prompt_cache_storage.Gateway.Storage.Rocks.{Rocks, RocksLaws}
use prompt_cache_storage.Gateway.Storage.Env.{seek, timer}
use prompt_cache_storage.Gateway.Storage.Env.Laws.{seek_keeps, timer_keeps, observe_iter_keeps}
use prompt_cache_storage.Gateway.Storage.Env.Keeps.{Keeps, if-Keeps}
use prompt_cache_storage.Gateway.Storage.Store.{bucket_exists}
use prompt_cache_storage.Gateway.Storage.Store.Objects.{bucket_exists_keeps}
use prompt_cache_storage.Gateway.Storage.Listing.{
  Coder, scan, skip_seen, look_ahead, page, start_page, list_checked, list_objects_v2, page_size,
}

module _ {r : Rocks} (laws : RocksLaws r) (coder : Coder) where
  look_ahead-Keeps :
      (mp prefix : Bytes) (last : Option Bytes) → Keeps laws (look_ahead coder mp prefix last)
  unfolding look_ahead
  look_ahead-Keeps mp prefix none s = refl
  look_ahead-Keeps mp prefix (some last) s = seek_keeps laws last s

  page-Keeps :
      (mp prefix : Bytes) (size : ℕ) (resumed : Bool) (seek_key : Bytes)
      → Keeps laws (page coder mp prefix size resumed seek_key)
  unfolding page
  page-Keeps mp prefix size resumed seek_key s =
      observe_iter_keeps laws _ _ _
      ∙ look_ahead-Keeps mp prefix
          (scan mp prefix (size - 1)
            (skip_seen resumed seek_key (seek seek_key (timer s).1).0.entries)).last_key
          (seek seek_key (timer s).1).1
      ∙ seek_keeps laws seek_key (timer s).1
      ∙ timer_keeps laws s

  start_page-Keeps :
      (mp prefix : Bytes) (size : ℕ) (token : Bytes)
      → Keeps laws (start_page coder mp prefix size token)
  unfolding start_page
  start_page-Keeps mp prefix size token s = elim (Bool-cases (is_empty token)) [
    | inl e ↦ rw e (page-Keeps mp prefix size false (mp ++ prefix) s)
    | inr e ↦ elim (Option-cases (coder.decode token)) [
      | inl d ↦ rw (e, d) refl
      | inr (k, d) ↦ rw (e, d) (page-Keeps mp prefix size true k s)
    ]
  ]

  list_checked-Keeps :
      (b prefix : Bytes) (max_keys : ℤ) (token : Bytes)
      → Keeps laws (list_checked coder b prefix max_keys token)
  unfolding list_checked
  list_checked-Keeps b prefix max_keys token s =
      if-Keeps laws (bucket_exists b s).0.0
        (start_page coder (meta_prefix b) prefix (page_size max_keys) token) _
        (start_page-Keeps (meta_prefix b) prefix (page_size max_keys) token) (λ s. refl)
        (bucket_exists b s).1
      ∙ bucket_exists_keeps laws b s

  pub list_objects_v2-Keeps :
      (b prefix : Bytes) (max_keys : ℤ) (token : Bytes)
      → Keeps laws (list_objects_v2 coder b prefix max_keys token)
  unfolding list_objects_v2
  list_objects_v2-Keeps b prefix max_keys token =
      if-Keeps laws (contains_nul b || contains_nul prefix || contains_nul token) _ _ (λ s. refl)
        (list_checked-Keeps b prefix max_keys token)
