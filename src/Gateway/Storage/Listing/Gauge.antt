-- ===== src/Gateway/Storage/Listing/Gauge.antt =====
-- A listing leaves the gauge of the requests in flight as it is.
use prompt_cache_storage.Prelude.Text.{is_empty}
use prompt_cache_storage.Prelude.{
  refl, ◌∙◌, Bool, true, false, ◌||◌, ◌++◌, ◌-◌, Option, none, some, Bytes, ℕ, ℤ, Option-cases, inl,
  inr,
}
use prompt_cache_storage.Gateway.Storage.Keys.{contains_nul, meta_prefix}
use prompt_cache_storage.Gateway.Storage.Rocks.{Rocks}
use prompt_cache_storage.Gateway.Storage.Env.{seek, timer}
use prompt_cache_storage.Gateway.Storage.Env.Gauge.{
  LeavesGauge, if-LeavesGauge, seek-LeavesGauge, timer-LeavesGauge, observe_iter-LeavesGauge,
}
use prompt_cache_storage.Gateway.Storage.Store.{bucket_exists}
use prompt_cache_storage.Gateway.Storage.Store.Gauge.{bucket_exists-LeavesGauge}
use prompt_cache_storage.Gateway.Storage.Listing.{
  Coder, scan, skip_seen, look_ahead, page, start_page, list_checked, list_objects_v2, page_size,
}

module _ {r : Rocks} (coder : Coder) where
  look_ahead-LeavesGauge :
      (mp prefix : Bytes) (last : Option Bytes)
      → LeavesGauge {r = r} (look_ahead coder mp prefix last)
  unfolding look_ahead
  look_ahead-LeavesGauge mp prefix none s = refl
  look_ahead-LeavesGauge mp prefix (some last) s = seek-LeavesGauge last s

  page-LeavesGauge :
      (mp prefix : Bytes) (size : ℕ) (resumed : Bool) (seek_key : Bytes)
      → LeavesGauge {r = r} (page coder mp prefix size resumed seek_key)
  unfolding page
  page-LeavesGauge mp prefix size resumed seek_key s =
      observe_iter-LeavesGauge _ _ _
      ∙ look_ahead-LeavesGauge mp prefix
          (scan mp prefix (size - 1)
            (skip_seen resumed seek_key (seek seek_key (timer s).1).0.entries)).last_key
          (seek seek_key (timer s).1).1
      ∙ seek-LeavesGauge seek_key (timer s).1
      ∙ timer-LeavesGauge s

  start_page-LeavesGauge :
      (mp prefix : Bytes) (size : ℕ) (token : Bytes)
      → LeavesGauge {r = r} (start_page coder mp prefix size token)
  unfolding start_page
  start_page-LeavesGauge mp prefix size token =
      if-LeavesGauge (is_empty token) _ _ (page-LeavesGauge mp prefix size false (mp ++ prefix))
        (elim (Option-cases (coder.decode token)) [
          | inl d ↦ rw d (λ s. refl)
          | inr (k, d) ↦ rw d (page-LeavesGauge mp prefix size true k)
        ])

  pub list_objects_v2-LeavesGauge :
      (b prefix : Bytes) (max_keys : ℤ) (token : Bytes)
      → LeavesGauge {r = r} (list_objects_v2 coder b prefix max_keys token)
  unfolding list_objects_v2 list_checked
  list_objects_v2-LeavesGauge b prefix max_keys token =
      if-LeavesGauge (contains_nul b || contains_nul prefix || contains_nul token) _
        (list_checked coder b prefix max_keys token) (λ s. refl)
        (λ s.
          if-LeavesGauge (bucket_exists b s).0.0
            (start_page coder (meta_prefix b) prefix (page_size max_keys) token) _
            (start_page-LeavesGauge (meta_prefix b) prefix (page_size max_keys) token) (λ s. refl)
            (bucket_exists b s).1
          ∙ bucket_exists-LeavesGauge b s)
