-- ===== src/Gateway/Storage/Store/Gauge.antt =====
-- The operations of the store leave the gauge of the requests in flight as it is.
use prompt_cache_storage.Prelude.{◌∙◌, ◌||◌, Option, none, some, Bytes, refl}
use prompt_cache_storage.Gateway.Storage.Keys.{
  contains_nul, bucket_key, meta_prefix, meta_key, data_key,
}
use prompt_cache_storage.Gateway.Storage.Rocks.{Rocks, Status, fine, not_found, broken}
use prompt_cache_storage.Gateway.Storage.Env.{M, get, timer, seek, now_seconds}
use prompt_cache_storage.Gateway.Storage.Env.Gauge.{
  LeavesGauge, if-LeavesGauge, get-LeavesGauge, write-LeavesGauge, now_seconds-LeavesGauge,
  seek-LeavesGauge, timer-LeavesGauge, observe_iter-LeavesGauge,
}
use prompt_cache_storage.Gateway.Storage.Store.{
  Result, bucket_exists, if_exists, mark_bucket, create_bucket_checked, create_bucket, list_buckets,
  drop_marker, unless_found, drop_if_empty, delete_bucket_checked, delete_bucket,
  put_object_checked, put_object, read_key, read_meta, head_object_checked, head_object,
  get_object_data_checked, get_object_data, remove_object, delete_object_checked, delete_object,
  not_empty,
}

module _ {r : Rocks} where
  pub bucket_exists-LeavesGauge : (b : Bytes) → LeavesGauge {r = r} (bucket_exists b)
  unfolding bucket_exists
  bucket_exists-LeavesGauge b =
      if-LeavesGauge (contains_nul b) _ _ (λ s. refl) (λ s. get-LeavesGauge (bucket_key b) s)

  if_exists-LeavesGauge :
      {A : Type 0} (b : Bytes) (rest : M r (Result A))
      → LeavesGauge rest
      → LeavesGauge (if_exists b rest)
  unfolding if_exists
  if_exists-LeavesGauge b rest h s =
      if-LeavesGauge (bucket_exists b s).0.0 rest _ h (λ s. refl) (bucket_exists b s).1
      ∙ bucket_exists-LeavesGauge b s

  mark_bucket-LeavesGauge : (b : Bytes) (st : Status) → LeavesGauge {r = r} (mark_bucket b st)
  unfolding mark_bucket
  mark_bucket-LeavesGauge b fine s = refl
  mark_bucket-LeavesGauge b (broken e) s = refl
  mark_bucket-LeavesGauge b not_found s = write-LeavesGauge _ _ _ s

  pub create_bucket-LeavesGauge : (b : Bytes) → LeavesGauge {r = r} (create_bucket b)
  unfolding create_bucket create_bucket_checked
  create_bucket-LeavesGauge b =
      if-LeavesGauge (contains_nul b) _ (create_bucket_checked b) (λ s. refl)
        (λ s.
          mark_bucket-LeavesGauge b (get (bucket_key b) s).0.0 (get (bucket_key b) s).1
          ∙ get-LeavesGauge (bucket_key b) s)

  pub list_buckets-LeavesGauge : LeavesGauge {r = r} list_buckets
  unfolding list_buckets
  list_buckets-LeavesGauge s =
      observe_iter-LeavesGauge _ _ _ ∙ seek-LeavesGauge _ (timer s).1 ∙ timer-LeavesGauge s

  unless_found-LeavesGauge :
      (rest : M r (Result (Unit {0}))) (e : Option Bytes)
      → LeavesGauge rest
      → LeavesGauge (unless_found rest e)
  unfolding unless_found
  unless_found-LeavesGauge rest none h s = h s
  unless_found-LeavesGauge rest (some e) h s = refl

  drop_marker-LeavesGauge : (b : Bytes) → LeavesGauge {r = r} (drop_marker b)
  unfolding drop_marker
  drop_marker-LeavesGauge b s = write-LeavesGauge _ _ _ s

  pub delete_bucket-LeavesGauge : (b : Bytes) → LeavesGauge {r = r} (delete_bucket b)
  unfolding delete_bucket delete_bucket_checked drop_if_empty
  delete_bucket-LeavesGauge b =
      if-LeavesGauge (contains_nul b) _ (delete_bucket_checked b) (λ s. refl)
        (if_exists-LeavesGauge b (drop_if_empty b) (λ s.
          unless_found-LeavesGauge (drop_marker b) (not_empty b (seek (meta_prefix b) s).0)
            (drop_marker-LeavesGauge b) (seek (meta_prefix b) s).1
          ∙ seek-LeavesGauge (meta_prefix b) s))

  pub put_object-LeavesGauge : (b k x t : Bytes) → LeavesGauge {r = r} (put_object b k x t)
  unfolding put_object put_object_checked
  put_object-LeavesGauge b k x t =
      if-LeavesGauge (contains_nul b || contains_nul k) _ (put_object_checked b k x t) (λ s. refl)
        (λ s. write-LeavesGauge _ _ _ (now_seconds s).1 ∙ now_seconds-LeavesGauge s)

  read_key-LeavesGauge : (k : Bytes) → LeavesGauge {r = r} (read_key k)
  unfolding read_key
  read_key-LeavesGauge k s = get-LeavesGauge k s

  pub head_object-LeavesGauge : (b k : Bytes) → LeavesGauge {r = r} (head_object b k)
  unfolding head_object head_object_checked read_meta
  head_object-LeavesGauge b k =
      if-LeavesGauge (contains_nul b || contains_nul k) _ (head_object_checked b k) (λ s. refl)
        (if_exists-LeavesGauge b (read_meta b k) (λ s. read_key-LeavesGauge (meta_key b k) s))

  pub get_object_data-LeavesGauge : (b k : Bytes) → LeavesGauge {r = r} (get_object_data b k)
  unfolding get_object_data get_object_data_checked
  get_object_data-LeavesGauge b k =
      if-LeavesGauge (contains_nul b || contains_nul k) _ (get_object_data_checked b k) (λ s. refl)
        (read_key-LeavesGauge (data_key b k))

  pub delete_object-LeavesGauge : (b k : Bytes) → LeavesGauge {r = r} (delete_object b k)
  unfolding delete_object delete_object_checked remove_object
  delete_object-LeavesGauge b k =
      if-LeavesGauge (contains_nul b || contains_nul k) _ (delete_object_checked b k) (λ s. refl)
        (if_exists-LeavesGauge b (remove_object b k) (λ s. write-LeavesGauge _ _ _ s))
