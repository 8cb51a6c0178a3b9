-- ===== src/Gateway/Storage/Store/Readers.antt =====
-- The operations of the store that only read change nothing that is held, on every
-- branch.
use prompt_cache_storage.Prelude.{refl, ◌∙◌, ◌||◌, Bytes}
use prompt_cache_storage.Gateway.Storage.Keys.{contains_nul, meta_key}
use prompt_cache_storage.Gateway.Storage.Rocks.{Rocks, RocksLaws}
use prompt_cache_storage.Gateway.Storage.Env.{M, timer}
use prompt_cache_storage.Gateway.Storage.Env.Laws.{seek_keeps, timer_keeps, observe_iter_keeps}
use prompt_cache_storage.Gateway.Storage.Env.Keeps.{Keeps, if-Keeps}
use prompt_cache_storage.Gateway.Storage.Store.{
  Result, bucket_exists, if_exists, list_buckets, read_meta, head_object, head_object_checked,
  get_object_data, get_object_data_checked,
}
use prompt_cache_storage.Gateway.Storage.Store.Objects.{bucket_exists_keeps}
use prompt_cache_storage.Gateway.Storage.Store.Reads.{read_key_keeps}

module _ {r : Rocks} (laws : RocksLaws r) where
  pub list_buckets-Keeps : Keeps laws list_buckets
  unfolding list_buckets
  list_buckets-Keeps s =
      observe_iter_keeps laws _ _ _ ∙ seek_keeps laws _ (timer s).1 ∙ timer_keeps laws s

  if_exists-Keeps :
      {A : Type 0} (b : Bytes) (rest : M r (Result A))
      → Keeps laws rest
      → Keeps laws (if_exists b rest)
  unfolding if_exists
  if_exists-Keeps b rest h s =
      if-Keeps laws (bucket_exists b s).0.0 rest _ h (λ s. refl) (bucket_exists b s).1
      ∙ bucket_exists_keeps laws b s

  read_meta-Keeps : (b k : Bytes) → Keeps laws (read_meta b k)
  unfolding read_meta
  read_meta-Keeps b k s = read_key_keeps laws (meta_key b k) s

  pub head_object-Keeps : (b k : Bytes) → Keeps laws (head_object b k)
  unfolding head_object head_object_checked
  head_object-Keeps b k =
      if-Keeps laws (contains_nul b || contains_nul k) _ _ (λ s. refl)
        (if_exists-Keeps b (read_meta b k) (read_meta-Keeps b k))

  pub get_object_data-Keeps : (b k : Bytes) → Keeps laws (get_object_data b k)
  unfolding get_object_data get_object_data_checked
  get_object_data-Keeps b k =
      if-Keeps laws (contains_nul b || contains_nul k) _ _ (λ s. refl) (read_key_keeps laws _)
