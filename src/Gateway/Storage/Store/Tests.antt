-- ===== src/Gateway/Storage/Store/Tests.antt =====
-- The store on the database in memory.
use prompt_cache_storage.Prelude.{
  pos, negsuc, ◌≡◌, refl, ◌⊎◌, true, false, none, some, [], ◌∷◌, Bytes, codes, ◌≤◌, arith, beq,
}
use prompt_cache_storage.Prelude.Text.{Lacks}
use prompt_cache_storage.Gateway.Storage.Keys.{contains_nul, bucket_key, data_key, meta_prefix}
use prompt_cache_storage.Gateway.Storage.Meta.{
  ObjectMeta, encode_meta, decode_meta, decode_meta-encode_meta,
}
use prompt_cache_storage.Gateway.Storage.Rocks.{put}
use prompt_cache_storage.Gateway.Storage.Rocks.Reference.{
  reference, reference_laws, reference_answers, answer, find, table, from,
}
use prompt_cache_storage.Gateway.Storage.Env.{State, get, write, seek, is_answer, now_seconds}
use prompt_cache_storage.Gateway.Storage.Env.Laws.{held}
use prompt_cache_storage.Gateway.Storage.Store.{
  ok, put_object, get_object_data, delete_object, delete_bucket, if_exists, bucket_exists,
  drop_if_empty, not_empty, unless_found, drop_marker,
}
use prompt_cache_storage.Gateway.Storage.Store.Objects.{
  Updates, IsRefused, put_object_atomic, delete_object_atomic, meta_of,
}
use prompt_cache_storage.Gateway.Storage.Store.Reads.{
  get_object_data_lem, get_object_data-put_object, IsRead,
}
use prompt_cache_storage.Gateway.Storage.Listing.{Coder, list_objects_v2, page_size}
use prompt_cache_storage.Gateway.Storage.Listing.Pages.{IsPage, list_objects_v2-IsPage}
use prompt_cache_storage.Gateway.Storage.Store.Buckets.{delete_bucket-IsRemoved, IsRemoved}
use prompt_cache_storage.Gateway.Storage.Store.Reliable.{IsReliable, put_object_readable}

-- A database with one bucket and no object.
abbrev one_bucket : State reference
one_bucket = record { world = put (bucket_key (codes "cache")) [] ∷ []; metrics = none }

abbrev cache : Bytes
cache = codes "cache"

abbrev id : Bytes
id = codes "2ac4"

abbrev payload : Bytes
payload = codes "12345"

put_object_atomic_example :
    ((contains_nul cache ≡ false)
      × (contains_nul id ≡ false)
      × Updates reference_laws one_bucket
          (put_object cache id payload [] one_bucket).1
          cache
          id
          (some payload)
          (some (encode_meta (meta_of reference_laws payload [] (now_seconds one_bucket).0))))
    ⊎ IsRefused reference_laws one_bucket (put_object cache id payload [] one_bucket)
put_object_atomic_example = put_object_atomic reference_laws cache id payload [] one_bucket

delete_object_atomic_example :
    ((contains_nul cache ≡ false)
      × (contains_nul id ≡ false)
      × Updates reference_laws one_bucket (delete_object cache id one_bucket).1 cache id none none)
    ⊎ IsRefused reference_laws one_bucket (delete_object cache id one_bucket)
delete_object_atomic_example = delete_object_atomic reference_laws cache id one_bucket

no_nul : (contains_nul cache ≡ false) × (contains_nul id ≡ false)
unfolding contains_nul
no_nul = (refl, refl)

put_run :
    (put_object cache id payload [] one_bucket).0
    ≡ ok (meta_of reference_laws payload [] (pos 1700000000))
unfolding put_object contains_nul write now_seconds
put_run = refl

answers : (k : Bytes) (s : State reference) → is_answer (get k s).0.0 ≡ true
unfolding get
answers k s = reference_answers k s.world

reliable : IsReliable reference
reliable = record { get_answers = reference_answers; write_fine = λ ops w. refl }

get_object_data-put_object_example :
    (get_object_data cache id (put_object cache id payload [] one_bucket).1).0 ≡ ok payload
get_object_data-put_object_example =
    get_object_data-put_object reference_laws cache id payload [] one_bucket put_run
      (answers (data_key cache id) (put_object cache id payload [] one_bucket).1)

put_object_readable_example :
    ((put_object cache id payload [] one_bucket).0
      ≡ ok (meta_of reference_laws payload [] (now_seconds one_bucket).0))
    × ((get_object_data cache id (put_object cache id payload [] one_bucket).1).0 ≡ ok payload)
put_object_readable_example =
    put_object_readable reference_laws reliable cache id payload [] one_bucket no_nul.0 no_nul.1

get_object_data_lem_example :
    IsRead reference_laws cache id one_bucket (get_object_data cache id one_bucket).0
    × (held reference_laws (get_object_data cache id one_bucket).1 ≡ held reference_laws one_bucket)
get_object_data_lem_example = get_object_data_lem reference_laws cache id one_bucket

delete_run : (delete_bucket cache one_bucket).0 ≡ ok tt
unfolding delete_bucket contains_nul if_exists bucket_exists get answer find table bucket_key
    drop_if_empty seek not_empty unless_found drop_marker write from meta_prefix beq
delete_run = refl

delete_bucket-IsRemoved_example :
    IsRemoved reference_laws cache one_bucket (delete_bucket cache one_bucket).1
delete_bucket-IsRemoved_example = delete_bucket-IsRemoved reference_laws cache one_bucket delete_run

abbrev some_meta : ObjectMeta
some_meta = record {
  etag = codes "d4";
  mtime = negsuc 0;
  size = pos 12345;
  content_type = codes "text/plain";
}

some_meta-Lacks : Lacks 0 some_meta.etag
some_meta-Lacks = (omega arith, (omega arith, tt))

decode_meta-encode_meta_example : decode_meta (encode_meta some_meta) ≡ some some_meta
decode_meta-encode_meta_example =
    decode_meta-encode_meta some_meta (omega arith) (omega arith) some_meta-Lacks

-- Tokens that are not coded.
abbrev plain_coder : Coder
plain_coder = record { encode = λ k. k; decode = λ k. some k }

list_objects_v2-IsPage_example :
    (page_size (pos 2) ≤ 1000)
    × IsPage reference_laws plain_coder cache
        (codes "2a")
        (page_size (pos 2))
        (put_object cache id payload [] one_bucket).1
        (list_objects_v2 plain_coder cache
          (codes "2a")
          (pos 2)
          []
          (put_object cache id payload [] one_bucket).1).0.0.objects
list_objects_v2-IsPage_example =
    list_objects_v2-IsPage reference_laws plain_coder cache (codes "2a") (pos 2) []
      (put_object cache id payload [] one_bucket).1
