-- ===== src/Gateway/Storage/Listing/Tests.antt =====
-- A page of one object, in a bucket of two.
use prompt_cache_storage.Prelude.{
  pos, ◌≡◌, refl, ◌∙◌, true, some, none, [], ◌∷◌, ◌++◌, Bytes, codes, arith, beq,
}
use prompt_cache_storage.Prelude.Order.{before}
use prompt_cache_storage.Gateway.Storage.Keys.{contains_nul, bucket_key, meta_prefix, meta_key}
use prompt_cache_storage.Gateway.Storage.Meta.{
  ObjectMeta, encode_meta, decode_meta, decode_meta-encode_meta,
}
use prompt_cache_storage.Gateway.Storage.Rocks.{put, LeBytes}
use prompt_cache_storage.Gateway.Storage.Rocks.Order.{LeBytes-refl, LeBytes-append}
use prompt_cache_storage.Gateway.Storage.Rocks.Reference.{
  reference, reference_laws, reference_holds, answer, find, table,
}
use prompt_cache_storage.Gateway.Storage.Env.{State, get}
use prompt_cache_storage.Gateway.Storage.Env.Laws.{held}
use prompt_cache_storage.Gateway.Storage.Store.{bucket_exists}
use prompt_cache_storage.Gateway.Storage.Listing.{Coder, list_objects_v2}
use prompt_cache_storage.Gateway.Storage.Listing.Covered.{IsOnOrAfter, list_objects_v2-IsOnOrAfter}

abbrev plain_coder : Coder
plain_coder = record { encode = λ k. k; decode = λ k. some k }

abbrev some_meta : ObjectMeta
some_meta = record { etag = codes "d4"; mtime = pos 7; size = pos 5; content_type = [] }

abbrev cache : Bytes
cache = codes "cache"

abbrev two_objects : State reference
two_objects = record {
  world =
      put (meta_key cache (codes "2b")) (encode_meta some_meta)
      ∷ put (meta_key cache (codes "2a")) (encode_meta some_meta)
      ∷ put (bucket_key cache) []
      ∷ [];
  metrics = none;
}

decodes : decode_meta (encode_meta some_meta) ≡ some some_meta
decodes =
    decode_meta-encode_meta some_meta (omega arith) (omega arith) (omega arith, (omega arith, tt))

bucket_there : (bucket_exists cache two_objects).0.0 ≡ true
unfolding bucket_exists contains_nul get answer find table bucket_key meta_key meta_prefix beq
    before
bucket_there = refl

second_there :
    held reference_laws two_objects (meta_prefix cache ++ (codes "2" ++ codes "b"))
    ≡ some (encode_meta some_meta)
unfolding find table bucket_key meta_key meta_prefix beq before
second_there =
    reference_holds two_objects.world (meta_prefix cache ++ (codes "2" ++ codes "b")) ∙ refl

second_behind :
    LeBytes (meta_prefix cache ++ codes "2") (meta_prefix cache ++ (codes "2" ++ codes "b"))
unfolding meta_prefix
second_behind = LeBytes-append (meta_prefix cache ++ codes "2") (codes "b")

list_objects_v2-IsOnOrAfter_example :
    IsOnOrAfter reference_laws plain_coder
      (λ k w. refl)
      (meta_prefix cache)
      (codes "2")
      (codes "b")
      (encode_meta some_meta)
      some_meta
      decodes
      (list_objects_v2 plain_coder cache (codes "2") (pos 1) [] two_objects).0.0
list_objects_v2-IsOnOrAfter_example =
    list_objects_v2-IsOnOrAfter reference_laws plain_coder (λ k w. refl) cache (codes "2")
      (codes "b") (encode_meta some_meta) some_meta decodes (pos 1) []
      (meta_prefix cache ++ codes "2") two_objects (unfold contains_nul in refl) bucket_there refl
      (LeBytes-refl (meta_prefix cache ++ codes "2")) second_behind (λ e. cc e) second_there
