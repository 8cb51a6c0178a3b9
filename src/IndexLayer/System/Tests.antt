-- ===== src/IndexLayer/System/Tests.antt =====
-- The prefix map on a network that is the gateway itself.
use prompt_cache_storage.Prelude.{pos, ◌≡◌, refl, false, some, [], Bytes, codes, arith}
use prompt_cache_storage.Gateway.Storage.Rocks.Reference.{reference_laws}
use prompt_cache_storage.IndexLayer.Run.{done}
use prompt_cache_storage.IndexLayer.Cache.{PrefixMap, store}
use prompt_cache_storage.IndexLayer.Cache.Samples.{
  small_hash, fractions, map_of, five_tokens, ten_bytes,
}
use prompt_cache_storage.IndexLayer.S3Storage.{State, thread_curl_handle, initialised}
use prompt_cache_storage.IndexLayer.S3Storage.Instance.{s3_storage}
use prompt_cache_storage.IndexLayer.S3Storage.Network.{
  crypto, coder, calendar, gateway, network, client, start, network-IsServed, reliable, is_open,
  client_bucket,
}
use prompt_cache_storage.IndexLayer.System.{load-store, IsServedBy}

load-store_example :
    (id : Bytes) × (c' : PrefixMap) × (s' : State network) × (store small_hash fractions
        (s3_storage network client)
        6
        99
        five_tokens
        ten_bytes
        (codes "me")
        (pos 3)
        false
        (map_of (pos 2))
        (some start)
      ≡ done (id, c', some s'))
    × IsServedBy network client small_hash 6 five_tokens ten_bytes 2 c' (pos 3) s'
load-store_example =
    load-store reference_laws reliable crypto coder calendar gateway (λ res. false) (λ m. [])
      is_open client network (λ w. w) network-IsServed client_bucket small_hash fractions 6 99
      five_tokens ten_bytes (codes "me") (pos 3) (map_of (pos 2)) start 2 (pos 3)
      (unfold thread_curl_handle initialised in refl) (omega arith) (omega arith) refl (omega arith)
      (omega arith) (omega arith) (omega arith) (omega arith) (omega arith)
