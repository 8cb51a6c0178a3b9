-- ===== src/IndexLayer/Main/RoundTrip.antt =====
-- Two runs of the command line over the gateway: `store`, and then `load`.
use prompt_cache_storage.Prelude.{◌≡◌, true, [], Bytes}
use prompt_cache_storage.Gateway.Metrics.{Metrics}
use prompt_cache_storage.Gateway.Server.InFlight
use prompt_cache_storage.Gateway.Storage.Rocks.{Rocks, RocksLaws}
use prompt_cache_storage.Gateway.Api.Handle
use prompt_cache_storage.Gateway.Api.Handle.{ApiState}
use prompt_cache_storage.IndexLayer.S3Storage.{Curl, State, unused}
use prompt_cache_storage.Gateway.Storage.Env.Laws.{held}

-- libcurl gives a handle, and this does not change what the gateway's database holds.
pub record GivesHandles {r : Rocks} (laws : RocksLaws r) (curl : Curl)
    (view : curl.World → ApiState r) : Type 0 where
  pub given : (w : curl.World) → (curl.easy_init w).0 ≡ true
  pub unseen :
      (w : curl.World) (key : Bytes)
      → held laws (view (curl.easy_init w).1).store key ≡ held laws (view w).store key

-- The state of a thread before its first request.
abbrev opening : (curl : Curl) → curl.World → State curl
opening curl w = record { handle = unused; world = w; printed = [] }
