-- ===== src/IndexLayer/System.antt =====
-- The prefix map of the index layer on the storage of the gateway: `PrefixMap::Store`, `Lookup` and `Load`
-- through `S3Storage` and the network.
mod Tests
use prompt_cache_storage.Prelude.{
  ℕ, zero, suc, ◌+◌, ◌*◌, ◌-◌, ◌≤◌, ◌<◌, ◌^◌, ℤ, pos, negsuc, ◌≡◌, ◌≢◌, refl, sym, ◌∙◌, ap, subst,
  Bool, true, false, Option, none, some, List, [], Bytes, length, take, min, arith,
}
use prompt_cache_storage.Prelude.Int.{to_ℕ}
use prompt_cache_storage.Gateway.Http.{Response}
use prompt_cache_storage.Gateway.Metrics.{Metrics}
use prompt_cache_storage.Gateway.Server.InFlight
use prompt_cache_storage.Gateway.Auth.Digests.{Crypto}
use prompt_cache_storage.Gateway.Storage.Rocks.{Rocks, RocksLaws}
use prompt_cache_storage.Gateway.Storage.Store.Reliable.{IsReliable}
use prompt_cache_storage.Gateway.Storage.Listing.{Coder}
use prompt_cache_storage.Gateway.Api.Handle
use prompt_cache_storage.Gateway.Api.Handle.{ApiState}
use prompt_cache_storage.Gateway.Api.Responses.{Calendar}
use prompt_cache_storage.Gateway.Api.Handle.Routes.{IsOpen}
use prompt_cache_storage.IndexLayer.Run.{done}
use prompt_cache_storage.IndexLayer.Hash.{hash_bytes_hex}
use prompt_cache_storage.IndexLayer.Hash.Names.{
  hash_bytes_hex-AreUnreserved, hash_bytes_hex-ne-nil, hash_bytes_hex-ne-dots,
}
use prompt_cache_storage.IndexLayer.Cache.{
  PrefixMap, LookupResult, Double, int_limit, store, submit, look_up, load,
}
use prompt_cache_storage.IndexLayer.Cache.Lookup.{search_bound}
use prompt_cache_storage.IndexLayer.Cache.Usable.Least.{IsUsable}
use prompt_cache_storage.IndexLayer.Cache.Stored.{store-IsStored}
use prompt_cache_storage.IndexLayer.Cache.RoundTrip.{look_up-store}
use prompt_cache_storage.IndexLayer.S3Storage.{
  Config, Curl, State, live, trim_trailing_slash, put, get_range, thread_curl_handle,
}
use prompt_cache_storage.IndexLayer.S3Storage.Exchange.{put-thread_curl_handle}
use prompt_cache_storage.IndexLayer.S3Storage.Served.{IsServed, IsSegment, get_range-put}
use prompt_cache_storage.IndexLayer.S3Storage.Instance.{s3_storage, put_at, get_at}

-- A usable length of data that is not empty.
IsUsable-length :
    (u : ℤ) (size : ℕ) → 0 < size → IsUsable u size → (n : ℕ) × (u ≡ pos (suc n)) × (suc n ≤ size)
IsUsable-length (pos zero) size h (lo, hi) = absurd (omega arith)
IsUsable-length (pos (suc n)) size h (lo, hi) = (n, refl, hi)
IsUsable-length (negsuc n) size h r = absurd r

pub hash_bytes_hex-IsSegment :
    (hasher : Bytes → ℕ) (bytes : Bytes) → IsSegment (hash_bytes_hex hasher bytes)
hash_bytes_hex-IsSegment hasher bytes = record {
  plain = hash_bytes_hex-AreUnreserved hasher bytes;
  given = hash_bytes_hex-ne-nil hasher bytes;
  not_here = (hash_bytes_hex-ne-dots hasher bytes).0;
  not_up = (hash_bytes_hex-ne-dots hasher bytes).1;
}

module _ (curl : Curl) (cfg : Config) where
  -- What was found, and what `Load` then gives.
  abbrev pub IsServedBy :
      (Bytes → ℕ) → ℕ → List Bytes → Bytes → ℕ → PrefixMap → ℤ → State curl → Type 0
  IsServedBy hasher fuel tokens bytes b c' max_len s' =
      (res : LookupResult) × (n : ℕ) × (look_up hasher fuel c' tokens max_len ≡ done res)
      × (res.hit ≡ true)
      × (res.usable_len_bytes ≡ pos (suc n))
      × (suc n ≤ length bytes)
      × ((k : ℕ) × (res.prefix_tokens ≡ k * b)
          × (k * b ≤ search_bound max_len (length tokens))
          × (search_bound max_len (length tokens) < k * b + b))
      × ((s'' : State curl) × (load (s3_storage curl cfg) res.obj_id res.usable_len_bytes (some s')
            ≡ (true, take (suc n) bytes, some s'')))

  pub submit_accepted :
      (id bytes : Bytes) (s s' : State curl)
      → put curl cfg id bytes s ≡ some (true, s')
      → submit (s3_storage curl cfg) false id bytes (some s) ≡ (true, some s')
  unfolding submit put_at
  submit_accepted id bytes s s' h = rw h refl

  load_given :
      (id out : Bytes) (u : ℤ) (s s' : State curl)
      → get_range curl cfg id u s ≡ some (true, out, s')
      → load (s3_storage curl cfg) id u (some s) ≡ (true, out, some s')
  unfolding load get_at
  load_given id out u s s' h = rw h refl

module _ {r : Rocks} (laws : RocksLaws r) (sure : IsReliable r) (crypto : Crypto) (coder : Coder)
    (calendar : Calendar) (gateway : Handle.Config) (need_eof : Response → Bool)
    (render_prometheus : Metrics → Bytes) (free : IsOpen gateway) (cfg : Config) (curl : Curl)
    (view : curl.World → ApiState r)
    (served : IsServed laws
      (InFlight.gateway crypto coder calendar gateway need_eof render_prometheus)
      gateway.max_object_bytes
      cfg
      curl
      view)
    (bucket : IsSegment cfg.bucket) where
  -- `Put` of an object and `GetRange` of it, from a thread whose handle may still have to be made.
  pub put_then_get :
      (hasher : Bytes → ℕ) (bytes : Bytes) (n : ℕ) (s : State curl)
      → (thread_curl_handle curl s).handle ≡ live
      → 0 < length bytes
      → length bytes ≤ gateway.max_object_bytes
      → n < 2 ^ 63
      → let id = hash_bytes_hex hasher bytes in
        (s' s'' : State curl) × (put curl cfg id bytes s ≡ some (true, s'))
        × (get_range curl cfg id (pos (suc n)) s'
            ≡ some (true, take (min (suc n) (length bytes)) bytes, s''))
  put_then_get hasher bytes n s usable some_bytes fits small =
      let id = hash_bytes_hex hasher bytes in
      let (s', s'', put_done, got) =
        get_range-put laws sure crypto coder calendar gateway need_eof render_prometheus free cfg
          curl view served bucket id bytes n (thread_curl_handle curl s) usable
          (hash_bytes_hex-IsSegment hasher bytes) some_bytes fits small in
      (s', s'', sym (put-thread_curl_handle curl cfg id bytes s) ∙ put_done, got)

  same_state :
      {s s' : State curl} {o : Option (Bool × State curl)}
      → o ≡ some (true, s)
      → o ≡ some (true, s')
      → s ≡ s'
  same_state p q = cc

  module _ (hasher : Bytes → ℕ) (double : Double) (fuel now : ℕ) (tokens : List Bytes)
      (bytes owner_id : Bytes) (priority : ℤ) (c : PrefixMap) (s : State curl) (b : ℕ) where
    -- Let a network carry this client's requests to the server of a gateway that asks for no signature and
    -- whose RocksDB does not fail, let the bucket's name be neither empty nor `.` or `..` and consist of
    -- letters, digits and `-._~`, and let libcurl have a handle or give one. Let the data be not empty, within the gateway's limit and smaller than 2^31, and
    -- let the tokens be at least one block and few enough for `int`. Then `Store` of the data returns an
    -- id; a `Lookup` of the same tokens, bounded by at least one block, hits all the whole blocks within
    -- the bound; and `Load` of the id and the usable length that it answers returns true and as many of
    -- the first bytes of the data, at least one.
    pub load-store :
        (max_len : ℤ)
        → (thread_curl_handle curl s).handle ≡ live
        → 0 < length bytes
        → length bytes ≤ gateway.max_object_bytes
        → c.block_size ≡ pos b
        → 0 < b
        → length tokens + b < int_limit
        → length tokens * to_ℕ c.bytes_per_token < int_limit
        → length bytes < int_limit
        → length tokens < fuel
        → b ≤ search_bound max_len (length tokens)
        → (id : Bytes) × (c' : PrefixMap) × (s' : State curl) × (store hasher double
              (s3_storage curl cfg)
              fuel
              now
              tokens
              bytes
              owner_id
              priority
              false
              c
              (some s)
            ≡ done (id, c', some s'))
          × IsServedBy curl cfg hasher fuel tokens bytes b c' max_len s'
    load-store max_len usable some_bytes limit block positive small exact fits enough room =
        let id = hash_bytes_hex hasher bytes in
        let storage = s3_storage curl cfg in
        let (s', s0, put_done, got0) =
          put_then_get hasher bytes 0 s usable some_bytes limit (omega arith) in
        let accepted = submit_accepted curl cfg id bytes s s' put_done in
        let (c', stored, what) =
          store-IsStored hasher double tokens bytes id owner_id priority now b fuel c block positive
            small exact fits enough storage false (some s) (some s') refl accepted in
        let (res, found, hit, at_id, range, blocks) =
          look_up-store hasher double storage fuel now tokens bytes id owner_id priority false c c'
            (some s) (some s') b max_len stored accepted block positive small exact fits enough
            room in
        let (n, length_is, within) =
          IsUsable-length res.usable_len_bytes (length bytes) some_bytes range in
        let (s1, s'', put_again, got) =
          put_then_get hasher bytes n s usable some_bytes limit (omega arith) in
        let whole : min (suc n) (length bytes) ≡ suc n = omega arith in
        let read : get_range curl cfg id (pos (suc n)) s' ≡ some (true, take (suc n) bytes, s'') =
          ap (λ x. get_range curl cfg id (pos (suc n)) x) (same_state put_done put_again)
          ∙ got
          ∙ ap (λ k. some (true, take k bytes, s'')) whole in
        let loaded : load storage res.obj_id res.usable_len_bytes (some s')
            ≡ (true, take (suc n) bytes, some s'') =
          ap (λ x. load storage x res.usable_len_bytes (some s')) at_id
          ∙ ap (λ u. load storage id u (some s')) length_is
          ∙ load_given curl cfg id (take (suc n) bytes) (pos (suc n)) s' s'' read in
        (id, c', s', stored, (res, n, found, hit, length_is, within, blocks, (s'', loaded)))
