-- ===== src/IndexLayer/S3Storage/Served.antt =====
-- `S3Storage` in front of the gateway's server: what is put is got back.
use prompt_cache_storage.Prelude.{
  ℕ, suc, ◌+◌, ◌-◌, ◌≤◌, ◌<◌, ◌^◌, pos, ◌≡◌, ◌≢◌, refl, ◌∙◌, ap, Bool, true, false, some, [], ◌∷◌,
  ◌++◌, Bytes, codes, length, take, drop, min, arith,
}
use prompt_cache_storage.Gateway.Http.{Request, Response, header_value}
use prompt_cache_storage.Gateway.Metrics.{Metrics}
use prompt_cache_storage.Gateway.Util.Percent.Unreserved.{
  AreUnreserved, AreUnreserved-bytes, AreUnreserved-ne_zero,
}
use prompt_cache_storage.Gateway.Auth.Digests.{Crypto}
use prompt_cache_storage.Gateway.Storage.Keys.{contains_nul, data_key}
use prompt_cache_storage.Gateway.Storage.Keys.Laws.{Lacks-contains_nul}
use prompt_cache_storage.Gateway.Storage.Rocks.{Rocks, RocksLaws}
use prompt_cache_storage.Gateway.Storage.Env.Laws.{held}
use prompt_cache_storage.Gateway.Storage.Store.Reliable.{IsReliable}
use prompt_cache_storage.Gateway.Storage.Listing.{Coder}
use prompt_cache_storage.Gateway.Api.Range.Sent.{sent}
use prompt_cache_storage.Gateway.Api.Handle
use prompt_cache_storage.Gateway.Api.Handle.{ApiState}
use prompt_cache_storage.Gateway.Api.Responses.{Calendar}
use prompt_cache_storage.Gateway.Api.Handle.Routes.{IsOpen, IsObject}
use prompt_cache_storage.Gateway.Server.{Environment}
use prompt_cache_storage.Gateway.Server.InFlight
use prompt_cache_storage.Gateway.Server.Exchange.{exchange, exchange-put, exchange-get_part}
use prompt_cache_storage.IndexLayer.S3Storage.{
  Config, Options, Curl, State, live, put, get_range, request_options,
}
use prompt_cache_storage.IndexLayer.S3Storage.Exchange.{
  arrived, all_of, put_options, get_options, path_of, path-object_target, put_arrived, get_arrived,
}

-- A segment of a path that libcurl and Beast hand on as it is: letters, digits and `-._~`, but neither
-- `.` nor `..`, which libcurl takes out of a path.
pub record IsSegment (name : Bytes) : Type 0 where
  pub plain : AreUnreserved name
  pub given : name ≢ []
  pub not_here : name ≢ codes "."
  pub not_up : name ≢ codes ".."

-- What the client asks the server for in a run of these theorems: a PUT of data that is not empty and within
-- the limit, and a GET of the first bytes, of an object whose id is a segment.
pub data IsOwn (limit : ℕ) (cfg : Config) : Options → Type 0 where
  own_put :
      (id bytes : Bytes)
      → IsSegment id
      → 0 < length bytes
      → length bytes ≤ limit
      → IsOwn limit cfg (put_options cfg id bytes)
  own_get : (id : Bytes) (n : ℕ) → IsSegment id → IsOwn limit cfg (get_options cfg id n)

-- A network that carries the client's own requests to the server that `cfg.endpoint` names, with no path, and
-- its responses back: libcurl sends what is set on the handle, Beast reads what is sent, and no transfer
-- to which a session responds fails. Nothing is said of other requests. The data that the database holds
-- after a transfer are those that the session left; clocks, metrics and the next id may go on.
pub record IsServed {r : Rocks} (laws : RocksLaws r) (env : Environment r) (limit : ℕ)
    (cfg : Config) (curl : Curl) (view : curl.World → ApiState r) : Type 0 where
  pub request : Options → Request
  pub put_method :
      (id bytes : Bytes) → IsSegment id → (request (put_options cfg id bytes)).method ≡ codes "PUT"
  pub put_target :
      (id bytes : Bytes)
      → IsSegment id
      → (request (put_options cfg id bytes)).target ≡ b'/' ∷ path_of cfg id
  pub put_body :
      (id bytes : Bytes)
      → IsSegment id
      → 0 < length bytes
      → length bytes ≤ limit
      → (request (put_options cfg id bytes)).body ≡ bytes
  pub get_method :
      (id : Bytes) (n : ℕ) → IsSegment id → (request (get_options cfg id n)).method ≡ codes "GET"
  pub get_target :
      (id : Bytes) (n : ℕ)
      → IsSegment id
      → (request (get_options cfg id n)).target ≡ b'/' ∷ path_of cfg id
  pub get_body : (id : Bytes) (n : ℕ) → IsSegment id → (request (get_options cfg id n)).body ≡ []
  pub get_field :
      (id : Bytes) (n : ℕ)
      → IsSegment id
      → header_value (request (get_options cfg id n)) (codes "Range") ≡ some (sent 0 n)
  pub answered :
      (o : Options) (w : curl.World) (res : Response) (a : ApiState r)
      → IsOwn limit cfg o
      → exchange env limit (request o) (view w) ≡ some (res, a)
      → (curl.easy_perform o w).0 ≡ (some res.status, res.body)
  pub kept :
      (o : Options) (w : curl.World) (res : Response) (a : ApiState r)
      → IsOwn limit cfg o
      → exchange env limit (request o) (view w) ≡ some (res, a)
      → (id : Bytes)
      → held laws (view (curl.easy_perform o w).1).store (data_key cfg.bucket id)
        ≡ held laws a.store (data_key cfg.bucket id)

module _ {r : Rocks} (laws : RocksLaws r) (sure : IsReliable r) (crypto : Crypto) (coder : Coder)
    (calendar : Calendar) (gateway : Handle.Config) (need_eof : Response → Bool)
    (render_prometheus : Metrics → Bytes) (free : IsOpen gateway) (cfg : Config) (curl : Curl)
    (view : curl.World → ApiState r)
    (served : IsServed laws
      (InFlight.gateway crypto coder calendar gateway need_eof render_prometheus)
      gateway.max_object_bytes
      cfg
      curl
      view)
    (bucket : IsSegment cfg.bucket) where
  object : (id : Bytes) → IsSegment id → IsObject cfg.bucket id
  object id h = record {
    bucket_bytes = AreUnreserved-bytes cfg.bucket bucket.plain;
    key_bytes = AreUnreserved-bytes id h.plain;
    bucket_given = bucket.given;
    key_given = h.given;
  }

  no_nul : (s : Bytes) → AreUnreserved s → contains_nul s ≡ false
  no_nul s h = Lacks-contains_nul s (AreUnreserved-ne_zero s h)

  abbrev pub HoldsObject : Bytes → Bytes → curl.World → Type 0
  HoldsObject id bytes w = held laws (view w).store (data_key cfg.bucket id) ≡ some bytes

  -- `Put` returns true, leaves the handle, prints nothing, and the gateway then holds the data.
  pub put_held :
      (id bytes : Bytes) (s : State curl)
      → s.handle ≡ live
      → IsSegment id
      → 0 < length bytes
      → length bytes ≤ gateway.max_object_bytes
      → (s' : State curl) × (put curl cfg id bytes s ≡ some (true, s'))
        × (s'.handle ≡ live)
        × (s'.printed ≡ s.printed ++ [])
        × HoldsObject id bytes s'.world
  unfolding arrived put_options request_options
  put_held id bytes s usable segment some_bytes fits =
      let o = put_options cfg id bytes in
      let w = s.world in
      let req = served.request o in
      let body = served.put_body id bytes segment some_bytes fits in
      let own = own_put id bytes segment some_bytes fits in
      let (res, a, run, status, empty, is_held) =
        exchange-put laws sure crypto coder calendar gateway need_eof render_prometheus free
          cfg.bucket id true (object id segment)
          (no_nul cfg.bucket bucket.plain, no_nul id segment.plain) req (view w)
          (served.put_method id bytes segment)
          (served.put_target id bytes segment
            ∙ path-object_target cfg id bucket.plain segment.plain)
          (rw body fits) in
      let answer : (curl.easy_perform o w).0 ≡ (some 200, []) =
        served.answered o w res a own run ∙ cc (status, empty) in
      (
        (arrived curl o s 200 []).state,
        put_arrived cfg id curl bytes [] s usable answer,
        refl,
        refl,
        served.kept o w res a own run id ∙ is_held ∙ ap some body,
      )

  part_of :
      (n : ℕ) (bytes : Bytes)
      → 0 < length bytes
      → take (min n (length bytes - 1) + 1 - 0) (drop 0 bytes)
        ≡ take (min (suc n) (length bytes)) bytes
  part_of n bytes h = ap (λ k. take k bytes) (all_of n (length bytes) h)

  -- `GetRange` of data that the gateway holds returns true and the data up to the bound, and prints nothing.
  pub get_held :
      (id bytes : Bytes) (n : ℕ) (s : State curl)
      → s.handle ≡ live
      → IsSegment id
      → HoldsObject id bytes s.world
      → 0 < length bytes
      → n < 2 ^ 63
      → (s' : State curl) × (get_range curl cfg id (pos (suc n)) s
          ≡ some (true, take (min (suc n) (length bytes)) bytes, s'))
        × (s'.printed ≡ s.printed)
  unfolding arrived get_options request_options
  get_held id bytes n s usable segment is_held some_bytes small =
      let o = get_options cfg id n in
      let w = s.world in
      let req = served.request o in
      let got : Bytes = take (min (suc n) (length bytes)) bytes in
      let (res, a, run, status, content) =
        exchange-get_part laws sure crypto coder calendar gateway need_eof render_prometheus free
          cfg.bucket id true (object id segment)
          (no_nul cfg.bucket bucket.plain, no_nul id segment.plain) req (view w) bytes 0 n
          (served.get_method id n segment)
          (served.get_target id n segment ∙ path-object_target cfg id bucket.plain segment.plain)
          (rw (served.get_body id n segment) (omega arith)) (served.get_field id n segment) is_held
          some_bytes (omega arith) small in
      let part = content ∙ part_of n bytes some_bytes in
      let answer : (curl.easy_perform o w).0 ≡ (some 206, got) =
        served.answered o w res a (own_get id n segment) run ∙ cc (status, part) in
      ((arrived curl o s 206 got).state, get_arrived cfg id curl n got s usable answer, refl)

  -- Let libcurl have a handle that was not freed, a network carry this client's requests to the server of a
  -- gateway that asks for no signature and whose RocksDB does not fail, and the bucket and the id be
  -- neither empty nor `.` or `..` and consist of letters, digits and `-._~`. Then `Put` of data that is
  -- not empty and within the gateway's limit returns true, and `GetRange` with a positive bound then
  -- returns true and the data up to the bound.
  pub get_range-put :
      (id bytes : Bytes) (n : ℕ) (s : State curl)
      → s.handle ≡ live
      → IsSegment id
      → 0 < length bytes
      → length bytes ≤ gateway.max_object_bytes
      → n < 2 ^ 63
      → (s' s'' : State curl) × (put curl cfg id bytes s ≡ some (true, s'))
        × (get_range curl cfg id (pos (suc n)) s'
            ≡ some (true, take (min (suc n) (length bytes)) bytes, s''))
  get_range-put id bytes n s usable segment some_bytes fits small =
      let (s', put_done, usable', quiet, is_held) =
        put_held id bytes s usable segment some_bytes fits in
      let (s'', got, quiet') = get_held id bytes n s' usable' segment is_held some_bytes small in
      (s', s'', put_done, got)
