-- ===== src/Gateway/Api/Handle/RoundTrip.antt =====
-- Objects that are put and got by requests.
use prompt_cache_storage.Prelude.{
  ◌≡◌, refl, ◌∙◌, ap, Bool, false, some, [], Bytes, ℕ, ◌+◌, ◌-◌, ◌<◌, ◌≤◌, ◌^◌, codes, min, pos,
  length, take, drop, arith, le→ltb_false, inl, inr,
}
use prompt_cache_storage.Gateway.Http.{Request, Response, header_value}
use prompt_cache_storage.Gateway.Auth.Digests.{Crypto}
use prompt_cache_storage.Gateway.Storage.Keys.{contains_nul, data_key}
use prompt_cache_storage.Gateway.Storage.Meta.{ObjectMeta}
use prompt_cache_storage.Gateway.Storage.Rocks.{Rocks, RocksLaws}
use prompt_cache_storage.Gateway.Storage.Env.{State}
use prompt_cache_storage.Gateway.Storage.Env.Laws.{held}
use prompt_cache_storage.Gateway.Storage.Store
use prompt_cache_storage.Gateway.Storage.Store.{put_object, get_object_data, delete_object}
use prompt_cache_storage.Gateway.Storage.Store.Objects.{put_object_atomic, Updates-self}
use prompt_cache_storage.Gateway.Storage.Keys.Laws.{contains_nul-Lacks}
use prompt_cache_storage.Gateway.Storage.Store.Reliable.{IsReliable, put_object_readable}
use prompt_cache_storage.Gateway.Storage.Listing.{Coder}
use prompt_cache_storage.Gateway.Api.Range.{ByteRange}
use prompt_cache_storage.Gateway.Api.Range.Sent.{sent, parse_single_range-sent}
use prompt_cache_storage.Gateway.Api.Reply.{Call, plain_error}
use prompt_cache_storage.Gateway.Api.Target.Path.{object_target}
use prompt_cache_storage.Gateway.Api.Handle.{Config, ApiState, handle, handle_key, put_key}
use prompt_cache_storage.Gateway.Api.Responses.{
  Calendar, put_response, data_response, part_response, slice, content_type_of, reply,
}
use prompt_cache_storage.Gateway.Api.Handle.Routes.{
  IsOpen, IsObject, call_of, object_of, after, handle-object_target,
}
use prompt_cache_storage.Gateway.Api.Handle.Gets.{
  object_response-some, is_method-name, handle-object_response,
}

put_status :
    {res : Store.Result ObjectMeta} {m : ObjectMeta} (path : Bytes) (call : Call)
    → res ≡ Store.ok m
    → let response = reply (λ m. put_response m call) (λ e. plain_error e path call) res in
      (response.status ≡ 200) × (response.body ≡ [])
unfolding put_response
put_status path call h = rw h (refl, refl)

part_status : (b : ByteRange) (x : Bytes) (call : Call) → (part_response b x call).status ≡ 206
unfolding part_response
part_status b x call = refl

part_body :
    (first last : ℕ) (x : Bytes) (call : Call)
    → (part_response (record { start = pos first; end = pos last }) x call).body
      ≡ take (last + 1 - first) (drop first x)
unfolding part_response slice
part_body first last x call = refl

module _ {r : Rocks} (laws : RocksLaws r) (sure : IsReliable r) (crypto : Crypto) (coder : Coder)
    (calendar : Calendar) (cfg : Config) (free : IsOpen cfg) (bucket key : Bytes) (slash : Bool)
    (o : IsObject bucket key)
    (no_nul : (contains_nul bucket ≡ false) × (contains_nul key ≡ false)) where
  held-put :
      (x t : Bytes) (s : State r)
      → held laws (put_object bucket key x t s).1 (data_key bucket key) ≡ some x
  held-put x t s = elim (put_object_atomic laws bucket key x t s) [
    | inr (refused, kept) ↦
        absurd (refused _ (put_object_readable laws sure bucket key x t s no_nul.0 no_nul.1).0)
    | inl (eb, ek, u) ↦ (Updates-self laws (contains_nul-Lacks bucket eb) u).0
  ]

  handle_key_put :
      (req : Request) (call : Call)
      → req.method ≡ codes "PUT"
      → handle_key {r = r} coder calendar req (object_of bucket key slash) call
        ≡ put_key coder calendar req (object_of bucket key slash) call
  unfolding handle_key
  handle_key_put req call e = rw (is_method-name req (codes "PUT") e)

  put_key_lem :
      (req : Request) (call : Call) (s : State r)
      → (((put_key coder calendar req (object_of bucket key slash) call s).0.status ≡ 200)
          × ((put_key coder calendar req (object_of bucket key slash) call s).0.body ≡ []))
        × (held laws
              (put_key coder calendar req (object_of bucket key slash) call s).1
              (data_key bucket key)
            ≡ some req.body)
  unfolding put_key object_of
  put_key_lem req call s =
      let ct = content_type_of (header_value req (codes "Content-Type")) in
      (
        put_status (object_target bucket key slash) call
            (put_object_readable laws sure bucket key req.body ct s no_nul.0 no_nul.1).0,
        held-put req.body ct s,
      )

  -- A PUT of an object's target within the size limit is answered with 200 and no body, and its own body is
  -- then held under the object's data key.
  pub handle-put :
      (req : Request) (s : ApiState r)
      → req.method ≡ codes "PUT"
      → req.target ≡ object_target bucket key slash
      → length req.body ≤ cfg.max_object_bytes
      → (((handle crypto coder calendar cfg req s).0.status ≡ 200)
          × ((handle crypto coder calendar cfg req s).0.body ≡ []))
        × (held laws (handle crypto coder calendar cfg req s).1.store (data_key bucket key)
            ≡ some req.body)
  unfolding after
  handle-put req s method target fits =
      rw
        (handle-object_target crypto coder calendar cfg req s bucket key slash free o target
          (rw (le→ltb_false cfg.max_object_bytes (length req.body) fits) (ground arith)))
        (rw (handle_key_put req (call_of req s.next_id) method)
          (put_key_lem req (call_of req s.next_id) s.store))

  data_response-sent :
      (first last : ℕ) (x path : Bytes) (call : Call)
      → first < length x
      → first ≤ last
      → last < 2 ^ 63
      → data_response (some (sent first last)) x path call
        ≡ part_response (record { start = pos first; end = pos (min last (length x - 1)) }) x call
  unfolding data_response
  data_response-sent first last x path call inside order small =
      rw (parse_single_range-sent (length x) first last inside order small, data_response)

  -- A GET that asks for the bytes from `first` to `last` of data that are held is answered with 206 and
  -- those bytes, up to the end of the data.
  pub handle-get_part :
      (get : Request) (t : ApiState r) (x : Bytes) (first last : ℕ)
      → get.method ≡ codes "GET"
      → get.target ≡ object_target bucket key slash
      → header_value get (codes "Range") ≡ some (sent first last)
      → held laws t.store (data_key bucket key) ≡ some x
      → first < length x
      → first ≤ last
      → last < 2 ^ 63
      → let u = handle crypto coder calendar cfg get t in
        (u.0.status ≡ 206) × (u.0.body ≡ take (min last (length x - 1) + 1 - first) (drop first x))
  handle-get_part get t x first last g gt range is_held inside order small =
      let call = call_of get t.next_id in
      let end = min last (length x - 1) in
      let response : (handle crypto coder calendar cfg get t).0
          ≡ part_response (record { start = pos first; end = pos end }) x call =
        handle-object_response laws sure crypto coder calendar cfg free bucket key slash o no_nul
          get t g gt
        ∙ rw (is_held, range)
            (object_response-some x _ _ call
              ∙ data_response-sent first last x (object_target bucket key slash) call inside order
                  small) in
      (
        ap (λ (y : Response). y.status) response ∙ part_status _ x call,
        ap (λ (y : Response). y.body) response ∙ part_body first end x call,
      )

  -- Over a RocksDB that does not fail, and with no signature asked for, a PUT within the size limit is
  -- answered with 200, and a GET of the same target that asks for the bytes from `first` to `last` is then
  -- answered with 206 and those bytes of the body that was put, up to its end.
  pub handle_get-put :
      (put get : Request) (s : ApiState r) (first last : ℕ)
      → put.method ≡ codes "PUT"
      → put.target ≡ object_target bucket key slash
      → length put.body ≤ cfg.max_object_bytes
      → get.method ≡ codes "GET"
      → get.target ≡ object_target bucket key slash
      → header_value get (codes "Range") ≡ some (sent first last)
      → first < length put.body
      → first ≤ last
      → last < 2 ^ 63
      → let t = handle crypto coder calendar cfg put s in
        let u = handle crypto coder calendar cfg get t.1 in
        (t.0.status ≡ 200)
        × (u.0.status ≡ 206)
        × (u.0.body ≡ take (min last (length put.body - 1) + 1 - first) (drop first put.body))
  handle_get-put put get s first last p pt fits g gt range inside order small =
      let (created, is_held) = handle-put put s p pt fits in
      let t = (handle crypto coder calendar cfg put s).1 in
      let (part, content) =
        handle-get_part get t put.body first last g gt range is_held inside order small in
      (created.0, part, content)
