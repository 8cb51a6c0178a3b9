-- ===== src/Gateway/Api/Handle/Gets.antt =====
-- What a GET of an object is answered with.
use prompt_cache_storage.Prelude.{
  ◌≡◌, refl, ◌∙◌, ap, Bool, true, false, Option, none, some, Bytes, codes, beq, beq_iff, beq_refl,
  sym, subst, pos, length, take, drop, ◌+◌, ◌-◌,
}
use prompt_cache_storage.Gateway.Http.{Request, Response, is_method, header_value}
use prompt_cache_storage.Gateway.Auth.Digests.{Crypto}
use prompt_cache_storage.Gateway.Storage.Keys.{contains_nul, data_key}
use prompt_cache_storage.Gateway.Storage.Rocks.{Rocks, RocksLaws}
use prompt_cache_storage.Gateway.Storage.Env.{State}
use prompt_cache_storage.Gateway.Storage.Env.Laws.{held}
use prompt_cache_storage.Gateway.Storage.Store.Reads.{found_or_missing, get_object_data-held}
use prompt_cache_storage.Gateway.Storage.Store.Reliable.{IsReliable, get_answer}
use prompt_cache_storage.Gateway.Storage.Listing.{Coder}
use prompt_cache_storage.Gateway.Api.Reply.{
  Call, storage_error, s3_error, make_xml_response, map_storage_error,
}
use prompt_cache_storage.Gateway.Api.Target.Path.{object_target}
use prompt_cache_storage.Gateway.Api.Handle.{Config, ApiState, handle, handle_key, get_key}
use prompt_cache_storage.Gateway.Api.Responses.{
  Calendar, data_response, no_such_key, reply, range_error, part_response, whole_response, slice,
}
use prompt_cache_storage.Gateway.Api.Range.{ByteRange, parse_single_range}
use prompt_cache_storage.Prelude.Int.{to_ℕ}
use prompt_cache_storage.Gateway.Api.Handle.Routes.{
  IsOpen, IsObject, call_of, object_of, after, handle-object_target,
}

-- What a GET of a key sends, given what is held under it.
unfoldable pub object_response : Option Bytes → Option Bytes → Bytes → Call → Response
object_response none range path call =
    storage_error (codes "NoSuchKey") no_such_key (codes "NoSuchKey") path call
object_response (some bytes) range path call = data_response range bytes path call

pub object_response-some :
    (x : Bytes) (range : Option Bytes) (path : Bytes) (call : Call)
    → object_response (some x) range path call ≡ data_response range x path call
unfolding object_response
object_response-some x range path call = refl

pub object_response-none :
    (range : Option Bytes) (path : Bytes) (call : Call)
    → object_response none range path call
      ≡ storage_error (codes "NoSuchKey") no_such_key (codes "NoSuchKey") path call
unfolding object_response
object_response-none range path call = refl

replied :
    (held : Option Bytes) (range : Option Bytes) (path : Bytes) (call : Call)
    → reply
        (λ bytes. data_response range bytes path call)
        (λ e. storage_error (codes "NoSuchKey") no_such_key e path call)
        (found_or_missing held)
      ≡ object_response held range path call
unfolding object_response
replied none range path call = refl
replied (some bytes) range path call = refl

get_put : beq (codes "GET") (codes "PUT") ≡ false
unfolding beq
get_put = refl

pub same : (s : Bytes) → beq s s ≡ true
same s = beq_refl s

pub is_method-name : (req : Request) (name : Bytes) → req.method ≡ name → is_method req name ≡ true
unfolding is_method
is_method-name req name e = (beq_iff req.method name).1 e

missing_status :
    (path : Bytes) (call : Call)
    → (storage_error (codes "NoSuchKey") no_such_key (codes "NoSuchKey") path call).status ≡ 404
unfolding storage_error map_storage_error s3_error make_xml_response beq
missing_status path call = refl

-- How a GET of an object is to be answered, given the data that are held and the range read off the field
-- Range, if it is accepted.
abbrev pub IsPartial : Bytes → Option ByteRange → Response → Type 0
IsPartial bytes none res = res.status ≡ 416
IsPartial bytes (some r) res =
    (res.status ≡ 206)
    × (res.body ≡ take (to_ℕ r.end + 1 - to_ℕ r.start) (drop (to_ℕ r.start) bytes))

-- How it is to be answered, given what is held under its data key and the field Range.
abbrev pub IsAnswer : Option Bytes → Option Bytes → Response → Type 0
IsAnswer none range res = res.status ≡ 404
IsAnswer (some bytes) none res = (res.status ≡ 200) × (res.body ≡ bytes)
IsAnswer (some bytes) (some range) res =
    IsPartial bytes (parse_single_range range (pos (length bytes))) res

accepted-IsPartial :
    (bytes path : Bytes) (call : Call) (found : Option ByteRange)
    → IsPartial bytes found
        (elim found [ none ↦ range_error bytes path call | some r ↦ part_response r bytes call ])
unfolding range_error part_response slice s3_error make_xml_response
accepted-IsPartial bytes path call none = refl
accepted-IsPartial bytes path call (some r) = (refl, refl)

object_response-IsAnswer :
    (held range : Option Bytes) (path : Bytes) (call : Call)
    → IsAnswer held range (object_response held range path call)
unfolding object_response data_response whole_response
object_response-IsAnswer none range path call = missing_status path call
object_response-IsAnswer (some bytes) none path call = (refl, refl)
object_response-IsAnswer (some bytes) (some range) path call =
    accepted-IsPartial bytes path call (parse_single_range range (pos (length bytes)))

module _ {r : Rocks} (laws : RocksLaws r) (sure : IsReliable r) (crypto : Crypto) (coder : Coder)
    (calendar : Calendar) (cfg : Config) (free : IsOpen cfg) (bucket key : Bytes) (slash : Bool)
    (o : IsObject bucket key)
    (no_nul : (contains_nul bucket ≡ false) × (contains_nul key ≡ false)) where
  get_key_lem :
      (req : Request) (call : Call) (s : State r)
      → (get_key coder calendar req (object_of bucket key slash) call s).0
        ≡ object_response
            (held laws s (data_key bucket key))
            (header_value req (codes "Range"))
            (object_target bucket key slash)
            call
  unfolding get_key object_of
  get_key_lem req call s =
      ap
        (reply
          (λ bytes.
            data_response (header_value req (codes "Range")) bytes (object_target bucket key slash)
              call)
          (λ e.
            storage_error (codes "NoSuchKey") no_such_key e (object_target bucket key slash) call))
        (get_object_data-held laws bucket key s no_nul.0 no_nul.1
          (get_answer laws sure (data_key bucket key) s))
      ∙ replied (held laws s (data_key bucket key)) _ _ call

  handle_key_get :
      (req : Request) (call : Call) (s : State r)
      → req.method ≡ codes "GET"
      → (handle_key coder calendar req (object_of bucket key slash) call s).0
        ≡ (get_key coder calendar req (object_of bucket key slash) call s).0
  unfolding handle_key is_method
  handle_key_get req call s e = rw (e, get_put, same (codes "GET"))

  pub handle-object_response :
      (req : Request) (s : ApiState r)
      → req.method ≡ codes "GET"
      → req.target ≡ object_target bucket key slash
      → (handle crypto coder calendar cfg req s).0
        ≡ object_response
            (held laws s.store (data_key bucket key))
            (header_value req (codes "Range"))
            (object_target bucket key slash)
            (call_of req s.next_id)
  unfolding after
  handle-object_response req s method target =
      ap (λ (x : Response × ApiState r). x.0)
        (handle-object_target crypto coder calendar cfg req s bucket key slash free o target
          (unfold is_method in rw (method, get_put) refl))
      ∙ handle_key_get req (call_of req s.next_id) s.store method
      ∙ get_key_lem req (call_of req s.next_id) s.store

  -- Over a RocksDB that does not fail, and with no signature asked for, a GET of an object's target is
  -- answered with 404 if nothing is held under the object's data key; if data are held, with 200 and the
  -- data if there is no field Range, with 206 and the bytes from the start to the end of the range, both
  -- included, if `parse_single_range` accepts the field for the size of the data, and with 416 otherwise.
  pub handle-get :
      (req : Request) (s : ApiState r)
      → req.method ≡ codes "GET"
      → req.target ≡ object_target bucket key slash
      → IsAnswer
          (held laws s.store (data_key bucket key))
          (header_value req (codes "Range"))
          (handle crypto coder calendar cfg req s).0
  handle-get req s method target =
      subst (IsAnswer _ _) (sym (handle-object_response req s method target))
        (object_response-IsAnswer (held laws s.store (data_key bucket key)) _ _ _)

  pub handle_get_missing :
      (get : Request) (s : ApiState r)
      → get.method ≡ codes "GET"
      → get.target ≡ object_target bucket key slash
      → held laws s.store (data_key bucket key) ≡ none
      → (handle crypto coder calendar cfg get s).0.status ≡ 404
  handle_get_missing get s g gt missing =
      let call = call_of get s.next_id in
      let path = object_target bucket key slash in
      let response : (handle crypto coder calendar cfg get s).0
          ≡ storage_error (codes "NoSuchKey") no_such_key (codes "NoSuchKey") path call =
        handle-object_response get s g gt
        ∙ rw missing (object_response-none (header_value get (codes "Range")) path call) in
      ap (λ (x : Response). x.status) response ∙ missing_status path call
