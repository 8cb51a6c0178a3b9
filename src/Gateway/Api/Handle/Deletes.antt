-- ===== src/Gateway/Api/Handle/Deletes.antt =====
-- Objects that are deleted by requests.
use prompt_cache_storage.Prelude.{
  ◌≡◌, ◌≢◌, refl, ◌∙◌, ap, Bool, false, none, Bytes, codes, beq, arith, inl, inr,
}
use prompt_cache_storage.Gateway.Http.{Request, is_method}
use prompt_cache_storage.Gateway.Auth.Digests.{Crypto}
use prompt_cache_storage.Gateway.Storage.Keys.{contains_nul, data_key}
use prompt_cache_storage.Gateway.Storage.Rocks.{Rocks, RocksLaws}
use prompt_cache_storage.Gateway.Storage.Env.{State}
use prompt_cache_storage.Gateway.Storage.Env.Laws.{held}
use prompt_cache_storage.Gateway.Storage.Store
use prompt_cache_storage.Gateway.Storage.Store.{put_object, get_object_data, delete_object}
use prompt_cache_storage.Gateway.Storage.Store.Objects.{delete_object_atomic, Updates-self}
use prompt_cache_storage.Gateway.Storage.Keys.Laws.{contains_nul-Lacks}
use prompt_cache_storage.Gateway.Storage.Store.Reliable.{IsReliable}
use prompt_cache_storage.Gateway.Storage.Listing.{Coder}
use prompt_cache_storage.Gateway.Api.Reply.{
  Call, make_empty_response, plain_error, s3_error, make_xml_response, map_storage_error,
}
use prompt_cache_storage.Gateway.Api.Target.Path.{object_target}
use prompt_cache_storage.Gateway.Api.Handle.{Config, ApiState, handle, handle_key, delete_key}
use prompt_cache_storage.Gateway.Api.Responses.{Calendar, reply}
use prompt_cache_storage.Gateway.Api.Handle.Routes.{
  IsOpen, IsObject, call_of, object_of, after, handle-object_target,
}
use prompt_cache_storage.Gateway.Api.Handle.Gets.{same, handle_get_missing}

error_status : (e path : Bytes) (call : Call) → (plain_error e path call).status ≢ 204
unfolding plain_error map_storage_error s3_error make_xml_response
error_status e path call = λ h. ground arith

no_content :
    (res : Store.Result (Unit {0})) (path : Bytes) (call : Call)
    → (reply (λ _. make_empty_response 204 call) (λ e. plain_error e path call) res).status ≡ 204
    → res ≡ Store.ok tt
no_content (Store.ok tt) path call h = refl
no_content (Store.err e) path call h = absurd (error_status e path call h)

delete_put_get :
    (beq (codes "DELETE") (codes "PUT") ≡ false)
    × (beq (codes "DELETE") (codes "GET") ≡ false)
    × (beq (codes "DELETE") (codes "HEAD") ≡ false)
unfolding beq
delete_put_get = (refl, refl, refl)

module _ {r : Rocks} (laws : RocksLaws r) (sure : IsReliable r) (crypto : Crypto) (coder : Coder)
    (calendar : Calendar) (cfg : Config) (free : IsOpen cfg) (bucket key : Bytes) (slash : Bool)
    (o : IsObject bucket key)
    (no_nul : (contains_nul bucket ≡ false) × (contains_nul key ≡ false)) where
  handle_key_delete :
      (req : Request) (call : Call)
      → req.method ≡ codes "DELETE"
      → handle_key {r = r} coder calendar req (object_of bucket key slash) call
        ≡ delete_key coder calendar (object_of bucket key slash) call
  unfolding handle_key is_method
  handle_key_delete req call e =
      let (no_put, no_get, no_head) = delete_put_get in
      rw (e, no_put, no_get, no_head, same (codes "DELETE"))

  held-delete :
      (s : State r)
      → (delete_object bucket key s).0 ≡ Store.ok tt
      → held laws (delete_object bucket key s).1 (data_key bucket key) ≡ none
  held-delete s success = elim (delete_object_atomic laws bucket key s) [
    | inr (refused, kept) ↦ absurd (refused tt success)
    | inl (eb, ek, u) ↦ (Updates-self laws (contains_nul-Lacks bucket eb) u).0
  ]

  delete_key_lem :
      (call : Call) (s : State r)
      → (delete_key coder calendar (object_of bucket key slash) call s).0.status ≡ 204
      → held laws
          (delete_key coder calendar (object_of bucket key slash) call s).1
          (data_key bucket key)
        ≡ none
  unfolding delete_key object_of
  delete_key_lem call s h = held-delete s (no_content _ (object_target bucket key slash) call h)

  handle-delete :
      (req : Request) (s : ApiState r)
      → req.method ≡ codes "DELETE"
      → req.target ≡ object_target bucket key slash
      → (handle crypto coder calendar cfg req s).0.status ≡ 204
      → held laws (handle crypto coder calendar cfg req s).1.store (data_key bucket key) ≡ none
  unfolding after
  handle-delete req s method target h =
      let run =
        handle-object_target crypto coder calendar cfg req s bucket key slash free o target
          (unfold is_method in rw (method, delete_put_get.0) refl)
        ∙ ap (λ go. after s.next_id (go s.store))
            (handle_key_delete req (call_of req s.next_id) method) in
      rw run (delete_key_lem (call_of req s.next_id) s.store (rw run at h))

  -- Over a RocksDB that does not fail, and with no signature asked for, a GET of an object is answered
  -- with 404 after a DELETE of it that was answered with 204.
  pub handle_get-delete :
      (delete get : Request) (s : ApiState r)
      → delete.method ≡ codes "DELETE"
      → delete.target ≡ object_target bucket key slash
      → get.method ≡ codes "GET"
      → get.target ≡ object_target bucket key slash
      → (handle crypto coder calendar cfg delete s).0.status ≡ 204
      → (handle crypto coder calendar cfg get
          (handle crypto coder calendar cfg delete s).1).0.status
        ≡ 404
  handle_get-delete delete get s d dt g gt h =
      handle_get_missing laws sure crypto coder calendar cfg free bucket key slash o no_nul get
        (handle crypto coder calendar cfg delete s).1 g gt (handle-delete delete s d dt h)
