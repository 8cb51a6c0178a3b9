-- ===== src/Gateway/Api/Handle/Safe.antt =====
-- Which requests change what the database holds.
use prompt_cache_storage.Prelude.Text.{is_empty}
use prompt_cache_storage.Prelude.{
  ◌≡◌, ◌≢◌, refl, ◌∙◌, false, ◌&&◌, Bytes, codes, beq, beq_iff, Bool-cases, inl, inr, ltb, length,
  subst,
}
use prompt_cache_storage.Gateway.Http.{Request, is_method}
use prompt_cache_storage.Gateway.Auth.Digests.{Crypto}
use prompt_cache_storage.Gateway.Auth.{Result, ok, fail, sigv4_mode, verify_sigv4}
use prompt_cache_storage.Gateway.Auth.Accepted.{IsAuthentic, verify_sigv4_iff}
use prompt_cache_storage.Gateway.Storage.Rocks.{Rocks, RocksLaws}
use prompt_cache_storage.Gateway.Storage.Env.Laws.{held, now_keeps}
use prompt_cache_storage.Gateway.Storage.Env.Keeps.{Keeps, if-Keeps}
use prompt_cache_storage.Gateway.Storage.Store.{list_buckets}
use prompt_cache_storage.Gateway.Storage.Store.Objects.{bucket_exists_keeps}
use prompt_cache_storage.Gateway.Storage.Store.Readers.{
  list_buckets-Keeps, head_object-Keeps, get_object_data-Keeps,
}
use prompt_cache_storage.Gateway.Storage.Listing.{Coder}
use prompt_cache_storage.Gateway.Storage.Listing.Keeps.{list_objects_v2-Keeps}
use prompt_cache_storage.Gateway.Api.Reply.{Call, s3_error, make_xml_response}
use prompt_cache_storage.Gateway.Api.Target.{ParsedTarget, parse_target}
use prompt_cache_storage.Gateway.Api.Handle.{
  Config, ApiState, send_buckets, get_root, head_bucket, get_bucket, get_key, head_key, handle_root,
  handle_bucket, handle_key, dispatch, handle_allowed, handle_verified, handle, new_request_id,
}
use prompt_cache_storage.Gateway.Api.Responses.{Calendar}

not_method : (req : Request) (name : Bytes) → req.method ≢ name → is_method req name ≡ false
unfolding is_method
not_method req name h = elim (Bool-cases (beq req.method name)) [
  | inl e ↦ absurd (h ((beq_iff req.method name).0 e))
  | inr e ↦ e
]

module _ {r : Rocks} (laws : RocksLaws r) (coder : Coder) (calendar : Calendar) where
  get_root-Keeps : (path : Bytes) (call : Call) → Keeps laws (get_root coder calendar path call)
  unfolding get_root send_buckets
  get_root-Keeps path call s =
      if-Keeps laws (is_empty (list_buckets s).0.1)
        (send_buckets coder calendar (list_buckets s).0.0 call) _ (λ s. now_keeps laws s)
        (λ s. refl) (list_buckets s).1
      ∙ list_buckets-Keeps laws s

  head_bucket-Keeps :
      (b path : Bytes) (call : Call) → Keeps laws (head_bucket coder calendar b path call)
  unfolding head_bucket
  head_bucket-Keeps b path call s = bucket_exists_keeps laws b s

  get_bucket-Keeps :
      (pt : ParsedTarget) (call : Call) → Keeps laws (get_bucket coder calendar pt call)
  unfolding get_bucket
  get_bucket-Keeps pt call s = list_objects_v2-Keeps laws coder pt.bucket _ _ _ s

  get_key-Keeps :
      (req : Request) (pt : ParsedTarget) (call : Call)
      → Keeps laws (get_key coder calendar req pt call)
  unfolding get_key
  get_key-Keeps req pt call s = get_object_data-Keeps laws pt.bucket pt.key s

  head_key-Keeps : (pt : ParsedTarget) (call : Call) → Keeps laws (head_key coder calendar pt call)
  unfolding head_key
  head_key-Keeps pt call s = head_object-Keeps laws pt.bucket pt.key s

  handle_root-Keeps :
      (req : Request) (pt : ParsedTarget) (call : Call)
      → Keeps laws (handle_root coder calendar req pt call)
  unfolding handle_root
  handle_root-Keeps req pt call =
      if-Keeps laws (is_method req (codes "GET")) (get_root coder calendar pt.path call) _
        (get_root-Keeps pt.path call) (λ s. refl)

  module _ (req : Request) (put : is_method req (codes "PUT") ≡ false)
      (delete : is_method req (codes "DELETE") ≡ false) where
    handle_bucket-Keeps :
        (pt : ParsedTarget) (call : Call) → Keeps laws (handle_bucket coder calendar req pt call)
    unfolding handle_bucket
    handle_bucket-Keeps pt call =
        rw (put, delete)
          (if-Keeps laws (is_method req (codes "HEAD"))
            (head_bucket coder calendar pt.bucket pt.path call) _
            (head_bucket-Keeps pt.bucket pt.path call)
            (if-Keeps laws (is_method req (codes "GET")) (get_bucket coder calendar pt call) _
              (get_bucket-Keeps pt call) (λ s. refl)))

    handle_key-Keeps :
        (pt : ParsedTarget) (call : Call) → Keeps laws (handle_key coder calendar req pt call)
    unfolding handle_key
    handle_key-Keeps pt call =
        rw (put, delete)
          (if-Keeps laws (is_method req (codes "GET")) (get_key coder calendar req pt call) _
            (get_key-Keeps req pt call)
            (if-Keeps laws (is_method req (codes "HEAD")) (head_key coder calendar pt call) _
              (head_key-Keeps pt call) (λ s. refl)))

    dispatch-Keeps :
        (pt : ParsedTarget) (call : Call) → Keeps laws (dispatch coder calendar req pt call)
    unfolding dispatch
    dispatch-Keeps pt call =
        if-Keeps laws (is_empty pt.bucket) (handle_root coder calendar req pt call) _
          (handle_root-Keeps req pt call)
          (if-Keeps laws (is_empty pt.key) (handle_bucket coder calendar req pt call)
            (handle_key coder calendar req pt call) (handle_bucket-Keeps pt call)
            (handle_key-Keeps pt call))

    handle_verified-Keeps :
        (cfg : Config) (call : Call) (verdict : Result)
        → Keeps laws (handle_verified coder calendar cfg req call verdict)
    unfolding handle_verified handle_allowed
    handle_verified-Keeps cfg call ok s =
        if-Keeps laws (is_method req (codes "PUT") && ltb cfg.max_object_bytes (length req.body)) _
          (dispatch coder calendar req (parse_target req cfg.virtual_host_suffix) call) (λ s. refl)
          (dispatch-Keeps (parse_target req cfg.virtual_host_suffix) call) s
    handle_verified-Keeps cfg call (fail code message) s = refl

  -- A request whose method is neither PUT nor DELETE changes nothing that the database holds, whatever
  -- it asks for, whether or not it is let in and whatever RocksDB answers.
  pub handle-Keeps :
      (crypto : Crypto) (cfg : Config) (req : Request) (s : ApiState r)
      → req.method ≢ codes "PUT"
      → req.method ≢ codes "DELETE"
      → held laws (handle crypto coder calendar cfg req s).1.store ≡ held laws s.store
  unfolding handle new_request_id
  handle-Keeps crypto cfg req s put delete =
      handle_verified-Keeps req (not_method req (codes "PUT") put)
        (not_method req (codes "DELETE") delete) cfg _
        (verify_sigv4 crypto req cfg.auth_mode cfg.creds) s.store

module _ {r : Rocks} (crypto : Crypto) (coder : Coder) (calendar : Calendar) where
  refused_by :
      (cfg : Config) (req : Request) (s : ApiState r) (verdict : Result)
      → verify_sigv4 crypto req cfg.auth_mode cfg.creds ≡ verdict
      → verdict ≢ ok
      → ((handle crypto coder calendar cfg req s).0.status ≡ 403)
        × ((handle crypto coder calendar cfg req s).1.store ≡ s.store)
  unfolding handle new_request_id handle_verified s3_error make_xml_response
  refused_by cfg req s ok e h = absurd (h refl)
  refused_by cfg req s (fail code message) e h = rw e (refl, refl)

  -- In mode SigV4 a request that is not authentic is answered with the status 403, and the store is not
  -- called.
  pub handle_refused :
      (cfg : Config) (req : Request) (s : ApiState r)
      → cfg.auth_mode ≡ sigv4_mode
      → (IsAuthentic crypto req cfg.creds → ⊥)
      → ((handle crypto coder calendar cfg req s).0.status ≡ 403)
        × ((handle crypto coder calendar cfg req s).1.store ≡ s.store)
  handle_refused cfg req s mode h =
      refused_by cfg req s (verify_sigv4 crypto req cfg.auth_mode cfg.creds) refl (λ e. h (
        (verify_sigv4_iff crypto req cfg.creds).0
          (subst (λ m. verify_sigv4 crypto req m cfg.creds ≡ ok) mode e)))
