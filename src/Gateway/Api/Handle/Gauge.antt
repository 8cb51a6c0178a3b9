-- ===== src/Gateway/Api/Handle/Gauge.antt =====
-- A request leaves the gauge of the requests in flight as it is: the server alone moves it.
use prompt_cache_storage.Prelude.Text.{is_empty}
use prompt_cache_storage.Prelude.{◌≡◌, refl, ◌∙◌, ◌&&◌, Bytes, codes, ltb, length}
use prompt_cache_storage.Gateway.Http.{Request, is_method}
use prompt_cache_storage.Gateway.Auth.Digests.{Crypto}
use prompt_cache_storage.Gateway.Auth.{Result, ok, fail, verify_sigv4}
use prompt_cache_storage.Gateway.Storage.Rocks.{Rocks}
use prompt_cache_storage.Gateway.Storage.Env.Gauge.{
  LeavesGauge, gauge, if-LeavesGauge, now_seconds-LeavesGauge,
}
use prompt_cache_storage.Gateway.Storage.Store.{list_buckets}
use prompt_cache_storage.Gateway.Storage.Store.Gauge.{
  bucket_exists-LeavesGauge, create_bucket-LeavesGauge, list_buckets-LeavesGauge,
  delete_bucket-LeavesGauge, put_object-LeavesGauge, head_object-LeavesGauge,
  get_object_data-LeavesGauge, delete_object-LeavesGauge,
}
use prompt_cache_storage.Gateway.Storage.Listing.{Coder}
use prompt_cache_storage.Gateway.Storage.Listing.Gauge.{list_objects_v2-LeavesGauge}
use prompt_cache_storage.Gateway.Api.Reply.{Call}
use prompt_cache_storage.Gateway.Api.Target.{ParsedTarget, parse_target}
use prompt_cache_storage.Gateway.Api.Handle.{
  Config, ApiState, send_buckets, get_root, put_bucket, head_bucket, delete_bucket_reply,
  get_bucket, put_key, get_key, head_key, delete_key, handle_root, handle_bucket, handle_key,
  dispatch, handle_allowed, handle_verified, handle, new_request_id,
}
use prompt_cache_storage.Gateway.Api.Responses.{Calendar}

module _ {r : Rocks} (coder : Coder) (calendar : Calendar) where
  get_root-LeavesGauge :
      (path : Bytes) (call : Call) → LeavesGauge {r = r} (get_root coder calendar path call)
  unfolding get_root send_buckets
  get_root-LeavesGauge path call s =
      if-LeavesGauge (is_empty (list_buckets s).0.1)
        (send_buckets coder calendar (list_buckets s).0.0 call) _ (λ s. now_seconds-LeavesGauge s)
        (λ s. refl) (list_buckets s).1
      ∙ list_buckets-LeavesGauge s

  handle_root-LeavesGauge :
      (req : Request) (pt : ParsedTarget) (call : Call)
      → LeavesGauge {r = r} (handle_root coder calendar req pt call)
  unfolding handle_root
  handle_root-LeavesGauge req pt call =
      if-LeavesGauge (is_method req (codes "GET")) (get_root coder calendar pt.path call) _
        (get_root-LeavesGauge pt.path call) (λ s. refl)

  handle_bucket-LeavesGauge :
      (req : Request) (pt : ParsedTarget) (call : Call)
      → LeavesGauge {r = r} (handle_bucket coder calendar req pt call)
  unfolding handle_bucket put_bucket head_bucket delete_bucket_reply get_bucket
  handle_bucket-LeavesGauge req pt call =
      if-LeavesGauge (is_method req (codes "PUT"))
        (put_bucket coder calendar pt.bucket pt.path call) _
        (λ s. create_bucket-LeavesGauge pt.bucket s)
        (if-LeavesGauge (is_method req (codes "HEAD"))
          (head_bucket coder calendar pt.bucket pt.path call) _
          (λ s. bucket_exists-LeavesGauge pt.bucket s)
          (if-LeavesGauge (is_method req (codes "DELETE"))
            (delete_bucket_reply coder calendar pt.bucket pt.path call) _
            (λ s. delete_bucket-LeavesGauge pt.bucket s)
            (if-LeavesGauge (is_method req (codes "GET")) (get_bucket coder calendar pt call) _
              (λ s. list_objects_v2-LeavesGauge coder pt.bucket _ _ _ s) (λ s. refl))))

  handle_key-LeavesGauge :
      (req : Request) (pt : ParsedTarget) (call : Call)
      → LeavesGauge {r = r} (handle_key coder calendar req pt call)
  unfolding handle_key put_key get_key head_key delete_key
  handle_key-LeavesGauge req pt call =
      if-LeavesGauge (is_method req (codes "PUT")) (put_key coder calendar req pt call) _
        (λ s. put_object-LeavesGauge pt.bucket pt.key req.body _ s)
        (if-LeavesGauge (is_method req (codes "GET")) (get_key coder calendar req pt call) _
          (λ s. get_object_data-LeavesGauge pt.bucket pt.key s)
          (if-LeavesGauge (is_method req (codes "HEAD")) (head_key coder calendar pt call) _
            (λ s. head_object-LeavesGauge pt.bucket pt.key s)
            (if-LeavesGauge (is_method req (codes "DELETE")) (delete_key coder calendar pt call) _
              (λ s. delete_object-LeavesGauge pt.bucket pt.key s) (λ s. refl))))

  dispatch-LeavesGauge :
      (req : Request) (pt : ParsedTarget) (call : Call)
      → LeavesGauge {r = r} (dispatch coder calendar req pt call)
  unfolding dispatch
  dispatch-LeavesGauge req pt call =
      if-LeavesGauge (is_empty pt.bucket) (handle_root coder calendar req pt call) _
        (handle_root-LeavesGauge req pt call)
        (if-LeavesGauge (is_empty pt.key) (handle_bucket coder calendar req pt call)
          (handle_key coder calendar req pt call) (handle_bucket-LeavesGauge req pt call)
          (handle_key-LeavesGauge req pt call))

  handle_verified-LeavesGauge :
      (cfg : Config) (req : Request) (call : Call) (verdict : Result)
      → LeavesGauge {r = r} (handle_verified coder calendar cfg req call verdict)
  unfolding handle_verified handle_allowed
  handle_verified-LeavesGauge cfg req call ok s =
      if-LeavesGauge (is_method req (codes "PUT") && ltb cfg.max_object_bytes (length req.body)) _
        (dispatch coder calendar req (parse_target req cfg.virtual_host_suffix) call) (λ s. refl)
        (dispatch-LeavesGauge req (parse_target req cfg.virtual_host_suffix) call) s
  handle_verified-LeavesGauge cfg req call (fail code message) s = refl

  pub gauge-handle :
      (crypto : Crypto) (cfg : Config) (req : Request) (s : ApiState r)
      → gauge (handle crypto coder calendar cfg req s).1.store ≡ gauge s.store
  unfolding handle new_request_id
  gauge-handle crypto cfg req s =
      handle_verified-LeavesGauge cfg req _ (verify_sigv4 crypto req cfg.auth_mode cfg.creds)
        s.store
