-- ===== src/Gateway/Api/Handle/Routes.antt =====
-- Where `handle` sends the requests on objects.
use prompt_cache_storage.Prelude.{
  ◌≡◌, ◌≢◌, refl, ◌∙◌, ap, Bool, false, ◌&&◌, [], Bytes, ℕ, ◌+◌, ◌%◌, ◌^◌, codes, All, ltb, length,
}
use prompt_cache_storage.Prelude.Text.{is_empty-ne, IsByte}
use prompt_cache_storage.Prelude.Numeral.{to_hex}
use prompt_cache_storage.Gateway.Http.{Request, Response, is_method}
use prompt_cache_storage.Gateway.Auth.Digests.{Crypto}
use prompt_cache_storage.Gateway.Auth.{none_mode, verify_sigv4}
use prompt_cache_storage.Gateway.Storage.Rocks.{Rocks}
use prompt_cache_storage.Gateway.Storage.Env.{State}
use prompt_cache_storage.Gateway.Storage.Listing.{Coder}
use prompt_cache_storage.Gateway.Api.Reply.{Call}
use prompt_cache_storage.Gateway.Api.Target.{ParsedTarget}
use prompt_cache_storage.Gateway.Api.Target.Path.{object_target, parse_target-object_target}
use prompt_cache_storage.Gateway.Api.Handle.{
  Config, ApiState, dispatch, handle_allowed, handle_verified, handle_key, handle, new_request_id,
}
use prompt_cache_storage.Gateway.Api.Responses.{Calendar}

-- No signature is asked for, and no bucket is read off the host.
pub record IsOpen (cfg : Config) : Type 0 where
  pub mode : cfg.auth_mode ≡ none_mode
  pub suffix : cfg.virtual_host_suffix ≡ []

-- The names of an object, made of bytes.
pub record IsObject (bucket key : Bytes) : Type 0 where
  pub bucket_bytes : All IsByte bucket
  pub key_bytes : All IsByte key
  pub bucket_given : bucket ≢ []
  pub key_given : key ≢ []

unfoldable pub call_of : Request → ℕ → Call
call_of req reqid = record {
  request_id = to_hex reqid;
  keep_alive = req.keep_alive;
  version = req.version;
}

unfoldable pub object_of : Bytes → Bytes → Bool → ParsedTarget
object_of bucket key encode_slash = record {
  bucket = bucket;
  key = key;
  path = object_target bucket key encode_slash;
  query = [];
  query_params = [];
}

-- The state of the API after the store's part of a request.
unfoldable pub after : {r : Rocks} → ℕ → Response × State r → Response × ApiState r
after reqid (res, store) = (res, record { store = store; next_id = (reqid + 1) % 2 ^ 64 })

module _ {r : Rocks} (crypto : Crypto) (coder : Coder) (calendar : Calendar) where
  dispatch_key :
      (req : Request) (bucket key : Bytes) (slash : Bool) (call : Call)
      → IsObject bucket key
      → dispatch {r = r} coder calendar req (object_of bucket key slash) call
        ≡ handle_key coder calendar req (object_of bucket key slash) call
  unfolding dispatch object_of
  dispatch_key req bucket key slash call o =
      rw (is_empty-ne bucket o.bucket_given, is_empty-ne key o.key_given)

  allowed_key :
      (cfg : Config) (req : Request) (bucket key : Bytes) (slash : Bool) (call : Call)
      → IsOpen cfg
      → IsObject bucket key
      → req.target ≡ object_target bucket key slash
      → (is_method req (codes "PUT") && ltb cfg.max_object_bytes (length req.body)) ≡ false
      → handle_allowed {r = r} coder calendar cfg req call
        ≡ handle_key coder calendar req (object_of bucket key slash) call
  unfolding handle_allowed object_of
  allowed_key cfg req bucket key slash call free o e small =
      rw
        (
          small,
          free.suffix,
          parse_target-object_target req bucket key slash e o.bucket_bytes o.key_bytes,
        )
        (dispatch_key req bucket key slash call o)

  handle_open :
      (cfg : Config) (req : Request) (s : ApiState r)
      → IsOpen cfg
      → handle crypto coder calendar cfg req s
        ≡ after s.next_id (handle_allowed coder calendar cfg req (call_of req s.next_id) s.store)
  unfolding handle new_request_id handle_verified verify_sigv4 after call_of
  handle_open cfg req s free = rw free.mode refl

  -- A request on an object reaches the methods of objects.
  pub handle-object_target :
      (cfg : Config) (req : Request) (s : ApiState r) (bucket key : Bytes) (slash : Bool)
      → IsOpen cfg
      → IsObject bucket key
      → req.target ≡ object_target bucket key slash
      → (is_method req (codes "PUT") && ltb cfg.max_object_bytes (length req.body)) ≡ false
      → handle crypto coder calendar cfg req s
        ≡ after s.next_id (
            handle_key coder calendar req
              (object_of bucket key slash)
              (call_of req s.next_id)
              s.store)
  handle-object_target cfg req s bucket key slash free o e small =
      handle_open cfg req s free
      ∙ ap (λ run. after s.next_id (run s.store))
          (allowed_key cfg req bucket key slash (call_of req s.next_id) free o e small)
