-- ===== src/Gateway/Api/Handle.antt =====
-- `Api::handle`, a function for each of its branches. The two functions that print a time stand on the C
-- library's calendar and are a parameter, and so are the digests and the base64 coder.
pub mod Safe
pub mod Routes
pub mod Gets
pub mod RoundTrip
pub mod Deletes
pub mod Gauge
use prompt_cache_storage.Prelude.Text.{is_empty}
use prompt_cache_storage.Prelude.{
  ℕ, ℤ, pos, ◌+◌, ◌-◌, ◌%◌, ◌^◌, ◌*◌, Bool, true, false, ◌&&◌, Option, none, some, List, [], ◌∷◌,
  ◌++◌, Bytes, codes, ◌==◌, ltb, beq, if◌then◌else◌, length, take, drop,
}
use prompt_cache_storage.Prelude.Int.{to_ℕ, to_size_t}
use prompt_cache_storage.Prelude.Numeral.{from_chars, to_string, to_stringℤ, to_hex}
use prompt_cache_storage.Gateway.Http.{Request, Response, is_method, header_value}
use prompt_cache_storage.Gateway.Util.Whitespace.{trim_start}
use prompt_cache_storage.Gateway.Util.Query.{Params}
use prompt_cache_storage.Gateway.Auth.Digests.{Crypto}
use prompt_cache_storage.Gateway.Auth.{Credentials, Mode, Result, ok, fail, verify_sigv4}
use prompt_cache_storage.Gateway.Auth.Parse.{query_get}
use prompt_cache_storage.Gateway.Storage.Meta.{ObjectMeta}
use prompt_cache_storage.Gateway.Storage.Rocks.{Rocks}
use prompt_cache_storage.Gateway.Storage.Env.{State, M, pure, now_seconds, ◌>>=◌}
use prompt_cache_storage.Gateway.Storage.Store
use prompt_cache_storage.Gateway.Storage.Store.{
  list_buckets, create_bucket, bucket_exists, delete_bucket, put_object, get_object_data,
  head_object, delete_object,
}
use prompt_cache_storage.Gateway.Storage.Listing.{Coder, ListedObject, ListResult, list_objects_v2}
use prompt_cache_storage.Gateway.Api.Range.{ByteRange, parse_single_range}
use prompt_cache_storage.Gateway.Api.Reply.{
  Call, xml_escape, element, make_xml_response, make_empty_response, s3_error, storage_error,
  plain_error, not_allowed, xml_head, server_field,
}
use prompt_cache_storage.Gateway.Api.Target.{ParsedTarget, parse_target}
use prompt_cache_storage.Gateway.Api.Responses.{
  Calendar, or_empty, max_keys_of, list_bucket_result, list_all_result, head_response, put_response,
  data_response, no_such_key, content_type_of, or_text, reply,
}

pub record Config : Type 0 where
  pub auth_mode : Mode
  pub creds : Credentials
  pub virtual_host_suffix : Bytes
  pub max_object_bytes : ℕ

-- The default: 64 MiB.
abbrev pub default_max : ℕ
default_max = 64 * 1024 * 1024

module _ {r : Rocks} (coder : Coder) (calendar : Calendar) where
  -- GET of the root: ListBuckets.
  unfoldable pub send_buckets : List Bytes → Call → M r Response
  unfolding list_all_result
  send_buckets buckets call = do
    now ← now_seconds
    pure (make_xml_response 200 (list_all_result calendar (calendar.iso8601_gmt now) buckets) call)

  unfoldable pub get_root : Bytes → Call → M r Response
  unfolding send_buckets
  get_root path call = do
    (buckets, e) ← list_buckets
    let failed = pure (plain_error e path call)
    if is_empty e then send_buckets buckets call else failed

  unfoldable pub put_bucket : Bytes → Bytes → Call → M r Response
  put_bucket bucket path call = do
    res ← create_bucket bucket
    pure (reply (λ _. make_empty_response 200 call) (λ e. plain_error e path call) res)

  unfoldable pub head_bucket : Bytes → Bytes → Call → M r Response
  head_bucket bucket path call = do
    (exists, e) ← bucket_exists bucket
    let missing =
        s3_error 404 (codes "NoSuchBucket") (codes "The specified bucket does not exist") path call
    let answer = if exists then make_empty_response 200 call else missing
    pure (if is_empty e then answer else plain_error e path call)

  unfoldable pub delete_bucket_reply : Bytes → Bytes → Call → M r Response
  delete_bucket_reply bucket path call = do
    res ← delete_bucket bucket
    pure (
        reply (λ _. make_empty_response 204 call)
          (λ e.
            storage_error (codes "BucketNotEmpty")
              (codes "The bucket you tried to delete is not empty") e path call)
          res)

  -- GET of a bucket: ListObjectsV2.
  unfoldable pub get_bucket : ParsedTarget → Call → M r Response
  unfolding or_empty max_keys_of list_bucket_result
  get_bucket pt call =
      let prefix = or_empty (query_get pt.query_params (codes "prefix")) in
      let max_keys = max_keys_of (query_get pt.query_params (codes "max-keys")) in
      let cont = or_empty (query_get pt.query_params (codes "continuation-token")) in
      (do
        (lr, e) ← list_objects_v2 coder pt.bucket prefix max_keys cont
        pure (
            if is_empty e
            then make_xml_response 200
                (list_bucket_result calendar pt.bucket prefix max_keys cont lr) call
            else plain_error e pt.path call))

  unfoldable pub put_key : Request → ParsedTarget → Call → M r Response
  unfolding content_type_of
  put_key req pt call = do
    res ←
        put_object pt.bucket pt.key req.body
          (content_type_of (header_value req (codes "Content-Type")))
    pure (reply (λ m. put_response m call) (λ e. plain_error e pt.path call) res)

  unfoldable pub get_key : Request → ParsedTarget → Call → M r Response
  get_key req pt call = do
    res ← get_object_data pt.bucket pt.key
    pure (
        reply (λ bytes. data_response (header_value req (codes "Range")) bytes pt.path call)
          (λ e. storage_error (codes "NoSuchKey") no_such_key e pt.path call) res)

  unfoldable pub head_key : ParsedTarget → Call → M r Response
  head_key pt call = do
    res ← head_object pt.bucket pt.key
    pure (
        reply (λ m. head_response calendar m call)
          (λ e. storage_error (codes "NoSuchKey") no_such_key e pt.path call) res)

  unfoldable pub delete_key : ParsedTarget → Call → M r Response
  delete_key pt call = do
    res ← delete_object pt.bucket pt.key
    pure (reply (λ _. make_empty_response 204 call) (λ e. plain_error e pt.path call) res)

  -- The methods on the root, on a bucket and on an object.
  unfoldable pub handle_root : Request → ParsedTarget → Call → M r Response
  handle_root req pt call =
      if is_method req (codes "GET") then get_root pt.path call else pure (not_allowed pt.path call)

  unfoldable pub handle_bucket : Request → ParsedTarget → Call → M r Response
  handle_bucket req pt call =
      if is_method req (codes "PUT")
      then put_bucket pt.bucket pt.path call
      else if is_method req (codes "HEAD")
      then head_bucket pt.bucket pt.path call
      else if is_method req (codes "DELETE")
      then delete_bucket_reply pt.bucket pt.path call
      else if is_method req (codes "GET")
      then get_bucket pt call
      else pure (not_allowed pt.path call)

  unfoldable pub handle_key : Request → ParsedTarget → Call → M r Response
  handle_key req pt call =
      if is_method req (codes "PUT")
      then put_key req pt call
      else if is_method req (codes "GET")
      then get_key req pt call
      else if is_method req (codes "HEAD")
      then head_key pt call
      else if is_method req (codes "DELETE")
      then delete_key pt call
      else pure (not_allowed pt.path call)

  -- Past the two guards. A target with a bucket and no key is a bucket's, so that the code's last test of
  -- an empty key is never true.
  unfoldable pub dispatch : Request → ParsedTarget → Call → M r Response
  dispatch req pt call =
      if is_empty pt.bucket
      then handle_root req pt call
      else if is_empty pt.key
      then handle_bucket req pt call
      else handle_key req pt call

  unfoldable pub handle_allowed : Config → Request → Call → M r Response
  handle_allowed cfg req call =
      if is_method req (codes "PUT") && ltb cfg.max_object_bytes (length req.body)
      then pure (s3_error 413 (codes "EntityTooLarge") (codes "Object too large") req.target call)
      else dispatch req (parse_target req cfg.virtual_host_suffix) call

  unfoldable pub handle_verified : Config → Request → Call → Result → M r Response
  unfolding or_text
  handle_verified cfg req call ok = handle_allowed cfg req call
  handle_verified cfg req call (fail code message) = pure (
      s3_error 403 (or_text code (codes "AccessDenied")) (or_text message (codes "Access denied"))
        req.target call)

-- `g_reqid` beside the store.
pub record ApiState (r : Rocks) : Type 0 where
  pub store : State r
  pub next_id : ℕ

-- `new_request_id`: the text, and the counter after it.
unfoldable pub new_request_id : ℕ → Bytes × ℕ
new_request_id reqid = (to_hex reqid, (reqid + 1) % 2 ^ 64)

-- `Api::handle`
unfoldable pub handle :
    {r : Rocks} → Crypto → Coder → Calendar → Config → Request → ApiState r → Response × ApiState r
unfolding new_request_id
handle crypto coder calendar cfg req s =
    let (request_id, next_id) = new_request_id s.next_id in
    let call : Call = record {
      request_id = request_id;
      keep_alive = req.keep_alive;
      version = req.version;
    } in
    let verdict = verify_sigv4 crypto req cfg.auth_mode cfg.creds in
    let (res, store) = handle_verified coder calendar cfg req call verdict s.store in
    (res, record { store = store; next_id = next_id })
