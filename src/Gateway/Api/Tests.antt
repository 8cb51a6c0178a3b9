-- ===== src/Gateway/Api/Tests.antt =====
-- Requests on the database in memory, and the responses to them.
use prompt_cache_storage.Prelude.{
  ◌≡◌, ◌≢◌, refl, [], ◌∷◌, none, some, Bytes, suc, length, codes, beq, beq_iff, true, All,
}
use prompt_cache_storage.Gateway.Http.{Request, header_value, find_field}
use prompt_cache_storage.Gateway.Auth.{Mode, none_mode, sigv4_mode}
use prompt_cache_storage.Gateway.Auth.Digests.{Crypto}
use prompt_cache_storage.Prelude.Text.{break_on, split_on}
use prompt_cache_storage.Gateway.Util.Percent.{percent_decode}
use prompt_cache_storage.Gateway.Auth.{ok, fail, verify_sigv4}
use prompt_cache_storage.Gateway.Util.Query.{parse_query}
use prompt_cache_storage.Gateway.Auth.Parse.{
  parse_authorization_sigv4, parse_presigned, parse_target, query_get,
}
use prompt_cache_storage.Gateway.Auth.Accepted.{IsAuthentic, verify_sigv4_iff}
use prompt_cache_storage.Prelude.{List, take, drop, min, ◌-◌, ◌+◌, false, arith}
use prompt_cache_storage.Gateway.Http.{to_lower, is_method}
use prompt_cache_storage.Gateway.Util.Percent.{percent_encode}
use prompt_cache_storage.Gateway.Storage.Keys.{contains_nul, data_key}
use prompt_cache_storage.Gateway.Storage.Rocks.Reference.{reference_answers, find, table, answer}
use prompt_cache_storage.Gateway.Storage.Store.Reliable.{IsReliable}
use prompt_cache_storage.Gateway.Api.Range.Sent.{sent}
use prompt_cache_storage.Gateway.Api.Target.Path.{object_target}
use prompt_cache_storage.Gateway.Api.Handle.Routes.{IsOpen, IsObject}
use prompt_cache_storage.Gateway.Api.Handle.Gets.{IsAnswer, handle-get}
use prompt_cache_storage.Gateway.Api.Handle.RoundTrip.{handle_get-put}
use prompt_cache_storage.Gateway.Api.Handle.Deletes.{handle_get-delete}
use prompt_cache_storage.Gateway.Util.Query.{decode_or_raw}
use prompt_cache_storage.Gateway.Storage.Env.{get, write}
use prompt_cache_storage.Gateway.Storage.Store.{
  delete_object, if_exists, bucket_exists, remove_object,
}
use prompt_cache_storage.Gateway.Api.Target
use prompt_cache_storage.Gateway.Api.Target.{bucket_from_host}
use prompt_cache_storage.Gateway.Api.Handle.{
  handle_verified, handle_allowed, dispatch, handle_key, delete_key,
}
use prompt_cache_storage.Gateway.Storage.Listing.{Coder}
use prompt_cache_storage.Gateway.Storage.Keys.{bucket_key}
use prompt_cache_storage.Gateway.Storage.Rocks.{put}
use prompt_cache_storage.Gateway.Storage.Rocks.Reference.{reference, reference_laws}
use prompt_cache_storage.Gateway.Storage.Env.Laws.{held}
use prompt_cache_storage.Gateway.Api.Reply.{xml_escape, make_empty_response}
use prompt_cache_storage.Gateway.Api.Reply.Escape.{IsText, unescape, xml_escape-IsText}
use prompt_cache_storage.Gateway.Api.Handle.{Config, default_max, ApiState, handle}
use prompt_cache_storage.Gateway.Api.Responses.{Calendar}
use prompt_cache_storage.Gateway.Api.Handle.Safe.{handle-Keeps, handle_refused}

abbrev crypto : Crypto
crypto = record { sha256 = λ s. s; hmac_sha256 = λ key text. text }

abbrev coder : Coder
coder = record { encode = λ k. k; decode = λ k. some k }

abbrev calendar : Calendar
calendar = record { iso8601_gmt = λ t. codes "now"; rfc1123_gmt = λ t. codes "now" }

abbrev config : Mode → Config
config mode = record {
  auth_mode = mode;
  creds = record { access_key = codes "AK"; secret_key = codes "S" };
  virtual_host_suffix = [];
  max_object_bytes = default_max;
}

abbrev start : ApiState reference
start = record {
  store = record { world = put (bucket_key (codes "cache")) [] ∷ []; metrics = none };
  next_id = 1;
}

abbrev list_request : Request
list_request = record {
  method = codes "GET";
  target = codes "/cache?prefix=2a";
  version = 11;
  keep_alive = true;
  headers = [];
  body = [];
}

get-put : codes "GET" ≢ codes "PUT"
unfolding beq
get-put e = let h = (beq_iff (codes "GET") (codes "PUT")).1 e in cc h

get-delete : codes "GET" ≢ codes "DELETE"
unfolding beq
get-delete e = let h = (beq_iff (codes "GET") (codes "DELETE")).1 e in cc h

handle-Keeps_example :
    held reference_laws (handle crypto coder calendar (config none_mode) list_request start).1.store
    ≡ held reference_laws start.store
handle-Keeps_example =
    handle-Keeps reference_laws coder calendar crypto (config none_mode) list_request start get-put
      get-delete

fail_ne_ok : (code message : Bytes) → fail code message ≢ ok
fail_ne_ok code message h = cc

unsigned : IsAuthentic crypto list_request (config sigv4_mode).creds → ⊥
unfolding verify_sigv4 parse_authorization_sigv4 parse_presigned header_value find_field
    parse_target parse_query query_get beq break_on split_on percent_decode
unsigned h = fail_ne_ok _ _ ((verify_sigv4_iff crypto list_request (config sigv4_mode).creds).1 h)

handle_refused_example :
    ((handle crypto coder calendar (config sigv4_mode) list_request start).0.status ≡ 403)
    × ((handle crypto coder calendar (config sigv4_mode) list_request start).1.store ≡ start.store)
handle_refused_example =
    handle_refused crypto coder calendar (config sigv4_mode) list_request start refl unsigned

xml_escape-IsText_example :
    All IsText (xml_escape (codes "a<b>&c"))
    × (unescape (suc (length (codes "a<b>&c"))) (xml_escape (codes "a<b>&c"))
        ≡ some (codes "a<b>&c"))
xml_escape-IsText_example = xml_escape-IsText (codes "a<b>&c")

reliable : IsReliable reference
reliable = record { get_answers = reference_answers; write_fine = λ ops w. refl }

abbrev bucket : Bytes
bucket = codes "cache"

abbrev id : Bytes
id = codes "2ac4"

abbrev request : Bytes → List (Bytes × Bytes) → Bytes → Request
request method headers body = record {
  method = method;
  target = codes "/cache/2ac4";
  version = 11;
  keep_alive = true;
  headers = headers;
  body = body;
}

abbrev put_request : Request
put_request = request (codes "PUT") [] (codes "12345")

abbrev get_request : Request
get_request = request (codes "GET") ((codes "Range", sent 1 2) ∷ []) []

abbrev delete_request : Request
delete_request = request (codes "DELETE") [] []

is_open : IsOpen (config none_mode)
is_open = record { mode = refl; suffix = refl }

is_object : IsObject bucket id
is_object = record {
  bucket_bytes = omega arith;
  key_bytes = omega arith;
  bucket_given = λ e. cc;
  key_given = λ e. cc;
}

no_nul : (contains_nul bucket ≡ false) × (contains_nul id ≡ false)
unfolding contains_nul
no_nul = (refl, refl)

at_target : codes "/cache/2ac4" ≡ object_target bucket id true
unfolding object_target percent_encode
at_target = refl

range_field : header_value get_request (codes "Range") ≡ some (sent 1 2)
unfolding header_value find_field to_lower beq
range_field = refl

handle-get_example :
    IsAnswer
      (held reference_laws start.store (data_key bucket id))
      (header_value get_request (codes "Range"))
      (handle crypto coder calendar (config none_mode) get_request start).0
handle-get_example =
    handle-get reference_laws reliable crypto coder calendar (config none_mode) is_open bucket id
      true is_object no_nul get_request start refl at_target

handle_get-put_example :
    let t = handle crypto coder calendar (config none_mode) put_request start in
    let u = handle crypto coder calendar (config none_mode) get_request t.1 in
    (t.0.status ≡ 200)
    × (u.0.status ≡ 206)
    × (u.0.body ≡ take (min 2 (length put_request.body - 1) + 1 - 1) (drop 1 put_request.body))
handle_get-put_example =
    handle_get-put reference_laws reliable crypto coder calendar (config none_mode) is_open bucket
      id true is_object no_nul put_request get_request start 1 2 refl at_target (omega arith) refl
      at_target range_field (omega arith) (omega arith) (omega arith)

delete_run : (handle crypto coder calendar (config none_mode) delete_request start).0.status ≡ 204
unfolding handle handle_verified verify_sigv4 handle_allowed is_method beq dispatch
    Target.parse_target bucket_from_host break_on decode_or_raw percent_decode handle_key delete_key
    delete_object contains_nul if_exists bucket_exists get answer find table bucket_key
    remove_object write make_empty_response
delete_run = refl

handle_get-delete_example :
    (handle crypto coder calendar
      (config none_mode)
      get_request
      (handle crypto coder calendar (config none_mode) delete_request start).1).0.status
    ≡ 404
handle_get-delete_example =
    handle_get-delete reference_laws reliable crypto coder calendar (config none_mode) is_open
      bucket id true is_object no_nul delete_request get_request start refl at_target refl at_target
      delete_run
