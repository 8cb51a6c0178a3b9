-- ===== src/IndexLayer/S3Storage/Network.antt =====
-- A network that is the session of the gateway itself, for the tests.
use prompt_cache_storage.Prelude.{
  ℕ, ◌≡◌, refl, ◌∙◌, ap, pos, true, false, Option, none, some, [], ◌∷◌, ◌++◌, Bytes, codes, drop,
  map, arith, beq,
}
use prompt_cache_storage.Prelude.Text.{break_on}
use prompt_cache_storage.Gateway.Http.{Request, Response, header_value, find_field, to_lower}
use prompt_cache_storage.Gateway.Util.Percent.{is_unreserved, in_range}
use prompt_cache_storage.Gateway.Util.Percent.Unreserved.{AreUnreserved}
use prompt_cache_storage.Gateway.Auth.{none_mode}
use prompt_cache_storage.Gateway.Auth.Digests.{Crypto}
use prompt_cache_storage.Gateway.Storage.Listing.{Coder}
use prompt_cache_storage.Gateway.Storage.Rocks.Reference.{
  reference, reference_answers, reference_laws,
}
use prompt_cache_storage.Gateway.Storage.Store.Reliable.{IsReliable}
use prompt_cache_storage.Gateway.Api.Handle
use prompt_cache_storage.Gateway.Api.Handle.{ApiState, handle, default_max}
use prompt_cache_storage.Gateway.Api.Responses.{Calendar}
use prompt_cache_storage.Gateway.Api.Handle.Routes.{IsOpen}
use prompt_cache_storage.IndexLayer.S3Storage.{
  Config, Options, Curl, State, live, trim_trailing_slash, request_options, build_object_url,
  sent_body,
}
use prompt_cache_storage.IndexLayer.S3Storage.Exchange.{
  put_options, get_options, path_of, get_headers,
}
use prompt_cache_storage.IndexLayer.S3Storage.Served.{IsServed, IsSegment}
use prompt_cache_storage.Gateway.Server.{Environment}
use prompt_cache_storage.Gateway.Server.InFlight
use prompt_cache_storage.Gateway.Server.Exchange.{exchange}
use prompt_cache_storage.Gateway.Api.Range.Sent.{sent}
use prompt_cache_storage.Gateway.Storage.Env.Laws.{held}
use prompt_cache_storage.Gateway.Storage.Keys.{data_key}

abbrev pub crypto : Crypto
crypto = record { sha256 = λ s. s; hmac_sha256 = λ key text. text }

abbrev pub coder : Coder
coder = record { encode = λ k. k; decode = λ k. some k }

abbrev pub calendar : Calendar
calendar = record { iso8601_gmt = λ t. codes "now"; rfc1123_gmt = λ t. codes "now" }

abbrev pub gateway : Handle.Config
gateway = record {
  auth_mode = none_mode;
  creds = record { access_key = codes "AK"; secret_key = codes "S" };
  virtual_host_suffix = [];
  max_object_bytes = default_max;
}

abbrev field_of : Bytes → Bytes × Bytes
field_of line = elim (break_on b':' line) [
  | none ↦ (line, [])
  | some (name, value) ↦ (name, drop 1 value)
]

abbrev bytes_of : Option Bytes → Bytes
bytes_of none = []
bytes_of (some bytes) = bytes

-- Behind `http://h`.
abbrev pub request_of : Options → Request
request_of o = record {
  method = o.custom_request;
  target = drop 8 o.url;
  version = 11;
  keep_alive = true;
  headers = map field_of o.headers;
  body = bytes_of o.post_fields;
}

-- The session of the server, without metrics.
abbrev pub server : Environment reference
server = InFlight.gateway crypto coder calendar gateway (λ res. false) (λ m. [])

abbrev told :
    Option (Response × ApiState reference)
    → ApiState reference
    → (Option ℕ × Bytes) × ApiState reference
told none w = ((none, []), w)
told (some (res, a)) w = ((some res.status, res.body), a)

-- A transfer to which the session does not respond fails.
abbrev pub network : Curl
network = record {
  World = ApiState reference;
  easy_init = λ w. (true, w);
  easy_perform = λ o w. told (exchange server gateway.max_object_bytes (request_of o) w) w;
}

abbrev pub client : Config
client = record {
  endpoint = codes "http://h/";
  bucket = codes "cache";
  timeout_ms = pos 5000;
  connect_timeout_ms = pos 2000;
  verify_tls = true;
}

field_range :
    (value : Bytes)
    → find_field (codes "Range") (
        map field_of
          (codes "Content-Type: application/octet-stream" ∷ (codes "Range: " ++ value) ∷ []))
      ≡ some value
unfolding find_field to_lower break_on beq
field_range value = refl

client_field :
    (id : Bytes) (n : ℕ)
    → header_value (request_of (get_options client id n)) (codes "Range") ≡ some (sent 0 n)
unfolding header_value
client_field id n =
    ap (λ lines. find_field (codes "Range") (map field_of lines)) (get_headers client id n)
    ∙ field_range (sent 0 n)

pub network-IsServed :
    IsServed reference_laws server gateway.max_object_bytes client network (λ w. w)
unfolding put_options get_options request_options build_object_url trim_trailing_slash path_of
    sent_body beq
network-IsServed = record {
  request = request_of;
  put_method = λ id bytes segment. refl;
  put_target = λ id bytes segment. refl;
  put_body = λ id bytes segment given fits. refl;
  get_method = λ id n segment. refl;
  get_target = λ id n segment. refl;
  get_body = λ id n segment. refl;
  get_field = λ id n segment. client_field id n;
  answered = λ o w res a own run. ap (λ x. (told x w).0) run;
  kept = λ o w res a own run id.
      ap (λ x. held reference_laws (told x w).1.store (data_key client.bucket id)) run;
}

pub reliable : IsReliable reference
reliable = record { get_answers = reference_answers; write_fine = λ ops w. refl }

pub is_open : IsOpen gateway
is_open = record { mode = refl; suffix = refl }

abbrev pub start : State network
start = record {
  handle = live;
  world = record { store = record { world = []; metrics = none }; next_id = 1 };
  printed = [];
}

client_letters : AreUnreserved (codes "cache")
unfolding is_unreserved in_range
client_letters = ground arith

pub client_bucket : IsSegment (codes "cache")
client_bucket = record {
  plain = client_letters;
  given = λ e. cc;
  not_here = λ e. cc;
  not_up = λ e. cc;
}
