-- ===== src/Gateway/Server/Tests.antt =====
-- A session that reads a request for the page of the metrics.
use prompt_cache_storage.Prelude.{◌≡◌, refl, ◌%◌, true, some, [], ◌∷◌, codes}
use prompt_cache_storage.Gateway.Http.{Request}
use prompt_cache_storage.Gateway.Metrics.{new_metrics, word}
use prompt_cache_storage.Gateway.Auth.{none_mode}
use prompt_cache_storage.Gateway.Auth.Digests.{Crypto}
use prompt_cache_storage.Gateway.Storage.Rocks.Reference.{reference}
use prompt_cache_storage.Gateway.Storage.Env.Gauge.{gauge}
use prompt_cache_storage.Gateway.Storage.Listing.{Coder}
use prompt_cache_storage.Gateway.Api.Handle.{Config, ApiState, default_max}
use prompt_cache_storage.Gateway.Api.Responses.{Calendar}
use prompt_cache_storage.Gateway.Server.{
  Session, Environment, Server, Steps, do_read, clock, done, next, accept, turn, read_turn, request,
  on_read,
}
use prompt_cache_storage.Gateway.Server.InFlight.{gateway, in_flight, steps-in_flight}

abbrev crypto : Crypto
crypto = record { sha256 = λ s. s; hmac_sha256 = λ key text. text }

abbrev coder : Coder
coder = record { encode = λ k. k; decode = λ k. some k }

abbrev calendar : Calendar
calendar = record { iso8601_gmt = λ t. codes "now"; rfc1123_gmt = λ t. codes "now" }

abbrev config : Config
config = record {
  auth_mode = none_mode;
  creds = record { access_key = codes "AK"; secret_key = codes "S" };
  virtual_host_suffix = [];
  max_object_bytes = default_max;
}

abbrev environment : Environment reference
environment = gateway crypto coder calendar config (λ res. true) (λ m. codes "page")

abbrev start : ApiState reference
start = record { store = record { world = []; metrics = some new_metrics }; next_id = 1 }

abbrev scrape : Request
scrape = record {
  method = codes "GET";
  target = codes "/metrics";
  version = 11;
  keep_alive = true;
  headers = [];
  body = [];
}

-- The session after its request, and what it shares.
abbrev after_request : Session reference × ApiState reference
after_request = on_read environment tt (request scrape) start

abbrev busy : Server environment
busy = record { sessions = after_request.0 ∷ []; api = after_request.1 }

path : Steps environment (record { sessions = []; api = start }) busy
unfolding do_read clock
path =
    next (next (done _) (accept _)) (turn [] [] after_request (read_turn tt (request scrape) start))

fresh : gauge start.store ≡ some 0
unfolding gauge new_metrics
fresh = refl

steps-in_flight_example : gauge busy.api.store ≡ some (in_flight busy.sessions % word)
steps-in_flight_example =
    steps-in_flight crypto coder calendar config (λ res. true) (λ m. codes "page") start busy fresh
      path

one_in_flight : in_flight busy.sessions ≡ 1
unfolding in_flight on_read
one_in_flight = refl
