-- ===== src/IndexLayer/S3Storage/Tests.antt =====
-- The client on a network that is the gateway itself, and on one that fails.
use prompt_cache_storage.Prelude.{
  suc, ◌≡◌, refl, pos, true, false, none, some, [], Bytes, codes, length, take, min, arith,
}
use prompt_cache_storage.Gateway.Util.Percent.{is_unreserved, in_range}
use prompt_cache_storage.Gateway.Util.Percent.Unreserved.{AreUnreserved}
use prompt_cache_storage.Gateway.Storage.Rocks.Reference.{reference_laws}
use prompt_cache_storage.IndexLayer.S3Storage.{
  Curl, State, Outcome, live, freed, perform_request, put, get_range, transfer, perform_with,
  perform_on, thread_curl_handle, initialised, create_bucket, answer, accepted, is_success_status,
  request_options,
}
use prompt_cache_storage.IndexLayer.S3Storage.Served.{get_range-put, IsSegment}
use prompt_cache_storage.IndexLayer.S3Storage.Freed.{perform_request-freed}
use prompt_cache_storage.IndexLayer.S3Storage.Network.{
  client_bucket, crypto, coder, calendar, gateway, network, client, start, network-IsServed,
  reliable, is_open,
}

abbrev id : Bytes
id = codes "2ac4"

id_letters : AreUnreserved id
unfolding is_unreserved in_range
id_letters = ground arith

id_fine : IsSegment id
id_fine = record { plain = id_letters; given = λ e. cc; not_here = λ e. cc; not_up = λ e. cc }

get_range-put_example :
    (s' s'' : State network) × (put network client id (codes "12345") start ≡ some (true, s'))
    × (get_range network client id (pos (suc 1)) s'
        ≡ some (true, take (min (suc 1) (length (codes "12345"))) (codes "12345"), s''))
get_range-put_example =
    get_range-put reference_laws reliable crypto coder calendar gateway (λ res. false) (λ m. [])
      is_open client network (λ w. w) network-IsServed client_bucket id (codes "12345") 1 start refl
      id_fine (omega arith) (omega arith) (omega arith)

-- A network on which every transfer fails.
abbrev silence : Curl
silence = record {
  World = Unit {0};
  easy_init = λ w. (true, w);
  easy_perform = λ o w. ((none, []), w);
}

abbrev before_failure : State silence
before_failure = record { handle = live; world = tt; printed = [] }

abbrev failure : Outcome silence
failure = record {
  code = none;
  out = [];
  state = record { handle = freed; world = tt; printed = [] };
}

failed_run :
    perform_request silence client
      (codes "http://h/cache/2ac4")
      (codes "GET")
      none
      []
      true
      before_failure
    ≡ some failure
unfolding perform_request perform_with perform_on thread_curl_handle initialised transfer
failed_run = refl

perform_request-freed_example :
    perform_request silence client
      (codes "http://h/cache")
      (codes "PUT")
      none
      []
      false
      failure.state
    ≡ none
perform_request-freed_example =
    perform_request-freed silence client client (codes "http://h/cache/2ac4")
      (codes "http://h/cache") (codes "GET") (codes "PUT") none none [] [] true false before_failure
      failure refl failed_run refl

-- A network on which every request is refused with a body.
abbrev refusal : Curl
refusal = record {
  World = Unit {0};
  easy_init = λ w. (true, w);
  easy_perform = λ o w. ((some 403, codes "<Error/>"), w);
}

-- The body of the response to the creation of a bucket is printed.
refused_bucket :
    create_bucket refusal client (record { handle = live; world = tt; printed = [] })
    ≡ some (false, record { handle = live; world = tt; printed = codes "<Error/>" })
unfolding create_bucket answer accepted is_success_status perform_request perform_with perform_on
    thread_curl_handle initialised transfer request_options
refused_bucket = refl
