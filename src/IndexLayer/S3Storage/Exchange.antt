-- ===== src/IndexLayer/S3Storage/Exchange.antt =====
-- The requests that `Put` and `GetRange` send, and what they return once these are answered.
use prompt_cache_storage.Prelude.{
  ℕ, suc, ◌+◌, ◌-◌, ◌<◌, ℤ, pos, ◌≡◌, refl, ◌∙◌, ap, Bool, true, false, if◌then◌else◌, Option, none,
  some, [], ◌∷◌, ◌++◌, Bytes, codes, min, arith, beq,
}
use prompt_cache_storage.Prelude.Numeral.{to_string}
use prompt_cache_storage.Gateway.Util.Percent.Unreserved.{
  AreUnreserved, percent_encode-AreUnreserved,
}
use prompt_cache_storage.Gateway.Api.Range.Sent.{sent}
use prompt_cache_storage.Gateway.Api.Target.Path.{object_target}
use prompt_cache_storage.IndexLayer.S3Storage.{
  Config, Options, Curl, Handle, State, Outcome, unused, null, live, freed, trim_trailing_slash,
  build_object_url, request_options, request_headers, sent_body, range_of, thread_curl_handle,
  initialised, perform_on, transfer, perform_with, perform_request, answer, answer_bytes, put,
  get_range, is_2xx, is_success_status,
}

module _ (curl : Curl) where
  handle_kept : (s : State curl) → s.handle ≡ live → thread_curl_handle curl s ≡ s
  unfolding thread_curl_handle initialised
  handle_kept s h = ap (λ at. initialised curl at s) h

  given_idem :
      (given : Bool) (world : curl.World) (printed : Bytes)
      → let s : State curl = record {
        handle = if given then live else null;
        world = world;
        printed = printed;
      } in
        initialised curl s.handle s ≡ s
  unfolding initialised
  given_idem true world printed = refl
  given_idem false world printed = refl

  initialised_idem :
      (at : Handle) (s : State curl)
      → s.handle ≡ at
      → initialised curl (initialised curl at s).handle (initialised curl at s)
        ≡ initialised curl at s
  unfolding initialised
  initialised_idem unused s h = given_idem (easy_init s.world).0 (easy_init s.world).1 s.printed
    where
      open curl use {easy_init}
  initialised_idem null s h = ap (λ at. initialised curl at s) h
  initialised_idem live s h = ap (λ at. initialised curl at s) h
  initialised_idem freed s h = ap (λ at. initialised curl at s) h

  -- Asking for the handle once more changes nothing.
  thread_curl_handle_idem :
      (s : State curl)
      → thread_curl_handle curl (thread_curl_handle curl s) ≡ thread_curl_handle curl s
  unfolding thread_curl_handle
  thread_curl_handle_idem s = initialised_idem s.handle s refl

  pub put-thread_curl_handle :
      (cfg : Config) (id bytes : Bytes) (s : State curl)
      → put curl cfg id bytes (thread_curl_handle curl s) ≡ put curl cfg id bytes s
  unfolding put perform_request
  put-thread_curl_handle cfg id bytes s = rw (thread_curl_handle_idem s) refl

  pub get_range-thread_curl_handle :
      (cfg : Config) (id : Bytes) (u : ℤ) (s : State curl)
      → get_range curl cfg id u (thread_curl_handle curl s) ≡ get_range curl cfg id u s
  unfolding get_range perform_request
  get_range-thread_curl_handle cfg id u s = rw (thread_curl_handle_idem s) refl

  perform_live :
      (o : Options) (s : State curl)
      → s.handle ≡ live
      → perform_with curl o s ≡ some (transfer curl o s)
  unfolding perform_with perform_on
  perform_live o s h = ap (λ at. perform_on curl at o s) h

  pub perform_request-live :
      (cfg : Config) (url method : Bytes) (body : Option Bytes) (range : Bytes) (wanted : Bool)
      (s : State curl)
      → s.handle ≡ live
      → perform_request curl cfg url method body range wanted s
        ≡ some (transfer curl (request_options cfg url method body range wanted) s)
  unfolding perform_request
  perform_request-live cfg url method body range wanted s h =
      rw (handle_kept s h) (perform_live (request_options cfg url method body range wanted) s h)

  -- A transfer that was answered.
  unfoldable pub arrived : Options → State curl → ℕ → Bytes → Outcome curl
  arrived o s status body = record {
    code = some status;
    out = if o.write_callback then body else [];
    state = record {
      handle = live;
      world = (curl.easy_perform o s.world).1;
      printed = if o.write_callback then s.printed else s.printed ++ body;
    };
  }

  transfer-arrived :
      (o : Options) (s : State curl) (status : ℕ) (body : Bytes)
      → (curl.easy_perform o s.world).0 ≡ (some status, body)
      → transfer curl o s ≡ arrived o s status body
  unfolding transfer arrived
  transfer-arrived o s status body h = rw h refl

-- The text that `GetRange` sends.
range_of-sent : (n : ℕ) → range_of (pos (suc n)) ≡ sent 0 n
unfolding range_of sent to_string
range_of-sent n = refl

range_headers :
    (n : ℕ)
    → request_headers (codes "GET") none (sent 0 n)
      ≡ codes "Content-Type: application/octet-stream" ∷ (codes "Range: " ++ sent 0 n) ∷ []
unfolding request_headers sent_body sent
range_headers n = refl

pub all_of : (n size : ℕ) → 0 < size → min n (size - 1) + 1 - 0 ≡ min (suc n) size
all_of n size h = omega arith

-- What the client asks for.
module _ (cfg : Config) (id : Bytes) where
  unfoldable pub put_options : Bytes → Options
  put_options bytes =
      request_options cfg (build_object_url cfg id) (codes "PUT") (some bytes) [] false

  unfoldable pub get_options : ℕ → Options
  get_options n = request_options cfg (build_object_url cfg id) (codes "GET") none (sent 0 n) true

  unfoldable pub path_of : Bytes
  path_of = cfg.bucket ++ b'/' ∷ id

  pub put_url :
      (bytes : Bytes) → (put_options bytes).url ≡ trim_trailing_slash cfg.endpoint ++ b'/' ∷ path_of
  unfolding put_options request_options build_object_url path_of
  put_url bytes = refl

  pub get_url : (n : ℕ) → (get_options n).url ≡ trim_trailing_slash cfg.endpoint ++ b'/' ∷ path_of
  unfolding get_options request_options build_object_url path_of
  get_url n = refl

  pub put_method : (bytes : Bytes) → (put_options bytes).custom_request ≡ codes "PUT"
  unfolding put_options request_options
  put_method bytes = refl

  pub get_method : (n : ℕ) → (get_options n).custom_request ≡ codes "GET"
  unfolding get_options request_options
  get_method n = refl

  pub put_body : (bytes : Bytes) → (put_options bytes).post_fields ≡ some bytes
  unfolding put_options request_options sent_body beq
  put_body bytes = refl

  pub get_headers :
      (n : ℕ)
      → (get_options n).headers
        ≡ codes "Content-Type: application/octet-stream" ∷ (codes "Range: " ++ sent 0 n) ∷ []
  unfolding get_options request_options
  get_headers n = range_headers n

  pub path-object_target :
      AreUnreserved cfg.bucket
      → AreUnreserved id
      → b'/' ∷ path_of ≡ object_target cfg.bucket id true
  unfolding path_of object_target
  path-object_target hb hk =
      rw (percent_encode-AreUnreserved cfg.bucket true hb, percent_encode-AreUnreserved id true hk)

  module _ (curl : Curl) where
    pub put_arrived :
        (bytes body : Bytes) (s : State curl)
        → s.handle ≡ live
        → (curl.easy_perform (put_options bytes) s.world).0 ≡ (some 200, body)
        → put curl cfg id bytes s ≡ some (true, (arrived curl (put_options bytes) s 200 body).state)
    unfolding put put_options answer is_2xx arrived request_options
    put_arrived bytes body s h e = ap (answer curl is_2xx) (
        perform_request-live curl cfg (build_object_url cfg id) (codes "PUT") (some bytes) [] false
          s h
        ∙ ap some (transfer-arrived curl (put_options bytes) s 200 body e))

    pub get_arrived :
        (n : ℕ) (body : Bytes) (s : State curl)
        → s.handle ≡ live
        → (curl.easy_perform (get_options n) s.world).0 ≡ (some 206, body)
        → get_range curl cfg id (pos (suc n)) s
          ≡ some (true, body, (arrived curl (get_options n) s 206 body).state)
    unfolding get_range get_options answer_bytes is_success_status arrived request_options
    get_arrived n body s h e =
        ap (answer_bytes curl (λ code. is_success_status code (200 ∷ 206 ∷ []))) (
          ap
            (λ range.
              perform_request curl cfg (build_object_url cfg id) (codes "GET") none range true s)
            (range_of-sent n)
          ∙ perform_request-live curl cfg (build_object_url cfg id) (codes "GET") none (sent 0 n)
              true s h
          ∙ ap some (transfer-arrived curl (get_options n) s 206 body e))
