-- ===== src/IndexLayer/S3Storage.antt =====
-- index_layer/src/s3_storage.h and s3_storage.cc: the storage behind libcurl. libcurl is a parameter: a
-- request is the options that are set on its handle, and the answer is the status, if the transfer
-- succeeded, and the bytes of the response's body, which libcurl gives to the write callback, or prints to
-- the standard output of the process where no callback is set.
pub mod Exchange
pub mod Served
pub mod Freed
pub mod Instance
pub mod Opened
pub mod Network
mod Tests
use prompt_cache_storage.Prelude.{
  ℕ, zero, suc, ◌≤◌, ◌<◌, ℤ, pos, negsuc, Bool, true, false, ◌&&◌, ◌||◌, not, Option, none, some,
  List, [], ◌∷◌, ◌++◌, Bytes, codes, beq, ◌==◌, leb, ltb, if◌then◌else◌,
}
use prompt_cache_storage.Prelude.Numeral.{to_string}

pub record Config : Type 0 where
  pub endpoint : Bytes
  pub bucket : Bytes
  pub timeout_ms : ℤ
  pub connect_timeout_ms : ℤ
  pub verify_tls : Bool

-- What is set by `curl_easy_setopt`, less what is the same in every request.
pub record Options : Type 0 where
  pub url : Bytes
  pub custom_request : Bytes
  pub headers : List Bytes
  pub timeout_ms : ℤ
  pub connect_timeout_ms : ℤ
  pub verify_tls : Bool
  pub post_fields : Option Bytes
  -- whether the write callback is set, which it is for a request whose caller passes `out`
  pub write_callback : Bool

pub record Curl : Type 1 where
  pub World : Type 0
  -- whether `curl_easy_init` returns a handle
  pub easy_init : World → Bool × World
  -- the status of a transfer that succeeded, and the bytes of the body, in any case
  pub easy_perform : Options → World → (Option ℕ × Bytes) × World

-- `static thread_local CURL* curl`: before its first use, null, usable, and after `curl_easy_cleanup`.
pub data Handle : Type 0 where
  unused null live freed : Handle

unfoldable pub trim_trailing_slash : Bytes → Bytes
trim_trailing_slash [] = []
trim_trailing_slash (c ∷ []) = if c == b'/' then [] else c ∷ []
trim_trailing_slash (c ∷ d ∷ s) = c ∷ trim_trailing_slash (d ∷ s)

unfoldable pub is_success_status : ℕ → List ℕ → Bool
is_success_status code [] = false
is_success_status code (c ∷ accepted) = (c == code) || is_success_status code accepted

-- `code >= 200 && code < 300`
unfoldable pub is_2xx : ℕ → Bool
is_2xx code = leb 200 code && ltb code 300

unfoldable pub build_bucket_url : Config → Bytes
unfolding trim_trailing_slash
build_bucket_url cfg = trim_trailing_slash cfg.endpoint ++ b'/' ∷ cfg.bucket

unfoldable pub build_object_url : Config → Bytes → Bytes
unfolding trim_trailing_slash
build_object_url cfg obj_id =
    trim_trailing_slash cfg.endpoint ++ b'/' ∷ (cfg.bucket ++ b'/' ∷ obj_id)

-- `body && (method == "PUT" || method == "POST")`
unfoldable pub sent_body : Bytes → Option Bytes → Option Bytes
sent_body method none = none
sent_body method (some body) =
    if beq method (codes "PUT") || beq method (codes "POST") then some body else none

expect_line : Option Bytes → List Bytes
expect_line none = []
expect_line (some body) = codes "Expect:" ∷ []

range_line : Bytes → List Bytes
range_line [] = []
range_line (c ∷ range) = (codes "Range: " ++ c ∷ range) ∷ []

unfoldable pub request_headers : Bytes → Option Bytes → Bytes → List Bytes
unfolding sent_body expect_line range_line
request_headers method body range_header =
    codes "Content-Type: application/octet-stream"
    ∷ (expect_line (sent_body method body) ++ range_line range_header)

unfoldable pub request_options : Config → Bytes → Bytes → Option Bytes → Bytes → Bool → Options
unfolding request_headers
request_options cfg url method body range_header wanted = record {
  url = url;
  custom_request = method;
  headers = request_headers method body range_header;
  timeout_ms = cfg.timeout_ms;
  connect_timeout_ms = cfg.connect_timeout_ms;
  verify_tls = cfg.verify_tls;
  post_fields = sent_body method body;
  write_callback = wanted;
}

-- The range header of `GetRange`, empty unless the bound is positive.
unfoldable pub range_of : ℤ → Bytes
range_of (pos zero) = []
range_of (pos (suc n)) = codes "bytes=0-" ++ to_string n
range_of (negsuc n) = []

module _ (curl : Curl) where
  open curl use {World, easy_init, easy_perform}

  pub record State : Type 0 where
    pub handle : Handle
    pub world : World
    -- what libcurl has printed to the standard output
    pub printed : Bytes

  -- The status of the response if there is one, and what is in `out`, which the caller passes empty.
  pub record Outcome : Type 0 where
    pub code : Option ℕ
    pub out : Bytes
    pub state : State

  -- `ThreadCurlHandle`, by what the variable holds.
  unfoldable pub initialised : Handle → State → State
  initialised unused s =
      let (given, world) = easy_init s.world in
      record { handle = if given then live else null; world = world; printed = s.printed }
  initialised null s = s
  initialised live s = s
  initialised freed s = s

  unfoldable pub thread_curl_handle : State → State
  unfolding initialised
  thread_curl_handle s = initialised s.handle s

  -- The request itself. After a failed transfer the handle is cleaned up; the variable keeps it.
  unfoldable pub transfer : Options → State → Outcome
  transfer options s =
      let ((code, body), world) = easy_perform options s.world in
      record {
        code = code;
        out = if options.write_callback then body else [];
        state = record {
          handle = elim code [ none ↦ freed | some _ ↦ live ];
          world = world;
          printed = if options.write_callback then s.printed else s.printed ++ body;
        };
      }

  -- `none` is the use of a handle that was freed.
  unfoldable pub perform_on : Handle → Options → State → Option Outcome
  unfolding transfer
  perform_on unused options s = none
  perform_on null options s = some (record { code = none; out = []; state = s })
  perform_on live options s = some (transfer options s)
  perform_on freed options s = none

  unfoldable pub perform_with : Options → State → Option Outcome
  unfolding perform_on
  perform_with options s = perform_on s.handle options s

  unfoldable pub perform_request :
      Config → Bytes → Bytes → Option Bytes → Bytes → Bool → State → Option Outcome
  unfolding thread_curl_handle perform_with request_options
  perform_request cfg url method body range_header wanted s =
      perform_with (request_options cfg url method body range_header wanted) (thread_curl_handle s)

  -- The result of an operation for the outcome of its request.
  unfoldable pub accepted : (ℕ → Bool) → Option ℕ → Bool
  accepted test none = false
  accepted test (some code) = test code

  unfoldable pub answer : (ℕ → Bool) → Option Outcome → Option (Bool × State)
  unfolding accepted
  answer test none = none
  answer test (some o) = some (accepted test o.code, o.state)

  unfoldable pub create_bucket : Config → State → Option (Bool × State)
  unfolding answer is_success_status
  create_bucket cfg s =
      answer (λ code. is_success_status code (200 ∷ 204 ∷ []))
        (perform_request cfg (build_bucket_url cfg) (codes "PUT") none [] false s)

  unfoldable pub put : Config → Bytes → Bytes → State → Option (Bool × State)
  unfolding answer is_2xx
  put cfg obj_id bytes s =
      answer is_2xx
        (perform_request cfg (build_object_url cfg obj_id) (codes "PUT") (some bytes) [] false s)

  unfoldable pub answer_bytes : (ℕ → Bool) → Option Outcome → Option (Bool × Bytes × State)
  unfolding accepted
  answer_bytes test none = none
  answer_bytes test (some o) = some (accepted test o.code, o.out, o.state)

  unfoldable pub get_range : Config → Bytes → ℤ → State → Option (Bool × Bytes × State)
  unfolding answer_bytes range_of is_success_status
  get_range cfg obj_id max_bytes s =
      answer_bytes (λ code. is_success_status code (200 ∷ 206 ∷ []))
        (perform_request cfg (build_object_url cfg obj_id) (codes "GET") none (range_of max_bytes)
          true s)

  -- `Delete`
  unfoldable pub delete : Config → Bytes → State → Option (Bool × State)
  unfolding answer is_2xx
  delete cfg obj_id s =
      answer is_2xx
        (perform_request cfg (build_object_url cfg obj_id) (codes "DELETE") none [] false s)
