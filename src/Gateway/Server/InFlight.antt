-- ===== src/Gateway/Server/InFlight.antt =====
-- The gauge of the requests in flight counts the sessions that are writing a response.
use prompt_cache_storage.Prelude.{
  ℕ, ◌+◌, ◌%◌, ◌≡◌, refl, sym, ◌∙◌, ap, Bool, true, false, ◌&&◌, Option, none, some, List, [], ◌∷◌,
  ◌++◌, Bytes, codes, beq, arith, if◌then◌else◌,
}
use prompt_cache_storage.Gateway.Http.{Request, Response, is_method}
use prompt_cache_storage.Gateway.Metrics.{Metrics, inc_in_flight, dec_in_flight, observe, word}
use prompt_cache_storage.Gateway.Auth.Digests.{Crypto}
use prompt_cache_storage.Gateway.Storage.Rocks.{Rocks}
use prompt_cache_storage.Gateway.Storage.Env.Gauge.{gauge, gauge_of}
use prompt_cache_storage.Gateway.Storage.Listing.{Coder}
use prompt_cache_storage.Gateway.Api.Handle
use prompt_cache_storage.Gateway.Api.Handle.{Config, ApiState}
use prompt_cache_storage.Gateway.Api.Responses.{Calendar}
use prompt_cache_storage.Gateway.Api.Handle.Gauge.{gauge-handle}
use prompt_cache_storage.Gateway.Server.{
  Stats, Session, reading, writing, closed, ReadEvent, end_of_stream, read_error, request,
  Environment, on_metrics, metrics_response, with_metrics, clock, do_read, respond, on_read,
  account, on_write, Server, Turn, read_turn, write_turn, Step, accept, refuse, turn, Steps, done,
  next,
}

abbrev pub is_writing : {r : Rocks} → Session r → ℕ
is_writing (reading start) = 0
is_writing (writing start stats close) = 1
is_writing closed = 0

-- The sessions whose response is being written.
unfoldable pub in_flight : {r : Rocks} → List (Session r) → ℕ
in_flight [] = 0
in_flight (p ∷ sessions) = is_writing p + in_flight sessions

in_flight-middle :
    {r : Rocks} (before after : List (Session r)) (p : Session r)
    → in_flight (before ++ p ∷ after) ≡ in_flight (before ++ after) + is_writing p
unfolding in_flight
in_flight-middle [] after p = omega arith
in_flight-middle (q ∷ before) after p = omega (arith, in_flight-middle before after p)

some_inflight : {a b : ℕ} → some a ≡ some b → a ≡ b
some_inflight h = cc

inc_gauge :
    (metrics : Option Metrics) (n : ℕ)
    → gauge_of metrics ≡ some (n % word)
    → gauge_of (on_metrics inc_in_flight metrics) ≡ some ((n + 1) % word)
unfolding on_metrics inc_in_flight
inc_gauge none n h = cc
inc_gauge (some m) n h = let e = some_inflight h in ap some (omega (arith, e))

module _ {r : Rocks} (env : Environment r)
    (kept : (req : Request) (a : ApiState r)
      → gauge (env.handle req a).1.store ≡ gauge a.store) where
  gauge-respond :
      (req : Request) (a : ApiState r) → gauge (respond env req a).1.store ≡ gauge a.store
  unfolding respond
  gauge-respond req a = elim_bool (is_method req (codes "GET") && beq req.target (codes "/metrics"))
    where
      elim_bool :
          (b : Bool)
          → gauge
              (if b
                then (metrics_response env req a.store.metrics, a)
                else env.handle req a).1.store
            ≡ gauge a.store
      elim_bool true = refl
      elim_bool false = kept req a

  gauge-on_read :
      (start : r.Time) (event : ReadEvent) (a : ApiState r) (n : ℕ)
      → gauge a.store ≡ some (n % word)
      → gauge (on_read env start event a).1.store
        ≡ some ((n + is_writing (on_read env start event a).0) % word)
  unfolding on_read with_metrics gauge
  gauge-on_read start end_of_stream a n h = h ∙ ap (λ k. some (k % word)) (omega arith)
  gauge-on_read start read_error a n h = h ∙ ap (λ k. some (k % word)) (omega arith)
  gauge-on_read start (request req) a n h =
      gauge-respond req (with_metrics env inc_in_flight a) ∙ inc_gauge a.store.metrics n h

  gauge-account :
      (start : r.Time) (stats : Stats) (w : r.World) (metrics : Option Metrics) (reqid n : ℕ)
      → gauge_of metrics ≡ some ((n + 1) % word)
      → gauge
          (account env start stats
            (record { store = record { world = w; metrics = metrics }; next_id = reqid })).store
        ≡ some (n % word)
  unfolding account clock with_metrics on_metrics gauge dec_in_flight observe
  gauge-account start stats w none reqid n h = cc
  gauge-account start stats w (some m) reqid n h =
      let e = some_inflight h in ap some (omega (arith, e))

  gauge-do_read : (a : ApiState r) → gauge (do_read env a).1.store ≡ gauge a.store
  unfolding do_read clock gauge
  gauge-do_read a = refl

  gauge-on_write :
      (start : r.Time) (stats : Stats) (close failed : Bool) (a : ApiState r) (n : ℕ)
      → gauge a.store ≡ some ((n + 1) % word)
      → gauge (on_write env start stats close failed a).1.store
        ≡ some ((n + is_writing (on_write env start stats close failed a).0) % word)
  unfolding on_write do_read clock gauge
  gauge-on_write start stats close true a n h =
      gauge-account start stats a.store.world a.store.metrics a.next_id n h
      ∙ ap (λ k. some (k % word)) (omega arith)
  gauge-on_write start stats true false a n h =
      gauge-account start stats a.store.world a.store.metrics a.next_id n h
      ∙ ap (λ k. some (k % word)) (omega arith)
  gauge-on_write start stats false false a n h =
      gauge-account start stats a.store.world a.store.metrics a.next_id n h
      ∙ ap (λ k. some (k % word)) (omega arith)

  Turn-gauge :
      {p : Session r} {a : ApiState r} {result : Session r × ApiState r} (n : ℕ)
      → Turn env p a result
      → gauge a.store ≡ some ((n + is_writing p) % word)
      → gauge result.1.store ≡ some ((n + is_writing result.0) % word)
  Turn-gauge n (read_turn start event a) h =
      gauge-on_read start event a n (h ∙ ap (λ k. some (k % word)) (omega arith))
  Turn-gauge n (write_turn start stats close failed a) h =
      gauge-on_write start stats close failed a n h

  -- The gauge is the number of sessions that are writing.
  abbrev pub IsCounted : Server env → Type 0
  IsCounted s = gauge s.api.store ≡ some (in_flight s.sessions % word)

  Step-IsCounted : {s t : Server env} → Step env s t → IsCounted s → IsCounted t
  Step-IsCounted (accept s) h =
      gauge-do_read s.api
      ∙ h
      ∙ ap (λ k. some (k % word)) (unfold in_flight do_read clock in omega arith)
  Step-IsCounted (refuse s) h = h
  Step-IsCounted (turn before after {p} {a} result t) h =
      Turn-gauge (in_flight (before ++ after)) t
        (h ∙ ap (λ k. some (k % word)) (in_flight-middle before after p))
      ∙ ap (λ k. some (k % word)) (sym (in_flight-middle before after result.0))

  steps-IsCounted : {s t : Server env} → Steps env s t → IsCounted s → IsCounted t
  steps-IsCounted (done s) h = h
  steps-IsCounted (next path step) h = Step-IsCounted step (steps-IsCounted path h)

-- The server in front of `Api`, as `main` puts it together.
unfoldable pub gateway :
    {r : Rocks}
    → Crypto
    → Coder
    → Calendar
    → Config
    → (Response → Bool)
    → (Metrics → Bytes)
    → Environment r
gateway crypto coder calendar cfg need_eof render_prometheus = record {
  handle = Handle.handle crypto coder calendar cfg;
  need_eof = need_eof;
  render_prometheus = render_prometheus;
}

-- From a server without sessions whose gauge is 0, whatever connections are accepted, requests read and
-- writes finished, in whatever order and whether or not they fail, the gauge is the number of sessions
-- that are writing a response, modulo 2^64.
pub steps-in_flight :
    {r : Rocks} (crypto : Crypto) (coder : Coder) (calendar : Calendar) (cfg : Config)
    (need_eof : Response → Bool) (render_prometheus : Metrics → Bytes) (a : ApiState r)
    (s : Server (gateway crypto coder calendar cfg need_eof render_prometheus))
    → gauge a.store ≡ some 0
    → Steps
        (gateway crypto coder calendar cfg need_eof render_prometheus)
        (record { sessions = []; api = a })
        s
    → gauge s.api.store ≡ some (in_flight s.sessions % word)
unfolding gateway in_flight
steps-in_flight crypto coder calendar cfg need_eof render_prometheus a s fresh path =
    steps-IsCounted (gateway crypto coder calendar cfg need_eof render_prometheus)
      (λ req b. gauge-handle coder calendar crypto cfg req b) path fresh
