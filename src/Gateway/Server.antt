-- ===== src/Gateway/Server.antt =====
-- s3_rocksdb_gateway/src/http_server.cpp: the sessions of the server and the listener that accepts them.
-- The handlers of Asio run one at a time here, in any order; what Beast reads off a connection is an
-- event. The metrics of the server are those of the store, as `main` sets them up.
pub mod InFlight
pub mod Listener
pub mod Exchange
mod Tests
use prompt_cache_storage.Prelude.{
  ℕ, Bool, true, false, ◌&&◌, Option, none, some, List, [], ◌∷◌, ◌++◌, Bytes, codes, beq,
  if◌then◌else◌, length,
}
use prompt_cache_storage.Gateway.Http.{Request, Response, is_method}
use prompt_cache_storage.Gateway.Metrics
use prompt_cache_storage.Gateway.Metrics.{Metrics, inc_in_flight, dec_in_flight}
use prompt_cache_storage.Gateway.Storage.Rocks.{Rocks}
use prompt_cache_storage.Gateway.Storage.Env.{State}
use prompt_cache_storage.Gateway.Api.Handle.{ApiState}

-- `RequestStats`
pub record Stats : Type 0 where
  pub method : Bytes
  pub status : ℕ
  pub req_bytes : ℕ
  pub resp_bytes : ℕ

-- What a session waits for: `on_read`, `on_write` with the `close` that it was handed, or nothing more.
pub data Session (r : Rocks) : Type 0 where
  reading : r.Time → Session r
  writing : r.Time → Stats → Bool → Session r
  closed : Session r

-- What `on_read` is called with.
pub data ReadEvent : Type 0 where
  end_of_stream read_error : ReadEvent
  request : Request → ReadEvent

unfoldable pub on_metrics : (Metrics → Metrics) → Option Metrics → Option Metrics
on_metrics f none = none
on_metrics f (some m) = some (f m)

-- `Api::handle`, `Response::need_eof` of Beast and `Metrics::RenderPrometheus`.
pub record Environment (r : Rocks) : Type 0 where
  pub handle : Request → ApiState r → Response × ApiState r
  pub need_eof : Response → Bool
  pub render_prometheus : Metrics → Bytes

module _ {r : Rocks} (env : Environment r) where
  open env use {handle, need_eof, render_prometheus}

  -- `if (metrics_) …`
  unfoldable pub with_metrics : (Metrics → Metrics) → ApiState r → ApiState r
  unfolding on_metrics
  with_metrics f a = record a {
    store = record { world = a.store.world; metrics = on_metrics f a.store.metrics };
  }

  -- `Clock::now()`
  unfoldable pub clock : ApiState r → r.Time × ApiState r
  clock a =
      let (now, w) = r.steady_now a.store.world in
      (now, record a { store = record { world = w; metrics = a.store.metrics } })

  unfoldable pub do_read : ApiState r → Session r × ApiState r
  unfolding clock
  do_read a = let (start, a') = clock a in (reading start, a')

  rendered : Option Metrics → Bytes
  rendered none = []
  rendered (some m) = render_prometheus m

  -- The page of the metrics.
  unfoldable pub metrics_response : Request → Option Metrics → Response
  unfolding rendered
  metrics_response req metrics = record {
    status = 200;
    version = req.version;
    keep_alive = req.keep_alive;
    content_length = length (rendered metrics);
    headers = (codes "Content-Type", codes "text/plain; version=0.0.4") ∷ [];
    body = rendered metrics;
  }

  unfoldable pub respond : Request → ApiState r → Response × ApiState r
  unfolding metrics_response
  respond req a =
      if is_method req (codes "GET") && beq req.target (codes "/metrics")
      then (metrics_response req a.store.metrics, a)
      else handle req a

  unfoldable pub on_read : r.Time → ReadEvent → ApiState r → Session r × ApiState r
  unfolding respond with_metrics
  on_read start end_of_stream a = (closed, a)
  on_read start read_error a = (closed, a)
  on_read start (request req) a =
      let (res, a') = respond req (with_metrics inc_in_flight a) in
      (
        writing start
            (record {
              method = req.method;
              status = res.status;
              req_bytes = length req.body;
              resp_bytes = length res.body;
            })
            (need_eof res),
        a',
      )

  -- `Observe` and `DecInFlight`; the clock is read only if there are metrics.
  unfoldable pub account : r.Time → Stats → ApiState r → ApiState r
  unfolding clock with_metrics
  account start stats a = elim a.store.metrics [
    | none ↦ a
    | some m ↦
        let (end, a') = clock a in
        with_metrics
          (λ m. dec_in_flight (
            Metrics.observe r.latency stats.method stats.status stats.req_bytes stats.resp_bytes
              (r.elapsed start end) m))
          a'
  ]

  -- `failed` is the error of the write.
  unfoldable pub on_write : r.Time → Stats → Bool → Bool → ApiState r → Session r × ApiState r
  unfolding account do_read
  on_write start stats close failed a =
      let a' = account start stats a in
      if failed then (closed, a') else if close then (closed, a') else do_read a'

  -- The server: its sessions and what they share.
  pub record Server : Type 0 where
    pub sessions : List (Session r)
    pub api : ApiState r

  -- What one handler does to its session and to the rest.
  pub data Turn : Session r → ApiState r → Session r × ApiState r → Type 0 where
    read_turn :
        (start : r.Time) (event : ReadEvent) (a : ApiState r)
        → Turn (reading start) a (on_read start event a)
    write_turn :
        (start : r.Time) (stats : Stats) (close failed : Bool) (a : ApiState r)
        → Turn (writing start stats close) a (on_write start stats close failed a)

  -- `on_accept`, with a connection or without one, and the turns of the sessions.
  pub data Step : Server → Server → Type 0 where
    accept :
        (s : Server)
        → Step s (record { sessions = (do_read s.api).0 ∷ s.sessions; api = (do_read s.api).1 })
    refuse : (s : Server) → Step s s
    turn :
        (before after : List (Session r)) {p : Session r} {a : ApiState r}
        (result : Session r × ApiState r)
        → Turn p a result
        → Step
            (record { sessions = before ++ p ∷ after; api = a })
            (record { sessions = before ++ result.0 ∷ after; api = result.1 })

  pub data Steps : Server → Server → Type 0 where
    done : (s : Server) → Steps s s
    next : {s t u : Server} → Steps s t → Step t u → Steps s u
