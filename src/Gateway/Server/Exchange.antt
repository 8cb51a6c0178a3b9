-- ===== src/Gateway/Server/Exchange.antt =====
-- http_server.cpp: the exchange of one request for one response, as a client on its own connection sees it.
use prompt_cache_storage.Prelude.{
  ◌≡◌, ◌≢◌, refl, sym, ◌∙◌, subst, Bool, true, false, ◌&&◌, Option, none, some, [], ◌∷◌, ◌++◌,
  Bytes, ℕ, ◌+◌, ◌-◌, ◌<◌, ◌≤◌, ◌^◌, codes, min, length, take, drop, arith, beq, beq_iff,
  le→ltb_false, Bool-cases, inl, inr,
}
use prompt_cache_storage.Prelude.Text.{Lacks}
use prompt_cache_storage.Gateway.Http.{Request, Response, is_method, header_value}
use prompt_cache_storage.Gateway.Metrics.{Metrics, inc_in_flight}
use prompt_cache_storage.Gateway.Auth.Digests.{Crypto}
use prompt_cache_storage.Gateway.Storage.Keys.{contains_nul, data_key}
use prompt_cache_storage.Gateway.Storage.Rocks.{Rocks, RocksLaws}
use prompt_cache_storage.Gateway.Storage.Env.Laws.{held}
use prompt_cache_storage.Gateway.Storage.Store.Reliable.{IsReliable}
use prompt_cache_storage.Gateway.Storage.Listing.{Coder}
use prompt_cache_storage.Gateway.Api.Handle
use prompt_cache_storage.Gateway.Api.Handle.{Config, ApiState}
use prompt_cache_storage.Gateway.Api.Handle.Routes.{IsOpen, IsObject}
use prompt_cache_storage.Gateway.Api.Handle.RoundTrip.{handle-put, handle-get_part}
use prompt_cache_storage.Gateway.Api.Range.Sent.{sent}
use prompt_cache_storage.Gateway.Api.Responses.{Calendar}
use prompt_cache_storage.Gateway.Api.Target.Path.{object_target}
use prompt_cache_storage.Gateway.Server.{
  ReadEvent, Environment, end_of_stream, read_error, request, respond, with_metrics,
}
use prompt_cache_storage.Gateway.Server.Listener.{received}
use prompt_cache_storage.Gateway.Server.InFlight.{gateway}

module _ {r : Rocks} (env : Environment r) where
  answer_to : ReadEvent → ApiState r → Option (Response × ApiState r)
  answer_to end_of_stream a = none
  answer_to read_error a = none
  answer_to (request req) a = some (respond env req (with_metrics env inc_in_flight a))

  -- The response that a session writes once it has read a request, and what it leaves; there is none for a
  -- body over the limit, whose connection is closed.
  unfoldable pub exchange : ℕ → Request → ApiState r → Option (Response × ApiState r)
  unfolding answer_to
  exchange limit req a = answer_to (received limit req) a

  -- A request within the limit that does not ask for the page of the metrics goes to `Api`.
  exchange-handle :
      (limit : ℕ) (req : Request) (a : ApiState r)
      → length req.body ≤ limit
      → (is_method req (codes "GET") && beq req.target (codes "/metrics")) ≡ false
      → exchange limit req a ≡ some (env.handle req (with_metrics env inc_in_flight a))
  unfolding exchange received respond
  exchange-handle limit req a fits other =
      rw (le→ltb_false limit (length req.body) fits, other) refl

no_slash : (a b : Bytes) → Lacks b'/' (a ++ b'/' ∷ b) → ⊥
no_slash [] b (h, hs) = h refl
no_slash (c ∷ a) b (h, hs) = no_slash a b hs

metrics-Lacks : Lacks b'/' (codes "metrics")
metrics-Lacks = omega arith

object_target-ne-metrics :
    (bucket key : Bytes) (slash : Bool) → object_target bucket key slash ≢ codes "/metrics"
unfolding object_target
object_target-ne-metrics bucket key slash =
    λ e. no_slash _ _ (subst (Lacks b'/') (sym (tail e)) metrics-Lacks)
  where
    tail : {c d : ℕ} {a b : Bytes} → c ∷ a ≡ d ∷ b → a ≡ b
    tail h = cc

beq-ne : (a b : Bytes) → a ≢ b → beq a b ≡ false
beq-ne a b h = elim (Bool-cases (beq a b)) [
  | inl same ↦ absurd (h ((beq_iff a b).0 same))
  | inr other ↦ other
]

and_false : (a : Bool) {b : Bool} → b ≡ false → (a && b) ≡ false
and_false true h = h
and_false false h = refl

not_metrics :
    (req : Request) (bucket key : Bytes) (slash : Bool)
    → req.target ≡ object_target bucket key slash
    → (is_method req (codes "GET") && beq req.target (codes "/metrics")) ≡ false
not_metrics req bucket key slash e = and_false (is_method req (codes "GET")) (
    beq-ne req.target (codes "/metrics")
      (λ m. object_target-ne-metrics bucket key slash (sym e ∙ m)))

module _ {r : Rocks} (laws : RocksLaws r) (sure : IsReliable r) (crypto : Crypto) (coder : Coder)
    (calendar : Calendar) (cfg : Config) (need_eof : Response → Bool)
    (render_prometheus : Metrics → Bytes) (free : IsOpen cfg) (bucket key : Bytes) (slash : Bool)
    (o : IsObject bucket key)
    (no_nul : (contains_nul bucket ≡ false) × (contains_nul key ≡ false)) where
  abbrev env : Environment r
  env = gateway crypto coder calendar cfg need_eof render_prometheus

  -- A PUT of an object through a session: 200, no body, and the object's data are held.
  pub exchange-put :
      (req : Request) (a : ApiState r)
      → req.method ≡ codes "PUT"
      → req.target ≡ object_target bucket key slash
      → length req.body ≤ cfg.max_object_bytes
      → (res : Response) × (a' : ApiState r) × (exchange env cfg.max_object_bytes req a
          ≡ some (res, a'))
        × (res.status ≡ 200)
        × (res.body ≡ [])
        × (held laws a'.store (data_key bucket key) ≡ some req.body)
  unfolding gateway
  exchange-put req a method target fits =
      let b = with_metrics env inc_in_flight a in
      let ((status, body), is_held) =
        handle-put laws sure crypto coder calendar cfg free bucket key slash o no_nul req b method
          target fits in
      (
        (Handle.handle crypto coder calendar cfg req b).0,
        (Handle.handle crypto coder calendar cfg req b).1,
        exchange-handle env cfg.max_object_bytes req a fits
            (not_metrics req bucket key slash target),
        status,
        body,
        is_held,
      )

  -- A GET of the bytes from `first` to `last` of data that are held, through a session: 206 and those bytes.
  pub exchange-get_part :
      (req : Request) (a : ApiState r) (x : Bytes) (first last : ℕ)
      → req.method ≡ codes "GET"
      → req.target ≡ object_target bucket key slash
      → length req.body ≤ cfg.max_object_bytes
      → header_value req (codes "Range") ≡ some (sent first last)
      → held laws a.store (data_key bucket key) ≡ some x
      → first < length x
      → first ≤ last
      → last < 2 ^ 63
      → (res : Response) × (a' : ApiState r) × (exchange env cfg.max_object_bytes req a
          ≡ some (res, a'))
        × (res.status ≡ 206)
        × (res.body ≡ take (min last (length x - 1) + 1 - first) (drop first x))
  unfolding gateway with_metrics
  exchange-get_part req a x first last method target fits range is_held inside order small =
      let b = with_metrics env inc_in_flight a in
      let (status, body) =
        handle-get_part laws sure crypto coder calendar cfg free bucket key slash o no_nul req b x
          first last method target range is_held inside order small in
      (
        (Handle.handle crypto coder calendar cfg req b).0,
        (Handle.handle crypto coder calendar cfg req b).1,
        exchange-handle env cfg.max_object_bytes req a fits
            (not_metrics req bucket key slash target),
        status,
        body,
      )
