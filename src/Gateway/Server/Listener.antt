-- ===== src/Gateway/Server/Listener.antt =====
-- http_server.cpp: the constructor of `Listener`, and what the limit on bodies lets through.
use prompt_cache_storage.Prelude.{
  ℕ, ◌≡◌, refl, sym, ap, ◌∙◌, Bool, true, false, ◌&&◌, codes, ltb, length, if◌then◌else◌,
  Bool-cases, inl, inr,
}
use prompt_cache_storage.Gateway.Http.{Request, is_method}
use prompt_cache_storage.Gateway.Server.{ReadEvent, request, read_error}

-- How far the acceptor came.
pub data Acceptor : Type 0 where
  unopened opened bound listening : Acceptor

-- Which calls of Asio succeed.
pub record Calls : Type 0 where
  pub open_ok : Bool
  pub set_option_ok : Bool
  pub bind_ok : Bool
  pub listen_ok : Bool

-- The constructor stops at the first error, and tells nobody.
unfoldable pub listener : Calls → Acceptor
listener calls =
    if calls.open_ok
    then if calls.set_option_ok
      then if calls.bind_ok then if calls.listen_ok then listening else bound else opened
      else opened
    else unopened

-- `parser_->body_limit(max_body_)`: Beast ends the read of a larger body in an error.
unfoldable pub received : ℕ → Request → ReadEvent
received max_body req = if ltb max_body (length req.body) then read_error else request req

and_false : (a : Bool) {b : Bool} → b ≡ false → (a && b) ≡ false
and_false true h = h
and_false false h = refl

-- A request that a session hands on is not too large for `Api`, if both have the same limit.
pub received-small :
    (limit : ℕ) (req req' : Request)
    → received limit req ≡ request req'
    → (is_method req' (codes "PUT") && ltb limit (length req'.body)) ≡ false
unfolding received
received-small limit req req' h = elim (Bool-cases (ltb limit (length req.body))) [
  | inl large ↦ let q = rw large at h in cc q
  | inr small ↦
      let same : req ≡ req' = cc (rw small at h) in
      and_false (is_method req' (codes "PUT"))
        (ap (λ (r : Request). ltb limit (length r.body)) (sym same) ∙ small)
]
