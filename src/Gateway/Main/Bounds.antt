-- ===== src/Gateway/Main/Bounds.antt =====
-- What the gateway is started with.
use prompt_cache_storage.Prelude.{
  ℕ, zero, suc, ◌*◌, ◌%◌, ◌^◌, ◌≤◌, ◌<◌, ℤ, pos, negsuc, ◌≡◌, ◌≢◌, ◌⊎◌, ◌∙◌, [], refl, Bool, true,
  false, ◌↔◌, Option, none, some, Bytes, codes, beq, beq_iff, arith, ltb, Bool-cases, Option-cases,
  inl, inr, if◌then◌else◌,
}
use prompt_cache_storage.Prelude.Int.{to_ℕ}
use prompt_cache_storage.Prelude.Numeral.Sto.{atoi}
use prompt_cache_storage.Gateway.Auth.{none_mode}
use prompt_cache_storage.Gateway.Main.{
  Arguments, parsed, Settings, Outcome, exited, uncaught, undefined, serving, serve_with,
  parse_auth_mode, break_last, at_least_one, mebibyte, api_config, settings_of, start_server,
  with_port, with_listen, main,
}

-- The settings of a server that `a` ask for.
pub record IsSetUp (a : Arguments) (s : Settings) : Type 0 where
  pub port_low : 1 ≤ s.listen_port
  pub port_high : s.listen_port ≤ 65535
  pub size_low : mebibyte ≤ s.api.max_object_bytes
  pub size_high : s.api.max_object_bytes ≤ 2 ^ 31 * mebibyte
  pub same_limit : s.max_request_body_bytes ≡ s.api.max_object_bytes
  pub unsigned : (s.api.auth_mode ≡ none_mode) ↔ (a.auth_mode ≡ codes "none")
  pub some_worker : 1 ≤ s.workers
  pub workers : s.workers ≤ s.concurrency
  pub threads : a.threads ≡ pos s.workers

-- The program serves with such settings, or it exits: with the code 0 if it is given no threads, and with
-- the code 1 or 2 for an error.
abbrev pub IsStarted : Arguments → Outcome → Type 0
IsStarted a (exited code out err) =
    ((code ≡ 0) × (a.threads ≡ pos 0) × (err ≡ [])) ⊎ ((1 ≤ code) × (code ≤ 2) × (err ≢ []))
IsStarted a uncaught = Unit {0}
IsStarted a undefined = Unit {0}
IsStarted a (serving s) = IsSetUp a s

limit_bounds :
    (n : ℤ)
    → to_ℕ n < 2 ^ 31
    → (mebibyte ≤ at_least_one n * mebibyte % 2 ^ 64)
      × (at_least_one n * mebibyte % 2 ^ 64 ≤ 2 ^ 31 * mebibyte)
unfolding at_least_one
limit_bounds (pos zero) h = (omega arith, omega arith)
limit_bounds (pos (suc n)) h = (omega arith, omega arith)
limit_bounds (negsuc n) h = (omega arith, omega arith)

mode_iff : (s : Bytes) → (parse_auth_mode s ≡ none_mode) ↔ (s ≡ codes "none")
unfolding parse_auth_mode
mode_iff s = elim (Bool-cases (beq s (codes "none"))) [
  | inl e ↦ rw e (λ h. (beq_iff s (codes "none")).0 e, λ h. refl)
  | inr e ↦ rw e (λ h. cc, λ h. cc ((beq_iff s (codes "none")).1 h, e))
]

workers-le : (n : ℤ) → to_ℕ n ≤ at_least_one n
unfolding at_least_one
workers-le (pos zero) = omega arith
workers-le (pos (suc n)) = omega arith
workers-le (negsuc n) = omega arith

settings_of-IsSetUp :
    (a : Arguments) (host : Bytes) (port n : ℕ)
    → a.threads ≡ pos (suc n)
    → to_ℕ a.max_object_mb < 2 ^ 31
    → 1 ≤ port
    → port ≤ 65535
    → IsSetUp a (settings_of a host port)
unfolding settings_of api_config
settings_of-IsSetUp a host port n threads small low high = record {
  port_low = low;
  port_high = high;
  size_low = (limit_bounds a.max_object_mb small).0;
  size_high = (limit_bounds a.max_object_mb small).1;
  same_limit = refl;
  unsigned = mode_iff a.auth_mode;
  some_worker = rw threads (omega arith);
  workers = workers-le a.threads;
  threads = threads ∙ rw threads refl;
}

module _ (a : Arguments) where
  either :
      (b : Bool) (x y : Outcome) → IsStarted a x → IsStarted a y → IsStarted a (if b then x else y)
  either true x y hx hy = hx
  either false x y hx hy = hy

module _ (description : Bytes) (open_database : Bytes → Option Bytes) (make_address : Bytes → Bool)
    (a : Arguments) (small : to_ℕ a.max_object_mb < 2 ^ 31) where
  serve_with-IsStarted :
      (host : Bytes) (port : ℕ)
      → 1 ≤ port
      → port ≤ 65535
      → (n : ℤ) → a.threads ≡ n
      → IsStarted a (serve_with description open_database make_address n (settings_of a host port))
  unfolding serve_with
  serve_with-IsStarted host port low high (pos zero) e = inl (refl, e, refl)
  serve_with-IsStarted host port low high (pos (suc n)) e =
      settings_of-IsSetUp a host port n e small low high
  serve_with-IsStarted host port low high (negsuc n) e = tt

  start_server-IsStarted :
      (host : Bytes) (port : ℕ)
      → 1 ≤ port
      → port ≤ 65535
      → IsStarted a (start_server description open_database make_address a host port)
  unfolding start_server
  start_server-IsStarted host port low high = elim (Option-cases (open_database a.db_path)) [
    | inr (e, failure) ↦ rw (failure, start_server) (inr (omega arith, omega arith, λ e. cc))
    | inl opened ↦
        rw (opened, start_server)
          (either a (make_address host) _ _ (serve_with-IsStarted host port low high a.threads refl)
            tt)
  ]

  with_port-IsStarted :
      (host : Bytes) (port : Option ℤ)
      → IsStarted a (with_port description open_database make_address a host port)
  unfolding with_port
  with_port-IsStarted host none = tt
  with_port-IsStarted host (some (pos zero)) = inr (omega arith, omega arith, λ e. cc)
  with_port-IsStarted host (some (negsuc n)) = inr (omega arith, omega arith, λ e. cc)
  with_port-IsStarted host (some (pos (suc n))) = elim (Bool-cases (ltb 65535 (suc n))) [
    | inl e ↦ rw e (inr (omega arith, omega arith, λ e. cc))
    | inr e ↦ rw e (start_server-IsStarted host (suc n) (omega arith) (ground arith))
  ]

  -- Let the limit on objects fit an `int`. If the program starts to serve, its port lies between 1 and 65535,
  -- its limit on objects is between 1 MiB and 2^31 MiB and the same for the server and for `Api`,
  -- signatures are left out exactly if the option auth is `none`, and there are as many workers as the
  -- option threads says, at least one and no more than the io_context expects. If it exits without help
  -- being asked for, the code is 0, which takes the option threads to be 0, and it prints no error, or the
  -- code is 1 or 2 and it prints an error.
  pub main-IsStarted : IsStarted a (main description open_database make_address (parsed false a))
  unfolding main with_listen
  main-IsStarted = elim (Option-cases (break_last b':' a.listen)) [
    | inl e ↦ rw (main, with_listen, e) (inr (omega arith, omega arith, λ e. cc))
    | inr ((host, port), e) ↦ rw (main, with_listen, e) (with_port-IsStarted host (atoi port))
  ]
