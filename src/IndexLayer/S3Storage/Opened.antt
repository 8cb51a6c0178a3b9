-- ===== src/IndexLayer/S3Storage/Opened.antt =====
-- A request on a handle that was not freed.
use prompt_cache_storage.Prelude.{
  ℕ, ℤ, ◌≡◌, refl, Bool, true, false, Option, none, some, [], Bytes, codes, if◌then◌else◌, sym,
  subst,
}
use prompt_cache_storage.IndexLayer.S3Storage.{
  Config, Options, Curl, Handle, State, Outcome, unused, null, live, freed, transfer, perform_on,
  perform_with, initialised, thread_curl_handle, perform_request, request_options, accepted, answer,
  answer_bytes, put, get_range, create_bucket,
}
use prompt_cache_storage.IndexLayer.S3Storage.Instance.{put_at, get_at, put_result, get_result}

abbrev pub NotFreed : Handle → Type 0
NotFreed unused = Unit {0}
NotFreed null = Unit {0}
NotFreed live = Unit {0}
NotFreed freed = ⊥

module _ (curl : Curl) where
  -- A request that ended; if it was accepted, the handle can be used again.
  abbrev IsAnswered : (ℕ → Bool) → Option (Outcome curl) → Type 0
  IsAnswered test none = ⊥
  IsAnswered test (some o) = accepted curl test o.code ≡ true → NotFreed o.state.handle

  of_code :
      (test : ℕ → Bool) (code : Option ℕ)
      → accepted curl test code ≡ true
      → NotFreed (elim code [ none ↦ freed | some c ↦ live ])
  unfolding accepted
  of_code test none h = cc
  of_code test (some c) h = tt

  on_live :
      (test : ℕ → Bool) (o : Options) (s : State curl) → IsAnswered test (perform_on curl live o s)
  unfolding perform_on transfer
  on_live test o s = of_code test (curl.easy_perform o s.world).0.0

  on_null :
      (test : ℕ → Bool) (o : Options) (s : State curl) → IsAnswered test (perform_on curl null o s)
  unfolding perform_on accepted
  on_null test o s = λ h. cc

  on_given :
      (test : ℕ → Bool) (o : Options) (given : Bool) (world : curl.World) (printed : Bytes)
      → let s : State curl = record {
        handle = if given then live else null;
        world = world;
        printed = printed;
      } in
        IsAnswered test (perform_on curl s.handle o s)
  on_given test o true world printed = on_live test o _
  on_given test o false world printed = on_null test o _

  from :
      (test : ℕ → Bool) (o : Options) (at : Handle) (s : State curl)
      → NotFreed at
      → s.handle ≡ at
      → IsAnswered test (perform_on curl (initialised curl at s).handle o (initialised curl at s))
  unfolding initialised
  from test o unused s h e =
      on_given test o (curl.easy_init s.world).0 (curl.easy_init s.world).1 s.printed
  from test o null s h e =
      subst (λ at. IsAnswered test (perform_on curl at o s)) (sym e) (on_null test o s)
  from test o live s h e =
      subst (λ at. IsAnswered test (perform_on curl at o s)) (sym e) (on_live test o s)
  from test o freed s h e = absurd h

  perform_request-IsAnswered :
      (test : ℕ → Bool) (cfg : Config) (url method : Bytes) (body : Option Bytes) (range : Bytes)
      (wanted : Bool) (s : State curl)
      → NotFreed s.handle
      → IsAnswered test (perform_request curl cfg url method body range wanted s)
  unfolding perform_request perform_with thread_curl_handle
  perform_request-IsAnswered test cfg url method body range wanted s h =
      from test (request_options cfg url method body range wanted) s.handle s h refl

  -- Some state is left, and if the result is true its handle can be used.
  abbrev pub IsLeft : Bool → Option (State curl) → Type 0
  IsLeft ok none = ⊥
  IsLeft ok (some s) = ok ≡ true → NotFreed s.handle

  answer-IsLeft :
      (test : ℕ → Bool) (o : Option (Outcome curl))
      → IsAnswered test o
      → let r = put_result curl (answer curl test o) in IsLeft r.0 r.1
  unfolding answer put_result
  answer-IsLeft test none h = h
  answer-IsLeft test (some o) h = h

  answer_bytes-IsLeft :
      (test : ℕ → Bool) (o : Option (Outcome curl))
      → IsAnswered test o
      → let r = get_result curl (answer_bytes curl test o) in IsLeft r.0 r.2
  unfolding answer_bytes get_result
  answer_bytes-IsLeft test none h = h
  answer_bytes-IsLeft test (some o) h = h

  pub create_bucket-IsLeft :
      (cfg : Config) (s : State curl)
      → NotFreed s.handle
      → let r = put_result curl (create_bucket curl cfg s) in IsLeft r.0 r.1
  unfolding create_bucket
  create_bucket-IsLeft cfg s h =
      answer-IsLeft _ _ (perform_request-IsAnswered _ cfg _ (codes "PUT") none [] false s h)

  pub put_at-IsLeft :
      (cfg : Config) (id bytes : Bytes) (s : State curl)
      → NotFreed s.handle
      → let r = put_at curl cfg id bytes (some s) in IsLeft r.0 r.1
  unfolding put_at put
  put_at-IsLeft cfg id bytes s h =
      answer-IsLeft _ _ (perform_request-IsAnswered _ cfg _ (codes "PUT") (some bytes) [] false s h)

  pub get_at-IsLeft :
      (cfg : Config) (id : Bytes) (n : ℤ) (s : State curl)
      → NotFreed s.handle
      → let r = get_at curl cfg id n (some s) in IsLeft r.0 r.2
  unfolding get_at get_range
  get_at-IsLeft cfg id n s h =
      answer_bytes-IsLeft _ _ (perform_request-IsAnswered _ cfg _ (codes "GET") none _ true s h)
