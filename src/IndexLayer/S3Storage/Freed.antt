-- ===== src/IndexLayer/S3Storage/Freed.antt =====
-- The handle after a transfer that failed.
use prompt_cache_storage.Prelude.{◌≡◌, refl, sym, ◌∙◌, ap, Option, none, some, Bytes, Bool}
use prompt_cache_storage.IndexLayer.S3Storage.{
  Config, Options, Curl, State, Outcome, live, freed, transfer, perform_on, perform_with,
  initialised, thread_curl_handle, perform_request, request_options,
}
use prompt_cache_storage.IndexLayer.S3Storage.Exchange.{perform_request-live}

module _ (curl : Curl) where
  transfer_freed :
      (o : Options) (s : State curl)
      → (transfer curl o s).code ≡ none
      → (transfer curl o s).state.handle ≡ freed
  unfolding transfer
  transfer_freed o s h = rw h refl

  some-injective : {a b : Outcome curl} → some a ≡ some b → a ≡ b
  some-injective h = cc

  perform_freed :
      (cfg : Config) (url method : Bytes) (body : Option Bytes) (range : Bytes) (wanted : Bool)
      (s : State curl)
      → s.handle ≡ freed
      → perform_request curl cfg url method body range wanted s ≡ none
  unfolding perform_request thread_curl_handle initialised perform_with perform_on
  perform_freed cfg url method body range wanted s h =
      ap
        (λ at.
          perform_with curl (request_options cfg url method body range wanted)
            (initialised curl at s))
        h
      ∙ ap (λ at. perform_on curl at (request_options cfg url method body range wanted) s) h

  -- After a request whose transfer failed, every further request on the same thread uses the handle that
  -- was freed.
  pub perform_request-freed :
      (cfg cfg' : Config) (url url' method method' : Bytes) (body body' : Option Bytes)
      (range range' : Bytes) (wanted wanted' : Bool) (s : State curl) (o : Outcome curl)
      → s.handle ≡ live
      → perform_request curl cfg url method body range wanted s ≡ some o
      → o.code ≡ none
      → perform_request curl cfg' url' method' body' range' wanted' o.state ≡ none
  perform_request-freed cfg cfg' url url' method method' body body' range range' wanted wanted' s o
        usable run failed =
      let options = request_options cfg url method body range wanted in
      let same =
        some-injective
          (sym (perform_request-live curl cfg url method body range wanted s usable) ∙ run) in
      let code = ap (λ (x : Outcome curl). x.code) same ∙ failed in
      perform_freed cfg' url' method' body' range' wanted' o.state
        (ap (λ (x : Outcome curl). x.state.handle) (sym same) ∙ transfer_freed options s code)
