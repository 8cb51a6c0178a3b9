-- ===== src/Gateway/Auth/Accepted.antt =====
-- Which requests pass the check.
use prompt_cache_storage.Prelude.{
  ◌≡◌, ◌≢◌, ◌↔◌, refl, sym, ◌∙◌, Bool, true, false, Option, none, some, Bytes, codes, beq, beq_iff,
  Bool-cases, inl, inr,
}
use prompt_cache_storage.Gateway.Http.{Request, header_value}
use prompt_cache_storage.Gateway.Util.Hex.{constant_time_equal, constant_time_equal_iff}
use prompt_cache_storage.Gateway.Auth.Digests.{Crypto}
use prompt_cache_storage.Gateway.Auth.Parse.{Scope, parse_authorization_sigv4, parse_presigned}
use prompt_cache_storage.Gateway.Auth.Canonical.{expected_signature}
use prompt_cache_storage.Gateway.Auth.Signature.{signature_of, expected_signature-signature_of}
use prompt_cache_storage.Gateway.Auth.{
  Credentials, Mode, none_mode, sigv4_mode, ok, verify_with_parts, verify_parsed, verify_sigv4,
}

module _ (crypto : Crypto) where
  -- The scope is for S3, names the gateway's key, and carries the signature of the request under it.
  pub record IsSigned (req : Request) (creds : Credentials) (scope : Scope) (presigned : Bool)
      : Type 0 where
    pub service : scope.service ≡ codes "s3"
    pub key : scope.access_key ≡ creds.access_key
    pub signature : signature_of crypto req creds.secret_key scope presigned ≡ scope.signature

  -- The field Authorization is used if it parses, and the query only if it does not.
  pub data IsAuthentic (req : Request) (creds : Credentials) : Type 0 where
    by_header :
        (scope : Scope)
        → parse_authorization_sigv4 crypto req ≡ some scope
        → scope.payload_hash ≢ codes "STREAMING-AWS4-HMAC-SHA256-PAYLOAD"
        → IsSigned req creds scope false
        → IsAuthentic req creds
    by_query :
        (scope : Scope)
        → parse_authorization_sigv4 crypto req ≡ none
        → parse_presigned req ≡ some scope
        → IsSigned req creds scope true
        → IsAuthentic req creds

  ne_of_beq : {a b : Bytes} → beq a b ≡ false → a ≢ b
  ne_of_beq {a} {b} h e = cc ((beq_iff a b).1 e, h)

  beq_of_ne : {a b : Bytes} → a ≢ b → beq a b ≡ false
  beq_of_ne {a} {b} h = elim (Bool-cases (beq a b)) [
    | inl e ↦ absurd (h ((beq_iff a b).0 e))
    | inr e ↦ e
  ]

  parts_sound :
      (req : Request) (creds : Credentials) (scope : Scope) (presigned : Bool)
      → verify_with_parts crypto req creds scope presigned ≡ ok
      → IsSigned req creds scope presigned
  unfolding verify_with_parts
  parts_sound req creds scope presigned h = elim (Bool-cases (beq scope.service (codes "s3"))) [
    | inr e ↦ let q = rw e at h in cc q
    | inl e ↦ elim (Bool-cases (beq scope.access_key creds.access_key)) [
      | inr f ↦ let q = rw (e, f) at h in cc q
      | inl f ↦
          elim (Bool-cases (
            constant_time_equal (expected_signature crypto req creds.secret_key scope presigned)
              scope.signature)) [
                | inr g ↦ let q = rw (e, f, g) at h in cc q
                | inl g ↦ record {
                  service = (beq_iff scope.service (codes "s3")).0 e;
                  key = (beq_iff scope.access_key creds.access_key).0 f;
                  signature =
                      sym (
                        expected_signature-signature_of crypto req creds.secret_key scope presigned)
                      ∙ (constant_time_equal_iff _ scope.signature).0 g;
                }
              ]
    ]
  ]

  parts_complete :
      (req : Request) (creds : Credentials) (scope : Scope) (presigned : Bool)
      → IsSigned req creds scope presigned
      → verify_with_parts crypto req creds scope presigned ≡ ok
  unfolding verify_with_parts
  parts_complete req creds scope presigned s = rw (
    (beq_iff scope.service (codes "s3")).1 s.service,
    (beq_iff scope.access_key creds.access_key).1 s.key,
    (constant_time_equal_iff (expected_signature crypto req creds.secret_key scope presigned)
          scope.signature).1
        (expected_signature-signature_of crypto req creds.secret_key scope presigned ∙ s.signature),
  )

  parsed_sound :
      (req : Request) (creds : Credentials) (header query : Option Scope)
      → parse_authorization_sigv4 crypto req ≡ header
      → parse_presigned req ≡ query
      → verify_parsed crypto req creds header query ≡ ok
      → IsAuthentic req creds
  unfolding verify_parsed
  parsed_sound req creds none none p q h = cc
  parsed_sound req creds none (some scope) p q h =
      by_query scope p q (parts_sound req creds scope true h)
  parsed_sound req creds (some scope) query p q h =
      elim (Bool-cases (beq scope.payload_hash (codes "STREAMING-AWS4-HMAC-SHA256-PAYLOAD"))) [
        | inl e ↦ let f = rw e at h in cc f
        | inr e ↦ by_header scope p (ne_of_beq e) (parts_sound req creds scope false (rw e at h))
      ]

  authentic_ok :
      (req : Request) (creds : Credentials)
      → IsAuthentic req creds
      → verify_sigv4 crypto req sigv4_mode creds ≡ ok
  unfolding verify_sigv4
  authentic_ok req creds (by_header scope p ne s) =
      rw (p, verify_parsed, beq_of_ne ne) (parts_complete req creds scope false s)
  authentic_ok req creds (by_query scope p q s) =
      rw (p, q, verify_parsed) (parts_complete req creds scope true s)

  pub verify_sigv4_iff :
      (req : Request) (creds : Credentials)
      → (verify_sigv4 crypto req sigv4_mode creds ≡ ok) ↔ IsAuthentic req creds
  unfolding verify_sigv4
  verify_sigv4_iff req creds = (parsed_sound req creds _ _ refl refl, authentic_ok req creds)

  expected_signature-body :
      (req : Request) (secret : Bytes) (scope : Scope) (presigned : Bool) (body : Bytes)
      → expected_signature crypto (record req { body = body }) secret scope presigned
        ≡ expected_signature crypto req secret scope presigned
  unfolding expected_signature header_value
  expected_signature-body req secret scope presigned body = refl

  parts-body :
      (req : Request) (creds : Credentials) (scope : Scope) (presigned : Bool) (body : Bytes)
      → verify_with_parts crypto (record req { body = body }) creds scope presigned
        ≡ verify_with_parts crypto req creds scope presigned
  unfolding verify_with_parts
  parts-body req creds scope presigned body =
      rw (expected_signature-body req creds.secret_key scope presigned body)

  parsed-body :
      (req : Request) (creds : Credentials) (header query : Option Scope) (body : Bytes)
      → verify_parsed crypto (record req { body = body }) creds header query
        ≡ verify_parsed crypto req creds header query
  unfolding verify_parsed
  parsed-body req creds none none body = refl
  parsed-body req creds none (some scope) body = parts-body req creds scope true body
  parsed-body req creds (some scope) query body = rw (parts-body req creds scope false body)

  authorization-body :
      (req : Request) (body hash : Bytes)
      → header_value req (codes "x-amz-content-sha256") ≡ some hash
      → parse_authorization_sigv4 crypto (record req { body = body })
        ≡ parse_authorization_sigv4 crypto req
  unfolding parse_authorization_sigv4 header_value
  authorization-body req body hash h = rw h

  presigned-body :
      (req : Request) (body : Bytes)
      → parse_presigned (record req { body = body }) ≡ parse_presigned req
  unfolding parse_presigned
  presigned-body req body = refl

  -- A request that states the digest of its payload in the field x-amz-content-sha256 gets the same
  -- verdict whatever its body is.
  pub verify_sigv4-body :
      (req : Request) (mode : Mode) (creds : Credentials) (body hash : Bytes)
      → header_value req (codes "x-amz-content-sha256") ≡ some hash
      → verify_sigv4 crypto (record req { body = body }) mode creds
        ≡ verify_sigv4 crypto req mode creds
  unfolding verify_sigv4
  verify_sigv4-body req none_mode creds body hash h = refl
  verify_sigv4-body req sigv4_mode creds body hash h =
      parsed-body req creds _ _ body
      ∙ rw (authorization-body req body hash h, presigned-body req body)
