-- ===== src/Gateway/Auth/Signed.antt =====
-- A request that is signed the way S3 asks for is let in.
pub mod Fields
use prompt_cache_storage.Prelude.{
  ℕ, ◌<◌, ◌/◌, ◌%◌, ◌≡◌, ◌≢◌, refl, sym, ap, ◌∙◌, Bool, true, false, Option, none, some, List, [],
  ◌∷◌, ◌++◌, Bytes, codes, All, All-append, map, arith, beq,
}
use prompt_cache_storage.Prelude.Text.{
  Lacks, strip_prefix, strip_prefix-append, break_on, break_on-append, split_on, split_on-append,
  split_on-Lacks,
}
use prompt_cache_storage.Prelude.Assoc.{Assoc, lookup, insert, bytes_key}
use prompt_cache_storage.Gateway.Http.{Request, header_value, to_lower}
use prompt_cache_storage.Gateway.Util.Whitespace.{
  is_space, NoSpace, trim_start, trim_end, trim_start-NoSpace, trim_end-NoSpace,
}
use prompt_cache_storage.Gateway.Util.Hex.{hex_lower, hex_digit}
use prompt_cache_storage.Gateway.Auth.{Credentials, sigv4_mode, ok, verify_sigv4}
use prompt_cache_storage.Gateway.Auth.Canonical.{expected_signature}
use prompt_cache_storage.Gateway.Auth.Signature.{expected_signature-signature_of}
use prompt_cache_storage.Gateway.Auth.Accepted.{IsSigned, by_header, verify_sigv4_iff}
use prompt_cache_storage.Gateway.Auth.Digests.{Crypto}
use prompt_cache_storage.Gateway.Auth.Parse.{
  Scope, collect, credential_parts, make_scope, parse_fields, payload_hash_of,
  parse_authorization_sigv4, ◌>>=◌,
}
use prompt_cache_storage.Gateway.Auth.Signed.Fields.{
  credential_of, authorization_of, IsValue, parse_fields-authorization_of, make_scope-credential_of,
}

-- A part of the credential.
abbrev pub IsPart : Bytes → Type 0
IsPart s = Lacks b'/' s × IsValue s

append-IsValue : (s t : Bytes) → IsValue s → IsValue t → IsValue (s ++ t)
append-IsValue s t (a, b) (c, d) =
    (All-append (λ x. x ≢ b',') s t a c, All-append (λ x. is_space x ≡ false) s t b d)

slash-IsValue : (t : Bytes) → IsValue t → IsValue (b'/' ∷ t)
unfolding is_space
slash-IsValue t (a, b) = ((omega arith, a), (refl, b))

last-IsValue : IsValue (codes "aws4_request")
unfolding is_space
last-IsValue = (omega arith, ground arith)

credential_of-IsValue :
    (key date region service : Bytes)
    → IsPart key
    → IsPart date
    → IsPart region
    → IsPart service
    → IsValue (credential_of key date region service)
unfolding credential_of
credential_of-IsValue key date region service k d r s = append-IsValue key _ k.1 (
    slash-IsValue _ (
      append-IsValue date _ d.1 (
        slash-IsValue _ (
          append-IsValue region _ r.1 (
            slash-IsValue _ (
              append-IsValue service _ s.1 (slash-IsValue (codes "aws4_request") last-IsValue)))))))

s3-IsPart : IsPart (codes "s3")
unfolding is_space
s3-IsPart = (omega arith, (omega arith, ground arith))

hex_digit-IsValue : (d : ℕ) → d < 16 → (hex_digit d ≢ b',') × (is_space (hex_digit d) ≡ false)
unfolding hex_digit is_space
hex_digit-IsValue d h = (λ e. ground arith, ground arith)

hex_lower-IsValue : (s : Bytes) → IsValue (hex_lower s)
unfolding hex_lower
hex_lower-IsValue [] = (tt, tt)
hex_lower-IsValue (c ∷ s) =
    let (a, b) = hex_digit-IsValue (c / 16 % 16) (omega arith) in
    let (a', b') = hex_digit-IsValue (c % 16) (omega arith) in
    let (lacks, solid) = hex_lower-IsValue s in ((a, (a', lacks)), (b, (b', solid)))

module _ (crypto : Crypto) where
  -- What a client knows before it signs.
  unfoldable pub draft : Request → Credentials → Bytes → Bytes → Bytes → Bytes → Scope
  draft req creds date region signed_headers amz_date = record {
    access_key = creds.access_key;
    date = date;
    region = region;
    service = codes "s3";
    signed_headers_list = map to_lower (split_on b';' signed_headers);
    signature = [];
    amz_date = amz_date;
    payload_hash = payload_hash_of crypto req (header_value req (codes "x-amz-content-sha256"));
  }

  expected-signature :
      (req : Request) (secret : Bytes) (scope : Scope) (signature : Bytes)
      → expected_signature crypto req secret (record scope { signature = signature }) false
        ≡ expected_signature crypto req secret scope false
  unfolding expected_signature
  expected-signature req secret scope signature = refl

  draft-service :
      (req : Request) (creds : Credentials) (date region signed_headers amz_date : Bytes)
      → (draft req creds date region signed_headers amz_date).service ≡ codes "s3"
  unfolding draft
  draft-service req creds date region signed_headers amz_date = refl

  draft-key :
      (req : Request) (creds : Credentials) (date region signed_headers amz_date : Bytes)
      → (draft req creds date region signed_headers amz_date).access_key ≡ creds.access_key
  unfolding draft
  draft-key req creds date region signed_headers amz_date = refl

  expected_signature-IsValue :
      (req : Request) (secret : Bytes) (scope : Scope)
      → IsValue (expected_signature crypto req secret scope false)
  unfolding expected_signature
  expected_signature-IsValue req secret scope = hex_lower-IsValue _

  parse-signed :
      (req : Request) (creds : Credentials) (date region signed_headers amz_date signature : Bytes)
      → IsPart creds.access_key
      → IsPart date
      → IsPart region
      → IsValue signed_headers
      → IsValue signature
      → header_value req (codes "Authorization")
        ≡ some (
            authorization_of
              (credential_of creds.access_key date region (codes "s3"))
              signed_headers
              signature)
      → header_value req (codes "x-amz-date") ≡ some amz_date
      → parse_authorization_sigv4 crypto req
        ≡ some
            (record (draft req creds date region signed_headers amz_date) { signature = signature })
  unfolding parse_authorization_sigv4 draft
  parse-signed req creds date region signed_headers amz_date signature k d r h s field at_date =
      rw
        (
          field,
          ◌>>=◌,
          parse_fields-authorization_of (credential_of creds.access_key date region (codes "s3"))
              signed_headers signature
              (credential_of-IsValue creds.access_key date region (codes "s3") k d r s3-IsPart) h s,
          ◌>>=◌,
          make_scope-credential_of creds.access_key date region (codes "s3") k.0 d.0 r.0
              (omega arith) signed_headers signature [] [],
          at_date,
        )
        refl

  -- A client that signs for the service s3 with the gateway's keys, and puts the key, the date, the
  -- region, the signed headers and the signature into the field Authorization, is let in. The parts may
  -- hold no slash, comma or white space, and the payload may not be announced as streaming.
  pub verify_sigv4-authorization_of :
      (req : Request) (creds : Credentials) (date region signed_headers amz_date : Bytes)
      → IsPart creds.access_key
      → IsPart date
      → IsPart region
      → IsValue signed_headers
      → header_value req (codes "x-amz-date") ≡ some amz_date
      → header_value req (codes "Authorization")
        ≡ some (
            authorization_of
              (credential_of creds.access_key date region (codes "s3"))
              signed_headers
              (expected_signature crypto req creds.secret_key
                (draft req creds date region signed_headers amz_date)
                false))
      → (draft req creds date region signed_headers amz_date).payload_hash
        ≢ codes "STREAMING-AWS4-HMAC-SHA256-PAYLOAD"
      → verify_sigv4 crypto req sigv4_mode creds ≡ ok
  verify_sigv4-authorization_of req creds date region signed_headers amz_date k d r h at_date field
        plain =
      let scope = draft req creds date region signed_headers amz_date in
      let signature = expected_signature crypto req creds.secret_key scope false in
      (verify_sigv4_iff crypto req creds).1 (
        by_header (record scope { signature = signature })
          (parse-signed req creds date region signed_headers amz_date signature k d r h
            (expected_signature-IsValue req creds.secret_key scope) field at_date)
          plain
          (record {
            service = draft-service req creds date region signed_headers amz_date;
            key = draft-key req creds date region signed_headers amz_date;
            signature =
                sym (
                  expected_signature-signature_of crypto req creds.secret_key
                    (record scope { signature = signature }) false)
                ∙ expected-signature req creds.secret_key scope signature;
          }))
