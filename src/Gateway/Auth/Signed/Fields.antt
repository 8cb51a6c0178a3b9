-- ===== src/Gateway/Auth/Signed/Fields.antt =====
-- The field Authorization as clients of S3 write it, and its reading.
use prompt_cache_storage.Prelude.{
  ◌≡◌, ◌≢◌, refl, ap, ◌∙◌, false, some, List, [], ◌∷◌, ◌++◌, Bytes, codes, All-append, map, arith,
  beq,
}
use prompt_cache_storage.Prelude.Text.{
  Lacks, strip_prefix, strip_prefix-append, break_on-append, split_on, split_on-append,
  split_on-Lacks,
}
use prompt_cache_storage.Prelude.Assoc.{Assoc, lookup, insert, bytes_key}
use prompt_cache_storage.Gateway.Http.{to_lower}
use prompt_cache_storage.Gateway.Util.Whitespace.{
  is_space, NoSpace, trim_start, trim_end, trim_start-NoSpace, trim_end-NoSpace,
}
use prompt_cache_storage.Gateway.Auth.Parse.{collect, make_scope, parse_fields}

-- `key/date/region/service/aws4_request`
unfoldable pub credential_of : Bytes → Bytes → Bytes → Bytes → Bytes
credential_of key date region service =
    key ++ b'/' ∷ (date ++ b'/' ∷ (region ++ b'/' ∷ (service ++ b'/' ∷ codes "aws4_request")))

unfoldable pub authorization_of : Bytes → Bytes → Bytes → Bytes
authorization_of credential signed_headers signature =
    codes "AWS4-HMAC-SHA256 Credential="
    ++ (credential
        ++ (codes ", SignedHeaders=" ++ (signed_headers ++ (codes ", Signature=" ++ signature))))

-- A value that may stand between commas.
abbrev pub IsValue : Bytes → Type 0
IsValue s = Lacks b',' s × NoSpace s

entry : Bytes → Bytes → Bytes
entry name value = name ++ b'=' ∷ value

entry-NoSpace : (name value : Bytes) → NoSpace name → NoSpace value → NoSpace (entry name value)
unfolding entry is_space
entry-NoSpace name value h k = All-append (λ c. is_space c ≡ false) name _ h (refl, k)

entry-Lacks :
    (name value : Bytes) → Lacks b',' name → Lacks b',' value → Lacks b',' (entry name value)
unfolding entry
entry-Lacks name value h k = All-append (λ c. c ≢ b',') name _ h (omega arith, k)

trim-entry : (s : Bytes) → NoSpace s → trim_end (trim_start s) ≡ s
trim-entry s h = rw (trim_start-NoSpace s h) (trim_end-NoSpace s h)

trim-space : (s : Bytes) → NoSpace s → trim_end (trim_start (32 ∷ s)) ≡ s
unfolding trim_start is_space
trim-space s h = trim-entry s h

-- One round of `collect`.
collect-entry :
    (piece name value : Bytes) (pieces : List Bytes) (kv : Assoc Bytes Bytes)
    → trim_end (trim_start piece) ≡ entry name value
    → Lacks b'=' name
    → collect (piece ∷ pieces) kv ≡ collect pieces (insert name value kv)
unfolding collect entry
collect-entry piece name value pieces kv trimmed h = rw (trimmed, break_on-append b'=' name value h)

collect-nil : (kv : Assoc Bytes Bytes) → collect [] kv ≡ kv
unfolding collect
collect-nil kv = refl

names : NoSpace (codes "Credential") × NoSpace (codes "SignedHeaders") × NoSpace (codes "Signature")
unfolding is_space
names = ground arith

module _ (credential signed_headers signature : Bytes) where
  abbrev first : Bytes
  first = entry (codes "Credential") credential

  abbrev second : Bytes
  second = entry (codes "SignedHeaders") signed_headers

  abbrev third : Bytes
  third = entry (codes "Signature") signature

  module _ (c : IsValue credential) (h : IsValue signed_headers) (s : IsValue signature) where
    pieces :
        split_on b',' (first ++ b',' ∷ (32 ∷ (second ++ b',' ∷ (32 ∷ third))))
        ≡ first ∷ (32 ∷ second) ∷ (32 ∷ third) ∷ []
    pieces =
        split_on-append b',' first (32 ∷ (second ++ b',' ∷ (32 ∷ third)))
          (entry-Lacks (codes "Credential") credential (omega arith) c.0)
        ∙ ap (λ t. first ∷ t)
            (split_on-append b',' (32 ∷ second) (32 ∷ third)
                (omega arith, entry-Lacks (codes "SignedHeaders") signed_headers (omega arith) h.0)
              ∙ ap (λ t. (32 ∷ second) ∷ t)
                  (split_on-Lacks b',' (32 ∷ third)
                    (omega arith, entry-Lacks (codes "Signature") signature (omega arith) s.0)))

    collected :
        collect (first ∷ (32 ∷ second) ∷ (32 ∷ third) ∷ []) []
        ≡ insert (codes "Signature") signature (
            insert
              (codes "SignedHeaders")
              signed_headers
              (insert (codes "Credential") credential []))
    collected =
        collect-entry first (codes "Credential") credential _ []
          (trim-entry first (entry-NoSpace (codes "Credential") credential names.0 c.1))
          (omega arith)
        ∙ collect-entry (32 ∷ second) (codes "SignedHeaders") signed_headers _ _
            (trim-space second (entry-NoSpace (codes "SignedHeaders") signed_headers names.1 h.1))
            (omega arith)
        ∙ collect-entry (32 ∷ third) (codes "Signature") signature [] _
            (trim-space third (entry-NoSpace (codes "Signature") signature names.2 s.1))
            (omega arith)
        ∙ collect-nil _

    stripped :
        strip_prefix
          (codes "AWS4-HMAC-SHA256")
          (authorization_of credential signed_headers signature)
        ≡ some (32 ∷ (first ++ b',' ∷ (32 ∷ (second ++ b',' ∷ (32 ∷ third)))))
    unfolding authorization_of entry
    stripped =
        strip_prefix-append (codes "AWS4-HMAC-SHA256")
          (32 ∷ (first ++ b',' ∷ (32 ∷ (second ++ b',' ∷ (32 ∷ third)))))

    trimmed :
        trim_start (32 ∷ (first ++ b',' ∷ (32 ∷ (second ++ b',' ∷ (32 ∷ third)))))
        ≡ first ++ b',' ∷ (32 ∷ (second ++ b',' ∷ (32 ∷ third)))
    unfolding trim_start is_space entry
    trimmed = refl

    -- What a client writes is read back.
    pub parse_fields-authorization_of :
        parse_fields (authorization_of credential signed_headers signature)
        ≡ some (credential, signed_headers, signature)
    unfolding parse_fields insert lookup beq
    parse_fields-authorization_of = rw (stripped, trimmed, pieces, collected)

module _ (key date region service : Bytes) (k : Lacks b'/' key) (d : Lacks b'/' date)
    (r : Lacks b'/' region) (s : Lacks b'/' service) where
  split-credential_of :
      split_on b'/' (credential_of key date region service)
      ≡ key ∷ date ∷ region ∷ service ∷ codes "aws4_request" ∷ []
  unfolding credential_of
  split-credential_of = rw (
    split_on-append b'/' key _ k,
    split_on-append b'/' date _ d,
    split_on-append b'/' region _ r,
    split_on-append b'/' service _ s,
    split_on-Lacks b'/' (codes "aws4_request") (omega arith),
  )

  pub make_scope-credential_of :
      (signed_headers signature amz_date payload_hash : Bytes)
      → make_scope
          (credential_of key date region service)
          signed_headers
          signature
          amz_date
          payload_hash
        ≡ some (record {
          access_key = key;
          date = date;
          region = region;
          service = service;
          signed_headers_list = map to_lower (split_on b';' signed_headers);
          signature = signature;
          amz_date = amz_date;
          payload_hash = payload_hash;
        })
  unfolding make_scope
  make_scope-credential_of signed_headers signature amz_date payload_hash = rw split-credential_of
