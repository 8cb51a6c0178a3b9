-- ===== src/Gateway/Auth/Signature.antt =====
-- The signature that AWS Signature Version 4 asks for, in the words of its description, and that the code of
-- sigv4.cpp computes it. As in the code, a signed header that the request lacks is left out.
use prompt_cache_storage.Prelude.{
  ℕ, ◌≡◌, refl, ap, Bool, true, false, none, some, Option-cases, inl, inr, List, [], ◌∷◌, ◌++◌,
  Bytes, codes, if◌then◌else◌, map,
}
use prompt_cache_storage.Gateway.Http.{Request, header_value}
use prompt_cache_storage.Gateway.Util.Hex.{hex_lower}
use prompt_cache_storage.Gateway.Util.Percent.{percent_encode}
use prompt_cache_storage.Gateway.Util.Query.{parse_query, canonical_query_string, decode_or_raw}
use prompt_cache_storage.Gateway.Util.Whitespace.{trim_and_collapse_ws}
use prompt_cache_storage.Gateway.Auth.Digests.{Crypto}
use prompt_cache_storage.Gateway.Auth.Parse.{Scope, parse_target}
use prompt_cache_storage.Gateway.Auth.Canonical.{
  canonical_uri, canonical_headers, canonical_request, derive_signing_key, string_to_sign,
  expected_signature,
}

-- The texts with `d` between them.
unfoldable pub join_with : ℕ → List Bytes → Bytes
join_with d [] = []
join_with d (s ∷ []) = s
join_with d (s ∷ t ∷ texts) = s ++ d ∷ join_with d (t ∷ texts)

-- The signed headers that the request has, in their order, with their values in canonical form.
unfoldable pub signed_headers : Request → List Bytes → List (Bytes × Bytes)
signed_headers req [] = []
signed_headers req (name ∷ names) = elim (header_value req name) [
  | none ↦ signed_headers req names
  | some value ↦ (name, trim_and_collapse_ws value) ∷ signed_headers req names
]

unfoldable pub header_lines : List (Bytes × Bytes) → Bytes
header_lines [] = []
header_lines ((name, value) ∷ headers) = name ++ b':' ∷ (value ++ 10 ∷ header_lines headers)

abbrev pub names_of : List (Bytes × Bytes) → List Bytes
names_of = map (λ h. h.0)

unfoldable pub request_text : Request → Scope → Bool → Bytes
request_text req scope presigned =
    let (path, query) = parse_target req.target in
    let headers = signed_headers req scope.signed_headers_list in
    let left_out = if presigned then some (codes "X-Amz-Signature") else none in
    join_with 10 (
      req.method
      ∷ percent_encode (decode_or_raw path) false
      ∷ canonical_query_string (parse_query query) left_out
      ∷ header_lines headers
      ∷ join_with b';' (names_of headers)
      ∷ scope.payload_hash
      ∷ [])

module _ (crypto : Crypto) where
  open crypto use {sha256, hmac_sha256}

  unfoldable pub text_to_sign : Request → Scope → Bool → Bytes
  text_to_sign req scope presigned = join_with 10 (
      codes "AWS4-HMAC-SHA256"
      ∷ scope.amz_date
      ∷ join_with b'/' (scope.date ∷ scope.region ∷ scope.service ∷ codes "aws4_request" ∷ [])
      ∷ hex_lower (sha256 (request_text req scope presigned))
      ∷ [])

  -- The digest of the text under the key of the day, the region and the service, in hexadecimal digits.
  unfoldable pub signature_of : Request → Bytes → Scope → Bool → Bytes
  signature_of req secret scope presigned =
      let day = hmac_sha256 (codes "AWS4" ++ secret) scope.date in
      let region = hmac_sha256 day scope.region in
      let service = hmac_sha256 region scope.service in
      hex_lower (
        hmac_sha256 (hmac_sha256 service (codes "aws4_request")) (text_to_sign req scope presigned))

-- The texts with `d` before each.
behind : ℕ → List Bytes → Bytes
behind d [] = []
behind d (s ∷ texts) = d ∷ (s ++ behind d texts)

join_behind :
    (d : ℕ) (s : Bytes) (texts : List Bytes) → s ++ behind d texts ≡ join_with d (s ∷ texts)
unfolding join_with behind
join_behind d s [] = append_nil s
  where
    append_nil : (s : Bytes) → s ++ [] ≡ s
    append_nil [] = refl
    append_nil (c ∷ s) = ap (λ r. c ∷ r) (append_nil s)
join_behind d s (t ∷ texts) = ap (λ r. s ++ d ∷ r) (join_behind d t texts)

rest_lem :
    (req : Request) (names : List Bytes)
    → canonical_headers req names false
      ≡ (header_lines (signed_headers req names), behind b';' (names_of (signed_headers req names)))
unfolding canonical_headers signed_headers header_lines behind
rest_lem req [] = refl
rest_lem req (name ∷ names) = elim (Option-cases (header_value req name)) [
  | inl e ↦ rw (canonical_headers, signed_headers, e) (rest_lem req names)
  | inr (value, e) ↦ rw (canonical_headers, signed_headers, e, rest_lem req names) refl
]

canonical_headers_lem :
    (req : Request) (names : List Bytes)
    → canonical_headers req names true ≡ (
      header_lines (signed_headers req names),
      join_with b';' (names_of (signed_headers req names)),
    )
unfolding canonical_headers signed_headers header_lines join_with
canonical_headers_lem req [] = refl
canonical_headers_lem req (name ∷ names) = elim (Option-cases (header_value req name)) [
  | inl e ↦ rw (canonical_headers, signed_headers, e) (canonical_headers_lem req names)
  | inr (value, e) ↦
      rw (canonical_headers, signed_headers, e, rest_lem req names)
        (ap
          (λ joined. (
            name
                ++ b':'
                  ∷ (trim_and_collapse_ws value ++ 10 ∷ header_lines (signed_headers req names)),
            joined,
          ))
          (join_behind b';' name (names_of (signed_headers req names))))
]

canonical_request-request_text :
    (req : Request) (scope : Scope) (presigned : Bool)
    → canonical_request req scope presigned ≡ request_text req scope presigned
unfolding canonical_request request_text join_with canonical_uri
canonical_request-request_text req scope presigned =
    rw (canonical_headers_lem req scope.signed_headers_list) refl

append_past : (a b t : Bytes) (c : ℕ) → (a ++ c ∷ b) ++ t ≡ a ++ c ∷ (b ++ t)
append_past [] b t c = refl
append_past (x ∷ a) b t c = ap (λ r. x ∷ r) (append_past a b t c)

module _ (crypto : Crypto) where
  string_to_sign-text_to_sign :
      (req : Request) (scope : Scope) (presigned : Bool)
      → string_to_sign crypto req scope presigned ≡ text_to_sign crypto req scope presigned
  unfolding string_to_sign text_to_sign join_with
  string_to_sign-text_to_sign req scope presigned =
      rw
        (
          canonical_request-request_text req scope presigned,
          append_past scope.date _ _ b'/',
          append_past scope.region _ _ b'/',
          append_past scope.service _ _ b'/',
        )
        refl

  -- The code computes this signature.
  pub expected_signature-signature_of :
      (req : Request) (secret : Bytes) (scope : Scope) (presigned : Bool)
      → expected_signature crypto req secret scope presigned
        ≡ signature_of crypto req secret scope presigned
  unfolding expected_signature signature_of derive_signing_key
  expected_signature-signature_of req secret scope presigned =
      rw (string_to_sign-text_to_sign req scope presigned) refl
