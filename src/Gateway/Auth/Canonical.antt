-- ===== src/Gateway/Auth/Canonical.antt =====
-- The canonical request and its signature.
use prompt_cache_storage.Prelude.{
  Bool, true, false, none, some, List, [], ◌∷◌, ◌++◌, Bytes, codes, if◌then◌else◌,
}
use prompt_cache_storage.Gateway.Http.{Request, header_value}
use prompt_cache_storage.Gateway.Util.Hex.{hex_lower}
use prompt_cache_storage.Gateway.Util.Percent.{percent_encode}
use prompt_cache_storage.Gateway.Util.Query.{parse_query, canonical_query_string, decode_or_raw}
use prompt_cache_storage.Gateway.Util.Whitespace.{trim_and_collapse_ws}
use prompt_cache_storage.Gateway.Auth.Digests.{Crypto}
use prompt_cache_storage.Gateway.Auth.Parse.{Scope, parse_target}

unfoldable pub canonical_uri : Bytes → Bytes
canonical_uri path = percent_encode (decode_or_raw path) false

-- The lines of the canonical headers, and the names behind the first, each with a semicolon in
-- front; a signed header that the request lacks is left out of both.
unfoldable pub canonical_headers : Request → List Bytes → Bool → Bytes × Bytes
canonical_headers req [] first = ([], [])
canonical_headers req (name ∷ names) first = elim (header_value req name) [
  | none ↦ canonical_headers req names first
  | some value ↦
      let (lines, joined) = canonical_headers req names false in
      (
        name ++ (b':' ∷ (trim_and_collapse_ws value ++ (10 ∷ lines))),
        (if first then name else b';' ∷ name) ++ joined,
      )
]

unfoldable pub canonical_request : Request → Scope → Bool → Bytes
unfolding canonical_uri canonical_headers
canonical_request req scope presigned =
    let (path, query) = parse_target req.target in
    let excluded = if presigned then some (codes "X-Amz-Signature") else none in
    let (lines, joined) = canonical_headers req scope.signed_headers_list true in
    req.method
    ++ (10
        ∷ (canonical_uri path
            ++ (10
                ∷ (canonical_query_string (parse_query query) excluded
                    ++ (10 ∷ (lines ++ (10 ∷ (joined ++ (10 ∷ scope.payload_hash)))))))))

module _ (crypto : Crypto) where
  open crypto use {sha256, hmac_sha256}

  unfoldable pub derive_signing_key : Bytes → Bytes → Bytes → Bytes → Bytes
  derive_signing_key secret_key date region service =
      let k_date = hmac_sha256 (codes "AWS4" ++ secret_key) date in
      let k_region = hmac_sha256 k_date region in
      let k_service = hmac_sha256 k_region service in hmac_sha256 k_service (codes "aws4_request")

  unfoldable pub string_to_sign : Request → Scope → Bool → Bytes
  unfolding canonical_request
  string_to_sign req scope presigned =
      codes "AWS4-HMAC-SHA256\n"
      ++ (scope.amz_date
          ++ (10
              ∷ (scope.date
                  ++ (b'/'
                      ∷ (scope.region
                          ++ (b'/'
                              ∷ (scope.service
                                  ++ (codes "/aws4_request\n"
                                      ++ hex_lower
                                          (sha256 (canonical_request req scope presigned))))))))))

  -- The signature in hexadecimal digits.
  unfoldable pub expected_signature : Request → Bytes → Scope → Bool → Bytes
  unfolding derive_signing_key string_to_sign
  expected_signature req secret_key scope presigned = hex_lower (
      hmac_sha256 (derive_signing_key secret_key scope.date scope.region scope.service)
        (string_to_sign req scope presigned))
