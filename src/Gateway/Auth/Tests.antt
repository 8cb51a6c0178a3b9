-- ===== src/Gateway/Auth/Tests.antt =====
-- A request signed for the service s3, and one that is not signed.
use prompt_cache_storage.Prelude.{
  ◌≡◌, ◌≢◌, refl, [], ◌∷◌, some, Bytes, codes, arith, beq, true, false,
}
use prompt_cache_storage.Prelude.Text.{split_on}
use prompt_cache_storage.Gateway.Http.{Request, header_value, find_field, to_lower}
use prompt_cache_storage.Gateway.Util.Whitespace.{is_space}
use prompt_cache_storage.Gateway.Auth.{Credentials, ok, sigv4_mode, verify_sigv4}
use prompt_cache_storage.Gateway.Auth.Digests.{Crypto}
use prompt_cache_storage.Gateway.Auth.Canonical.{expected_signature}
use prompt_cache_storage.Gateway.Auth.Parse.{payload_hash_of}
use prompt_cache_storage.Gateway.Util.Hex.{hex_lower}
use prompt_cache_storage.Gateway.Auth.Accepted.{verify_sigv4-body}
use prompt_cache_storage.Gateway.Auth.Signed.{draft, IsPart, verify_sigv4-authorization_of}
use prompt_cache_storage.Gateway.Auth.Signed.Fields.{authorization_of, credential_of, IsValue}

-- Digests that compute.
abbrev plain_crypto : Crypto
plain_crypto = record { sha256 = λ s. s; hmac_sha256 = λ key text. text }

abbrev keys : Credentials
keys = record { access_key = codes "AK"; secret_key = codes "S" }

abbrev names : Bytes
names = codes "host"

abbrev request_with : Bytes → Request
request_with signature = record {
  method = codes "GET";
  target = codes "/cache/2ac4";
  version = 11;
  keep_alive = true;
  headers =
      (codes "Host", codes "h")
      ∷ (codes "X-Amz-Date", codes "T")
      ∷ (
        codes "Authorization",
        authorization_of (credential_of (codes "AK") (codes "D") (codes "R") (codes "s3")) names
            signature,
      )
      ∷ [];
  body = [];
}

abbrev signed : Request
signed = request_with (
    expected_signature plain_crypto (request_with []) (codes "S")
      (draft plain_crypto (request_with []) keys (codes "D") (codes "R") names (codes "T")) false)

IsPart-key : IsPart (codes "AK")
unfolding is_space
IsPart-key = ground arith

IsPart-date : IsPart (codes "D")
unfolding is_space
IsPart-date = ground arith

IsPart-region : IsPart (codes "R")
unfolding is_space
IsPart-region = ground arith

IsValue-names : IsValue names
unfolding is_space
IsValue-names = ground arith

dated : header_value signed (codes "x-amz-date") ≡ some (codes "T")
unfolding header_value find_field to_lower beq
dated = refl

carries :
    header_value signed (codes "Authorization")
    ≡ some (
        authorization_of (credential_of (codes "AK") (codes "D") (codes "R") (codes "s3")) names (
          expected_signature plain_crypto signed
            (codes "S")
            (draft plain_crypto signed keys (codes "D") (codes "R") names (codes "T"))
            false))
unfolding header_value find_field to_lower beq expected_signature draft hex_lower authorization_of
    credential_of split_on payload_hash_of
carries = refl

not_streaming :
    (draft plain_crypto signed keys (codes "D") (codes "R") names (codes "T")).payload_hash
    ≢ codes "STREAMING-AWS4-HMAC-SHA256-PAYLOAD"
unfolding draft header_value find_field to_lower beq payload_hash_of hex_lower
not_streaming e = cc

verify_sigv4-authorization_of_example : verify_sigv4 plain_crypto signed sigv4_mode keys ≡ ok
verify_sigv4-authorization_of_example =
    verify_sigv4-authorization_of plain_crypto signed keys (codes "D") (codes "R") names (codes "T")
      IsPart-key IsPart-date IsPart-region IsValue-names dated carries not_streaming

abbrev with_digest : Request
with_digest = record signed {
  headers = (codes "x-amz-content-sha256", codes "00") ∷ signed.headers;
}

digest_of : header_value with_digest (codes "x-amz-content-sha256") ≡ some (codes "00")
unfolding header_value find_field to_lower beq
digest_of = refl

verify_sigv4-body_example :
    verify_sigv4 plain_crypto (record with_digest { body = codes "other" }) sigv4_mode keys
    ≡ verify_sigv4 plain_crypto with_digest sigv4_mode keys
verify_sigv4-body_example =
    verify_sigv4-body plain_crypto with_digest sigv4_mode keys (codes "other") (codes "00")
      digest_of
