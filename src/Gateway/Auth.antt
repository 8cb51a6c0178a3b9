-- ===== src/Gateway/Auth.antt =====
-- s3_rocksdb_gateway/src/sigv4.hpp and sigv4.cpp: the check of AWS Signature Version 4. The digests of
-- OpenSSL are a parameter.
pub mod Digests
pub mod Parse
pub mod Canonical
pub mod Signature
pub mod Accepted
pub mod Signed
mod Tests
use prompt_cache_storage.Prelude.{
  ℕ, Bool, true, false, ◌&&◌, Option, none, some, List, [], ◌∷◌, ◌++◌, Bytes, codes, beq,
  if◌then◌else◌, map, length,
}
use prompt_cache_storage.Gateway.Http.{Request}
use prompt_cache_storage.Gateway.Util.Hex.{constant_time_equal}
use prompt_cache_storage.Gateway.Auth.Digests.{Crypto}
use prompt_cache_storage.Gateway.Auth.Parse.{Scope, parse_authorization_sigv4, parse_presigned}
use prompt_cache_storage.Gateway.Auth.Canonical.{expected_signature}

pub record Credentials : Type 0 where
  pub access_key : Bytes
  pub secret_key : Bytes

pub data Mode : Type 0 where
  none_mode sigv4_mode : Mode

pub data Result : Type 0 where
  ok : Result
  fail : Bytes → Bytes → Result

module _ (crypto : Crypto) where
  unfoldable pub verify_with_parts : Request → Credentials → Scope → Bool → Result
  verify_with_parts req creds scope presigned =
      if beq scope.service (codes "s3")
      then if beq scope.access_key creds.access_key
        then if constant_time_equal (expected_signature crypto req creds.secret_key scope presigned)
            scope.signature
          then ok
          else fail (codes "SignatureDoesNotMatch") (
              codes
                "The request signature we calculated does not match the signature you provided.")
        else fail (codes "SignatureDoesNotMatch") (codes "Unknown access key")
      else fail (codes "InvalidRequest") (codes "Credential scope service must be s3")

  -- The two schemes, once it is known whether each parses.
  unfoldable pub verify_parsed : Request → Credentials → Option Scope → Option Scope → Result
  unfolding verify_with_parts
  verify_parsed req creds none none =
      fail (codes "AccessDenied") (codes "Missing or invalid authentication")
  verify_parsed req creds none (some scope) = verify_with_parts req creds scope true
  verify_parsed req creds (some scope) presigned =
      if beq scope.payload_hash (codes "STREAMING-AWS4-HMAC-SHA256-PAYLOAD")
      then fail (codes "NotImplemented")
          (codes "Streaming SigV4 payload signing is not implemented")
      else verify_with_parts req creds scope false

  unfoldable pub verify_sigv4 : Request → Mode → Credentials → Result
  unfolding verify_parsed
  verify_sigv4 req none_mode creds = ok
  verify_sigv4 req sigv4_mode creds =
      verify_parsed req creds (parse_authorization_sigv4 crypto req) (parse_presigned req)
