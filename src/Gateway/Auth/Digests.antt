-- ===== src/Gateway/Auth/Digests.antt =====
-- The digests of OpenSSL behind `util::sha256_bin` and `util::hmac_sha256`.
use prompt_cache_storage.Prelude.{Bytes}

pub record Crypto : Type 0 where
  pub sha256 : Bytes → Bytes
  -- the key, then the data
  pub hmac_sha256 : Bytes → Bytes → Bytes
