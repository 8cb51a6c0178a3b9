-- ===== src/Gateway/Storage/Keys.antt =====
-- The keys under which buckets, metadata and data stand in RocksDB.
pub mod Laws
use prompt_cache_storage.Prelude.{
  ℕ, zero, Bool, true, false, List, [], ◌∷◌, ◌++◌, Bytes, ◌==◌, ◌||◌,
}

unfoldable pub contains_nul : Bytes → Bool
contains_nul [] = false
contains_nul (c ∷ s) = (c == 0) || contains_nul s

unfoldable pub bucket_key : Bytes → Bytes
bucket_key bucket = b'B' ∷ 0 ∷ bucket

unfoldable pub meta_prefix : Bytes → Bytes
meta_prefix bucket = b'M' ∷ 0 ∷ (bucket ++ 0 ∷ [])

unfoldable pub meta_key : Bytes → Bytes → Bytes
meta_key bucket key = meta_prefix bucket ++ key

unfoldable pub data_key : Bytes → Bytes → Bytes
data_key bucket key = b'D' ∷ 0 ∷ (bucket ++ 0 ∷ key)
