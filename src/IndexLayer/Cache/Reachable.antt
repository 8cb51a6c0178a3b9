-- ===== src/IndexLayer/Cache/Reachable.antt =====
-- What `Lookup` finds in a map that was built and stored into.
use prompt_cache_storage.Prelude.{ℕ, ◌<◌, ℤ, ◌≡◌, Bool, true, some, List, Bytes, length}
use prompt_cache_storage.Prelude.Assoc.{Assoc, nat_key, bytes_key}
use prompt_cache_storage.IndexLayer.Run.{done}
use prompt_cache_storage.IndexLayer.Hash.{hash_bytes_hex}
use prompt_cache_storage.IndexLayer.Storage.{Storage}
use prompt_cache_storage.IndexLayer.Cache.{
  PrefixEntry, PrefixMap, LookupResult, Double, int_limit, construct, store,
}
use prompt_cache_storage.IndexLayer.Cache.Ends.{Ends}
use prompt_cache_storage.IndexLayer.Cache.Consistent.{Among}

module _ (hasher : Bytes → ℕ) where
  -- A hit, if it is one, is that of an entry with `P`.
  abbrev IsFound : (PrefixEntry → Type 0) → LookupResult → Type 0
  IsFound P r =
      r.hit ≡ true
      → (e : PrefixEntry) × P e × (r.obj_id ≡ e.obj_id) × (r.usable_len_bytes ≡ e.usable_len_bytes)

  module _ (double : Double) (s : Storage) where
    -- The maps that the constructor and any calls of `Store` lead to, with data among `data_stored` that an
    -- `int` can size.
    pub data Reachable (data_stored : List Bytes) : PrefixMap → Type 0 where
      built :
          (block_size bytes_per_token : ℤ) {c : PrefixMap}
          → construct block_size bytes_per_token true ≡ some c
          → Reachable data_stored c
      stored :
          {c c' : PrefixMap} (fuel now : ℕ) (tokens : List Bytes) (bytes owner_id : Bytes)
          (priority : ℤ) (skip_put : Bool) (id : Bytes) (st st' : s.State)
          → Reachable data_stored c
          → Among bytes data_stored
          → length bytes < int_limit
          → store hasher double s fuel now tokens bytes owner_id priority skip_put c st
            ≡ done (id, c', st')
          → Reachable data_stored c'

    -- No two of the data have the same id and different sizes.
    abbrev pub AreApart : List Bytes → Type 0
    AreApart data_stored =
        (a b : Bytes)
        → Among a data_stored
        → Among b data_stored
        → hash_bytes_hex hasher a ≡ hash_bytes_hex hasher b
        → length a ≡ length b
