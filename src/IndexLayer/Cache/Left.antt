-- ===== src/IndexLayer/Cache/Left.antt =====
-- The storage after `Store`.
use prompt_cache_storage.Prelude.{ℕ, ℤ, Bool, true, false, List, Bytes, if◌then◌else◌}
use prompt_cache_storage.IndexLayer.Run.{Run, done, overflow, out_of_fuel, ◌>>=◌}
use prompt_cache_storage.IndexLayer.Hash.{hash_bytes_hex}
use prompt_cache_storage.IndexLayer.Storage.{Storage}
use prompt_cache_storage.IndexLayer.Cache.{PrefixMap, Double, store, submit, index_prefixes}

module _ (s : Storage) (Q : s.State → Type 0) where
  -- If `Store` ends, `Q` holds of the storage's state.
  abbrev pub Leaves : Run (Bytes × PrefixMap × s.State) → Type 0
  Leaves (done r) = Q r.2
  Leaves overflow = Unit {0}
  Leaves out_of_fuel = Unit {0}

  indexed-Leaves :
      (run : Run PrefixMap) (id : Bytes) (st : s.State)
      → Q st
      → Leaves (run >>= λ c'. done (id, c', st))
  indexed-Leaves (done c') id st h = h
  indexed-Leaves overflow id st h = tt
  indexed-Leaves out_of_fuel id st h = tt

  either-Leaves :
      (b : Bool) (x y : Run (Bytes × PrefixMap × s.State))
      → Leaves x
      → Leaves y
      → Leaves (if b then x else y)
  either-Leaves true x y hx hy = hx
  either-Leaves false x y hx hy = hy

  -- It is the state that the write left.
  pub store-Leaves :
      (hasher : Bytes → ℕ) (double : Double) (fuel now : ℕ) (tokens : List Bytes)
      (bytes owner_id : Bytes) (priority : ℤ) (skip_put : Bool) (c : PrefixMap) (st : s.State)
      → Q (submit s skip_put (hash_bytes_hex hasher bytes) bytes st).1
      → Leaves (store hasher double s fuel now tokens bytes owner_id priority skip_put c st)
  unfolding store
  store-Leaves hasher double fuel now tokens bytes owner_id priority skip_put c st h =
      either-Leaves (submit s skip_put (hash_bytes_hex hasher bytes) bytes st).0 _ _
        (indexed-Leaves
          (index_prefixes hasher double fuel now tokens bytes owner_id priority
            (hash_bytes_hex hasher bytes) c)
          (hash_bytes_hex hasher bytes) _ h)
        h
