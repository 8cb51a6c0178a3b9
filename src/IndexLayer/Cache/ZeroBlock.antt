-- ===== src/IndexLayer/Cache/ZeroBlock.antt =====
-- `Store` with a block size of 0.
use prompt_cache_storage.Prelude.{
  ℕ, zero, suc, ◌<◌, ℤ, pos, ◌≡◌, refl, Bool, true, List, Bytes, arith, le→leb, length,
  le→ltb_false,
}
use prompt_cache_storage.Prelude.Assoc.{Assoc, nat_key, bytes_key}
use prompt_cache_storage.IndexLayer.Run.{out_of_fuel}
use prompt_cache_storage.IndexLayer.Hash.{hash_bytes_hex}
use prompt_cache_storage.IndexLayer.Storage.{Storage}
use prompt_cache_storage.IndexLayer.Cache.{
  PrefixEntry, PrefixMap, Double, int_limit, store, index_prefixes, store_loop, submit,
}
use prompt_cache_storage.IndexLayer.Cache.Usable.{usable_bytes_total}
use prompt_cache_storage.IndexLayer.Cache.Loops.{add_int_fits}
use prompt_cache_storage.IndexLayer.Cache.Lookup.{to_int_fits, below_block_lem}

module _ (hasher : Bytes → ℕ) (double : Double) (rate : ℤ) (tokens : List Bytes) (size total : ℕ)
    (e : PrefixEntry) where
  store_loop_zero :
      (fuel : ℕ) (m : Assoc ℕ PrefixEntry)
      → store_loop hasher double rate (pos size) tokens (pos total) e 0 fuel 0 m ≡ out_of_fuel
  unfolding store_loop
  store_loop_zero zero m = refl
  store_loop_zero (suc fuel) m =
      let (u, computes) = usable_bytes_total double rate 0 (pos size) total (omega arith) in
      rw (le→leb 0 size (omega arith), store_loop, computes, add_int_fits 0 0 (omega arith))
        (store_loop_zero fuel _)

-- With a block size of 0, and token count and data size below 2^31, `Store` of an accepted object
-- never ends, however many rounds it has.
pub store_zero_block :
    (hasher : Bytes → ℕ) (double : Double) (s : Storage) (now : ℕ) (tokens : List Bytes)
    (bytes owner_id : Bytes) (priority : ℤ) (skip_put : Bool) (c : PrefixMap) (st st' : s.State)
    → submit s skip_put (hash_bytes_hex hasher bytes) bytes st ≡ (true, st')
    → c.block_size ≡ pos 0
    → length tokens < int_limit
    → length bytes < int_limit
    → (fuel : ℕ)
    → store hasher double s fuel now tokens bytes owner_id priority skip_put c st ≡ out_of_fuel
unfolding store index_prefixes
store_zero_block hasher double s now tokens bytes owner_id priority skip_put c st st' accepted block
      small fits fuel =
    rw (
      accepted,
      below_block_lem c tokens 0 block,
      le→ltb_false (length tokens) 0 (omega arith),
      block,
      to_int_fits (length tokens) small,
      to_int_fits (length bytes) fits,
      store_loop_zero hasher double c.bytes_per_token tokens (length tokens) (length bytes) _ fuel
          c.prefix_map,
    )
