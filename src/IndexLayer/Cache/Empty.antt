-- ===== src/IndexLayer/Cache/Empty.antt =====
-- `Lookup` in a map without entries.
use prompt_cache_storage.Prelude.{
  ℕ, suc, ℤ, pos, ◌≡◌, refl, [], List, Bytes, length, inl, inr, Bool-cases,
}
use prompt_cache_storage.Prelude.Int.{to_ℕ, lebℤ}
use prompt_cache_storage.Prelude.Assoc.{lookup, nat_key}
use prompt_cache_storage.IndexLayer.Run.{done}
use prompt_cache_storage.IndexLayer.Cache.{
  PrefixMap, PrefixEntry, look_up, lookup_loop, effective_max, below_block, found, miss, no_entry,
}

loop_empty :
    (hasher : Bytes → ℕ) (fuel block prefix_len : ℕ) (tokens : List Bytes) (max_len : ℤ)
    (e : PrefixEntry)
    → lookup_loop hasher [] tokens block max_len (suc fuel) prefix_len e 0 ≡ done (e, 0)
unfolding lookup_loop lookup
loop_empty hasher fuel block prefix_len tokens max_len e =
    elim (Bool-cases (lebℤ (pos prefix_len) max_len)) [
      | inl within ↦ rw (within, lookup_loop) refl
      | inr past ↦ rw (past, lookup_loop) refl
    ]

-- It ends in the first round, with a miss, whatever the block size is.
pub look_up_empty :
    (hasher : Bytes → ℕ) (fuel : ℕ) (c : PrefixMap) (tokens : List Bytes) (max_len : ℤ)
    → c.prefix_map ≡ []
    → look_up hasher (suc fuel) c tokens max_len ≡ done miss
unfolding look_up found
look_up_empty hasher fuel c tokens max_len h = elim (Bool-cases (below_block c tokens)) [
  | inl short ↦ rw short refl
  | inr long ↦
      rw
        (
          long,
          h,
          loop_empty hasher fuel (to_ℕ c.block_size) (to_ℕ c.block_size) tokens
              (effective_max max_len (length tokens)) no_entry,
        )
        refl
]
