-- ===== src/IndexLayer/Cache/Stored.antt =====
-- `Store` as a whole.
use prompt_cache_storage.Prelude.{
  ℕ, ◌+◌, ◌*◌, ◌≤◌, ◌<◌, ℤ, pos, ◌≡◌, ◌≢◌, refl, Bool, true, List, Bytes, arith, ltb, ltb→lt, inl,
  inr, Bool-cases, length,
}
use native.Mathlib.Nat.{mul-le-mul_right}
use prompt_cache_storage.Prelude.Int.{to_ℕ}
use prompt_cache_storage.Prelude.Assoc.{Assoc, lookup, insert, nat_key, bytes_key}
use prompt_cache_storage.IndexLayer.Run.{done}
use prompt_cache_storage.IndexLayer.Hash.{hash_tokens, hash_bytes_hex}
use prompt_cache_storage.IndexLayer.Storage.{Storage}
use prompt_cache_storage.IndexLayer.Cache.{
  PrefixEntry, PrefixMap, Double, int_limit, store, index_prefixes, submit,
}
use prompt_cache_storage.IndexLayer.Cache.Loops.{entry_at}
use prompt_cache_storage.IndexLayer.Cache.Lookup.{to_int_fits, below_block_lem}
use prompt_cache_storage.IndexLayer.Cache.Stores.{IsEntryOf, store_loop-IsIndexed}

-- The entry of a new object, up to its usable length.
abbrev pub new_entry : PrefixMap → Bytes → Bytes → ℤ → PrefixEntry
new_entry c obj_id owner_id priority = record {
  obj_id = obj_id;
  usable_len_bytes = pos 0;
  version = c.version_clock + 1;
  owner_id = owner_id;
  priority = priority;
}

-- `c` with the object in its table and `prefixes` for its map.
abbrev with_object : ℕ → Bytes → Bytes → PrefixMap → Assoc ℕ PrefixEntry → PrefixMap
with_object now bytes obj_id c prefixes = record c {
  version_clock = c.version_clock + 1;
  prefix_map = prefixes;
  obj_table =
      insert obj_id
        (record { total_bytes = pos (length bytes); last_access = now; inflight_reads = 0 })
        c.obj_table;
}

module _ (hasher : Bytes → ℕ) (double : Double) where
  -- `c'` is `c` with the object and its prefixes.
  pub record IsStored (tokens : List Bytes) (bytes obj_id owner_id : Bytes) (priority : ℤ)
      (now b : ℕ) (c c' : PrefixMap) : Type 0 where
    pub block_size : c'.block_size ≡ c.block_size
    pub clock : c'.version_clock ≡ c.version_clock + 1
    pub objects :
        c'.obj_table
        ≡ insert obj_id
            (record { total_bytes = pos (length bytes); last_access = now; inflight_reads = 0 })
            c.obj_table
    pub indexed :
        (j : ℕ)
        → 1 ≤ j
        → j * b ≤ length tokens
        → IsEntryOf
            (new_entry c obj_id owner_id priority)
            (length bytes)
            (entry_at hasher c'.prefix_map tokens (j * b))
    pub unchanged :
        (key : ℕ)
        → ((j : ℕ) → 1 ≤ j → j * b ≤ length tokens → hash_tokens hasher tokens (j * b) ≢ key)
        → lookup key c'.prefix_map ≡ lookup key c.prefix_map

  module _ (tokens : List Bytes) (bytes obj_id owner_id : Bytes) (priority : ℤ) (now b fuel : ℕ)
      (c : PrefixMap) (block : c.block_size ≡ pos b) (positive : 0 < b)
      (small : length tokens + b < int_limit)
      (exact : length tokens * to_ℕ c.bytes_per_token < int_limit) (fits : length bytes < int_limit)
      (enough : length tokens < fuel) where
    index_prefixes-IsStored :
        (c' : PrefixMap) × (index_prefixes hasher double fuel now tokens bytes owner_id priority
            obj_id c
          ≡ done c')
        × IsStored tokens bytes obj_id owner_id priority now b c c'
    unfolding index_prefixes
    index_prefixes-IsStored = elim (Bool-cases (ltb (length tokens) b)) [
      | inl short ↦ (
        with_object now bytes obj_id c c.prefix_map,
        rw (below_block_lem c tokens b block, short, to_int_fits (length bytes) fits) refl,
        record {
          block_size = refl;
          clock = refl;
          objects = refl;
          indexed = λ j lo le.
              absurd (omega (arith, mul-le-mul_right b lo, ltb→lt (length tokens) b short));
          unchanged = λ key other. refl;
        },
      )
      | inr long ↦
          let (m', run, result) =
            store_loop-IsIndexed hasher tokens (new_entry c obj_id owner_id priority) (length bytes)
              double c.bytes_per_token b (length tokens) positive small exact fuel 0 b c.prefix_map
              (omega arith) (omega arith) (omega arith) (λ j lo hi. absurd (omega arith)) in
          (
            with_object now bytes obj_id c m',
            rw
                (
                  below_block_lem c tokens b block,
                  long,
                  block,
                  to_int_fits (length bytes) fits,
                  to_int_fits (length tokens) (omega arith),
                  run,
                )
                refl,
            record {
              block_size = refl;
              clock = refl;
              objects = refl;
              indexed = result.indexed;
              unchanged = result.unchanged;
            },
          )
    ]

    -- Let the block size be positive, the token count with a block, the data size and the product
    -- of tokens and bytes per token be less than 2^31, and the fuel be above the token count. If
    -- the object was accepted by the storage, or the write was skipped, `Store` ends, returns the
    -- hash of the data, counts up the version and records the object's size. Every prefix of
    -- whole blocks then has an entry with that hash, the new version, the owner, the priority and
    -- a usable length up to the size, 0 only for empty data; entries under other hashes stay.
    pub store-IsStored :
        (s : Storage) (skip_put : Bool) (st st' : s.State)
        → hash_bytes_hex hasher bytes ≡ obj_id
        → submit s skip_put obj_id bytes st ≡ (true, st')
        → (c' : PrefixMap) × (store hasher double s fuel now tokens bytes owner_id priority skip_put
              c st
            ≡ done (obj_id, c', st'))
          × IsStored tokens bytes obj_id owner_id priority now b c c'
    unfolding store
    store-IsStored s skip_put st st' id accepted =
        let (c', run, stored) = index_prefixes-IsStored in (c', rw (id, accepted, run) refl, stored)
