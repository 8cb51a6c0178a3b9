-- ===== src/IndexLayer/Cache/Consistent.antt =====
-- The invariant of `PrefixMap`: every entry is of an object in the table, with a usable length of its data.
use prompt_cache_storage.Prelude.{
  ℕ, zero, suc, ◌+◌, ◌<◌, ◌≤◌, ℤ, pos, ◌≡◌, ◌⊎◌, refl, sym, ◌∙◌, subst, Bool, true, inl, inr, some,
  List, [], ◌∷◌, Bytes, length, Bool-cases, arith, beq, beq_iff,
}
use prompt_cache_storage.Prelude.Int.{lebℤ, to_ℕ}
use prompt_cache_storage.Prelude.Assoc.{
  Assoc, lookup, insert, lookup-insert, lookup-insert_self, nat_key, bytes_key,
}
use prompt_cache_storage.IndexLayer.Hash.{hash_tokens, hash_bytes_hex}
use prompt_cache_storage.IndexLayer.Storage.{Storage}
use prompt_cache_storage.IndexLayer.Cache.{
  PrefixEntry, ObjectMeta, PrefixMap, Double, int_limit, construct, usable_bytes, add_int,
  store_loop, index_prefixes, store, submit, below_block, to_int,
}
use prompt_cache_storage.IndexLayer.Cache.Lookup.{to_int_fits}
use prompt_cache_storage.IndexLayer.Cache.Usable.{InRange, usable_bytes-InRange}
use prompt_cache_storage.IndexLayer.Cache.Ends.{
  Ends, bind-Ends, either-Ends, usable-Ends, any-Ends, AllHeld, insert-AllHeld,
}

pub pos-injective : {a b : ℕ} → pos a ≡ pos b → a ≡ b
pos-injective h = cc h

-- The entry is of an object in the table, and no newer than the clock says.
abbrev pub IsEntry : Assoc Bytes ObjectMeta → ℕ → PrefixEntry → Type 0
IsEntry table clock e =
    (meta : ObjectMeta) × (n : ℕ) × (lookup e.obj_id table ≡ some meta)
    × (meta.total_bytes ≡ pos n)
    × InRange e.usable_len_bytes n
    × (e.version ≤ clock)

abbrev pub Among : Bytes → List Bytes → Type 0
Among x [] = ⊥
Among x (y ∷ ys) = (x ≡ y) ⊎ Among x ys

abbrev empty_map : ℤ → ℤ → PrefixMap
empty_map block_size bytes_per_token = record {
  block_size = block_size;
  bytes_per_token = bytes_per_token;
  version_clock = 0;
  prefix_map = [];
  obj_table = [];
}

module _ (hasher : Bytes → ℕ) (data_stored : List Bytes) where
  -- The size is that of data with this id, which are among those that were stored.
  abbrev pub IsSized : Bytes → ObjectMeta → Type 0
  IsSized id meta =
      (bytes : Bytes) × Among bytes data_stored
      × (hash_bytes_hex hasher bytes ≡ id)
      × (meta.total_bytes ≡ pos (length bytes))

  pub record IsConsistent (c : PrefixMap) : Type 0 where
    pub entries : AllHeld (λ key e. IsEntry c.obj_table c.version_clock e) c.prefix_map
    pub objects : AllHeld IsSized c.obj_table

  empty_map-IsConsistent :
      (block_size bytes_per_token : ℤ) → IsConsistent (empty_map block_size bytes_per_token)
  unfolding lookup
  empty_map-IsConsistent block_size bytes_per_token = record {
    entries = λ key e at. cc at;
    objects = λ id meta at. cc at;
  }

  pub construct-IsConsistent :
      (block_size bytes_per_token : ℤ) (c : PrefixMap)
      → construct block_size bytes_per_token true ≡ some c
      → IsConsistent c
  unfolding construct
  construct-IsConsistent block_size bytes_per_token c h =
      let same : empty_map block_size bytes_per_token ≡ c = cc h in
      subst IsConsistent same (empty_map-IsConsistent block_size bytes_per_token)

  module _ (double : Double) where
    store_loop-AllHeld :
        (P : ℕ → PrefixEntry → Type 0) (rate size : ℤ) (tokens : List Bytes) (total : ℕ)
        (entry : PrefixEntry) (block fuel prefix_len : ℕ) (m : Assoc ℕ PrefixEntry)
        → ((key : ℕ) (u : ℤ) → InRange u total → P key (record entry { usable_len_bytes = u }))
        → AllHeld P m
        → Ends
            (AllHeld P)
            (store_loop hasher double rate size tokens (pos total) entry block fuel prefix_len m)
    unfolding store_loop
    store_loop-AllHeld P rate size tokens total entry block zero prefix_len m new h = tt
    store_loop-AllHeld P rate size tokens total entry block (suc fuel) prefix_len m new h =
        elim (Bool-cases (lebℤ (pos prefix_len) size)) [
          | inr past ↦ rw (past, store_loop) h
          | inl within ↦
              rw (within, store_loop)
                (bind-Ends (λ u. InRange u total) (AllHeld P)
                  (usable_bytes double rate prefix_len size (pos total)) _
                  (usable-Ends (usable_bytes double rate prefix_len size (pos total)) total
                    (λ u e. usable_bytes-InRange double rate prefix_len size total e))
                  (λ u range.
                    bind-Ends (λ n. Unit {0}) (AllHeld P) (add_int prefix_len block) _
                      (any-Ends (add_int prefix_len block))
                      (λ next _.
                        store_loop-AllHeld P rate size tokens total entry block fuel next _ new (
                          insert-AllHeld P (hash_tokens hasher tokens prefix_len) _ m
                            (new (hash_tokens hasher tokens prefix_len) u range) h))))
        ]

    module _ (c : PrefixMap) (bytes : Bytes) (now : ℕ) (is_stored : Among bytes data_stored)
        (same_size : (other : Bytes)
          → Among other data_stored
          → hash_bytes_hex hasher other ≡ hash_bytes_hex hasher bytes
          → length other ≡ length bytes) where
      abbrev id : Bytes
      id = hash_bytes_hex hasher bytes

      abbrev meta : ObjectMeta
      meta = record { total_bytes = pos (length bytes); last_access = now; inflight_reads = 0 }

      -- An entry of before is still one, also if its object has the same id.
      kept :
          IsConsistent c
          → (e : PrefixEntry) → IsEntry c.obj_table c.version_clock e
          → IsEntry (insert id meta c.obj_table) (c.version_clock + 1) e
      kept h e (old, n, at, total, range, older) = elim (Bool-cases (beq id e.obj_id)) [
        | inr other ↦ (
          old,
          n,
          rw (lookup-insert id e.obj_id meta c.obj_table, other) at,
          total,
          range,
          omega (arith, older),
        )
        | inl same ↦
            let at_id = (beq_iff id e.obj_id).0 same in
            let (known, among, has_id, size) = h.objects e.obj_id old at in
            let sizes : n ≡ length bytes =
              pos-injective (sym total ∙ size) ∙ same_size known among (has_id ∙ sym at_id) in
            (
              meta,
              length bytes,
              rw (lookup-insert id e.obj_id meta c.obj_table, same) refl,
              refl,
              subst (λ k. InRange e.usable_len_bytes k) sizes range,
              omega (arith, older),
            )
      ]

      new-IsEntry :
          (owner_id : Bytes) (priority u : ℤ)
          → InRange u (length bytes)
          → IsEntry (insert id meta c.obj_table) (c.version_clock + 1) (record {
            obj_id = id;
            usable_len_bytes = u;
            version = c.version_clock + 1;
            owner_id = owner_id;
            priority = priority;
          })
      new-IsEntry owner_id priority u range =
          (meta, length bytes, lookup-insert_self id meta c.obj_table, refl, range, omega arith)

      objects_kept : IsConsistent c → AllHeld IsSized (insert id meta c.obj_table)
      objects_kept h =
          insert-AllHeld IsSized id meta c.obj_table (bytes, is_stored, refl, refl) h.objects

      index_prefixes-IsConsistent :
          (fuel : ℕ) (tokens : List Bytes) (owner_id : Bytes) (priority : ℤ)
          → length bytes < int_limit
          → IsConsistent c
          → Ends IsConsistent
              (index_prefixes hasher double fuel now tokens bytes owner_id priority id c)
      unfolding index_prefixes
      index_prefixes-IsConsistent fuel tokens owner_id priority fits h =
          rw (to_int_fits (length bytes) fits) (
            either-Ends IsConsistent (below_block c tokens) _ _
              (record { entries = old; objects = objects_kept h })
              (bind-Ends (AllHeld P) IsConsistent
                (store_loop hasher double c.bytes_per_token (to_int (length tokens)) tokens
                  (pos (length bytes)) _ (to_ℕ c.block_size) fuel (to_ℕ c.block_size) c.prefix_map)
                _
                (store_loop-AllHeld P c.bytes_per_token (to_int (length tokens)) tokens
                  (length bytes) _ (to_ℕ c.block_size) fuel (to_ℕ c.block_size) c.prefix_map
                  (λ key u range. new-IsEntry owner_id priority u range) old)
                (λ m all. record { entries = all; objects = objects_kept h })))
        where
          P : ℕ → PrefixEntry → Type 0
          P key e = IsEntry (insert id meta c.obj_table) (c.version_clock + 1) e

          old : AllHeld P c.prefix_map
          old key e at = kept h e (h.entries key e at)

      pub store-IsConsistent :
          (s : Storage) (fuel : ℕ) (tokens : List Bytes) (owner_id : Bytes) (priority : ℤ)
          (skip_put : Bool) (st : s.State)
          → length bytes < int_limit
          → IsConsistent c
          → Ends
              (λ r. IsConsistent r.1)
              (store hasher double s fuel now tokens bytes owner_id priority skip_put c st)
      unfolding store
      store-IsConsistent s fuel tokens owner_id priority skip_put st fits h =
          either-Ends (λ r. IsConsistent r.1) (submit s skip_put id bytes st).0 _ _
            (bind-Ends IsConsistent (λ r. IsConsistent r.1)
              (index_prefixes hasher double fuel now tokens bytes owner_id priority id c) _
              (index_prefixes-IsConsistent fuel tokens owner_id priority fits h) (λ c' h'. h'))
            h
