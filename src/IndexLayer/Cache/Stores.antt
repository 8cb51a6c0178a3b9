-- ===== src/IndexLayer/Cache/Stores.antt =====
-- The loop of `Store`: it gives every prefix of whole blocks an entry for the new object.
use prompt_cache_storage.Prelude.{
  ℕ, zero, suc, ◌+◌, ◌*◌, ◌≤◌, ◌<◌, ℤ, pos, ◌≡◌, ◌≢◌, refl, subst, Option, some, List, Bytes, arith,
  leb, leb→le, inl, inr, Bool-cases, ◌==◌, ◌∙◌,
}
use native.Mathlib.Nat.{mul-le-mul_right}
use native.Mathlib.Decide.{dec_le}
use prompt_cache_storage.Prelude.Int.{to_ℕ}
use prompt_cache_storage.Prelude.Assoc.{
  Assoc, lookup, insert, lookup-insert, lookup-insert_self, lookup-insert_ne, nat_key,
}
use prompt_cache_storage.IndexLayer.Run.{done}
use prompt_cache_storage.IndexLayer.Hash.{hash_tokens}
use prompt_cache_storage.IndexLayer.Cache.{PrefixEntry, Double, int_limit, store_loop}
use prompt_cache_storage.IndexLayer.Cache.Usable.{usable_bytes_total}
use prompt_cache_storage.IndexLayer.Cache.Usable.Least.{IsUsable, usable_bytes-IsUsable}
use prompt_cache_storage.IndexLayer.Cache.Loops.{add_int_fits, entry_at}

-- `o` is the entry `e` with a usable length up to `total`, not 0 unless `total` is.
abbrev pub IsEntryOf : PrefixEntry → ℕ → Option PrefixEntry → Type 0
IsEntryOf e total o = (u : ℤ) × IsUsable u total × (o ≡ some (record e { usable_len_bytes = u }))

-- Every prefix of one to `k` blocks has such an entry.
abbrev pub IsIndexed : PrefixEntry → ℕ → (ℕ → Option PrefixEntry) → ℕ → ℕ → Type 0
IsIndexed e total at b k = (j : ℕ) → 1 ≤ j → j ≤ k → IsEntryOf e total (at (j * b))

module _ (hasher : Bytes → ℕ) (tokens : List Bytes) (e : PrefixEntry) (total : ℕ) where
  IsEntryOf-insert :
      (m : Assoc ℕ PrefixEntry) (p n : ℕ) (u : ℤ)
      → IsUsable u total
      → IsEntryOf e total (entry_at hasher m tokens n)
      → IsEntryOf e total (
          entry_at hasher
            (insert (hash_tokens hasher tokens p) (record e { usable_len_bytes = u }) m)
            tokens
            n)
  IsEntryOf-insert m p n u r old =
      elim (Bool-cases (hash_tokens hasher tokens p == hash_tokens hasher tokens n)) [
        | inl same ↦ (u, r, rw (lookup-insert, same))
        | inr other ↦ (old.0, old.1, rw (lookup-insert, other) old.2)
      ]

  IsEntryOf-insert_self :
      (m : Assoc ℕ PrefixEntry) (p : ℕ) (u : ℤ)
      → IsUsable u total
      → IsEntryOf e total (
          entry_at hasher
            (insert (hash_tokens hasher tokens p) (record e { usable_len_bytes = u }) m)
            tokens
            p)
  IsEntryOf-insert_self m p u r = (u, r, lookup-insert_self (hash_tokens hasher tokens p) _ m)

  module _ (double : Double) (rate : ℤ) (b size : ℕ) (positive : 0 < b)
      (small : size + b < int_limit) (exact : size * to_ℕ rate < int_limit) where
    rate_fits : (p : ℕ) → p ≤ size → p * to_ℕ rate < int_limit
    rate_fits p h = grind arith

    le_of_not_le : {j k : ℕ} → ¬ (j ≤ k) → suc k ≤ j
    le_of_not_le h = omega arith

    blocks_below : (j k : ℕ) → j * b ≤ size → size < k * b + b → j ≤ k
    blocks_below j k le lt = elim (dec_le j k) [
      | yes h ↦ h
      | no h ↦ absurd (omega (arith, mul-le-mul_right b (le_of_not_le h)))
    ]

    IsIndexed-insert :
        (k p : ℕ) (m : Assoc ℕ PrefixEntry) (u : ℤ)
        → p ≡ k * b + b
        → IsUsable u total
        → IsIndexed e total (entry_at hasher m tokens) b k
        → IsIndexed e total
            (entry_at hasher
              (insert (hash_tokens hasher tokens p) (record e { usable_len_bytes = u }) m)
              tokens)
            b
            (suc k)
    IsIndexed-insert k p m u at r h j lo hi = elim (dec_le j k) [
      | yes le ↦ IsEntryOf-insert m p (j * b) u r (h j lo le)
      | no gt ↦
          let last : j ≡ suc k = omega arith in
          subst
            (λ n. IsEntryOf e total (
              entry_at hasher
                (insert (hash_tokens hasher tokens p) (record e { usable_len_bytes = u }) m) tokens
                n))
            (rw last (omega arith)) (IsEntryOf-insert_self m p u r)
    ]

    -- No prefix of whole blocks hashes to `key`.
    abbrev pub IsOther : ℕ → Type 0
    IsOther key = (j : ℕ) → 1 ≤ j → j * b ≤ size → hash_tokens hasher tokens (j * b) ≢ key

    -- What the loop makes of a map: an entry for every prefix, and no other change.
    pub record IsResult (m m' : Assoc ℕ PrefixEntry) : Type 0 where
      pub indexed :
          (j : ℕ) → 1 ≤ j → j * b ≤ size → IsEntryOf e total (entry_at hasher m' tokens (j * b))
      pub unchanged : (key : ℕ) → IsOther key → lookup key m' ≡ lookup key m

    -- From a map that holds the first `k` blocks the loop ends in one that holds all blocks.
    pub store_loop-IsIndexed :
        (fuel k p : ℕ) (m : Assoc ℕ PrefixEntry)
        → p ≡ k * b + b
        → size < fuel + k * b
        → k * b ≤ size
        → IsIndexed e total (entry_at hasher m tokens) b k
        → (m' : Assoc ℕ PrefixEntry) × (store_loop hasher double rate
              (pos size)
              tokens
              (pos total)
              e
              b
              fuel
              p
              m
            ≡ done m')
          × IsResult m m'
    unfolding store_loop
    store_loop-IsIndexed zero k p m at enough fits h = absurd (omega arith)
    store_loop-IsIndexed (suc fuel) k p m at enough fits h = elim (Bool-cases (leb p size)) [
      | inr past ↦ (
        m,
        rw (past, store_loop),
        record {
          indexed = λ j lo le. h j lo (blocks_below j k le (ground arith));
          unchanged = λ key other. refl;
        },
      )
      | inl within ↦
          let le = leb→le p size within in
          let (u, computes) = usable_bytes_total double rate p (pos size) total (rate_fits p le) in
          let r = usable_bytes-IsUsable double rate p size total (omega arith) le computes in
          let m₁ : Assoc ℕ PrefixEntry =
            insert (hash_tokens hasher tokens p) (record e { usable_len_bytes = u }) m in
          let (m', run, result) =
            store_loop-IsIndexed fuel (suc k) (p + b) m₁ (omega arith) (omega arith) (omega arith)
              (IsIndexed-insert k p m u at r h) in
          (
            m',
            rw (within, store_loop, computes, add_int_fits p b (omega arith)) run,
            record {
              indexed = result.indexed;
              unchanged = λ key other.
                  result.unchanged key other
                  ∙ lookup-insert_ne (hash_tokens hasher tokens p) key _ m (
                      subst (λ n. hash_tokens hasher tokens n ≢ key) (omega arith)
                        (other (suc k) (omega arith) (omega arith)));
            },
          )
    ]
