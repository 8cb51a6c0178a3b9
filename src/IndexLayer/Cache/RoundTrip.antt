-- ===== src/IndexLayer/Cache/RoundTrip.antt =====
-- `Lookup` after `Store`.
use prompt_cache_storage.Prelude.{
  ℕ, zero, suc, ◌+◌, ◌*◌, ◌≤◌, ◌<◌, ℤ, pos, ◌≡◌, ◌⊎◌, refl, sym, ap, subst, Bool, true, Option,
  none, some, List, Bytes, arith, inl, inr, length, ◌∙◌,
}
use native.Mathlib.Decide.{dec_le}
use prompt_cache_storage.Prelude.Int.{to_ℕ}
use prompt_cache_storage.Prelude.Assoc.{nat_key, bytes_key}
use prompt_cache_storage.IndexLayer.Run.{done}
use prompt_cache_storage.IndexLayer.Hash.{hash_bytes_hex}
use prompt_cache_storage.IndexLayer.Storage.{Storage}
use prompt_cache_storage.IndexLayer.Cache.{
  PrefixEntry, PrefixMap, LookupResult, Double, int_limit, store, submit, look_up,
}
use prompt_cache_storage.IndexLayer.Cache.Usable.Least.{IsUsable}
use prompt_cache_storage.IndexLayer.Cache.Loops.{entry_at, IsLongest}
use prompt_cache_storage.IndexLayer.Cache.Lookup.{
  search_bound, search_bound-le, answer, look_up-IsLongest,
}
use prompt_cache_storage.IndexLayer.Cache.Stored.{new_entry, IsStored, store-IsStored}

some-ne-none {ℓ} : {A : Type ℓ} {x : A} {o : Option A} → o ≡ some x → o ≡ none → ⊥
some-ne-none p q = cc

some-eq {ℓ} : {A : Type ℓ} {x y : A} {o : Option A} → o ≡ some x → o ≡ some y → y ≡ x
some-eq p q = cc

module _ (hasher : Bytes → ℕ) (double : Double) (tokens : List Bytes)
    (bytes obj_id owner_id : Bytes) (priority : ℤ) (now b fuel : ℕ) (c c' : PrefixMap) where
  covered_bound :
      (k bound : ℕ) (r : PrefixEntry × ℕ)
      → IsStored hasher double tokens bytes obj_id owner_id priority now b c c'
      → bound ≤ length tokens
      → IsLongest (entry_at hasher c'.prefix_map tokens) b bound k r
      → bound < k * b + b
  covered_bound k bound r stored le longest = elim (dec_le (k * b + b) bound) [
    | no h ↦ omega arith
    | yes h ↦
        let (u, range, there) = stored.indexed (suc k) (omega arith) (omega arith) in
        absurd (
          some-ne-none there (
            subst (λ n. entry_at hasher c'.prefix_map tokens n ≡ none) (omega arith)
              (longest.maximal h)))
  ]

  -- What a hit on the prefixes of the object says.
  abbrev IsHit : ℕ → LookupResult → Type 0
  IsHit bound r =
      (r.hit ≡ true)
      × (r.obj_id ≡ obj_id)
      × IsUsable r.usable_len_bytes (length bytes)
      × ((k : ℕ) × (r.prefix_tokens ≡ k * b) × (k * b ≤ bound) × (bound < k * b + b))

  nonzero_holds :
      (k : ℕ) (e : PrefixEntry)
      → (suc k ≡ 0) ⊎ (entry_at hasher c'.prefix_map tokens (suc k * b) ≡ some e)
      → entry_at hasher c'.prefix_map tokens (suc k * b) ≡ some e
  nonzero_holds k e (inl z) = absurd (omega arith)
  nonzero_holds k e (inr h) = h

  answer-IsHit :
      (k bound : ℕ) (e : PrefixEntry)
      → IsStored hasher double tokens bytes obj_id owner_id priority now b c c'
      → bound ≤ length tokens
      → b ≤ bound
      → IsLongest (entry_at hasher c'.prefix_map tokens) b bound k (e, k * b)
      → IsHit bound (answer b k e)
  answer-IsHit zero bound e stored le room longest =
      absurd (omega (arith, covered_bound zero bound (e, 0 * b) stored le longest))
  answer-IsHit (suc k) bound e stored le room longest =
      let (u, range, there) = stored.indexed (suc k) (omega arith) (omega (arith, longest.fits)) in
      let same : e ≡ record (new_entry c obj_id owner_id priority) { usable_len_bytes = u } =
        some-eq there (nonzero_holds k e longest.holds) in
      (
        refl,
        ap (λ (x : PrefixEntry). x.obj_id) same,
        subst (λ v. IsUsable v (length bytes))
            (sym (ap (λ (x : PrefixEntry). x.usable_len_bytes) same)) range,
        (suc k, refl, longest.fits, covered_bound (suc k) bound (e, suc k * b) stored le longest),
      )

  look_up-IsStored :
      (max_len : ℤ)
      → IsStored hasher double tokens bytes obj_id owner_id priority now b c c'
      → c.block_size ≡ pos b
      → 0 < b
      → length tokens + b < int_limit
      → length tokens < fuel
      → b ≤ search_bound max_len (length tokens)
      → (r : LookupResult) × (look_up hasher fuel c' tokens max_len ≡ done r)
        × IsHit (search_bound max_len (length tokens)) r
  look_up-IsStored max_len stored block positive small enough room =
      let (k, e, longest, run) =
        look_up-IsLongest hasher c' tokens max_len b fuel (stored.block_size ∙ block) positive small
          enough in
      (
        answer b k e,
        run,
        answer-IsHit k _ e stored (search_bound-le max_len (length tokens)) room longest,
      )

done-injective {ℓ} : {A : Type ℓ} {x y : A} → done x ≡ done y → x ≡ y
done-injective h = cc

-- Let the block size be positive, the token count with a block, the data size and the product of
-- tokens and bytes per token be less than 2^31, and the fuel be above the token count. After a
-- `Store` that the storage accepted, or whose write was skipped, a `Lookup` of the same tokens
-- with a bound of at least one block ends in a hit. It gives the id that `Store` returned, all
-- the whole blocks within the bound, and a usable length up to the size of the data, which is 0 only if there is no data. This
-- needs nothing of the hash.
pub look_up-store :
    (hasher : Bytes → ℕ) (double : Double) (s : Storage) (fuel now : ℕ) (tokens : List Bytes)
    (bytes obj_id owner_id : Bytes) (priority : ℤ) (skip_put : Bool) (c c' : PrefixMap)
    (st st' : s.State) (b : ℕ) (max_len : ℤ)
    → store hasher double s fuel now tokens bytes owner_id priority skip_put c st
      ≡ done (obj_id, c', st')
    → submit s skip_put (hash_bytes_hex hasher bytes) bytes st ≡ (true, st')
    → c.block_size ≡ pos b
    → 0 < b
    → length tokens + b < int_limit
    → length tokens * to_ℕ c.bytes_per_token < int_limit
    → length bytes < int_limit
    → length tokens < fuel
    → b ≤ search_bound max_len (length tokens)
    → (r : LookupResult) × (look_up hasher fuel c' tokens max_len ≡ done r)
      × (r.hit ≡ true)
      × (r.obj_id ≡ obj_id)
      × IsUsable r.usable_len_bytes (length bytes)
      × ((k : ℕ) × (r.prefix_tokens ≡ k * b)
          × (k * b ≤ search_bound max_len (length tokens))
          × (search_bound max_len (length tokens) < k * b + b))
look_up-store hasher double s fuel now tokens bytes obj_id owner_id priority skip_put c c' st st' b
      max_len run accepted block positive small exact fits enough room =
    let id = hash_bytes_hex hasher bytes in
    let (c₁, run₁, stored) =
      store-IsStored hasher double tokens bytes id owner_id priority now b fuel c block positive
        small exact fits enough s skip_put st st' refl accepted in
    let same = done-injective (sym run₁ ∙ run) in
    let (r, found, (hit, at_id, range, rest)) =
      look_up-IsStored hasher double tokens bytes id owner_id priority now b fuel c c₁ max_len
        stored block positive small enough room in
    (
      r,
      subst (λ (x : PrefixMap). look_up hasher fuel x tokens max_len ≡ done r)
          (ap (λ (x : Bytes × PrefixMap × s.State). x.1) same) found,
      hit,
      at_id ∙ ap (λ (x : Bytes × PrefixMap × s.State). x.0) same,
      range,
      rest,
    )
