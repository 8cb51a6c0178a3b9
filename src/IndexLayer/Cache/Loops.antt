-- ===== src/IndexLayer/Cache/Loops.antt =====
-- The loop of `Lookup`: it ends, at the last of the consecutive prefixes that the map holds.
use prompt_cache_storage.Prelude.{
  ℕ, zero, suc, ◌+◌, ◌*◌, ◌≤◌, ◌<◌, pos, ◌≡◌, refl, sym, subst, ◌⊎◌, Option, none, some, List,
  Bytes, arith, leb, lt→ltb, leb→le, le→leb, ◌∙◌, inl, inr, Bool-cases, Option-cases,
}
use mathlib.Core.Bool.{false≢true}
use native.Mathlib.Decide.{dec_le}
use prompt_cache_storage.Prelude.Assoc.{Assoc, lookup, nat_key}
use prompt_cache_storage.IndexLayer.Run.{done}
use prompt_cache_storage.IndexLayer.Hash.{hash_tokens}
use prompt_cache_storage.IndexLayer.Cache.{PrefixEntry, add_int, int_limit, lookup_loop, no_entry}

pub add_int_fits : (a b : ℕ) → a + b < int_limit → add_int a b ≡ done (a + b)
unfolding add_int
add_int_fits a b h = rw (lt→ltb (a + b) int_limit h)

-- The entry that a map holds for the first `n` tokens.
abbrev pub entry_at : (Bytes → ℕ) → Assoc ℕ PrefixEntry → List Bytes → ℕ → Option PrefixEntry
entry_at hasher prefixes tokens n = lookup (hash_tokens hasher tokens n) prefixes

-- Every prefix of one to `k` blocks has an entry.
abbrev pub IsCovered : (ℕ → Option PrefixEntry) → ℕ → ℕ → Type 0
IsCovered entry b k = (j : ℕ) → 1 ≤ j → j ≤ k → (e : PrefixEntry) × (entry (j * b) ≡ some e)

-- `k` blocks are the longest covered prefix of at most `bound` tokens, and `r` is its entry with
-- its length.
pub record IsLongest (entry : ℕ → Option PrefixEntry) (b bound k : ℕ) (r : PrefixEntry × ℕ)
    : Type 0 where
  pub tokens : r.1 ≡ k * b
  pub fits : k * b ≤ bound
  pub covered : IsCovered entry b k
  pub holds : (k ≡ 0) ⊎ (entry (k * b) ≡ some r.0)
  pub maximal : k * b + b ≤ bound → entry (k * b + b) ≡ none

pub IsCovered-suc :
    (entry : ℕ → Option PrefixEntry) (b k : ℕ) {e : PrefixEntry}
    → IsCovered entry b k
    → entry (k * b + b) ≡ some e
    → IsCovered entry b (suc k)
IsCovered-suc entry b k {e} c h j lo hi = elim (dec_le j k) [
  | yes p ↦ c j lo p
  | no p ↦
      let q : j ≡ suc k = omega arith in (e, subst (λ n. entry n ≡ some e) (rw q (omega arith)) h)
]

module _ (hasher : Bytes → ℕ) (prefixes : Assoc ℕ PrefixEntry) (tokens : List Bytes) (b bound : ℕ)
    (positive : 0 < b) (small : bound + b < int_limit) where
  abbrev entry : ℕ → Option PrefixEntry
  entry = entry_at hasher prefixes tokens

  pub lookup_loop-IsLongest :
      (fuel k p : ℕ) (e : PrefixEntry)
      → p ≡ k * b + b
      → bound < fuel + k * b
      → k * b ≤ bound
      → IsCovered entry b k
      → (k ≡ 0) ⊎ (entry (k * b) ≡ some e)
      → (r : PrefixEntry × ℕ) × (lookup_loop hasher prefixes tokens b (pos bound) fuel p e (k * b)
          ≡ done r)
        × ((j : ℕ) × IsLongest entry b bound j r)
  unfolding lookup_loop
  lookup_loop-IsLongest zero k p e at enough fits c h = absurd (omega arith)
  lookup_loop-IsLongest (suc fuel) k p e at enough fits c h = elim (Bool-cases (leb p bound)) [
    | inr past ↦
        let stop : k * b + b ≤ bound → ⊥ =
          λ le. false≢true (sym past ∙ le→leb p bound (omega arith)) in
        (
          (e, k * b),
          rw (past, lookup_loop),
          (
            k,
            record {
              tokens = refl;
              fits = fits;
              covered = c;
              holds = h;
              maximal = λ le. absurd (stop le);
            },
          ),
        )
    | inl within ↦ elim (Option-cases (entry p)) [
      | inl missing ↦ (
        (e, k * b),
        rw (within, lookup_loop, missing),
        (
          k,
          record {
            tokens = refl;
            fits = fits;
            covered = c;
            holds = h;
            maximal = λ _. rw (← at) missing;
          },
        ),
      )
      | inr (e', there) ↦
          let here : entry (k * b + b) ≡ some e' = rw (← at) there in
          let (r, run, longest) =
            lookup_loop-IsLongest fuel (suc k) (p + b) e' (omega arith) (omega arith)
              (omega (arith, leb→le p bound within)) (IsCovered-suc entry b k c here)
              (inr (subst (λ n. entry n ≡ some e') (omega arith) there)) in
          (
            r,
            rw (within, lookup_loop, there, add_int_fits p b (omega (arith, leb→le p bound within)))
                (subst
                  (λ q. lookup_loop hasher prefixes tokens b (pos bound) fuel (p + b) e' q ≡ done r)
                  (omega arith) run),
            longest,
          )
    ]
  ]

  pub lookup_loop_from_start :
      (fuel : ℕ)
      → bound < fuel
      → (r : PrefixEntry × ℕ) × (lookup_loop hasher prefixes tokens b (pos bound) fuel b no_entry 0
          ≡ done r)
        × ((k : ℕ) × IsLongest entry b bound k r)
  lookup_loop_from_start fuel enough =
      let (r, run, longest) =
        lookup_loop-IsLongest fuel 0 b no_entry (omega arith) (omega arith) (omega arith)
          (λ j lo hi. absurd (omega arith)) (inl refl) in
      (
        r,
        subst (λ n. lookup_loop hasher prefixes tokens b (pos bound) fuel b no_entry n ≡ done r)
            (omega arith) run,
        longest,
      )
