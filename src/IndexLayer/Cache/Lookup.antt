-- ===== src/IndexLayer/Cache/Lookup.antt =====
-- `Lookup` returns the longest run of blocks, from the start of the tokens, that the map holds.
use prompt_cache_storage.Prelude.{
  ℕ, zero, suc, ◌+◌, ◌*◌, ◌≤◌, ◌<◌, ℤ, pos, negsuc, ◌≡◌, refl, ap, true, false, List, Bytes, arith,
  ltb, ltb→lt, inl, inr, Bool-cases, if◌then◌else◌, ◌==◌, length, ◌∙◌,
}
use native.Mathlib.Nat.{le-add_right}
use prompt_cache_storage.IndexLayer.Run.{done}
use prompt_cache_storage.IndexLayer.Cache.{
  PrefixEntry, PrefixMap, LookupResult, miss, int_limit, look_up, effective_max, to_int,
  below_block, no_entry, found,
}
use prompt_cache_storage.IndexLayer.Cache.Loops.{IsLongest, entry_at, lookup_loop_from_start}

-- The tokens that a lookup may use: `max_len_tokens`, if it is positive and not above the size.
abbrev pub search_bound : ℤ → ℕ → ℕ
search_bound (pos zero) size = size
search_bound (pos (suc m)) size = if ltb size (suc m) then size else suc m
search_bound (negsuc m) size = size

pub search_bound-le : (max_len : ℤ) (size : ℕ) → search_bound max_len size ≤ size
search_bound-le (pos zero) size = omega arith
search_bound-le (pos (suc m)) size = ground arith
search_bound-le (negsuc m) size = omega arith

pub to_int_fits : (n : ℕ) → n < int_limit → to_int n ≡ pos n
unfolding to_int
to_int_fits n h = ground arith

pub effective_max_lem :
    (max_len : ℤ) (size : ℕ)
    → size < int_limit
    → effective_max max_len size ≡ pos (search_bound max_len size)
unfolding effective_max
effective_max_lem (pos zero) size h = to_int_fits size h
effective_max_lem (pos (suc m)) size h = rw (to_int_fits size h) (ground arith)
effective_max_lem (negsuc m) size h = to_int_fits size h

-- The answer for `k` blocks of `b` tokens whose entry is `e`.
abbrev pub answer : ℕ → ℕ → PrefixEntry → LookupResult
answer b zero e = miss
answer b (suc k) e = record {
  hit = true;
  obj_id = e.obj_id;
  usable_len_bytes = e.usable_len_bytes;
  prefix_tokens = suc k * b;
}

nonzero : (n : ℕ) → 0 < n → (n == 0) ≡ false
nonzero n h = ground arith

pub found-answer : (b k : ℕ) (e : PrefixEntry) → 0 < b → found (e, k * b) ≡ answer b k e
unfolding found
found-answer b zero e h = ground arith
found-answer b (suc k) e h =
    let e0 : (suc k * b == 0) ≡ false =
      nonzero (suc k * b) (omega (arith, le-add_right b (k * b))) in
    rw e0

pub below_block_lem :
    (c : PrefixMap) (tokens : List Bytes) (b : ℕ)
    → c.block_size ≡ pos b
    → below_block c tokens ≡ ltb (length tokens) b
unfolding below_block
below_block_lem c tokens b e = rw e

-- With a positive block size and token counts that an `int` holds, `Lookup` ends within as many
-- rounds as there are tokens, and one more. It answers with the longest run of whole blocks, no
-- longer than the bound, all of whose prefixes have an entry, and with the entry of that run; it
-- answers with a miss exactly if the run is empty.
pub look_up-IsLongest :
    (hasher : Bytes → ℕ) (c : PrefixMap) (tokens : List Bytes) (max_len : ℤ) (b fuel : ℕ)
    → c.block_size ≡ pos b
    → 0 < b
    → length tokens + b < int_limit
    → length tokens < fuel
    → (k : ℕ) × (e : PrefixEntry) × IsLongest
        (entry_at hasher c.prefix_map tokens)
        b
        (search_bound max_len (length tokens))
        k
        (e, k * b)
      × (look_up hasher fuel c tokens max_len ≡ done (answer b k e))
unfolding look_up
look_up-IsLongest hasher c tokens max_len b fuel block positive small enough =
    elim (Bool-cases (ltb (length tokens) b)) [
      | inl short ↦ (
        0,
        no_entry,
        record {
          tokens = refl;
          fits = omega arith;
          covered = λ j lo hi. absurd (omega arith);
          holds = inl refl;
          maximal = λ le. absurd (
              omega
                (arith, search_bound-le max_len (length tokens), ltb→lt (length tokens) b short));
        },
        rw (below_block_lem c tokens b block, short),
      )
      | inr long ↦
          let bound = search_bound max_len (length tokens) in
          let le = search_bound-le max_len (length tokens) in
          let (r, run, (k, longest)) =
            lookup_loop_from_start hasher c.prefix_map tokens b bound positive (omega arith) fuel
              (omega arith) in
          (
            k,
            r.0,
            record {
              tokens = refl;
              fits = longest.fits;
              covered = longest.covered;
              holds = longest.holds;
              maximal = longest.maximal;
            },
            rw
                (
                  below_block_lem c tokens b block,
                  long,
                  block,
                  effective_max_lem max_len (length tokens) (omega arith),
                  run,
                )
                (ap done (ap (λ n. found (r.0, n)) longest.tokens ∙ found-answer b k r.0 positive)),
          )
    ]
