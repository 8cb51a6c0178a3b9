-- ===== src/IndexLayer/Cache/Usable.antt =====
-- The bounds of `UsableBytes`.
pub mod Least
use prompt_cache_storage.Prelude.{
  ℕ, zero, suc, ◌*◌, ◌≤◌, ◌<◌, ℤ, pos, negsuc, ◌≡◌, refl, Bool, true, false, arith, ltb, subst,
  lt→ltb, inl, inr, Bool-cases, if◌then◌else◌,
}
use prompt_cache_storage.Prelude.Int.{to_ℕ}
use prompt_cache_storage.IndexLayer.Run.{done, ◌>>=◌}
use prompt_cache_storage.IndexLayer.Cache.{
  Double, usable_bytes, proportional, minℤ, mul_int, int_limit, clamp,
}

-- `0 ≤ a ≤ b` for an `int` and a size.
abbrev pub InRange : ℤ → ℕ → Type 0
InRange (pos n) b = n ≤ b
InRange (negsuc n) b = ⊥

minℤ-InRange : (a b : ℕ) → InRange (minℤ (pos a) (pos b)) b
unfolding minℤ
minℤ-InRange a b = ground arith

clamp-InRange : (a : ℤ) (b : ℕ) → InRange (clamp a (pos b)) b
unfolding clamp
clamp-InRange (pos a) b = ground arith
clamp-InRange (negsuc a) b = ground arith

done-InRange : (a : ℤ) (b : ℕ) {usable : ℤ} → InRange a b → done a ≡ done usable → InRange usable b
done-InRange a b r h = subst (λ u. InRange u b) (cc h) r

-- A positive `bytes_per_token` and no overflow.
fixed-InRange :
    (rate prefix_len b : ℕ) {usable : ℤ}
    → (mul_int prefix_len rate >>= λ bytes. done (minℤ (pos bytes) (pos b))) ≡ done usable
    → InRange usable b
unfolding mul_int
fixed-InRange rate prefix_len b h = elim (Bool-cases (ltb (prefix_len * rate) int_limit)) [
  | inl fits ↦ done-InRange _ b (minℤ-InRange (prefix_len * rate) b) (rw (fits, mul_int) at h)
  | inr large ↦ let q = rw (large, mul_int) at h in cc q
]

module _ (double : Double) where
  proportional-InRange :
      (prefix_len : ℕ) (total_tokens : ℤ) (b : ℕ)
      → InRange (proportional double prefix_len total_tokens (pos b)) b
  unfolding proportional
  proportional-InRange prefix_len total_tokens b =
      clamp-InRange
        (truncate
          (multiply (divide (of_int (pos prefix_len)) (of_int total_tokens)) (of_int (pos b))))
        b
    where
      open double use {of_int, divide, multiply, truncate}

  by_share :
      (prefix_len : ℕ) (total_tokens : ℤ) (b : ℕ) (empty : Bool) {usable : ℤ}
      → (if empty then done (pos 0) else done (proportional double prefix_len total_tokens (pos b)))
        ≡ done usable
      → InRange usable b
  by_share prefix_len total_tokens b true h = done-InRange (pos 0) b (omega arith) h
  by_share prefix_len total_tokens b false h =
      done-InRange _ b (proportional-InRange prefix_len total_tokens b) h

  share_total :
      (prefix_len : ℕ) (total_tokens : ℤ) (b : ℕ) (empty : Bool)
      → (usable : ℤ) × ((if empty
            then done (pos 0)
            else done (proportional double prefix_len total_tokens (pos b)))
          ≡ done usable)
  share_total prefix_len total_tokens b true = (pos 0, refl)
  share_total prefix_len total_tokens b false = (_, refl)

  -- A usable length lies between 0 and the object's size, whatever the rounding of `double` is.
  pub usable_bytes-InRange :
      (bytes_per_token : ℤ) (prefix_len : ℕ) (total_tokens : ℤ) (total_bytes : ℕ) {usable : ℤ}
      → usable_bytes double bytes_per_token prefix_len total_tokens (pos total_bytes) ≡ done usable
      → InRange usable total_bytes
  unfolding usable_bytes
  usable_bytes-InRange (pos zero) prefix_len total_tokens total_bytes h =
      by_share prefix_len total_tokens total_bytes _ h
  usable_bytes-InRange (pos (suc r)) prefix_len total_tokens total_bytes h =
      fixed-InRange (suc r) prefix_len total_bytes h
  usable_bytes-InRange (negsuc r) prefix_len total_tokens total_bytes h =
      by_share prefix_len total_tokens total_bytes _ h

  -- Without an overflow there is a usable length.
  pub usable_bytes_total :
      (bytes_per_token : ℤ) (prefix_len : ℕ) (total_tokens : ℤ) (total_bytes : ℕ)
      → prefix_len * to_ℕ bytes_per_token < int_limit
      → (usable : ℤ) × (usable_bytes double bytes_per_token prefix_len total_tokens
            (pos total_bytes)
          ≡ done usable)
  unfolding usable_bytes mul_int
  usable_bytes_total (pos zero) prefix_len total_tokens total_bytes h =
      share_total prefix_len total_tokens total_bytes _
  usable_bytes_total (pos (suc r)) prefix_len total_tokens total_bytes h = (
    minℤ (pos (prefix_len * suc r)) (pos total_bytes),
    rw (lt→ltb (prefix_len * suc r) int_limit h),
  )
  usable_bytes_total (negsuc r) prefix_len total_tokens total_bytes h =
      share_total prefix_len total_tokens total_bytes _
