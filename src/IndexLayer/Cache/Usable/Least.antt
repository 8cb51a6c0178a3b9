-- ===== src/IndexLayer/Cache/Usable/Least.antt =====
-- `UsableBytes` gives at least one byte of an object that is not empty.
use prompt_cache_storage.Prelude.{
  ℕ, zero, suc, ◌*◌, ◌≤◌, ℤ, pos, negsuc, ◌≡◌, arith, ltb, subst, min, inl, inr, Bool-cases,
  if◌then◌else◌, ◌||◌,
}
use native.Mathlib.Nat.{mul-le-mul}
use prompt_cache_storage.IndexLayer.Run.{done, ◌>>=◌}
use prompt_cache_storage.IndexLayer.Cache.{
  Double, usable_bytes, proportional, minℤ, mul_int, int_limit, clamp, is_zero,
}
use prompt_cache_storage.IndexLayer.Cache.Usable.{InRange}

-- At most `b`, and at least 1 unless `b` is 0.
abbrev pub IsUsable : ℤ → ℕ → Type 0
IsUsable (pos n) b = (min 1 b ≤ n) × (n ≤ b)
IsUsable (negsuc n) b = ⊥

pub IsUsable-InRange : (u : ℤ) (b : ℕ) → IsUsable u b → InRange u b
IsUsable-InRange (pos n) b h = h.1
IsUsable-InRange (negsuc n) b h = h

min-IsUsable : (a b : ℕ) → 1 ≤ a → IsUsable (minℤ (pos a) (pos b)) b
unfolding minℤ
min-IsUsable a b h = ground arith

clamp-IsUsable : (a : ℤ) (b : ℕ) → IsUsable (clamp a (pos b)) b
unfolding clamp
clamp-IsUsable (pos a) b = ground arith
clamp-IsUsable (negsuc a) b = ground arith

done-IsUsable :
    (a : ℤ) (b : ℕ) {usable : ℤ} → IsUsable a b → done a ≡ done usable → IsUsable usable b
done-IsUsable a b r h = subst (λ u. IsUsable u b) (cc h) r

fixed-IsUsable :
    (rate prefix_len b : ℕ) {usable : ℤ}
    → 1 ≤ rate
    → 1 ≤ prefix_len
    → (mul_int prefix_len rate >>= λ bytes. done (minℤ (pos bytes) (pos b))) ≡ done usable
    → IsUsable usable b
unfolding mul_int
fixed-IsUsable rate prefix_len b r p h = elim (Bool-cases (ltb (prefix_len * rate) int_limit)) [
  | inl fits ↦
      done-IsUsable _ b (min-IsUsable (prefix_len * rate) b (omega (arith, mul-le-mul p r)))
        (rw (fits, mul_int) at h)
  | inr large ↦ let q = rw (large, mul_int) at h in cc q
]

module _ (double : Double) where
  proportional-IsUsable :
      (prefix_len size b : ℕ) → IsUsable (proportional double prefix_len (pos size) (pos b)) b
  unfolding proportional
  proportional-IsUsable prefix_len size b =
      clamp-IsUsable
        (truncate
          (multiply (divide (of_int (pos prefix_len)) (of_int (pos size))) (of_int (pos b))))
        b
    where
      open double use {of_int, divide, multiply, truncate}

  by_share :
      (prefix_len size b : ℕ) {usable : ℤ}
      → 1 ≤ size
      → (if is_zero double (pos size) || is_zero double (pos b)
          then done (pos 0)
          else done (proportional double prefix_len (pos size) (pos b)))
        ≡ done usable
      → IsUsable usable b
  unfolding is_zero
  by_share prefix_len zero b p h = absurd (omega arith)
  by_share prefix_len (suc size) zero p h = done-IsUsable (pos 0) 0 (omega arith, omega arith) h
  by_share prefix_len (suc size) (suc b) p h =
      done-IsUsable _ (suc b) (proportional-IsUsable prefix_len (suc size) (suc b)) h

  -- A usable length of a prefix that is not empty.
  pub usable_bytes-IsUsable :
      (bytes_per_token : ℤ) (prefix_len size b : ℕ) {usable : ℤ}
      → 1 ≤ prefix_len
      → prefix_len ≤ size
      → usable_bytes double bytes_per_token prefix_len (pos size) (pos b) ≡ done usable
      → IsUsable usable b
  unfolding usable_bytes
  usable_bytes-IsUsable (pos zero) prefix_len size b p le h =
      by_share prefix_len size b (omega arith) h
  usable_bytes-IsUsable (pos (suc r)) prefix_len size b p le h =
      fixed-IsUsable (suc r) prefix_len b (omega arith) p h
  usable_bytes-IsUsable (negsuc r) prefix_len size b p le h =
      by_share prefix_len size b (omega arith) h
