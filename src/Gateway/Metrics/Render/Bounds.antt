-- ===== src/Gateway/Metrics/Render/Bounds.antt =====
-- The printed histograms: no bucket shows more than the count.
use prompt_cache_storage.Prelude.{
  ℕ, suc, ◌+◌, ◌%◌, ◌≤◌, ◌<◌, subst, List, [], ◌∷◌, arith, length, All, inl, inr, Bool-cases,
}
use prompt_cache_storage.Gateway.Metrics.{
  Latency, Metrics, new_metrics, observe, observe_rocksdb, inc_in_flight, dec_in_flight,
  count_bucket, word, buckets_ms,
}
use prompt_cache_storage.Gateway.Metrics.Histogram.{
  Event, enter, leave, request, operation, apply, replay, total,
}
use prompt_cache_storage.Gateway.Metrics.Render.{cumulate}

total-count_bucket :
    (l : Latency) (ms : l.Ms) (bounds counts : List ℕ)
    → total (count_bucket l ms bounds counts) ≤ total counts + 1
unfolding count_bucket total
total-count_bucket l ms [] counts = omega arith
total-count_bucket l ms (b ∷ bounds) [] = omega arith
total-count_bucket l ms (b ∷ bounds) (n ∷ counts) = elim (Bool-cases (l.within ms b)) [
  | inl e ↦ rw (e, total) (omega arith)
  | inr e ↦ rw (e, total) (omega (arith, total-count_bucket l ms bounds counts))
]

-- The buckets hold no more than the count, which is at most `k`.
record IsWithin (k : ℕ) (counts : List ℕ) (count : ℕ) : Type 0 where
  few : count ≤ k
  inside : total counts ≤ count

IsWithin-step :
    (l : Latency) (ms : l.Ms) (k : ℕ) (counts : List ℕ) (count : ℕ)
    → suc k < word
    → IsWithin k counts count
    → IsWithin (suc k) (count_bucket l ms buckets_ms counts) ((count + 1) % word)
IsWithin-step l ms k counts count h w = record {
  few = omega (arith, w.few);
  inside = omega (arith, w.few, w.inside, total-count_bucket l ms buckets_ms counts);
}

IsWithin-suc :
    (k : ℕ) (counts : List ℕ) (count : ℕ) → IsWithin k counts count → IsWithin (suc k) counts count
IsWithin-suc k counts count w = record { few = omega (arith, w.few); inside = w.inside }

abbrev BothWithin : ℕ → Metrics → Type 0
BothWithin k m =
    IsWithin k m.bucket_counts m.latency_count × IsWithin k m.rdb_bucket_counts m.rdb_latency_count

module _ {l : Latency} where
  apply-BothWithin :
      (e : Event l) (k : ℕ) (m : Metrics)
      → suc k < word
      → BothWithin k m
      → BothWithin (suc k) (apply e m)
  unfolding apply inc_in_flight dec_in_flight observe observe_rocksdb
  apply-BothWithin enter k m h w = (IsWithin-suc k _ _ w.0, IsWithin-suc k _ _ w.1)
  apply-BothWithin leave k m h w = (IsWithin-suc k _ _ w.0, IsWithin-suc k _ _ w.1)
  apply-BothWithin (request method status req resp ms) k m h w =
      (IsWithin-step l ms k _ _ h w.0, IsWithin-suc k _ _ w.1)
  apply-BothWithin (operation op ok bytes ms) k m h w =
      (IsWithin-suc k _ _ w.0, IsWithin-step l ms k _ _ h w.1)

  replay-BothWithin :
      (es : List (Event l)) (k : ℕ) (m : Metrics)
      → length es + k < word
      → BothWithin k m
      → BothWithin (length es + k) (replay es m)
  unfolding replay
  replay-BothWithin [] k m h w = subst (λ n. BothWithin n m) (omega arith) w
  replay-BothWithin (e ∷ es) k m h w =
      subst (λ n. BothWithin n (replay es (apply e m))) (omega arith)
        (replay-BothWithin es (suc k) (apply e m) (omega arith)
          (apply-BothWithin e k m (omega arith) w))

cumulate_bound :
    (bound done : ℕ) (counts : List ℕ)
    → bound < word
    → done + total counts ≤ bound
    → All (λ n. n ≤ bound) (cumulate done counts)
unfolding cumulate total
cumulate_bound bound done [] h le = tt
cumulate_bound bound done (n ∷ counts) h le =
    (omega arith, cumulate_bound bound ((done + n) % word) counts h (omega arith))

new_metrics-BothWithin : BothWithin 0 new_metrics
unfolding new_metrics total
new_metrics-BothWithin = (
  record { few = omega arith; inside = omega arith },
  record { few = omega arith; inside = omega arith },
)

-- After any history of fewer than 2^64 events no line of either histogram shows more than its
-- `+Inf` line, the count of latencies.
pub replay-cumulate :
    {l : Latency} (es : List (Event l))
    → length es < word
    → All
        (λ n. n ≤ (replay es new_metrics).latency_count)
        (cumulate 0 (replay es new_metrics).bucket_counts)
      × All
          (λ n. n ≤ (replay es new_metrics).rdb_latency_count)
          (cumulate 0 (replay es new_metrics).rdb_bucket_counts)
replay-cumulate es h =
    let w = replay-BothWithin es 0 new_metrics (omega arith) new_metrics-BothWithin in
    (
      cumulate_bound _ 0 _ (omega (arith, w.0.few)) (omega (arith, w.0.inside)),
      cumulate_bound _ 0 _ (omega (arith, w.1.few)) (omega (arith, w.1.inside)),
    )
