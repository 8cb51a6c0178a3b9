-- ===== src/Gateway/Metrics/Histogram.antt =====
-- The counters agree: the requests of the methods, and the operations of RocksDB, add up to the
-- number of measured latencies.
use prompt_cache_storage.Prelude.{
  ℕ, zero, suc, ◌+◌, ◌%◌, ◌<◌, ◌≡◌, refl, ◌∙◌, ap, Bool, List, [], ◌∷◌, Bytes, arith, length,
}
use prompt_cache_storage.Gateway.Metrics.{
  Latency, Metrics, MethodIndex, RocksOpIndex, fetch_add, method_index, method_number,
  rocks_op_index, rocks_op_number, new_metrics, observe, observe_rocksdb, inc_in_flight,
  dec_in_flight, word, get, put, post, delete, head, other, rdb_get, rdb_put, rdb_write, rdb_delete,
  rdb_iter, rdb_other,
}

unfoldable pub total : List ℕ → ℕ
total [] = 0
total (x ∷ xs) = x + total xs

length-fetch_add : (i n : ℕ) (xs : List ℕ) → length (fetch_add i n xs) ≡ length xs
unfolding fetch_add
length-fetch_add i n [] = refl
length-fetch_add zero n (x ∷ xs) = refl
length-fetch_add (suc i) n (x ∷ xs) = ap suc (length-fetch_add i n xs)

total-fetch_add :
    (i n : ℕ) (xs : List ℕ)
    → i < length xs
    → total (fetch_add i n xs) % word ≡ (total xs + n) % word
unfolding fetch_add total
total-fetch_add i n [] h = absurd (omega arith)
total-fetch_add zero n (x ∷ xs) h = omega arith
total-fetch_add (suc i) n (x ∷ xs) h = omega (arith, total-fetch_add i n xs (omega arith))

method_number_bound : (m : MethodIndex) → method_number m < 6
method_number_bound get = omega arith
method_number_bound put = omega arith
method_number_bound post = omega arith
method_number_bound delete = omega arith
method_number_bound head = omega arith
method_number_bound other = omega arith

rocks_op_number_bound : (op : RocksOpIndex) → rocks_op_number op < 6
rocks_op_number_bound rdb_get = omega arith
rocks_op_number_bound rdb_put = omega arith
rocks_op_number_bound rdb_write = omega arith
rocks_op_number_bound rdb_delete = omega arith
rocks_op_number_bound rdb_iter = omega arith
rocks_op_number_bound rdb_other = omega arith

-- Six counters that add up, in 64 bits, to `count`.
pub record AddsUp (counts : List ℕ) (count : ℕ) : Type 0 where
  pub slots : length counts ≡ 6
  pub sums : total counts % word ≡ count

AddsUp-fetch_add :
    (i : ℕ) (xs : List ℕ) (n : ℕ) → i < 6 → AddsUp xs n → AddsUp (fetch_add i 1 xs) ((n + 1) % word)
AddsUp-fetch_add i xs n h a = record {
  slots = length-fetch_add i 1 xs ∙ a.slots;
  sums = omega (arith, total-fetch_add i 1 xs (omega (arith, a.slots)), a.sums);
}

abbrev pub IsBalanced : Metrics → Type 0
IsBalanced m = AddsUp m.req_counts m.latency_count × AddsUp m.rdb_counts m.rdb_latency_count

-- What the server and the store do with the metrics.
pub data Event (l : Latency) : Type 0 where
  enter : Event l
  leave : Event l
  request : Bytes → ℕ → ℕ → ℕ → l.Ms → Event l
  operation : Bytes → Bool → ℕ → l.Ms → Event l

module _ {l : Latency} where
  unfoldable pub apply : Event l → Metrics → Metrics
  apply enter m = inc_in_flight m
  apply leave m = dec_in_flight m
  apply (request method status req resp ms) m = observe l method status req resp ms m
  apply (operation op ok bytes ms) m = observe_rocksdb l op ok bytes ms m

  -- The metrics after a history, the first event first.
  unfoldable pub replay : List (Event l) → Metrics → Metrics
  unfolding apply
  replay [] m = m
  replay (e ∷ es) m = replay es (apply e m)

  apply-IsBalanced : (e : Event l) (m : Metrics) → IsBalanced m → IsBalanced (apply e m)
  unfolding apply inc_in_flight dec_in_flight observe observe_rocksdb
  apply-IsBalanced enter m h = h
  apply-IsBalanced leave m h = h
  apply-IsBalanced (request method status req resp ms) m h = (
    AddsUp-fetch_add _ m.req_counts m.latency_count (method_number_bound (method_index method)) h.0,
    h.1,
  )
  apply-IsBalanced (operation op ok bytes ms) m h = (
    h.0,
    AddsUp-fetch_add _ m.rdb_counts m.rdb_latency_count (rocks_op_number_bound (rocks_op_index op))
        h.1,
  )

  replay_keeps : (es : List (Event l)) (m : Metrics) → IsBalanced m → IsBalanced (replay es m)
  unfolding replay
  replay_keeps [] m h = h
  replay_keeps (e ∷ es) m h = replay_keeps es (apply e m) (apply-IsBalanced e m h)

new_metrics-IsBalanced : IsBalanced new_metrics
unfolding new_metrics total
new_metrics-IsBalanced =
    (record { slots = refl; sums = refl }, record { slots = refl; sums = refl })

-- After any history of requests and RocksDB operations, in any order, the counts of requests by
-- method add up modulo 2^64 to the count of request latencies, and the counts of operations to the
-- count of RocksDB latencies.
pub replay-IsBalanced : {l : Latency} (es : List (Event l)) → IsBalanced (replay es new_metrics)
replay-IsBalanced es = replay_keeps es new_metrics new_metrics-IsBalanced
