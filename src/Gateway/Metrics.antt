-- ===== src/Gateway/Metrics.antt =====
-- s3_rocksdb_gateway/src/metrics.hpp and metrics.cpp: the counters of the class `Metrics`. The
-- atomics are 64-bit words, read and written by one step each.
pub mod Histogram
pub mod Render
use prompt_cache_storage.Prelude.{
  ℕ, zero, suc, ◌+◌, ◌-◌, ◌%◌, ◌^◌, Bool, true, false, not, List, [], ◌∷◌, Bytes, codes, beq, leb,
  if◌then◌else◌, replicate, ◌≡◌, refl,
}

-- A latency in milliseconds: a `double` of the program, with the two uses that it has.
pub record Latency : Type 1 where
  pub Ms : Type 0
  -- `static_cast<uint64_t>(std::llround(ms * 1000.0))`
  pub microseconds : Ms → ℕ
  -- `ms <= bound`
  pub within : Ms → ℕ → Bool

abbrev pub word : ℕ
word = 2 ^ 64

-- `xs[i].fetch_add(n)`
unfoldable pub fetch_add : ℕ → ℕ → List ℕ → List ℕ
fetch_add i n [] = []
fetch_add zero n (x ∷ xs) = ((x + n) % word) ∷ xs
fetch_add (suc i) n (x ∷ xs) = x ∷ fetch_add i n xs

pub data MethodIndex : Type 0 where
  get put post delete head other : MethodIndex

pub data RocksOpIndex : Type 0 where
  rdb_get rdb_put rdb_write rdb_delete rdb_iter rdb_other : RocksOpIndex

unfoldable pub method_index : Bytes → MethodIndex
method_index m =
    if beq m (codes "GET")
    then get
    else if beq m (codes "PUT")
    then put
    else if beq m (codes "POST")
    then post
    else if beq m (codes "DELETE")
    then delete
    else if beq m (codes "HEAD")
    then head
    else other

unfoldable pub method_name : MethodIndex → Bytes
method_name get = codes "GET"
method_name put = codes "PUT"
method_name post = codes "POST"
method_name delete = codes "DELETE"
method_name head = codes "HEAD"
method_name other = codes "OTHER"

unfoldable pub rocks_op_index : Bytes → RocksOpIndex
rocks_op_index op =
    if beq op (codes "get")
    then rdb_get
    else if beq op (codes "put")
    then rdb_put
    else if beq op (codes "write")
    then rdb_write
    else if beq op (codes "delete")
    then rdb_delete
    else if beq op (codes "iter")
    then rdb_iter
    else rdb_other

unfoldable pub rocks_op_name : RocksOpIndex → Bytes
rocks_op_name rdb_get = codes "get"
rocks_op_name rdb_put = codes "put"
rocks_op_name rdb_write = codes "write"
rocks_op_name rdb_delete = codes "delete"
rocks_op_name rdb_iter = codes "iter"
rocks_op_name rdb_other = codes "other"

-- The values of the two enums.
abbrev pub method_number : MethodIndex → ℕ
method_number get = 0
method_number put = 1
method_number post = 2
method_number delete = 3
method_number head = 4
method_number other = 5

abbrev pub rocks_op_number : RocksOpIndex → ℕ
rocks_op_number rdb_get = 0
rocks_op_number rdb_put = 1
rocks_op_number rdb_write = 2
rocks_op_number rdb_delete = 3
rocks_op_number rdb_iter = 4
rocks_op_number rdb_other = 5

pub record Metrics : Type 0 where
  pub req_counts : List ℕ
  pub err_counts : List ℕ
  pub req_bytes : List ℕ
  pub resp_bytes : List ℕ
  pub latency_count : ℕ
  pub latency_sum_us : ℕ
  pub bucket_counts : List ℕ
  pub inflight : ℕ
  pub rdb_counts : List ℕ
  pub rdb_err_counts : List ℕ
  pub rdb_bytes : List ℕ
  pub rdb_latency_count : ℕ
  pub rdb_latency_sum_us : ℕ
  pub rdb_bucket_counts : List ℕ

-- The bounds that the constructor sets.
abbrev pub buckets_ms : List ℕ
buckets_ms = 1 ∷ 2 ∷ 5 ∷ 10 ∷ 25 ∷ 50 ∷ 100 ∷ 250 ∷ 500 ∷ 1000 ∷ 2500 ∷ 5000 ∷ 10000 ∷ []

unfoldable pub new_metrics : Metrics
new_metrics = record {
  req_counts = replicate 6 0;
  err_counts = replicate 6 0;
  req_bytes = replicate 6 0;
  resp_bytes = replicate 6 0;
  latency_count = 0;
  latency_sum_us = 0;
  bucket_counts = replicate 13 0;
  inflight = 0;
  rdb_counts = replicate 6 0;
  rdb_err_counts = replicate 6 0;
  rdb_bytes = replicate 6 0;
  rdb_latency_count = 0;
  rdb_latency_sum_us = 0;
  rdb_bucket_counts = replicate 13 0;
}

-- The gauge is an `int64_t`, kept here as its 64-bit pattern.
unfoldable pub inc_in_flight : Metrics → Metrics
inc_in_flight m = record m { inflight = (m.inflight + 1) % word }

unfoldable pub dec_in_flight : Metrics → Metrics
dec_in_flight m = record m { inflight = (m.inflight + word - 1) % word }

module _ (l : Latency) where
  open l use {Ms, microseconds, within}

  -- The loop over the buckets: one more in the first whose bound is not exceeded.
  pub count_bucket : Ms → List ℕ → List ℕ → List ℕ
  count_bucket ms [] counts = counts
  count_bucket ms (bound ∷ bounds) [] = []
  count_bucket ms (bound ∷ bounds) (n ∷ counts) =
      let rest = n ∷ count_bucket ms bounds counts in
      if within ms bound then ((n + 1) % word) ∷ counts else rest

  unfoldable pub observe : Bytes → ℕ → ℕ → ℕ → Ms → Metrics → Metrics
  observe method status req resp ms m =
      let i = method_number (method_index method) in
      record m {
        req_counts = fetch_add i 1 m.req_counts;
        req_bytes = fetch_add i req m.req_bytes;
        resp_bytes = fetch_add i resp m.resp_bytes;
        err_counts = if leb 400 status then fetch_add i 1 m.err_counts else m.err_counts;
        latency_count = (m.latency_count + 1) % word;
        latency_sum_us = (m.latency_sum_us + microseconds ms) % word;
        bucket_counts = count_bucket ms buckets_ms m.bucket_counts;
      }

  unfoldable pub observe_rocksdb : Bytes → Bool → ℕ → Ms → Metrics → Metrics
  observe_rocksdb op ok bytes ms m =
      let i = rocks_op_number (rocks_op_index op) in
      record m {
        rdb_counts = fetch_add i 1 m.rdb_counts;
        rdb_bytes = fetch_add i bytes m.rdb_bytes;
        rdb_err_counts = if ok then m.rdb_err_counts else fetch_add i 1 m.rdb_err_counts;
        rdb_latency_count = (m.rdb_latency_count + 1) % word;
        rdb_latency_sum_us = (m.rdb_latency_sum_us + microseconds ms) % word;
        rdb_bucket_counts = count_bucket ms buckets_ms m.rdb_bucket_counts;
      }
