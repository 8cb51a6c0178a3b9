-- ===== src/Gateway/Metrics/Render.antt =====
-- `Metrics::RenderPrometheus`. How a stream prints the sum of the latencies, a `double`, is a parameter;
-- the bounds of the buckets are whole numbers of at most five digits.
pub mod Bounds
use prompt_cache_storage.Prelude.{
  ℕ, zero, suc, ◌+◌, ◌-◌, ◌%◌, ◌^◌, ℤ, pos, negsuc, ◌≡◌, refl, List, [], ◌∷◌, ◌++◌, Bytes, codes,
  map, ltb, if◌then◌else◌,
}
use prompt_cache_storage.Prelude.Numeral.{to_string, to_stringℤ}
use prompt_cache_storage.Gateway.Metrics.{
  Metrics, MethodIndex, get, put, post, delete, head, other, RocksOpIndex, rdb_get, rdb_put,
  rdb_write, rdb_delete, rdb_iter, rdb_other, method_name, rocks_op_name, buckets_ms, word,
}

abbrev methods : List MethodIndex
methods = get ∷ put ∷ post ∷ delete ∷ head ∷ other ∷ []

abbrev operations : List RocksOpIndex
operations = rdb_get ∷ rdb_put ∷ rdb_write ∷ rdb_delete ∷ rdb_iter ∷ rdb_other ∷ []

-- The 64-bit pattern of the gauge as an `int64_t`.
signed : ℕ → ℤ
signed w = if ltb w (2 ^ 63) then pos w else negsuc (word - w - 1)

-- `# HELP` and `# TYPE`
heading : Bytes → Bytes → Bytes → Bytes
heading metric help kind =
    codes "# HELP "
    ++ metric
    ++ codes " "
    ++ help
    ++ codes "\n# TYPE "
    ++ metric
    ++ codes " "
    ++ kind
    ++ codes "\n"

-- `metric{label="name"} value`
sample : Bytes → Bytes → Bytes → Bytes → Bytes
sample metric label name value =
    metric ++ codes "{" ++ label ++ codes "=\"" ++ name ++ codes "\"} " ++ value ++ codes "\n"

-- One of the loops over an array of counters.
samples : Bytes → Bytes → List Bytes → List ℕ → Bytes
unfolding sample
samples metric label [] counts = []
samples metric label (n ∷ names) [] = []
samples metric label (n ∷ names) (c ∷ counts) =
    sample metric label n (to_string c) ++ samples metric label names counts

-- A counter with its heading.
family : Bytes → Bytes → Bytes → List Bytes → List ℕ → Bytes
unfolding heading samples
family metric help label names counts =
    heading metric help (codes "counter") ++ samples metric label names counts

-- What stands in the lines of a histogram: the sums of the buckets so far.
pub cumulate : ℕ → List ℕ → List ℕ
cumulate total [] = []
cumulate total (n ∷ counts) = let next = (total + n) % word in next ∷ cumulate next counts

module _ (show_ms : ℕ → Bytes) where
  histogram : Bytes → Bytes → List ℕ → ℕ → ℕ → Bytes
  unfolding heading samples cumulate sample
  histogram metric help buckets count sum_us =
      heading metric help (codes "histogram")
      ++ samples (metric ++ codes "_bucket") (codes "le") (map to_string buckets_ms)
          (cumulate 0 buckets)
      ++ sample (metric ++ codes "_bucket") (codes "le") (codes "+Inf") (to_string count)
      ++ metric
      ++ codes "_sum "
      ++ show_ms sum_us
      ++ codes "\n"
      ++ metric
      ++ codes "_count "
      ++ to_string count
      ++ codes "\n"

  pub render_prometheus : Metrics → Bytes
  unfolding family histogram heading signed
  render_prometheus m =
      let by_method = map method_name methods in
      let by_operation = map rocks_op_name operations in
      family (codes "s3gw_requests_total") (codes "Total HTTP requests.") (codes "method") by_method
        m.req_counts
      ++ family (codes "s3gw_request_errors_total") (codes "HTTP requests with status >= 400.")
          (codes "method") by_method m.err_counts
      ++ family (codes "s3gw_request_bytes_total") (codes "Request body bytes.") (codes "method")
          by_method m.req_bytes
      ++ family (codes "s3gw_response_bytes_total") (codes "Response body bytes.") (codes "method")
          by_method m.resp_bytes
      ++ heading (codes "s3gw_inflight_requests") (codes "In-flight HTTP requests.") (codes "gauge")
      ++ codes "s3gw_inflight_requests "
      ++ to_stringℤ (signed m.inflight)
      ++ codes "\n"
      ++ histogram (codes "s3gw_request_latency_ms") (codes "Request latency in milliseconds.")
          m.bucket_counts m.latency_count m.latency_sum_us
      ++ family (codes "s3gw_rocksdb_ops_total") (codes "RocksDB operations.") (codes "op")
          by_operation m.rdb_counts
      ++ family (codes "s3gw_rocksdb_errors_total") (codes "RocksDB operations with non-OK status.")
          (codes "op") by_operation m.rdb_err_counts
      ++ family (codes "s3gw_rocksdb_bytes_total") (codes "RocksDB bytes read/written.")
          (codes "op") by_operation m.rdb_bytes
      ++ histogram (codes "s3gw_rocksdb_latency_ms")
          (codes "RocksDB operation latency in milliseconds.") m.rdb_bucket_counts
          m.rdb_latency_count m.rdb_latency_sum_us

gauge_line :
    heading (codes "g") (codes "A gauge.") (codes "gauge")
    ≡ codes "# HELP g A gauge.\n# TYPE g gauge\n"
unfolding heading
gauge_line = refl

sample_line :
    sample (codes "ops") (codes "op") (codes "get") (codes "7") ≡ codes "ops{op=\"get\"} 7\n"
unfolding sample
sample_line = refl
