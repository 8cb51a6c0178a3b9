-- ===== src/Gateway/Tests.antt =====
-- The helpers on text, the reader of `Range` and the metrics on concrete inputs.
use prompt_cache_storage.Prelude.{All, ◌≤◌}
use prompt_cache_storage.Prelude.{pos, ◌≡◌, refl, true, some, List, [], ◌∷◌, codes, arith}
use prompt_cache_storage.Gateway.Util.Percent.{
  percent_decode, percent_encode, percent_decode-percent_encode,
}
use mathlib.Core.List.Perm
use prompt_cache_storage.Prelude.{◌↔◌, none}
use prompt_cache_storage.Prelude.Sort.{sort}
use prompt_cache_storage.Prelude.Order.{before}
use prompt_cache_storage.Gateway.Util.Hex.{constant_time_equal, constant_time_equal_iff}
use prompt_cache_storage.Gateway.Util.Query.{
  Params, parse_query, canonical_query_string, pair_order,
}
use prompt_cache_storage.Gateway.Util.Query.Canonical.{
  AreBytes, canonical_query_string-perm, parse_query-canonical_query_string,
}
use prompt_cache_storage.Gateway.Util.Whitespace.{trim_and_collapse_ws}
use prompt_cache_storage.Gateway.Api.Range.{
  parse_single_range, parse_single_range-IsWithin, IsWithin,
}
use prompt_cache_storage.Gateway.Metrics.{new_metrics}
use prompt_cache_storage.Gateway.Metrics.Histogram.{
  Event, enter, leave, request, operation, replay, IsBalanced, replay-IsBalanced,
}
use prompt_cache_storage.Gateway.Metrics.Render.{cumulate}
use prompt_cache_storage.Gateway.Metrics.Render.Bounds.{replay-cumulate}
use prompt_cache_storage.Gateway.Storage.Rocks.Reference.{reference}
use prompt_cache_storage.Prelude.Text.{strip_prefix, break_on}
use prompt_cache_storage.Prelude.Numeral.{from_chars}

percent_decode-percent_encode_example :
    percent_decode (percent_encode (codes "a/b %") true) ≡ some (codes "a/b %")
percent_decode-percent_encode_example =
    percent_decode-percent_encode (codes "a/b %") true
      (omega arith, (omega arith, (omega arith, (omega arith, (omega arith, tt)))))

encoded : percent_encode (codes "a/b %") true ≡ codes "a%2Fb%20%25"
unfolding percent_encode
encoded = refl

collapsed : trim_and_collapse_ws (codes "  a  b ") ≡ codes "a b"
unfolding trim_and_collapse_ws
collapsed = refl

suffix_run :
    parse_single_range (codes "bytes=-3") (pos 10) ≡ some (record { start = pos 7; end = pos 9 })
unfolding parse_single_range strip_prefix break_on from_chars trim_and_collapse_ws
suffix_run = refl

parse_single_range-IsWithin_example : IsWithin (pos 10) (record { start = pos 7; end = pos 9 })
parse_single_range-IsWithin_example =
    parse_single_range-IsWithin (codes "bytes=-3") (pos 10) suffix_run

-- One request that writes, and one that fails.
abbrev history : List (Event reference.latency)
history =
    enter
    ∷ operation (codes "write") true 100 2
    ∷ leave
    ∷ request (codes "PUT") 200 100 0 3
    ∷ request (codes "PATCH") 405 0 10 1
    ∷ []

replay-IsBalanced_example : IsBalanced (replay history new_metrics)
replay-IsBalanced_example = replay-IsBalanced history

replay-cumulate_example :
    All
      (λ n. n ≤ (replay history new_metrics).latency_count)
      (cumulate 0 (replay history new_metrics).bucket_counts)
    × All
        (λ n. n ≤ (replay history new_metrics).rdb_latency_count)
        (cumulate 0 (replay history new_metrics).rdb_bucket_counts)
replay-cumulate_example = replay-cumulate history (omega arith)

constant_time_equal_iff_example :
    (constant_time_equal (codes "0a") (codes "0b") ≡ true) ↔ (codes "0a" ≡ codes "0b")
constant_time_equal_iff_example = constant_time_equal_iff (codes "0a") (codes "0b")

abbrev first_query : Params
first_query = (codes "b", codes "1 2") ∷ (codes "a", codes "&") ∷ []

abbrev second_query : Params
second_query = (codes "a", codes "&") ∷ (codes "b", codes "1 2") ∷ []

canonical_query_string-perm_example :
    canonical_query_string first_query (some (codes "x"))
    ≡ canonical_query_string second_query (some (codes "x"))
canonical_query_string-perm_example =
    canonical_query_string-perm (some (codes "x")) first_query second_query
      (Perm.swap (codes "a", codes "&") (codes "b", codes "1 2") [])

canonical_run : canonical_query_string first_query none ≡ codes "a=%26&b=1%202"
unfolding canonical_query_string percent_encode before
canonical_run = refl

first_query-AreBytes : AreBytes first_query
first_query-AreBytes = omega arith

parse_query-canonical_query_string_example :
    parse_query (canonical_query_string first_query none) ≡ sort pair_order first_query
parse_query-canonical_query_string_example =
    parse_query-canonical_query_string first_query first_query-AreBytes
