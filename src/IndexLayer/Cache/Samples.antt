-- ===== src/IndexLayer/Cache/Samples.antt =====
-- Inputs for the tests of the index layer: fractions for `double`, a small hash, tokens and data.
use mathlib.Core.List.{foldl}
use prompt_cache_storage.Prelude.{ℕ, ◌+◌, ◌*◌, ◌/◌, ◌%◌, ℤ, pos, List, [], ◌∷◌, Bytes, codes}
use prompt_cache_storage.Prelude.Int.{to_ℕ}
use prompt_cache_storage.Prelude.Assoc.{bytes_key, nat_key}
use prompt_cache_storage.IndexLayer.Cache.{PrefixMap, Double}

abbrev pub small_hash : Bytes → ℕ
small_hash = foldl (λ h c. (h * 31 + c) % 65536) 7

abbrev pub fractions : Double
fractions = record {
  D = ℕ × ℕ;
  of_int = λ z. (to_ℕ z, 1);
  divide = λ x y. (x.0 * y.1, x.1 * y.0);
  multiply = λ x y. (x.0 * y.0, x.1 * y.1);
  truncate = λ x. pos (x.0 / x.1);
}

abbrev pub map_of : ℤ → PrefixMap
map_of block_size = record {
  block_size = block_size;
  bytes_per_token = pos 0;
  version_clock = 0;
  prefix_map = [];
  obj_table = [];
}

abbrev pub five_tokens : List Bytes
five_tokens = codes "the" ∷ codes "cat" ∷ codes "sat" ∷ codes "on" ∷ codes "it" ∷ []

abbrev pub ten_bytes : Bytes
ten_bytes = codes "0123456789"
