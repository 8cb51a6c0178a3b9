-- ===== src/IndexLayer/Hash.antt =====
-- `HashTokens` and `HashBytesHex` of index_layer/src/cache.cc. `std::hash<std::string>` is a
-- parameter: the standard leaves its values open.
pub mod Ids
pub mod Joined
pub mod Names
use prompt_cache_storage.Prelude.{
  ℕ, zero, suc, ◌+◌, ◌-◌, ◌^◌, ◌≤◌, ◌<◌, ◌≡◌, refl, List, [], ◌∷◌, ◌++◌, Bytes, codes, arith,
  length, take, replicate,
}
use prompt_cache_storage.Prelude.Numeral.{to_hex}

-- `"\x1f"`
abbrev pub unit_separator : ℕ
unit_separator = 0x1f

-- The rounds of the loop after the first, `count` of them at most.
join_rest : List Bytes → ℕ → Bytes
join_rest tokens zero = []
join_rest [] (suc count) = []
join_rest (t ∷ tokens) (suc count) = unit_separator ∷ (t ++ join_rest tokens count)

-- The string that the first `count` tokens are written into.
unfoldable pub join_tokens : List Bytes → ℕ → Bytes
unfolding join_rest
join_tokens tokens zero = []
join_tokens [] (suc count) = []
join_tokens (t ∷ tokens) (suc count) = t ++ join_rest tokens count

unfoldable pub hash_tokens : (Bytes → ℕ) → List Bytes → ℕ → ℕ
unfolding join_tokens
hash_tokens hasher tokens count = hasher (join_tokens tokens count)

-- `std::setw(width) << std::setfill('0')`
pad : ℕ → Bytes → Bytes
pad width s = replicate (width - length s) b'0' ++ s

-- `sizeof(size_t)` is 8.
unfoldable pub hash_bytes_hex : (Bytes → ℕ) → Bytes → Bytes
unfolding pad to_hex
hash_bytes_hex hasher bytes = pad 16 (to_hex (hasher bytes))

join_two : join_tokens (codes "ab" ∷ codes "c" ∷ codes "d" ∷ []) 2 ≡ codes "ab\u{1f}c"
unfolding join_tokens
join_two = refl

hex_of_255 : hash_bytes_hex (λ _. 255) [] ≡ codes "00000000000000ff"
unfolding hash_bytes_hex
hex_of_255 = refl
