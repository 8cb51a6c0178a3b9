-- ===== src/IndexLayer/Hash/Ids.antt =====
-- What the keys of the index layer tell apart: the ids of objects, and the joined tokens.
use prompt_cache_storage.Prelude.{
  ℕ, ◌-◌, ◌^◌, ◌≤◌, ◌<◌, ◌≡◌, ap, sym, ◌∙◌, Bytes, arith, length, replicate, length-append,
  length-replicate,
}
use prompt_cache_storage.Prelude.Numeral.{to_hex, value, value-to_hex, value_zeros, length-to_hex}
use prompt_cache_storage.IndexLayer.Hash.{pad, hash_bytes_hex}

value-pad : (width : ℕ) (s : Bytes) → value 16 (pad width s) ≡ value 16 s
unfolding pad
value-pad width s = value_zeros 16 (width - length s) s

length-pad : (width : ℕ) (s : Bytes) → length s ≤ width → length (pad width s) ≡ width
unfolding pad
length-pad width s h = omega (
  arith,
  length-append (replicate (width - length s) b'0') s,
  length-replicate {A = ℕ} (width - length s) b'0',
)

-- Two ids are equal only if the hashes are.
pub hash_bytes_hex-eq :
    (hasher : Bytes → ℕ) (a b : Bytes)
    → hash_bytes_hex hasher a ≡ hash_bytes_hex hasher b
    → hasher a ≡ hasher b
unfolding hash_bytes_hex
hash_bytes_hex-eq hasher a b e =
    sym (value-pad 16 (to_hex (hasher a)) ∙ value-to_hex (hasher a))
    ∙ ap (value 16) e
    ∙ value-pad 16 (to_hex (hasher b))
    ∙ value-to_hex (hasher b)

-- For a 64-bit hash the id has 16 characters, and two ids are equal only if the hashes are.
pub hash_bytes_hex-injective :
    (hasher : Bytes → ℕ) (a b : Bytes)
    → hasher a < 2 ^ 64
    → (length (hash_bytes_hex hasher a) ≡ 16)
      × (hash_bytes_hex hasher a ≡ hash_bytes_hex hasher b → hasher a ≡ hasher b)
unfolding hash_bytes_hex
hash_bytes_hex-injective hasher a b h =
    (length-pad 16 (to_hex (hasher a)) (length-to_hex (hasher a) h), hash_bytes_hex-eq hasher a b)
