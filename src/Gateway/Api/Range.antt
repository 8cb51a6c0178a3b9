-- ===== src/Gateway/Api/Range.antt =====
-- s3_rocksdb_gateway/src/s3_api.cpp: `ByteRange` and `parse_single_range`, the reader of the
-- header `Range`.
pub mod Sent
use prompt_cache_storage.Prelude.{
  ℕ, zero, suc, ◌+◌, ◌-◌, ◌≤◌, ◌<◌, ◌^◌, ◌≡◌, refl, subst, Bool, true, false, ◌||◌, Bool-cases, inl,
  inr, le→leb, lt→ltb, Option, none, some, List, [], ◌∷◌, ◌++◌, Bytes, codes, arith, ltb, leb, ◌==◌,
  if◌then◌else◌, ℤ, pos, negsuc,
}
use prompt_cache_storage.Prelude.Int.{is_nonpos, is_negative, to_ℕ, ltbℤ, lebℤ}
use prompt_cache_storage.Prelude.Text.{strip_prefix, break_on}
use prompt_cache_storage.Prelude.Numeral.{from_chars}
use prompt_cache_storage.Gateway.Util.Whitespace.{trim_and_collapse_ws}

-- The last byte is inside.
pub record ByteRange : Type 0 where
  pub start : ℤ
  pub end : ℤ

-- `v.find(',') != npos`
pub has_comma : Bytes → Bool
has_comma [] = false
has_comma (c ∷ s) = (c == b',') || has_comma s

-- The lambda of `parse_single_range`.
pub parse_i64 : Bytes → Option ℤ
parse_i64 [] = none
parse_i64 (c ∷ s) = from_chars (c ∷ s)

-- `bytes=-suffix`, for a positive size.
pub suffix_range : ℕ → Option ℤ → Option ByteRange
suffix_range size none = none
suffix_range size (some suffix) =
    if is_nonpos suffix
    then none
    else if leb size (to_ℕ suffix)
    then some (record { start = pos 0; end = pos (size - 1) })
    else some (record { start = pos (size - to_ℕ suffix); end = pos (size - 1) })

-- The checks on the two ends, for a positive size.
pub check_range : ℕ → Option ℤ → Option ℤ → Option ByteRange
check_range size none last = none
check_range size (some first) none = none
check_range size (some first) (some last) =
    if is_negative first || lebℤ (pos size) first
    then none
    else if ltbℤ last first
    then none
    else if lebℤ (pos size) last
    then some (record { start = first; end = pos (size - 1) })
    else some (record { start = first; end = last })

pub last_byte : ℕ → Bytes → Option ℤ
unfolding parse_i64
last_byte size [] = some (pos (size - 1))
last_byte size (c ∷ right) = parse_i64 (c ∷ right)

-- What follows from the text on the two sides of the dash.
pub read_ends : ℕ → Option (Bytes × Bytes) → Option ByteRange
unfolding suffix_range check_range parse_i64 last_byte
read_ends size none = none
read_ends size (some ([], right)) = suffix_range size (parse_i64 right)
read_ends size (some (c ∷ left, right)) =
    check_range size (parse_i64 (c ∷ left)) (last_byte size right)

-- What follows from the text behind `bytes=`.
pub read_spec : ℕ → Option Bytes → Option ByteRange
unfolding has_comma read_ends
read_spec size none = none
read_spec size (some v) = if has_comma v then none else read_ends size (break_on b'-' v)

unfoldable pub parse_single_range : Bytes → ℤ → Option ByteRange
unfolding read_spec
parse_single_range header_value size =
    if is_nonpos size
    then none
    else read_spec (to_ℕ size) (strip_prefix (codes "bytes=") (trim_and_collapse_ws header_value))

-- 0 ≤ start ≤ end < size
unfoldable pub IsWithin : ℤ → ByteRange → Type 0
IsWithin size r =
    (lebℤ (pos 0) r.start ≡ true) × (lebℤ r.start r.end ≡ true) × (ltbℤ r.end size ≡ true)

-- The range of a result, if it has one, is within the size.
Fine : ℤ → Option ByteRange → Type 0
Fine size none = Unit
Fine size (some r) = IsWithin size r

IsWithin-intro :
    (n a b : ℕ) → a ≤ b → b < n → IsWithin (pos n) (record { start = pos a; end = pos b })
unfolding IsWithin
IsWithin-intro n a b h k = (le→leb 0 a (omega arith), le→leb a b h, lt→ltb b n k)

suffix_range-Fine : (n : ℕ) (suffix : Option ℤ) → Fine (pos (suc n)) (suffix_range (suc n) suffix)
unfolding suffix_range Fine
suffix_range-Fine n none = tt
suffix_range-Fine n (some (negsuc k)) = tt
suffix_range-Fine n (some (pos zero)) = tt
suffix_range-Fine n (some (pos (suc k))) = elim (Bool-cases (leb (suc n) (suc k))) [
  | inl t ↦ rw t (IsWithin-intro (suc n) 0 (suc n - 1) (omega arith) (omega arith))
  | inr f ↦ rw f (IsWithin-intro (suc n) (suc n - suc k) (suc n - 1) (omega arith) (omega arith))
]

check_range-Fine :
    (n : ℕ) (first last : Option ℤ) → Fine (pos (suc n)) (check_range (suc n) first last)
unfolding check_range Fine
check_range-Fine n none last = tt
check_range-Fine n (some first) none = tt
check_range-Fine n (some (negsuc a)) (some last) = tt
check_range-Fine n (some (pos a)) (some (negsuc b)) = elim (Bool-cases (leb (suc n) a)) [
  | inl t ↦ rw t tt
  | inr f ↦ rw f tt
]
check_range-Fine n (some (pos a)) (some (pos b)) = elim (Bool-cases (leb (suc n) a)) [
  | inl t ↦ rw t tt
  | inr f ↦ elim (Bool-cases (ltb b a)) [
    | inl u ↦ rw (f, u) tt
    | inr v ↦ elim (Bool-cases (leb (suc n) b)) [
      | inl w ↦ rw (f, v, w) (IsWithin-intro (suc n) a (suc n - 1) (ground arith) (ground arith))
      | inr w ↦ rw (f, v, w) (IsWithin-intro (suc n) a b (ground arith) (ground arith))
    ]
  ]
]

read_ends-Fine : (n : ℕ) (o : Option (Bytes × Bytes)) → Fine (pos (suc n)) (read_ends (suc n) o)
unfolding read_ends Fine
read_ends-Fine n none = tt
read_ends-Fine n (some ([], right)) = suffix_range-Fine n (parse_i64 right)
read_ends-Fine n (some (c ∷ left, right)) =
    check_range-Fine n (parse_i64 (c ∷ left)) (last_byte (suc n) right)

read_spec-Fine : (n : ℕ) (o : Option Bytes) → Fine (pos (suc n)) (read_spec (suc n) o)
unfolding read_spec Fine
read_spec-Fine n none = tt
read_spec-Fine n (some v) = elim (Bool-cases (has_comma v)) [
  | inl t ↦ rw t tt
  | inr f ↦ rw f (read_ends-Fine n (break_on b'-' v))
]

parse_single_range-Fine : (header : Bytes) (size : ℤ) → Fine size (parse_single_range header size)
unfolding parse_single_range Fine
parse_single_range-Fine header (pos zero) = tt
parse_single_range-Fine header (pos (suc n)) =
    read_spec-Fine n (strip_prefix (codes "bytes=") (trim_and_collapse_ws header))
parse_single_range-Fine header (negsuc n) = tt

Fine-some : (size : ℤ) (r : ByteRange) → Fine size (some r) → IsWithin size r
unfolding Fine
Fine-some size r h = h

-- Every range that the parser accepts, whatever the header and the size, has
-- 0 ≤ start ≤ end < size.
pub parse_single_range-IsWithin :
    (header : Bytes) (size : ℤ) {r : ByteRange}
    → parse_single_range header size ≡ some r
    → IsWithin size r
parse_single_range-IsWithin header size {r} h =
    Fine-some size r (subst (Fine size) h (parse_single_range-Fine header size))
