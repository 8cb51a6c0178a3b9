-- ===== src/Gateway/Api/Range/Sent.antt =====
-- `parse_single_range` on the header that `S3Storage::GetRange` of
-- index_layer/src/s3_storage.cc sends: `bytes=<first>-<last>`.
use prompt_cache_storage.Prelude.{
  ℕ, zero, suc, ◌-◌, ◌≤◌, ◌<◌, ◌^◌, ◌≡◌, ◌≢◌, refl, false, Option, some, [], ◌∷◌, ◌++◌, Bytes,
  codes, arith, leb, pos, All, min, Bool-cases, inl, inr, ◌∙◌, ap, sym, le→ltb_false, lt→leb_false,
}
use prompt_cache_storage.Prelude.Text.{
  strip_prefix, strip_prefix-append, break_on, break_on-append, Lacks,
}
use prompt_cache_storage.Prelude.Numeral.{
  from_chars, to_string, to_stringℤ-pos, from_chars-to_stringℤ, to_string-IsDigit, to_string-ne-nil,
  IsDigit,
}
use prompt_cache_storage.Gateway.Util.Whitespace.{
  trim_and_collapse_ws, trim_and_collapse_ws-NoSpace, NoSpace, is_space,
}
use prompt_cache_storage.Gateway.Api.Range.{
  ByteRange, has_comma, parse_i64, check_range, last_byte, read_ends, read_spec, parse_single_range,
}

-- The header's text.
unfoldable pub sent : ℕ → ℕ → Bytes
sent first last = codes "bytes=" ++ to_string first ++ b'-' ∷ to_string last

digits-NoSpace : (s : Bytes) → All IsDigit s → NoSpace s
unfolding is_space
digits-NoSpace [] h = tt
digits-NoSpace (c ∷ s) ((lo, hi), hs) = (ground arith, digits-NoSpace s hs)

append-NoSpace : (s t : Bytes) → NoSpace s → NoSpace t → NoSpace (s ++ t)
append-NoSpace [] t h k = k
append-NoSpace (c ∷ s) t (h, hs) k = (h, append-NoSpace s t hs k)

prefix-NoSpace : NoSpace (codes "bytes=")
unfolding is_space
prefix-NoSpace = (refl, (refl, (refl, (refl, (refl, (refl, tt))))))

dash-NoSpace : is_space b'-' ≡ false
unfolding is_space
dash-NoSpace = refl

pub sent-NoSpace : (a e : ℕ) → NoSpace (sent a e)
unfolding sent
sent-NoSpace a e = append-NoSpace (codes "bytes=") _ prefix-NoSpace (
    append-NoSpace (to_string a) _ (digits-NoSpace _ (to_string-IsDigit a))
      (dash-NoSpace, digits-NoSpace _ (to_string-IsDigit e)))

digits_comma : (s t : Bytes) → All IsDigit s → has_comma (s ++ t) ≡ has_comma t
unfolding has_comma
digits_comma [] t h = refl
digits_comma (c ∷ s) t ((lo, hi), hs) = rw (digits_comma s t hs) (ground arith)

no_comma : (s : Bytes) → All IsDigit s → has_comma s ≡ false
unfolding has_comma
no_comma [] h = refl
no_comma (c ∷ s) ((lo, hi), hs) = rw (no_comma s hs) (ground arith)

dash_comma : (s : Bytes) → has_comma (b'-' ∷ s) ≡ has_comma s
unfolding has_comma
dash_comma s = refl

ends_comma : (a e : ℕ) → has_comma (to_string a ++ b'-' ∷ to_string e) ≡ false
ends_comma a e =
    digits_comma (to_string a) _ (to_string-IsDigit a)
    ∙ dash_comma (to_string e)
    ∙ no_comma (to_string e) (to_string-IsDigit e)

digits-Lacks : (s : Bytes) → All IsDigit s → Lacks b'-' s
digits-Lacks [] h = tt
digits-Lacks (c ∷ s) ((lo, hi), hs) = (omega arith, digits-Lacks s hs)

from_chars-to_string : (n : ℕ) → n < 2 ^ 63 → from_chars (to_string n) ≡ some (pos n)
from_chars-to_string n h = rw (sym (to_stringℤ-pos n)) (from_chars-to_stringℤ (pos n) h)

read_ends_digits :
    (size : ℕ) (s t : Bytes)
    → s ≢ []
    → t ≢ []
    → read_ends size (some (s, t)) ≡ check_range size (from_chars s) (from_chars t)
unfolding read_ends parse_i64 last_byte
read_ends_digits size [] t h k = absurd (h refl)
read_ends_digits size (c ∷ s) [] h k = absurd (k refl)
read_ends_digits size (c ∷ s) (d ∷ t) h k = refl

some_range : ℕ → ℕ → Option ByteRange
some_range a b = some (record { start = pos a; end = pos b })

check_range_inside :
    (size a e : ℕ)
    → a ≤ e
    → a < size
    → check_range size (some (pos a)) (some (pos e))
      ≡ some (record { start = pos a; end = pos (min e (size - 1)) })
unfolding check_range some_range
check_range_inside size a e h k = elim (Bool-cases (leb size e)) [
  | inl t ↦ rw (lt→leb_false size a k, le→ltb_false e a h, t) (ap (some_range a) (ground arith))
  | inr f ↦ rw (lt→leb_false size a k, le→ltb_false e a h, f) (ap (some_range a) (ground arith))
]

parse_size :
    (size : ℕ) (header : Bytes)
    → 0 < size
    → parse_single_range header (pos size)
      ≡ read_spec size (strip_prefix (codes "bytes=") (trim_and_collapse_ws header))
unfolding parse_single_range
parse_size zero header h = absurd (omega arith)
parse_size (suc n) header h = refl

read_spec_ends :
    (size : ℕ) (v : Bytes)
    → has_comma v ≡ false
    → read_spec size (some v) ≡ read_ends size (break_on b'-' v)
unfolding read_spec
read_spec_ends size v h = rw h

strip_sent :
    (a e : ℕ) → strip_prefix (codes "bytes=") (sent a e) ≡ some (to_string a ++ b'-' ∷ to_string e)
unfolding sent
strip_sent a e = strip_prefix-append (codes "bytes=") (to_string a ++ b'-' ∷ to_string e)

parse_sent :
    (size a e : ℕ)
    → 0 < size
    → parse_single_range (sent a e) (pos size)
      ≡ read_ends size (break_on b'-' (to_string a ++ b'-' ∷ to_string e))
parse_sent size a e h =
    rw
      (
        parse_size size (sent a e) h,
        trim_and_collapse_ws-NoSpace (sent a e) (sent-NoSpace a e),
        strip_sent a e,
      )
      (read_spec_ends size _ (ends_comma a e))

-- For first ≤ last < 2^63 and `first` within the object, the sent range is read as it was sent,
-- and a last byte behind the object's end as the object's last byte.
pub parse_single_range-sent :
    (size first last : ℕ)
    → first < size
    → first ≤ last
    → last < 2 ^ 63
    → parse_single_range (sent first last) (pos size)
      ≡ some (record { start = pos first; end = pos (min last (size - 1)) })
parse_single_range-sent size a e inside order small =
    rw
      (
        parse_sent size a e (omega arith),
        break_on-append b'-' (to_string a) (to_string e) (digits-Lacks _ (to_string-IsDigit a)),
        read_ends_digits size (to_string a) (to_string e) (to_string-ne-nil a) (to_string-ne-nil e),
        from_chars-to_string a (omega arith),
        from_chars-to_string e small,
      )
      (check_range_inside size a e order inside)
