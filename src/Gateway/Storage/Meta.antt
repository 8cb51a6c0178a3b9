-- ===== src/Gateway/Storage/Meta.antt =====
-- `ObjectMeta` and its encoding: size, time, ETag and content type, separated by NUL.
use prompt_cache_storage.Prelude.{ℤ, ◌≡◌, refl, Option, none, some, ◌∷◌, ◌++◌, Bytes, arith}
use prompt_cache_storage.Prelude.Int.{IsInt64}
use prompt_cache_storage.Prelude.Text.{Lacks, break_on, break_on-append}
use prompt_cache_storage.Prelude.Numeral.{
  to_stringℤ, from_chars, from_chars-to_stringℤ, to_stringℤ-Lacks,
}

pub record ObjectMeta : Type 0 where
  pub etag : Bytes
  pub mtime : ℤ
  pub size : ℤ
  pub content_type : Bytes

unfoldable pub encode_meta : ObjectMeta → Bytes
encode_meta m = to_stringℤ m.size ++ 0 ∷ (to_stringℤ m.mtime ++ 0 ∷ (m.etag ++ 0 ∷ m.content_type))

infixl 5 ◌>>=◌
abbrev ◌>>=◌ {ℓ κ} : {A : Type ℓ} {B : Type κ} → Option A → (A → Option B) → Option B
none >>= f = none
some a >>= f = f a

-- The three positions are those of the first three NULs.
unfoldable pub decode_meta : Bytes → Option ObjectMeta
decode_meta v = do
  (size_text, rest) ← break_on 0 v
  (mtime_text, tail) ← break_on 0 rest
  (etag, content_type) ← break_on 0 tail
  size ← from_chars size_text
  mtime ← from_chars mtime_text
  some (record { etag = etag; mtime = mtime; size = size; content_type = content_type })

-- What `encode_meta` writes, `decode_meta` reads back, for every size and time of 64 bits and every
-- ETag that is free of NUL; the content type may be any text.
pub decode_meta-encode_meta :
    (m : ObjectMeta)
    → IsInt64 m.size
    → IsInt64 m.mtime
    → Lacks 0 m.etag
    → decode_meta (encode_meta m) ≡ some m
unfolding decode_meta encode_meta
decode_meta-encode_meta m hs ht he =
    rw
      (
        break_on-append 0 (to_stringℤ m.size) _ (to_stringℤ-Lacks 0 m.size (omega arith)),
        break_on-append 0 (to_stringℤ m.mtime) _ (to_stringℤ-Lacks 0 m.mtime (omega arith)),
        break_on-append 0 m.etag m.content_type he,
        from_chars-to_stringℤ m.size hs,
        from_chars-to_stringℤ m.mtime ht,
      )
      refl
