-- ===== src/Gateway/Storage/Store.antt =====
-- The methods of `RocksObjectStore`. Each returns what it reports and the state; `err`, which every
-- caller passes empty, is part of the result.
pub mod Objects
pub mod Reads
pub mod Readers
pub mod Gauge
pub mod Reliable
mod Tests
pub mod Buckets
use prompt_cache_storage.Prelude.{
  ℕ, ℤ, pos, Bool, true, false, ◌||◌, ◌&&◌, not, Option, none, some, List, [], ◌∷◌, ◌++◌, Bytes,
  codes, beq, length, if◌then◌else◌, leb,
}
use prompt_cache_storage.Prelude.Int.{is_nonpos, ltbℤ, to_ℕ}
use prompt_cache_storage.Prelude.Text.{is_empty, strip_prefix}
use prompt_cache_storage.Gateway.Storage.Keys.{
  contains_nul, bucket_key, meta_prefix, meta_key, data_key,
}
use prompt_cache_storage.Gateway.Storage.Meta.{ObjectMeta, encode_meta, decode_meta}
use prompt_cache_storage.Gateway.Storage.Rocks.{
  Rocks, Status, fine, not_found, broken, BatchOp, put, delete, Cursor,
}
use prompt_cache_storage.Gateway.Storage.Env.{
  State, M, pure, get, write, seek, now_seconds, timer, observe_iter, ◌>>=◌, ◌>>◌,
}

-- `true` with what the method stored through its pointers, or `false` with the text of `err`.
pub data Result (A : Type 0) : Type 0 where
  ok : A → Result A
  err : Bytes → Result A

-- The text of a status that is not OK.
abbrev pub status_text : Status → Bytes
status_text fine = codes "OK"
status_text not_found = codes "NotFound: "
status_text (broken e) = e

-- The content type that `put_object` records.
unfoldable pub default_type : Bytes → Bytes
default_type t = if is_empty t then codes "application/octet-stream" else t

-- The loop of `list_buckets`: the names read, and the iterator where it stopped.
bucket_names : List (Bytes × Bytes) → List Bytes × List (Bytes × Bytes)
bucket_names [] = ([], [])
bucket_names ((k, v) ∷ rest) =
    let (names, left) = bucket_names rest in
    elim (strip_prefix (b'B' ∷ 0 ∷ []) k) [
      | none ↦ ([], (k, v) ∷ rest)
      | some name ↦ (name ∷ names, left)
    ]

-- `it->status()`: OK while an entry is left.
unfoldable pub status_of : List (Bytes × Bytes) → Status → Status
status_of [] at_end = at_end
status_of (e ∷ es) at_end = fine

-- `err` after `if (!st.ok()) *err = st.ToString()`.
unfoldable pub error_of : Status → Bytes
error_of fine = []
error_of not_found = status_text not_found
error_of (broken e) = e

-- Whether the iterator stands on a key of the bucket, or has failed.
unfoldable pub not_empty : Bytes → Cursor → Option Bytes
not_empty bucket it = elim it.entries [
  | [] ↦ elim it.at_end [
    | fine ↦ none
    | not_found ↦ some (status_text not_found)
    | broken e ↦ some e
  ]
  | e ∷ es ↦ elim (strip_prefix (meta_prefix bucket) e.0) [
    | none ↦ none
    | some key ↦ some (codes "BucketNotEmpty")
  ]
]

unfoldable pub written : {A : Type 0} → A → Status → Result A
written a fine = ok a
written a not_found = err (status_text not_found)
written a (broken e) = err e

abbrev pub invalid : {A : Type 0} → Result A
invalid = err (codes "Invalid bucket/key")

decoded : Result Bytes → Result ObjectMeta
decoded (ok v) = elim (decode_meta v) [ none ↦ err (codes "Corrupt metadata") | some m ↦ ok m ]
decoded (err e) = err e

module _ {r : Rocks} where
  -- `bucket_exists`: the result, and `err`.
  unfoldable pub bucket_exists : Bytes → M r (Bool × Bytes)
  bucket_exists bucket =
      let read : M r (Bool × Bytes) = (do
        (st, _) ← get (bucket_key bucket)
        pure (elim st [ fine ↦ (true, []) | not_found ↦ (false, []) | broken e ↦ (false, e) ])) in
      if contains_nul bucket then pure (false, codes "Invalid bucket") else read

  -- `if (!bucket_exists(bucket, err)) { if (err->empty()) *err = "NoSuchBucket"; return false; }`
  unfoldable pub if_exists : {A : Type 0} → Bytes → M r (Result A) → M r (Result A)
  if_exists bucket rest = do
    (exists, e) ← bucket_exists bucket
    let missing = pure (err (if is_empty e then codes "NoSuchBucket" else e))
    if exists then rest else missing

  unfoldable pub mark_bucket : Bytes → Status → M r (Result (Unit {0}))
  mark_bucket bucket fine = pure (ok tt)
  mark_bucket bucket (broken e) = pure (err e)
  mark_bucket bucket not_found = do
    st ← write (codes "put") 0 (put (bucket_key bucket) [] ∷ [])
    pure (elim st [ fine ↦ ok tt | not_found ↦ err (status_text not_found) | broken e ↦ err e ])

  -- `create_bucket` past its guard.
  unfoldable pub create_bucket_checked : Bytes → M r (Result (Unit {0}))
  unfolding mark_bucket
  create_bucket_checked bucket = (do (st, _) ← get (bucket_key bucket); mark_bucket bucket st)

  unfoldable pub create_bucket : Bytes → M r (Result (Unit {0}))
  unfolding create_bucket_checked
  create_bucket bucket =
      if contains_nul bucket
      then pure (err (codes "Invalid bucket"))
      else create_bucket_checked bucket

  unfoldable pub list_buckets : M r (List Bytes × Bytes)
  unfolding bucket_names status_of error_of
  list_buckets = do
    start ← timer
    it ← seek (b'B' ∷ 0 ∷ [])
    let (names, left) = bucket_names it.entries
    let st = status_of left it.at_end
    observe_iter st start
    pure (names, error_of st)

  -- `delete_bucket` past its checks, with the iterator.
  unfoldable pub drop_marker : Bytes → M r (Result (Unit {0}))
  unfolding written
  drop_marker bucket = do
    st ← write (codes "delete") 0 (delete (bucket_key bucket) ∷ [])
    pure (written tt st)

  -- `*err = …; return false;` if there is something to report.
  unfoldable pub unless_found : M r (Result (Unit {0})) → Option Bytes → M r (Result (Unit {0}))
  unless_found rest none = rest
  unless_found rest (some e) = pure (err e)

  unfoldable pub drop_if_empty : Bytes → M r (Result (Unit {0}))
  drop_if_empty bucket = do
    it ← seek (meta_prefix bucket)
    unless_found (drop_marker bucket) (not_empty bucket it)

  -- `delete_bucket` past its guard.
  unfoldable pub delete_bucket_checked : Bytes → M r (Result (Unit {0}))
  delete_bucket_checked bucket = if_exists bucket (drop_if_empty bucket)

  unfoldable pub delete_bucket : Bytes → M r (Result (Unit {0}))
  unfolding delete_bucket_checked
  delete_bucket bucket =
      if contains_nul bucket
      then pure (err (codes "Invalid bucket"))
      else delete_bucket_checked bucket

  -- `put_object` past its guard.
  unfoldable pub put_object_checked : Bytes → Bytes → Bytes → Bytes → M r (Result ObjectMeta)
  unfolding default_type written
  put_object_checked bucket key bytes content_type = (do
    now ← now_seconds
    let m : ObjectMeta = record {
      etag = [];
      mtime = now;
      size = pos (length bytes);
      content_type = default_type content_type;
    }
    st ←
        write (codes "write") (length bytes)
          (put (data_key bucket key) bytes ∷ put (meta_key bucket key) (encode_meta m) ∷ [])
    pure (written m st))

  unfoldable pub put_object : Bytes → Bytes → Bytes → Bytes → M r (Result ObjectMeta)
  unfolding put_object_checked
  put_object bucket key bytes content_type =
      if contains_nul bucket || contains_nul key
      then pure invalid
      else put_object_checked bucket key bytes content_type

  -- `Get` of a value that must be there.
  unfoldable pub read_key : Bytes → M r (Result Bytes)
  read_key k = do
    (st, v) ← get k
    pure (elim st [ fine ↦ ok v | not_found ↦ err (codes "NoSuchKey") | broken e ↦ err e ])

  -- `head_object` past its checks.
  unfoldable pub read_meta : Bytes → Bytes → M r (Result ObjectMeta)
  unfolding decoded
  read_meta bucket key = do v ← read_key (meta_key bucket key); pure (decoded v)

  -- `head_object` past its guard.
  unfoldable pub head_object_checked : Bytes → Bytes → M r (Result ObjectMeta)
  head_object_checked bucket key = if_exists bucket (read_meta bucket key)

  unfoldable pub head_object : Bytes → Bytes → M r (Result ObjectMeta)
  unfolding head_object_checked
  head_object bucket key =
      if contains_nul bucket || contains_nul key
      then pure invalid
      else head_object_checked bucket key

  -- `get_object_data` past its guard.
  unfoldable pub get_object_data_checked : Bytes → Bytes → M r (Result Bytes)
  unfolding read_key
  get_object_data_checked bucket key = read_key (data_key bucket key)

  unfoldable pub get_object_data : Bytes → Bytes → M r (Result Bytes)
  unfolding get_object_data_checked
  get_object_data bucket key =
      if contains_nul bucket || contains_nul key
      then pure invalid
      else get_object_data_checked bucket key

  unfoldable pub with_data : Bytes → Bytes → Result ObjectMeta → M r (Result (Bytes × ObjectMeta))
  with_data bucket key (err e) = pure (err e)
  with_data bucket key (ok m) = do
    v ← read_key (data_key bucket key)
    pure (elim v [ ok bytes ↦ ok (bytes, m) | err e ↦ err e ])

  unfoldable pub get_object : Bytes → Bytes → M r (Result (Bytes × ObjectMeta))
  unfolding head_object with_data
  get_object bucket key = do m ← head_object bucket key; with_data bucket key m

  -- The batch of `delete_object`.
  unfoldable pub remove_object : Bytes → Bytes → M r (Result (Unit {0}))
  unfolding written
  remove_object bucket key = do
    st ← write (codes "write") 0 (delete (meta_key bucket key) ∷ delete (data_key bucket key) ∷ [])
    pure (written tt st)

  -- `delete_object` past its guard.
  unfoldable pub delete_object_checked : Bytes → Bytes → M r (Result (Unit {0}))
  delete_object_checked bucket key = if_exists bucket (remove_object bucket key)

  unfoldable pub delete_object : Bytes → Bytes → M r (Result (Unit {0}))
  unfolding delete_object_checked
  delete_object bucket key =
      if contains_nul bucket || contains_nul key
      then pure invalid
      else delete_object_checked bucket key
