-- ===== src/Gateway/Storage/Listing.antt =====
-- `RocksObjectStore::list_objects_v2`. The coder of the continuation token stands on OpenSSL and is a
-- parameter.
pub mod Pages
pub mod Complete
pub mod Walk
pub mod Covered
mod Tests
pub mod Keeps
pub mod Gauge
use prompt_cache_storage.Prelude.{
  ℕ, zero, suc, ◌-◌, ℤ, pos, negsuc, Bool, true, false, ◌||◌, ◌&&◌, not, Option, none, some, List,
  [], ◌∷◌, ◌++◌, Bytes, codes, beq, if◌then◌else◌, leb, min,
}
use prompt_cache_storage.Prelude.Text.{is_empty, strip_prefix}
use prompt_cache_storage.Gateway.Storage.Keys.{contains_nul, meta_prefix}
use prompt_cache_storage.Gateway.Storage.Meta.{ObjectMeta, decode_meta}
use prompt_cache_storage.Gateway.Storage.Rocks.{Rocks, Status, Cursor}
use prompt_cache_storage.Gateway.Storage.Env.{
  State, M, pure, seek, timer, observe_iter, ◌>>=◌, ◌>>◌,
}
use prompt_cache_storage.Gateway.Storage.Store.{bucket_exists, status_of, error_of}

-- `util::base64_encode` and `util::base64_decode`
pub record Coder : Type 0 where
  pub encode : Bytes → Bytes
  pub decode : Bytes → Option Bytes

pub record ListedObject : Type 0 where
  pub key : Bytes
  pub meta : ObjectMeta

pub record ListResult : Type 0 where
  pub objects : List ListedObject
  pub is_truncated : Bool
  pub next_continuation_token : Bytes

abbrev pub no_objects : ListResult
no_objects = record { objects = []; is_truncated = false; next_continuation_token = [] }

-- What the loop leaves: the objects, the last key if the page is full, and the entries from the
-- iterator on.
pub record Scan : Type 0 where
  pub objects : List ListedObject
  pub last_key : Option Bytes
  pub left : List (Bytes × Bytes)

-- `max_keys` as the two tests leave it.
unfoldable pub page_size : ℤ → ℕ
page_size (pos zero) = 1000
page_size (pos (suc n)) = min (suc n) 1000
page_size (negsuc n) = 1000

-- The name of the object whose metadata stand under the key, if it is in the bucket and has the
-- prefix.
pub name_in : Bytes → Bytes → Bytes → Option Bytes
name_in mp prefix k = elim (strip_prefix mp k) [
  | none ↦ none
  | some obj_key ↦ elim (strip_prefix prefix obj_key) [ none ↦ none | some _ ↦ some obj_key ]
]

-- The loop; `room` is how many objects may follow the next one.
pub scan : Bytes → Bytes → ℕ → List (Bytes × Bytes) → Scan
unfolding name_in
scan mp prefix room [] = record { objects = []; last_key = none; left = [] }
scan mp prefix room ((k, v) ∷ rest) = elim (name_in mp prefix k) [
  | none ↦ record { objects = []; last_key = none; left = (k, v) ∷ rest }
  | some obj_key ↦ elim (decode_meta v) [
    | none ↦ scan mp prefix room rest
    | some m ↦ elim room [
      | zero ↦ record {
        objects = record { key = obj_key; meta = m } ∷ [];
        last_key = some k;
        left = (k, v) ∷ rest;
      }
      | suc n ↦
          let more = scan mp prefix n rest in
          record more { objects = record { key = obj_key; meta = m } ∷ more.objects }
    ]
  ]
]

-- Whether the entry after the one that the second iterator stands on belongs to the listing.
pub another : Bytes → Bytes → List (Bytes × Bytes) → Bool
unfolding name_in
another mp prefix [] = false
another mp prefix (e ∷ []) = false
another mp prefix (e ∷ (k, v) ∷ rest) = elim (name_in mp prefix k) [ none ↦ false | some _ ↦ true ]

-- A token names the last key of the page before, which is left out.
pub skip_seen : Bool → Bytes → List (Bytes × Bytes) → List (Bytes × Bytes)
skip_seen resumed seek_key [] = []
skip_seen resumed seek_key ((k, v) ∷ rest) =
    if resumed && beq k seek_key then rest else (k, v) ∷ rest

module _ {r : Rocks} (coder : Coder) where
  -- The key to continue from, if the page is full and more follows.
  pub look_ahead : Bytes → Bytes → Option Bytes → M r (Option Bytes)
  unfolding another
  look_ahead mp prefix none = pure none
  look_ahead mp prefix (some last) = do
    it2 ← seek last
    pure (if another mp prefix it2.entries then some last else none)

  -- From the iterator on.
  pub page : Bytes → Bytes → ℕ → Bool → Bytes → M r (ListResult × Bytes)
  unfolding scan skip_seen look_ahead
  page mp prefix size resumed seek_key = do
    start ← timer
    it ← seek seek_key
    let sc = scan mp prefix (size - 1) (skip_seen resumed seek_key it.entries)
    next ← look_ahead mp prefix sc.last_key
    let st = status_of sc.left it.at_end
    observe_iter st start
    pure (
      record {
        objects = sc.objects;
        is_truncated = elim next [ none ↦ false | some _ ↦ true ];
        next_continuation_token = elim next [ none ↦ [] | some k ↦ coder.encode k ];
      },
      error_of st,
    )

  pub start_page : Bytes → Bytes → ℕ → Bytes → M r (ListResult × Bytes)
  unfolding page
  start_page mp prefix size token =
      if is_empty token
      then page mp prefix size false (mp ++ prefix)
      else elim (coder.decode token) [
        | none ↦ pure (no_objects, codes "Invalid continuation-token")
        | some seek_key ↦ page mp prefix size true seek_key
      ]

  pub list_checked : Bytes → Bytes → ℤ → Bytes → M r (ListResult × Bytes)
  unfolding start_page page_size
  list_checked bucket prefix max_keys token = do
    (exists, e) ← bucket_exists bucket
    let missing = pure (no_objects, if is_empty e then codes "NoSuchBucket" else e)
    if exists then start_page (meta_prefix bucket) prefix (page_size max_keys) token else missing

  unfoldable pub list_objects_v2 : Bytes → Bytes → ℤ → Bytes → M r (ListResult × Bytes)
  unfolding list_checked
  list_objects_v2 bucket prefix max_keys token =
      if contains_nul bucket || contains_nul prefix || contains_nul token
      then pure (no_objects, codes "Invalid bucket/prefix/token")
      else list_checked bucket prefix max_keys token
