-- ===== src/Gateway/Storage/Listing/Pages.antt =====
-- What a page of a listing holds.
use prompt_cache_storage.Prelude.{
  ℕ, zero, suc, ◌-◌, ◌≤◌, ℤ, pos, negsuc, ◌≡◌, sym, ◌∙◌, ap, subst, Bool, true, false, ◌||◌, ◌&&◌,
  inl, inr, Option, some, List, [], ◌∷◌, ◌++◌, Bytes, beq, arith, All, length, Bool-cases,
  Option-cases,
}
use prompt_cache_storage.Prelude.Text.{is_empty, strip_prefix, strip_prefix_sound}
use prompt_cache_storage.Gateway.Storage.Keys.{contains_nul, meta_prefix, meta_key}
use prompt_cache_storage.Gateway.Storage.Meta.{ObjectMeta, decode_meta}
use prompt_cache_storage.Gateway.Storage.Rocks.{Rocks, RocksLaws, LeBytes}
use prompt_cache_storage.Gateway.Storage.Env.{State, seek, timer}
use prompt_cache_storage.Gateway.Storage.Env.Laws.{held, timer_keeps}
use prompt_cache_storage.Gateway.Storage.Store.{bucket_exists}
use prompt_cache_storage.Gateway.Storage.Store.Objects.{bucket_exists_keeps}
use prompt_cache_storage.Gateway.Storage.Listing.{
  Coder, ListedObject, page_size, name_in, scan, skip_seen, page, start_page, list_checked,
  list_objects_v2,
}

-- The database holds the metadata of the object in the bucket, and its key has the prefix.
pub record IsListed (m : Bytes → Option Bytes) (bucket prefix : Bytes) (o : ListedObject)
    : Type 0 where
  pub value : Bytes
  pub there : m (meta_key bucket o.key) ≡ some value
  pub decodes : decode_meta value ≡ some o.meta
  pub rest : Bytes
  pub starts : o.key ≡ prefix ++ rest

abbrev IsHeld : (Bytes → Option Bytes) → Bytes × Bytes → Type 0
IsHeld m e = m e.0 ≡ some e.1

name_in_sound :
    (mp prefix k : Bytes) {name : Bytes}
    → name_in mp prefix k ≡ some name
    → (k ≡ mp ++ name) × ((rest : Bytes) × (name ≡ prefix ++ rest))
unfolding name_in
name_in_sound mp prefix k {name} h = elim (Option-cases (strip_prefix mp k)) [
  | inl e ↦ let q = rw (e, name_in) at h in cc q
  | inr (x, e) ↦ elim (Option-cases (strip_prefix prefix x)) [
    | inl f ↦ let q = rw (e, f, name_in) at h in cc q
    | inr (y, f) ↦
        let same : some x ≡ some name = rw (e, f, name_in) at h in
        let q : x ≡ name = cc same in
        (
          strip_prefix_sound mp k e ∙ ap (λ t. mp ++ t) q,
          (y, sym q ∙ strip_prefix_sound prefix x f),
        )
  ]
]

listed :
    (m : Bytes → Option Bytes) (b prefix k v name : Bytes) (meta : ObjectMeta)
    → name_in (meta_prefix b) prefix k ≡ some name
    → decode_meta v ≡ some meta
    → IsHeld m (k, v)
    → IsListed m b prefix (record { key = name; meta = meta })
unfolding meta_key
listed m b prefix k v name meta h d held =
    let (at_key, (rest, starts)) = name_in_sound (meta_prefix b) prefix k h in
    record {
      value = v;
      there = subst (λ x. m x ≡ some v) at_key held;
      decodes = d;
      rest = rest;
      starts = starts;
    }

scan-IsListed :
    (m : Bytes → Option Bytes) (b prefix : Bytes) (room : ℕ) (es : List (Bytes × Bytes))
    → All (IsHeld m) es
    → All (IsListed m b prefix) (scan (meta_prefix b) prefix room es).objects
unfolding scan
scan-IsListed m b prefix room [] h = tt
scan-IsListed m b prefix zero ((k, v) ∷ rest) (h, hs) =
    elim (Option-cases (name_in (meta_prefix b) prefix k)) [
      | inl e ↦ rw (e, scan) tt
      | inr (name, e) ↦ elim (Option-cases (decode_meta v)) [
        | inl d ↦ rw (e, d, scan) (scan-IsListed m b prefix zero rest hs)
        | inr (meta, d) ↦ rw (e, d, scan) (listed m b prefix k v name meta e d h, tt)
      ]
    ]
scan-IsListed m b prefix (suc n) ((k, v) ∷ rest) (h, hs) =
    elim (Option-cases (name_in (meta_prefix b) prefix k)) [
      | inl e ↦ rw (e, scan) tt
      | inr (name, e) ↦ elim (Option-cases (decode_meta v)) [
        | inl d ↦ rw (e, d, scan) (scan-IsListed m b prefix (suc n) rest hs)
        | inr (meta, d) ↦
            rw (e, d, scan)
              (listed m b prefix k v name meta e d h, scan-IsListed m b prefix n rest hs)
      ]
    ]

length-scan :
    (mp prefix : Bytes) (room : ℕ) (es : List (Bytes × Bytes))
    → length (scan mp prefix room es).objects ≤ suc room
unfolding scan
length-scan mp prefix room [] = omega arith
length-scan mp prefix zero ((k, v) ∷ rest) = elim (Option-cases (name_in mp prefix k)) [
  | inl e ↦ rw (e, scan) (omega arith)
  | inr (name, e) ↦ elim (Option-cases (decode_meta v)) [
    | inl d ↦ rw (e, d, scan) (length-scan mp prefix zero rest)
    | inr (meta, d) ↦ rw (e, d, scan) (omega arith)
  ]
]
length-scan mp prefix (suc n) ((k, v) ∷ rest) = elim (Option-cases (name_in mp prefix k)) [
  | inl e ↦ rw (e, scan) (omega arith)
  | inr (name, e) ↦ elim (Option-cases (decode_meta v)) [
    | inl d ↦ rw (e, d, scan) (length-scan mp prefix (suc n) rest)
    | inr (meta, d) ↦ rw (e, d, scan) (omega (arith, length-scan mp prefix n rest))
  ]
]

skip_seen_keeps :
    (m : Bytes → Option Bytes) (resumed : Bool) (k : Bytes) (es : List (Bytes × Bytes))
    → All (IsHeld m) es
    → All (IsHeld m) (skip_seen resumed k es)
unfolding skip_seen
skip_seen_keeps m resumed k [] h = tt
skip_seen_keeps m resumed k ((j, v) ∷ es) (h, hs) = elim (Bool-cases (resumed && beq j k)) [
  | inl e ↦ rw e hs
  | inr e ↦ rw e (h, hs)
]

page_size_bound : (max_keys : ℤ) → (1 ≤ page_size max_keys) × (page_size max_keys ≤ 1000)
unfolding page_size
page_size_bound (pos zero) = (omega arith, omega arith)
page_size_bound (pos (suc n)) = (ground arith, ground arith)
page_size_bound (negsuc n) = (omega arith, omega arith)

module _ {r : Rocks} (laws : RocksLaws r) (coder : Coder) where
  -- A page of at most `size` objects of the bucket, all of them held.
  abbrev pub IsPage : Bytes → Bytes → ℕ → State r → List ListedObject → Type 0
  IsPage b prefix size s objects =
      (length objects ≤ size) × All (IsListed (held laws s) b prefix) objects

  sound-IsHeld :
      (m : Bytes → Option Bytes) (k : Bytes) (es : List (Bytes × Bytes))
      → All (λ (e : Bytes × Bytes). LeBytes k e.0 × (m e.0 ≡ some e.1)) es
      → All (IsHeld m) es
  sound-IsHeld m k [] h = tt
  sound-IsHeld m k (e ∷ es) ((_, h), hs) = (h, sound-IsHeld m k es hs)

  seek-IsHeld : (k : Bytes) (s : State r) → All (IsHeld (held laws s)) (seek k s).0.entries
  unfolding seek
  seek-IsHeld k s = sound-IsHeld (held laws s) k _ (laws.seek_sound k s.world)

  page-IsPage :
      (b prefix : Bytes) (size : ℕ) (resumed : Bool) (seek_key : Bytes) (s : State r)
      → 1 ≤ size
      → IsPage b prefix size s
          (page coder (meta_prefix b) prefix size resumed seek_key s).0.0.objects
  unfolding page
  page-IsPage b prefix size resumed seek_key s h =
      let s₁ = (timer s).1 in
      let es = (seek seek_key s₁).0.entries in
      let here : All (IsHeld (held laws s)) es =
        subst (λ m. All (IsHeld m) es) (timer_keeps laws s) (seek-IsHeld seek_key s₁) in
      let shown = skip_seen resumed seek_key es in
      let bound = length-scan (meta_prefix b) prefix (size - 1) shown in
      (
        omega (arith, bound),
        scan-IsListed (held laws s) b prefix (size - 1) shown
            (skip_seen_keeps (held laws s) resumed seek_key es here),
      )

  empty-IsPage : (b prefix : Bytes) (size : ℕ) (s : State r) → IsPage b prefix size s []
  empty-IsPage b prefix size s = (omega arith, tt)

  start_page-IsPage :
      (b prefix : Bytes) (size : ℕ) (token : Bytes) (s : State r)
      → 1 ≤ size
      → IsPage b prefix size s (start_page coder (meta_prefix b) prefix size token s).0.0.objects
  unfolding start_page
  start_page-IsPage b prefix size token s h = elim (Bool-cases (is_empty token)) [
    | inl e ↦ rw e (page-IsPage b prefix size false (meta_prefix b ++ prefix) s h)
    | inr e ↦ elim (Option-cases (coder.decode token)) [
      | inl d ↦ rw (e, d) (empty-IsPage b prefix size s)
      | inr (k, d) ↦ rw (e, d) (page-IsPage b prefix size true k s h)
    ]
  ]

  list_checked-IsPage :
      (b prefix : Bytes) (max_keys : ℤ) (token : Bytes) (s : State r)
      → IsPage b prefix
          (page_size max_keys)
          s
          (list_checked coder b prefix max_keys token s).0.0.objects
  unfolding list_checked
  list_checked-IsPage b prefix max_keys token s = elim (Bool-cases (bucket_exists b s).0.0) [
    | inl e ↦
        let size = page_size max_keys in
        let (count, all) =
          start_page-IsPage b prefix size token (bucket_exists b s).1
            (page_size_bound max_keys).0 in
        rw e (
          count,
          subst
              (λ m.
                All (IsListed m b prefix)
                  (start_page coder (meta_prefix b) prefix (page_size max_keys) token
                    (bucket_exists b s).1).0.0.objects)
              (bucket_exists_keeps laws b s) all,
        )
    | inr e ↦ rw e (empty-IsPage b prefix (page_size max_keys) s)
  ]

  -- Whatever the token, and whether or not RocksDB fails, a listing has at most 1000 objects, no more
  -- than `page_size` allows, and each is an object of the bucket whose key has the prefix, with the
  -- metadata that the database holds.
  pub list_objects_v2-IsPage :
      (b prefix : Bytes) (max_keys : ℤ) (token : Bytes) (s : State r)
      → (page_size max_keys ≤ 1000)
        × IsPage b prefix
            (page_size max_keys)
            s
            (list_objects_v2 coder b prefix max_keys token s).0.0.objects
  unfolding list_objects_v2
  list_objects_v2-IsPage b prefix max_keys token s =
      elim (Bool-cases (contains_nul b || contains_nul prefix || contains_nul token)) [
        | inl e ↦
            ((page_size_bound max_keys).1, rw e (empty-IsPage b prefix (page_size max_keys) s))
        | inr e ↦
            ((page_size_bound max_keys).1, rw e (list_checked-IsPage b prefix max_keys token s))
      ]
