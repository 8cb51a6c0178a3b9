-- ===== src/Gateway/Storage/Listing/Covered.antt =====
-- The pages of a listing cover its objects.
use mathlib.Core.List.{Memᴰ}
use prompt_cache_storage.Prelude.{
  ℕ, ◌-◌, ℤ, ◌≡◌, ◌≢◌, ◌⊎◌, refl, ◌∙◌, ap, subst, Bool, true, false, ◌||◌, inl, inr, Option, none,
  some, List, [], ◌∷◌, ◌++◌, Bytes, All, Bool-cases, if◌then◌else◌,
}
use prompt_cache_storage.Prelude.Text.{is_empty}
use prompt_cache_storage.Gateway.Storage.Keys.{contains_nul, meta_prefix}
use prompt_cache_storage.Gateway.Storage.Meta.{ObjectMeta, decode_meta}
use prompt_cache_storage.Gateway.Storage.Rocks.{Rocks, RocksLaws, fine, LeBytes, Member}
use prompt_cache_storage.Gateway.Storage.Rocks.Order.{LeBytes-refl, LeBytes-trans}
use prompt_cache_storage.Gateway.Storage.Env.{State, seek, timer}
use prompt_cache_storage.Gateway.Storage.Env.Laws.{held, timer_keeps, seek_keeps}
use prompt_cache_storage.Gateway.Storage.Store.{bucket_exists}
use prompt_cache_storage.Gateway.Storage.Store.Objects.{bucket_exists_keeps}
use prompt_cache_storage.Gateway.Storage.Listing.{
  Coder, ListedObject, ListResult, Scan, page_size, scan, skip_seen, look_ahead, page, start_page,
  list_checked, list_objects_v2,
}
use prompt_cache_storage.Gateway.Storage.Listing.Complete.{IsCovered, scan-IsCovered}
use prompt_cache_storage.Gateway.Storage.Listing.Walk.{
  IsWalk, another_found, skip_seen-Member, skip_seen-All, skip_seen-IsSorted, All-Member, raise,
}

module _ {r : Rocks} (laws : RocksLaws r) (coder : Coder)
    (walks : (k : Bytes) (w : r.World) → (r.seek k w).0.at_end ≡ fine) where
  sound-IsWalk : (k : Bytes) (w : r.World) → IsWalk (laws.holds w) k (r.seek k w).0.entries
  sound-IsWalk k w = record {
    behind = behind_of _ (laws.seek_sound k w);
    held = held_of _ (laws.seek_sound k w);
    sorted = laws.seek_sorted k w;
    complete = λ j v le there. elim (laws.seek_complete k w j v le there) [
      | inl found ↦ found
      | inr (failed, _) ↦ absurd (failed (walks k w))
    ];
  }
    where
      behind_of :
          (es : List (Bytes × Bytes))
          → All (λ (e : Bytes × Bytes). LeBytes k e.0 × (laws.holds w e.0 ≡ some e.1)) es
          → All (λ (e : Bytes × Bytes). LeBytes k e.0) es
      behind_of [] h = tt
      behind_of (e ∷ es) (h, hs) = (h.0, behind_of es hs)

      held_of :
          (es : List (Bytes × Bytes))
          → All (λ (e : Bytes × Bytes). LeBytes k e.0 × (laws.holds w e.0 ≡ some e.1)) es
          → All (λ (e : Bytes × Bytes). laws.holds w e.0 ≡ some e.1) es
      held_of [] h = tt
      held_of (e ∷ es) (h, hs) = (h.1, held_of es hs)

  seek-IsWalk :
      (k : Bytes) (s t : State r)
      → held laws t ≡ held laws s
      → IsWalk (held laws s) k (seek k t).0.entries
  unfolding seek
  seek-IsWalk k s t e = subst (λ m. IsWalk m k (seek k t).0.entries) e (sound-IsWalk k t.world)

  module _ (mp prefix x v : Bytes) (meta : ObjectMeta) (decodes : decode_meta v ≡ some meta) where
    abbrev object : ListedObject
    object = record { key = prefix ++ x; meta = meta }

    -- The object is on the page, or the page has a token, for a key of the listing before the object.
    abbrev pub IsOnOrAfter : ListResult → Type 0
    IsOnOrAfter page =
        Memᴰ object page.objects
        ⊎ ((page.is_truncated ≡ true)
            × ((last : Bytes) × (page.next_continuation_token ≡ coder.encode last)
                × LeBytes (mp ++ prefix) last
                × LeBytes last (mp ++ (prefix ++ x))
                × (last ≢ mp ++ (prefix ++ x))))

    look_ahead-truncated :
        (last lv : Bytes) (s t : State r)
        → held laws t ≡ held laws s
        → LeBytes (mp ++ prefix) last
        → held laws s last ≡ some lv
        → LeBytes last (mp ++ (prefix ++ x))
        → last ≢ mp ++ (prefix ++ x)
        → held laws s (mp ++ (prefix ++ x)) ≡ some v
        → (look_ahead coder mp prefix (some last) t).0 ≡ some last
    unfolding look_ahead
    look_ahead-truncated last lv s t e lo at le ne there =
        rw
          (another_found (held laws s) mp prefix x last lv v (seek last t).0.entries
            (seek-IsWalk last s t e) lo at le ne there)
          refl

    -- What a page is made of: the objects, and the key to continue from.
    abbrev result_of : List ListedObject → Option Bytes → ListResult
    result_of objects next = record {
      objects = objects;
      is_truncated = elim next [ none ↦ false | some _ ↦ true ];
      next_continuation_token = elim next [ none ↦ [] | some k ↦ coder.encode k ];
    }

    result-IsOnOrAfter :
        (m : Bytes → Option Bytes) (es : List (Bytes × Bytes)) (sc : Scan) (next : Option Bytes)
        → IsCovered mp prefix x m v meta decodes es sc
        → ((last lv : Bytes)
            → sc.last_key ≡ some last
            → Member (last, lv) es
            → LeBytes last (mp ++ (prefix ++ x))
            → last ≢ mp ++ (prefix ++ x)
            → (next ≡ some last) × LeBytes (mp ++ prefix) last)
        → IsOnOrAfter (result_of sc.objects next)
    result-IsOnOrAfter m es sc next (inl on) more = inl on
    result-IsOnOrAfter m es sc next (inr (last, lv, full, there, le, ne)) more =
        let (goes_on, lo) = more last lv full there le ne in
        inr (
          ap (λ (o : Option Bytes). (result_of [] o).is_truncated) goes_on,
          (
            last,
            ap (λ (o : Option Bytes). (result_of [] o).next_continuation_token) goes_on,
            lo,
            le,
            ne,
          ),
        )

    page-IsOnOrAfter :
        (size : ℕ) (resumed : Bool) (from : Bytes) (s : State r)
        → LeBytes (mp ++ prefix) from
        → LeBytes from (mp ++ (prefix ++ x))
        → (resumed ≡ true → from ≢ mp ++ (prefix ++ x))
        → held laws s (mp ++ (prefix ++ x)) ≡ some v
        → IsOnOrAfter (page coder mp prefix size resumed from s).0.0
    unfolding page
    page-IsOnOrAfter size resumed from s lo le ne there =
        let m = held laws s in
        let s₁ = (timer s).1 in
        let es = (seek from s₁).0.entries in
        let walk = seek-IsWalk from s s₁ (timer_keeps laws s) in
        let shown = skip_seen resumed from es in
        let behind : All (λ (e : Bytes × Bytes). LeBytes (mp ++ prefix) e.0) shown =
          skip_seen-All (λ (e : Bytes × Bytes). LeBytes (mp ++ prefix) e.0) resumed from es
            (raise (mp ++ prefix) from es lo walk.behind) in
        let are_held : All (λ (e : Bytes × Bytes). m e.0 ≡ some e.1) shown =
          skip_seen-All (λ (e : Bytes × Bytes). m e.0 ≡ some e.1) resumed from es walk.held in
        let sc = scan mp prefix (size - 1) shown in
        result-IsOnOrAfter m shown sc (look_ahead coder mp prefix sc.last_key (seek from s₁).1).0
          (scan-IsCovered mp prefix x m v meta decodes (size - 1) shown behind are_held
            (skip_seen-IsSorted resumed from es walk.sorted)
            (skip_seen-Member m mp prefix x resumed from v es ne
              (walk.complete (mp ++ (prefix ++ x)) v le there)))
          (λ last lv full at last_le last_ne.
            let low =
              All-Member (λ (e : Bytes × Bytes). LeBytes (mp ++ prefix) e.0) shown behind at in
            (
              ap (λ o. (look_ahead coder mp prefix o (seek from s₁).1).0) full
                  ∙ look_ahead-truncated last lv s (seek from s₁).1
                      (seek_keeps laws from s₁ ∙ timer_keeps laws s) low
                      (All-Member (λ (e : Bytes × Bytes). m e.0 ≡ some e.1) shown are_held at)
                      last_le last_ne there,
              low,
            ))

  -- The key that a token names; without a token, that of the first entry a listing can have.
  abbrev pub start_of : Bytes → Bytes → Bytes → Option Bytes
  start_of b prefix token =
      if is_empty token then some (meta_prefix b ++ prefix) else coder.decode token

  module _ (b prefix x v : Bytes) (meta : ObjectMeta) (decodes : decode_meta v ≡ some meta) where
    abbrev key : Bytes
    key = meta_prefix b ++ (prefix ++ x)

    start_page-IsOnOrAfter :
        (size : ℕ) (token from : Bytes) (s : State r)
        → start_of b prefix token ≡ some from
        → LeBytes (meta_prefix b ++ prefix) from
        → LeBytes from key
        → (is_empty token ≡ false → from ≢ key)
        → held laws s key ≡ some v
        → IsOnOrAfter
            (meta_prefix b)
            prefix
            x
            v
            meta
            decodes
            (start_page coder (meta_prefix b) prefix size token s).0.0
    unfolding start_page
    start_page-IsOnOrAfter size token from s start lo le ne there =
        elim (Bool-cases (is_empty token)) [
          | inl e ↦ rw e (
              page-IsOnOrAfter (meta_prefix b) prefix x v meta decodes size false
                (meta_prefix b ++ prefix) s (LeBytes-refl (meta_prefix b ++ prefix))
                (LeBytes-trans (meta_prefix b ++ prefix) from key lo le) (λ f. cc f) there)
          | inr e ↦
              rw (e, rw e at start)
                (page-IsOnOrAfter (meta_prefix b) prefix x v meta decodes size true from s lo le
                  (λ f. ne e) there)
        ]

    -- Over a RocksDB whose iterators do not fail, let a bucket exist, let a request for a page of its
    -- listing be valid, and let the database hold metadata that can be decoded for a key with the
    -- prefix, at the place where the page starts or behind it (behind it, if there is a token). Then
    -- the page has the object with these metadata; or it is truncated and its token encodes a key of
    -- the listing that lies before the object, so that the object is left for the pages that follow.
    pub list_objects_v2-IsOnOrAfter :
        (max_keys : ℤ) (token from : Bytes) (s : State r)
        → (contains_nul b || contains_nul prefix || contains_nul token) ≡ false
        → (bucket_exists b s).0.0 ≡ true
        → start_of b prefix token ≡ some from
        → LeBytes (meta_prefix b ++ prefix) from
        → LeBytes from key
        → (is_empty token ≡ false → from ≢ key)
        → held laws s key ≡ some v
        → IsOnOrAfter
            (meta_prefix b)
            prefix
            x
            v
            meta
            decodes
            (list_objects_v2 coder b prefix max_keys token s).0.0
    unfolding list_objects_v2 list_checked
    list_objects_v2-IsOnOrAfter max_keys token from s valid exists start lo le ne there =
        rw (valid, exists)
          (start_page-IsOnOrAfter (page_size max_keys) token from (bucket_exists b s).1 start lo le
            ne (ap (λ m. m key) (bucket_exists_keeps laws b s) ∙ there))
