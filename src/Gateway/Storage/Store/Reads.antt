-- ===== src/Gateway/Storage/Store/Reads.antt =====
-- What the reads of the store return, and reads after writes.
use prompt_cache_storage.Prelude.{
  ◌≡◌, ◌⊎◌, ◌||◌, Bool-cases, refl, ◌∙◌, ap, inl, inr, true, false, Option, none, some, Bytes,
  codes,
}
use prompt_cache_storage.Gateway.Storage.Keys.{contains_nul, data_key}
use prompt_cache_storage.Gateway.Storage.Keys.Laws.{contains_nul-Lacks}
use prompt_cache_storage.Gateway.Storage.Meta.{ObjectMeta}
use prompt_cache_storage.Gateway.Storage.Rocks.{Rocks, RocksLaws, Status, fine, not_found, broken}
use prompt_cache_storage.Gateway.Storage.Env.{State, get, is_answer}
use prompt_cache_storage.Gateway.Storage.Env.Laws.{held, get_keeps, get_fine, get_absent}
use prompt_cache_storage.Gateway.Storage.Store.{
  Result, ok, err, put_object, get_object_data, invalid, read_key, get_object_data_checked,
}
use prompt_cache_storage.Gateway.Storage.Store.Objects.{Updates-self, put_object_atomic}

-- What a read reports of a key that holds `o`.
abbrev pub found_or_missing : Option Bytes → Result Bytes
found_or_missing none = err (codes "NoSuchKey")
found_or_missing (some v) = ok v

module _ {r : Rocks} (laws : RocksLaws r) where
  pub read_key_lem :
      (k : Bytes) (s : State r)
      → is_answer (get k s).0.0 ≡ true
      → (read_key k s).0 ≡ found_or_missing (held laws s k)
  unfolding read_key
  read_key_lem k s h = go (get k s).0.0 refl
    where
      go : (st : Status) → (get k s).0.0 ≡ st → (read_key k s).0 ≡ found_or_missing (held laws s k)
      go fine e = rw (e, get_fine laws k s e) refl
      go not_found e = rw (e, get_absent laws k s e) refl
      go (broken x) e = let q = rw e at h in cc q

  pub read_key_keeps : (k : Bytes) (s : State r) → held laws (read_key k s).1 ≡ held laws s
  unfolding read_key
  read_key_keeps k s = get_keeps laws k s

  pub get_object_data-held :
      (b k : Bytes) (s : State r)
      → contains_nul b ≡ false
      → contains_nul k ≡ false
      → is_answer (get (data_key b k) s).0.0 ≡ true
      → (get_object_data b k s).0 ≡ found_or_missing (held laws s (data_key b k))
  unfolding get_object_data
  get_object_data-held b k s eb ek h =
      rw (eb, ek) (unfold get_object_data_checked in read_key_lem (data_key b k) s h)

  read_key_cases :
      (k : Bytes) (s : State r)
      → ((read_key k s).0 ≡ found_or_missing (held laws s k))
        ⊎ ((e : Bytes) × ((get k s).0.0 ≡ broken e) × ((read_key k s).0 ≡ err e))
  unfolding read_key
  read_key_cases k s = go (get k s).0.0 refl
    where
      go :
          (st : Status)
          → (get k s).0.0 ≡ st
          → ((read_key k s).0 ≡ found_or_missing (held laws s k))
            ⊎ ((e : Bytes) × ((get k s).0.0 ≡ broken e) × ((read_key k s).0 ≡ err e))
      go fine e = inl (rw (e, get_fine laws k s e) refl)
      go not_found e = inl (rw (e, get_absent laws k s e) refl)
      go (broken x) e = inr (x, e, rw e refl)

  -- What a read of the data of a bucket and a key has reported.
  abbrev pub IsRead : Bytes → Bytes → State r → Result Bytes → Type 0
  IsRead b k s res =
      (((contains_nul b || contains_nul k) ≡ true) × (res ≡ invalid))
      ⊎ (((contains_nul b || contains_nul k) ≡ false)
          × ((res ≡ found_or_missing (held laws s (data_key b k)))
              ⊎ ((e : Bytes) × ((get (data_key b k) s).0.0 ≡ broken e) × (res ≡ err e))))

  -- `get_object_data` changes nothing that is held, on every branch. With a NUL in the bucket or the key it
  -- reports an invalid argument. Else it returns the data that is held under the data key or reports a
  -- missing key, or, if RocksDB fails in the read, that failure.
  pub get_object_data_lem :
      (b k : Bytes) (s : State r)
      → IsRead b k s (get_object_data b k s).0 × (held laws (get_object_data b k s).1 ≡ held laws s)
  unfolding get_object_data get_object_data_checked
  get_object_data_lem b k s = elim (Bool-cases (contains_nul b || contains_nul k)) [
    | inl nul ↦ rw nul (inl (refl, refl), refl)
    | inr plain ↦
        rw plain (inr (refl, read_key_cases (data_key b k) s), read_key_keeps (data_key b k) s)
  ]

  -- Data whose `put_object` reported success is read back by `get_object_data`, from whichever
  -- state the put was made, unless RocksDB fails in the read.
  pub get_object_data-put_object :
      (b k x t : Bytes) (s : State r) {m : ObjectMeta}
      → (put_object b k x t s).0 ≡ ok m
      → is_answer (get (data_key b k) (put_object b k x t s).1).0.0 ≡ true
      → (get_object_data b k (put_object b k x t s).1).0 ≡ ok x
  get_object_data-put_object b k x t s {m} h answers = elim (put_object_atomic laws b k x t s) [
    | inr (refused, same) ↦ absurd (refused m h)
    | inl (eb, ek, u) ↦
        get_object_data-held b k (put_object b k x t s).1 eb ek answers
        ∙ ap found_or_missing (Updates-self laws (contains_nul-Lacks b eb) u).0
  ]
