-- ===== src/Gateway/Storage/Store/Objects.antt =====
-- What `put_object`, `get_object_data`, `head_object` and `delete_object` do to the objects.
use prompt_cache_storage.Prelude.{
  ℤ, pos, ◌≡◌, ◌≢◌, refl, sym, ◌∙◌, subst, ◌⊎◌, inl, inr, true, false, ◌&&◌, ◌||◌, Option, none,
  some, [], ◌∷◌, Bytes, arith, beq, beq_iff, beq_refl, if◌then◌else◌, Bool-cases, codes, length,
}
use prompt_cache_storage.Prelude.Text.{is_empty, Lacks}
use prompt_cache_storage.Gateway.Storage.Keys.{contains_nul, bucket_key, meta_key, data_key}
use prompt_cache_storage.Gateway.Storage.Keys.Laws.{
  contains_nul-Lacks, data_key-injective, meta_key-injective, data_key-ne-meta_key,
  data_key-ne-bucket_key, meta_key-ne-bucket_key,
}
use prompt_cache_storage.Gateway.Storage.Meta.{ObjectMeta, encode_meta}
use prompt_cache_storage.Gateway.Storage.Rocks.{
  Rocks, RocksLaws, Status, fine, not_found, broken, put, delete, apply_batch,
}
use prompt_cache_storage.Gateway.Storage.Env.{State, M, write, now_seconds}
use prompt_cache_storage.Gateway.Storage.Env.Laws.{held, get_keeps, write_cases, now_keeps}
use prompt_cache_storage.Gateway.Storage.Store.{
  Result, ok, err, invalid, put_object, default_type, written, delete_object, put_object_checked,
  delete_object_checked, bucket_exists, if_exists, remove_object,
}

beq_ne : {a b : Bytes} → a ≢ b → beq a b ≡ false
beq_ne {a} {b} h = elim (Bool-cases (beq a b)) [
  | inl e ↦ absurd (h ((beq_iff a b).0 e))
  | inr e ↦ e
]

beq_pair :
    (x y b b' k k' : Bytes)
    → (x ≡ y → (b ≡ b') × (k ≡ k'))
    → (b ≡ b' → k ≡ k' → x ≡ y)
    → beq x y ≡ beq b b' && beq k k'
beq_pair x y b b' k k' f g = ground (arith, beq_iff x y, beq_iff b b', beq_iff k k')

-- The two keys of an object are compared as its bucket and key are.
pub beq-data_key :
    (b b' k k' : Bytes)
    → Lacks 0 b
    → Lacks 0 b'
    → beq (data_key b k) (data_key b' k') ≡ beq b b' && beq k k'
beq-data_key b b' k k' h h' = beq_pair _ _ b b' k k' (data_key-injective b b' k k' h h') (λ p q. cc)

pub beq-meta_key :
    (b b' k k' : Bytes)
    → Lacks 0 b
    → Lacks 0 b'
    → beq (meta_key b k) (meta_key b' k') ≡ beq b b' && beq k k'
beq-meta_key b b' k k' h h' = beq_pair _ _ b b' k k' (meta_key-injective b b' k k' h h') (λ p q. cc)

pub guard_cases :
    (b k : Bytes)
    → ((contains_nul b ≡ false)
        × (contains_nul k ≡ false)
        × ((contains_nul b || contains_nul k) ≡ false))
      ⊎ ((contains_nul b || contains_nul k) ≡ true)
guard_cases b k = elim (Bool-cases (contains_nul b)) [
  | inl e ↦ inr (rw e)
  | inr e ↦ elim (Bool-cases (contains_nul k)) [
    | inl f ↦ inr (rw (e, f))
    | inr f ↦ inl (e, f, rw (e, f))
  ]
]

pub written_ok : {A : Type 0} (a x : A) (st : Status) → written a st ≡ ok x → (st ≡ fine) × (x ≡ a)
unfolding written
written_ok a x fine h = (refl, cc)
written_ok a x not_found h = cc
written_ok a x (broken e) h = cc

module _ {r : Rocks} (laws : RocksLaws r) where
  -- From `s` to `s'` the data of one object became `d`, its metadata `m`, and nothing else of any
  -- bucket or object changed.
  pub record Updates (s s' : State r) (b k : Bytes) (d m : Option Bytes) : Type 0 where
    pub bytes :
        (b' k' : Bytes)
        → Lacks 0 b'
        → held laws s' (data_key b' k')
          ≡ (if beq b b' && beq k k' then d else held laws s (data_key b' k'))
    pub meta :
        (b' k' : Bytes)
        → Lacks 0 b'
        → held laws s' (meta_key b' k')
          ≡ (if beq b b' && beq k k' then m else held laws s (meta_key b' k'))
    pub buckets : (b' : Bytes) → held laws s' (bucket_key b') ≡ held laws s (bucket_key b')

  pub Updates-self :
      {s s' : State r} {b k : Bytes} {d m : Option Bytes}
      → Lacks 0 b
      → Updates s s' b k d m
      → (held laws s' (data_key b k) ≡ d) × (held laws s' (meta_key b k) ≡ m)
  Updates-self {b = b} {k = k} h u =
      (u.bytes b k h ∙ rw (beq_refl b, beq_refl k), u.meta b k h ∙ rw (beq_refl b, beq_refl k))

  put_batch-Updates :
      (s s' : State r) (b k x y : Bytes)
      → Lacks 0 b
      → ((j : Bytes)
          → held laws s' j
            ≡ apply_batch (put (data_key b k) x ∷ put (meta_key b k) y ∷ []) (held laws s) j)
      → Updates s s' b k (some x) (some y)
  unfolding apply_batch
  put_batch-Updates s s' b k x y h w = record {
    bytes = λ b' k' h'.
        w (data_key b' k')
        ∙ rw (beq_ne (λ e. data_key-ne-meta_key b' b k' k (sym e)), beq-data_key b b' k k' h h');
    meta = λ b' k' h'.
        w (meta_key b' k')
        ∙ rw (beq_ne (data_key-ne-meta_key b b' k k'), beq-meta_key b b' k k' h h');
    buckets = λ b'.
        w (bucket_key b')
        ∙ rw (beq_ne (data_key-ne-bucket_key b b' k), beq_ne (meta_key-ne-bucket_key b b' k));
  }

  delete_batch-Updates :
      (s s' : State r) (b k : Bytes)
      → Lacks 0 b
      → ((j : Bytes)
          → held laws s' j
            ≡ apply_batch (delete (meta_key b k) ∷ delete (data_key b k) ∷ []) (held laws s) j)
      → Updates s s' b k none none
  unfolding apply_batch
  delete_batch-Updates s s' b k h w = record {
    bytes = λ b' k' h'.
        w (data_key b' k')
        ∙ rw (beq_ne (λ e. data_key-ne-meta_key b' b k' k (sym e)), beq-data_key b b' k k' h h');
    meta = λ b' k' h'.
        w (meta_key b' k')
        ∙ rw (beq_ne (data_key-ne-meta_key b b' k k'), beq-meta_key b b' k k' h h');
    buckets = λ b'.
        w (bucket_key b')
        ∙ rw (beq_ne (data_key-ne-bucket_key b b' k), beq_ne (meta_key-ne-bucket_key b b' k));
  }

  -- What `put_object` records of an object written at `now`.
  abbrev pub meta_of : Bytes → Bytes → ℤ → ObjectMeta
  meta_of x content_type now = record {
    etag = [];
    mtime = now;
    size = pos (length x);
    content_type = default_type content_type;
  }

  -- Nothing has changed, and success is not reported.
  abbrev pub IsRefused : {A : Type 0} → State r → Result A × State r → Type 0
  IsRefused {A} s (res, s') = ((a : A) → res ≡ ok a → ⊥) × (held laws s' ≡ held laws s)

  IsRefused-by_write :
      {A : Type 0} (a : A) (st : Status) (s s' : State r)
      → (st ≡ fine → ⊥) × (held laws s' ≡ held laws s)
      → IsRefused s (written a st, s')
  IsRefused-by_write a st s s' (failed, same) = ((λ x e. failed (written_ok a x st e).0), same)

  invalid_refuses : {A : Type 0} (s : State r) → IsRefused {A = A} s (invalid, s)
  invalid_refuses s = ((λ a e. cc), refl)

  put_object_checked-cases :
      (b k x t : Bytes) (s : State r)
      → Lacks 0 b
      → Updates s
          (put_object_checked b k x t s).1
          b
          k
          (some x)
          (some (encode_meta (meta_of x t (now_seconds s).0)))
        ⊎ IsRefused s (put_object_checked b k x t s)
  unfolding put_object_checked
  put_object_checked-cases b k x t s h =
      let (now, s₁) = now_seconds s in
      let ops = put (data_key b k) x ∷ put (meta_key b k) (encode_meta (meta_of x t now)) ∷ [] in
      let kept = now_keeps laws s in
      elim (write_cases laws (codes "write") (length x) ops s₁) [
        | inl done ↦ inl (
            put_batch-Updates s (write (codes "write") (length x) ops s₁).1 b k x _ h (
              subst
                (λ m.
                  (j : Bytes)
                  → held laws (write (codes "write") (length x) ops s₁).1 j ≡ apply_batch ops m j)
                kept done))
        | inr (failed, same) ↦ inr (
            IsRefused-by_write (meta_of x t now) _ s (write (codes "write") (length x) ops s₁).1
              (failed, same ∙ kept))
      ]

  -- Whatever RocksDB answers, `put_object` writes data and metadata of its object together and
  -- changes nothing else, or it does not report success and changes nothing. The first happens only
  -- for a bucket and a key without NUL.
  pub put_object_atomic :
      (b k x t : Bytes) (s : State r)
      → ((contains_nul b ≡ false)
          × (contains_nul k ≡ false)
          × Updates s
              (put_object b k x t s).1
              b
              k
              (some x)
              (some (encode_meta (meta_of x t (now_seconds s).0))))
        ⊎ IsRefused s (put_object b k x t s)
  unfolding put_object
  put_object_atomic b k x t s = elim (guard_cases b k) [
    | inr e ↦ inr (rw e (invalid_refuses s))
    | inl (eb, ek, e) ↦ rw e (elim (put_object_checked-cases b k x t s (contains_nul-Lacks b eb)) [
      | inl u ↦ inl (eb, ek, u)
      | inr f ↦ inr f
    ])
  ]

  pub bucket_exists_keeps :
      (b : Bytes) (s : State r) → held laws (bucket_exists b s).1 ≡ held laws s
  unfolding bucket_exists
  bucket_exists_keeps b s = elim (Bool-cases (contains_nul b)) [
    | inl e ↦ rw e refl
    | inr e ↦ rw e (get_keeps laws (bucket_key b) s)
  ]

  -- The guard runs the rest, or reports an error and changes nothing.
  pub if_exists_cases :
      {A : Type 0} (b : Bytes) (rest : M r (Result A)) (s : State r)
      → (if_exists b rest s ≡ rest (bucket_exists b s).1)
        ⊎ ((e : Bytes) × (if_exists b rest s ≡ (err e, (bucket_exists b s).1)))
  unfolding if_exists
  if_exists_cases b rest s = elim (Bool-cases (bucket_exists b s).0.0) [
    | inl e ↦ inl (rw e refl)
    | inr e ↦ inr (
      (if is_empty (bucket_exists b s).0.1 then codes "NoSuchBucket" else (bucket_exists b s).0.1),
      rw e refl,
    )
  ]

  remove_object-cases :
      (b k : Bytes) (s : State r)
      → Lacks 0 b
      → Updates s (remove_object b k s).1 b k none none ⊎ IsRefused s (remove_object b k s)
  unfolding remove_object
  remove_object-cases b k s h =
      let ops = delete (meta_key b k) ∷ delete (data_key b k) ∷ [] in
      elim (write_cases laws (codes "write") 0 ops s) [
        | inl done ↦ inl (delete_batch-Updates s (write (codes "write") 0 ops s).1 b k h done)
        | inr f ↦ inr (IsRefused-by_write tt _ s (write (codes "write") 0 ops s).1 f)
      ]

  -- What holds of a state holds of another with the same contents.
  Updates-from :
      {s t s' : State r} {b k : Bytes} {d m : Option Bytes}
      → held laws t ≡ held laws s
      → Updates t s' b k d m
      → Updates s s' b k d m
  Updates-from {s' = s'} {b = b} {k = k} {d = d} {m = m} e u = record {
    bytes = λ b' k' h. rw (← e) (u.bytes b' k' h);
    meta = λ b' k' h. rw (← e) (u.meta b' k' h);
    buckets = λ b'. rw (← e) (u.buckets b');
  }

  delete_checked-cases :
      (b k : Bytes) (s : State r)
      → Lacks 0 b
      → Updates s (delete_object_checked b k s).1 b k none none
        ⊎ IsRefused s (delete_object_checked b k s)
  unfolding delete_object_checked
  delete_checked-cases b k s h =
      let kept = bucket_exists_keeps b s in
      elim (if_exists_cases b (remove_object b k) s) [
        | inr (e, run) ↦ inr (rw run ((λ a p. cc), kept))
        | inl run ↦ rw run (elim (remove_object-cases b k (bucket_exists b s).1 h) [
          | inl u ↦ inl (Updates-from kept u)
          | inr (f, same) ↦ inr (f, same ∙ kept)
        ])
      ]

  -- Whatever RocksDB answers, `delete_object` removes data and metadata of its object together and
  -- changes nothing else, or it does not report success and changes nothing. The first happens only
  -- for a bucket and a key without NUL.
  pub delete_object_atomic :
      (b k : Bytes) (s : State r)
      → ((contains_nul b ≡ false)
          × (contains_nul k ≡ false)
          × Updates s (delete_object b k s).1 b k none none)
        ⊎ IsRefused s (delete_object b k s)
  unfolding delete_object
  delete_object_atomic b k s = elim (guard_cases b k) [
    | inr e ↦ inr (rw e (invalid_refuses s))
    | inl (eb, ek, e) ↦ rw e (elim (delete_checked-cases b k s (contains_nul-Lacks b eb)) [
      | inl u ↦ inl (eb, ek, u)
      | inr f ↦ inr f
    ])
  ]
