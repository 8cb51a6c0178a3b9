-- ===== src/Gateway/Storage/Keys/Laws.antt =====
-- Keys of different kinds, buckets or objects never coincide.
use prompt_cache_storage.Prelude.{
  ℕ, ◌≡◌, refl, ◌≢◌, sym, ap, ◌∙◌, false, [], ◌∷◌, ◌++◌, Bytes, arith, append_assoc,
}
use prompt_cache_storage.Prelude.Text.{Lacks, break_on, break_on-append}
use prompt_cache_storage.Gateway.Storage.Keys.{
  contains_nul, bucket_key, meta_prefix, meta_key, data_key,
}

pub contains_nul-Lacks : (s : Bytes) → contains_nul s ≡ false → Lacks 0 s
unfolding contains_nul
contains_nul-Lacks [] h = tt
contains_nul-Lacks (c ∷ s) h = (ground arith, contains_nul-Lacks s (ground arith))

-- A bucket that is free of NUL is read off what stands before the first NUL.
pub split-injective :
    (b b' k k' : Bytes) → Lacks 0 b → Lacks 0 b' → b ++ 0 ∷ k ≡ b' ++ 0 ∷ k' → (b ≡ b') × (k ≡ k')
split-injective b b' k k' h h' e =
    let p = sym (break_on-append 0 b k h) ∙ ap (break_on 0) e ∙ break_on-append 0 b' k' h' in
    (cc p, cc p)

cons-injective : {c d : ℕ} {a b : Bytes} → c ∷ a ≡ d ∷ b → (c ≡ d) × (a ≡ b)
cons-injective h = (cc h, cc h)

pub data_key-injective :
    (b b' k k' : Bytes)
    → Lacks 0 b
    → Lacks 0 b'
    → data_key b k ≡ data_key b' k'
    → (b ≡ b') × (k ≡ k')
unfolding data_key
data_key-injective b b' k k' h h' e =
    split-injective b b' k k' h h' (cons-injective (cons-injective e).1).1

pub meta_key_lem : (b k : Bytes) → meta_key b k ≡ b'M' ∷ 0 ∷ (b ++ 0 ∷ k)
unfolding meta_key meta_prefix
meta_key_lem b k = ap (λ t. b'M' ∷ 0 ∷ t) (append_assoc b (0 ∷ []) k)

pub meta_key-injective :
    (b b' k k' : Bytes)
    → Lacks 0 b
    → Lacks 0 b'
    → meta_key b k ≡ meta_key b' k'
    → (b ≡ b') × (k ≡ k')
meta_key-injective b b' k k' h h' e =
    split-injective b b' k k' h h'
      (cons-injective (cons-injective (sym (meta_key_lem b k) ∙ e ∙ meta_key_lem b' k')).1).1

pub bucket_key-injective : (b b' : Bytes) → bucket_key b ≡ bucket_key b' → b ≡ b'
unfolding bucket_key
bucket_key-injective b b' e = (cons-injective (cons-injective e).1).1

pub data_key-ne-meta_key : (b b' k k' : Bytes) → data_key b k ≢ meta_key b' k'
unfolding data_key meta_key meta_prefix
data_key-ne-meta_key b b' k k' e = grind (arith, (cons-injective e).0)

pub data_key-ne-bucket_key : (b b' k : Bytes) → data_key b k ≢ bucket_key b'
unfolding data_key bucket_key
data_key-ne-bucket_key b b' k e = grind (arith, (cons-injective e).0)

pub meta_key-ne-bucket_key : (b b' k : Bytes) → meta_key b k ≢ bucket_key b'
unfolding meta_key meta_prefix bucket_key
meta_key-ne-bucket_key b b' k e = grind (arith, (cons-injective e).0)

pub Lacks-contains_nul : (s : Bytes) → Lacks 0 s → contains_nul s ≡ false
unfolding contains_nul
Lacks-contains_nul [] h = refl
Lacks-contains_nul (c ∷ s) (h, hs) = rw (Lacks-contains_nul s hs) (ground arith)
