-- ===== src/IndexLayer/Hash/Joined.antt =====
-- The text that `HashTokens` hashes determines the tokens, if none holds the separator.
use prompt_cache_storage.Prelude.{
  ℕ, zero, suc, ◌≤◌, ◌<◌, ◌≡◌, refl, sym, ◌∙◌, List, [], ◌∷◌, ◌++◌, Bytes, arith, length, take, All,
}
use prompt_cache_storage.Prelude.Text.{Lacks}
use prompt_cache_storage.IndexLayer.Hash.{join_tokens, join_rest, unit_separator}

-- `r` is empty or begins with `d`.
abbrev Opens : ℕ → Bytes → Type 0
Opens d [] = Unit
Opens d (c ∷ r) = c ≡ d

cons-injective : {c d : ℕ} {a b : Bytes} → c ∷ a ≡ d ∷ b → (c ≡ d) × (a ≡ b)
cons-injective h = (cc h, cc h)

-- A text free of `d` ends where a rest that opens with `d` begins.
append_cancel :
    (d : ℕ) (t u r s : Bytes)
    → Lacks d t
    → Lacks d u
    → Opens d r
    → Opens d s
    → t ++ r ≡ u ++ s
    → (t ≡ u) × (r ≡ s)
append_cancel d [] [] r s _ _ _ _ h = (refl, h)
append_cancel d [] (c ∷ u) [] s _ _ _ _ h = cc
append_cancel d [] (c ∷ u) (x ∷ r) s _ (ne, _) op _ h = absurd (ne (sym (cons-injective h).0 ∙ op))
append_cancel d (c ∷ t) [] r [] _ _ _ _ h = cc
append_cancel d (c ∷ t) [] r (x ∷ s) (ne, _) _ _ op h = absurd (ne ((cons-injective h).0 ∙ op))
append_cancel d (c ∷ t) (x ∷ u) r s (_, ht) (_, hu) op oq h =
    let (same, rest) = cons-injective h in
    let (e, f) = append_cancel d t u r s ht hu op oq rest in (cc (same, e), f)

join_rest-Opens : (ts : List Bytes) (n : ℕ) → Opens unit_separator (join_rest ts n)
unfolding join_rest
join_rest-Opens ts zero = tt
join_rest-Opens [] (suc n) = tt
join_rest-Opens (t ∷ ts) (suc n) = refl

-- No token holds the separator.
abbrev pub AreClean : List Bytes → Type 0
AreClean = All (Lacks unit_separator)

join_rest-injective :
    (ts us : List Bytes) (n m : ℕ)
    → AreClean ts
    → AreClean us
    → n ≤ length ts
    → m ≤ length us
    → join_rest ts n ≡ join_rest us m
    → take n ts ≡ take m us
unfolding join_rest
join_rest-injective ts us zero zero _ _ _ _ h = refl
join_rest-injective ts [] zero (suc m) _ _ _ le h = absurd (omega arith)
join_rest-injective ts (u ∷ us) zero (suc m) _ _ _ _ h = cc
join_rest-injective [] us (suc n) m _ _ le _ h = absurd (omega arith)
join_rest-injective (t ∷ ts) us (suc n) zero _ _ _ _ h = cc
join_rest-injective (t ∷ ts) [] (suc n) (suc m) _ _ _ le h = absurd (omega arith)
join_rest-injective (t ∷ ts) (u ∷ us) (suc n) (suc m) (ct, cts) (cu, cus) le le' h =
    let (e, f) =
      append_cancel unit_separator t u (join_rest ts n) (join_rest us m) ct cu
        (join_rest-Opens ts n) (join_rest-Opens us m) (cons-injective h).1 in
    cc (e, join_rest-injective ts us n m cts cus (omega arith) (omega arith) f)

-- Two prefixes of at least one token, of texts whose tokens are free of the separator, are hashed as
-- the same text only if they are the same tokens.
pub join_tokens-injective :
    (ts us : List Bytes) (n m : ℕ)
    → AreClean ts
    → AreClean us
    → 0 < n
    → n ≤ length ts
    → 0 < m
    → m ≤ length us
    → join_tokens ts n ≡ join_tokens us m
    → take n ts ≡ take m us
unfolding join_tokens
join_tokens-injective ts us zero m _ _ pn _ _ _ h = absurd (omega arith)
join_tokens-injective ts us (suc n) zero _ _ _ _ pm _ h = absurd (omega arith)
join_tokens-injective [] us (suc n) (suc m) _ _ _ le _ _ h = absurd (omega arith)
join_tokens-injective (t ∷ ts) [] (suc n) (suc m) _ _ _ _ _ le h = absurd (omega arith)
join_tokens-injective (t ∷ ts) (u ∷ us) (suc n) (suc m) (ct, cts) (cu, cus) _ le _ le' h =
    let (e, f) =
      append_cancel unit_separator t u (join_rest ts n) (join_rest us m) ct cu
        (join_rest-Opens ts n) (join_rest-Opens us m) h in
    cc (e, join_rest-injective ts us n m cts cus (omega arith) (omega arith) f)
