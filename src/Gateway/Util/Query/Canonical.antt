-- ===== src/Gateway/Util/Query/Canonical.antt =====
-- The canonical query string does not depend on the order of the parameters, and it is read back by
-- `parse_query`.
use mathlib.Core.Logic.{∥∥₁_map}
use mathlib.Core.List.{Perm, Permᴰ}
use mathlib.Core.List.Permᴰ
use prompt_cache_storage.Prelude.{
  ℕ, ◌≡◌, ◌≢◌, refl, ◌∙◌, ap, true, Option, none, some, List, [], ◌∷◌, ◌++◌, Bytes, beq, All,
  Bool-cases, inl, inr, append-nil, map, All-append, arith,
}
use prompt_cache_storage.Prelude.Text.{
  IsByte, Lacks, break_on-append, split_on, split_on-append, split_on-Lacks,
}
use prompt_cache_storage.Prelude.Sort.{sort, sort-perm, sort-All}
use prompt_cache_storage.Gateway.Util.Percent.{
  percent_encode, percent_decode-percent_encode, IsPlain, percent_encode-IsPlain,
}
use prompt_cache_storage.Gateway.Util.Query.{
  Params, decode_or_raw, pair_of, pairs_of, parse_query, exclude, print_pair, print_rest,
  print_params, pair_order, canonical_query_string,
}

Params-set : IsSet (Bytes × Bytes)
Params-set = hlevel

exclude-Permᴰ :
    (key : Option Bytes) {l m : Params} → Permᴰ l m → Permᴰ (exclude key l) (exclude key m)
unfolding exclude
exclude-Permᴰ none p = p
exclude-Permᴰ (some k) Permᴰ.nil = Permᴰ.nil
exclude-Permᴰ (some k) (Permᴰ.cons {a} {b} e p) = elim (Bool-cases (beq b.0 k)) [
  | inl t ↦ rw (e, t) (exclude-Permᴰ (some k) p)
  | inr t ↦ rw (e, t) (Permᴰ.cons refl (exclude-Permᴰ (some k) p))
]
exclude-Permᴰ (some k) (Permᴰ.swap {a} {b} {a'} {b'} {l} e f) = elim (Bool-cases (beq b'.0 k)) [
  | inl t ↦ elim (Bool-cases (beq a'.0 k)) [
    | inl u ↦ rw (e, f, t, u) (Permᴰ.refl (exclude (some k) l))
    | inr u ↦ rw (e, f, t, u) (Permᴰ.refl _)
  ]
  | inr t ↦ elim (Bool-cases (beq a'.0 k)) [
    | inl u ↦ rw (e, f, t, u) (Permᴰ.refl _)
    | inr u ↦ rw (e, f, t, u) (Permᴰ.swap refl refl)
  ]
]
exclude-Permᴰ (some k) (Permᴰ.trans p q) =
    Permᴰ.trans (exclude-Permᴰ (some k) p) (exclude-Permᴰ (some k) q)

-- Two requests whose parameters are the same up to their order have the same canonical query string.
pub canonical_query_string-perm :
    (key : Option Bytes) (l m : Params)
    → Perm l m
    → canonical_query_string l key ≡ canonical_query_string m key
unfolding canonical_query_string
canonical_query_string-perm key l m p =
    ap print_params (sort-perm pair_order Params-set (∥∥₁_map p (exclude-Permᴰ key)))

-- Names and values are bytes.
abbrev pub AreBytes : Params → Type 0
AreBytes = All (λ (kv : Bytes × Bytes). All IsByte kv.0 × All IsByte kv.1)

plain-Lacks : (s : Bytes) → All IsPlain s → Lacks b'&' s × Lacks b'=' s
plain-Lacks [] h = (tt, tt)
plain-Lacks (c ∷ s) ((a, b, q), hs) = ((a, (plain-Lacks s hs).0), (b, (plain-Lacks s hs).1))

print_pair-Lacks : (kv : Bytes × Bytes) → Lacks b'&' (print_pair kv)
unfolding print_pair
print_pair-Lacks (k, v) =
    All-append (λ c. c ≢ b'&') (percent_encode k true) _
      (plain-Lacks _ (percent_encode-IsPlain k true)).0
      (omega arith, (plain-Lacks _ (percent_encode-IsPlain v true)).0)

decode-encode : (s : Bytes) → All IsByte s → decode_or_raw (percent_encode s true) ≡ s
unfolding decode_or_raw
decode-encode s h = rw (percent_decode-percent_encode s true h, decode_or_raw)

pair_of-print_pair :
    (kv : Bytes × Bytes) → All IsByte kv.0 × All IsByte kv.1 → pair_of (print_pair kv) ≡ kv
unfolding pair_of print_pair
pair_of-print_pair (k, v) (hk, hv) =
    rw
      (
        break_on-append b'=' (percent_encode k true) (percent_encode v true)
            (plain-Lacks _ (percent_encode-IsPlain k true)).1,
        pair_of,
        decode-encode k hk,
        decode-encode v hv,
      )
      refl

append-ne-nil : (s t : Bytes) (c : ℕ) → s ++ c ∷ t ≢ []
append-ne-nil [] t c h = cc
append-ne-nil (d ∷ s) t c h = cc

pairs_of-cons :
    (part : Bytes) (parts : List Bytes)
    → part ≢ []
    → pairs_of (part ∷ parts) ≡ pair_of part ∷ pairs_of parts
unfolding pairs_of
pairs_of-cons [] parts h = absurd (h refl)
pairs_of-cons (c ∷ part) parts h = refl

pairs_of-print : (ps : Params) → AreBytes ps → pairs_of (map print_pair ps) ≡ ps
pairs_of-print [] h = unfold pairs_of in refl
pairs_of-print (kv ∷ ps) (h, hs) =
    pairs_of-cons (print_pair kv) _
      (unfold print_pair in append-ne-nil (percent_encode kv.0 true) _ b'=')
    ∙ rw (pair_of-print_pair kv h, pairs_of-print ps hs)

split-print :
    (kv : Bytes × Bytes) (ps : Params)
    → split_on b'&' (print_pair kv ++ print_rest ps) ≡ print_pair kv ∷ map print_pair ps
unfolding print_rest
split-print kv [] = rw (append-nil (print_pair kv)) (split_on-Lacks b'&' _ (print_pair-Lacks kv))
split-print kv (kv' ∷ ps) =
    split_on-append b'&' (print_pair kv) (print_pair kv' ++ print_rest ps) (print_pair-Lacks kv)
    ∙ ap (λ t. print_pair kv ∷ t) (split-print kv' ps)

parse_query-split : (s : Bytes) → parse_query s ≡ pairs_of (split_on b'&' s)
unfolding parse_query split_on pairs_of
parse_query-split [] = refl
parse_query-split (c ∷ s) = refl

parse_query-print : (ps : Params) → AreBytes ps → parse_query (print_params ps) ≡ ps
unfolding print_params
parse_query-print [] h = unfold parse_query in refl
parse_query-print (kv ∷ ps) h =
    parse_query-split (print_pair kv ++ print_rest ps)
    ∙ ap pairs_of (split-print kv ps)
    ∙ pairs_of-print (kv ∷ ps) h

exclude-none : (ps : Params) → exclude none ps ≡ ps
unfolding exclude
exclude-none ps = refl

-- The canonical query string of parameters made of bytes is read back as the same parameters, sorted.
pub parse_query-canonical_query_string :
    (ps : Params) → AreBytes ps → parse_query (canonical_query_string ps none) ≡ sort pair_order ps
unfolding canonical_query_string
parse_query-canonical_query_string ps h =
    ap (λ l. parse_query (print_params (sort pair_order l))) (exclude-none ps)
    ∙ parse_query-print (sort pair_order ps) (sort-All pair_order _ ps h)
