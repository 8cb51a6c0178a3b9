-- ===== src/Gateway/Util/Query.antt =====
-- `parse_query` and `canonical_query_string`.
pub mod Canonical
use prompt_cache_storage.Prelude.{
  ℕ, ◌≡◌, refl, Bool, true, false, Option, none, some, List, [], ◌∷◌, ◌++◌, Bytes, codes, beq,
  if◌then◌else◌, arith, Bool-cases, inl, inr, not,
}
use prompt_cache_storage.Prelude.Text.{break_on, split_on}
use prompt_cache_storage.Prelude.Order.{before, before_trans, before_irrefl, before_antisym}
use prompt_cache_storage.Prelude.Sort.{StrictOrder, sort}
use prompt_cache_storage.Gateway.Util.Percent.{percent_decode, percent_encode}

abbrev pub Params : Type 0
Params = List (Bytes × Bytes)

-- `percent_decode(s)`, or `s` where that fails.
unfoldable pub decode_or_raw : Bytes → Bytes
decode_or_raw s = elim (percent_decode s) [ none ↦ s | some t ↦ t ]

-- The pair of a part that is not empty.
unfoldable pub pair_of : Bytes → Bytes × Bytes
unfolding decode_or_raw
pair_of part = elim (break_on b'=' part) [
  | none ↦ (decode_or_raw part, decode_or_raw [])
  | some (k, v) ↦ (decode_or_raw k, decode_or_raw v)
]

unfoldable pub pairs_of : List Bytes → Params
unfolding pair_of
pairs_of [] = []
pairs_of ([] ∷ parts) = pairs_of parts
pairs_of ((c ∷ part) ∷ parts) = pair_of (c ∷ part) ∷ pairs_of parts

unfoldable pub parse_query : Bytes → Params
unfolding pairs_of
parse_query [] = []
parse_query (c ∷ query) = pairs_of (split_on b'&' (c ∷ query))

-- The lambda that is handed to `std::sort`.
unfoldable pub pair_before : Bytes × Bytes → Bytes × Bytes → Bool
pair_before a b = if before a.0 b.0 then true else if before b.0 a.0 then false else before a.1 b.1

-- The loop that copies the parameters, less the excluded key.
unfoldable pub exclude : Option Bytes → Params → Params
exclude none params = params
exclude (some key) [] = []
exclude (some key) ((k, v) ∷ params) =
    let rest = exclude (some key) params in if beq k key then rest else (k, v) ∷ rest

unfoldable pub print_pair : Bytes × Bytes → Bytes
print_pair kv = percent_encode kv.0 true ++ b'=' ∷ percent_encode kv.1 true

-- The pairs behind the first have an ampersand in front.
print_rest : Params → Bytes
unfolding print_pair
print_rest [] = []
print_rest (kv ∷ params) = b'&' ∷ (print_pair kv ++ print_rest params)

unfoldable pub print_params : Params → Bytes
unfolding print_pair print_rest
print_params [] = []
print_params (kv ∷ params) = print_pair kv ++ print_rest params

pub pair_irrefl : (a : Bytes × Bytes) → pair_before a a ≡ false
unfolding pair_before
pair_irrefl (k, v) = rw (before_irrefl k, before_irrefl v)

pub pair_trans :
    (a b c : Bytes × Bytes)
    → pair_before a b ≡ true
    → pair_before b c ≡ true
    → pair_before a c ≡ true
unfolding pair_before
pair_trans (a, x) (b, y) (c, z) h k = ground (
  arith,
  before_trans a b c,
  before_trans c a b,
  before_trans b c a,
  before_antisym a b,
  before_antisym b c,
  before_trans x y z,
  before_irrefl a,
  before_irrefl b,
  before_irrefl c,
)

pub pair_antisym : (a b : Bytes × Bytes) → pair_before a b ≡ false → pair_before b a ≡ false → a ≡ b
unfolding pair_before
pair_antisym (a, x) (b, y) h k = ground (arith, before_antisym a b, before_antisym x y)

-- `abbrev`, so that the comparison computes in tests.
abbrev pub pair_order : StrictOrder (Bytes × Bytes)
pair_order = record {
  less = pair_before;
  irrefl = pair_irrefl;
  trans = pair_trans;
  antisym = pair_antisym;
}

unfoldable pub canonical_query_string : Params → Option Bytes → Bytes
unfolding exclude print_params sort pair_before
canonical_query_string params exclude_key =
    print_params (sort pair_order (exclude exclude_key params))
