-- ===== src/IndexLayer/Main/Args.antt =====
-- index_layer/src/main.cpp: how the arguments are read. The list of arguments starts behind the
-- program's name.
use prompt_cache_storage.Prelude.{
  ◌≡◌, refl, sym, ap, ℤ, pos, Bool, false, ◌||◌, Option, none, some, List, [], ◌∷◌, Bytes, codes,
  beq, if◌then◌else◌,
}
use prompt_cache_storage.Prelude.Text.{is_empty, split_on}
use prompt_cache_storage.Prelude.Numeral.Sto.{stoi, stol}

drop_empty : List Bytes → List Bytes
drop_empty [] = []
drop_empty (item ∷ items) =
    let rest = drop_empty items in if is_empty item then rest else item ∷ rest

-- `SplitTokens`: what `std::getline` gives up to each comma, less the empty items.
unfoldable pub split_tokens : Bytes → List Bytes
unfolding drop_empty split_on
split_tokens input = drop_empty (split_on b',' input)

-- The lambda `get_arg`: what stands behind the first `key`, which the last argument cannot be.
unfoldable pub get_arg : Bytes → List Bytes → Bytes
get_arg key [] = []
get_arg key (a ∷ []) = []
get_arg key (a ∷ b ∷ args) = let rest = get_arg key (b ∷ args) in if beq a key then b else rest

-- The loop over the flags, for one of them.
unfoldable pub has_flag : Bytes → List Bytes → Bool
has_flag flag [] = false
has_flag flag (a ∷ args) = beq a flag || has_flag flag args

pub record Options : Type 0 where
  pub block_size : ℤ
  pub bytes_per_token : ℤ
  pub s3_endpoint : Bytes
  pub s3_bucket : Bytes
  pub s3_create_bucket : Bool
  pub s3_timeout_ms : ℤ
  pub s3_connect_timeout_ms : ℤ
  pub s3_insecure : Bool

-- An option that is not given, or given as the empty text, keeps its default.
unfoldable pub text_option : Bytes → Bytes → Bytes
text_option fallback text = if is_empty text then fallback else text

-- `none` is an exception of `std::stoi`, and of `std::stol`.
unfoldable pub int_option : ℤ → Bytes → Option ℤ
int_option fallback text = if is_empty text then some fallback else stoi text

unfoldable pub long_option : ℤ → Bytes → Option ℤ
long_option fallback text = if is_empty text then some fallback else stol text

infixl 5 ◌>>=◌
abbrev ◌>>=◌ : {A B : Type 0} → Option A → (A → Option B) → Option B
none >>= f = none
some a >>= f = f a

unfoldable pub read_options : List Bytes → Option Options
read_options args = do
  block_size ← int_option (pos 8) (get_arg (codes "--block-size") args)
  bytes_per_token ← int_option (pos 0) (get_arg (codes "--bytes-per-token") args)
  timeout_ms ← long_option (pos 5000) (get_arg (codes "--s3-timeout-ms") args)
  connect_timeout_ms ← long_option (pos 2000) (get_arg (codes "--s3-connect-timeout-ms") args)
  some (record {
    block_size = block_size;
    bytes_per_token = bytes_per_token;
    s3_endpoint = text_option [] (get_arg (codes "--s3-endpoint") args);
    s3_bucket = text_option (codes "prompt-cache") (get_arg (codes "--s3-bucket") args);
    s3_create_bucket = has_flag (codes "--s3-create-bucket") args;
    s3_timeout_ms = timeout_ms;
    s3_connect_timeout_ms = connect_timeout_ms;
    s3_insecure = has_flag (codes "--s3-insecure") args;
  })

some_same : (p o : Options) → some p ≡ some o → o.s3_create_bucket ≡ p.s3_create_bucket
some_same p o h =
    ap (λ (m : Option Options). elim m [ none ↦ p.s3_create_bucket | some q ↦ q.s3_create_bucket ])
      (sym h)

chosen :
    {A : Type 0} (m : Option A) (f : A → Option Options) (asked : Bool)
    → ((a : A) (o : Options) → f a ≡ some o → o.s3_create_bucket ≡ asked)
    → (o : Options) → (m >>= f) ≡ some o
    → o.s3_create_bucket ≡ asked
chosen none f asked step o h = cc
chosen (some a) f asked step o h = step a o h

-- The option to create the bucket is its flag.
pub read_options-create_bucket :
    (args : List Bytes) (o : Options)
    → read_options args ≡ some o
    → o.s3_create_bucket ≡ has_flag (codes "--s3-create-bucket") args
unfolding read_options
read_options-create_bucket args =
    let asked = has_flag (codes "--s3-create-bucket") args in
    chosen {A = ℤ} (int_option (pos 8) (get_arg (codes "--block-size") args)) _ asked (λ block.
      chosen {A = ℤ} (int_option (pos 0) (get_arg (codes "--bytes-per-token") args)) _ asked (λ per.
        chosen {A = ℤ} (long_option (pos 5000) (get_arg (codes "--s3-timeout-ms") args)) _ asked
          (λ time.
            chosen {A = ℤ} (long_option (pos 2000) (get_arg (codes "--s3-connect-timeout-ms") args))
              _ asked (λ connect. λ o h. some_same _ o h))))

split_skips : split_tokens (codes ",a,,bc,") ≡ codes "a" ∷ codes "bc" ∷ []
unfolding split_tokens
split_skips = refl

get_first : get_arg (codes "-k") (codes "-k" ∷ codes "v" ∷ codes "-k" ∷ codes "w" ∷ []) ≡ codes "v"
unfolding get_arg beq
get_first = refl

get_last_ignored : get_arg (codes "-k") (codes "x" ∷ codes "-k" ∷ []) ≡ []
unfolding get_arg beq
get_last_ignored = refl
