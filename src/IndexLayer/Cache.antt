-- ===== src/IndexLayer/Cache.antt =====
-- index_layer/src/cache.h and cache.cc: the class `PrefixMap`. The proofs are in the children.
pub mod Loops
pub mod Usable
pub mod Lookup
pub mod Stores
pub mod Stored
pub mod RoundTrip
pub mod Empty
pub mod Left
pub mod Ends
pub mod Consistent
pub mod Reachable
pub mod ZeroBlock
pub mod Samples
mod Tests
use prompt_cache_storage.Prelude.{
  ℕ, zero, suc, ◌+◌, ◌*◌, ◌-◌, ◌%◌, ◌^◌, ℤ, pos, negsuc, Bool, true, false, ◌||◌, ◌&&◌, not, Option,
  none, some, List, [], ◌∷◌, Bytes, length, ltb, leb, ◌==◌, if◌then◌else◌,
}
use prompt_cache_storage.Prelude.Int.{ltbℤ, lebℤ, is_nonpos, is_positive, to_size_t, to_ℕ}
use prompt_cache_storage.Prelude.Assoc.{Assoc, lookup, insert, nat_key, bytes_key}
use prompt_cache_storage.IndexLayer.Run.{Run, done, overflow, out_of_fuel, ◌>>=◌}
use prompt_cache_storage.IndexLayer.Hash.{hash_tokens, hash_bytes_hex}
use prompt_cache_storage.IndexLayer.Storage.{Storage}

pub record PrefixEntry : Type 0 where
  pub obj_id : Bytes
  pub usable_len_bytes : ℤ
  pub version : ℕ
  pub owner_id : Bytes
  pub priority : ℤ

pub record ObjectMeta : Type 0 where
  pub total_bytes : ℤ
  pub last_access : ℕ
  pub inflight_reads : ℕ

pub record LookupResult : Type 0 where
  pub hit : Bool
  pub obj_id : Bytes
  pub usable_len_bytes : ℤ
  pub prefix_tokens : ℕ

-- The fields of the class, less `storage_`, whose state is passed beside them.
pub record PrefixMap : Type 0 where
  pub block_size : ℤ
  pub bytes_per_token : ℤ
  pub version_clock : ℕ
  pub prefix_map : Assoc ℕ PrefixEntry
  pub obj_table : Assoc Bytes ObjectMeta

-- `LookupResult{}` and `PrefixEntry{}`
abbrev pub miss : LookupResult
miss = record { hit = false; obj_id = []; usable_len_bytes = pos 0; prefix_tokens = 0 }

abbrev pub no_entry : PrefixEntry
no_entry = record {
  obj_id = [];
  usable_len_bytes = pos 0;
  version = 0;
  owner_id = [];
  priority = pos 0;
}

abbrev pub int_limit : ℕ
int_limit = 2 ^ 31

-- `static_cast<int>` of a `size_t`.
unfoldable pub to_int : ℕ → ℤ
to_int n = let w = n % 2 ^ 32 in if ltb w int_limit then pos w else negsuc (2 ^ 32 - w - 1)

-- A sum and a product of `int`s that are not negative.
unfoldable pub add_int : ℕ → ℕ → Run ℕ
add_int a b = if ltb (a + b) int_limit then done (a + b) else overflow

unfoldable pub mul_int : ℕ → ℕ → Run ℕ
mul_int a b = if ltb (a * b) int_limit then done (a * b) else overflow

-- `double`, as far as `UsableBytes` computes with it.
pub record Double : Type 1 where
  pub D : Type 0
  pub of_int : ℤ → D
  pub divide : D → D → D
  pub multiply : D → D → D
  pub truncate : D → ℤ

minℤ : ℤ → ℤ → ℤ
minℤ a b = if ltbℤ b a then b else a

-- `UsableBytes`; the product is reached only with a positive `bytes_per_token_`.
-- At least one byte, and at most all of them.
clamp : ℤ → ℤ → ℤ
unfolding minℤ
clamp bytes total_bytes = minℤ (if ltbℤ bytes (pos 1) then pos 1 else bytes) total_bytes

module _ (double : Double) where
  open double use {of_int, divide, multiply, truncate}

  proportional : ℕ → ℤ → ℤ → ℤ
  unfolding clamp
  proportional prefix_len total_tokens total_bytes =
      let frac = divide (of_int (pos prefix_len)) (of_int total_tokens) in
      clamp (truncate (multiply frac (of_int total_bytes))) total_bytes

  is_zero : ℤ → Bool
  is_zero (pos zero) = true
  is_zero _ = false

  pub usable_bytes : ℤ → ℕ → ℤ → ℤ → Run ℤ
  unfolding minℤ mul_int proportional is_zero
  usable_bytes bytes_per_token prefix_len total_tokens total_bytes =
      if is_positive bytes_per_token
      then (do
        bytes ← mul_int prefix_len (to_ℕ bytes_per_token)
        done (minℤ (pos bytes) total_bytes))
      else if is_zero total_tokens || is_zero total_bytes
      then done (pos 0)
      else done (proportional prefix_len total_tokens total_bytes)

pub found : PrefixEntry × ℕ → LookupResult
found (e, last_prefix) = if last_prefix == 0 then miss else record {
  hit = true;
  obj_id = e.obj_id;
  usable_len_bytes = e.usable_len_bytes;
  prefix_tokens = last_prefix;
}

-- The default and the bound of `max_len_tokens`.
unfoldable pub effective_max : ℤ → ℕ → ℤ
effective_max max_len_tokens size =
    if is_nonpos max_len_tokens || ltbℤ (to_int size) max_len_tokens
    then to_int size
    else max_len_tokens

-- The first guard of `Lookup` and of the prefixes in `Store`. Past it a negative block size would
-- need 2^64 - 2^31 tokens.
unfoldable pub below_block : PrefixMap → List Bytes → Bool
below_block c tokens = ltb (length tokens) (to_size_t c.block_size)

-- The `Put` of `Store`, which the caller may skip.
unfoldable pub submit : (s : Storage) → Bool → Bytes → Bytes → s.State → Bool × s.State
submit s true obj_id bytes st = (true, st)
submit s false obj_id bytes st = s.put obj_id bytes st

module _ (hasher : Bytes → ℕ) where
  -- The loop of `Lookup`: the last entry found and the length of its prefix.
  pub lookup_loop :
      Assoc ℕ PrefixEntry → List Bytes → ℕ → ℤ → ℕ → ℕ → PrefixEntry → ℕ → Run (PrefixEntry × ℕ)
  lookup_loop prefixes tokens block max_len zero prefix_len last_entry last_prefix = out_of_fuel
  lookup_loop prefixes tokens block max_len (suc fuel) prefix_len last_entry last_prefix =
      elim (lebℤ (pos prefix_len) max_len) [
        | true ↦ elim (lookup (hash_tokens hasher tokens prefix_len) prefixes) [
          | none ↦ done (last_entry, last_prefix)
          | some e ↦ add_int prefix_len block >>= λ next.
              lookup_loop prefixes tokens block max_len fuel next e prefix_len
        ]
        | false ↦ done (last_entry, last_prefix)
      ]

  pub look_up : ℕ → PrefixMap → List Bytes → ℤ → Run LookupResult
  unfolding found
  look_up fuel c tokens max_len_tokens =
      let block = to_ℕ c.block_size in
      let search_from_block =
        lookup_loop c.prefix_map tokens block (effective_max max_len_tokens (length tokens)) fuel
          block no_entry 0
        >>= λ r. done (found r) in
      if below_block c tokens then done miss else search_from_block

  module _ (double : Double) where
    -- The loop of `Store`, over the map that it writes.
    pub store_loop :
        ℤ
        → ℤ
        → List Bytes
        → ℤ
        → PrefixEntry
        → ℕ
        → ℕ
        → ℕ
        → Assoc ℕ PrefixEntry
        → Run (Assoc ℕ PrefixEntry)
    store_loop bytes_per_token size tokens total_bytes entry block zero prefix_len prefixes =
        out_of_fuel
    store_loop bytes_per_token size tokens total_bytes entry block (suc fuel) prefix_len prefixes =
        elim (lebℤ (pos prefix_len) size) [
          | true ↦ usable_bytes double bytes_per_token prefix_len size total_bytes >>= λ usable.
              add_int prefix_len block >>= λ next.
              store_loop bytes_per_token size tokens total_bytes entry block fuel next (
                insert (hash_tokens hasher tokens prefix_len)
                  (record entry { usable_len_bytes = usable }) prefixes)
          | false ↦ done prefixes
        ]

    -- What `Store` does once the object is in the storage. `now` is the reading of the clock.
    pub index_prefixes : ℕ → ℕ → List Bytes → Bytes → Bytes → ℤ → Bytes → PrefixMap → Run PrefixMap
    index_prefixes fuel now tokens bytes owner_id priority obj_id c =
        let meta : ObjectMeta = record {
          total_bytes = to_int (length bytes);
          last_access = now;
          inflight_reads = 0;
        } in
        let c' : PrefixMap = record c {
          version_clock = c.version_clock + 1;
          obj_table = insert obj_id meta c.obj_table;
        } in
        let entry : PrefixEntry = record {
          obj_id = obj_id;
          usable_len_bytes = pos 0;
          version = c'.version_clock;
          owner_id = owner_id;
          priority = priority;
        } in
        let block = to_ℕ c.block_size in
        let indexed =
          store_loop c.bytes_per_token (to_int (length tokens)) tokens (to_int (length bytes)) entry
            block fuel block c.prefix_map
          >>= λ prefixes. done (record c' { prefix_map = prefixes }) in
        if below_block c tokens then done c' else indexed

    module _ (s : Storage) where
      -- `Store`: the returned id, empty if the storage refused, with both states.
      pub store :
          ℕ
          → ℕ
          → List Bytes
          → Bytes
          → Bytes
          → ℤ
          → Bool
          → PrefixMap
          → s.State
          → Run (Bytes × PrefixMap × s.State)
      store fuel now tokens bytes owner_id priority skip_put c st =
          let obj_id = hash_bytes_hex hasher bytes in
          let (accepted, st') = submit s skip_put obj_id bytes st in
          let indexed = index_prefixes fuel now tokens bytes owner_id priority obj_id c >>= λ c'.
          done (obj_id, c', st') in
          if accepted then indexed else done ([], c, st')

-- `Load`: the result of the range read, and what it left in `out`.
unfoldable pub load : (s : Storage) → Bytes → ℤ → s.State → Bool × Bytes × s.State
load s obj_id usable_len_bytes st = s.get_range obj_id usable_len_bytes st

-- The constructor, given whether the pointer to the storage is set; `none` is the exception.
unfoldable pub construct : ℤ → ℤ → Bool → Option PrefixMap
construct block_size bytes_per_token has_storage =
    if has_storage
    then some (record {
      block_size = block_size;
      bytes_per_token = bytes_per_token;
      version_clock = 0;
      prefix_map = [];
      obj_table = [];
    })
    else none

unfoldable pub prefix_count : PrefixMap → ℕ
prefix_count c = length c.prefix_map

unfoldable pub object_count : PrefixMap → ℕ
object_count c = length c.obj_table
