-- ===== src/IndexLayer/Cache/Tests.antt =====
-- The prefix map on concrete inputs, over a storage in memory.
use prompt_cache_storage.Prelude.{
  ℕ, ◌+◌, ◌*◌, ℤ, pos, ◌≡◌, refl, Bool, true, false, Option, none, some, List, [], ◌∷◌, Bytes,
  codes, arith, beq, if◌then◌else◌, length, take, ◌<◌, ◌≤◌, subst,
}
use prompt_cache_storage.Prelude.Int.{to_ℕ}
use prompt_cache_storage.Prelude.Assoc.{Assoc, lookup, insert, bytes_key, nat_key}
use prompt_cache_storage.IndexLayer.Run.{done, out_of_fuel}
use prompt_cache_storage.IndexLayer.Storage.{Storage}
use prompt_cache_storage.IndexLayer.Hash.{join_tokens, hash_tokens, hash_bytes_hex}
use prompt_cache_storage.IndexLayer.Hash.Joined.{join_tokens-injective, AreClean}
use prompt_cache_storage.IndexLayer.Cache.{
  PrefixEntry, PrefixMap, LookupResult, store, look_up, submit, usable_bytes, index_prefixes,
  store_loop, below_block, to_int, add_int, lookup_loop, effective_max,
}
use prompt_cache_storage.IndexLayer.Cache.Usable.Least.{IsUsable}
use prompt_cache_storage.IndexLayer.Cache.Lookup.{look_up-IsLongest, search_bound, answer}
use prompt_cache_storage.IndexLayer.Cache.Loops.{IsLongest, entry_at}
use prompt_cache_storage.IndexLayer.Cache.Stored.{store-IsStored, IsStored}
use prompt_cache_storage.IndexLayer.Cache.RoundTrip.{look_up-store}
use prompt_cache_storage.IndexLayer.Cache.Reachable.{Reachable}
use prompt_cache_storage.IndexLayer.Cache.ZeroBlock.{store_zero_block}
use prompt_cache_storage.IndexLayer.Cache.Samples.{
  small_hash, fractions, map_of, five_tokens, ten_bytes,
}

abbrev read_range : ℤ → Option Bytes → Bool × Bytes
read_range n none = (false, [])
read_range n (some bytes) = (true, take (to_ℕ n) bytes)

abbrev erase : Bytes → Assoc Bytes Bytes → Assoc Bytes Bytes
erase id [] = []
erase id ((key, bytes) ∷ st) =
    let rest = erase id st in if beq id key then rest else (key, bytes) ∷ rest

abbrev memory : Storage
memory = record {
  State = Assoc Bytes Bytes;
  put = λ id bytes st. (true, insert id bytes st);
  get_range = λ id n st. let (ok, out) = read_range n (lookup id st) in (ok, out, st);
  delete = λ id st. (true, erase id st);
  size = λ st. length st;
}

-- A storage without room.
abbrev full_disk : Storage
full_disk = record {
  State = Unit {0};
  put = λ id bytes st. (false, st);
  get_range = λ id n st. (false, [], st);
  delete = λ id st. (false, st);
  size = λ st. 0;
}

abbrev ten_bytes_id : Bytes
ten_bytes_id = codes "000000000000294c"

abbrev entry_for : ℕ → PrefixEntry
entry_for usable = record {
  obj_id = ten_bytes_id;
  usable_len_bytes = pos usable;
  version = 1;
  owner_id = codes "me";
  priority = pos 3;
}

abbrev after_store : PrefixMap
after_store = record {
  block_size = pos 2;
  bytes_per_token = pos 0;
  version_clock = 1;
  prefix_map = (61793, entry_for 4) ∷ (37110, entry_for 8) ∷ [];
  obj_table =
      (ten_bytes_id, record { total_bytes = pos 10; last_access = 99; inflight_reads = 0 }) ∷ [];
}

abbrev on_disk : Assoc Bytes Bytes
on_disk = (ten_bytes_id, ten_bytes) ∷ []

stored_run :
    store small_hash fractions memory 6 99 five_tokens ten_bytes
      (codes "me")
      (pos 3)
      false
      (map_of (pos 2))
      []
    ≡ done (ten_bytes_id, after_store, on_disk)
unfolding store index_prefixes store_loop usable_bytes submit insert lookup hash_bytes_hex
    hash_tokens below_block to_int add_int
stored_run = refl

refused_run :
    store small_hash fractions full_disk 6 99 five_tokens ten_bytes
      (codes "me")
      (pos 3)
      false
      (map_of (pos 2))
      tt
    ≡ done ([], map_of (pos 2), tt)
unfolding store submit
refused_run = refl

id_of_ten_bytes : hash_bytes_hex small_hash ten_bytes ≡ ten_bytes_id
unfolding hash_bytes_hex
id_of_ten_bytes = refl

memory_accepts :
    submit memory false (hash_bytes_hex small_hash ten_bytes) ten_bytes [] ≡ (true, on_disk)
unfolding submit insert hash_bytes_hex
memory_accepts = refl

found_run :
    look_up small_hash 6 after_store five_tokens (pos 3)
    ≡ done
        (record { hit = true; obj_id = ten_bytes_id; usable_len_bytes = pos 4; prefix_tokens = 2 })
unfolding look_up lookup_loop lookup hash_tokens below_block to_int add_int effective_max
found_run = refl

look_up-store_example :
    (r : LookupResult) × (look_up small_hash 6 after_store five_tokens (pos 3) ≡ done r)
    × (r.hit ≡ true)
    × (r.obj_id ≡ ten_bytes_id)
    × IsUsable r.usable_len_bytes (length ten_bytes)
    × ((k : ℕ) × (r.prefix_tokens ≡ k * 2)
        × (k * 2 ≤ search_bound (pos 3) (length five_tokens))
        × (search_bound (pos 3) (length five_tokens) < k * 2 + 2))
look_up-store_example =
    look_up-store small_hash fractions memory 6 99 five_tokens ten_bytes ten_bytes_id (codes "me")
      (pos 3) false (map_of (pos 2)) after_store [] on_disk 2 (pos 3) stored_run memory_accepts refl
      (omega arith) (omega arith) (omega arith) (omega arith) (omega arith) (omega arith)

look_up-IsLongest_example :
    (k : ℕ) × (e : PrefixEntry) × IsLongest
      (entry_at small_hash after_store.prefix_map five_tokens)
      2
      (search_bound (pos 0) (length five_tokens))
      k
      (e, k * 2)
    × (look_up small_hash 6 after_store five_tokens (pos 0) ≡ done (answer 2 k e))
look_up-IsLongest_example =
    look_up-IsLongest small_hash after_store five_tokens (pos 0) 2 6 refl (omega arith)
      (omega arith) (omega arith)

store-IsStored_example :
    (c' : PrefixMap) × (store small_hash fractions memory 6 99 five_tokens ten_bytes
        (codes "me")
        (pos 3)
        false
        (map_of (pos 2))
        []
      ≡ done (ten_bytes_id, c', on_disk))
    × IsStored small_hash fractions five_tokens ten_bytes ten_bytes_id
        (codes "me")
        (pos 3)
        99
        2
        (map_of (pos 2))
        c'
store-IsStored_example =
    store-IsStored small_hash fractions five_tokens ten_bytes ten_bytes_id (codes "me") (pos 3) 99 2
      6 (map_of (pos 2)) refl (omega arith) (omega arith) (omega arith) (omega arith) (omega arith)
      memory false [] on_disk id_of_ten_bytes
      (subst (λ id. submit memory false id ten_bytes [] ≡ (true, on_disk)) id_of_ten_bytes
        memory_accepts)

store_zero_block_example :
    store small_hash fractions memory 1000 99 five_tokens ten_bytes
      (codes "me")
      (pos 3)
      false
      (map_of (pos 0))
      []
    ≡ out_of_fuel
store_zero_block_example =
    store_zero_block small_hash fractions memory 99 five_tokens ten_bytes (codes "me") (pos 3) false
      (map_of (pos 0)) [] on_disk memory_accepts refl (omega arith) (omega arith) 1000

usable_run : usable_bytes fractions (pos 0) 2 (pos 5) (pos 10) ≡ done (pos 4)
unfolding usable_bytes
usable_run = refl

-- The data of ten bytes and others of five.
abbrev two_data : List Bytes
two_data = ten_bytes ∷ codes "12345" ∷ []

abbrev cat_text : List Bytes
cat_text = codes "a" ∷ codes "cat" ∷ codes "!" ∷ []

abbrev cat_question : List Bytes
cat_question = codes "a" ∷ codes "cat" ∷ codes "?" ∷ []

cat_text-AreClean : AreClean cat_text
cat_text-AreClean =
    ((omega arith, tt), ((omega arith, (omega arith, (omega arith, tt))), ((omega arith, tt), tt)))

cat_question-AreClean : AreClean cat_question
cat_question-AreClean =
    ((omega arith, tt), ((omega arith, (omega arith, (omega arith, tt))), ((omega arith, tt), tt)))

same_join : join_tokens cat_text 2 ≡ join_tokens cat_question 2
unfolding join_tokens
same_join = refl

join_tokens-injective_example : take 2 cat_text ≡ take 2 cat_question
join_tokens-injective_example =
    join_tokens-injective cat_text cat_question 2 2 cat_text-AreClean cat_question-AreClean
      (omega arith) (omega arith) (omega arith) (omega arith) same_join
