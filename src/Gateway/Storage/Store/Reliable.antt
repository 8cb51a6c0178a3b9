-- ===== src/Gateway/Storage/Store/Reliable.antt =====
-- The store over a RocksDB that does not fail: what was put is there, data and metadata.
use prompt_cache_storage.Prelude.{◌≡◌, Bool, true, false, ◌||◌, List, Bytes, ℕ}
use prompt_cache_storage.Gateway.Storage.Keys.{contains_nul, data_key}
use prompt_cache_storage.Gateway.Storage.Rocks.{Rocks, RocksLaws, Status, fine, BatchOp}
use prompt_cache_storage.Gateway.Storage.Env.{State, get, write, is_answer, now_seconds}
use prompt_cache_storage.Gateway.Storage.Store.{
  ok, put_object, get_object_data, put_object_checked, written,
}
use prompt_cache_storage.Gateway.Storage.Store.Objects.{meta_of}
use prompt_cache_storage.Gateway.Storage.Store.Reads.{get_object_data-put_object}

-- No call fails.
pub record IsReliable (r : Rocks) : Type 0 where
  pub get_answers : (k : Bytes) (w : r.World) → is_answer (r.get k w).0 ≡ true
  pub write_fine : (ops : List BatchOp) (w : r.World) → (r.write ops w).0 ≡ fine

module _ {r : Rocks} (laws : RocksLaws r) (sure : IsReliable r) where
  pub get_answer : (k : Bytes) (s : State r) → is_answer (get k s).0.0 ≡ true
  unfolding get
  get_answer k s = sure.get_answers k (r.steady_now s.world).1

  write_answer :
      (op : Bytes) (n : ℕ) (ops : List BatchOp) (s : State r) → (write op n ops s).0 ≡ fine
  unfolding write
  write_answer op n ops s = sure.write_fine ops (r.steady_now s.world).1

  written_fine : {A : Type 0} (a : A) (st : Status) → st ≡ fine → written a st ≡ ok a
  unfolding written
  written_fine a st h = rw h

  put_object_checked_ok :
      (b k x t : Bytes) (s : State r)
      → (put_object_checked b k x t s).0 ≡ ok (meta_of laws x t (now_seconds s).0)
  unfolding put_object_checked
  put_object_checked_ok b k x t s = written_fine _ _ (write_answer _ _ _ _)

  or_false : {a b : Bool} → a ≡ false → b ≡ false → (a || b) ≡ false
  or_false h k = rw (h, k)

  pub put_object_ok :
      (b k x t : Bytes) (s : State r)
      → contains_nul b ≡ false
      → contains_nul k ≡ false
      → (put_object b k x t s).0 ≡ ok (meta_of laws x t (now_seconds s).0)
  unfolding put_object
  put_object_ok b k x t s eb ek = rw (or_false eb ek) (put_object_checked_ok b k x t s)

  -- If no call of RocksDB fails, `put_object` of a bucket and a key without NUL reports success with
  -- the size of the data and the time of the clock, and `get_object_data` then returns the data.
  pub put_object_readable :
      (b k x t : Bytes) (s : State r)
      → contains_nul b ≡ false
      → contains_nul k ≡ false
      → ((put_object b k x t s).0 ≡ ok (meta_of laws x t (now_seconds s).0))
        × ((get_object_data b k (put_object b k x t s).1).0 ≡ ok x)
  put_object_readable b k x t s eb ek =
      let success = put_object_ok b k x t s eb ek in
      (success, get_object_data-put_object laws b k x t s success (get_answer (data_key b k) _))
