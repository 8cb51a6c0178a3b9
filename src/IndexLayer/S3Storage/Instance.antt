-- ===== src/IndexLayer/S3Storage/Instance.antt =====
-- `S3Storage` as a `Storage`.
use prompt_cache_storage.Prelude.{ℕ, ℤ, Bool, false, Option, none, some, [], Bytes}
use prompt_cache_storage.IndexLayer.Storage.{Storage}
use prompt_cache_storage.IndexLayer.S3Storage.{Config, Curl, State, put, get_range, delete}

module _ (curl : Curl) where
  -- The use of a freed handle leaves the state `none`, in which nothing more can be said.
  unfoldable pub put_result : Option (Bool × State curl) → Bool × Option (State curl)
  put_result none = (false, none)
  put_result (some (accepted, s)) = (accepted, some s)

  unfoldable pub get_result :
      Option (Bool × Bytes × State curl) → Bool × Bytes × Option (State curl)
  get_result none = (false, [], none)
  get_result (some (accepted, out, s)) = (accepted, out, some s)

  unfoldable pub put_at : Config → Bytes → Bytes → Option (State curl) → Bool × Option (State curl)
  unfolding put_result
  put_at cfg obj_id bytes none = (false, none)
  put_at cfg obj_id bytes (some s) = put_result (put curl cfg obj_id bytes s)

  unfoldable pub get_at :
      Config → Bytes → ℤ → Option (State curl) → Bool × Bytes × Option (State curl)
  unfolding get_result
  get_at cfg obj_id max_bytes none = (false, [], none)
  get_at cfg obj_id max_bytes (some s) = get_result (get_range curl cfg obj_id max_bytes s)

  unfoldable pub delete_at : Config → Bytes → Option (State curl) → Bool × Option (State curl)
  unfolding put_result
  delete_at cfg obj_id none = (false, none)
  delete_at cfg obj_id (some s) = put_result (delete curl cfg obj_id s)

  unfoldable pub size : Option (State curl) → ℕ
  size st = 0

  abbrev pub s3_storage : Config → Storage
  s3_storage cfg = record {
    State = Option (State curl);
    put = put_at cfg;
    get_range = get_at cfg;
    delete = delete_at cfg;
    size = size;
  }
