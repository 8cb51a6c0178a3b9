-- ===== src/Gateway/Storage/Rocks.antt =====
-- RocksDB and the clocks, as `RocksObjectStore` uses them. They are not part of the repository: their
-- operations are a parameter, and what the code relies on is the record `RocksLaws`.
pub mod Order
pub mod Reference
use prompt_cache_storage.Prelude.{
  ℕ, zero, suc, ◌<◌, ℤ, ◌≡◌, Bool, true, false, Option, none, some, List, [], ◌∷◌, Bytes, ◌⊎◌, beq,
  All, if◌then◌else◌,
}
use prompt_cache_storage.Prelude.Int.{IsInt64}
use prompt_cache_storage.Gateway.Metrics.{Latency}

-- A `rocksdb::Status`; the text is that of `ToString`.
pub data Status : Type 0 where
  fine : Status
  not_found : Status
  broken : Bytes → Status

-- A `WriteBatch` is a list of these.
pub data BatchOp : Type 0 where
  put : Bytes → Bytes → BatchOp
  delete : Bytes → BatchOp

-- A positioned iterator: the entries from here on, and the status once it has run past them. While
-- an entry is left the iterator is valid and its status is OK.
pub record Cursor : Type 0 where
  pub entries : List (Bytes × Bytes)
  pub at_end : Status

pub record Rocks : Type 1 where
  pub World : Type 0
  pub Time : Type 0
  pub latency : Latency
  -- `Get`, with the value that it left behind (empty unless the status is OK)
  pub get : Bytes → World → Status × Bytes × World
  -- `Write`; `Put` and `Delete` write a batch of one
  pub write : List BatchOp → World → Status × World
  -- `NewIterator` and `Seek`
  pub seek : Bytes → World → Cursor × World
  pub steady_now : World → Time × World
  pub elapsed : Time → Time → latency.Ms
  pub unix_now_seconds : World → ℤ × World

-- The byte order of RocksDB's default comparator.
abbrev pub LeBytes : Bytes → Bytes → Type 0
LeBytes [] b = Unit
LeBytes (c ∷ a) [] = ⊥
LeBytes (c ∷ a) (d ∷ b) = (c < d) ⊎ ((c ≡ d) × LeBytes a b)

-- A batch applied to what the database holds, the last write of a key winning.
unfoldable pub apply_op : BatchOp → (Bytes → Option Bytes) → Bytes → Option Bytes
apply_op (put k v) m j = if beq k j then some v else m j
apply_op (delete k) m j = if beq k j then none else m j

unfoldable pub apply_batch : List BatchOp → (Bytes → Option Bytes) → Bytes → Option Bytes
unfolding apply_op
apply_batch [] m j = m j
apply_batch (op ∷ ops) m j = apply_batch ops (apply_op op m) j

abbrev pub Member : Bytes × Bytes → List (Bytes × Bytes) → Type 0
Member e [] = ⊥
Member e (x ∷ xs) = (x ≡ e) ⊎ Member e xs

-- Every entry stands before those behind it.
abbrev pub IsSorted : List (Bytes × Bytes) → Type 0
IsSorted [] = Unit
IsSorted (e ∷ es) = All (λ (x : Bytes × Bytes). LeBytes e.0 x.0) es × IsSorted es

-- What RocksDB documents: a read returns what is held, a batch is written whole or not at all and
-- whole if the status is OK, an iterator walks the held keys in order, and none but writes change what
-- is held.
pub record RocksLaws (r : Rocks) : Type 0 where
  pub holds : r.World → Bytes → Option Bytes
  pub get_fine : (k : Bytes) (w : r.World) → (r.get k w).0 ≡ fine → holds w k ≡ some (r.get k w).1
  pub get_absent : (k : Bytes) (w : r.World) → (r.get k w).0 ≡ not_found → holds w k ≡ none
  pub get_keeps : (k : Bytes) (w : r.World) → holds (r.get k w).2 ≡ holds w
  pub write_atomic :
      (ops : List BatchOp) (w : r.World)
      → ((j : Bytes) → holds (r.write ops w).1 j ≡ apply_batch ops (holds w) j)
        ⊎ (((r.write ops w).0 ≡ fine → ⊥) × (holds (r.write ops w).1 ≡ holds w))
  pub seek_keeps : (k : Bytes) (w : r.World) → holds (r.seek k w).1 ≡ holds w
  pub seek_sound :
      (k : Bytes) (w : r.World)
      → All (λ (e : Bytes × Bytes). LeBytes k e.0 × (holds w e.0 ≡ some e.1)) (r.seek k w).0.entries
  pub seek_sorted : (k : Bytes) (w : r.World) → IsSorted (r.seek k w).0.entries
  -- A key that is held is among the entries, or lies behind the place where the iterator failed.
  pub seek_complete :
      (k : Bytes) (w : r.World) (j v : Bytes)
      → LeBytes k j
      → holds w j ≡ some v
      → Member (j, v) (r.seek k w).0.entries
        ⊎ (((r.seek k w).0.at_end ≡ fine → ⊥)
            × All (λ (e : Bytes × Bytes). LeBytes e.0 j) (r.seek k w).0.entries)
  pub steady_keeps : (w : r.World) → holds (r.steady_now w).1 ≡ holds w
  pub unix_keeps : (w : r.World) → holds (r.unix_now_seconds w).1 ≡ holds w
  pub unix_range : (w : r.World) → IsInt64 (r.unix_now_seconds w).0
