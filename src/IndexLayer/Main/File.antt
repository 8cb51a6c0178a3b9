-- ===== src/IndexLayer/Main/File.antt =====
-- index_layer/src/main.cpp: `ReadFile` and `WriteFile` over the file streams, which are a parameter.
use prompt_cache_storage.Prelude.{ℕ, ℤ, pos, negsuc, Bool, true, false, Option, none, some, Bytes}

pub record Files : Type 1 where
  pub Disk : Type 0
  -- a `std::ifstream`, if it could be opened
  pub Stream : Type 0
  pub open_read : Bytes → Disk → Option Stream
  -- `tellg` after `seekg(0, std::ios::end)`
  pub end_of : Stream → ℤ
  -- that many bytes from the beginning, or a stream that failed
  pub read : ℕ → Stream → Option Bytes
  -- the opening of a `std::ofstream`, which truncates the file; then `write` with `good()`
  pub open_write : Bytes → Disk → Bool × Disk
  pub write : Bytes → Bytes → Disk → Bool × Disk

module _ (files : Files) where
  open files use {Disk, Stream, open_read, end_of, read, open_write, write}

  sized : Stream → ℤ → Option Bytes
  sized file (pos size) = read size file
  sized file (negsuc size) = none

  unfoldable pub read_file : Bytes → Disk → Option Bytes
  unfolding sized
  read_file path disk = elim (open_read path disk) [
    | none ↦ none
    | some file ↦ sized file (end_of file)
  ]

  written : Bytes → Bytes → Bool × Disk → Bool × Disk
  written path bytes (false, disk) = (false, disk)
  written path bytes (true, disk) = write path bytes disk

  unfoldable pub write_file : Bytes → Bytes → Disk → Bool × Disk
  unfolding written
  write_file path bytes disk = written path bytes (open_write path disk)
