-- ===== src/IndexLayer/Main/Tests.antt =====
-- Runs of the command line, on a disk of one file and a network that is the gateway itself.
use prompt_cache_storage.Prelude.{
  ℕ, pos, true, false, some, List, [], ◌∷◌, Bytes, codes, length, take,
}
use prompt_cache_storage.IndexLayer.Cache.Samples.{small_hash, fractions, ten_bytes}
use prompt_cache_storage.IndexLayer.S3Storage.Network.{network, start}
use prompt_cache_storage.IndexLayer.Main.Args.{Options, has_flag}
use prompt_cache_storage.IndexLayer.Main.File.{Files}
use prompt_cache_storage.IndexLayer.Main.{main}
use prompt_cache_storage.IndexLayer.Main.Lookup.{IsMiss, main_lookup}
use prompt_cache_storage.IndexLayer.Main.Freed.{IsIntact, main-IsIntact}

-- Every path is the one file.
abbrev one_file : Files
one_file = record {
  Disk = Bytes;
  Stream = Bytes;
  open_read = λ path disk. some disk;
  end_of = λ file. pos (length file);
  read = λ n file. some (take n file);
  open_write = λ path disk. (true, []);
  write = λ path bytes disk. (true, bytes);
}

abbrev server_args : List Bytes
server_args = codes "--s3-endpoint" ∷ codes "http://h/" ∷ codes "--s3-bucket" ∷ codes "cache" ∷ []

abbrev store_args : List Bytes
store_args =
    codes "--tokens"
    ∷ codes "the,cat,sat,on,it"
    ∷ codes "--data-file"
    ∷ codes "f"
    ∷ codes "--block-size"
    ∷ codes "2"
    ∷ server_args

abbrev load_args : List Bytes
load_args =
    codes "--obj-id" ∷ codes "000000000000294c" ∷ codes "--usable-len" ∷ codes "4" ∷ server_args

abbrev options : ℕ → Options
options block = record {
  block_size = pos block;
  bytes_per_token = pos 0;
  s3_endpoint = codes "http://h/";
  s3_bucket = codes "cache";
  s3_create_bucket = false;
  s3_timeout_ms = pos 5000;
  s3_connect_timeout_ms = pos 2000;
  s3_insecure = false;
}

main_lookup_example : IsMiss (has_flag (codes "--s3-create-bucket") (codes "lookup" ∷ store_args)) (
    main network one_file small_hash fractions 6 99
      (codes "cache_cli")
      (codes "lookup" ∷ store_args)
      ten_bytes
      start.world)
main_lookup_example =
    main_lookup network one_file small_hash fractions 5 99 (codes "cache_cli") store_args ten_bytes
      start.world

main-IsIntact_example : IsIntact (
    main network one_file small_hash fractions 6 99
      (codes "cache_cli")
      (codes "store" ∷ store_args)
      ten_bytes
      start.world)
main-IsIntact_example =
    main-IsIntact network one_file small_hash fractions 6 99 (codes "cache_cli")
      (codes "store" ∷ store_args) ten_bytes start.world
