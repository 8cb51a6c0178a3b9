-- ===== src/IndexLayer/Main.antt =====
-- index_layer/src/main.cpp: the command line of the index layer. A run starts with an empty prefix map, and
-- with no handle of libcurl yet.
pub mod Args
pub mod File
pub mod Endings
pub mod Commands
pub mod RoundTrip
pub mod Lookup
pub mod Freed
mod Tests
use prompt_cache_storage.Prelude.{
  ℕ, ℤ, pos, Bool, true, false, not, ◌||◌, Option, none, some, List, [], ◌∷◌, ◌++◌, Bytes, codes,
  beq, if◌then◌else◌,
}
use prompt_cache_storage.Prelude.Text.{is_empty}
use prompt_cache_storage.Prelude.Numeral.{to_string, to_stringℤ}
use prompt_cache_storage.IndexLayer.Run.{Run, done, overflow, out_of_fuel}
use prompt_cache_storage.IndexLayer.Cache.{
  PrefixMap, LookupResult, Double, construct, store, look_up, load, prefix_count, object_count,
}
use prompt_cache_storage.IndexLayer.S3Storage.{Config, Curl, State, unused, create_bucket}
use prompt_cache_storage.IndexLayer.S3Storage.Instance.{s3_storage, put_result}
use prompt_cache_storage.IndexLayer.Main.Args.{
  Options, split_tokens, get_arg, int_option, read_options,
}
use prompt_cache_storage.IndexLayer.Main.File.{Files, read_file, write_file}

-- How a run ends: with an exit code and what `main` printed to the standard output and the standard error,
-- in an exception that `main` does not catch, in an overflow of `int`, or not within the rounds that the
-- fuel allows. What libcurl printed stands in the state of the storage; every request precedes what
-- `main` prints to the standard output.
pub record Exit (D S : Type 0) : Type 0 where
  pub code : ℕ
  pub out : Bytes
  pub err : Bytes
  pub disk : D
  pub storage : S

pub data Ending (D S : Type 0) : Type 0 where
  exited : Exit D S → Ending D S
  uncaught undefined unfinished : Ending D S

-- `PrintUsage`
unfoldable pub usage : Bytes → Bytes
usage prog =
    codes "Usage: "
    ++ prog
    ++ codes " <command> [options]\n"
    ++ codes "Commands:\n"
    ++ codes "  store --tokens a,b,c --data-file path [--owner id] [--priority n]\n"
    ++ codes "  lookup --tokens a,b,c [--max-len n]\n"
    ++ codes "  load --obj-id id [--usable-len n] [--out-file path]\n"
    ++ codes "  stats\n"
    ++ codes "Options:\n"
    ++ codes "  --block-size n (default 8)\n"
    ++ codes "  --bytes-per-token n (default 0 = proportional)\n"
    ++ codes "  --s3-endpoint url (required, e.g. http://127.0.0.1:9000)\n"
    ++ codes "  --s3-bucket name (default prompt-cache)\n"
    ++ codes "  --s3-create-bucket (create bucket on startup)\n"
    ++ codes "  --s3-timeout-ms n (default 5000)\n"
    ++ codes "  --s3-connect-timeout-ms n (default 2000)\n"
    ++ codes "  --s3-insecure (disable TLS verification)\n"

unfoldable pub config_of : Options → Config
config_of o = record {
  endpoint = o.s3_endpoint;
  bucket = o.s3_bucket;
  timeout_ms = o.s3_timeout_ms;
  connect_timeout_ms = o.s3_connect_timeout_ms;
  verify_tls = not o.s3_insecure;
}

-- What `lookup` prints.
unfoldable pub lookup_output : LookupResult → Bytes
lookup_output res =
    if res.hit
    then codes "hit=true\nobj_id="
      ++ res.obj_id
      ++ codes "\nusable_len_bytes="
      ++ to_stringℤ res.usable_len_bytes
      ++ codes "\nprefix_tokens="
      ++ to_string res.prefix_tokens
      ++ codes "\n"
    else codes "hit=false\n"

unfoldable pub stats_output : PrefixMap → Bytes
stats_output c =
    codes "objects="
    ++ to_string (object_count c)
    ++ codes "\nprefixes="
    ++ to_string (prefix_count c)
    ++ codes "\nblock_size="
    ++ to_stringℤ c.block_size
    ++ codes "\n"

module _ {D S : Type 0} where
  abbrev pub refuse : Bytes → D → S → Ending D S
  refuse message disk st =
      exited (record { code = 1; out = []; err = message; disk = disk; storage = st })

  abbrev pub succeed : Bytes → D → S → Ending D S
  succeed text disk st =
      exited (record { code = 0; out = text; err = []; disk = disk; storage = st })

  -- What a result of `std::stoi` is used for, and a result of the prefix map.
  abbrev pub unless_thrown : {A : Type 0} → Option A → (A → Ending D S) → Ending D S
  unless_thrown none f = uncaught
  unless_thrown (some a) f = f a

  abbrev pub when_done : {A : Type 0} → Run A → (A → Ending D S) → Ending D S
  when_done (done a) f = f a
  when_done overflow f = undefined
  when_done out_of_fuel f = unfinished

module _ (curl : Curl) (files : Files) (hasher : Bytes → ℕ) (double : Double) (fuel now : ℕ)
    (prog : Bytes) where
  open files use {Disk}

  abbrev pub Result : Type 0
  Result = Ending Disk (Option (State curl))

  module _ (cfg : Config) (args : List Bytes) (cache : PrefixMap) (disk : Disk)
      (st : Option (State curl)) where
    stored : Run (Bytes × PrefixMap × Option (State curl)) → Result
    stored run = when_done run (λ r.
        succeed
          (codes "obj_id="
            ++ r.0
            ++ codes "\nprefixes="
            ++ to_string (prefix_count r.1)
            ++ codes "\n")
          disk r.2)

    store_file : Bytes → ℤ → Option Bytes → Result
    store_file token_arg priority none = refuse (codes "Failed to read data file\n") disk st
    store_file token_arg priority (some bytes) = stored (
        store hasher double (s3_storage curl cfg) fuel now (split_tokens token_arg) bytes
          (get_arg (codes "--owner") args) priority false cache st)

    unfoldable pub store_command : Result
    unfolding stored store_file
    store_command =
        let token_arg = get_arg (codes "--tokens") args in
        let data_file = get_arg (codes "--data-file") args in
        if is_empty token_arg || is_empty data_file
        then refuse (usage prog) disk st
        else unless_thrown (int_option (pos 0) (get_arg (codes "--priority") args))
            (λ priority. store_file token_arg priority (read_file files data_file disk))

    unfoldable pub lookup_command : Result
    lookup_command =
        let token_arg = get_arg (codes "--tokens") args in
        if is_empty token_arg
        then refuse (usage prog) disk st
        else unless_thrown (int_option (pos 0) (get_arg (codes "--max-len") args)) (λ max_len.
          when_done (look_up hasher fuel cache (split_tokens token_arg) max_len)
            (λ res. succeed (lookup_output res) disk st))

    unfoldable pub write_out : Bytes → Bool × Disk → Option (State curl) → Result
    write_out out_file (false, disk') st' = refuse (codes "Failed to write output\n") disk' st'
    write_out out_file (true, disk') st' =
        succeed (codes "wrote=" ++ out_file ++ codes "\n") disk' st'

    unfoldable pub loaded : Bytes → Bool × Bytes × Option (State curl) → Result
    unfolding write_out
    loaded out_file (false, bytes, st') = refuse (codes "Object not found\n") disk st'
    loaded out_file (true, bytes, st') =
        if is_empty out_file
        then succeed bytes disk st'
        else write_out out_file (write_file files out_file bytes disk) st'

    unfoldable pub load_command : Result
    unfolding loaded
    load_command =
        let obj_id = get_arg (codes "--obj-id") args in
        if is_empty obj_id
        then refuse (usage prog) disk st
        else unless_thrown (int_option (pos 0) (get_arg (codes "--usable-len") args)) (λ usable_len.
          loaded (get_arg (codes "--out-file") args)
            (load (s3_storage curl cfg) obj_id usable_len st))

    unfoldable pub stats_command : Result
    stats_command = succeed (stats_output cache) disk st

    unfoldable pub run_command : Bytes → Result
    unfolding store_command lookup_command load_command stats_command
    run_command command =
        if beq command (codes "store")
        then store_command
        else if beq command (codes "lookup")
        then lookup_command
        else if beq command (codes "load")
        then load_command
        else if beq command (codes "stats")
        then stats_command
        else refuse (usage prog) disk st

  -- From the construction of the prefix map on.
  unfoldable pub with_cache : Options → Bytes → List Bytes → Disk → Option (State curl) → Result
  unfolding run_command
  with_cache o command args disk st =
      unless_thrown (construct o.block_size o.bytes_per_token true)
        (λ cache. run_command (config_of o) args cache disk st command)

  -- The state of the thread when `main` starts.
  abbrev pub started : curl.World → State curl
  started w = record { handle = unused; world = w; printed = [] }

  unfoldable pub ready : Options → Bytes → List Bytes → Disk → Bool × Option (State curl) → Result
  unfolding with_cache
  ready o command args disk (false, st) = refuse (codes "Failed to create bucket\n") disk st
  ready o command args disk (true, st) = with_cache o command args disk st

  -- The creation of the bucket, if it is asked for.
  unfoldable pub startup : Options → State curl → Bool × Option (State curl)
  startup o s =
      if o.s3_create_bucket
      then put_result curl (create_bucket curl (config_of o) s)
      else (true, some s)

  unfoldable pub with_options : Bytes → List Bytes → Disk → curl.World → Options → Result
  unfolding ready startup
  with_options command args disk w o =
      if is_empty o.s3_endpoint
      then refuse (codes "S3 endpoint is required (in-memory storage removed)\n" ++ usage prog) disk
          (some (started w))
      else ready o command args disk (startup o (started w))

  unfoldable pub main : List Bytes → Disk → curl.World → Result
  unfolding with_options
  main [] disk w = refuse (usage prog) disk (some (started w))
  main (command ∷ rest) disk w =
      unless_thrown (read_options (command ∷ rest)) (with_options command (command ∷ rest) disk w)
