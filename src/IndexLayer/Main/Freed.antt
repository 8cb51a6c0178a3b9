-- ===== src/IndexLayer/Main/Freed.antt =====
-- No run of the command line uses a handle of libcurl that was freed.
use prompt_cache_storage.Prelude.{
  ℕ, ℤ, pos, refl, Bool, true, false, ◌||◌, Option, none, some, List, [], ◌∷◌, Bytes, codes, beq,
  if◌then◌else◌,
}
use prompt_cache_storage.Prelude.Text.{is_empty}
use prompt_cache_storage.IndexLayer.Run.{Run, done, overflow, out_of_fuel}
use prompt_cache_storage.IndexLayer.Hash.{hash_bytes_hex}
use prompt_cache_storage.IndexLayer.Cache.{
  PrefixMap, LookupResult, Double, construct, look_up, load, submit,
}
use prompt_cache_storage.IndexLayer.Cache.Left.{Leaves, store-Leaves}
use prompt_cache_storage.IndexLayer.S3Storage.{Config, Curl, State, create_bucket}
use prompt_cache_storage.IndexLayer.S3Storage.Instance.{s3_storage, put_result}
use prompt_cache_storage.IndexLayer.S3Storage.Opened.{
  NotFreed, IsLeft, create_bucket-IsLeft, put_at-IsLeft, get_at-IsLeft,
}
use prompt_cache_storage.IndexLayer.Main.Args.{
  Options, get_arg, int_option, read_options, split_tokens,
}
use prompt_cache_storage.IndexLayer.Main.File.{Files, read_file, write_file}
use prompt_cache_storage.IndexLayer.Main.{
  Ending, exited, uncaught, undefined, unfinished, when_done, main, startup, started, ready,
  with_options, with_cache, run_command, store_command, stored, store_file, lookup_command,
  load_command, loaded, write_out, stats_command, config_of,
}
use prompt_cache_storage.IndexLayer.Main.Endings.{either, thrown_or, fresh}

abbrev IsThere : {S : Type 0} → Option S → Type 0
IsThere none = ⊥
IsThere (some s) = Unit {0}

-- A run that exits left a state: it did not use a handle that was freed.
abbrev pub IsIntact : {D S : Type 0} → Ending D (Option S) → Type 0
IsIntact (exited p) = IsThere p.storage
IsIntact uncaught = Unit {0}
IsIntact undefined = Unit {0}
IsIntact unfinished = Unit {0}

there : (curl : Curl) (ok : Bool) (st : Option (State curl)) → IsLeft curl ok st → IsThere st
there curl ok none h = h
there curl ok (some s) h = tt

module _ (curl : Curl) (files : Files) (hasher : Bytes → ℕ) (double : Double) (fuel now : ℕ)
    (prog : Bytes) where
  open files use {Disk}

  module _ (cfg : Config) (args : List Bytes) (cache : PrefixMap) (disk : Disk) where
    stored-IsIntact :
        (st : Option (State curl)) (run : Run (Bytes × PrefixMap × Option (State curl)))
        → Leaves (s3_storage curl cfg) IsThere run
        → IsIntact (stored curl files hasher double fuel now prog cfg args cache disk st run)
    unfolding stored
    stored-IsIntact st (done r) h = h
    stored-IsIntact st overflow h = tt
    stored-IsIntact st out_of_fuel h = tt

    store_file-IsIntact :
        (token_arg : Bytes) (priority : ℤ) (s : State curl) (bytes : Option Bytes)
        → NotFreed s.handle
        → IsIntact (
            store_file curl files hasher double fuel now prog cfg args cache disk
              (some s)
              token_arg
              priority
              bytes)
    unfolding store_file submit
    store_file-IsIntact token_arg priority s none h = tt
    store_file-IsIntact token_arg priority s (some bytes) h = stored-IsIntact (some s) _ (
        store-Leaves (s3_storage curl cfg) IsThere hasher double fuel now (split_tokens token_arg)
          bytes (get_arg (codes "--owner") args) priority false cache (some s)
          (there curl _ _ (put_at-IsLeft curl cfg (hash_bytes_hex hasher bytes) bytes s h)))

    store_command-IsIntact :
        (s : State curl)
        → NotFreed s.handle
        → IsIntact
            (store_command curl files hasher double fuel now prog cfg args cache disk (some s))
    unfolding store_command
    store_command-IsIntact s h =
        either IsIntact
          (is_empty (get_arg (codes "--tokens") args)
            || is_empty (get_arg (codes "--data-file") args))
          _ _ tt
          (thrown_or IsIntact (int_option (pos 0) (get_arg (codes "--priority") args)) _ tt
            (λ priority.
              store_file-IsIntact (get_arg (codes "--tokens") args) priority s
                (read_file files (get_arg (codes "--data-file") args) disk) h))

    looked_up :
        (run : Run LookupResult) (f : LookupResult → Ending Disk (Option (State curl)))
        → ((res : LookupResult) → IsIntact (f res))
        → IsIntact (when_done run f)
    looked_up (done res) f h = h res
    looked_up overflow f h = tt
    looked_up out_of_fuel f h = tt

    lookup_command-IsIntact :
        (s : State curl)
        → IsIntact
            (lookup_command curl files hasher double fuel now prog cfg args cache disk (some s))
    unfolding lookup_command
    lookup_command-IsIntact s =
        either IsIntact (is_empty (get_arg (codes "--tokens") args)) _ _ tt (
          thrown_or IsIntact (int_option (pos 0) (get_arg (codes "--max-len") args)) _ tt
            (λ max_len.
              looked_up
                (look_up hasher fuel cache (split_tokens (get_arg (codes "--tokens") args)) max_len)
                _ (λ res. tt)))

    write_out-IsIntact :
        (st : Option (State curl)) (out_file : Bytes) (w : Bool × Disk)
        → IsThere st
        → IsIntact
            (write_out curl files hasher double fuel now prog cfg args cache disk st out_file w st)
    unfolding write_out
    write_out-IsIntact st out_file (false, disk') h = h
    write_out-IsIntact st out_file (true, disk') h = h

    loaded-IsIntact :
        (st : Option (State curl)) (out_file : Bytes) (r : Bool × Bytes × Option (State curl))
        → IsThere r.2
        → IsIntact (loaded curl files hasher double fuel now prog cfg args cache disk st out_file r)
    unfolding loaded
    loaded-IsIntact st out_file (false, bytes, st') h = h
    loaded-IsIntact st out_file (true, bytes, st') h =
        either IsIntact (is_empty out_file) _ _ h
          (write_out-IsIntact st' out_file (write_file files out_file bytes disk) h)

    load_command-IsIntact :
        (s : State curl)
        → NotFreed s.handle
        → IsIntact
            (load_command curl files hasher double fuel now prog cfg args cache disk (some s))
    unfolding load_command load
    load_command-IsIntact s h =
        either IsIntact (is_empty (get_arg (codes "--obj-id") args)) _ _ tt (
          thrown_or IsIntact (int_option (pos 0) (get_arg (codes "--usable-len") args)) _ tt
            (λ usable_len. loaded-IsIntact (some s) (get_arg (codes "--out-file") args) _ (
              there curl _ _
                (get_at-IsLeft curl cfg (get_arg (codes "--obj-id") args) usable_len s h))))

    run_command-IsIntact :
        (command : Bytes) (s : State curl)
        → NotFreed s.handle
        → IsIntact (
            run_command curl files hasher double fuel now prog cfg args cache disk (some s) command)
    unfolding run_command stats_command
    run_command-IsIntact command s h =
        either IsIntact (beq command (codes "store")) _ _ (store_command-IsIntact s h) (
          either IsIntact (beq command (codes "lookup")) _ _ (lookup_command-IsIntact s) (
            either IsIntact (beq command (codes "load")) _ _ (load_command-IsIntact s h)
              (either IsIntact (beq command (codes "stats")) _ _ tt tt)))

  ready-IsIntact :
      (o : Options) (command : Bytes) (args : List Bytes) (disk : Disk) (ok : Bool)
      (st : Option (State curl))
      → IsLeft curl ok st
      → IsIntact (ready curl files hasher double fuel now prog o command args disk (ok, st))
  unfolding ready with_cache construct
  ready-IsIntact o command args disk ok none h = absurd h
  ready-IsIntact o command args disk false (some s) h = tt
  ready-IsIntact o command args disk true (some s) h =
      run_command-IsIntact (config_of o) args (fresh o) disk command s (h refl)

  startup-IsLeft :
      (o : Options) (create : Bool) (s : State curl)
      → NotFreed s.handle
      → let up =
          if create then put_result curl (create_bucket curl (config_of o) s) else (true, some s) in
        IsLeft curl up.0 up.1
  startup-IsLeft o true s h = create_bucket-IsLeft curl (config_of o) s h
  startup-IsLeft o false s h = λ e. h

  -- Whatever the arguments, the files and the network do: if a run of `main` exits, none of its requests
  -- used a handle of libcurl that an earlier one had freed.
  pub main-IsIntact :
      (args : List Bytes) (disk : Disk) (w : curl.World)
      → IsIntact (main curl files hasher double fuel now prog args disk w)
  unfolding main with_options startup
  main-IsIntact [] disk w = tt
  main-IsIntact (command ∷ rest) disk w =
      thrown_or IsIntact (read_options (command ∷ rest)) _ tt (λ o.
        either IsIntact (is_empty o.s3_endpoint) _ _ tt (
          ready-IsIntact o command (command ∷ rest) disk _ _ (
            startup-IsLeft o o.s3_create_bucket (started curl files hasher double fuel now prog w)
              tt)))
