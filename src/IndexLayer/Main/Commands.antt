-- ===== src/IndexLayer/Main/Commands.antt =====
-- What `main` does with the commands `store` and `load` once their arguments are read.
use prompt_cache_storage.Prelude.{
  ℕ, ◌<◌, ℤ, pos, ◌≡◌, ◌≢◌, refl, ◌∙◌, ap, true, false, Option, some, List, [], ◌∷◌, ◌++◌, Bytes,
  codes, beq, if◌then◌else◌,
}
use prompt_cache_storage.Prelude.Text.{is_empty-ne}
use prompt_cache_storage.Prelude.Numeral.{to_string, to_string-ne-nil}
use prompt_cache_storage.Prelude.Numeral.Sto.{stoi-to_string}
use prompt_cache_storage.IndexLayer.Run.{done}
use prompt_cache_storage.IndexLayer.Cache.{
  PrefixMap, Double, construct, store, load, prefix_count, int_limit,
}
use prompt_cache_storage.IndexLayer.S3Storage.{Config, Curl, State, get_range, create_bucket}
use prompt_cache_storage.IndexLayer.S3Storage.Instance.{s3_storage, get_at, get_result, put_result}
use prompt_cache_storage.IndexLayer.Main.Args.{
  Options, get_arg, int_option, read_options, split_tokens,
}
use prompt_cache_storage.IndexLayer.Main.File.{Files, read_file}
use prompt_cache_storage.IndexLayer.Main.{
  succeed, main, startup, started, ready, with_options, with_cache, run_command, store_command,
  stored, store_file, load_command, loaded, config_of,
}
use prompt_cache_storage.IndexLayer.Main.Endings.{fresh}

-- The arguments give the options `o`, with which the storage is set up as `cfg`, and do not ask for a
-- bucket to be created.
pub record Gives (args : List Bytes) (o : Options) (cfg : Config) : Type 0 where
  pub options : read_options args ≡ some o
  pub config : config_of o ≡ cfg
  pub endpoint : o.s3_endpoint ≢ []
  pub no_bucket : o.s3_create_bucket ≡ false

unfoldable pub store_output : Bytes → ℕ → Bytes
store_output id k = codes "obj_id=" ++ id ++ codes "\nprefixes=" ++ to_string k ++ codes "\n"

pub int_option-to_string :
    (text : Bytes) (n : ℕ)
    → text ≡ to_string n
    → n < int_limit
    → int_option (pos 0) text ≡ some (pos n)
unfolding int_option
int_option-to_string text n e h =
    rw (e, is_empty-ne (to_string n) (to_string-ne-nil n)) (stoi-to_string n h)

module _ (curl : Curl) (files : Files) (hasher : Bytes → ℕ) (double : Double) (fuel now : ℕ)
    (prog : Bytes) where
  open files use {Disk}

  no_startup :
      (o : Options) (s : State curl)
      → o.s3_create_bucket ≡ false
      → startup curl files hasher double fuel now prog o s ≡ (true, some s)
  unfolding startup
  no_startup o s h =
      ap
        (λ create.
          if create then put_result curl (create_bucket curl (config_of o) s) else (true, some s))
        h

  main_command :
      (command : Bytes) (rest : List Bytes) (o : Options) (cfg : Config) (disk : Disk)
      (w : curl.World)
      → Gives (command ∷ rest) o cfg
      → main curl files hasher double fuel now prog (command ∷ rest) disk w
        ≡ run_command curl files hasher double fuel now prog cfg
            (command ∷ rest)
            (fresh o)
            disk
            (some (started curl files hasher double fuel now prog w))
            command
  unfolding main with_options startup ready with_cache construct
  main_command command rest o cfg disk w given =
      rw (given.options, is_empty-ne o.s3_endpoint given.endpoint)
        (ap (λ up. ready curl files hasher double fuel now prog o command (command ∷ rest) disk up)
            (no_startup o (started curl files hasher double fuel now prog w) given.no_bucket)
          ∙ ap
              (λ c.
                run_command curl files hasher double fuel now prog c (command ∷ rest) (fresh o) disk
                  (some (started curl files hasher double fuel now prog w)) command)
              given.config)

  -- A `store` whose `Store` returned `id`.
  pub main-store :
      (rest : List Bytes) (o : Options) (cfg : Config) (disk : Disk) (w : curl.World) (priority : ℤ)
      (bytes id : Bytes) (c : PrefixMap) (st : Option (State curl))
      → let args = codes "store" ∷ rest in
        Gives args o cfg
        → get_arg (codes "--tokens") args ≢ []
        → get_arg (codes "--data-file") args ≢ []
        → int_option (pos 0) (get_arg (codes "--priority") args) ≡ some priority
        → read_file files (get_arg (codes "--data-file") args) disk ≡ some bytes
        → store hasher double
            (s3_storage curl cfg)
            fuel
            now
            (split_tokens (get_arg (codes "--tokens") args))
            bytes
            (get_arg (codes "--owner") args)
            priority
            false
            (fresh o)
            (some (started curl files hasher double fuel now prog w))
          ≡ done (id, c, st)
        → main curl files hasher double fuel now prog args disk w
          ≡ succeed (store_output id (prefix_count c)) disk st
  unfolding run_command beq store_command store_file stored store_output
  main-store rest o cfg disk w priority bytes id c st given tokens data_file number content run =
      main_command (codes "store") rest o cfg disk w given
      ∙ rw (is_empty-ne _ tokens, is_empty-ne _ data_file, number, content, run) refl

  -- A `load` to the standard output whose `GetRange` returned true.
  pub main-load :
      (rest : List Bytes) (o : Options) (cfg : Config) (disk : Disk) (w : curl.World)
      (id out : Bytes) (n : ℕ) (s : State curl)
      → let args = codes "load" ∷ rest in
        Gives args o cfg
        → get_arg (codes "--obj-id") args ≡ id
        → id ≢ []
        → get_arg (codes "--usable-len") args ≡ to_string n
        → n < int_limit
        → get_arg (codes "--out-file") args ≡ []
        → get_range curl cfg id (pos n) (started curl files hasher double fuel now prog w)
          ≡ some (true, out, s)
        → main curl files hasher double fuel now prog args disk w ≡ succeed out disk (some s)
  unfolding run_command beq load_command loaded load get_at get_result
  main-load rest o cfg disk w id out n s given named ne usable small no_file run =
      main_command (codes "load") rest o cfg disk w given
      ∙ rw
          (
            named,
            is_empty-ne id ne,
            int_option-to_string (get_arg (codes "--usable-len") (codes "load" ∷ rest)) n usable
                small,
            no_file,
            run,
          )
          refl
