-- ===== src/IndexLayer/Main/Lookup.antt =====
-- The command `lookup`: the prefix map of a run is empty.
use prompt_cache_storage.Prelude.{
  ℕ, suc, ◌≡◌, ◌≢◌, ◌⊎◌, ◌++◌, ap, none, some, [], refl, inl, inr, Bool, true, false, Option, List,
  ◌∷◌, Bytes, codes, beq, pos,
}
use prompt_cache_storage.Prelude.Text.{is_empty}
use prompt_cache_storage.IndexLayer.Cache.{Double, construct}
use prompt_cache_storage.IndexLayer.Cache.Empty.{look_up_empty}
use prompt_cache_storage.IndexLayer.S3Storage.{Curl, State}
use prompt_cache_storage.IndexLayer.Main.Args.{
  Options, get_arg, int_option, read_options, split_tokens, has_flag, read_options-create_bucket,
}
use prompt_cache_storage.IndexLayer.Main.File.{Files}
use prompt_cache_storage.IndexLayer.Main.{
  Ending, exited, uncaught, undefined, unfinished, main, startup, started, ready, with_options,
  with_cache, run_command, lookup_command, lookup_output, config_of, usage, Exit, refuse,
}
use prompt_cache_storage.IndexLayer.Main.Endings.{either, thrown_or, thrown_eq, fresh}

module _ {curl : Curl} where
  -- What libcurl printed.
  abbrev pub printed_of : Option (State curl) → Bytes
  printed_of none = []
  printed_of (some s) = s.printed

  -- The standard output of a run: first what libcurl printed, then what `main` did.
  abbrev pub stdout : {D : Type 0} → Exit D (Option (State curl)) → Bytes
  stdout p = printed_of p.storage ++ p.out

  -- The run ends, and prints `hit=false` with exit code 0, or a message to the standard error with exit
  -- code 1; or a number among the arguments cannot be read. Before that, the standard output has what
  -- libcurl prints of a response, which is nothing unless the creation of the bucket is asked for.
  abbrev pub IsMiss : {D : Type 0} → Bool → Ending D (Option (State curl)) → Type 0
  IsMiss asked (exited p) =
      ((asked ≡ true) ⊎ (printed_of p.storage ≡ []))
      × (((p.code ≡ 0) × (stdout p ≡ printed_of p.storage ++ codes "hit=false\n") × (p.err ≡ []))
          ⊎ ((p.code ≡ 1) × (stdout p ≡ printed_of p.storage) × (p.err ≢ [])))
  IsMiss asked uncaught = Unit {0}
  IsMiss asked undefined = ⊥
  IsMiss asked unfinished = ⊥

append_nil : (s : Bytes) → s ++ [] ≡ s
append_nil [] = refl
append_nil (c ∷ s) = ap (λ r. c ∷ r) (append_nil s)

usage_given : (prog : Bytes) → usage prog ≢ []
unfolding usage
usage_given prog = λ e. cc

module _ (curl : Curl) (files : Files) (hasher : Bytes → ℕ) (double : Double) (fuel now : ℕ)
    (prog : Bytes) where
  open files use {Disk}

  refused :
      (asked : Bool) (message : Bytes) (disk : Disk) (st : Option (State curl))
      → message ≢ []
      → (asked ≡ true) ⊎ (printed_of st ≡ [])
      → IsMiss {D = Disk} asked (refuse message disk st)
  refused asked message disk st given quiet = (quiet, inr (refl, append_nil (printed_of st), given))

  lookup_command-IsMiss :
      (asked : Bool) (o : Options) (args : List Bytes) (disk : Disk) (st : Option (State curl))
      → (asked ≡ true) ⊎ (printed_of st ≡ [])
      → IsMiss asked (
          lookup_command curl files hasher double
            (suc fuel)
            now
            prog
            (config_of o)
            args
            (fresh o)
            disk
            st)
  unfolding lookup_command lookup_output
  lookup_command-IsMiss asked o args disk st quiet =
      either (IsMiss asked) (is_empty (get_arg (codes "--tokens") args)) _ _
        (refused asked (usage prog) disk st (usage_given prog) quiet)
        (thrown_or (IsMiss asked) (int_option (pos 0) (get_arg (codes "--max-len") args)) _ tt
          (λ max_len.
            rw
              (look_up_empty hasher fuel (fresh o) (split_tokens (get_arg (codes "--tokens") args))
                max_len refl)
              (quiet, inl (refl, refl, refl))))

  ready-IsMiss :
      (asked : Bool) (o : Options) (args : List Bytes) (disk : Disk)
      (up : Bool × Option (State curl))
      → (asked ≡ true) ⊎ (printed_of up.1 ≡ [])
      → IsMiss asked
          (ready curl files hasher double (suc fuel) now prog o (codes "lookup") args disk up)
  unfolding ready with_cache construct run_command beq
  ready-IsMiss asked o args disk (false, st) quiet =
      refused asked (codes "Failed to create bucket\n") disk st (λ e. cc) quiet
  ready-IsMiss asked o args disk (true, st) quiet = lookup_command-IsMiss asked o args disk st quiet

  startup-quiet :
      (asked : Bool) (o : Options) (s : State curl)
      → o.s3_create_bucket ≡ asked
      → s.printed ≡ []
      → (asked ≡ true)
        ⊎ (printed_of (startup curl files hasher double (suc fuel) now prog o s).1 ≡ [])
  unfolding startup
  startup-quiet true o s h e = inl refl
  startup-quiet false o s h e = rw h (inr e)

  -- With any fuel but 0, a run with the command `lookup` ends: it prints `hit=false` and exits with 0, or
  -- `main` prints nothing to the standard output but a message to the standard error and exits with 1, or
  -- the exception of a number that cannot be read ends it. So it never finds a prefix, whatever was
  -- stored by other runs. Where the run exits, the standard output has nothing else, except that with the
  -- option to create the bucket it may start with what libcurl prints of that response.
  pub main_lookup :
      (rest : List Bytes) (disk : Disk) (w : curl.World)
      → IsMiss
          (has_flag (codes "--s3-create-bucket") (codes "lookup" ∷ rest))
          (main curl files hasher double (suc fuel) now prog (codes "lookup" ∷ rest) disk w)
  unfolding main with_options
  main_lookup rest disk w =
      let args = codes "lookup" ∷ rest in
      let asked = has_flag (codes "--s3-create-bucket") args in
      let s = started curl files hasher double (suc fuel) now prog w in
      thrown_eq (IsMiss asked) (read_options args) _ tt (λ o e.
        either (IsMiss asked) (is_empty o.s3_endpoint) _ _
          (refused asked _ disk (some s) (λ e. cc) (inr refl))
          (ready-IsMiss asked o args disk (startup curl files hasher double (suc fuel) now prog o s)
            (startup-quiet asked o s (read_options-create_bucket args o e) refl)))
