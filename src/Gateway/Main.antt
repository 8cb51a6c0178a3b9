-- ===== src/Gateway/Main.antt =====
-- s3_rocksdb_gateway/src/main.cpp: the start of the gateway. The parser of Boost.Program_options, the opening
-- of the database and Asio's reading of an address are parameters.
pub mod Bounds
mod Tests
use prompt_cache_storage.Prelude.{
  ℕ, zero, suc, ◌*◌, ◌%◌, ◌^◌, ◌≤◌, ◌<◌, ℤ, pos, negsuc, ◌≡◌, refl, Bool, true, false, ◌||◌, Option,
  none, some, List, [], ◌∷◌, ◌++◌, Bytes, codes, beq, ◌==◌, if◌then◌else◌, arith, ltb,
}
use prompt_cache_storage.Prelude.Int.{ltbℤ, to_size_t, is_nonpos, to_ℕ}
use prompt_cache_storage.Prelude.Numeral.Sto.{atoi}
use prompt_cache_storage.Gateway.Auth.{Mode, none_mode, sigv4_mode}
use prompt_cache_storage.Gateway.Api.Handle

-- The variables that the options are stored in.
pub record Arguments : Type 0 where
  pub listen : Bytes
  pub db_path : Bytes
  pub threads : ℤ
  pub cache_mb : ℤ
  pub max_object_mb : ℤ
  pub auth_mode : Bytes
  pub access_key : Bytes
  pub secret_key : Bytes
  pub vhost_suffix : Bytes
  pub disable_wal : Bool
  pub sync : Bool

-- What `po::store` and `po::notify` end in: an exception with its text, or whether help was asked for and
-- the variables.
pub data Parsed : Type 0 where
  failed : Bytes → Parsed
  parsed : Bool → Arguments → Parsed

-- What the server is started with.
pub record Settings : Type 0 where
  pub api : Handle.Config
  pub listen_host : Bytes
  pub listen_port : ℕ
  pub max_request_body_bytes : ℕ
  pub cache_bytes : ℕ
  pub disable_wal : Bool
  pub sync : Bool
  pub concurrency : ℕ
  pub workers : ℕ

-- The program exits with a code and what it printed, ends in an exception that is not caught or in undefined
-- behaviour, or runs its workers.
pub data Outcome : Type 0 where
  exited : ℕ → Bytes → Bytes → Outcome
  uncaught undefined : Outcome
  serving : Settings → Outcome

unfoldable pub parse_auth_mode : Bytes → Mode
parse_auth_mode s = if beq s (codes "none") then none_mode else sigv4_mode

-- `rfind(':')` with the text before and after it.
unfoldable pub break_last : ℕ → Bytes → Option (Bytes × Bytes)
break_last d [] = none
break_last d (c ∷ s) = elim (break_last d s) [
  | some (before, after) ↦ some (c ∷ before, after)
  | none ↦ if c == d then some ([], s) else none
]

-- `std::max(1, n)`
unfoldable pub at_least_one : ℤ → ℕ
at_least_one (pos zero) = 1
at_least_one (pos (suc n)) = suc n
at_least_one (negsuc n) = 1

abbrev pub mebibyte : ℕ
mebibyte = 1024 * 1024

unfoldable pub api_config : Arguments → Handle.Config
unfolding parse_auth_mode at_least_one
api_config a = record {
  auth_mode = parse_auth_mode a.auth_mode;
  creds = record { access_key = a.access_key; secret_key = a.secret_key };
  virtual_host_suffix = a.vhost_suffix;
  max_object_bytes = at_least_one a.max_object_mb * mebibyte % 2 ^ 64;
}

unfoldable pub settings_of : Arguments → Bytes → ℕ → Settings
unfolding api_config at_least_one
settings_of a host port = record {
  api = api_config a;
  listen_host = host;
  listen_port = port;
  max_request_body_bytes = (api_config a).max_object_bytes;
  cache_bytes = to_size_t a.cache_mb * mebibyte % 2 ^ 64;
  disable_wal = a.disable_wal;
  sync = a.sync;
  concurrency = at_least_one a.threads;
  workers = to_ℕ a.threads;
}

-- `description` is what the options print as, `open_database` an error if the database does not open, and
-- `make_address` whether Asio reads the host.
module _ (description : Bytes) (open_database : Bytes → Option Bytes)
    (make_address : Bytes → Bool) where
  -- The workers, and the end of `main` behind them. A negative number of threads is too large for
  -- `reserve`; with no threads nothing serves, and `main` returns at once.
  unfoldable pub serve_with : ℤ → Settings → Outcome
  serve_with (pos zero) s = exited 0 [] []
  serve_with (pos (suc n)) s = serving s
  serve_with (negsuc n) s = uncaught

  -- From the opening of the database on.
  unfoldable pub start_server : Arguments → Bytes → ℕ → Outcome
  unfolding settings_of serve_with
  start_server a host port = elim (open_database a.db_path) [
    | some e ↦
        exited 1 []
          (codes "Failed to open RocksDB at " ++ a.db_path ++ codes ": " ++ e ++ codes "\n")
    | none ↦ if make_address host then serve_with a.threads (settings_of a host port) else uncaught
  ]

  unfoldable pub with_port : Arguments → Bytes → Option ℤ → Outcome
  unfolding start_server
  with_port a host none = undefined
  with_port a host (some port) =
      if is_nonpos port || ltbℤ (pos 65535) port
      then exited 2 [] (codes "Invalid port\n")
      else start_server a host (to_ℕ port)

  unfoldable pub with_listen : Arguments → Outcome
  unfolding with_port break_last
  with_listen a = elim (break_last b':' a.listen) [
    | none ↦ exited 2 [] (codes "--listen must be host:port\n")
    | some (host, port) ↦ with_port a host (atoi port)
  ]

  unfoldable pub main : Parsed → Outcome
  unfolding with_listen
  main (failed e) =
      exited 2 [] (codes "Argument error: " ++ e ++ codes "\n\n" ++ description ++ codes "\n")
  main (parsed true a) = exited 0 (description ++ codes "\n") []
  main (parsed false a) = with_listen a
