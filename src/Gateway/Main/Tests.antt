-- ===== src/Gateway/Main/Tests.antt =====
-- A start with the default options but for the listening address.
use prompt_cache_storage.Prelude.{pos, ◌≡◌, refl, true, false, none, [], Bytes, codes, arith}
use prompt_cache_storage.Prelude.Numeral.Sto.{atoi}
use prompt_cache_storage.Gateway.Main.{
  Arguments, parsed, exited, main, with_listen, with_port, break_last, start_server, serve_with,
}
use prompt_cache_storage.Gateway.Main.Bounds.{IsStarted, main-IsStarted}

abbrev arguments : Bytes → Arguments
arguments listen = record {
  listen = listen;
  db_path = codes "./s3gw_rocksdb";
  threads = pos 4;
  cache_mb = pos 512;
  max_object_mb = pos 64;
  auth_mode = codes "none";
  access_key = codes "AKIDEXAMPLE";
  secret_key = codes "YOURSECRET";
  vhost_suffix = [];
  disable_wal = false;
  sync = false;
}

main-IsStarted_example :
    IsStarted
      (arguments (codes "0.0.0.0:9000"))
      (main [] (λ path. none) (λ host. true) (parsed false (arguments (codes "0.0.0.0:9000"))))
main-IsStarted_example =
    main-IsStarted [] (λ path. none) (λ host. true) (arguments (codes "0.0.0.0:9000")) (omega arith)

bad_port :
    main [] (λ path. none) (λ host. true) (parsed false (arguments (codes "host:65536")))
    ≡ exited 2 [] (codes "Invalid port\n")
unfolding main with_listen with_port break_last atoi
bad_port = refl

-- With no threads the gateway ends at once.
no_threads :
    main []
      (λ path. none)
      (λ host. true)
      (parsed false (record (arguments (codes "0.0.0.0:9000")) { threads = pos 0 }))
    ≡ exited 0 [] []
unfolding main with_listen with_port break_last atoi start_server serve_with
no_threads = refl
