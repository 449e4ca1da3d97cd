-- ===== src/Tests/Shutdown.antt =====
-- Samples for the counting of clients and the TLS configuration of server/server.go.
use ftpserver.Base.{
  ◌≡◌, refl, none, some, [], ◌∷◌, Text, timeout, not_found, ok, err, done, panic, if◌then◌else◌,
  arith, and_then, ltb, ◌++◌,
}
use ftpserver.Server.{Server, new_server}
use ftpserver.Server.Lifecycle.{
  Clients, no_clients, stop, connected, disconnected, stopped, handle_all, wait_gracefully,
}
use ftpserver.Server.Lifecycle.Drain.{observed, wait_gracefully-stop}
use ftpserver.Server.Lifecycle.Traffic.{quiet, comes, leaves, visits}
use ftpserver.Server.Lifecycle.Late.{late_client_panics}
use ftpserver.Server.Tls.{TlsEnv, get_tls_config, get_tls_config_again}
use ftpserver.Tests.{two_users}

abbrev one_client : Clients
one_client = record { nb_clients = 1; zero_client_event = none; channels = [] }

-- A client comes between the stop and the wait, both leave while the server waits, and one more comes.
wait_gracefully-stop_example :
    (c' : Clients) × (stop one_client ≡ done c')
    × (observed (
          and_then
            (handle_all (connected ∷ []) c')
            (wait_gracefully (disconnected ∷ disconnected ∷ connected ∷ []) []))
        ≡ (if ltb 1 (
              visits 1 ((connected ∷ []) ++ ((disconnected ∷ disconnected ∷ connected ∷ []) ++ [])))
            then panic
            else done (
              none,
              if ltb 0
                    (visits 1 ((connected ∷ []) ++ (disconnected ∷ disconnected ∷ connected ∷ [])))
                  then none
                  else some timeout,
            )))
wait_gracefully-stop_example =
    wait_gracefully-stop one_client (connected ∷ []) (disconnected ∷ disconnected ∷ connected ∷ [])
      [] (comes quiet) (leaves (leaves (comes quiet))) (omega arith)

late_client_panics_example :
    handle_all (stopped ∷ connected ∷ connected ∷ disconnected ∷ disconnected ∷ []) no_clients
    ≡ panic
unfolding no_clients
late_client_panics_example =
    late_client_panics no_clients refl (comes (leaves (leaves quiet))) (omega arith)

abbrev server : Server Text
server = new_server two_users

abbrev no_files : TlsEnv Text
no_files = record { read_file = λ name. err not_found; make_config = λ cert key. ok cert }

abbrev good_files : TlsEnv Text
good_files = record { read_file = λ name. ok name; make_config = λ cert key. ok cert }

get_tls_config_again_example :
    let (s', r) = get_tls_config no_files server in
    get_tls_config good_files (record s' { config = two_users })
    ≡ (record s' { config = two_users }, r)
get_tls_config_again_example = get_tls_config_again no_files good_files server two_users
