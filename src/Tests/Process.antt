-- ===== src/Tests/Process.antt =====
-- Samples for the program of main.go.
use ftpserver.Base.{
  and_then, List, ◌≡◌, refl, ◌&&◌, true, false, none, some, [], ◌∷◌, ◌++◌, Text, bytes, text_eq,
  has_prefix, if◌then◌else◌, unknown_user, timeout, ok, err, done, panic, ltb, arith,
}
use ftpserver.Config.{Env, Config}
use ftpserver.Config.Loading.{new_config, default_listen_address}
use ftpserver.Fs.{Cloud, base_path_fs, os_fs}
use ftpserver.Server.{Server, ClientContext, new_server}
use ftpserver.Server.Auth.{auth_user}
use ftpserver.Server.Webhook.{Http}
use ftpserver.Server.Settings.{get_settings}
use ftpserver.Server.Lifecycle.{no_clients, handle_all, connected, disconnected}
use ftpserver.Server.Lifecycle.Traffic
use ftpserver.Server.Lifecycle.Traffic.{quiet, visits, zeros}
use ftpserver.Main.{
  Event, Flags, Os, came, left, hangup, terminate, Process, Exit, ended, only_created, not_started,
  Started, started, callbacks, still_handling, steps, main, conf_file_content, create_conf,
  conf_name, auto_create, configure,
}
use ftpserver.Main
use ftpserver.Main.Runs.{main-terminate, main-unstopped}
use ftpserver.Main.End.{steps-after_terminate}
use ftpserver.Main.Signals.{
  Handler, Moment, comes, leaves, received, arrives, sighup, sigterm, moments,
}
use ftpserver.Main.Signals.Lost.{IsServing, sigterm_lost}
use ftpserver.Main.Signals.Order.{taken, signals_of, arrived, waiting, IsSelection, moments-steps}
use ftpserver.Main.FirstStart.{no_flags, read_content, first_start}
use ftpserver.Tests.{make_content, alice, guest, env}

abbrev conf_flag : Flags
conf_flag = record { conf = bytes "a.json"; only_conf = false }

-- No file is there, and log files cannot go wrong.
abbrev empty_os : Os Text
empty_os = record { missing = λ d name. true; open_log = λ d name. (d, none) }

abbrev hashed_config : Config
hashed_config = record {
  file_name = bytes "a.json";
  content = record (make_content (0 ∷ 1 ∷ [])) { listen_address = default_listen_address };
  heap = record alice { pass = bytes "$2b$secret" } ∷ guest ∷ [];
}

abbrev hashed_server : Server Text
hashed_server = new_server hashed_config

abbrev hashed_disk : Text
hashed_disk = bytes "accesses.0.pass$2b$secret"

server_up : Main.start env empty_os conf_flag [] ≡ (hashed_disk, started hashed_server)
unfolding Main.start new_config create_conf auto_create conf_name text_eq has_prefix
server_up = refl

-- Two clients come, one of them leaves, the configuration is reloaded; after the SIGTERM another one
-- comes, and both leave, and after the minute one more comes.
main-terminate_example :
    main env empty_os Text conf_flag
      ((came ∷ came ∷ left ∷ hangup ∷ []) ++ terminate ∷ came ∷ [])
      (left ∷ left ∷ [])
      (came ∷ [])
      []
    ≡ (if ltb 1 (
          visits 1 (
            callbacks false (came ∷ [])
            ++ (callbacks false (left ∷ left ∷ []) ++ callbacks false (came ∷ []))))
        then panic
        else done (
            ended (
              if ltb 0
                (visits 1 (callbacks false (came ∷ []) ++ callbacks false (left ∷ left ∷ [])))
              then none
              else some timeout)))
unfolding callbacks
main-terminate_example =
    main-terminate env empty_os Text conf_flag [] (came ∷ came ∷ left ∷ hangup ∷ []) (came ∷ [])
      (left ∷ left ∷ []) (came ∷ []) server_up (tt, (tt, (tt, (tt, tt))))
      (Traffic.comes (Traffic.comes (Traffic.leaves quiet))) (Traffic.comes quiet)
      (Traffic.leaves (Traffic.leaves (Traffic.comes quiet))) (omega arith) (omega arith)

-- The same ends without an error, and with a panic if that client leaves before the return.
visits_test :
    (visits 1 (connected ∷ disconnected ∷ disconnected ∷ connected ∷ []) ≡ 1)
    × (visits 1 (connected ∷ disconnected ∷ disconnected ∷ connected ∷ disconnected ∷ []) ≡ 2)
unfolding visits zeros
visits_test = (refl, refl)

nobody :
    handle_all
      (callbacks true [] ++ callbacks (still_handling true []) [])
      (record no_clients { nb_clients = 0 })
    ≡ done no_clients
unfolding handle_all callbacks still_handling no_clients
nobody = refl

-- The address is in use, and no client has ever come.
main-unstopped_example : main env empty_os Text conf_flag [] [] [] [] ≡ done (ended (some timeout))
unfolding callbacks still_handling
main-unstopped_example =
    main-unstopped env empty_os Text conf_flag [] [] [] [] server_up tt quiet (omega arith) nobody

abbrev serving : Process Text Text
serving = record { server = hashed_server; disk = hashed_disk; handling = true }

abbrev stopped_process : Process Text Text
stopped_process = record {
  server = record hashed_server {
    clients = record {
      nb_clients = 0;
      zero_client_event = some 0;
      channels = record { buffer = none ∷ []; closed = true } ∷ [];
    };
  };
  disk = hashed_disk;
  handling = false;
}

stopping : steps env (terminate ∷ hangup ∷ []) serving ≡ done stopped_process
unfolding steps new_server no_clients
stopping = refl

steps-after_terminate_example :
    (stopped_process.server.config ≡ serving.server.config) × (stopped_process.disk ≡ serving.disk)
steps-after_terminate_example = steps-after_terminate env (hangup ∷ []) serving stopping

-- A JSON library that reads the members of a text like the default content.
abbrev first_env : Env Text Text
first_env = record env { json_decode = λ t. ok (read_content t) }

first_start_example :
    (s : Server Text) × (Main.start first_env empty_os no_flags [] ≡ (conf_file_content, started s))
    × ((get_settings s).listen_addr ≡ bytes "0.0.0.0:2121")
    × ((http : Http) (cloud : Cloud) (client : ClientContext) (user pass : Text)
        → auth_user first_env http cloud s client user pass
          ≡ done (
            s,
            client,
            if text_eq (bytes "test") user && text_eq (bytes "test") pass
                then ok (base_path_fs os_fs (bytes "/tmp"))
                else err unknown_user,
          ))
first_start_example =
    first_start first_env empty_os Text [] conf_file_content refl refl refl refl refl

serving-IsServing : IsServing env serving
unfolding new_server no_clients
serving-IsServing = (refl, refl)

abbrev waiting_handler : Handler Text Text
waiting_handler = record { process = serving; channel = none }

-- A reload and the end are asked for at once.
sigterm_lost_example :
    (h' : Handler Text Text) × (moments env
        (arrives sighup ∷ arrives sigterm ∷ received ∷ received ∷ comes ∷ [])
        waiting_handler
      ≡ done h')
    × IsServing env h'.process
sigterm_lost_example =
    sigterm_lost env (received ∷ received ∷ comes ∷ []) waiting_handler serving-IsServing refl
      (tt, (tt, (tt, tt)))

abbrev busy : List Moment
busy = comes ∷ arrives sighup ∷ leaves ∷ received ∷ arrives sigterm ∷ received ∷ []

moments-steps_example :
    (and_then (moments env busy waiting_handler) (λ h'. done h'.process)
      ≡ steps env (taken none true busy) serving)
    × IsSelection (signals_of (taken none true busy)) (waiting none ++ arrived busy)
moments-steps_example = moments-steps env busy waiting_handler

-- A SIGTERM that finds a SIGHUP waiting is not among the events.
taken_test :
    taken none true (arrives sighup ∷ arrives sigterm ∷ comes ∷ received ∷ received ∷ [])
    ≡ came ∷ hangup ∷ []
unfolding taken
taken_test = refl
