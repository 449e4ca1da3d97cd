-- ===== src/Main.antt =====
-- main.go: the program from its start to its end. The FTP library is the environment: it makes the
-- callbacks, and its `ListenAndServe` returns at some point.
pub mod Again
pub mod End
pub mod FirstStart
pub mod Runs
pub mod Shutdown
pub mod Signals
pub mod Start
use ftpserver.Base.{
  ℕ, Bool, true, false, ◌||◌, not, Option, none, some, List, [], ◌∷◌, ◌++◌, Text, bytes, text_eq,
  if◌then◌else◌, Error, Result, ok, err, Run, done, panic, and_then,
}
use ftpserver.Config.{Env, Config}
use ftpserver.Config.Loading.{new_config}
use ftpserver.Server.{Server, new_server}
use ftpserver.Server.Lifecycle.{Clients, count_in, client_disconnected, stop, wait_gracefully}
use ftpserver.Server.Lifecycle
use ftpserver.Server.Settings.{reload_config}

-- The command line.
pub record Flags : Type 0 where
  pub conf : Text
  pub only_conf : Bool

-- What `main` asks of the operating system besides what the configuration does: `missing` is a
-- `Stat` that fails with "does not exist", `open_log` opens the log file for appending.
pub record Os (Disk : Type 0) : Type 0 where
  pub missing : Disk → Text → Bool
  pub open_log : Disk → Text → Disk × Option Error

abbrev pub lines : List Text → Text
lines [] = []
lines (l ∷ []) = l
lines (l ∷ m ∷ ls) = l ++ (b'\n' ∷ lines (m ∷ ls))

-- `confFileContent`.
unfoldable pub conf_file_content : Text
conf_file_content = lines (
    bytes "{"
    ∷ bytes "  \"version\": 1,"
    ∷ bytes "  \"accesses\": ["
    ∷ bytes "    {"
    ∷ bytes "      \"user\": \"test\","
    ∷ bytes "      \"pass\": \"test\","
    ∷ bytes "      \"fs\": \"os\","
    ∷ bytes "      \"params\": {"
    ∷ bytes "        \"basePath\": \"/tmp\""
    ∷ bytes "      }"
    ∷ bytes "    }"
    ∷ bytes "  ],"
    ∷ bytes "  \"passive_transfer_port_range\": {"
    ∷ bytes "    \"start\": 2122,"
    ∷ bytes "    \"end\": 2130"
    ∷ bytes "  }"
    ∷ bytes "}"
    ∷ [])

unfoldable pub conf_name : Flags → Text
conf_name flags = if text_eq flags.conf [] then bytes "ftpserver.json" else flags.conf

unfoldable pub auto_create : Flags → Bool
auto_create flags = flags.only_conf || text_eq flags.conf []

-- How far `main` comes before it listens.
pub data Started (TlsConfig : Type 0) : Type 0 where
  no_conf no_log : Error → Started TlsConfig
  conf_created : Started TlsConfig
  started : Server TlsConfig → Started TlsConfig

-- What happens while the program runs: the callbacks of the library, and the signals that the
-- handler receives.
pub data Event : Type 0 where
  came left hangup terminate : Event

-- The driver and the disk, and whether the signal handler is still in its loop.
pub record Process (Disk TlsConfig : Type 0) : Type 0 where
  pub server : Server TlsConfig
  pub disk : Disk
  pub handling : Bool

-- How the program ends.
pub data Exit : Type 0 where
  not_started : Error → Exit
  only_created : Exit
  ended : (waited : Option Error) → Exit

-- The callbacks among the events. The handler's first SIGTERM is a `Stop`, a later one nothing.
unfoldable pub callbacks : Bool → List Event → List Lifecycle.Event
callbacks handling [] = []
callbacks handling (came ∷ es) = Lifecycle.connected ∷ callbacks handling es
callbacks handling (left ∷ es) = Lifecycle.disconnected ∷ callbacks handling es
callbacks handling (hangup ∷ es) = callbacks handling es
callbacks true (terminate ∷ es) = Lifecycle.stopped ∷ callbacks false es
callbacks false (terminate ∷ es) = callbacks false es

-- Whether the handler is still in its loop after the events.
unfoldable pub still_handling : Bool → List Event → Bool
still_handling handling [] = handling
still_handling handling (came ∷ es) = still_handling handling es
still_handling handling (left ∷ es) = still_handling handling es
still_handling handling (hangup ∷ es) = still_handling handling es
still_handling handling (terminate ∷ es) = still_handling false es

module _ {Disk Digest TlsConfig : Type 0} (env : Env Disk Digest) where
  abbrev pub with_clients : Process Disk TlsConfig → Clients → Process Disk TlsConfig
  with_clients p c = record p { server = record (p.server) { clients = c } }

  pub reload : Process Disk TlsConfig → Process Disk TlsConfig
  unfolding reload_config
  reload p =
      let (s, d, failed) = reload_config env p.server p.disk in record p { server = s; disk = d }

  -- `stop`: the error of the library's `Stop` is only logged.
  pub stop_server : Process Disk TlsConfig → Run (Process Disk TlsConfig)
  unfolding stop
  stop_server p = and_then (stop p.server.clients) (λ c. done (with_clients p c))

  -- The callbacks, and one round of the loop in `signalHandler`.
  unfoldable pub step : Event → Process Disk TlsConfig → Run (Process Disk TlsConfig)
  unfolding stop_server reload count_in client_disconnected
  step came p = done (with_clients p (count_in p.server.clients))
  step left p = and_then (client_disconnected p.server.clients) (λ c. done (with_clients p c))
  step hangup p = done (if p.handling then reload p else p)
  step terminate p =
      if p.handling
      then and_then (stop_server p) (λ p'. done (record p' { handling = false }))
      else done p

  unfoldable pub steps : List Event → Process Disk TlsConfig → Run (Process Disk TlsConfig)
  unfolding step
  steps [] p = done p
  steps (e ∷ es) p = and_then (step e p) (steps es)

  -- `main` once the listening has ended: its last call is `WaitGracefully`, and `late` is what
  -- happens between the end of its minute and its return.
  unfoldable pub wait_for_clients : (waiting late : List Event) → Process Disk TlsConfig → Run Exit
  unfolding callbacks still_handling wait_gracefully
  wait_for_clients waiting late p =
      and_then
        (wait_gracefully (callbacks p.handling waiting)
          (callbacks (still_handling p.handling waiting) late) p.server.clients)
        (λ r. done (ended r.1))

  pub serve : (listening waiting late : List Event) → Disk × Started TlsConfig → Run Exit
  unfolding steps wait_for_clients
  serve listening waiting late (d, no_conf e) = done (not_started e)
  serve listening waiting late (d, no_log e) = done (not_started e)
  serve listening waiting late (d, conf_created) = done only_created
  serve listening waiting late (d, started s) =
      and_then (steps listening (record { server = s; disk = d; handling = true }))
        (wait_for_clients waiting late)

module _ {Disk Digest : Type 0} (env : Env Disk Digest) (os : Os Disk) where
  -- A file that cannot be written is only logged.
  unfoldable pub create_conf : Flags → Disk → Disk
  unfolding conf_name auto_create conf_file_content
  create_conf flags d =
      if auto_create flags
      then if os.missing d (conf_name flags)
        then (env.write_file d (conf_name flags) conf_file_content).0
        else d
      else d

  pub open_log_file : Text → Disk → Disk × Option Error
  open_log_file name d = if text_eq name [] then (d, none) else os.open_log d name

  module _ {TlsConfig : Type 0} where
    pub serve_unless : Flags → Config → Disk × Option Error → Disk × Started TlsConfig
    unfolding new_server
    serve_unless flags c (d, some e) = (d, no_log e)
    serve_unless flags c (d, none) =
        (d, if flags.only_conf then conf_created else started (new_server c))

    pub configure : Flags → Disk × Result Config → Disk × Started TlsConfig
    unfolding open_log_file serve_unless
    configure flags (d, err e) = (d, no_conf e)
    configure flags (d, ok c) = serve_unless flags c (open_log_file c.content.logging.file d)

    -- `main` up to the listening.
    unfoldable pub start : Flags → Disk → Disk × Started TlsConfig
    unfolding create_conf configure new_config
    start flags d = configure flags (new_config env (conf_name flags) (create_conf flags d))

  -- `main`: what happens until `ListenAndServe` returns, then until the minute is over or the wait
  -- has returned, and then between the end of the minute and the return.
  unfoldable pub main :
      (TlsConfig : Type 0) → Flags → (listening waiting late : List Event) → Disk → Run Exit
  unfolding start serve
  main TlsConfig flags listening waiting late d =
      serve {TlsConfig = TlsConfig} env listening waiting late (start flags d)
