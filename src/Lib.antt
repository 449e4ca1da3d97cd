-- ===== src/Lib.antt =====
-- A verification library for ftpserver: an FTP server that gives each user a file system on a
-- storage of the user's configuration.
--
-- The program. main.go makes a configuration (config/) and a driver (server/) for the FTP library.
-- For each login the driver asks the configuration, or a webhook, for the access of the user, and
-- fs/ for its file system, which it keeps in a cache if the access is shared. It counts the
-- clients, and ends gracefully when the last one has left. The file system may be wrapped: to
-- refuse writes, to synchronise, to log.
--
-- The files, with the sources that they model:
--   Base           shared names: texts as lists of bytes, errors and results, panics, lists
--   Confpar        config/confpar/confpar.go, a record for each struct
--   Config         config/config.go: `Env` (what the package calls), GetAccess
--     Login          who is let in
--     Accesses       CheckAccesses
--     Hashing        HashPlaintextPasswords; Step, Covers, Keeps and Frame prove what it does, Again
--                    what a second one does, File what the file holds then, Storage that no file
--                    system changes
--     Loading        Load, Prepare, NewConfig, FromContent; Reload proves what a reload keeps,
--                    Restart what a later start finds
--   Strings        what the loaders use of strconv and path; Decimal is about numbers that are
--                  written and read
--   EnvVars        fs/utils/env.go: ReplaceEnvVars; Expansion describes it by pieces of text
--   Fs             file systems as the terms that make them; `Cloud` (what the loaders call)
--     Backends       LoadFs of fs/afos, s3, gcs, sftp, mail, gdrive, keycloak, dropbox, telegram;
--                    Credentials is about what they read of an access
--     Loader         fs/fs.go: LoadFs
--     Protection     what LoadFs guarantees
--   Server         server/server.go: the state of the driver, NewServer
--     Lifecycle      ClientConnected and ClientDisconnected (the count), Stop, WaitGracefully;
--                    Traffic describes the callbacks of clients, Drain is about a stop and a wait,
--                    Late about callbacks without a stop or after its end
--     Webhook        getAccessFromWebhook; Answer is about the exchange, Headers about the
--                    order of the headers
--     Auth           loadFs and AuthUser; Cache, Sessions, Remote (with a webhook) and Faults are
--                    about them, Interleaved about logins that overlap, Pointers about what they
--                    keep, Provenance about what they leave in the cache, Mapping about the cache
--                    as a map
--     Settings       GetSettings, ReloadConfig, ClientConnected
--     Tls            loadTLSConfig, GetTLSConfig
--   Afero          the interfaces afero.Fs and afero.File over an explicit state
--   StripPrefix    fs/stripprefix/stripslash.go; Transparent compares it with its source
--   Fslog          fs/fslog/fslog.go: Fs; Transparent compares it with its source
--     Files          File; Counting is about what it logs when it is closed
--   Upload         the methods of File in fs/mail/mail.go and fs/telegram/telegram.go that concern
--                  its buffer, which are alike; Roundtrip reads what was written, Calls is about all
--                  methods in any order
--   Mail           fs/mail/mail.go: Fs and File; Sending is about Close and about whole uploads
--   Telegram       fs/telegram/fake_fs.go and file_info.go, MkdirAll and isExtension of
--                  telegram.go; Remembered is about MkdirAll
--     Chat           fs/telegram/telegram.go: Fs and File; Sending is about Close and uploads
--     Bot            startHandler and helpHandler of telegram.go
--   Main           main.go: main, signalHandler, stop, confFileContent; Start is about what it comes
--                  to listen with, Shutdown and End about its end, Runs about whole runs, FirstStart
--                  about a run without a configuration, Again about a second start
--     Signals        the channel of signalHandler; Order relates it to Main, Lost is about what it
--                    drops
--   Tests          sample data and the theorems on it
--
-- How state is modelled. The accesses stand on a heap that only grows, and the configuration holds
-- addresses, for GetAccess and loadFs share them and a reload leaves the old ones in use. Each
-- method that holds a mutex is one step. The graceful stop is a machine over the callbacks in the
-- order in which they take the mutex; channels are kept on a list, since a waiter holds on to the
-- one it began with. AuthUser is modelled in two halves, the choice of the access and the loading,
-- so that another login can come in between. A call that may panic returns a `Run`. A run of the
-- program is a sequence of events, the library's callbacks and the signals, each of them one step;
-- the library's ListenAndServe returns at some point of it, before or after a SIGTERM, and
-- WaitGracefully sees what comes until its minute is over. Its last callbacks may come between its
-- channel's being ready, or its timer's firing, and its return, since it does not hold the mutex.
-- If the channel is ready when the wait looks at it, or becomes so before the timer fires, the wait
-- takes the channel; in the source it may take either when both are ready before it is scheduled.
--
-- Bounds. The count of clients is a uint32 and wraps. Other integers and the durations are natural
-- numbers: a port range, a timeout or a count of clients below zero in the configuration is not
-- modelled. GetSettings takes the seconds of a duration by a float64, which rounds down as here
-- below 2^22 seconds. The byte counters of fslog do not wrap here. There is no fuel but that of
-- the decimal printing of a number, which is the number itself and one, and that of a reader of an
-- upload, for which as much as its length and one is shown to be enough.
--
-- Not modelled. Third-party code and the operating system are parameters: `Env`, `Cloud`, `Http`,
-- `TlsEnv`, `AferoFs`, `FileOps`, `Mailer`, `Bot`, `Context`, `Os`. Where a theorem needs the
-- bcrypt library to be lawful, that is the record `IsLawful`, and `IsFaithful` for the JSON
-- libraries and the file system. A list of accesses in the JSON file holds no null, so that each
-- address of a configuration is on the heap; GetAccess and the hashing pass over one that is not,
-- where the source would panic on a nil pointer. The second half of a login reads its access once,
-- while in the source loadFs reads the user twice and a keycloak login may write it in between,
-- without a lock. The content of a new `Config` is nil before Load in the source, and an empty one
-- here, which nothing reads. The headers of the webhook are set in the order of a list, in the
-- source in any order of a map, which Server.Webhook.Headers compares. What is logged outside
-- fs/fslog does not appear, nor what is printed on the terminal; of the log's set-up in main.go
-- only the opening of the file is there. In Main a signal is handled when it comes; Main.Signals
-- has the channel in between. In fs/telegram, a file information that was handed out does not
-- follow a later change of the size; in the source it is shared.
pub mod Base
pub mod Confpar
pub mod Config
pub mod Strings
pub mod EnvVars
pub mod Fs
pub mod Mail
pub mod Main
pub mod Server
pub mod Afero
pub mod StripPrefix
pub mod Fslog
pub mod Telegram
pub mod Tests
pub mod Upload
