-- ===== src/Main/Runs.antt =====
-- The whole runs of the program of main.go.
use mathlib.Core.Path.{subst}
use ftpserver.Base.{
  arith, refl, sym, ◌≢◌, ℕ, ◌+◌, ◌<◌, ◌≡◌, ap, ◌∙◌, ◌⊎◌, inl, inr, none, some, List, [], ◌∷◌, ◌++◌,
  length, All, Error, timeout, done, panic, ltb, Result, if◌then◌else◌, true, false,
}
use ftpserver.Config.{Env, Config}
use ftpserver.Config.Loading.Reload.{IsWellFormed}
use ftpserver.Fs.{Fs, Cloud}
use ftpserver.Server.{Server, ClientContext, new_server}
use ftpserver.Server.Auth.{open_session}
use ftpserver.Server.Auth.Interleaved.{Steps, IsSound, Steps-open}
use ftpserver.Server.Webhook.{Http}
use ftpserver.Server.Lifecycle.{Clients, no_clients, u32_mod, handle_all}
use ftpserver.Server.Lifecycle.Traffic.{Traffic, visits}
use ftpserver.Main.{
  Flags, Os, Event, terminate, Started, no_conf, no_log, conf_created, ended, only_created,
  not_started, callbacks, still_handling, started, serve, start, main, conf_name, create_conf,
}
use ftpserver.Main.Shutdown.{IsQuiet, serve-terminate}
use ftpserver.Main.End.{started-no_clients, serve-unstopped}
use ftpserver.Main.Start.{start-eq-started, new_config-IsWellFormed}

module _ {Disk Digest : Type 0} (env : Env Disk Digest) (os : Os Disk) where
  module _ {TlsConfig : Type 0} where
    start-no_clients :
        (flags : Flags) (d : Disk) {d' : Disk} {s : Server TlsConfig}
        → start env os flags d ≡ (d', started s)
        → s.clients ≡ no_clients
    start-no_clients flags d up =
        let (c, _, fresh, _) = start-eq-started env os flags d up in started-no_clients c fresh

    new_server-IsSound :
        (c : Config) {s : Server TlsConfig} → s ≡ new_server c → IsWellFormed c → IsSound env s []
    unfolding new_server
    new_server-IsSound c fresh w =
        subst (λ t. IsSound env t []) (sym fresh) (record { config = w; pending = tt; cache = tt })

    -- From the start of the program on, whatever logins overlap and however often the configuration
    -- is reloaded in between: each login that is under way can load its file system or gets the
    -- error, and never panics.
    pub start-open :
        (http : Http) (flags : Flags) (d : Disk) {d' : Disk} {s : Server TlsConfig}
        (s' : Server TlsConfig) (pending : List ℕ) (cloud : Cloud) (client : ClientContext)
        → start env os flags d ≡ (d', started s)
        → Steps env http s [] s' pending
        → All
            (λ p.
              (t : Server TlsConfig × ClientContext × Result Fs) × (open_session cloud s' client
                  (some p)
                ≡ done t))
            pending
    start-open http flags d {s = s} s' pending cloud client up steps =
        let (c, loaded, fresh, _) = start-eq-started env os flags d up in
        Steps-open env http s s' pending cloud client steps (
          new_server-IsSound c fresh
            (new_config-IsWellFormed env (conf_name flags) (create_conf env os flags d) loaded))

  -- The program listens, clients come and leave, m being left, and the configuration may be
  -- reloaded, until a SIGTERM comes; clients may come and leave after it until the listening ends,
  -- and then while the program waits. How it ends is a matter of how often no client is connected,
  -- at the SIGTERM or after one has left. If that is at most once before the wait has returned, the
  -- program ends by itself: without an error if it is once before the end of the minute that the
  -- program waits, else with `ErrTimeout`. If it is twice or more, which takes a client that comes
  -- when all have left, the program panics. The clients are fewer than a uint32 counts. Of what
  -- clients do only the calls that count them are events here.
  pub main-terminate :
      (TlsConfig : Type 0) (flags : Flags) (d : Disk) (es after waiting late : List Event)
      {d' : Disk} {s : Server TlsConfig} {m k j : ℕ}
      → start env os flags d ≡ (d', started s)
      → All IsQuiet es
      → Traffic 0 (callbacks true es) m
      → Traffic m (callbacks false after) k
      → Traffic k (callbacks false waiting ++ callbacks false late) j
      → length es < u32_mod
      → m
          + length (callbacks false after)
          + length (callbacks false waiting ++ callbacks false late)
        < u32_mod
      → main env os TlsConfig flags (es ++ terminate ∷ after) waiting late d ≡ (
          if ltb 1
            (visits m (callbacks false after ++ (callbacks false waiting ++ callbacks false late)))
          then panic
          else done (
              ended (
                if ltb 0 (visits m (callbacks false after ++ callbacks false waiting))
                then none
                else some timeout)))
  unfolding main
  main-terminate TlsConfig flags d es after waiting late {d'} {s} up q t u v few few' =
      ap (serve env (es ++ terminate ∷ after) waiting late) up
      ∙ serve-terminate env s d' es after waiting late (start-no_clients flags d up) q t u v few
          few'

  -- If the listening ends without a SIGTERM, the program waits to the end of the minute and gets
  -- `ErrTimeout`, also if no client is connected, if the last one leaves or if a SIGTERM comes in
  -- the meantime, as long as the callbacks of that minute do not panic.
  pub main-unstopped :
      (TlsConfig : Type 0) (flags : Flags) (d : Disk) (es waiting late : List Event) {d' : Disk}
      {s : Server TlsConfig} {m : ℕ} {c : Clients}
      → start env os flags d ≡ (d', started s)
      → All IsQuiet es
      → Traffic 0 (callbacks true es) m
      → length es < u32_mod
      → handle_all
          (callbacks true waiting ++ callbacks (still_handling true waiting) late)
          (record no_clients { nb_clients = m })
        ≡ done c
      → main env os TlsConfig flags es waiting late d ≡ done (ended (some timeout))
  unfolding main
  main-unstopped TlsConfig flags d es waiting late {d'} {s} up q t few calm =
      ap (serve env es waiting late) up
      ∙ serve-unstopped env s d' es waiting late (start-no_clients flags d up) q t few calm

  serve-only_conf :
      {TlsConfig : Type 0} (es waiting late : List Event) (r : Disk × Started TlsConfig)
      → ((d : Disk) (s : Server TlsConfig) → r ≢ (d, started s))
      → (serve env es waiting late r ≡ done only_created)
        ⊎ ((e : Error) × (serve env es waiting late r ≡ done (not_started e)))
  unfolding serve
  serve-only_conf es waiting late (d, no_conf e) quiet = inr (e, refl)
  serve-only_conf es waiting late (d, no_log e) quiet = inr (e, refl)
  serve-only_conf es waiting late (d, conf_created) quiet = inl refl
  serve-only_conf es waiting late (d, started s) quiet = absurd (quiet d s refl)

  -- With the flag `conf-only` the program never listens, whatever is on the disk: it ends after the
  -- configuration has been created, or because the configuration or the log file failed.
  main-only_conf :
      (TlsConfig : Type 0) (flags : Flags) (d : Disk) (es waiting late : List Event)
      → flags.only_conf ≡ true
      → (main env os TlsConfig flags es waiting late d ≡ done only_created)
        ⊎ ((e : Error) × (main env os TlsConfig flags es waiting late d ≡ done (not_started e)))
  unfolding main
  main-only_conf TlsConfig flags d es waiting late only =
      serve-only_conf es waiting late (start env os flags d) (λ d' s up.
        let (c, _, _, serving) = start-eq-started env os flags d up in
        ground (arith, only, serving))
