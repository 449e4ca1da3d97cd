-- ===== src/Main/Signals.antt =====
-- The channel of `signalHandler` in main.go, which holds one signal: `signal.Notify` drops a signal
-- that finds it full.
pub mod Lost
pub mod Order
use mathlib.Core.Path.{subst}
use ftpserver.Base.{
  ◌+◌, ◌-◌, ◌%◌, ◌≡◌, refl, sym, ap, ◌∙◌, Bool, true, false, Option, none, some, List, [], ◌∷◌,
  ◌++◌, All, Run, done, panic, and_then, and_then-eq-done, if◌then◌else◌, Bool-cases, Run-cases,
  inl, inr,
}
use ftpserver.Config.{Env}
use ftpserver.Server.Settings.{reload_config}
use ftpserver.Server.Lifecycle.{Clients, u32_mod, count_in, client_disconnected}
use ftpserver.Server.Lifecycle.Late.{consider_end-quiet}
use ftpserver.Main.Shutdown.{IsQuiet}
use ftpserver.Main.{
  reload, with_clients, Event, came, left, hangup, terminate, Process, step, steps,
}

pub data Signal : Type 0 where
  sighup sigterm : Signal

-- What happens, with the signals' arrival apart from their receipt, `<-ch`.
pub data Moment : Type 0 where
  comes leaves received : Moment
  arrives : Signal → Moment

pub record Handler (Disk TlsConfig : Type 0) : Type 0 where
  pub process : Process Disk TlsConfig
  pub channel : Option Signal

pub notify : Signal → Option Signal → Option Signal
notify s none = some s
notify s (some waiting) = some waiting

-- One round of the loop.
pub event_of : Signal → Event
event_of sighup = hangup
event_of sigterm = terminate

pub moved :
    {Disk TlsConfig : Type 0}
    → Option Signal
    → Run (Process Disk TlsConfig)
    → Run (Handler Disk TlsConfig)
moved channel r = and_then r (λ p. done (record { process = p; channel = channel }))

module _ {Disk Digest TlsConfig : Type 0} (env : Env Disk Digest) where
  -- An empty channel blocks the handler, and so does its end.
  pub receive : Handler Disk TlsConfig → Option Signal → Run (Handler Disk TlsConfig)
  unfolding moved event_of step
  receive h none = done h
  receive h (some s) =
      if h.process.handling then moved none (step env (event_of s) h.process) else done h

  unfoldable pub moment : Moment → Handler Disk TlsConfig → Run (Handler Disk TlsConfig)
  unfolding receive notify
  moment comes h = moved h.channel (step env came h.process)
  moment leaves h = moved h.channel (step env left h.process)
  moment (arrives s) h = done (record h { channel = notify s h.channel })
  moment received h = receive h h.channel

  unfoldable pub moments : List Moment → Handler Disk TlsConfig → Run (Handler Disk TlsConfig)
  unfolding moment
  moments [] h = done h
  moments (m ∷ ms) h = and_then (moment m h) (moments ms)
