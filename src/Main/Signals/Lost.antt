-- ===== src/Main/Signals/Lost.antt =====
-- Signals that are lost in the channel of `signalHandler` in main.go.
use ftpserver.Base.{
  ◌+◌, ◌-◌, ◌%◌, ◌≡◌, refl, ap, ◌∙◌, true, Option, none, some, List, [], ◌∷◌, All, Run, done,
  and_then,
}
use ftpserver.Config.{Env}
use ftpserver.Server.Settings.{reload_config}
use ftpserver.Server.Lifecycle.{Clients, u32_mod, count_in, client_disconnected}
use ftpserver.Server.Lifecycle.Late.{consider_end-quiet}
use ftpserver.Main.Shutdown.{IsQuiet}
use ftpserver.Main.End.{if-true}
use ftpserver.Main.{reload, with_clients, Event, came, left, hangup, terminate, Process, step}
use ftpserver.Main.Signals.{
  Signal, sighup, sigterm, Moment, comes, leaves, received, arrives, Handler, notify, event_of,
  moved, receive, moment, moments,
}

abbrev NoSigterm : Option Signal → Type 0
NoSigterm (some sigterm) = ⊥
NoSigterm _ = Unit

-- No SIGTERM arrives.
abbrev pub IsPlain : Moment → Type 0
IsPlain (arrives sigterm) = ⊥
IsPlain _ = Unit

notify-NoSigterm : (o : Option Signal) → NoSigterm o → NoSigterm (notify sighup o)
unfolding notify
notify-NoSigterm none calm = tt
notify-NoSigterm (some s) calm = calm

module _ {Disk Digest TlsConfig : Type 0} (env : Env Disk Digest) where
  -- The handler is in its loop, and the driver has not been asked to stop.
  abbrev pub IsServing : Process Disk TlsConfig → Type 0
  IsServing p = (p.handling ≡ true) × (p.server.clients.zero_client_event ≡ none)

  reload-IsServing : (p : Process Disk TlsConfig) → IsServing p → IsServing (reload env p)
  unfolding reload reload_config
  reload-IsServing p i = i

  step-IsServing :
      (e : Event) (p : Process Disk TlsConfig)
      → IsQuiet e
      → IsServing p
      → (p' : Process Disk TlsConfig) × (step env e p ≡ done p') × IsServing p'
  unfolding step count_in client_disconnected
  step-IsServing came p q i = (with_clients env p (count_in p.server.clients), refl, i)
  step-IsServing left p q i =
      let c : Clients = record (p.server.clients) {
        nb_clients = (p.server.clients.nb_clients + u32_mod - 1) % u32_mod;
      } in
      (
        with_clients env p c,
        ap (λ r. and_then r (λ k. done (with_clients env p k))) (consider_end-quiet c i.1),
        i,
      )
  step-IsServing hangup p q i =
      (reload env p, ap done (if-true (reload env p) p i.0), reload-IsServing p i)
  step-IsServing terminate p q i = absurd q

  -- No SIGTERM waits for the handler, either.
  abbrev IsCalm : Handler Disk TlsConfig → Type 0
  IsCalm h = IsServing h.process × NoSigterm h.channel

  abbrev GoesCalm : Run (Handler Disk TlsConfig) → Type 0
  GoesCalm r = (h : Handler Disk TlsConfig) × (r ≡ done h) × IsCalm h

  moved-IsCalm :
      (e : Event) (channel : Option Signal) (p : Process Disk TlsConfig)
      → IsQuiet e
      → IsServing p
      → NoSigterm channel
      → GoesCalm (moved channel (step env e p))
  unfolding moved
  moved-IsCalm e channel p q i calm =
      let (p', ran, i') = step-IsServing e p q i in
      (record { process = p'; channel = channel }, ap (moved channel) ran, (i', calm))

  receive-IsCalm :
      (o : Option Signal) (h : Handler Disk TlsConfig)
      → NoSigterm o
      → IsCalm h
      → GoesCalm (receive env h o)
  unfolding receive event_of
  receive-IsCalm none h calm i = (h, refl, i)
  receive-IsCalm (some sighup) h calm i =
      let (h', ran, i') = moved-IsCalm hangup none h.process tt i.0 tt in
      (h', if-true _ (done h) i.0.0 ∙ ran, i')
  receive-IsCalm (some sigterm) h calm i = absurd calm

  moment-IsCalm :
      (m : Moment) (h : Handler Disk TlsConfig) → IsPlain m → IsCalm h → GoesCalm (moment env m h)
  unfolding moment
  moment-IsCalm comes h plain i = moved-IsCalm came h.channel h.process tt i.0 i.1
  moment-IsCalm leaves h plain i = moved-IsCalm left h.channel h.process tt i.0 i.1
  moment-IsCalm received h plain i = receive-IsCalm h.channel h i.1 i
  moment-IsCalm (arrives sighup) h plain (serving, calm) = (
    record h { channel = notify sighup h.channel },
    refl,
    (serving, notify-NoSigterm h.channel calm),
  )
  moment-IsCalm (arrives sigterm) h plain i = absurd plain

  moments-IsCalm :
      (ms : List Moment) (h : Handler Disk TlsConfig)
      → All IsPlain ms
      → IsCalm h
      → GoesCalm (moments env ms h)
  unfolding moments
  moments-IsCalm [] h plain i = (h, refl, i)
  moments-IsCalm (m ∷ ms) h (here, plain) i =
      let (h1, first, i1) = moment-IsCalm m h here i in
      let (h2, rest, i2) = moments-IsCalm ms h1 plain i1 in
      (h2, ap (λ r. and_then r (moments env ms)) first ∙ rest, i2)

  -- A SIGTERM that arrives while a SIGHUP waits in the channel is lost: whatever comes then, unless
  -- it is another SIGTERM, the signal handler goes on, and the driver is never asked to stop.
  pub sigterm_lost :
      (ms : List Moment) (h : Handler Disk TlsConfig)
      → IsServing h.process
      → h.channel ≡ none
      → All IsPlain ms
      → (h' : Handler Disk TlsConfig) × (moments env (arrives sighup ∷ arrives sigterm ∷ ms) h
          ≡ done h')
        × IsServing h'.process
  unfolding moments moment notify
  sigterm_lost ms h serving empty plain =
      let full : Option Signal → Handler Disk TlsConfig =
        λ o. record h { channel = notify sigterm (notify sighup o) } in
      let (h', ran, i) = moments-IsCalm ms (full none) plain (serving, tt) in
      (h', ap (λ o. moments env ms (full o)) empty ∙ ran, i.0)
