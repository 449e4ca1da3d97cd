-- ===== src/Main/Signals/Order.antt =====
-- The process behind the channel of `signalHandler` in main.go.
use ftpserver.Base.{
  ◌≡◌, refl, sym, ap, ◌∙◌, Bool, true, false, Option, none, some, List, [], ◌∷◌, ◌++◌, Run, done,
  panic, and_then, Run-cases, inl, inr,
}
use ftpserver.Config.{Env}
use ftpserver.Server.Lifecycle.{count_in, client_disconnected, stop}
use ftpserver.Main.End.{if-true, if-false}
use ftpserver.Main.Shutdown.{hangup_reloads, step-terminate}
use ftpserver.Main.{
  Event, came, left, hangup, terminate, Process, step, steps, with_clients, reload, stop_server,
}
use ftpserver.Main.Signals.{
  Signal, sighup, sigterm, Moment, comes, leaves, received, arrives, Handler, event_of, moved,
  notify, receive, moment, moments,
}

-- What the process sees: the clients as they come and leave; of the signals those that find no other
-- one waiting, each when the handler takes it, until it has taken a SIGTERM. A SIGHUP reloads, and a
-- SIGTERM ends.
unfoldable pub taken : (waiting : Option Signal) → (handling : Bool) → List Moment → List Event
taken o b [] = []
taken o b (comes ∷ ms) = came ∷ taken o b ms
taken o b (leaves ∷ ms) = left ∷ taken o b ms
taken none b (arrives s ∷ ms) = taken (some s) b ms
taken (some w) b (arrives s ∷ ms) = taken (some w) b ms
taken none b (received ∷ ms) = taken none b ms
taken (some sighup) true (received ∷ ms) = hangup ∷ taken none true ms
taken (some sigterm) true (received ∷ ms) = terminate ∷ taken none false ms
taken (some w) false (received ∷ ms) = taken (some w) false ms

pub signals_of : List Event → List Signal
signals_of [] = []
signals_of (came ∷ es) = signals_of es
signals_of (left ∷ es) = signals_of es
signals_of (hangup ∷ es) = sighup ∷ signals_of es
signals_of (terminate ∷ es) = sigterm ∷ signals_of es

pub arrived : List Moment → List Signal
arrived [] = []
arrived (comes ∷ ms) = arrived ms
arrived (leaves ∷ ms) = arrived ms
arrived (received ∷ ms) = arrived ms
arrived (arrives s ∷ ms) = s ∷ arrived ms

abbrev pub waiting : Option Signal → List Signal
waiting none = []
waiting (some s) = s ∷ []

-- Some of the signals, in their order.
pub data IsSelection : List Signal → List Signal → Type 0 where
  nothing : {l : List Signal} → IsSelection [] l
  kept : {s : Signal} {l m : List Signal} → IsSelection l m → IsSelection (s ∷ l) (s ∷ m)
  dropped : {s : Signal} {l m : List Signal} → IsSelection l m → IsSelection l (s ∷ m)

drop_second :
    {w : Signal} (s : Signal) {l m : List Signal}
    → IsSelection l (w ∷ m)
    → IsSelection l (w ∷ s ∷ m)
drop_second s nothing = nothing
drop_second s (kept i) = kept (dropped i)
drop_second s (dropped i) = dropped (dropped i)

taken-IsSelection :
    (o : Option Signal) (b : Bool) (ms : List Moment)
    → IsSelection (signals_of (taken o b ms)) (waiting o ++ arrived ms)
unfolding taken signals_of arrived
taken-IsSelection o b [] = nothing
taken-IsSelection o b (comes ∷ ms) = taken-IsSelection o b ms
taken-IsSelection o b (leaves ∷ ms) = taken-IsSelection o b ms
taken-IsSelection none b (arrives s ∷ ms) = taken-IsSelection (some s) b ms
taken-IsSelection (some w) b (arrives s ∷ ms) = drop_second s (taken-IsSelection (some w) b ms)
taken-IsSelection none b (received ∷ ms) = taken-IsSelection none b ms
taken-IsSelection (some sighup) true (received ∷ ms) = kept (taken-IsSelection none true ms)
taken-IsSelection (some sigterm) true (received ∷ ms) = kept (taken-IsSelection none false ms)
taken-IsSelection (some sighup) false (received ∷ ms) = taken-IsSelection (some sighup) false ms
taken-IsSelection (some sigterm) false (received ∷ ms) = taken-IsSelection (some sigterm) false ms

module _ {Disk Digest TlsConfig : Type 0} (env : Env Disk Digest) where
  -- The process alone.
  abbrev process_of : Run (Handler Disk TlsConfig) → Run (Process Disk TlsConfig)
  process_of r = and_then r (λ h. done h.process)

  abbrev behind : Option Signal → Process Disk TlsConfig → Handler Disk TlsConfig
  behind o p = record { process = p; channel = o }

  step-stopped :
      (p : Process Disk TlsConfig)
      → p.handling ≡ true
      → stop p.server.clients ≡ panic
      → step env terminate p ≡ panic
  unfolding step stop_server
  step-stopped p on broken =
      if-true _ (done p) on
      ∙ ap
          (λ r.
            and_then (and_then r (λ c. done (with_clients env p c)))
              (λ p'. done (record p' { handling = false })))
          broken

  receive_on :
      (s : Signal) (p : Process Disk TlsConfig) {r : Run (Process Disk TlsConfig)}
      → p.handling ≡ true
      → step env (event_of s) p ≡ r
      → receive env (behind (some s) p) (some s) ≡ moved none r
  unfolding receive
  receive_on s p on went =
      if-true (moved none (step env (event_of s) p)) (done (behind (some s) p)) on
      ∙ ap (moved none) went

  receive_off :
      (s : Signal) (p : Process Disk TlsConfig)
      → p.handling ≡ false
      → receive env (behind (some s) p) (some s) ≡ done (behind (some s) p)
  unfolding receive
  receive_off s p off =
      if-false (moved none (step env (event_of s) p)) (done (behind (some s) p)) off

  -- The next moment, and then the rest.
  follow :
      (ms : List Moment) (es : List Event) {r : Run (Handler Disk TlsConfig)}
      {r' : Run (Process Disk TlsConfig)} (o : Option Signal) (p : Process Disk TlsConfig)
      → r ≡ done (behind o p)
      → r' ≡ done p
      → process_of (moments env ms (behind o p)) ≡ steps env es p
      → process_of (and_then r (moments env ms)) ≡ and_then r' (steps env es)
  follow ms es o p went went' rest = rw (went, went') rest

  moments-taken :
      (ms : List Moment) (o : Option Signal) (b : Bool) (p : Process Disk TlsConfig)
      → p.handling ≡ b
      → process_of (moments env ms (behind o p)) ≡ steps env (taken o b ms) p
  unfolding moments moment receive notify moved event_of steps step taken
  moments-taken [] o b p h = refl
  moments-taken (comes ∷ ms) o b p h =
      moments-taken ms o b (with_clients env p (count_in p.server.clients)) h
  moments-taken (leaves ∷ ms) o b p h = elim (Run-cases (client_disconnected p.server.clients)) [
    | inl (c, gone) ↦ rw gone (moments-taken ms o b (with_clients env p c) h)
    | inr broken ↦ rw broken refl
  ]
  moments-taken (arrives s ∷ ms) none b p h = moments-taken ms (some s) b p h
  moments-taken (arrives s ∷ ms) (some w) b p h = moments-taken ms (some w) b p h
  moments-taken (received ∷ ms) none b p h = moments-taken ms none b p h
  moments-taken (received ∷ ms) (some sighup) true p h =
      let reloads = hangup_reloads env p h in
      follow ms (taken none true ms) none (reload env p) (receive_on sighup p h reloads) reloads
        (moments-taken ms none true (reload env p) h)
  moments-taken (received ∷ ms) (some sigterm) true p h = elim (Run-cases (stop p.server.clients)) [
    | inl (c, stopped) ↦
        let p' = record (with_clients env p c) { handling = false } in
        let ends = step-terminate env p h stopped in
        follow ms (taken none false ms) none p' (receive_on sigterm p h ends) ends
          (moments-taken ms none false p' refl)
    | inr broken ↦
        let breaks = step-stopped p h broken in
        ap (λ r. process_of (and_then r (moments env ms))) (receive_on sigterm p h breaks)
        ∙ ap (λ r. and_then r (steps env (taken none false ms))) (sym breaks)
  ]
  moments-taken (received ∷ ms) (some sighup) false p h =
      ap (λ r. process_of (and_then r (moments env ms))) (receive_off sighup p h)
      ∙ moments-taken ms (some sighup) false p h
  moments-taken (received ∷ ms) (some sigterm) false p h =
      ap (λ r. process_of (and_then r (moments env ms))) (receive_off sigterm p h)
      ∙ moments-taken ms (some sigterm) false p h

  -- With the channel the process runs as without it on the events of `taken`, and panics exactly if
  -- that run does, whatever arrives and is taken, in whatever order: the clients come and leave as
  -- they do, and the channel selects the signals. The signals among these events are some of those
  -- that waited or arrived, in their order, a SIGHUP as a reload and a SIGTERM as the end.
  pub moments-steps :
      (ms : List Moment) (h : Handler Disk TlsConfig)
      → let es = taken h.channel h.process.handling ms in
        (and_then (moments env ms h) (λ h'. done h'.process) ≡ steps env es h.process)
        × IsSelection (signals_of es) (waiting h.channel ++ arrived ms)
  moments-steps ms h = (
    moments-taken ms h.channel h.process.handling h.process refl,
    taken-IsSelection h.channel h.process.handling ms,
  )
