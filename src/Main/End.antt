-- ===== src/Main/End.antt =====
-- The runs of main.go from its first line to its last.
use mathlib.Core.Path.{subst}
use ftpserver.Base.{
  done-inj, ℕ, ◌<◌, ◌≡◌, refl, sym, ap, ◌∙◌, inl, inr, Bool, true, false, some, List, [], ◌∷◌, ◌++◌,
  length, All, timeout, done, and_then, and_then-eq-done, if◌then◌else◌, arith, Bool-cases,
}
use ftpserver.Config.{Env, Config}
use ftpserver.Server.{Server, new_server}
use ftpserver.Server.Lifecycle.{Clients, no_clients, u32_mod, client_disconnected, stop, handle_all}
use ftpserver.Server.Lifecycle.Traffic.{Traffic}
use ftpserver.Server.Lifecycle.Late.{handle_all-Traffic, wait_gracefully_unstopped}
use ftpserver.Main.{
  Event, came, left, hangup, terminate, Process, ended, callbacks, started, still_handling, step,
  steps, reload, stop_server, wait_for_clients, serve,
}
use ftpserver.Main.Shutdown.{IsQuiet, Reaches, steps-quiet, length-callbacks}

pub started-no_clients :
    {TlsConfig : Type 0} {s : Server TlsConfig} (c : Config)
    → s ≡ new_server c
    → s.clients ≡ no_clients
unfolding new_server
started-no_clients c e = ap (λ t. t.clients) e

pub if-true : {A : Type 0} {b : Bool} (x y : A) → b ≡ true → (if b then x else y) ≡ x
if-true x y on = rw on refl

pub if-false : {A : Type 0} {b : Bool} (x y : A) → b ≡ false → (if b then x else y) ≡ y
if-false x y off = rw off refl

module _ {Disk Digest TlsConfig : Type 0} (env : Env Disk Digest) where
  -- What is left to the program of the callbacks of a quiet time.
  quiet-Reaches :
      (s : Server TlsConfig) (d : Disk) (es : List Event) {m : ℕ}
      → s.clients ≡ no_clients
      → All IsQuiet es
      → Traffic 0 (callbacks true es) m
      → length es < u32_mod
      → Reaches env
          (steps env es (record { server = s; disk = d; handling = true }))
          (record (s.clients) { nb_clients = m })
  unfolding no_clients
  quiet-Reaches s d es fresh q t few = steps-quiet env es _ q refl (
      handle_all-Traffic s.clients t (ap (λ c. c.nb_clients) fresh)
        (ap (λ c. c.zero_client_event) fresh) (omega (arith, length-callbacks true es)))

  pub serve-unstopped :
      (s : Server TlsConfig) (d : Disk) (es waiting late : List Event) {m : ℕ} {c : Clients}
      → s.clients ≡ no_clients
      → All IsQuiet es
      → Traffic 0 (callbacks true es) m
      → length es < u32_mod
      → handle_all
          (callbacks true waiting ++ callbacks (still_handling true waiting) late)
          (record no_clients { nb_clients = m })
        ≡ done c
      → serve env es waiting late (d, started s) ≡ done (ended (some timeout))
  unfolding serve wait_for_clients no_clients
  serve-unstopped s d es waiting late {m} {c} fresh q t few quiet =
      let (p, ran, clients, handling) = quiet-Reaches s d es fresh q t few in
      let count : Clients → Clients = λ k. record k { nb_clients = m } in
      let same : p.server.clients ≡ count no_clients = clients ∙ ap count fresh in
      let waited =
        wait_gracefully_unstopped (record no_clients { nb_clients = m }) c (callbacks true waiting)
          (callbacks (still_handling true waiting) late) refl quiet in
      ap (λ r. and_then r (wait_for_clients env waiting late)) ran
      ∙ rw (handling, same, waited) refl

  -- The handler has ended, and the configuration and the disk are these.
  abbrev Ended : Config → Disk → Process Disk TlsConfig → Type 0
  Ended c d p = (p.handling ≡ false) × (p.server.config ≡ c) × (p.disk ≡ d)

  step-Ended :
      (e : Event) {c : Config} {d : Disk} (p : Process Disk TlsConfig) {p' : Process Disk TlsConfig}
      → Ended c d p
      → step env e p ≡ done p'
      → Ended c d p'
  unfolding step
  step-Ended came {c} {d} p i e = subst (Ended c d) (done-inj e) i
  step-Ended left {c} {d} p i e =
      let (k, _, same) = and_then-eq-done (client_disconnected p.server.clients) _ e in
      subst (Ended c d) (done-inj same) i
  step-Ended hangup {c} {d} p i e =
      subst (Ended c d) (sym (if-false (reload env p) p i.0) ∙ done-inj e) i
  step-Ended terminate {c} {d} p i e =
      subst (Ended c d) (done-inj (sym (if-false _ (done p) i.0) ∙ e)) i

  terminate-Ended :
      (p : Process Disk TlsConfig) {p' : Process Disk TlsConfig}
      → step env terminate p ≡ done p'
      → Ended p.server.config p.disk p'
  unfolding step stop_server
  terminate-Ended p {p'} e = elim (Bool-cases p.handling) [
    | inl on ↦
        let (p1, stopped, rest) =
          and_then-eq-done (stop_server env p) _ (sym (if-true _ (done p) on) ∙ e) in
        let (c, _, same) = and_then-eq-done (stop p.server.clients) _ stopped in
        subst (Ended p.server.config p.disk) (done-inj rest) (
          refl,
          ap (λ q. q.server.config) (sym (done-inj same)),
          ap (λ q. q.disk) (sym (done-inj same)),
        )
    | inr off ↦ step-Ended terminate p (off, refl, refl) e
  ]

  steps-Ended :
      (es : List Event) {c : Config} {d : Disk} (p : Process Disk TlsConfig)
      {p' : Process Disk TlsConfig}
      → Ended c d p
      → steps env es p ≡ done p'
      → Ended c d p'
  unfolding steps
  steps-Ended [] {c} {d} p i e = subst (Ended c d) (done-inj e) i
  steps-Ended (x ∷ es) p i e =
      let (p1, first, rest) = and_then-eq-done (step env x p) _ e in
      steps-Ended es p1 (step-Ended x p i first) rest

  -- After a SIGTERM no SIGHUP reloads the configuration: until the listening ends the configuration
  -- and the disk stay as they were, whatever signals and callbacks come. If the signal handler has
  -- ended already, the SIGTERM is none to it.
  pub steps-after_terminate :
      (es : List Event) (p : Process Disk TlsConfig) {p' : Process Disk TlsConfig}
      → steps env (terminate ∷ es) p ≡ done p'
      → (p'.server.config ≡ p.server.config) × (p'.disk ≡ p.disk)
  unfolding steps step stop_server
  steps-after_terminate es p e =
      let (p1, first, rest) = and_then-eq-done (step env terminate p) _ e in
      let (_, config, disk) = steps-Ended es p1 (terminate-Ended p first) rest in (config, disk)
