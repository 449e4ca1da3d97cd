-- ===== src/Main/Shutdown.antt =====
-- How the program of main.go ends.
use mathlib.Core.Path.{subst}
use ftpserver.Base.{
  ℕ, ◌+◌, ◌≤◌, ◌<◌, ◌≡◌, refl, sym, ap, ◌∙◌, Bool, true, false, Option, none, some, List, [], ◌∷◌,
  ◌++◌, length, All, Error, timeout, Run, done, and_then, and_then-eq-done, Run-cases, inl, inr,
  panic, Bool-cases, ltb, if◌then◌else◌, arith,
}
use ftpserver.Config.{Env}
use ftpserver.Server.{Server}
use ftpserver.Server.Lifecycle.{
  Clients, no_clients, u32_mod, count_in, client_disconnected, stop, handle_all, wait_gracefully,
}
use ftpserver.Server.Lifecycle.Traffic.{Traffic, visits}
use ftpserver.Server.Lifecycle.Drain.{observed, verdict, wait_gracefully-stop}
use ftpserver.Server.Lifecycle.Traffic.{Traffic}
use ftpserver.Server.Lifecycle.Late.{handle_all-Traffic}
use ftpserver.Main.{
  Event, came, left, hangup, terminate, Process, Exit, ended, callbacks, started, still_handling,
  step, steps, with_clients, reload, stop_server, wait_for_clients, serve,
}

-- No SIGTERM is among the events.
abbrev pub IsQuiet : Event → Type 0
IsQuiet terminate = ⊥
IsQuiet _ = Unit

pub length-callbacks : (b : Bool) (es : List Event) → length (callbacks b es) ≤ length es
unfolding callbacks
length-callbacks b [] = omega arith
length-callbacks b (came ∷ es) = omega (arith, length-callbacks b es)
length-callbacks b (left ∷ es) = omega (arith, length-callbacks b es)
length-callbacks b (hangup ∷ es) = omega (arith, length-callbacks b es)
length-callbacks true (terminate ∷ es) = omega (arith, length-callbacks false es)
length-callbacks false (terminate ∷ es) = omega (arith, length-callbacks false es)

still_handling-false : (es : List Event) → still_handling false es ≡ false
unfolding still_handling
still_handling-false [] = refl
still_handling-false (came ∷ es) = still_handling-false es
still_handling-false (left ∷ es) = still_handling-false es
still_handling-false (hangup ∷ es) = still_handling-false es
still_handling-false (terminate ∷ es) = still_handling-false es

-- What the program returns of a wait.
abbrev exit : Run (Option ℕ × Option Error) → Run Exit
exit r = and_then r (λ (c, e). done (ended e))

exit-observed :
    (r : Run (Clients × Option Error)) → and_then r (λ r. done (ended r.1)) ≡ exit (observed r)
exit-observed (done r) = refl
exit-observed panic = refl

-- How a program ends that had m clients when it was told to: see `visits`.
abbrev pub exit_of : (m : ℕ) → (after waiting late : List Event) → Run Exit
exit_of m after waiting late =
    if ltb 1 (visits m (callbacks false after ++ (callbacks false waiting ++ callbacks false late)))
    then panic
    else done (
        ended (
          if ltb 0 (visits m (callbacks false after ++ callbacks false waiting))
          then none
          else some timeout))

exit-verdict :
    (visited in_time : ℕ)
    → exit (verdict visited in_time) ≡ (
        if ltb 1 visited
        then panic
        else done (ended (if ltb 0 in_time then none else some timeout)))
exit-verdict visited in_time = elim (Bool-cases (ltb 1 visited)) [
  | inl many ↦ rw many refl
  | inr few ↦ rw few refl
]

module _ {Disk Digest TlsConfig : Type 0} (env : Env Disk Digest) where
  pub hangup_reloads :
      (p : Process Disk TlsConfig) → p.handling ≡ true → step env hangup p ≡ done (reload env p)
  unfolding step
  hangup_reloads p h = ap (λ b. done (if b then reload env p else p)) h

  -- The run comes to a process with these clients and the signal handler in its loop.
  abbrev pub Reaches : Run (Process Disk TlsConfig) → Clients → Type 0
  Reaches r c =
      (p : Process Disk TlsConfig) × (r ≡ done p) × (p.server.clients ≡ c) × (p.handling ≡ true)

  -- Until a SIGTERM the events do to the clients what their callbacks do.
  pub steps-quiet :
      (es : List Event) (p : Process Disk TlsConfig) {c : Clients}
      → All IsQuiet es
      → p.handling ≡ true
      → handle_all (callbacks true es) p.server.clients ≡ done c
      → Reaches (steps env es p) c
  unfolding steps step callbacks handle_all
  steps-quiet [] p q h e = (p, refl, cc, h)
  steps-quiet (came ∷ es) p (_, q) h e =
      steps-quiet es (with_clients env p (count_in p.server.clients)) q h e
  steps-quiet (left ∷ es) p (_, q) h e =
      let (c, gone, rest) = and_then-eq-done (client_disconnected p.server.clients) _ e in
      rw gone (steps-quiet es (with_clients env p c) q h rest)
  steps-quiet (hangup ∷ es) p {c} (_, q) h e =
      subst (λ r. Reaches (and_then r (steps env es)) c) (sym (hangup_reloads p h))
        (steps-quiet es (reload env p) q h e)
  steps-quiet (terminate ∷ es) p (q, _) h e = absurd q

  steps-append :
      (es fs : List Event) (p : Process Disk TlsConfig) {p' : Process Disk TlsConfig}
      → steps env es p ≡ done p'
      → steps env (es ++ fs) p ≡ steps env fs p'
  unfolding steps
  steps-append [] fs p e = cc
  steps-append (x ∷ es) fs p e =
      let (p1, first, rest) = and_then-eq-done (step env x p) _ e in
      rw first (steps-append es fs p1 rest)

  -- The SIGTERM stops the clients' counting and ends the handler.
  pub step-terminate :
      (p : Process Disk TlsConfig) {c : Clients}
      → p.handling ≡ true
      → stop p.server.clients ≡ done c
      → step env terminate p ≡ done (record (with_clients env p c) { handling = false })
  unfolding step stop_server
  step-terminate p {c} h e =
      ap
        (λ b.
          if b
          then and_then (and_then (stop p.server.clients) (λ c'. done (with_clients env p c')))
              (λ p'. done (record p' { handling = false }))
          else done p)
        h
      ∙ ap
          (λ r.
            and_then (and_then r (λ c'. done (with_clients env p c')))
              (λ p'. done (record p' { handling = false })))
          e

  -- Once the handler has ended the events are their callbacks.
  steps-callbacks :
      (es : List Event) (p : Process Disk TlsConfig)
      → p.handling ≡ false
      → steps env es p
        ≡ and_then
            (handle_all (callbacks false es) p.server.clients)
            (λ c. done (with_clients env p c))
  unfolding steps step callbacks handle_all
  steps-callbacks [] p h = refl
  steps-callbacks (came ∷ es) p h =
      steps-callbacks es (with_clients env p (count_in p.server.clients)) h
  steps-callbacks (left ∷ es) p h = elim (Run-cases (client_disconnected p.server.clients)) [
    | inl (c, gone) ↦ rw gone (steps-callbacks es (with_clients env p c) h)
    | inr broken ↦ rw broken refl
  ]
  steps-callbacks (hangup ∷ es) p h =
      ap (λ b. and_then (done (if b then reload env p else p)) (steps env es)) h
      ∙ steps-callbacks es p h
  steps-callbacks (terminate ∷ es) p h =
      ap (λ b. and_then (if b then stopped else done p) (steps env es)) h ∙ steps-callbacks es p h
    where
      stopped : Run (Process Disk TlsConfig)
      stopped = and_then (stop_server env p) (λ p'. done (record p' { handling = false }))

  -- Behind the handler's end: the callbacks, and the wait.
  wait-stopped :
      (after waiting late : List Event) (p : Process Disk TlsConfig)
      → p.handling ≡ false
      → and_then (steps env after p) (wait_for_clients env waiting late)
        ≡ exit (
            observed (
              and_then
                (handle_all (callbacks false after) p.server.clients)
                (wait_gracefully (callbacks false waiting) (callbacks false late))))
  unfolding wait_for_clients
  wait-stopped after waiting late p h =
      ap (λ r. and_then r (wait_for_clients env waiting late)) (steps-callbacks after p h)
      ∙ go (handle_all (callbacks false after) p.server.clients)
    where
      go :
          (r : Run Clients)
          → and_then
              (and_then r (λ c. done (with_clients env p c)))
              (wait_for_clients env waiting late)
            ≡ exit (
                observed
                  (and_then r (wait_gracefully (callbacks false waiting) (callbacks false late))))
      go panic = refl
      go (done c) =
          ap
            (λ b.
              and_then
                (wait_gracefully (callbacks b waiting) (callbacks (still_handling b waiting) late)
                  c)
                (λ r. done (ended r.1)))
            h
          ∙ ap
              (λ b.
                and_then (wait_gracefully (callbacks false waiting) (callbacks b late) c)
                  (λ r. done (ended r.1)))
              (still_handling-false waiting)
          ∙ exit-observed (wait_gracefully (callbacks false waiting) (callbacks false late) c)

  steps-terminate :
      (after waiting late : List Event) (p : Process Disk TlsConfig) {k j : ℕ}
      → p.handling ≡ true
      → Traffic p.server.clients.nb_clients (callbacks false after) k
      → Traffic k (callbacks false waiting ++ callbacks false late) j
      → p.server.clients.nb_clients
          + length (callbacks false after)
          + length (callbacks false waiting ++ callbacks false late)
        < u32_mod
      → and_then (steps env (terminate ∷ after) p) (wait_for_clients env waiting late)
        ≡ exit_of p.server.clients.nb_clients after waiting late
  unfolding steps
  steps-terminate after waiting late p h t u few =
      let (c, stopping, drained) =
        wait_gracefully-stop p.server.clients (callbacks false after) (callbacks false waiting)
          (callbacks false late) t u few in
      let stopped = record (with_clients env p c) { handling = false } in
      ap (λ r. and_then (and_then r (steps env after)) (wait_for_clients env waiting late))
        (step-terminate p h stopping)
      ∙ wait-stopped after waiting late stopped refl
      ∙ ap exit drained
      ∙ exit-verdict _ _

  -- The end of a program that is serving and gets a SIGTERM.
  pub serve-terminate :
      (s : Server TlsConfig) (d : Disk) (es after waiting late : List Event) {m k j : ℕ}
      → s.clients ≡ no_clients
      → All IsQuiet es
      → Traffic 0 (callbacks true es) m
      → Traffic m (callbacks false after) k
      → Traffic k (callbacks false waiting ++ callbacks false late) j
      → length es < u32_mod
      → m
          + length (callbacks false after)
          + length (callbacks false waiting ++ callbacks false late)
        < u32_mod
      → serve env (es ++ terminate ∷ after) waiting late (d, started s)
        ≡ exit_of m after waiting late
  unfolding serve no_clients
  serve-terminate s d es after waiting late {m} {k} {j} fresh q t u v few few' =
      let begun : Process Disk TlsConfig = record { server = s; disk = d; handling = true } in
      let (p, ran, clients, handling) = steps-quiet es begun q refl (
        handle_all-Traffic s.clients t (ap (λ c. c.nb_clients) fresh)
          (ap (λ c. c.zero_client_event) fresh) (omega (arith, length-callbacks true es))) in
      let count : p.server.clients.nb_clients ≡ m = ap (λ c. c.nb_clients) clients in
      ap (λ r. and_then r (wait_for_clients env waiting late))
        (steps-append es (terminate ∷ after) begun ran)
      ∙ steps-terminate after waiting late p handling
          (subst (λ n. Traffic n (callbacks false after) k) (sym count) u) v (omega (arith, count))
      ∙ ap (λ n. exit_of n after waiting late) count
