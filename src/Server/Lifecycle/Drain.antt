-- ===== src/Server/Lifecycle/Drain.antt =====
-- When `WaitGracefully` of server/server.go returns, and with what.
use mathlib.Core.Path.{ap₂}
use ftpserver.Base.{
  ℕ, zero, suc, ◌+◌, ◌-◌, ◌%◌, ◌<◌, ◌≡◌, refl, sym, true, false, Option, none, some, List, [], ◌∷◌,
  ◌++◌, if◌then◌else◌, length, get_elem?, set, get_elem?-set-some, get_elem?-last, Error, timeout,
  Run, done, panic, and_then, ap, ◌∙◌, inl, inr, ◌⊎◌, ltb, arith,
}
use ftpserver.Server.Lifecycle.Traffic.{
  Traffic, quiet, comes, leaves, Traffic-bound, zeros, visits, zeros-grows,
}
use ftpserver.Server.Lifecycle.{
  notify, send_and_close, handle_all, finish_wait, Chan, Clients, u32_mod, consider_end, count_in,
  client_disconnected, stop, Event, connected, disconnected, stopped, handle, receive_at, receive,
  resume, wait_on, wait_gracefully,
}

abbrev open_chan : Chan
open_chan = record { buffer = []; closed = false }

abbrev pub ended_chan : Chan
ended_chan = record { buffer = none ∷ []; closed = true }

-- The same after a receive.
abbrev read_chan : Chan
read_chan = record { buffer = []; closed = true }

-- A stop waits for `n` clients, on channel `p`.
pub record IsDraining (p n : ℕ) (c : Clients) : Type 0 where
  pub event : c.zero_client_event ≡ some p
  pub channel : get_elem? c.channels p ≡ some open_chan
  pub count : c.nb_clients ≡ n

-- The last client has gone, and the channel holds the nil error.
pub record IsEnded (p : ℕ) (c : Clients) : Type 0 where
  pub event : c.zero_client_event ≡ some p
  pub channel : get_elem? c.channels p ≡ some ended_chan
  pub count : c.nb_clients ≡ 0

count_in-IsDraining :
    (p n : ℕ) (c : Clients) → IsDraining p n c → n + 1 < u32_mod → IsDraining p (suc n) (count_in c)
unfolding count_in
count_in-IsDraining p n c d h = record {
  event = d.event;
  channel = d.channel;
  count = omega (arith, d.count);
}

consider_end-busy : (p n : ℕ) (c : Clients) → IsDraining p (suc n) c → consider_end c ≡ done c
unfolding consider_end
consider_end-busy p n c d = ground arith

consider_end-last :
    (p : ℕ) (c : Clients)
    → IsDraining p zero c
    → (c' : Clients) × (consider_end c ≡ done c') × IsEnded p c'
unfolding consider_end
consider_end-last p c d = (
  record c { channels = set c.channels p ended_chan },
  ground arith,
  record {
    event = d.event;
    channel = get_elem?-set-some c.channels p ended_chan d.channel;
    count = d.count;
  },
)

count_out-IsDraining :
    (p n : ℕ) (c : Clients)
    → IsDraining p (suc n) c
    → suc n < u32_mod
    → IsDraining p n (record c { nb_clients = (c.nb_clients + u32_mod - 1) % u32_mod })
count_out-IsDraining p n c d h = record {
  event = d.event;
  channel = d.channel;
  count = omega (arith, d.count);
}

client_disconnected-busy :
    (p n : ℕ) (c : Clients)
    → IsDraining p (suc (suc n)) c
    → suc (suc n) < u32_mod
    → (c' : Clients) × (client_disconnected c ≡ done c') × IsDraining p (suc n) c'
unfolding client_disconnected
client_disconnected-busy p n c d h =
    let d' = count_out-IsDraining p (suc n) c d h in (_, consider_end-busy p n _ d', d')

client_disconnected-last :
    (p : ℕ) (c : Clients)
    → IsDraining p 1 c
    → (c' : Clients) × (client_disconnected c ≡ done c') × IsEnded p c'
unfolding client_disconnected
client_disconnected-last p c d =
    consider_end-last p _ (count_out-IsDraining p zero c d (omega arith))

-- The state in which `Stop` looks at the count.
abbrev armed : Clients → Clients
armed c = record c {
  zero_client_event = some (length c.channels);
  channels = c.channels ++ (open_chan ∷ []);
}

stop-IsDraining :
    (n : ℕ) (c : Clients) → c.nb_clients ≡ n → IsDraining (length c.channels) n (armed c)
stop-IsDraining n c e = record {
  event = refl;
  channel = get_elem?-last c.channels open_chan;
  count = e;
}

receive-IsDraining : (p n : ℕ) (c : Clients) → IsDraining p n c → receive c (some p) ≡ none
unfolding receive
receive-IsDraining p n c d = rw (d.channel, receive_at)

pub stop_last :
    (c : Clients)
    → c.nb_clients ≡ 0
    → (c' : Clients) × (stop c ≡ done c') × IsEnded (length c.channels) c'
unfolding stop
stop_last c e = consider_end-last (length c.channels) (armed c) (stop-IsDraining 0 c e)

stop_busy :
    (m : ℕ) (c : Clients)
    → c.nb_clients ≡ suc m
    → (c' : Clients) × (stop c ≡ done c') × IsDraining (length c.channels) (suc m) c'
unfolding stop
stop_busy m c e =
    let d = stop-IsDraining (suc m) c e in
    (armed c, consider_end-busy (length c.channels) m (armed c) d, d)

-- The last client has gone once, on channel `p`, and `n` clients are connected.
record IsClosed (p n : ℕ) (c : Clients) : Type 0 where
  pub event : c.zero_client_event ≡ some p
  pub channel :
      (get_elem? c.channels p ≡ some ended_chan) ⊎ (get_elem? c.channels p ≡ some read_chan)
  pub count : c.nb_clients ≡ n

-- The state after a stop, when the count has been zero `z` times since.
abbrev Phase : (p z n : ℕ) → Clients → Type 0
Phase p zero zero c = ⊥
Phase p zero (suc n) c = IsDraining p (suc n) c
Phase p (suc zero) n c = IsClosed p n c
Phase p (suc (suc z)) n c = ⊥

abbrev Ran : (p z n : ℕ) → Run Clients → Type 0
Ran p z n r = ((z < 2) × ((c : Clients) × (r ≡ done c) × Phase p z n c)) ⊎ ((1 < z) × (r ≡ panic))

IsEnded-IsClosed : (p : ℕ) (c : Clients) → IsEnded p c → IsClosed p 0 c
IsEnded-IsClosed p c d = record { event = d.event; channel = inl d.channel; count = d.count }

consider_end-closed_busy : (c : Clients) {n : ℕ} → c.nb_clients ≡ suc n → consider_end c ≡ done c
unfolding consider_end
consider_end-closed_busy c count = ground arith

consider_end-closed : (p : ℕ) (c : Clients) → IsClosed p 0 c → consider_end c ≡ panic
unfolding consider_end notify send_and_close
consider_end-closed p c d = ground (arith, d.count, d.event, d.channel)

count_out-IsClosed :
    (p n : ℕ) (c : Clients)
    → IsClosed p (suc n) c
    → suc n < u32_mod
    → IsClosed p n (record c { nb_clients = (c.nb_clients + u32_mod - 1) % u32_mod })
count_out-IsClosed p n c d h = record {
  event = d.event;
  channel = d.channel;
  count = omega (arith, d.count);
}

count_in-IsClosed :
    (p n : ℕ) (c : Clients) → IsClosed p n c → n + 1 < u32_mod → IsClosed p (suc n) (count_in c)
unfolding count_in
count_in-IsClosed p n c d h = record {
  event = d.event;
  channel = d.channel;
  count = omega (arith, d.count);
}

-- What the callbacks do after a stop: the second time that the last client leaves, the server panics.
handle_all-Phase :
    (p z : ℕ) {n m : ℕ} {es : List Event} (c : Clients)
    → Traffic n es m
    → Phase p z n c
    → n + length es < u32_mod
    → Ran p (zeros z n es) m (handle_all es c)
unfolding handle_all zeros client_disconnected
handle_all-Phase p zero {n = zero} c t d h = absurd d
handle_all-Phase p zero {n = suc n} c quiet d h = inl (omega arith, (c, refl, d))
handle_all-Phase p zero {n = suc n} c (comes t) d h =
    handle_all-Phase p zero (count_in c) t (count_in-IsDraining p (suc n) c d (omega arith))
      (omega arith)
handle_all-Phase p zero {n = suc zero} {es = disconnected ∷ es} c (leaves t) d h =
    let (c', gone, ended) = consider_end-last p _ (count_out-IsDraining p zero c d (omega arith)) in
    rw gone (handle_all-Phase p 1 c' t (IsEnded-IsClosed p c' ended) (omega arith))
handle_all-Phase p zero {n = suc (suc n)} {es = disconnected ∷ es} c (leaves t) d h =
    let d' = count_out-IsDraining p (suc n) c d (omega arith) in
    rw (consider_end-busy p n _ d') (handle_all-Phase p zero _ t d' (omega arith))
handle_all-Phase p (suc zero) c quiet d h = inl (omega arith, (c, refl, d))
handle_all-Phase p (suc zero) {n = n} c (comes t) d h =
    handle_all-Phase p 1 (count_in c) t (count_in-IsClosed p n c d (omega arith)) (omega arith)
handle_all-Phase p (suc zero) {n = suc zero} {es = disconnected ∷ es} c (leaves t) d h =
    let d' = count_out-IsClosed p zero c d (omega arith) in
    inr (
      omega (arith, zeros-grows 2 zero es),
      let left = record c { nb_clients = (c.nb_clients + u32_mod - 1) % u32_mod } in
          ap (λ r. and_then r (handle_all es)) (consider_end-closed p left d'),
    )
handle_all-Phase p (suc zero) {n = suc (suc n)} {es = disconnected ∷ es} c (leaves t) d h =
    let d' = count_out-IsClosed p (suc n) c d (omega arith) in
    let left = record c { nb_clients = (c.nb_clients + u32_mod - 1) % u32_mod } in
    rw (consider_end-closed_busy left d'.count) (handle_all-Phase p 1 left t d' (omega arith))
handle_all-Phase p (suc (suc z)) c t d h = absurd d

receive-IsClosed :
    (p n : ℕ) (c : Clients)
    → IsClosed p n c
    → (c' : Clients) × (receive c (some p) ≡ some (none, c')) × IsClosed p n c'
unfolding receive receive_at
receive-IsClosed p n c d =
    let c' : Clients = record c { channels = set c.channels p read_chan } in
    elim d.channel [
      | inl full ↦ (
        c',
        rw full refl,
        record {
          event = d.event;
          channel = inr (get_elem?-set-some c.channels p read_chan full);
          count = d.count;
        },
      )
      | inr read ↦ (
        c',
        rw read refl,
        record {
          event = d.event;
          channel = inr (get_elem?-set-some c.channels p read_chan read);
          count = d.count;
        },
      )
    ]

-- What a wait is observed by: the channel that is left in the server, and the error.
abbrev pub observed : Run (Clients × Option Error) → Run (Option ℕ × Option Error)
observed r = and_then r (λ (c, e). done (c.zero_client_event, e))

abbrev pub verdict : (visited in_time : ℕ) → Run (Option ℕ × Option Error)
verdict visited in_time =
    if ltb 1 visited then panic else done (none, if ltb 0 in_time then none else some timeout)

finish_wait-Ran :
    (p z m in_time : ℕ) (es : List Event) (c : Clients) (e : Option Error)
    → Ran p z m (handle_all es c)
    → e ≡ (if ltb 0 in_time then none else some timeout)
    → observed (finish_wait es c e) ≡ verdict z in_time
finish_wait-Ran p z m in_time es c e ran same = elim ran [
  | inl (few, (c', went, _)) ↦ ground (arith, went, same, few)
  | inr (many, broken) ↦ ground (arith, broken, many)
]

-- The channel is ready: what is left of the callbacks comes before the waiter.
wait_on-ready :
    (p : ℕ) {n m : ℕ} (es late : List Event) (c : Clients)
    → Traffic n (es ++ late) m
    → IsClosed p n c
    → n + length (es ++ late) < u32_mod
    → observed (wait_on (some p) late es c) ≡ verdict (zeros 1 n (es ++ late)) (zeros 1 n es)
unfolding wait_on resume zeros
wait_on-ready p {n} {m} [] late c t d h =
    let (c', got, d') = receive-IsClosed p n c d in
    rw got
      (finish_wait-Ran p (zeros 1 n late) m 1 late c' none (handle_all-Phase p 1 c' t d' h) refl)
wait_on-ready p {n} {m} (e ∷ es) late c t d h =
    let (c', got, d') = receive-IsClosed p n c d in
    rw got (
      finish_wait-Ran p (zeros 1 n (e ∷ es ++ late)) m (zeros 1 n (e ∷ es)) (e ∷ es ++ late) c' none
        (handle_all-Phase p 1 c' t d' h) (ground (arith, zeros-grows 1 n (e ∷ es))))

wait_on-Phase :
    (p : ℕ) {n m : ℕ} (es late : List Event) (c : Clients)
    → Traffic (suc n) (es ++ late) m
    → IsDraining p (suc n) c
    → suc n + length (es ++ late) < u32_mod
    → observed (wait_on (some p) late es c)
      ≡ verdict (zeros 0 (suc n) (es ++ late)) (zeros 0 (suc n) es)
unfolding wait_on resume zeros handle client_disconnected
wait_on-Phase p {n} {m} [] late c t d h =
    rw (receive-IsDraining p (suc n) c d)
      (finish_wait-Ran p _ m 0 late c (some timeout) (handle_all-Phase p 0 c t d h) refl)
wait_on-Phase p {n} (connected ∷ es) late c (comes t) d h = rw (receive-IsDraining p (suc n) c d) (
    wait_on-Phase p es late (count_in c) t (count_in-IsDraining p (suc n) c d (omega arith))
      (omega arith))
wait_on-Phase p {n = zero} (disconnected ∷ es) late c (leaves t) d h =
    let (c', gone, ended) = consider_end-last p _ (count_out-IsDraining p zero c d (omega arith)) in
    rw (receive-IsDraining p 1 c d, gone)
      (wait_on-ready p es late c' t (IsEnded-IsClosed p c' ended) (omega arith))
wait_on-Phase p {n = suc n} (disconnected ∷ es) late c (leaves t) d h =
    let left = record c { nb_clients = (c.nb_clients + u32_mod - 1) % u32_mod } in
    let d' = count_out-IsDraining p (suc n) c d (omega arith) in
    rw (receive-IsDraining p (suc (suc n)) c d, consider_end-busy p n left d')
      (wait_on-Phase p es late left t d' (omega arith))
wait_on-Phase p (stopped ∷ es) late c t d h = elim t [ ]

zeros-append :
    (z : ℕ) {n m : ℕ} (es fs : List Event)
    → Traffic n es m
    → zeros z n (es ++ fs) ≡ zeros (zeros z n es) m fs
unfolding zeros
zeros-append z [] fs quiet = refl
zeros-append z (connected ∷ es) fs (comes t) = zeros-append z es fs t
zeros-append z {n = suc zero} (disconnected ∷ es) fs (leaves t) = zeros-append (suc z) es fs t
zeros-append z {n = suc (suc n)} (disconnected ∷ es) fs (leaves t) = zeros-append z es fs t
zeros-append z {n = zero} (disconnected ∷ es) fs t = elim t [ ]
zeros-append z (stopped ∷ es) fs t = elim t [ ]

wait_gracefully-Phase :
    (p z : ℕ) {n m : ℕ} (es late : List Event) (c : Clients)
    → Traffic n (es ++ late) m
    → Phase p z n c
    → n + length (es ++ late) < u32_mod
    → observed (wait_gracefully es late c) ≡ verdict (zeros z n (es ++ late)) (zeros z n es)
unfolding wait_gracefully
wait_gracefully-Phase p zero {n = zero} es late c t d h = absurd d
wait_gracefully-Phase p zero {n = suc n} es late c t d h =
    ap (λ ch. observed (wait_on ch late es c)) d.event ∙ wait_on-Phase p es late c t d h
wait_gracefully-Phase p (suc zero) es late c t d h =
    ap (λ ch. observed (wait_on ch late es c)) d.event ∙ wait_on-ready p es late c t d h
wait_gracefully-Phase p (suc (suc z)) es late c t d h = absurd d

-- From a phase on: the callbacks before the wait, and the wait.
drain-Phase :
    (p z : ℕ) {n k m : ℕ} (before es late : List Event) (c : Clients)
    → Traffic n before k
    → Traffic k (es ++ late) m
    → Phase p z n c
    → n + length before + length (es ++ late) < u32_mod
    → observed (and_then (handle_all before c) (wait_gracefully es late))
      ≡ verdict (zeros z n (before ++ (es ++ late))) (zeros z n (before ++ es))
drain-Phase p z {n} {k} {m} before es late c t u d h =
    let z' = zeros z n before in
    elim (handle_all-Phase p z c t d (omega arith)) [
      | inl (few, (c', went, d')) ↦
          ap (λ r. observed (and_then r (wait_gracefully es late))) went
          ∙ wait_gracefully-Phase p z' es late c' u d' (omega (arith, Traffic-bound t))
          ∙ ap₂ verdict (sym (zeros-append z before (es ++ late) t))
              (sym (zeros-append z before es t))
      | inr (many, broken) ↦
          ap (λ r. observed (and_then r (wait_gracefully es late))) broken
          ∙ ground
              (arith, many, zeros-grows z' k (es ++ late), zeros-append z before (es ++ late) t)
    ]

drain_from :
    (n : ℕ) {k m : ℕ} (c : Clients) (before es late : List Event)
    → c.nb_clients ≡ n
    → Traffic n before k
    → Traffic k (es ++ late) m
    → n + length before + length (es ++ late) < u32_mod
    → (c' : Clients) × (stop c ≡ done c')
      × (observed (and_then (handle_all before c') (wait_gracefully es late))
          ≡ verdict (visits n (before ++ (es ++ late))) (visits n (before ++ es)))
unfolding visits
drain_from zero c before es late e t u h =
    let (c', stopping, ended) = stop_last c e in
    (
      c',
      stopping,
      drain-Phase (length c.channels) 1 before es late c' t u (IsEnded-IsClosed _ c' ended) h,
    )
drain_from (suc n) c before es late e t u h =
    let (c', stopping, draining) = stop_busy n c e in
    (c', stopping, drain-Phase (length c.channels) 0 before es late c' t u draining h)

-- `Stop`, then callbacks `before`, then `WaitGracefully`, with callbacks `es` until the timer fires
-- or the waiter has returned, and `late` between the timer and the return, while clients come and
-- leave. How it ends is a matter of how often no client is connected, at the `Stop` or after a
-- client has left: if twice or more, `ClientDisconnected` panics on the closed channel. Else the
-- wait returns, without an error exactly if that was once before the timer, and with `ErrTimeout` if
-- not, and leaves the server without a channel. The callbacks hold no other `Stop`, and the clients
-- are fewer than a uint32 counts.
pub wait_gracefully-stop :
    (c : Clients) (before es late : List Event) {k m : ℕ}
    → Traffic c.nb_clients before k
    → Traffic k (es ++ late) m
    → c.nb_clients + length before + length (es ++ late) < u32_mod
    → (c' : Clients) × (stop c ≡ done c')
      × (observed (and_then (handle_all before c') (wait_gracefully es late)) ≡ (
          if ltb 1 (visits c.nb_clients (before ++ (es ++ late)))
          then panic
          else done
              (none, if ltb 0 (visits c.nb_clients (before ++ es)) then none else some timeout)))
wait_gracefully-stop c before es late t u h = drain_from c.nb_clients c before es late refl t u h
