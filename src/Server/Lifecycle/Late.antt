-- ===== src/Server/Lifecycle/Late.antt =====
-- The count of clients in server/server.go without a stop, and after the end of one.
use mathlib.Core.Path.{subst}
use ftpserver.Base.{
  ℕ, zero, suc, ◌+◌, ◌-◌, ◌%◌, ◌<◌, ◌≡◌, refl, sym, true, none, some, List, [], ◌∷◌, length,
  get_elem?, timeout, Run, done, ap, ◌++◌, Option, Error, panic, and_then, arith,
}
use ftpserver.Server.Lifecycle.{
  Chan, Clients, u32_mod, consider_end, notify, send_and_close, count_in, Event, connected, stopped,
  handle, handle_all, wait_on, wait_gracefully, forget_event, finish_wait,
}
use ftpserver.Server.Lifecycle.Traffic.{Traffic, quiet, comes, leaves}
use ftpserver.Server.Lifecycle.Drain.{stop_last}

pub consider_end-quiet : (c : Clients) → c.zero_client_event ≡ none → consider_end c ≡ done c
unfolding consider_end
consider_end-quiet c event = ground arith

-- Without a stop no callback panics or makes a channel, and the counter holds the number of
-- clients that are connected, as long as a uint32 can count them.
pub handle_all-Traffic :
    {n m : ℕ} {es : List Event} (c : Clients)
    → Traffic n es m
    → c.nb_clients ≡ n
    → c.zero_client_event ≡ none
    → n + length es < u32_mod
    → handle_all es c ≡ done (record c { nb_clients = m })
unfolding handle_all
handle_all-Traffic c quiet count event h = ground arith
handle_all-Traffic c (comes t) count event h =
    handle_all-Traffic (count_in c) t (omega (arith, count)) event (omega arith)
handle_all-Traffic c (leaves t) count event h =
    let left = record c { nb_clients = (c.nb_clients + u32_mod - 1) % u32_mod } in
    rw (consider_end-quiet left event)
      (handle_all-Traffic left t (omega (arith, count)) event (omega arith))

last_panics :
    (c : Clients) {p : ℕ} {ch : Chan}
    → c.nb_clients ≡ 0
    → c.zero_client_event ≡ some p
    → get_elem? c.channels p ≡ some ch
    → ch.closed ≡ true
    → consider_end c ≡ panic
unfolding consider_end notify send_and_close
last_panics c count event found closed = ground arith

consider_end-busy : (c : Clients) {n : ℕ} → c.nb_clients ≡ suc n → consider_end c ≡ done c
unfolding consider_end
consider_end-busy c count = ground arith

closed_panics :
    {n : ℕ} {es : List Event} (c : Clients) {p : ℕ} {ch : Chan}
    → Traffic (suc n) es 0
    → c.nb_clients ≡ suc n
    → c.zero_client_event ≡ some p
    → get_elem? c.channels p ≡ some ch
    → ch.closed ≡ true
    → suc n + length es < u32_mod
    → handle_all es c ≡ panic
unfolding handle_all
closed_panics c (comes t) count event found closed h =
    closed_panics (count_in c) t (omega (arith, count)) event found closed (omega arith)
closed_panics {n = zero} c (leaves t) count event found closed h =
    let left = record c { nb_clients = (c.nb_clients + u32_mod - 1) % u32_mod } in
    rw (last_panics left (omega (arith, count)) event found closed) refl
closed_panics {n = suc n} c (leaves t) count event found closed h =
    let left = record c { nb_clients = (c.nb_clients + u32_mod - 1) % u32_mod } in
    let fewer : left.nb_clients ≡ suc n = omega (arith, count) in
    rw (consider_end-busy left fewer) (closed_panics left t fewer event found closed (omega arith))

-- If no client is connected when `Stop` is called and clients come after it and have all left again
-- before the wait has ended, in whatever order, the server has panicked: `ClientDisconnected` sends
-- on the closed channel. The clients are fewer than a uint32 counts.
pub late_client_panics :
    (c : Clients) {es : List Event}
    → c.nb_clients ≡ 0
    → Traffic 1 es 0
    → 1 + length es < u32_mod
    → handle_all (stopped ∷ connected ∷ es) c ≡ panic
unfolding handle_all
late_client_panics c count t h =
    let (c', stopping, ended) = stop_last c count in
    rw stopping
      (closed_panics (count_in c') t (omega (arith, ended.count)) ended.event ended.channel refl h)

and_then-map :
    {A : Type 0} (r : Run Clients) (f : Clients → Run Clients) (g : Clients → Run A) {c' : Clients}
    {x : Run A}
    → ((d : Clients) → f d ≡ done c' → g d ≡ x)
    → and_then r f ≡ done c'
    → and_then r g ≡ x
and_then-map (done d) f g step h = step d h
and_then-map panic f g step h = cc

finish_wait-done :
    (late : List Event) (c : Clients) {c' : Clients} (e : Option Error)
    → handle_all late c ≡ done c'
    → finish_wait late c e ≡ done (forget_event c', e)
unfolding handle_all
finish_wait-done late c e h = ap (λ r. and_then r (λ k. done (forget_event k, e))) h

wait_on-nil :
    (es late : List Event) (c c' : Clients)
    → handle_all (es ++ late) c ≡ done c'
    → wait_on none late es c ≡ done (forget_event c', some timeout)
unfolding wait_on handle_all
wait_on-nil [] late c c' h = finish_wait-done late c (some timeout) h
wait_on-nil (e ∷ es) late c c' h =
    and_then-map (handle e c) (handle_all (es ++ late)) _ (λ d k. wait_on-nil es late d c' k) h

-- A `WaitGracefully` that no `Stop` came before lasts until the timer fires and returns
-- `ErrTimeout`, whatever the callbacks in the meantime are, also if a `Stop` is among them or all
-- clients leave.
pub wait_gracefully_unstopped :
    (c c' : Clients) (es late : List Event)
    → c.zero_client_event ≡ none
    → handle_all (es ++ late) c ≡ done c'
    → wait_gracefully es late c ≡ done (record c' { zero_client_event = none }, some timeout)
unfolding wait_gracefully
wait_gracefully_unstopped c c' es late event h =
    subst (λ ch. wait_on ch late es c ≡ done (forget_event c', some timeout)) (sym event)
      (wait_on-nil es late c c' h)
