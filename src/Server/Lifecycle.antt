-- ===== src/Server/Lifecycle.antt =====
-- server/server.go: the count of clients and the graceful stop.
pub mod Drain
pub mod Late
pub mod Traffic
use ftpserver.Base.{
  ℕ, zero, suc, ◌+◌, ◌-◌, ◌%◌, ◌^◌, Bool, true, false, ◌&&◌, Option, none, some, List, [], ◌∷◌,
  ◌++◌, ◌==◌, if◌then◌else◌, length, get_elem?, set, Error, timeout, Run, done, panic, and_then,
}

-- A `chan error` with a buffer of one. The only sender closes the channel in the same critical
-- section, so a full buffer is never sent to.
pub record Chan : Type 0 where
  pub buffer : List (Option Error)
  pub closed : Bool

-- `channels` holds every channel that was made: a waiter keeps the one that it began to wait on.
pub record Clients : Type 0 where
  pub nb_clients : ℕ
  pub zero_client_event : Option ℕ
  pub channels : List Chan

abbrev pub u32_mod : ℕ
u32_mod = 2 ^ 32

unfoldable pub no_clients : Clients
no_clients = record { nb_clients = 0; zero_client_event = none; channels = [] }

-- `ch <- nil` and `close(ch)`. Sending on a closed channel panics.
pub send_and_close : Clients → ℕ → Option Chan → Run Clients
send_and_close c p none = panic
send_and_close c p (some ch) =
    if ch.closed
    then panic
    else done (record c {
      channels = set c.channels p (record { buffer = ch.buffer ++ (none ∷ []); closed = true });
    })

pub notify : Clients → Option ℕ → Run Clients
unfolding send_and_close
notify c none = done c
notify c (some p) = send_and_close c p (get_elem? c.channels p)

pub consider_end : Clients → Run Clients
unfolding notify
consider_end c = if c.nb_clients == 0 then notify c c.zero_client_event else done c

-- The counting of `ClientConnected`.
unfoldable pub count_in : Clients → Clients
count_in c = record c { nb_clients = (c.nb_clients + 1) % u32_mod }

-- `ClientDisconnected`; the count is a uint32.
unfoldable pub client_disconnected : Clients → Run Clients
unfolding consider_end
client_disconnected c =
    consider_end (record c { nb_clients = (c.nb_clients + u32_mod - 1) % u32_mod })

-- `Stop`.
unfoldable pub stop : Clients → Run Clients
unfolding consider_end
stop c = consider_end (record c {
  zero_client_event = some (length c.channels);
  channels = c.channels ++ (record { buffer = []; closed = false } ∷ []);
})

-- The callbacks that the FTP library and the signal handler make.
pub data Event : Type 0 where
  connected disconnected stopped : Event

unfoldable pub handle : Event → Clients → Run Clients
unfolding count_in client_disconnected stop
handle connected c = done (count_in c)
handle disconnected c = client_disconnected c
handle stopped c = stop c

unfoldable pub handle_all : List Event → Clients → Run Clients
unfolding handle
handle_all [] c = done c
handle_all (e ∷ es) c = and_then (handle e c) (handle_all es)

-- A receive from one channel: the next value, the zero value of a closed channel, or none yet.
pub receive_chan : Chan → Option (Option Error × Chan)
receive_chan ch = elim ch.buffer [
  | e ∷ rest ↦ some (e, record ch { buffer = rest })
  | [] ↦ if ch.closed then some (none, ch) else none
]

pub received : Clients → ℕ → Option (Option Error × Chan) → Option (Option Error × Clients)
received c p none = none
received c p (some (e, ch)) = some (e, record c { channels = set c.channels p ch })

pub receive_at : Clients → ℕ → Option Chan → Option (Option Error × Clients)
unfolding receive_chan received
receive_at c p none = none
receive_at c p (some ch) = received c p (receive_chan ch)

-- A nil channel never gives a value.
pub receive : Clients → Option ℕ → Option (Option Error × Clients)
unfolding receive_at
receive c none = none
receive c (some p) = receive_at c p (get_elem? c.channels p)

abbrev forget_event : Clients → Clients
forget_event c = record c { zero_client_event = none }

-- The callbacks that come before the waiter's deferred function, and that function.
abbrev pub finish_wait : List Event → Clients → Option Error → Run (Clients × Option Error)
finish_wait es c e = and_then (handle_all es c) (λ c'. done (forget_event c', e))

-- What a ready channel or the next callback does to the waiter.
pub resume :
    Option (Option Error × Clients)
    → List Event
    → Run (Clients × Option Error)
    → Run (Clients × Option Error)
unfolding handle_all
resume none rest next = next
resume (some (e, c)) rest next = finish_wait rest c e

-- The `select` on the channel `ch`, which was read when the wait began. `events` are the callbacks
-- until the timer fires or the waiter has returned, `late` those that come between the timer and
-- the return. Nothing holds the mutex for the waiter: once the channel is ready, the callbacks that
-- are left still find it in the server.
pub wait_on : Option ℕ → (late events : List Event) → Clients → Run (Clients × Option Error)
unfolding receive resume handle handle_all
wait_on ch late [] c = resume (receive c ch) late (finish_wait late c (some timeout))
wait_on ch late (e ∷ events) c =
    resume (receive c ch) (e ∷ events ++ late) (and_then (handle e c) (wait_on ch late events))

-- `WaitGracefully`: the state and the error with which it returns.
unfoldable pub wait_gracefully : (events late : List Event) → Clients → Run (Clients × Option Error)
unfolding wait_on
wait_gracefully events late c = wait_on c.zero_client_event late events c
