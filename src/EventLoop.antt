-- ===== src/EventLoop.antt =====
-- server_linux.go and timeout.go: the epoll event loop, `handleConn`. What lies
-- outside the loop, the kernel and the application's callbacks, is a state `σ` that the loop acts
-- on through an `Env`; what the kernel answers is an argument of each step.
pub mod Trace
pub mod Sweeps
pub mod Balance
pub mod Kept
pub mod Deadlines
pub mod Kqueue
pub mod Orders
pub mod Tallies
use io_mutiplexing.Common.{
  ℕ, ◌+◌, ◌-◌, ◌*◌, ◌/◌, ◌^◌, Bool, true, false, not, ◌||◌, List, [], ◌∷◌, Option, none, some,
  Bytes, ltb, ◌==◌, if◌then◌else◌, length,
}
use io_mutiplexing.Common.Maps.{insert, delete}

-- Times are in nanoseconds.
abbrev pub second : ℕ
second = 1000000000

abbrev pub idle_timeout : ℕ
idle_timeout = 30 * second

abbrev pub sweep_tick : ℕ
sweep_tick = 1 * second

-- The callbacks of an `EventHandler` (`Connect` and `Disconnect` may be nil) and the system calls
-- on a client's descriptor.
pub record Env (σ : Type 0) : Type 0 where
  pub connect : Option (ℕ → σ → σ)
  pub deliver : ℕ → Bytes → σ → σ
  pub disconnect : Option (ℕ → σ → σ)
  pub accept : ℕ → σ → σ
  pub watch : ℕ → σ → σ
  pub unwatch : ℕ → σ → σ
  pub close : ℕ → σ → σ

pub record Loop (σ : Type 0) : Type 0 where
  pub deadlines : List (ℕ × ℕ)
  pub next_sweep : ℕ
  pub env : σ

-- The loop as `Run` enters it, at the time `now`.
abbrev pub start : {σ : Type 0} → ℕ → σ → Loop σ
start now s = record { deadlines = []; next_sweep = now + sweep_tick; env = s }

-- A connection that `Accept4` returned: its descriptor, whether `epollAdd` took it, and the time.
pub record Accepted : Type 0 where
  pub fd : ℕ
  pub added : Bool
  pub now : ℕ

-- A ready descriptor: the listener, with the connections up to EAGAIN, or a client, with the
-- result of the `Read` in `handleConn` (`none` is an error).
pub data Event : Type 0 where
  listener_ready : List Accepted → Event
  client_ready : ℕ → Option Bytes → Event

-- The result of `EpollWait`; `ready` has the time that the sweep reads.
pub data Wait : Type 0 where
  interrupted failed : Wait
  ready : List Event → ℕ → Wait

pub data Run {ℓ} (S : Type ℓ) : Type ℓ where
  returned : S → Run S
  running : S → Run S

-- The timeout of `EpollWait` in milliseconds, at least one.
unfoldable pub wait_ms : ℕ → ℕ → ℕ
wait_ms next_sweep now = let ms = (next_sweep - now) / 1000000 in if ltb ms 1 then 1 else ms

module _ {σ : Type 0} (e : Env σ) where
  abbrev pub call : Option (ℕ → σ → σ) → ℕ → σ → σ
  call none fd s = s
  call (some f) fd s = f fd s

  -- `handleConn` behind its `Read`.
  abbrev pub on_read : ℕ → Option Bytes → σ → σ
  on_read fd none s = e.close fd (call e.disconnect fd s)
  on_read fd (some []) s = e.close fd (call e.disconnect fd s)
  on_read fd (some (b ∷ bytes)) s = e.close fd (call e.disconnect fd (e.deliver fd (b ∷ bytes) s))

  unfoldable pub handle_conn : ℕ → Option Bytes → σ → σ
  handle_conn fd read s = on_read fd read (call e.connect fd s)

  -- One round of the accept loop.
  unfoldable pub accept_one : Accepted → Loop σ → Loop σ
  unfolding insert
  accept_one a l =
      let s = e.accept a.fd l.env in
      if a.added
      then record l {
        deadlines = insert a.fd (a.now + idle_timeout) l.deadlines;
        env = e.watch a.fd s;
      }
      else record l { env = e.close a.fd s }

  unfoldable pub accept_all : List Accepted → Loop σ → Loop σ
  unfolding accept_one
  accept_all [] l = l
  accept_all (a ∷ rest) l = accept_all rest (accept_one a l)

  unfoldable pub serve_client : ℕ → Option Bytes → Loop σ → Loop σ
  unfolding delete handle_conn
  serve_client fd read l = record l {
    deadlines = delete fd l.deadlines;
    env = handle_conn fd read (e.unwatch fd l.env);
  }

  unfoldable pub on_event : Event → Loop σ → Loop σ
  unfolding accept_all serve_client
  on_event (listener_ready conns) l = accept_all conns l
  on_event (client_ready fd read) l = serve_client fd read l

  unfoldable pub on_events : List Event → Loop σ → Loop σ
  unfolding on_event
  on_events [] l = l
  on_events (v ∷ vs) l = on_events vs (on_event v l)

  -- An entry past its deadline is left out of what the rest of the sweep keeps.
  abbrev pub expire_one : Bool → ℕ → ℕ → List (ℕ × ℕ) × σ → List (ℕ × ℕ) × σ
  expire_one past fd deadline r = (if past then r.0 else (fd, deadline) ∷ r.0, r.1)

  -- The sweep over the entries of the map, at the time `now`; what it keeps, it keeps in order.
  unfoldable pub expire : ℕ → List (ℕ × ℕ) → σ → List (ℕ × ℕ) × σ
  expire now [] s = ([], s)
  expire now ((fd, deadline) ∷ m) s =
      expire_one (ltb deadline now) fd deadline
        (expire now m (if ltb deadline now then e.close fd (e.unwatch fd s) else s))

  unfoldable pub sweep : ℕ → Loop σ → Loop σ
  unfolding expire
  sweep now l = if ltb now l.next_sweep then l else record {
    deadlines = (expire now l.deadlines l.env).0;
    next_sweep = now + sweep_tick;
    env = (expire now l.deadlines l.env).1;
  }

  unfoldable pub run : List Wait → Loop σ → Run (Loop σ)
  unfolding on_events sweep
  run [] l = running l
  run (interrupted ∷ ws) l = run ws l
  run (failed ∷ ws) l = returned l
  run (ready vs now ∷ ws) l = run ws (sweep now (on_events vs l))
