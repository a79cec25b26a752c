-- ===== src/EventLoop/Kqueue.antt =====
-- server_darwin.go: the kqueue event loop, as it is written there, against the loop of server_linux.go.
-- It differs from that loop in two things: it never unregisters a descriptor, since a close does that,
-- and its wait is not rounded.
use io_mutiplexing.Common.{
  ℕ, ◌+◌, ◌-◌, ◌<◌, ◌≡◌, ◌==◌, refl, arith, Bool, true, List, [], ◌∷◌, All, Option, none, some,
  Bytes, length, if◌then◌else◌,
}
use mathlib.Core.Path.{subst}
use io_mutiplexing.Common.{sym, ap, ◌∙◌, not, ltb, leb, Bool-cases, inl, inr}
use io_mutiplexing.Common.Maps.{insert, delete}
use io_mutiplexing.EventLoop.{
  Env, Loop, Wait, Run, call, handle_conn, run, start, sweep_tick, idle_timeout, Accepted, Event,
  listener_ready, client_ready, interrupted, failed, ready, returned, running, accept_one,
  accept_all, on_event, on_events, serve_client, expire, sweep,
}
use io_mutiplexing.EventLoop.Trace.{Log, IsFaithful}
use io_mutiplexing.EventLoop.Balance.{Honest, IsBalanced, loop_of, run-IsBalanced}
use io_mutiplexing.EventLoop.Deadlines.{IsMonotone, last_wake, run-last_wake}

-- The nanoseconds that `Kevent` waits for, none when the sweep is overdue.
unfoldable pub kqueue_wait : ℕ → ℕ → ℕ
kqueue_wait next_sweep now = next_sweep - now

-- The system calls of the loop: `accept` is `Accept` with `SetNonblock`, `watch` is `kqueueAdd`.
abbrev pub kqueue_env : {σ : Type 0} → Env σ → Env σ
kqueue_env e = record e { unwatch = λ fd s. s }

-- The read failed or was empty.
abbrev is_ended : Option Bytes → Bool
is_ended none = true
is_ended (some bytes) = length bytes == 0

abbrev bytes_of : Option Bytes → Bytes
bytes_of none = []
bytes_of (some bytes) = bytes

abbrev hang_up : {σ : Type 0} → Env σ → ℕ → σ → σ
hang_up e fd s = e.close fd (call e e.disconnect fd s)

-- `handleConn` of server_darwin.go.
unfoldable pub kqueue_conn : {σ : Type 0} → Env σ → ℕ → Option Bytes → σ → σ
kqueue_conn e fd read s =
    let s2 = call e e.connect fd s in
    if is_ended read then hang_up e fd s2 else hang_up e fd (e.deliver fd (bytes_of read) s2)

module _ {σ : Type 0} (e : Env σ) where
  -- One round of the accept loop: a connection that the kqueue refuses is closed.
  unfoldable pub kqueue_accept : Accepted → Loop σ → Loop σ
  unfolding insert
  kqueue_accept a l =
      let watched = e.watch a.fd (e.accept a.fd l.env) in
      let deadlines = insert a.fd (a.now + idle_timeout) l.deadlines in
      if not a.added
      then record l { env = e.close a.fd (e.accept a.fd l.env) }
      else record l { deadlines = deadlines; env = watched }

  unfoldable pub kqueue_accepts : List Accepted → Loop σ → Loop σ
  unfolding kqueue_accept
  kqueue_accepts [] l = l
  kqueue_accepts (a ∷ rest) l = kqueue_accepts rest (kqueue_accept a l)

  -- The events of one wait. A client's descriptor leaves the kqueue when it is closed.
  unfoldable pub kqueue_events : List Event → Loop σ → Loop σ
  unfolding kqueue_accepts kqueue_conn delete
  kqueue_events [] l = l
  kqueue_events (listener_ready conns ∷ vs) l = kqueue_events vs (kqueue_accepts conns l)
  kqueue_events (client_ready fd read ∷ vs) l =
      kqueue_events vs
        (record l { deadlines = delete fd l.deadlines; env = kqueue_conn e fd read l.env })

  -- The sweep over the entries of the map: what is closed, and what is kept.
  unfoldable pub kqueue_closed : ℕ → List (ℕ × ℕ) → σ → σ
  kqueue_closed now [] s = s
  kqueue_closed now ((fd, deadline) ∷ m) s =
      kqueue_closed now m (if ltb deadline now then e.close fd s else s)

  unfoldable pub kqueue_kept : ℕ → List (ℕ × ℕ) → List (ℕ × ℕ)
  kqueue_kept now [] = []
  kqueue_kept now ((fd, deadline) ∷ m) =
      let kept = kqueue_kept now m in if ltb deadline now then kept else (fd, deadline) ∷ kept

  unfoldable pub kqueue_sweep : ℕ → Loop σ → Loop σ
  unfolding kqueue_closed kqueue_kept
  kqueue_sweep now l =
      let swept : Loop σ = record {
        deadlines = kqueue_kept now l.deadlines;
        next_sweep = now + sweep_tick;
        env = kqueue_closed now l.deadlines l.env;
      } in
      if leb l.next_sweep now then swept else l

  -- The loop of `Run` in server_darwin.go.
  unfoldable pub run_kqueue : List Wait → Loop σ → Run (Loop σ)
  unfolding kqueue_events kqueue_sweep
  run_kqueue [] l = running l
  run_kqueue (interrupted ∷ ws) l = run_kqueue ws l
  run_kqueue (failed ∷ ws) l = returned l
  run_kqueue (ready vs now ∷ ws) l = run_kqueue ws (kqueue_sweep now (kqueue_events vs l))

-- The two POSIX loops handle a client that is ready in the same way.
pub handle_conn-kqueue_conn :
    {σ : Type 0} (e : Env σ) (fd : ℕ) (read : Option Bytes) (s : σ)
    → handle_conn (kqueue_env e) fd read s ≡ kqueue_conn e fd read s
unfolding handle_conn kqueue_conn
handle_conn-kqueue_conn e fd none s = refl
handle_conn-kqueue_conn e fd (some []) s = refl
handle_conn-kqueue_conn e fd (some (b ∷ bytes)) s = ground arith

module _ {σ : Type 0} (e : Env σ) where
  accept_one-kqueue_accept :
      (a : Accepted) (l : Loop σ) → kqueue_accept e a l ≡ accept_one (kqueue_env e) a l
  unfolding kqueue_accept accept_one
  accept_one-kqueue_accept a l = elim (Bool-cases a.added) [
    | inl added ↦ rw added refl
    | inr refused ↦ rw refused refl
  ]

  accept_all-kqueue_accepts :
      (conns : List Accepted) (l : Loop σ)
      → kqueue_accepts e conns l ≡ accept_all (kqueue_env e) conns l
  unfolding kqueue_accepts accept_all
  accept_all-kqueue_accepts [] l = refl
  accept_all-kqueue_accepts (a ∷ rest) l =
      ap (kqueue_accepts e rest) (accept_one-kqueue_accept a l)
      ∙ accept_all-kqueue_accepts rest (accept_one (kqueue_env e) a l)

  on_events-kqueue_events :
      (vs : List Event) (l : Loop σ) → kqueue_events e vs l ≡ on_events (kqueue_env e) vs l
  unfolding kqueue_events on_events on_event serve_client
  on_events-kqueue_events [] l = refl
  on_events-kqueue_events (listener_ready conns ∷ vs) l =
      ap (kqueue_events e vs) (accept_all-kqueue_accepts conns l)
      ∙ on_events-kqueue_events vs (accept_all (kqueue_env e) conns l)
  on_events-kqueue_events (client_ready fd read ∷ vs) l =
      ap (λ s. kqueue_events e vs (record l { deadlines = delete fd l.deadlines; env = s }))
        (sym (handle_conn-kqueue_conn e fd read l.env))
      ∙ on_events-kqueue_events vs (record l {
        deadlines = delete fd l.deadlines;
        env = handle_conn (kqueue_env e) fd read l.env;
      })

  expire-kqueue_kept :
      (now : ℕ) (m : List (ℕ × ℕ)) (s : σ)
      → (kqueue_kept e now m, kqueue_closed e now m s) ≡ expire (kqueue_env e) now m s
  unfolding kqueue_closed kqueue_kept expire
  expire-kqueue_kept now [] s = refl
  expire-kqueue_kept now ((fd, deadline) ∷ m) s = elim (Bool-cases (ltb deadline now)) [
    | inl past ↦ rw past (expire-kqueue_kept now m (e.close fd s))
    | inr early ↦ rw early (ap (λ r. ((fd, deadline) ∷ r.0, r.1)) (expire-kqueue_kept now m s))
  ]

  abbrev after_sweep : ℕ → List (ℕ × ℕ) × σ → Loop σ
  after_sweep now r = record { deadlines = r.0; next_sweep = now + sweep_tick; env = r.1 }

  leb-ltb : (now next : ℕ) → leb next now ≡ not (ltb now next)
  leb-ltb now next = ground arith

  sweep-kqueue_sweep : (now : ℕ) (l : Loop σ) → kqueue_sweep e now l ≡ sweep (kqueue_env e) now l
  unfolding kqueue_sweep sweep
  sweep-kqueue_sweep now l = elim (Bool-cases (ltb now l.next_sweep)) [
    | inl early ↦ rw (leb-ltb now l.next_sweep) rw early refl
    | inr due ↦ rw (leb-ltb now l.next_sweep) rw due (
        ap (λ (r : List (ℕ × ℕ) × σ). after_sweep now r) (expire-kqueue_kept now l.deadlines l.env))
  ]

  -- The loop of server_darwin.go comes to what that of server_linux.go comes to when unregistering a
  -- descriptor does nothing.
  pub run-run_kqueue : (ws : List Wait) (l : Loop σ) → run_kqueue e ws l ≡ run (kqueue_env e) ws l
  unfolding run_kqueue run
  run-run_kqueue [] l = refl
  run-run_kqueue (interrupted ∷ ws) l = run-run_kqueue ws l
  run-run_kqueue (failed ∷ ws) l = refl
  run-run_kqueue (ready vs now ∷ ws) l =
      ap (λ m. run_kqueue e ws (kqueue_sweep e now m)) (on_events-kqueue_events vs l)
      ∙ ap (run_kqueue e ws) (sweep-kqueue_sweep now (on_events (kqueue_env e) vs l))
      ∙ run-run_kqueue ws (sweep (kqueue_env e) now (on_events (kqueue_env e) vs l))

-- When the clock does not run backwards, then after any run of the kqueue loop from its beginning
-- at the time `t`, no client is held whose deadline was a second or more ago at the last wake.
pub run_kqueue-last_wake :
    {σ : Type 0} (e : Env σ) (t : ℕ) (ws : List Wait) (s : σ)
    → IsMonotone t ws
    → All (λ p. last_wake t ws < p.1 + sweep_tick) (loop_of (run_kqueue e ws (start t s))).deadlines
run_kqueue-last_wake e t ws s m =
    subst (λ r. All (λ p. last_wake t ws < p.1 + sweep_tick) (loop_of r).deadlines)
      (sym (run-run_kqueue e ws (start t s))) (run-last_wake (kqueue_env e) t ws s m)

-- Without the unregistering, the accepts and closes stay as they are.
pub kqueue_env-IsFaithful : (e : Env Log) → IsFaithful e → IsFaithful (kqueue_env e)
kqueue_env-IsFaithful e f = record {
  accept_opens = f.accept_opens;
  accept_closes = f.accept_closes;
  close_opens = f.close_opens;
  close_closes = f.close_closes;
  watch_opens = f.watch_opens;
  watch_closes = f.watch_closes;
  unwatch_opens = λ fd j s. refl;
  unwatch_closes = λ fd j s. refl;
  connect_opens = f.connect_opens;
  connect_closes = f.connect_closes;
  deliver_opens = f.deliver_opens;
  deliver_closes = f.deliver_closes;
  disconnect_opens = f.disconnect_opens;
  disconnect_closes = f.disconnect_closes;
}

-- Over any run of the kqueue loop in which the kernel is honest and no callback closes, from a loop
-- whose books balance, each descriptor has been closed exactly as often as it was accepted, less one
-- while the loop has a deadline for it.
pub run_kqueue-IsBalanced :
    (e : Env Log) (ws : List Wait) (l : Loop Log)
    → IsFaithful e
    → Honest (kqueue_env e) ws l
    → IsBalanced l
    → IsBalanced (loop_of (run_kqueue e ws l))
run_kqueue-IsBalanced e ws l f h b =
    subst (λ r. IsBalanced (loop_of r)) (sym (run-run_kqueue e ws l))
      (run-IsBalanced (kqueue_env e) ws l (kqueue_env-IsFaithful e f) h b)
