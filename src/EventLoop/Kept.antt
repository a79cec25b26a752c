-- ===== src/EventLoop/Kept.antt =====
-- What the callbacks and the system calls keep, the event loop of server_linux.go keeps.
use io_mutiplexing.Common.{ℕ, inl, inr, Bool-cases, List, [], ◌∷◌, Option, Bytes, ltb}
use io_mutiplexing.EventLoop.{
  Env, Loop, Accepted, Event, listener_ready, client_ready, Wait, interrupted, failed, ready,
  handle_conn, accept_one, accept_all, serve_client, on_event, on_events, expire, sweep, run,
}
use io_mutiplexing.EventLoop.Balance.{loop_of}

pub record Keeps {σ : Type 0} (e : Env σ) (P : σ → Type 0) : Type 0 where
  pub conn_keeps : (fd : ℕ) (read : Option Bytes) (s : σ) → P s → P (handle_conn e fd read s)
  pub accept_keeps : (fd : ℕ) (s : σ) → P s → P (e.accept fd s)
  pub watch_keeps : (fd : ℕ) (s : σ) → P s → P (e.watch fd s)
  pub unwatch_keeps : (fd : ℕ) (s : σ) → P s → P (e.unwatch fd s)
  pub close_keeps : (fd : ℕ) (s : σ) → P s → P (e.close fd s)

module _ {σ : Type 0} (e : Env σ) (P : σ → Type 0) (k : Keeps e P) where
  accept_one-kept : (a : Accepted) (l : Loop σ) → P l.env → P (accept_one e a l).env
  unfolding accept_one
  accept_one-kept a l p = elim (Bool-cases a.added) [
    | inl added ↦ rw added (k.watch_keeps a.fd _ (k.accept_keeps a.fd l.env p))
    | inr refused ↦ rw refused (k.close_keeps a.fd _ (k.accept_keeps a.fd l.env p))
  ]

  accept_all-kept : (conns : List Accepted) (l : Loop σ) → P l.env → P (accept_all e conns l).env
  unfolding accept_all
  accept_all-kept [] l p = p
  accept_all-kept (a ∷ rest) l p = accept_all-kept rest (accept_one e a l) (accept_one-kept a l p)

  on_events-kept : (vs : List Event) (l : Loop σ) → P l.env → P (on_events e vs l).env
  unfolding on_events on_event serve_client
  on_events-kept [] l p = p
  on_events-kept (listener_ready conns ∷ vs) l p =
      on_events-kept vs (accept_all e conns l) (accept_all-kept conns l p)
  on_events-kept (client_ready fd read ∷ vs) l p =
      on_events-kept vs (serve_client e fd read l)
        (k.conn_keeps fd read (e.unwatch fd l.env) (k.unwatch_keeps fd l.env p))

  expire-kept : (now : ℕ) (m : List (ℕ × ℕ)) (s : σ) → P s → P (expire e now m s).1
  unfolding expire
  expire-kept now [] s p = p
  expire-kept now ((fd, deadline) ∷ m) s p = elim (Bool-cases (ltb deadline now)) [
    | inl past ↦ rw past (expire-kept now m _ (k.close_keeps fd _ (k.unwatch_keeps fd s p)))
    | inr early ↦ rw early (expire-kept now m s p)
  ]

  sweep-kept : (now : ℕ) (l : Loop σ) → P l.env → P (sweep e now l).env
  unfolding sweep
  sweep-kept now l p = elim (Bool-cases (ltb now l.next_sweep)) [
    | inl early ↦ rw early p
    | inr due ↦ rw due (expire-kept now l.deadlines l.env p)
  ]

  pub run-kept : (ws : List Wait) (l : Loop σ) → P l.env → P (loop_of (run e ws l)).env
  unfolding run
  run-kept [] l p = p
  run-kept (interrupted ∷ ws) l p = run-kept ws l p
  run-kept (failed ∷ ws) l p = p
  run-kept (ready vs now ∷ ws) l p =
      run-kept ws (sweep e now (on_events e vs l))
        (sweep-kept now (on_events e vs l) (on_events-kept vs l p))
