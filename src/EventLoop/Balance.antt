-- ===== src/EventLoop/Balance.antt =====
-- No descriptor leaks and none is closed twice by the event loop of server_linux.go.
use io_mutiplexing.Common.{
  ℕ, ◌+◌, ◌≡◌, ap, ◌∙◌, arith, inl, inr, Bool-cases, true, false, List, [], ◌∷◌, Option, none, some,
  Bytes, ltb, ◌==◌,
}
use io_mutiplexing.Common.Maps.{
  is_key, HasDistinctKeys, is_key-insert, is_key-delete, HasDistinctKeys-insert,
  HasDistinctKeys-delete,
}
use io_mutiplexing.EventLoop.{
  Env, call, Loop, Accepted, Event, listener_ready, client_ready, Wait, interrupted, failed, ready,
  Run, returned, running, handle_conn, accept_one, accept_all, serve_client, on_event, on_events,
  sweep, run, idle_timeout,
}
use io_mutiplexing.Common.Counts.{one_if}
use io_mutiplexing.EventLoop.Trace.{Log, opens, closes, IsFaithful}
use io_mutiplexing.EventLoop.Sweeps.{expire-distinct, expire-counts}

-- Each descriptor has been closed once for each time that it was accepted, but for one close that
-- is still to come if the loop holds a deadline for it.
abbrev pub Balanced : List (ℕ × ℕ) → Log → Type 0
Balanced m s = (fd : ℕ) → opens fd s ≡ closes fd s + one_if (is_key fd m)

pub record IsBalanced (l : Loop Log) : Type 0 where
  pub distinct : HasDistinctKeys l.deadlines
  pub balanced : Balanced l.deadlines l.env

-- What the kernel promises: a descriptor that it hands out is not open, and it reports only
-- clients that are watched.
module _ (e : Env Log) where
  abbrev pub HonestAccepts : List Accepted → Loop Log → Type 0
  HonestAccepts [] l = Unit
  HonestAccepts (a ∷ rest) l =
      (is_key a.fd l.deadlines ≡ false) × HonestAccepts rest (accept_one e a l)

  abbrev pub HonestEvent : Event → Loop Log → Type 0
  HonestEvent (listener_ready conns) l = HonestAccepts conns l
  HonestEvent (client_ready fd _) l = is_key fd l.deadlines ≡ true

  abbrev pub HonestEvents : List Event → Loop Log → Type 0
  HonestEvents [] l = Unit
  HonestEvents (v ∷ vs) l = HonestEvent v l × HonestEvents vs (on_event e v l)

  abbrev pub Honest : List Wait → Loop Log → Type 0
  Honest [] l = Unit
  Honest (interrupted ∷ ws) l = Honest ws l
  Honest (failed ∷ ws) l = Unit
  Honest (ready vs now ∷ ws) l = HonestEvents vs l × Honest ws (sweep e now (on_events e vs l))

module _ (e : Env Log) (f : IsFaithful e) where
  -- Behind a read, the client is disconnected and closed.
  ended :
      (fd j : ℕ) (s s₀ : Log)
      → opens j s ≡ opens j s₀
      → closes j s ≡ closes j s₀
      → (opens j (e.close fd (call e e.disconnect fd s)) ≡ opens j s₀)
        × (closes j (e.close fd (call e e.disconnect fd s)) ≡ one_if (fd == j) + closes j s₀)
  ended fd j s s₀ o c =
      let t = call e e.disconnect fd s in
      (
        f.close_opens fd j t ∙ f.disconnect_opens fd j s ∙ o,
        f.close_closes fd j t ∙ ap (λ n. one_if (fd == j) + n) (f.disconnect_closes fd j s ∙ c),
      )

  handle_conn-counts :
      (fd j : ℕ) (read : Option Bytes) (s : Log)
      → (opens j (handle_conn e fd read s) ≡ opens j s)
        × (closes j (handle_conn e fd read s) ≡ one_if (fd == j) + closes j s)
  unfolding handle_conn
  handle_conn-counts fd j none s =
      ended fd j (call e e.connect fd s) s (f.connect_opens fd j s) (f.connect_closes fd j s)
  handle_conn-counts fd j (some []) s =
      ended fd j (call e e.connect fd s) s (f.connect_opens fd j s) (f.connect_closes fd j s)
  handle_conn-counts fd j (some (b ∷ bytes)) s =
      ended fd j (e.deliver fd (b ∷ bytes) (call e e.connect fd s)) s
        (f.deliver_opens fd j (b ∷ bytes) (call e e.connect fd s) ∙ f.connect_opens fd j s)
        (f.deliver_closes fd j (b ∷ bytes) (call e e.connect fd s) ∙ f.connect_closes fd j s)

  accept_one-IsBalanced :
      (a : Accepted) (l : Loop Log)
      → is_key a.fd l.deadlines ≡ false
      → IsBalanced l
      → IsBalanced (accept_one e a l)
  unfolding accept_one
  accept_one-IsBalanced a l new b = elim (Bool-cases a.added) [
    | inl added ↦ rw added (record {
      distinct = HasDistinctKeys-insert a.fd _ l.deadlines b.distinct;
      balanced = λ j. ground (
        arith,
        b.balanced j,
        is_key-insert a.fd j (a.now + idle_timeout) l.deadlines,
        f.accept_opens a.fd j l.env,
        f.accept_closes a.fd j l.env,
        f.watch_opens a.fd j (e.accept a.fd l.env),
        f.watch_closes a.fd j (e.accept a.fd l.env),
      );
    })
    | inr refused ↦ rw refused (record {
      distinct = b.distinct;
      balanced = λ j. ground (
        arith,
        b.balanced j,
        f.accept_opens a.fd j l.env,
        f.accept_closes a.fd j l.env,
        f.close_opens a.fd j (e.accept a.fd l.env),
        f.close_closes a.fd j (e.accept a.fd l.env),
      );
    })
  ]

  accept_all-IsBalanced :
      (conns : List Accepted) (l : Loop Log)
      → HonestAccepts e conns l
      → IsBalanced l
      → IsBalanced (accept_all e conns l)
  unfolding accept_all
  accept_all-IsBalanced [] l h b = b
  accept_all-IsBalanced (a ∷ rest) l (new, h) b =
      accept_all-IsBalanced rest (accept_one e a l) h (accept_one-IsBalanced a l new b)

  serve_client-IsBalanced :
      (fd : ℕ) (read : Option Bytes) (l : Loop Log)
      → is_key fd l.deadlines ≡ true
      → IsBalanced l
      → IsBalanced (serve_client e fd read l)
  unfolding serve_client
  serve_client-IsBalanced fd read l known b = record {
    distinct = HasDistinctKeys-delete fd l.deadlines b.distinct;
    balanced = λ j. ground (
      arith,
      b.balanced j,
      is_key-delete fd j l.deadlines,
      handle_conn-counts fd j read (e.unwatch fd l.env),
      f.unwatch_opens fd j l.env,
      f.unwatch_closes fd j l.env,
    );
  }

  on_events-IsBalanced :
      (vs : List Event) (l : Loop Log)
      → HonestEvents e vs l
      → IsBalanced l
      → IsBalanced (on_events e vs l)
  unfolding on_events on_event
  on_events-IsBalanced [] l h b = b
  on_events-IsBalanced (listener_ready conns ∷ vs) l (h, hs) b =
      on_events-IsBalanced vs (accept_all e conns l) hs (accept_all-IsBalanced conns l h b)
  on_events-IsBalanced (client_ready fd read ∷ vs) l (h, hs) b =
      on_events-IsBalanced vs (serve_client e fd read l) hs (serve_client-IsBalanced fd read l h b)

  sweep-IsBalanced : (now : ℕ) (l : Loop Log) → IsBalanced l → IsBalanced (sweep e now l)
  unfolding sweep
  sweep-IsBalanced now l b = elim (Bool-cases (ltb now l.next_sweep)) [
    | inl early ↦ rw early b
    | inr due ↦ rw due (record {
      distinct = expire-distinct e now l.deadlines l.env b.distinct;
      balanced =
          λ j. omega (arith, b.balanced j, expire-counts e f now l.deadlines l.env j b.distinct);
    })
  ]

abbrev pub loop_of : {σ : Type 0} → Run (Loop σ) → Loop σ
loop_of (returned l) = l
loop_of (running l) = l

-- Over any run of the loop in which the kernel is honest, from a loop whose books balance, each
-- descriptor has been closed exactly as often as it was accepted, but for those that the loop still
-- has a deadline for, which have one close less: no descriptor leaks and none is closed twice, if
-- no callback closes.
pub run-IsBalanced :
    (e : Env Log) (ws : List Wait) (l : Loop Log)
    → IsFaithful e
    → Honest e ws l
    → IsBalanced l
    → IsBalanced (loop_of (run e ws l))
unfolding run
run-IsBalanced e [] l f h b = b
run-IsBalanced e (interrupted ∷ ws) l f h b = run-IsBalanced e ws l f h b
run-IsBalanced e (failed ∷ ws) l f h b = b
run-IsBalanced e (ready vs now ∷ ws) l f (h, hs) b =
    run-IsBalanced e ws (sweep e now (on_events e vs l)) f hs
      (sweep-IsBalanced e f now _ (on_events-IsBalanced e f vs l h b))
