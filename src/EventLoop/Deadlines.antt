-- ===== src/EventLoop/Deadlines.antt =====
-- server_linux.go: how long the event loop keeps an idle client.
use io_mutiplexing.Common.{
  ℕ, ◌+◌, ◌≤◌, ◌<◌, arith, List, [], ◌∷◌, ltb, ◌==◌, inl, inr, Bool-cases, All, ltb→le, ltb→lt,
}
use io_mutiplexing.Common.Maps.{insert, delete}
use io_mutiplexing.EventLoop.{
  Env, Loop, Accepted, Event, listener_ready, client_ready, Wait, interrupted, failed, ready,
  accept_one, accept_all, serve_client, on_event, on_events, expire, sweep, run, idle_timeout,
  sweep_tick, start,
}
use io_mutiplexing.EventLoop.Balance.{loop_of}

-- A clock that does not run backwards: what a wake reads of it is no earlier than the wake before.
abbrev pub AcceptsAfter : ℕ → Event → Type 0
AcceptsAfter t (listener_ready conns) = All (λ a. t ≤ a.now) conns
AcceptsAfter t (client_ready _ _) = Unit

abbrev pub IsMonotone : ℕ → List Wait → Type 0
IsMonotone t [] = Unit
IsMonotone t (interrupted ∷ ws) = IsMonotone t ws
IsMonotone t (failed ∷ ws) = Unit
IsMonotone t (ready vs now ∷ ws) = All (AcceptsAfter t) vs × (t ≤ now) × IsMonotone now ws

-- The time of the last wake that the loop worked on, at first the time `t` when it began.
abbrev pub last_wake : ℕ → List Wait → ℕ
last_wake t [] = t
last_wake t (interrupted ∷ ws) = last_wake t ws
last_wake t (failed ∷ ws) = t
last_wake t (ready vs now ∷ ws) = last_wake now ws

-- Every deadline in the map is at least `b`, less a tick of the sweep.
abbrev pub From : ℕ → List (ℕ × ℕ) → Type 0
From b = All (λ p. b ≤ p.1 + sweep_tick)

From-insert :
    (b fd d : ℕ) (m : List (ℕ × ℕ)) → b ≤ d + sweep_tick → From b m → From b (insert fd d m)
unfolding insert
From-insert b fd d [] h a = (h, tt)
From-insert b fd d ((k, v) ∷ m) h (hv, a) = elim (Bool-cases (k == fd)) [
  | inl e ↦ rw e (h, a)
  | inr e ↦ rw e (hv, From-insert b fd d m h a)
]

From-delete : (b fd : ℕ) (m : List (ℕ × ℕ)) → From b m → From b (delete fd m)
unfolding delete
From-delete b fd [] a = tt
From-delete b fd ((k, v) ∷ m) (hv, a) = elim (Bool-cases (k == fd)) [
  | inl e ↦ rw e (From-delete b fd m a)
  | inr e ↦ rw e (hv, From-delete b fd m a)
]

module _ {σ : Type 0} (e : Env σ) where
  -- A sweep leaves the deadlines that have not passed.
  expire-From : (now : ℕ) (m : List (ℕ × ℕ)) (s : σ) → From (now + sweep_tick) (expire e now m s).0
  unfolding expire
  expire-From now [] s = tt
  expire-From now ((fd, d) ∷ m) s = elim (Bool-cases (ltb d now)) [
    | inl past ↦ rw past (expire-From now m (e.close fd (e.unwatch fd s)))
    | inr later ↦ rw later (omega (arith, ltb→le d now later), expire-From now m s)
  ]

  -- At the time `t`, the next sweep is due within a tick, and no deadline had passed at the last
  -- one.
  record IsSwept (t : ℕ) (l : Loop σ) : Type 0 where
    due : l.next_sweep ≤ t + sweep_tick
    kept : From l.next_sweep l.deadlines

  accept_one-IsSwept :
      (t : ℕ) (a : Accepted) (l : Loop σ) → t ≤ a.now → IsSwept t l → IsSwept t (accept_one e a l)
  unfolding accept_one
  accept_one-IsSwept t a l h i = elim (Bool-cases a.added) [
    | inl added ↦ rw added (record {
      due = i.due;
      kept =
          From-insert l.next_sweep a.fd (a.now + idle_timeout) l.deadlines (omega (arith, h, i.due))
            i.kept;
    })
    | inr refused ↦ rw refused (record { due = i.due; kept = i.kept })
  ]

  accept_all-IsSwept :
      (t : ℕ) (conns : List Accepted) (l : Loop σ)
      → All (λ a. t ≤ a.now) conns
      → IsSwept t l
      → IsSwept t (accept_all e conns l)
  unfolding accept_all
  accept_all-IsSwept t [] l h i = i
  accept_all-IsSwept t (a ∷ rest) l (h, hs) i =
      accept_all-IsSwept t rest (accept_one e a l) hs (accept_one-IsSwept t a l h i)

  on_event-IsSwept :
      (t : ℕ) (v : Event) (l : Loop σ) → AcceptsAfter t v → IsSwept t l → IsSwept t (on_event e v l)
  unfolding on_event serve_client
  on_event-IsSwept t (listener_ready conns) l h i = accept_all-IsSwept t conns l h i
  on_event-IsSwept t (client_ready fd read) l h i = record {
    due = i.due;
    kept = From-delete l.next_sweep fd l.deadlines i.kept;
  }

  on_events-IsSwept :
      (t : ℕ) (vs : List Event) (l : Loop σ)
      → All (AcceptsAfter t) vs
      → IsSwept t l
      → IsSwept t (on_events e vs l)
  unfolding on_events
  on_events-IsSwept t [] l h i = i
  on_events-IsSwept t (v ∷ vs) l (h, hs) i =
      on_events-IsSwept t vs (on_event e v l) hs (on_event-IsSwept t v l h i)

  -- Behind the sweep at the end of a wake, the next one is still to come.
  record IsTimely (t : ℕ) (l : Loop σ) : Type 0 where
    swept : IsSwept t l
    to_come : t < l.next_sweep

  sweep-IsTimely : (t now : ℕ) (l : Loop σ) → t ≤ now → IsSwept t l → IsTimely now (sweep e now l)
  unfolding sweep
  sweep-IsTimely t now l h i = elim (Bool-cases (ltb now l.next_sweep)) [
    | inl early ↦ rw early (record {
      swept = record { due = omega (arith, h, i.due); kept = i.kept };
      to_come = ltb→lt now l.next_sweep early;
    })
    | inr due ↦ rw due (record {
      swept = record { due = omega arith; kept = expire-From now l.deadlines l.env };
      to_come = omega arith;
    })
  ]

  run-IsTimely :
      (t : ℕ) (ws : List Wait) (l : Loop σ)
      → IsMonotone t ws
      → IsTimely t l
      → IsTimely (last_wake t ws) (loop_of (run e ws l))
  unfolding run
  run-IsTimely t [] l m i = i
  run-IsTimely t (interrupted ∷ ws) l m i = run-IsTimely t ws l m i
  run-IsTimely t (failed ∷ ws) l m i = i
  run-IsTimely t (ready vs now ∷ ws) l (hs, h, m) i =
      run-IsTimely now ws (sweep e now (on_events e vs l)) m
        (sweep-IsTimely t now (on_events e vs l) h (on_events-IsSwept t vs l hs i.swept))

  weaken : (t b : ℕ) (m : List (ℕ × ℕ)) → t < b → From b m → All (λ p. t < p.1 + sweep_tick) m
  weaken t b [] h a = tt
  weaken t b (p ∷ m) h (x, a) = (omega (arith, h, x), weaken t b m h a)

  -- When the clock does not run backwards, then after any run of the loop from its beginning at
  -- the time `t`, no client is held whose deadline was a second or more ago at the last wake.
  pub run-last_wake :
      (t : ℕ) (ws : List Wait) (s : σ)
      → IsMonotone t ws
      → All (λ p. last_wake t ws < p.1 + sweep_tick) (loop_of (run e ws (start t s))).deadlines
  run-last_wake t ws s m =
      let i =
        run-IsTimely t ws (start t s) m
          (record { swept = record { due = omega arith; kept = tt }; to_come = omega arith }) in
      weaken (last_wake t ws) (loop_of (run e ws (start t s))).next_sweep
        (loop_of (run e ws (start t s))).deadlines i.to_come i.swept.kept
