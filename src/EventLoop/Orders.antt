-- ===== src/EventLoop/Orders.antt =====
-- server_linux.go: the sweep goes through the map of deadlines in an order that Go does not specify.
-- What the loop does with one order, it does with any, but for the order of what it closes.
pub mod Logs
use mathlib.Core.List.{Permᴰ}
use mathlib.Core.List.Permᴰ
use io_mutiplexing.Common.{
  ℕ, ◌≡◌, refl, sym, ap, ◌∙◌, Bool-cases, inl, inr, List, [], ◌∷◌, Option, Bytes, ltb,
  if◌then◌else◌,
}
use io_mutiplexing.Common.Maps.{
  insert, HasDistinctKeys, HasDistinctKeys-insert, HasDistinctKeys-delete,
}
use io_mutiplexing.Common.Maps.Orders.{Permᴰ-rule, HasDistinctKeys-perm, delete-perm, insert-perm}
use io_mutiplexing.EventLoop.{
  Env, Loop, Accepted, Event, listener_ready, client_ready, Wait, interrupted, failed, ready, Run,
  returned, running, handle_conn, accept_one, accept_all, serve_client, on_event, on_events, expire,
  sweep, run, idle_timeout,
}
use io_mutiplexing.EventLoop.Sweeps.{expire-distinct}

-- The sweep's two calls for a client.
abbrev pub shut : {σ : Type 0} → Env σ → ℕ → σ → σ
shut e fd s = e.close fd (e.unwatch fd s)

-- The states that are the same but for an order, as the callbacks and the system calls see it: two
-- clients may be closed in either order.
pub record IsIndifferent {σ : Type 0} (e : Env σ) (Same : σ → σ → Type 0) : Type 0 where
  pub same_refl : (s : σ) → Same s s
  pub same_trans : (s t u : σ) → Same s t → Same t u → Same s u
  pub conn_same :
      (fd : ℕ) (read : Option Bytes) (s t : σ)
      → Same s t
      → Same (handle_conn e fd read s) (handle_conn e fd read t)
  pub accept_same : (fd : ℕ) (s t : σ) → Same s t → Same (e.accept fd s) (e.accept fd t)
  pub watch_same : (fd : ℕ) (s t : σ) → Same s t → Same (e.watch fd s) (e.watch fd t)
  pub unwatch_same : (fd : ℕ) (s t : σ) → Same s t → Same (e.unwatch fd s) (e.unwatch fd t)
  pub close_same : (fd : ℕ) (s t : σ) → Same s t → Same (e.close fd s) (e.close fd t)
  pub shut_swap : (fd j : ℕ) (s : σ) → Same (shut e j (shut e fd s)) (shut e fd (shut e j s))

-- Two loops with the same deadlines and states, but for the order.
pub record Alike {σ : Type 0} (Same : σ → σ → Type 0) (l m : Loop σ) : Type 0 where
  pub distinct : HasDistinctKeys l.deadlines
  pub reordered : Permᴰ l.deadlines m.deadlines
  pub next : l.next_sweep ≡ m.next_sweep
  pub env_same : Same l.env m.env

pub data AlikeRuns {σ : Type 0} (Same : σ → σ → Type 0) : Run (Loop σ) → Run (Loop σ) → Type 0 where
  both_returned : {l m : Loop σ} → Alike Same l m → AlikeRuns Same (returned l) (returned m)
  both_running : {l m : Loop σ} → Alike Same l m → AlikeRuns Same (running l) (running m)

-- The loop of `Run`, whose sweep goes through the map in an order that is chosen each time.
pub data AnyOrder {σ : Type 0} (e : Env σ) : List Wait → Loop σ → Run (Loop σ) → Type 0 where
  ended : (l : Loop σ) → AnyOrder e [] l (running l)
  gave_up : (ws : List Wait) (l : Loop σ) → AnyOrder e (failed ∷ ws) l (returned l)
  retried :
      (ws : List Wait) (l : Loop σ) (r : Run (Loop σ))
      → AnyOrder e ws l r
      → AnyOrder e (interrupted ∷ ws) l r
  swept :
      (vs : List Event) (now : ℕ) (ws : List Wait) (l : Loop σ) (order : List (ℕ × ℕ))
      (r : Run (Loop σ))
      → Permᴰ order (on_events e vs l).deadlines
      → AnyOrder e ws (sweep e now (record (on_events e vs l) { deadlines = order })) r
      → AnyOrder e (ready vs now ∷ ws) l r

module _ {σ : Type 0} (e : Env σ) (Same : σ → σ → Type 0) (k : IsIndifferent e Same) where
  shut_same : (fd : ℕ) (s t : σ) → Same s t → Same (shut e fd s) (shut e fd t)
  shut_same fd s t r = k.close_same fd _ _ (k.unwatch_same fd s t r)

  -- What the sweep keeps and what it closes, in either order.
  abbrev SweptAlike : ℕ → List (ℕ × ℕ) → List (ℕ × ℕ) → Type 0
  SweptAlike now m n =
      (s t : σ)
      → Same s t
      → Permᴰ (expire e now m s).0 (expire e now n t).0
        × Same (expire e now m s).1 (expire e now n t).1

  expire-skip :
      (now : ℕ) (a : ℕ × ℕ) (m n : List (ℕ × ℕ))
      → SweptAlike now m n
      → SweptAlike now (a ∷ m) (a ∷ n)
  unfolding expire
  expire-skip now a m n q s t r = elim (Bool-cases (ltb a.1 now)) [
    | inl past ↦ rw past (q _ _ (shut_same a.0 s t r))
    | inr early ↦ rw early (Permᴰ.cons refl (q s t r).0, (q s t r).1)
  ]

  expire-same : (now : ℕ) (m : List (ℕ × ℕ)) → SweptAlike now m m
  unfolding expire
  expire-same now [] s t r = (Permᴰ.nil, r)
  expire-same now (a ∷ m) s t r = expire-skip now a m m (expire-same now m) s t r

  shut-swap :
      (fd j : ℕ) (s t : σ) → Same s t → Same (shut e j (shut e fd s)) (shut e fd (shut e j t))
  shut-swap fd j s t r =
      k.same_trans _ _ _ (shut_same j _ _ (shut_same fd s t r)) (k.shut_swap fd j t)

  expire-swap : (now : ℕ) (a b : ℕ × ℕ) (m : List (ℕ × ℕ)) → SweptAlike now (a ∷ b ∷ m) (b ∷ a ∷ m)
  unfolding expire
  expire-swap now a b m s t r = elim (Bool-cases (ltb a.1 now)) [
    | inl past ↦ elim (Bool-cases (ltb b.1 now)) [
      | inl past' ↦ rw (past, past') (expire-same now m _ _ (shut-swap a.0 b.0 s t r))
      | inr early ↦
          let rest = expire-same now m _ _ (shut_same a.0 s t r) in
          rw (past, early) (Permᴰ.cons refl rest.0, rest.1)
    ]
    | inr early ↦ elim (Bool-cases (ltb b.1 now)) [
      | inl past ↦
          let rest = expire-same now m _ _ (shut_same b.0 s t r) in
          rw (early, past) (Permᴰ.cons refl rest.0, rest.1)
      | inr early' ↦
          let rest = expire-same now m s t r in
          rw (early, early')
            (Permᴰ.trans (Permᴰ.swap refl refl) (Permᴰ.cons refl (Permᴰ.cons refl rest.0)), rest.1)
    ]
  ]

  expire-alike : (now : ℕ) (m n : List (ℕ × ℕ)) → Permᴰ m n → SweptAlike now m n
  unfolding expire
  expire-alike now =
      Permᴰ-rule (SweptAlike now) (λ s t r. (Permᴰ.nil, r)) (expire-skip now) (expire-swap now)
        (λ l m n q q' s t r. (
          Permᴰ.trans (q s t r).0 (q' t t (k.same_refl t)).0,
          k.same_trans _ _ _ (q s t r).1 (q' t t (k.same_refl t)).1,
        ))

  sweep-Alike :
      (now : ℕ) (l m : Loop σ) → Alike Same l m → Alike Same (sweep e now l) (sweep e now m)
  unfolding sweep
  sweep-Alike now l m h =
      let swept = expire-alike now l.deadlines m.deadlines h.reordered l.env m.env h.env_same in
      elim (Bool-cases (ltb now l.next_sweep)) [
        | inl early ↦ rw (early, sym (ap (ltb now) h.next) ∙ early) h
        | inr due ↦
            rw (due, sym (ap (ltb now) h.next) ∙ due)
              (record {
                distinct = expire-distinct e now l.deadlines l.env h.distinct;
                reordered = swept.0;
                next = refl;
                env_same = swept.1;
              })
      ]

  accept_one-Alike :
      (a : Accepted) (l m : Loop σ)
      → Alike Same l m
      → Alike Same (accept_one e a l) (accept_one e a m)
  unfolding accept_one
  accept_one-Alike a l m h = elim (Bool-cases a.added) [
    | inl added ↦ rw added (record {
      distinct = HasDistinctKeys-insert a.fd _ l.deadlines h.distinct;
      reordered = insert-perm a.fd _ l.deadlines m.deadlines h.distinct h.reordered;
      next = h.next;
      env_same = k.watch_same a.fd _ _ (k.accept_same a.fd _ _ h.env_same);
    })
    | inr refused ↦ rw refused (record {
      distinct = h.distinct;
      reordered = h.reordered;
      next = h.next;
      env_same = k.close_same a.fd _ _ (k.accept_same a.fd _ _ h.env_same);
    })
  ]

  accept_all-Alike :
      (conns : List Accepted) (l m : Loop σ)
      → Alike Same l m
      → Alike Same (accept_all e conns l) (accept_all e conns m)
  unfolding accept_all
  accept_all-Alike [] l m h = h
  accept_all-Alike (a ∷ rest) l m h =
      accept_all-Alike rest (accept_one e a l) (accept_one e a m) (accept_one-Alike a l m h)

  serve_client-Alike :
      (fd : ℕ) (read : Option Bytes) (l m : Loop σ)
      → Alike Same l m
      → Alike Same (serve_client e fd read l) (serve_client e fd read m)
  unfolding serve_client
  serve_client-Alike fd read l m h = record {
    distinct = HasDistinctKeys-delete fd l.deadlines h.distinct;
    reordered = delete-perm fd l.deadlines m.deadlines h.reordered;
    next = h.next;
    env_same = k.conn_same fd read _ _ (k.unwatch_same fd _ _ h.env_same);
  }

  on_events-Alike :
      (vs : List Event) (l m : Loop σ)
      → Alike Same l m
      → Alike Same (on_events e vs l) (on_events e vs m)
  unfolding on_events on_event
  on_events-Alike [] l m h = h
  on_events-Alike (listener_ready conns ∷ vs) l m h =
      on_events-Alike vs (accept_all e conns l) (accept_all e conns m)
        (accept_all-Alike conns l m h)
  on_events-Alike (client_ready fd read ∷ vs) l m h =
      on_events-Alike vs (serve_client e fd read l) (serve_client e fd read m)
        (serve_client-Alike fd read l m h)

  -- A map that is gone through in another order.
  reorder-Alike :
      (l m : Loop σ) (order : List (ℕ × ℕ))
      → Permᴰ order l.deadlines
      → Alike Same l m
      → Alike Same (record l { deadlines = order }) m
  reorder-Alike l m order p h = record {
    distinct = HasDistinctKeys-perm l.deadlines order (Permᴰ.symm p) h.distinct;
    reordered = Permᴰ.trans p h.reordered;
    next = h.next;
    env_same = h.env_same;
  }

-- When the callbacks and the system calls do not tell in which order two clients are closed, a run
-- of the loop whose sweeps go through the map of deadlines in whatever orders comes to what the run
-- in the order of the list comes to: it returns or not, as that one, with the same deadlines and the
-- same state, but for the order.
pub run-AnyOrder :
    {σ : Type 0} (e : Env σ) (Same : σ → σ → Type 0) (ws : List Wait) (l m : Loop σ)
    (r : Run (Loop σ))
    → IsIndifferent e Same
    → Alike Same l m
    → AnyOrder e ws l r
    → AlikeRuns Same r (run e ws m)
unfolding run
run-AnyOrder e Same _ l m _ k h (ended _) = both_running h
run-AnyOrder e Same _ l m _ k h (gave_up ws _) = both_returned h
run-AnyOrder e Same _ l m _ k h (retried ws _ r o) = run-AnyOrder e Same ws l m r k h o
run-AnyOrder e Same _ l m _ k h (swept vs now ws _ order r p o) =
    run-AnyOrder e Same ws _ (sweep e now (on_events e vs m)) r k
      (sweep-Alike e Same k now _ _ (
        reorder-Alike e Same k (on_events e vs l) (on_events e vs m) order p
          (on_events-Alike e Same k vs l m h)))
      o
