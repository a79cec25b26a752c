-- ===== src/IoUring/Room.antt =====
-- server_linux_iouring.go: the submission ring never overflows, and an accept and the timer are
-- always registered.
use mathlib.Core.Path.{subst}
use io_mutiplexing.Common.{
  ℕ, zero, suc, ◌+◌, ◌*◌, ◌%◌, ◌^◌, ◌≤◌, ◌<◌, ◌≡◌, refl, sym, ◌∙◌, arith, List, [], ◌∷◌, length,
  All,
}
use io_mutiplexing.EventLoop.{Env}
use io_mutiplexing.Common.Counts.{count}
use io_mutiplexing.IoUring.Rings.{
  get_sqe, advance_tail, Ring, Cqe, cq_entries, submit, submit_accept, submit_timeout,
}
use io_mutiplexing.IoUring.Rings.Queue.{
  queued, IsSq, consume, IsCq, unseen_count, span, consume-IsSq, queued-consume, post,
}
use io_mutiplexing.IoUring.{
  Server, register_op, post_accept, post_timer, drain, Woken, interrupted, failed, woken, taken,
  post_all, enter, run_ring, start_ring, stopped,
}
use io_mutiplexing.IoUring.Drain.{handle_all, drain-enter}
use io_mutiplexing.IoUring.Steps.{
  Books, IsSteady, handle_all-IsSteady, more-HasBooks, post_accept-HasBooks, post_timer-HasBooks,
  post_accept-seq,
}
use io_mutiplexing.IoUring.Registry.{taken-HasBooks}

post-IsSq : (c : Cqe) (r : Ring) → IsSq r → IsSq (post c r) × (queued (post c r) ≡ queued r)
unfolding post
post-IsSq c r v = (
  record { sq_head_in = v.sq_head_in; sq_tail_in = v.sq_tail_in; within = v.within; own = v.own },
  refl,
)

post_all-IsSq :
    (cs : List Cqe) (r : Ring) → IsSq r → IsSq (post_all cs r) × (queued (post_all cs r) ≡ queued r)
unfolding post_all
post_all-IsSq [] r v = (v, refl)
post_all-IsSq (c ∷ cs) r v =
    let (v', e) = post-IsSq c r v in let (v'', e') = post_all-IsSq cs (post c r) v' in (v'', e' ∙ e)

-- All that waits fits into one call.
enter-IsSq : (cs : List Cqe) (r : Ring) → IsSq r → IsSq (enter cs r) × (queued (enter cs r) ≡ 0)
unfolding enter
enter-IsSq cs r v =
    let all : taken r ≡ queued r = ground (arith, v.within) in
    let some_left : taken r ≤ queued r = omega (arith, all) in
    let (v', e) = post_all-IsSq cs (consume (taken r) r) (consume-IsSq (taken r) r some_left v) in
    (v', omega (arith, e, all, queued-consume (taken r) r some_left v))

span-none {ℓ} : {A : Type ℓ} (f : ℕ → A) (head n : ℕ) → span f head n ≡ [] → n ≡ 0
span-none f head zero e = refl
span-none f head (suc n) e = cc

module _ {σ : Type 0} (e : Env σ) where
  -- Between two wakes.
  pub record IsCalm (s : Server σ) : Type 0 where
    pub old : ℕ
    pub steady : IsSteady old s
    pub cq : IsCq s.ring
    pub all_handled : unseen_count s.ring ≡ 0

  -- The kernel completes only operations whose entries it has taken, and posts 128 completions at
  -- most for one call.
  abbrev pub Honest : List Woken → Server σ → Type 0
  Honest [] s = Unit
  Honest (interrupted ∷ ws) s = Honest ws s
  Honest (failed ∷ ws) s = Unit
  Honest (woken cs ∷ ws) s =
      All (λ c. c.user_data ≤ s.op_seq) cs
      × (length cs ≤ cq_entries)
      × Honest ws (drain e (length cs) (record s { ring = enter cs s.ring }))

  abbrev pub completions : List Woken → ℕ
  completions [] = 0
  completions (woken cs ∷ ws) = length cs + completions ws
  completions (interrupted ∷ ws) = completions ws
  completions (failed ∷ ws) = completions ws

  pub wake-IsCalm :
      (cs : List Cqe) (s : Server σ)
      → IsCalm s
      → All (λ c. c.user_data ≤ s.op_seq) cs
      → length cs ≤ cq_entries
      → s.op_seq + 2 * length cs < 2 ^ 64
      → IsCalm (drain e (length cs) (record s { ring = enter cs s.ring }))
        × ((drain e (length cs) (record s { ring = enter cs s.ring })).op_seq
            ≤ s.op_seq + 2 * length cs)
  wake-IsCalm cs s calm before room small =
      let t : Server σ = record s { ring = enter cs s.ring } in
      let (v, empty) = enter-IsSq cs s.ring calm.steady.sq in
      let b : IsSteady s.op_seq t =
        taken-HasBooks calm.old 3 s.op_seq s.op_map s.ring (enter cs s.ring) calm.steady v empty in
      let (b', l) = handle_all-IsSteady e s.op_seq cs t b before small in
      let (same, none_left, h, tl) = drain-enter e cs s calm.cq calm.all_handled room in
      subst (λ u. IsCalm u × (u.op_seq ≤ s.op_seq + 2 * length cs)) (sym same)
        (
          record {
            old = s.op_seq;
            steady = b';
            cq = record { cq_head_in = h; cq_tail_in = tl };
            all_handled =
                span-none (λ k. (handle_all e cs t).ring.cqes (k % cq_entries))
                  (handle_all e cs t).ring.cq_head (unseen_count (handle_all e cs t).ring)
                  none_left;
          },
          l,
        )

  pub run-IsCalm :
      (ws : List Woken) (s : Server σ)
      → Honest ws s
      → s.op_seq + 2 * completions ws < 2 ^ 64
      → IsCalm s
      → IsCalm (stopped (run_ring e ws s))
  unfolding run_ring
  run-IsCalm [] s h small calm = calm
  run-IsCalm (interrupted ∷ ws) s h small calm = run-IsCalm ws s h small calm
  run-IsCalm (failed ∷ ws) s h small calm = calm
  run-IsCalm (woken cs ∷ ws) s (before, room, h) small calm =
      let (calm', l) = wake-IsCalm cs s calm before room (omega (arith, small)) in
      run-IsCalm ws (drain e (length cs) (record s { ring = enter cs s.ring })) h
        (omega (arith, small, l)) calm'

  -- A ring as the kernel hands it over: nothing waits in it.
  abbrev pub IsFresh : Ring → Type 0
  IsFresh r =
      (r.sq_head < 2 ^ 32)
      × (r.sq_tail ≡ r.sq_head)
      × (r.cq_head < 2 ^ 32)
      × (r.cq_tail ≡ r.cq_head)

  start-IsSq : (r : Ring) → IsFresh r → IsSq r
  start-IsSq r (sq_in, sq_empty, _, _) =
      let zero_queued : queued r ≡ 0 = omega (arith, sq_in, sq_empty) in
      record {
        sq_head_in = sq_in;
        sq_tail_in = omega (arith, sq_in, sq_empty);
        within = omega (arith, zero_queued);
        own = λ i l. absurd (omega (arith, l, zero_queued));
      }

  bare : Ring → σ → Server σ
  bare r env = record { op_seq = 0; op_map = []; deadlines = []; ring = r; env = env }

  start-Books : (r : Ring) (env : σ) → IsFresh r → Books 0 0 0 0 (bare r env)
  unfolding bare count
  start-Books r env f = record {
    distinct = tt;
    numbered = tt;
    has_accepts = refl;
    has_timers = refl;
    no_sends = refl;
    sq = start-IsSq r f;
    spent = omega (arith, f.0, f.1);
    past = omega arith;
  }

  pub start-IsCalm :
      (listener : ℕ) (r : Ring) (env : σ)
      → IsFresh r
      → IsCalm (start_ring listener r env) × ((start_ring listener r env).op_seq ≤ 2)
  unfolding start_ring bare post_accept post_timer register_op submit_accept submit_timeout submit
      get_sqe advance_tail
  start-IsCalm listener r env f =
      let s = bare r env in
      let accepting = post_accept listener s in
      let b : Books 0 1 0 1 accepting =
        post_accept-HasBooks 0 0 0 0 s (start-Books r env f) (omega arith) (omega arith) listener in
      let b' : Books 0 1 1 2 (post_timer accepting) =
        post_timer-HasBooks 0 1 0 1 accepting b (omega (arith, post_accept-seq listener s))
          (omega arith) in
      (
        record {
          old = 0;
          steady = more-HasBooks 0 1 1 2 3 (post_timer accepting) (omega arith) b';
          cq = record { cq_head_in = f.2; cq_tail_in = omega (arith, f.2, f.3) };
          all_handled = omega (arith, f.2, f.3);
        },
        omega arith,
      )
