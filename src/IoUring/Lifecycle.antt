-- ===== src/IoUring/Lifecycle.antt =====
-- server_linux_iouring.go: the `Connect` and the `Disconnect` of each client, over a run of the loop.
use io_mutiplexing.EventLoop.Tallies.{IsTally}
use io_mutiplexing.IoUring.Receives.{recvs}
use io_mutiplexing.IoUring.Steps.{post_accept-seq}
use mathlib.Core.Path.{subst}
use io_mutiplexing.IoUring.Rings.{Ring, cqe_seen}
use io_mutiplexing.IoUring.Drain.{drain-enter}
use io_mutiplexing.IoUring.{
  Woken, interrupted, failed, woken, enter, drain, run_ring, start_ring, stopped,
}
use io_mutiplexing.IoUring.Room.{IsCalm, Honest, completions, IsFresh, wake-IsCalm, start-IsCalm}
use io_mutiplexing.Common.{ℕ, ◌+◌, ◌*◌, ◌^◌, ◌<◌, ◌≡◌, refl, arith, List, [], ◌∷◌, length, sym}
use io_mutiplexing.Common.Maps.{lookup}
use io_mutiplexing.Common.Counts.{count}
use io_mutiplexing.EventLoop.{Env}
use io_mutiplexing.IoUring.Rings.{Cqe}
use io_mutiplexing.IoUring.{Server, post_accept, dispatch, handle_cqe}
use io_mutiplexing.IoUring.Drain.{handle_all}
use io_mutiplexing.IoUring.Served.{
  IsServed, post_accept-IsServed, post_timer-IsServed, dispatch-ServedBy,
}

module _ {σ : Type 0} (e : Env σ) (connects disconnects : ℕ → σ → ℕ)
    (f : IsTally e connects disconnects) where
  abbrev Serves : Server σ → Type 0
  Serves = IsServed e connects disconnects f

  handle_all-IsServed :
      (cs : List Cqe) (s : Server σ)
      → Serves s
      → s.op_seq + 2 * length cs < 2 ^ 64
      → Serves (handle_all e cs s)
  unfolding handle_cqe
  handle_all-IsServed [] s h small = h
  handle_all-IsServed (c ∷ cs) s h small =
      let t = dispatch e (lookup c.user_data s.op_map) c s in
      let (h', l) = dispatch-ServedBy e connects disconnects f c s h (omega (arith, small)) in
      handle_all-IsServed cs (record t { ring = cqe_seen t.ring })
        (record { registry = h'.registry; served = h'.served }) (omega (arith, small, l))

  start-IsServed :
      (listener : ℕ) (r : Ring) (env : σ)
      → ((i : ℕ) → connects i env ≡ disconnects i env)
      → Serves (start_ring listener r env)
  unfolding start_ring count
  start-IsServed listener r env none_seen =
      let bare : Server σ = record {
        op_seq = 0;
        op_map = [];
        deadlines = [];
        ring = r;
        env = env;
      } in
      let h : Serves bare = record {
        registry = record { distinct = tt; numbered = tt; no_sends = refl };
        served = λ j. omega (arith, none_seen j);
      } in
      let h' = post_accept-IsServed e connects disconnects f listener bare h (omega arith) in
      post_timer-IsServed e connects disconnects f (post_accept listener bare) h'
        (omega (arith, post_accept-seq listener bare))

  run-IsServed :
      (ws : List Woken) (s : Server σ)
      → Honest e ws s
      → s.op_seq + 2 * completions e ws < 2 ^ 64
      → IsCalm e s
      → Serves s
      → Serves (stopped (run_ring e ws s))
  unfolding run_ring
  run-IsServed [] s h small calm served = served
  run-IsServed (interrupted ∷ ws) s h small calm served = run-IsServed ws s h small calm served
  run-IsServed (failed ∷ ws) s h small calm served = served
  run-IsServed (woken cs ∷ ws) s (before, room, h) small calm served =
      let t : Server σ = record s { ring = enter cs s.ring } in
      let (calm', l) = wake-IsCalm e cs s calm before room (omega (arith, small)) in
      let (same, _, _, _) = drain-enter e cs s calm.cq calm.all_handled room in
      let handled =
        handle_all-IsServed cs t (record { registry = served.registry; served = served.served })
          (omega (arith, small)) in
      run-IsServed ws (drain e (length cs) t) h (omega (arith, small, l)) calm'
        (subst Serves (sym same) handled)

  -- Over any run of the io_uring loop with an honest kernel, in which fewer than 2^63 - 1 completions
  -- come, from an application that has seen no client: `Connect` has been called for a descriptor
  -- as often as `Disconnect` has, and once more for each of its receives that are registered. So
  -- each client that was connected is disconnected when its receive completes, and only then.
  pub run_ring-connects :
      (listener : ℕ) (r : Ring) (env : σ) (ws : List Woken) (j : ℕ)
      → IsFresh e r
      → Honest e ws (start_ring listener r env)
      → 2 + 2 * completions e ws < 2 ^ 64
      → ((i : ℕ) → connects i env ≡ disconnects i env)
      → let s = stopped (run_ring e ws (start_ring listener r env)) in
        connects j s.env ≡ disconnects j s.env + recvs j s.op_map
  run_ring-connects listener r env ws j fresh h small none_seen =
      let (calm, l) = start-IsCalm e listener r env fresh in
      let s = start_ring listener r env in
      (run-IsServed ws s h (omega (arith, small, l)) calm
          (start-IsServed listener r env none_seen)).served
        j
