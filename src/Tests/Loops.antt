-- ===== src/Tests/Loops.antt =====
-- The event loops of server_linux.go and server_darwin.go on concrete inputs.
use mathlib.Core.List.{Permᴰ}
use mathlib.Core.List.Permᴰ
use io_mutiplexing.EventLoop.{running}
use io_mutiplexing.EventLoop.Orders.{AlikeRuns, ended, swept, run-AnyOrder}
use io_mutiplexing.EventLoop.Orders.Logs.{logging-IsIndifferent}
use io_mutiplexing.Common.{
  ◌≡◌, refl, arith, true, false, List, [], ◌∷◌, some, codes, All, ℕ, ◌+◌, ◌<◌,
}
use io_mutiplexing.Common.Maps.{is_key}
use io_mutiplexing.EventLoop.Kqueue.{kqueue_env, run_kqueue, run-run_kqueue}
use io_mutiplexing.EventLoop.Deadlines.{last_wake, run-last_wake}
use io_mutiplexing.EventLoop.{start, sweep_tick}
use io_mutiplexing.EventLoop.{
  Loop, Wait, listener_ready, client_ready, interrupted, ready, run, on_events, sweep,
}
use io_mutiplexing.EventLoop.Trace.{Log, logging, logging-IsFaithful}
use io_mutiplexing.EventLoop.Balance.{IsBalanced, loop_of, run-IsBalanced}

abbrev idle_loop : Loop Log
idle_loop = record { deadlines = []; next_sweep = 1000; env = [] }

-- Two clients arrive, one of them is served, and the other one is swept.
abbrev two_clients : List Wait
two_clients =
    ready
      (listener_ready (
          record { fd = 7; added = true; now = 10 }
          ∷ record { fd = 8; added = true; now = 20 }
          ∷ [])
        ∷ [])
      30
    ∷ interrupted
    ∷ ready (client_ready 7 (some (codes "GET")) ∷ []) 40_000_000_000
    ∷ []

run-IsBalanced_example : IsBalanced (loop_of (run (logging true false) two_clients idle_loop))
unfolding on_events sweep is_key
run-IsBalanced_example =
    run-IsBalanced (logging true false) two_clients idle_loop (logging-IsFaithful true false)
      (((refl, (refl, tt)), tt), ((refl, tt), tt)) (record { distinct = tt; balanced = λ fd. refl })

run-last_wake_example :
    All
      (λ p. last_wake 5 two_clients < p.1 + sweep_tick)
      (loop_of (run (logging true false) two_clients (start 5 []))).deadlines
run-last_wake_example =
    run-last_wake (logging true false) 5 two_clients []
      (((omega arith, (omega arith, tt)), tt), omega arith, ((tt, tt), omega arith, tt))

run-run_kqueue_example :
    run_kqueue (logging true false) two_clients idle_loop
    ≡ run (kqueue_env (logging true false)) two_clients idle_loop
run-run_kqueue_example = run-run_kqueue (logging true false) two_clients idle_loop

-- Two clients whose deadlines have passed, and the map of them in another order.
abbrev two_idle : Loop Log
two_idle = record { deadlines = (7, 5) ∷ (8, 6) ∷ []; next_sweep = 10; env = [] }

abbrev other_order : List (ℕ × ℕ)
other_order = (8, 6) ∷ (7, 5) ∷ []

run-AnyOrder_example :
    AlikeRuns Permᴰ
      (running (sweep (logging true true) 100 (record two_idle { deadlines = other_order })))
      (run (logging true true) (ready [] 100 ∷ []) two_idle)
unfolding on_events is_key
run-AnyOrder_example =
    run-AnyOrder (logging true true) Permᴰ (ready [] 100 ∷ []) two_idle two_idle _
      (logging-IsIndifferent true true)
      (record {
        distinct = (refl, (refl, tt));
        reordered = Permᴰ.refl _;
        next = refl;
        env_same = Permᴰ.nil;
      })
      (swept [] 100 [] two_idle other_order _ (Permᴰ.swap refl refl) (ended _))
