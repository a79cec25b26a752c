-- ===== src/Tests/Uring.antt =====
-- The theorems about io_uring at concrete states.
use io_mutiplexing.Common.{
  ◌+◌, ◌≡◌, ◌<◌, refl, arith, true, List, [], ◌∷◌, ◌++◌, none, some, pos, codes,
}
use io_mutiplexing.Common.Maps.{lookup, is_key}
use io_mutiplexing.EventLoop.{Env}
use io_mutiplexing.EventLoop.Trace.{Log, logging, logging-IsFaithful, opens, closes}
use io_mutiplexing.IoUring.Rings.{Ring, Sqe, Cqe, empty_sqe, submit}
use io_mutiplexing.IoUring.Rings.Queue.{published, IsSq, published-submit, unseen}
use io_mutiplexing.IoUring.{
  Server, new_op, accept, timeout, drain, enter, Woken, woken, interrupted, run_ring, start_ring,
  stopped,
}
use io_mutiplexing.IoUring.Drain.{handle_all, drain-enter}
use io_mutiplexing.EventLoop.Tallies.{connects, disconnects, logging-IsTally}
use io_mutiplexing.IoUring.Receives.{recvs}
use io_mutiplexing.IoUring.Lifecycle.{run_ring-connects}
use io_mutiplexing.IoUring.Completions.{recv_op}
use io_mutiplexing.IoUring.Late.{handle_all-late}

abbrev some_cqe : Cqe
some_cqe = record { user_data = 1; res = pos 7; buf = []; now = 5 }

-- Both counters of each ring stand at their last value.
abbrev wrapping : Ring
wrapping = record {
  sq_head = 0xffff_ffff;
  sq_tail = 0xffff_ffff;
  sq_array = λ k. 0;
  sqes = λ k. empty_sqe;
  cq_head = 0xffff_ffff;
  cq_tail = 0xffff_ffff;
  cqes = λ k. some_cqe;
}

wrapping-IsSq : IsSq wrapping
wrapping-IsSq = record {
  sq_head_in = omega arith;
  sq_tail_in = omega arith;
  within = omega arith;
  own = λ i l. absurd (omega (arith, l));
}

abbrev entry : Sqe
entry = record empty_sqe { opcode = 13; fd = 3; user_data = 9 }

published-submit_example : published (submit entry wrapping) ≡ published wrapping ++ entry ∷ []
published-submit_example = published-submit entry wrapping wrapping-IsSq (omega arith)

abbrev log : Env Log
log = logging true true

abbrev fresh_server : Server Log
fresh_server = start_ring 3 wrapping []

-- The first accept completes with the client 7.
abbrev accept_done : Cqe
accept_done = record { user_data = 1; res = pos 7; buf = []; now = 5 }

abbrev recv_done : Cqe
recv_done = record { user_data = 3; res = pos 2; buf = codes "hi"; now = 6 }

abbrev bare : Server Log
bare = record { op_seq = 2; op_map = []; deadlines = []; ring = wrapping; env = [] }

drain-enter_example :
    (drain log 2 (record bare { ring = enter (accept_done ∷ recv_done ∷ []) wrapping })
      ≡ handle_all log
          (accept_done ∷ recv_done ∷ [])
          (record bare { ring = enter (accept_done ∷ recv_done ∷ []) wrapping }))
    × (unseen
          (handle_all log
            (accept_done ∷ recv_done ∷ [])
            (record bare { ring = enter (accept_done ∷ recv_done ∷ []) wrapping })).ring
        ≡ [])
    × ((handle_all log
          (accept_done ∷ recv_done ∷ [])
          (record bare { ring = enter (accept_done ∷ recv_done ∷ []) wrapping })).ring.cq_head
        < 0x1_0000_0000)
    × ((handle_all log
          (accept_done ∷ recv_done ∷ [])
          (record bare { ring = enter (accept_done ∷ recv_done ∷ []) wrapping })).ring.cq_tail
        < 0x1_0000_0000)
drain-enter_example =
    drain-enter log (accept_done ∷ recv_done ∷ []) bare
      (record { cq_head_in = omega arith; cq_tail_in = omega arith }) (omega arith) (omega arith)

-- A client is accepted, and its data comes with the next wake.
abbrev two_wakes : List Woken
two_wakes = woken (accept_done ∷ []) ∷ interrupted ∷ woken (recv_done ∷ []) ∷ []

-- The client 7 is idle since the time 0: its deadline is the time 30.
abbrev idle : Server Log
idle = record {
  op_seq = 3;
  op_map =
      (1, record (new_op accept 4) { id = 1 })
      ∷ (2, record (new_op timeout 0) { id = 2; ts = none })
      ∷ (3, recv_op 3 7)
      ∷ [];
  deadlines = (7, 30) ∷ [];
  ring = wrapping;
  env = [];
}

abbrev timer_done : Cqe
timer_done = record { user_data = 2; res = pos 0; buf = []; now = 31 }

handle_all-late_example :
    let s' = handle_all log (timer_done ∷ accept_done ∷ recv_done ∷ []) idle in
    (opens 7 s'.env ≡ opens 7 idle.env + 1)
    × (closes 7 s'.env ≡ closes 7 idle.env + 2)
    × (lookup 7 s'.deadlines ≡ none)
    × (lookup (idle.op_seq + 2) s'.op_map ≡ some (recv_op (idle.op_seq + 2) 7))
unfolding lookup is_key
handle_all-late_example =
    handle_all-late log (logging-IsFaithful true true) 2 1 3 7 4 30 idle
      (record {
        ts = none;
        has_timer = refl;
        has_accept = refl;
        has_recv = refl;
        numbered = omega arith;
        few_ids = omega arith;
        distinct = (refl, tt);
        has_deadline = refl;
      })
      timer_done accept_done recv_done refl (omega arith) refl refl refl

run_ring-connects_example :
    let s = stopped (run_ring (logging true true) two_wakes (start_ring 3 wrapping [])) in
    connects 7 s.env ≡ disconnects 7 s.env + recvs 7 s.op_map
unfolding drain enter start_ring
run_ring-connects_example =
    run_ring-connects (logging true true) connects disconnects logging-IsTally 3 wrapping []
      two_wakes 7 (omega arith, refl, omega arith, refl)
      (((omega arith, tt), omega arith, ((omega arith, tt), omega arith, tt))) (omega arith)
      (λ i. refl)
