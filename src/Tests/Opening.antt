-- ===== src/Tests/Opening.antt =====
-- The theorems about the opening of listeners at a concrete system.
use io_mutiplexing.Common.{ℕ, ◌+◌, ◌≤◌, arith, List, Option, none, some, length, All}
use io_mutiplexing.Setup.{Params, Call, System, create_port}
use io_mutiplexing.Setup.Views.{mapped, ring_views, ring_views-le}

abbrev params : Params
params = record {
  sq_entries = 64;
  cq_entries = 128;
  features = 5;
  sq_off = record { head = 0; tail = 4; ring_mask = 16; array = 2112 };
  cq_off = record { head = 8; tail = 12; ring_mask = 20; cqes = 64 };
}

-- Each call gives the number of those before it, and no completion port can be made.
abbrev answers : Call → List Call → Option ℕ
answers (create_port fd) calls = none
answers _ calls = some (length calls)

abbrev system : System
system = record { answer = answers; params = params }

ring_views-le_example : All (λ v. v.off + v.size ≤ mapped params v.mapping) (ring_views params)
ring_views-le_example = ring_views-le params (record {
  sq_head_first = omega arith;
  sq_tail_first = omega arith;
  sq_mask_first = omega arith;
  cq_head_first = omega arith;
  cq_tail_first = omega arith;
  cq_mask_first = omega arith;
  sq_short = omega arith;
  cq_short = omega arith;
  sqes_short = omega arith;
})
