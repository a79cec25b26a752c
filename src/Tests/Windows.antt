-- ===== src/Tests/Windows.antt =====
-- The theorems about IOCP at a concrete kernel.
use io_mutiplexing.Common.{
  ℕ, ◌+◌, ◌%◌, ◌≡◌, ◌≤◌, refl, arith, Bool, true, false, List, [], ◌∷◌, none, Bytes, ◌==◌,
  if◌then◌else◌,
}
use io_mutiplexing.Common.Maps.{lookup, is_key}
use io_mutiplexing.EventLoop.{start}
use io_mutiplexing.Iocp.{
  IoOp, Kernel, Server, invalid_socket, Wait, idle, completed, post_accepts, run_iocp, start_iocp,
}
use io_mutiplexing.Iocp.Held.{IsHolding}
use io_mutiplexing.Iocp.Pins.{run_iocp-is_key}
use io_mutiplexing.Iocp.Counted.{accepts}
use io_mutiplexing.Iocp.Slots.{run_iocp-exactly_eight}
use io_mutiplexing.Common.Counts.{one_if}
use io_mutiplexing.Common.{some, ap}
use io_mutiplexing.Iocp.Tallies.{Tally, IsTally, one_if_refused, recvs}
use io_mutiplexing.Iocp.Lifecycle.{run_iocp-connects}
use io_mutiplexing.Iocp.Starved.{run_iocp-busy}

-- An address above all that are taken.
above : List (ℕ × IoOp) → ℕ
above [] = 1
above ((a, o) ∷ m) = a + above m

above_positive : (m : List (ℕ × IoOp)) → 1 ≤ above m
unfolding above
above_positive [] = omega arith
above_positive ((a, o) ∷ m) = omega (arith, above_positive m)

above-is_key : (m : List (ℕ × IoOp)) (a : ℕ) → above m ≤ a → is_key a m ≡ false
unfolding above is_key
above-is_key [] a l = refl
above-is_key ((b, o) ∷ m) a l = ground (arith, l, above_positive m, above-is_key m a)

-- What the kernel has: the next socket, the operations it holds, and what was delivered.
record System : Type 0 where
  pub next : ℕ
  pub holds : ℕ → Bool
  pub delivered : List Bytes

abbrev hold : ℕ → System → System
hold a t = record t { holds = λ j. if a == j then true else t.holds j }

abbrev kernel : Kernel System
kernel = record {
  env = record {
    connect = none;
    deliver = λ sock bytes t. record t { delivered = bytes ∷ t.delivered };
    disconnect = none;
    accept = λ sock t. t;
    watch = λ sock t. t;
    unwatch = λ sock t. t;
    close = λ sock t. t;
  };
  place = above;
  wsa_socket = λ t. (t.next % 0x1_0000_0000, record t { next = t.next + 1 });
  accept_ex = λ l sock a t. (true, hold a t);
  wsa_recv = λ sock a t. (true, hold a t);
  wsa_send = λ sock bytes a t. (true, hold a t);
  update_accept_context = λ sock l t. t;
  attach = λ sock t. (true, t);
  dequeue = λ a t. record t { holds = λ j. if a == j then false else t.holds j };
}

abbrev held : ℕ → System → Bool
held j t = t.holds j

place_fresh : (m : List (ℕ × IoOp)) → is_key (kernel.place m) m ≡ false
place_fresh m = above-is_key m (above m) (omega arith)

kernel-IsHolding : IsHolding kernel held
kernel-IsHolding = record {
  place_fresh = place_fresh;
  accept_ex_held = λ l sock a j t. refl;
  wsa_recv_held = λ sock a j t. refl;
  wsa_send_held = λ sock bytes a j t. refl;
  dequeue_held = λ a j t. refl;
  wsa_socket_held = λ j t. refl;
  update_held = λ sock l j t. refl;
  attach_held = λ sock j t. refl;
  close_held = λ sock j t. refl;
  connect_held = λ sock j t. refl;
  deliver_held = λ sock j bytes t. refl;
  disconnect_held = λ sock j t. refl;
}

abbrev booted : System
booted = record { next = 100; holds = λ j. false; delivered = [] }

abbrev started : Server System
started = (post_accepts kernel 8 3 (record { pins = []; loop = start 0 booted })).1

-- The first accept completes, and then its client is idle.
abbrev waits : List Wait
waits = completed 1 false 0 [] 5 ∷ idle 2_000_000_000 ∷ []

run_iocp-is_key_example :
    is_key 2 (run_iocp kernel waits started).pins ≡ held 2 (run_iocp kernel waits started).loop.env
unfolding start_iocp run_iocp above
run_iocp-is_key_example =
    run_iocp-is_key kernel held 3 0 booted started waits kernel-IsHolding (λ j. refl) refl
      (refl, (tt, tt)) 2

small_socket : (n : ℕ) → (n % 0x1_0000_0000 == invalid_socket) ≡ false
small_socket n = ground arith

run_iocp-exactly_eight_example : accepts (run_iocp kernel waits started).pins ≡ 8
unfolding start_iocp
run_iocp-exactly_eight_example =
    run_iocp-exactly_eight kernel 3 0 booted started waits place_fresh (λ t. small_socket t.next)
      (λ l sock a t. refl) refl

-- The client 100 connects and says a word, while the client 50 is idle since the start.
abbrev busy : List Wait
busy = completed 1 false 0 [] 90_000_000_000 ∷ []

abbrev waiting : Server System
waiting = record started { loop = record started.loop { deadlines = (50, 30_000_000_000) ∷ [] } }

run_iocp-busy_example :
    (lookup 50 (run_iocp kernel busy waiting).loop.deadlines ≡ lookup 50 waiting.loop.deadlines)
    × ((run_iocp kernel busy waiting).loop.next_sweep ≡ waiting.loop.next_sweep)
unfolding start_iocp lookup above
run_iocp-busy_example = run_iocp-busy kernel 50 busy waiting (refl, tt)

-- What a kernel and an application have written down, with the next socket. The receives of the
-- socket 101 are refused.
record Books : Type 0 where
  pub next : ℕ
  pub connected : List ℕ
  pub disconnected : List ℕ
  pub refused : List ℕ

abbrev times : ℕ → List ℕ → ℕ
times j [] = 0
times j (i ∷ is) = one_if (i == j) + times j is

abbrev tally : ℕ → Books → Tally
tally j t = record {
  connects = times j t.connected;
  disconnects = times j t.disconnected;
  refusals = times j t.refused;
}

abbrev recv_answer : Bool → ℕ → Books → Bool × Books
recv_answer true c t = (false, record t { refused = c ∷ t.refused })
recv_answer false c t = (true, t)

tally-recv_answer :
    (b : Bool) (c j : ℕ) (t : Books)
    → tally j (recv_answer b c t).1 ≡ record (tally j t) {
      refusals = one_if_refused (recv_answer b c t).0 (c == j) + (tally j t).refusals;
    }
tally-recv_answer true c j t = refl
tally-recv_answer false c j t =
    let none_more : times j t.refused ≡ 0 + times j t.refused = omega arith in
    ap (λ n. record (tally j t) { refusals = n }) none_more

abbrev refusing : Kernel Books
refusing = record {
  env = record {
    connect = some (λ c t. record t { connected = c ∷ t.connected });
    deliver = λ c bytes t. t;
    disconnect = some (λ c t. record t { disconnected = c ∷ t.disconnected });
    accept = λ c t. t;
    watch = λ c t. t;
    unwatch = λ c t. t;
    close = λ c t. t;
  };
  place = above;
  wsa_socket = λ t. (t.next, record t { next = t.next + 1 });
  accept_ex = λ l c a t. (true, t);
  wsa_recv = λ c a t. recv_answer (c == 101) c t;
  wsa_send = λ c bytes a t. (true, t);
  update_accept_context = λ c l t. t;
  attach = λ c t. (true, t);
  dequeue = λ a t. t;
}

refusing-IsTally : IsTally refusing tally
refusing-IsTally = record {
  connect_tally = λ c j t. refl;
  disconnect_tally = λ c j t. refl;
  wsa_recv_tally = λ c a j t. tally-recv_answer (c == 101) c j t;
  deliver_tally = λ c j bytes t. refl;
  close_tally = λ c j t. refl;
  wsa_socket_tally = λ j t. refl;
  accept_ex_tally = λ l c a j t. refl;
  update_tally = λ c l j t. refl;
  attach_tally = λ c j t. refl;
  dequeue_tally = λ a j t. refl;
}

abbrev no_books : Books
no_books = record { next = 100; connected = []; disconnected = []; refused = [] }

abbrev attending : Server Books
attending = (post_accepts refusing 8 3 (record { pins = []; loop = start 0 no_books })).1

run_iocp-connects_example :
    let s =
      run_iocp refusing (completed 1 false 0 [] 5 ∷ completed 2 false 0 [] 6 ∷ []) attending in
    (tally 101 s.loop.env).connects
    ≡ (tally 101 s.loop.env).disconnects + recvs 101 s.pins + (tally 101 s.loop.env).refusals
unfolding start_iocp
run_iocp-connects_example =
    run_iocp-connects refusing tally 3 0 no_books attending
      (completed 1 false 0 [] 5 ∷ completed 2 false 0 [] 6 ∷ []) 101 refusing-IsTally
      (λ m. above-is_key m (above m) (omega arith)) (λ i. refl) refl
