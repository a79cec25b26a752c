-- ===== src/Setup/Outcomes.antt =====
-- What the chains of system calls of each backend come to, against a table of the calls.
use io_mutiplexing.Common.{ℕ, zero, suc, Bool, true, false, List, [], ◌∷◌, ◌++◌, Option, none, some}
use io_mutiplexing.Http.{Addr, ParsedAddr, ok, err}
use io_mutiplexing.Setup.{
  Call, sqes_size, single_mmap, System, bad_addr, refused, Result, opened, failed, Setup,
  tcp_socket, wsa_startup, wsa_socket, epoll_create, new_kqueue, set_reuse_addr, set_nonblock, bind,
  listen, epoll_add, kqueue_add, io_uring_setup, mmap_sq_ring, mmap_cq_ring, mmap_sqes, create_port,
  ring_sizes,
}

-- A row of a table: a call, whose arguments may be what the rows before it were answered.
abbrev pub Row : Type 0
Row = List ℕ → Call

-- The answer to the row of this number, counted from 0.
abbrev pub nth : ℕ → List ℕ → ℕ
nth i [] = 0
nth zero (n ∷ ns) = n
nth (suc i) (n ∷ ns) = nth i ns

-- The rows, what they give when all are answered, and the calls of the address that was parsed.
abbrev pub epoll_table : Addr → List Row
epoll_table a =
    (λ g. tcp_socket)
    ∷ (λ g. set_reuse_addr (nth 0 g))
    ∷ (λ g. bind (nth 0 g) a)
    ∷ (λ g. listen (nth 0 g) 128)
    ∷ (λ g. epoll_create)
    ∷ (λ g. epoll_add (nth 4 g) (nth 0 g))
    ∷ []

abbrev pub kqueue_table : Addr → List Row
kqueue_table a =
    (λ g. tcp_socket)
    ∷ (λ g. set_reuse_addr (nth 0 g))
    ∷ (λ g. set_nonblock (nth 0 g))
    ∷ (λ g. bind (nth 0 g) a)
    ∷ (λ g. listen (nth 0 g) 128)
    ∷ (λ g. new_kqueue)
    ∷ (λ g. kqueue_add (nth 5 g) (nth 0 g))
    ∷ []

abbrev pub iocp_table : Addr → List Row
iocp_table a =
    (λ g. wsa_startup)
    ∷ (λ g. wsa_socket)
    ∷ (λ g. set_reuse_addr (nth 1 g))
    ∷ (λ g. bind (nth 1 g) a)
    ∷ (λ g. listen (nth 1 g) 128)
    ∷ (λ g. create_port (nth 1 g))
    ∷ []

module _ (k : System) where
  -- The second mapping is made where one does not hold both rings.
  abbrev pub cq_rows : Bool → List Row
  cq_rows true = []
  cq_rows false = (λ g. mmap_cq_ring (nth 4 g) (ring_sizes k.params).1) ∷ []

  abbrev pub io_uring_table : Addr → List Row
  io_uring_table a =
      (λ g. tcp_socket)
      ∷ (λ g. set_reuse_addr (nth 0 g))
      ∷ (λ g. bind (nth 0 g) a)
      ∷ (λ g. listen (nth 0 g) 128)
      ∷ (λ g. io_uring_setup 64)
      ∷ (λ g. mmap_sq_ring (nth 4 g) (ring_sizes k.params).0)
      ∷ (cq_rows (single_mmap k.params) ++ (λ g. mmap_sqes (nth 4 g) (sqes_size k.params)) ∷ [])

  -- A table is followed row by row. The first call that is refused is the last one that is made,
  -- and it is the error; behind the last row, the answers to the rows `i` and `j` are the result.
  abbrev answer_to :
      (ℕ → Result (ℕ × ℕ) × List Call) → Call → List Call → Option ℕ → Result (ℕ × ℕ) × List Call
  answer_to rest c made none = (failed (refused c), c ∷ made)
  answer_to rest c made (some n) = rest n

  abbrev pub follow : ℕ → ℕ → List Row → List ℕ → List Call → Result (ℕ × ℕ) × List Call
  follow i j [] given made = (opened (nth i given, nth j given), made)
  follow i j (row ∷ rows) given made =
      answer_to (λ n. follow i j rows (given ++ n ∷ []) (row given ∷ made)) (row given) made
        (k.answer (row given) made)

  -- An address that does not parse is the error, and no call is made.
  abbrev pub follow_at : ℕ → ℕ → (Addr → List Row) → ParsedAddr → Result (ℕ × ℕ) × List Call
  follow_at i j table (ok a) = follow i j (table a) [] []
  follow_at i j table (err e) = (failed (bad_addr e), [])
