-- ===== src/Setup.antt =====
-- How `Run` of each backend opens its listener, in server_linux.go, server_darwin.go,
-- server_linux_iouring.go and server_windows.go: a chain of system calls that an error ends.
pub mod Outcomes
pub mod Views
use io_mutiplexing.Common.{
  ℕ, ◌+◌, ◌*◌, ◌%◌, ◌^◌, ◌==◌, Bool, true, false, List, [], ◌∷◌, Option, none, some, Bytes, ltb,
  if◌then◌else◌,
}
use io_mutiplexing.Http.{Addr, AddrError, ParsedAddr, ok, err, parse_addr}

-- Where the fields of the two rings lie in their mapping.
pub record SqRingOffsets : Type 0 where
  pub head : ℕ
  pub tail : ℕ
  pub ring_mask : ℕ
  pub array : ℕ

pub record CqRingOffsets : Type 0 where
  pub head : ℕ
  pub tail : ℕ
  pub ring_mask : ℕ
  pub cqes : ℕ

-- The part of `struct io_uring_params` that the code reads.
pub record Params : Type 0 where
  pub sq_entries : ℕ
  pub cq_entries : ℕ
  pub features : ℕ
  pub sq_off : SqRingOffsets
  pub cq_off : CqRingOffsets

-- The lowest bit of the features: one mapping holds both rings.
abbrev pub single_mmap : Params → Bool
single_mmap p = p.features % 2 == 1

abbrev pub sizeof_sqe : ℕ
sizeof_sqe = 64

abbrev pub sizeof_cqe : ℕ
sizeof_cqe = 16

abbrev pub sizeof_uint32 : ℕ
sizeof_uint32 = 4

pub data Call : Type 0 where
  tcp_socket wsa_startup wsa_socket epoll_create new_kqueue : Call
  set_reuse_addr set_nonblock : ℕ → Call
  bind : ℕ → Addr → Call
  listen : ℕ → ℕ → Call
  epoll_add kqueue_add : ℕ → ℕ → Call
  io_uring_setup : ℕ → Call
  mmap_sq_ring mmap_cq_ring mmap_sqes : ℕ → ℕ → Call
  create_port : ℕ → Call

-- The kernel answers a call, made behind earlier ones, with a number or an error. The parameters
-- are what it writes to the struct of `io_uring_setup`.
pub record System : Type 0 where
  pub answer : Call → List Call → Option ℕ
  pub params : Params

pub data Failure : Type 0 where
  bad_addr : AddrError → Failure
  refused : Call → Failure

pub data Result (A : Type 0) : Type 0 where
  opened : A → Result A
  failed : Failure → Result A

-- With the calls that were made, the newest first.
abbrev pub Setup : Type 0 → Type 0
Setup A = List Call → Result A × List Call

abbrev pub backlog : ℕ
backlog = 128

abbrev pub ring_entries : ℕ
ring_entries = 64

-- The lengths of the two mappings of rings, in 32-bit numbers; one mapping holds both rings where
-- the kernel says so.
unfoldable pub ring_sizes : Params → ℕ × ℕ
ring_sizes p =
    let sq = (p.sq_off.array + p.sq_entries * sizeof_uint32) % 2 ^ 32 in
    let cq = (p.cq_off.cqes + p.cq_entries * sizeof_cqe) % 2 ^ 32 in
    if single_mmap p then (if ltb sq cq then (cq, cq) else (sq, sq)) else (sq, cq)

abbrev pub sqes_size : Params → ℕ
sqes_size p = p.sq_entries * sizeof_sqe % 2 ^ 32

module _ (k : System) where
  abbrev pub answered : {A : Type 0} → Option ℕ → Call → (ℕ → Setup A) → Setup A
  answered none c rest calls = (failed (refused c), calls)
  answered (some n) c rest calls = rest n calls

  -- A call, and what follows it when it succeeds.
  abbrev pub ask : {A : Type 0} → Call → (ℕ → Setup A) → Setup A
  ask c rest calls = answered (k.answer c calls) c rest (c ∷ calls)

  abbrev pub at_addr : {A : Type 0} → ParsedAddr → (Addr → Setup A) → Setup A
  at_addr (err e) rest calls = (failed (bad_addr e), calls)
  at_addr (ok a) rest calls = rest a calls

  abbrev pub done : {A : Type 0} → A → Setup A
  done x calls = (opened x, calls)

  -- Each gives the listener and the descriptor that the loop waits on.
  unfoldable pub setup_epoll : Bytes → Setup (ℕ × ℕ)
  unfolding parse_addr
  setup_epoll addr = at_addr (parse_addr addr) (λ a. ask tcp_socket (λ fd.
      ask (set_reuse_addr fd) (λ _. ask (bind fd a) (λ _.
        ask (listen fd backlog)
          (λ _. ask epoll_create (λ epfd. ask (epoll_add epfd fd) (λ _. done (fd, epfd))))))))

  unfoldable pub setup_kqueue : Bytes → Setup (ℕ × ℕ)
  unfolding parse_addr
  setup_kqueue addr = at_addr (parse_addr addr) (λ a. ask tcp_socket (λ fd.
      ask (set_reuse_addr fd) (λ _. ask (set_nonblock fd) (λ _. ask (bind fd a) (λ _.
        ask (listen fd backlog)
          (λ _. ask new_kqueue (λ kq. ask (kqueue_add kq fd) (λ _. done (fd, kq)))))))))

  -- The flag says that the ring of completions is in the mapping of the other.
  abbrev pub map_cq_ring : Bool → ℕ → Setup (ℕ × ℕ) → Setup (ℕ × ℕ)
  map_cq_ring true r rest = rest
  map_cq_ring false r rest = ask (mmap_cq_ring r (ring_sizes k.params).1) (λ _. rest)

  -- The rings, mapped into memory.
  unfoldable pub new_ring : ℕ → ℕ → Setup (ℕ × ℕ)
  unfolding ring_sizes
  new_ring fd entries = ask (io_uring_setup entries) (λ r.
      ask (mmap_sq_ring r (ring_sizes k.params).0) (λ _.
        map_cq_ring (single_mmap k.params) r
          (ask (mmap_sqes r (sqes_size k.params)) (λ _. done (fd, r)))))

  unfoldable pub setup_io_uring : Bytes → Setup (ℕ × ℕ)
  unfolding parse_addr new_ring
  setup_io_uring addr = at_addr (parse_addr addr) (λ a. ask tcp_socket (λ fd.
      ask (set_reuse_addr fd)
        (λ _. ask (bind fd a) (λ _. ask (listen fd backlog) (λ _. new_ring fd ring_entries)))))

  -- The accepts that follow are those of `start_iocp`.
  unfoldable pub setup_iocp : Bytes → Setup (ℕ × ℕ)
  unfolding parse_addr
  setup_iocp addr = at_addr (parse_addr addr) (λ a. ask wsa_startup (λ _. ask wsa_socket (λ fd.
      ask (set_reuse_addr fd) (λ _.
        ask (bind fd a)
          (λ _. ask (listen fd backlog) (λ _. ask (create_port fd) (λ port. done (fd, port))))))))
