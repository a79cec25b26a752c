-- ===== src/IoUring/Rings.antt =====
-- server_linux_iouring.go: the rings that the program shares with the kernel. The kernel is asked for
-- 64 submission entries, a power of two that it keeps, and makes 128 completion entries; its masks
-- are 63 and 127, so that `tail & mask` is a remainder. Heads and tails are 32-bit counters.
pub mod Queue
use io_mutiplexing.Common.{
  ℕ, ◌+◌, ◌/◌, ◌%◌, ◌^◌, Bool, Option, none, some, Bytes, ◌==◌, if◌then◌else◌, ℤ, length,
}

-- What an entry's `addr` points to: nothing, the buffer, the timespec or the rest of the data of an
-- operation.
pub data Addr : Type 0 where
  null : Addr
  buf_of ts_of : ℕ → Addr
  send_of : ℕ → ℕ → Addr

-- The fields of `sqe` that the program sets; the others stay zero.
pub record Sqe : Type 0 where
  pub opcode : ℕ
  pub fd : ℕ
  pub addr : Addr
  pub len : ℕ
  pub user_data : ℕ

-- A `cqe`. `buf` is what the kernel has put into the operation's buffer, and `now` the time that the
-- loop reads while it handles the entry.
pub record Cqe : Type 0 where
  pub user_data : ℕ
  pub res : ℤ
  pub buf : Bytes
  pub now : ℕ

pub record Ring : Type 0 where
  pub sq_head : ℕ
  pub sq_tail : ℕ
  pub sq_array : ℕ → ℕ
  pub sqes : ℕ → Sqe
  pub cq_head : ℕ
  pub cq_tail : ℕ
  pub cqes : ℕ → Cqe

abbrev pub sq_entries : ℕ
sq_entries = 64

abbrev pub cq_entries : ℕ
cq_entries = 128

-- `uint32` addition of one.
abbrev pub next : ℕ → ℕ
next n = (n + 1) % 2 ^ 32

-- A write to an array.
abbrev pub update {ℓ} : {A : Type ℓ} → (ℕ → A) → ℕ → A → ℕ → A
update f i a j = if i == j then a else f j

abbrev pub empty_sqe : Sqe
empty_sqe = record { opcode = 0; fd = 0; addr = Addr.null; len = 0; user_data = 0 }

-- The index of the next entry, `tail & sqMask`.
abbrev pub slot : Ring → ℕ
slot r = r.sq_tail % sq_entries

unfoldable pub get_sqe : Ring → Ring
get_sqe r = record r {
  sqes = update r.sqes (slot r) empty_sqe;
  sq_array = update r.sq_array (slot r) (slot r);
}

unfoldable pub advance_tail : Ring → Ring
advance_tail r = record r { sq_tail = next r.sq_tail }

-- An entry taken, written through the pointer and published.
unfoldable pub submit : Sqe → Ring → Ring
unfolding get_sqe advance_tail
submit s r =
    let taken = get_sqe r in advance_tail (record taken { sqes = update taken.sqes (slot r) s })

abbrev pub opcode_timeout : ℕ
opcode_timeout = 11

abbrev pub opcode_accept : ℕ
opcode_accept = 13

abbrev pub opcode_send : ℕ
opcode_send = 26

abbrev pub opcode_recv : ℕ
opcode_recv = 27

abbrev pub buf_size : ℕ
buf_size = 4096

unfoldable pub submit_accept : ℕ → ℕ → Ring → Ring
unfolding submit
submit_accept listener id =
    submit (record empty_sqe { opcode = opcode_accept; fd = listener; user_data = id })

unfoldable pub submit_recv : ℕ → ℕ → Ring → Ring
unfolding submit
submit_recv client id = submit (record {
  opcode = opcode_recv;
  fd = client;
  addr = Addr.buf_of id;
  len = buf_size;
  user_data = id;
})

-- The timespec is in the operation.
unfoldable pub submit_timeout : ℕ → Ring → Ring
unfolding submit
submit_timeout id =
    submit
      (record empty_sqe { opcode = opcode_timeout; addr = Addr.ts_of id; len = 0; user_data = id })

-- `data` is the operation's data from the offset `off` on; its length is cut to 32 bits.
unfoldable pub submit_send : ℕ → Bytes → ℕ → ℕ → Ring → Ring
unfolding submit
submit_send client bytes off id = submit (record {
  opcode = opcode_send;
  fd = client;
  addr = Addr.send_of id off;
  len = length bytes % 2 ^ 32;
  user_data = id;
})

-- The head of the drain loop: the oldest completion that has not been handled.
unfoldable pub next_cqe : Ring → Option Cqe
next_cqe r = if r.cq_head == r.cq_tail then none else some (r.cqes (r.cq_head % cq_entries))

unfoldable pub cqe_seen : Ring → Ring
cqe_seen r = record r { cq_head = next r.cq_head }
