-- ===== src/Sending/Conns.antt =====
-- conn_unix.go and conn_windows.go: the other methods of a `Conn`, and the writer that httpserver.go
-- makes of one. A system call is an argument; it is given the descriptor or handle.
use io_mutiplexing.Common.{
  ℕ, ◌≡◌, refl, ◌⊎◌, inl, inr, ◌==◌, Bytes, Option, none, some, if◌then◌else◌, length,
}
use io_mutiplexing.Sending.{Taken, Sent, sent, refused, unfinished, send}
use io_mutiplexing.Sending.Whole.{Progresses, IsEnded, send-IsEnded}

-- The socket of a connection: a file descriptor, or a handle of Windows.
pub record Conn : Type 0 where
  pub fd : ℕ

unfoldable pub key : Conn → ℕ
key c = c.fd

unfoldable pub disconnect {ℓ} : {σ : Type ℓ} → (ℕ → σ → σ) → Conn → σ → σ
disconnect close c s = close c.fd s

module _ {ℓ} {E : Type ℓ} where
  -- The call is given the length of the buffer; it answers how many bytes it has put there, and an
  -- error.
  unfoldable pub recv : (ℕ → ℕ → ℕ × Option E) → Conn → ℕ → ℕ × Option E
  recv read c size = read c.fd size

  -- An empty buffer has no first byte whose address `WSARecv` could be given.
  unfoldable pub recv_wsa : (ℕ → ℕ → ℕ × Option E) → Conn → ℕ → ℕ × Option E
  recv_wsa wsa_recv c size = if size == 0 then (0, none) else wsa_recv c.fd size

  -- What `plainConnWriter.Write` makes of how `Send` has ended; a loop without end does not return.
  abbrev pub written : ℕ → Sent E → Option (ℕ × Option E)
  written size (sent _) = some (size, none)
  written size (refused e _) = some (0, some e)
  written size (unfinished _) = none

  unfoldable pub write_plain : (ℕ → Bytes → Taken E) → Bytes → Option (ℕ × Option E)
  unfolding send
  write_plain call p = written (length p) (send call p)

  -- The length of the data without an error, or no bytes and an error.
  abbrev pub IsAnswer : ℕ → Option (ℕ × Option E) → Type ℓ
  IsAnswer size r = (r ≡ some (size, none)) ⊎ ((e : E) × (r ≡ some (0, some e)))

  written-IsAnswer :
      (p : Bytes) (r : Sent E) → IsEnded p r → IsAnswer (length p) (written (length p) r)
  written-IsAnswer p _ IsEnded.whole = inl refl
  written-IsAnswer p _ (IsEnded.part e off less) = inr (e, refl)

  -- When each `write` of a buffer that is not empty fails or takes one byte or more of it, `Write`
  -- returns, with the length of the data or with no bytes and an error, as `http2Writer` has it.
  pub write_plain-IsAnswer :
      (call : ℕ → Bytes → Taken E) (p : Bytes)
      → Progresses call
      → IsAnswer (length p) (write_plain call p)
  unfolding write_plain
  write_plain-IsAnswer call p h = written-IsAnswer p (send call p) (send-IsEnded call p h)
