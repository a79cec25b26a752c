-- ===== src/Sending.antt =====
-- conn_unix.go and conn_windows.go: the loop of `Conn.Send`, over a system call that may take a part
-- of the bytes only.
pub mod Whole
pub mod Conns
use io_mutiplexing.Common.{
  ℕ, zero, suc, ◌+◌, ◌%◌, ◌^◌, ◌++◌, [], Bytes, ltb, if◌then◌else◌, length, take, drop,
}

-- What one `write` or `WSASend` answers: an error, or how many bytes it took.
pub data Taken {ℓ} (E : Type ℓ) : Type ℓ where
  failed : E → Taken E
  took : ℕ → Taken E

-- How `Send` ends, with the bytes that the system took: without an error, or with one. A loop
-- whose rounds are used up has not ended.
pub data Sent {ℓ} (E : Type ℓ) : Type ℓ where
  sent : Bytes → Sent E
  refused : E → Bytes → Sent E
  unfinished : Bytes → Sent E

-- `call n given` is the answer to the `n`-th call; `given` cuts the buffer from what is left.
module _ {ℓ} {E : Type ℓ} (call : ℕ → Bytes → Taken E) (given : Bytes → Bytes) where
  -- One answer, and the loop behind it.
  abbrev pub on_taken : (ℕ → Sent E) → Bytes → Taken E → Sent E
  on_taken loop wire (failed e) = refused e wire
  on_taken loop wire (took k) = loop k

  -- The loop at the offset `off`, behind `n` calls that took `wire`.
  unfoldable pub send_from : ℕ → ℕ → Bytes → ℕ → Bytes → Sent E
  send_from zero n bytes off wire = if ltb off (length bytes) then unfinished wire else sent wire
  send_from (suc rounds) n bytes off wire =
      let buf = given (drop off bytes) in
      let next =
        on_taken (λ k. send_from rounds (suc n) bytes (off + k) (wire ++ take k buf)) wire
          (call n buf) in
      if ltb off (length bytes) then next else sent wire

-- `Send` over `write`, which is given all that is left. A round takes a byte or more, so that the
-- length of the data bounds the rounds.
unfoldable pub send {ℓ} : {E : Type ℓ} → (ℕ → Bytes → Taken E) → Bytes → Sent E
unfolding send_from
send call bytes = send_from call (λ rest. rest) (length bytes) 0 bytes 0 []

-- The buffer of `WSASend`, whose length is a `uint32`.
abbrev pub wsa_buf : Bytes → Bytes
wsa_buf rest = take (length rest % 2 ^ 32) rest

-- `Send` over `WSASend`.
unfoldable pub send_wsa {ℓ} : {E : Type ℓ} → (ℕ → Bytes → Taken E) → Bytes → Sent E
unfolding send_from
send_wsa call bytes = send_from call wsa_buf (length bytes) 0 bytes 0 []
