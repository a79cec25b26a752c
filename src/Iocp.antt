-- ===== src/Iocp.antt =====
-- server_windows.go: the completion loop over IOCP, the operations that it posts and the map that
-- keeps them alive. Winsock, the completion port and Go's allocator are a `Kernel` that acts on a
-- state; the completions are arguments of the steps.
pub mod Held
pub mod Pins
pub mod Counted
pub mod Slots
pub mod Starved
pub mod Tallies
pub mod Lifecycle
use io_mutiplexing.Common.{
  ℕ, zero, suc, ◌+◌, ◌-◌, ◌^◌, Bool, true, false, List, [], ◌∷◌, Option, none, some, Bytes, leb,
  ◌==◌, if◌then◌else◌, length, take, drop,
}
use io_mutiplexing.Common.Maps.{lookup, insert, delete}
use io_mutiplexing.EventLoop.{Env, Loop, call, sweep, start, idle_timeout}
use io_mutiplexing.EventLoop.Kqueue.{kqueue_env}

pub data OpKind : Type 0 where
  accept recv send : OpKind

-- The `ioOp` of an operation. The kernel writes to its buffers, and what it wrote comes with the
-- completion.
pub record IoOp : Type 0 where
  pub kind : OpKind
  pub sock : ℕ
  pub listener : ℕ
  pub send_data : Bytes
  pub send_off : ℕ

-- The callbacks, `Closesocket`, and the other calls. A call that posts an operation is given the
-- operation's address; it has posted it when it gives true, which is also what ERROR_IO_PENDING
-- says.
pub record Kernel (σ : Type 0) : Type 0 where
  pub env : Env σ
  -- The address that Go's allocator gives to a new operation, from those that are pinned.
  pub place : List (ℕ × IoOp) → ℕ
  pub wsa_socket : σ → ℕ × σ
  pub accept_ex : ℕ → ℕ → ℕ → σ → Bool × σ
  pub wsa_recv : ℕ → ℕ → σ → Bool × σ
  pub wsa_send : ℕ → Bytes → ℕ → σ → Bool × σ
  pub update_accept_context : ℕ → ℕ → σ → σ
  pub attach : ℕ → σ → Bool × σ
  -- The completion of the operation at an address leaves the port.
  pub dequeue : ℕ → σ → σ

-- `pins` and the variables of `Run`; the loop has the deadlines, the next sweep and the state that
-- the kernel acts on.
pub record Server (σ : Type 0) : Type 0 where
  pub pins : List (ℕ × IoOp)
  pub loop : Loop σ

abbrev pub invalid_socket : ℕ
invalid_socket = 2 ^ 64 - 1

abbrev pub new_op : OpKind → ℕ → IoOp
new_op kind sock = record { kind = kind; sock = sock; listener = 0; send_data = []; send_off = 0 }

module _ {σ : Type 0} where
  abbrev pub with_env : σ → Server σ → Server σ
  with_env t s = record s { loop = record s.loop { env = t } }

  unfoldable pub pin_op : ℕ → IoOp → Server σ → Server σ
  unfolding insert
  pin_op a o s = record s { pins = insert a o s.pins }

  unfoldable pub unpin_op : ℕ → Server σ → Server σ
  unfolding delete
  unpin_op a s = record s { pins = delete a s.pins }

  unfoldable pub set_deadline : ℕ → ℕ → Server σ → Server σ
  unfolding insert
  set_deadline client t s = record s {
    loop = record s.loop { deadlines = insert client t s.loop.deadlines };
  }

  unfoldable pub drop_deadline : ℕ → Server σ → Server σ
  unfolding delete
  drop_deadline client s = record s {
    loop = record s.loop { deadlines = delete client s.loop.deadlines };
  }

module _ {σ : Type 0} (k : Kernel σ) where
  abbrev pub close_socket : ℕ → Server σ → Server σ
  close_socket sock s = with_env (k.env.close sock s.loop.env) s

  -- What a call has answered: true is no error.
  abbrev pub if_posted : Bool → Server σ → Server σ → Bool × Server σ
  if_posted true posted refused = (true, posted)
  if_posted false posted refused = (false, refused)

  abbrev new_overlapped_socket : ℕ × σ → Option ℕ × σ
  new_overlapped_socket (r, t) = (if r == invalid_socket then none else some r, t)

  -- `AcceptEx` on a new socket; the operation is pinned before the call.
  abbrev pub accept_with : ℕ → Option ℕ → Server σ → Bool × Server σ
  accept_with listener none s = (false, s)
  accept_with listener (some sock) s =
      let a = k.place s.pins in
      let pinned = pin_op a (record (new_op accept sock) { listener = listener }) s in
      let answer = k.accept_ex listener sock a pinned.loop.env in
      if_posted answer.0 (with_env answer.1 pinned)
        (close_socket sock (unpin_op a (with_env answer.1 pinned)))

  unfoldable pub post_accept : ℕ → Server σ → Bool × Server σ
  unfolding pin_op unpin_op
  post_accept listener s =
      let opened = new_overlapped_socket (k.wsa_socket s.loop.env) in
      accept_with listener opened.0 (with_env opened.1 s)

  unfoldable pub post_recv : ℕ → Server σ → Bool × Server σ
  unfolding pin_op unpin_op
  post_recv client s =
      let a = k.place s.pins in
      let pinned = pin_op a (new_op recv client) s in
      let answer = k.wsa_recv client a pinned.loop.env in
      if_posted answer.0 (with_env answer.1 pinned) (unpin_op a (with_env answer.1 pinned))

  -- Nothing calls this; it takes the address of the first byte, which empty data does not have.
  unfoldable pub post_send : ℕ → Bytes → Server σ → Option (Bool × Server σ)
  unfolding pin_op unpin_op
  post_send client [] s = none
  post_send client (b ∷ bytes) s =
      let a = k.place s.pins in
      let pinned = pin_op a (record (new_op send client) { send_data = b ∷ bytes }) s in
      let answer = k.wsa_send client (b ∷ bytes) a pinned.loop.env in
      some (if_posted answer.0 (with_env answer.1 pinned) (unpin_op a (with_env answer.1 pinned)))

  -- The first accepts; an error ends `Run`.
  unfoldable pub post_accepts : ℕ → ℕ → Server σ → Bool × Server σ
  unfolding post_accept
  post_accepts zero listener s = (true, s)
  post_accepts (suc n) listener s =
      let first = post_accept listener s in
      let rest = post_accepts n listener first.1 in if first.0 then rest else first

  -- The receive of a new client, and its deadline.
  abbrev pub welcomed : ℕ → ℕ → Bool × Server σ → Server σ
  welcomed client now (true, s) = set_deadline client (now + idle_timeout) s
  welcomed client now (false, s) = close_socket client s

  -- An accept that has completed without an error, by the answer of `CreateIoCompletionPort`.
  abbrev pub attached : ℕ → IoOp → ℕ → Bool × σ → Server σ → Server σ
  attached a o now (false, t) s = unpin_op a (close_socket o.sock (with_env t s))
  attached a o now (true, t) s =
      let connected = with_env (call k.env k.env.connect o.sock t) (unpin_op a s) in
      welcomed o.sock now (post_recv o.sock connected)

  -- In each case one accept is posted in the place of the one that completed; whether that
  -- succeeds is not looked at.
  unfoldable pub on_accept : ℕ → IoOp → Bool → ℕ → Server σ → Server σ
  unfolding unpin_op post_accept post_recv set_deadline
  on_accept a o true now s = (post_accept o.listener (unpin_op a (close_socket o.sock s))).1
  on_accept a o false now s =
      let updated = k.update_accept_context o.sock o.listener s.loop.env in
      (post_accept o.listener (attached a o now (k.attach o.sock updated) (with_env updated s))).1

  -- An error or no bytes: the client is disconnected. Else the bytes are delivered first.
  abbrev pub received : ℕ → Bool → ℕ → Bytes → σ → σ
  received client true n buf t = call k.env k.env.disconnect client t
  received client false zero buf t = call k.env k.env.disconnect client t
  received client false (suc n) buf t =
      call k.env k.env.disconnect client (k.env.deliver client (take (suc n) buf) t)

  unfoldable pub on_recv : ℕ → IoOp → Bool → ℕ → Bytes → Server σ → Server σ
  unfolding unpin_op drop_deadline
  on_recv a o failed n buf s =
      let s = unpin_op a (drop_deadline o.sock s) in
      close_socket o.sock (with_env (received o.sock failed n buf s.loop.env) s)

  -- The rest of what is sent, posted under the same operation.
  abbrev pub resent : ℕ → IoOp → Bool × σ → Server σ → Server σ
  resent a o (true, t) s = with_env t s
  resent a o (false, t) s = unpin_op a (close_socket o.sock (with_env t s))

  unfoldable pub on_send : ℕ → IoOp → Bool → ℕ → Server σ → Server σ
  unfolding pin_op unpin_op
  on_send a o' true n s = unpin_op a (close_socket o'.sock s)
  on_send a o' false n s' =
      let o = record o' { send_off = o'.send_off + n } in
      let s = pin_op a o s' in
      let rest = drop o.send_off o.send_data in
      if leb (length o.send_data) o.send_off
      then unpin_op a (close_socket o.sock s)
      else resent a o (k.wsa_send o.sock rest a s.loop.env) s

-- A return of `GetQueuedCompletionStatus`: without an operation, for a timeout or an error, or with
-- the address of one, whether the operation failed, how many bytes it moved and what is in its
-- buffer. `now` is the time that is read behind it.
pub data Wait : Type 0 where
  idle : ℕ → Wait
  completed : ℕ → Bool → ℕ → Bytes → ℕ → Wait

module _ {σ : Type 0} (k : Kernel σ) where
  unfoldable pub on_kind : OpKind → ℕ → IoOp → Bool → ℕ → Bytes → ℕ → Server σ → Server σ
  unfolding on_accept on_recv on_send
  on_kind accept a o failed n buf now s = on_accept k a o failed now s
  on_kind recv a o failed n buf now s = on_recv k a o failed n buf s
  on_kind send a o failed n buf now s = on_send k a o failed n s

  -- The code takes the address for an operation. One that is not pinned may have been freed; the
  -- model then leaves the state as it is.
  unfoldable pub dispatch : Option IoOp → ℕ → Bool → ℕ → Bytes → ℕ → Server σ → Server σ
  unfolding on_kind
  dispatch none a failed n buf now s = s
  dispatch (some o) a failed n buf now s = on_kind o.kind a o failed n buf now s

  unfoldable pub on_wait : Wait → Server σ → Server σ
  unfolding dispatch lookup sweep
  on_wait (idle now) s = record s { loop = sweep (kqueue_env k.env) now s.loop }
  on_wait (completed a failed n buf now) s =
      dispatch (lookup a s.pins) a failed n buf now (with_env (k.dequeue a s.loop.env) s)

  unfoldable pub run_iocp : List Wait → Server σ → Server σ
  unfolding on_wait
  run_iocp [] s = s
  run_iocp (w ∷ ws) s = run_iocp ws (on_wait w s)

  abbrev pub entered : Bool × Server σ → Option (Server σ)
  entered (true, s) = some s
  entered (false, s) = none

  -- `Run` behind the creation of the port: the accepts, then the loop, whose beginning is at the
  -- time `now`.
  unfoldable pub start_iocp : ℕ → ℕ → σ → Option (Server σ)
  unfolding post_accepts
  start_iocp listener now t =
      entered (post_accepts k 8 listener (record { pins = []; loop = start now t }))
