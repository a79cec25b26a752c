-- ===== src/IoUring.antt =====
-- server_linux_iouring.go: the event loop over io_uring, its registry of operations and the handling
-- of completions. The callbacks and the closing of a descriptor are those of an `Env`, whose `accept`
-- records that the kernel has accepted a connection; nothing is watched.
pub mod Rings
pub mod Drain
pub mod Registry
pub mod Steps
pub mod Room
pub mod Late
pub mod Completions
pub mod Lifecycle
pub mod Served
pub mod Receives
use io_mutiplexing.Common.{
  ℕ, zero, suc, ◌+◌, ◌/◌, ◌%◌, ◌^◌, Bool, true, false, ◌||◌, List, [], ◌∷◌, Option, none, some,
  Bytes, ltb, leb, if◌then◌else◌, length, take, drop, ℤ, pos, negsuc,
}
use io_mutiplexing.Common.Maps.{lookup, insert, delete}
use io_mutiplexing.EventLoop.{
  Env, Run, returned, running, call, expire, idle_timeout, sweep_tick, second,
}
use io_mutiplexing.EventLoop.Kqueue.{kqueue_env}
use io_mutiplexing.IoUring.Rings.{
  Ring, Cqe, sq_entries, submit_accept, submit_recv, submit_timeout, submit_send, next_cqe,
  cqe_seen,
}
use io_mutiplexing.IoUring.Rings.Queue.{queued, consume, post}

pub data OpKind : Type 0 where
  accept recv send timeout : OpKind

-- The `ioOp` of an operation; its buffer is written by the kernel and comes with the completion.
pub record IoOp : Type 0 where
  pub id : ℕ
  pub kind : OpKind
  pub fd : ℕ
  pub send_data : Bytes
  pub send_off : ℕ
  pub ts : Option (ℕ × ℕ)

abbrev pub new_op : OpKind → ℕ → IoOp
new_op kind fd = record { id = 0; kind = kind; fd = fd; send_data = []; send_off = 0; ts = none }

-- The variables of `Run`.
pub record Server (σ : Type 0) : Type 0 where
  pub op_seq : ℕ
  pub op_map : List (ℕ × IoOp)
  pub deadlines : List (ℕ × ℕ)
  pub ring : Ring
  pub env : σ

-- `time.Duration` as seconds and nanoseconds.
abbrev pub timespec : ℕ → ℕ × ℕ
timespec d = (d / second, d % second)

module _ {σ : Type 0} where
  -- The operation gets the next id, which is then `op_seq`.
  unfoldable pub register_op : IoOp → Server σ → Server σ
  unfolding insert
  register_op o s =
      let id = (s.op_seq + 1) % 2 ^ 64 in
      record s { op_seq = id; op_map = insert id (record o { id = id }) s.op_map }

  unfoldable pub unregister_op : IoOp → Server σ → Server σ
  unfolding delete
  unregister_op o s = record s { op_map = delete o.id s.op_map }

  -- An operation made, registered and submitted.
  unfoldable pub post_accept : ℕ → Server σ → Server σ
  unfolding register_op submit_accept
  post_accept listener s =
      let t = register_op (new_op accept listener) s in
      record t { ring = submit_accept listener t.op_seq t.ring }

  unfoldable pub post_recv : ℕ → Server σ → Server σ
  unfolding register_op submit_recv
  post_recv client s =
      let t = register_op (new_op recv client) s in
      record t { ring = submit_recv client t.op_seq t.ring }

  unfoldable pub post_timer : Server σ → Server σ
  unfolding register_op submit_timeout
  post_timer s =
      let t = register_op (record (new_op timeout 0) { ts = some (timespec sweep_tick) }) s in
      record t { ring = submit_timeout t.op_seq t.ring }

abbrev pub sent_more : ℤ → IoOp → IoOp
sent_more (pos n) o = record o { send_off = o.send_off + n }
sent_more (negsuc _) o = o

abbrev pub is_negative : ℤ → Bool
is_negative (pos _) = false
is_negative (negsuc _) = true

module _ {σ : Type 0} (e : Env σ) where
  -- The client of an accept that has succeeded.
  unfoldable pub welcome : ℕ → ℕ → Server σ → Server σ
  unfolding post_recv insert
  welcome client now s =
      let t =
        post_recv client (record s { env = call e e.connect client (e.accept client s.env) }) in
      record t { deadlines = insert client (now + idle_timeout) t.deadlines }

  abbrev pub accepted : ℤ → ℕ → Server σ → Server σ
  accepted (pos client) now s = welcome client now s
  accepted (negsuc _) now s = s

  unfoldable pub on_accept : IoOp → Cqe → Server σ → Server σ
  unfolding welcome unregister_op post_accept
  on_accept o c s = post_accept o.fd (accepted c.res c.now (unregister_op o s))

  -- The timer sweeps the clients whose deadline has passed, and is set again.
  unfoldable pub on_timeout : IoOp → Cqe → Server σ → Server σ
  unfolding unregister_op expire post_timer
  on_timeout o c s =
      let t = unregister_op o s in
      post_timer (record t {
        deadlines = (expire (kqueue_env e) c.now t.deadlines t.env).0;
        env = (expire (kqueue_env e) c.now t.deadlines t.env).1;
      })

  -- What a receive says: an error or the end of the stream, or data.
  abbrev pub received : ℕ → ℤ → Bytes → σ → σ
  received client (pos zero) buf s = e.close client (call e e.disconnect client s)
  received client (negsuc _) buf s = e.close client (call e e.disconnect client s)
  received client (pos (suc n)) buf s =
      e.close client (call e e.disconnect client (e.deliver client (take (suc n) buf) s))

  unfoldable pub on_recv : IoOp → Cqe → Server σ → Server σ
  unfolding unregister_op delete
  on_recv o c s =
      let t = unregister_op o (record s { deadlines = delete o.fd s.deadlines }) in
      record t { env = received o.fd c.res c.buf t.env }

  -- No operation of this kind is ever made; the operation in the map is changed through its pointer.
  unfoldable pub on_send : IoOp → Cqe → Server σ → Server σ
  unfolding unregister_op insert submit_send
  on_send o' c s' =
      let o = sent_more c.res o' in
      let s = record s' { op_map = insert o.id o s'.op_map } in
      if is_negative c.res || leb (length o.send_data) o.send_off
      then unregister_op o (record s { env = e.close o.fd s.env })
      else record s { ring = submit_send o.fd (drop o.send_off o.send_data) o.send_off o.id s.ring }

  unfoldable pub on_kind : OpKind → IoOp → Cqe → Server σ → Server σ
  unfolding on_accept on_timeout on_recv on_send
  on_kind accept o c s = on_accept o c s
  on_kind timeout o c s = on_timeout o c s
  on_kind recv o c s = on_recv o c s
  on_kind send o c s = on_send o c s

  -- A completion of an operation that is not in the map is passed over.
  unfoldable pub dispatch : Option IoOp → Cqe → Server σ → Server σ
  unfolding on_kind
  dispatch none c s = s
  dispatch (some o) c s = on_kind o.kind o c s

  unfoldable pub handle_cqe : Cqe → Server σ → Server σ
  unfolding dispatch lookup cqe_seen
  handle_cqe c s =
      let t = dispatch (lookup c.user_data s.op_map) c s in record t { ring = cqe_seen t.ring }

  -- The drain loop; the first argument bounds its rounds, and the completions that are posted are
  -- enough.
  abbrev pub on_next : (Server σ → Server σ) → Option Cqe → Server σ → Server σ
  on_next loop none s = s
  on_next loop (some c) s = loop (handle_cqe c s)

  unfoldable pub drain : ℕ → Server σ → Server σ
  unfolding handle_cqe next_cqe
  drain zero s = s
  drain (suc rounds) s = on_next (drain rounds) (next_cqe s.ring) s

-- What `io_uring_enter` has done when it returns: nothing, or it has taken the entries that wait,
-- as many as the ring has at most, and completions have been posted.
pub data Woken : Type 0 where
  interrupted failed : Woken
  woken : List Cqe → Woken

abbrev pub taken : Ring → ℕ
taken r = if ltb sq_entries (queued r) then sq_entries else queued r

unfoldable pub post_all : List Cqe → Ring → Ring
unfolding post
post_all [] r = r
post_all (c ∷ cs) r = post_all cs (post c r)

unfoldable pub enter : List Cqe → Ring → Ring
unfolding post_all consume
enter cs r = post_all cs (consume (taken r) r)

-- The state that a loop has returned from or is in.
abbrev pub stopped {ℓ} : {S : Type ℓ} → Run S → S
stopped (returned s) = s
stopped (running s) = s

module _ {σ : Type 0} where
  -- The loop of `Run` behind its first accept and its first timer.
  unfoldable pub run_ring : Env σ → List Woken → Server σ → Run (Server σ)
  unfolding drain enter
  run_ring e [] s = running s
  run_ring e (interrupted ∷ ws) s = run_ring e ws s
  run_ring e (failed ∷ ws) s = returned s
  run_ring e (woken cs ∷ ws) s =
      run_ring e ws (drain e (length cs) (record s { ring = enter cs s.ring }))

  unfoldable pub start_ring : ℕ → Ring → σ → Server σ
  unfolding post_accept post_timer
  start_ring listener r env = post_timer (
      post_accept listener
        (record { op_seq = 0; op_map = []; deadlines = []; ring = r; env = env }))
