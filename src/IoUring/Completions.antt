-- ===== src/IoUring/Completions.antt =====
-- server_linux_iouring.go: what the three kinds of completions do to an operation that is in the map.
use io_mutiplexing.Common.{
  ℕ, suc, ◌+◌, ◌%◌, ◌^◌, ◌≤◌, ◌<◌, ◌≡◌, ◌≢◌, refl, ap, arith, none, some, take, pos, negsuc, ℤ,
  zero,
}
use io_mutiplexing.Common.Maps.{
  lookup, insert, delete, HasDistinctKeys, lookup-insert, lookup-delete, is_key-lookup-some,
}
use io_mutiplexing.EventLoop.{Env, call, sweep_tick}
use io_mutiplexing.EventLoop.Kqueue.{kqueue_env, kqueue_env-IsFaithful}
use io_mutiplexing.EventLoop.Trace.{Log, opens, closes, IsFaithful}
use io_mutiplexing.EventLoop.Sweeps.{expire-counts, expire-past}
use io_mutiplexing.IoUring.Rings.{Cqe, cqe_seen}
use io_mutiplexing.IoUring.{
  accept, recv, timeout, IoOp, new_op, Server, register_op, unregister_op, post_accept, post_recv,
  post_timer, welcome, timespec, received, on_accept, on_timeout, on_recv, on_kind, dispatch,
  handle_cqe,
}

abbrev pub recv_op : ℕ → ℕ → IoOp
recv_op id fd = record (new_op recv fd) { id = id }

module _ (e : Env Log) (f : IsFaithful e) where
  -- The kinds of completions, on an operation that is in the map.
  abbrev pub seen : Server Log → Server Log
  seen s = record s { ring = cqe_seen s.ring }

  pub handled :
      (c : Cqe) (o : IoOp) (s : Server Log)
      → lookup c.user_data s.op_map ≡ some o
      → handle_cqe e c s ≡ seen (on_kind e o.kind o c s)
  unfolding handle_cqe dispatch
  handled c o s found = ap (λ x. seen (dispatch e x c s)) found

  -- The sweep closes the descriptor and keeps the receive.
  pub timer-late :
      (c : Cqe) (t : IoOp) (s : Server Log) (fd d : ℕ)
      → HasDistinctKeys s.deadlines
      → lookup fd s.deadlines ≡ some d
      → d < c.now
      → (opens fd (on_timeout e t c s).env ≡ opens fd s.env)
        × (closes fd (on_timeout e t c s).env ≡ closes fd s.env + 1)
  unfolding on_timeout unregister_op post_timer register_op
  timer-late c t s fd d distinct found past =
      let k = kqueue_env e in
      let counts =
        expire-counts k (kqueue_env-IsFaithful e f) c.now s.deadlines s.env fd distinct in
      ground (
        arith,
        counts,
        expire-past k c.now fd d s.deadlines s.env distinct found past,
        is_key-lookup-some fd d s.deadlines found,
      )

  pub timer-ops :
      (c : Cqe) (t : IoOp) (s : Server Log) (k : ℕ)
      → k ≤ s.op_seq
      → k ≢ t.id
      → s.op_seq + 1 < 2 ^ 64
      → (lookup k (on_timeout e t c s).op_map ≡ lookup k s.op_map)
        × ((on_timeout e t c s).op_seq ≡ s.op_seq + 1)
  unfolding on_timeout unregister_op post_timer register_op
  timer-ops c t s k old other small =
      let id = (s.op_seq + 1) % 2 ^ 64 in
      let new : IoOp = record (new_op timeout 0) { id = id; ts = some (timespec sweep_tick) } in
      (
        ground
            (arith, lookup-insert id k new (delete t.id s.op_map), lookup-delete t.id k s.op_map),
        omega (arith, small),
      )

  -- A new client gets the number, and its own receive.
  pub accept-late :
      (c : Cqe) (a : IoOp) (s : Server Log) (fd : ℕ)
      → c.res ≡ pos fd
      → (opens fd (on_accept e a c s).env ≡ opens fd s.env + 1)
        × (closes fd (on_accept e a c s).env ≡ closes fd s.env)
  unfolding on_accept unregister_op post_accept register_op welcome post_recv
  accept-late c a s fd res = rw res (
      ground (
        arith,
        f.connect_opens fd fd (e.accept fd s.env),
        f.connect_closes fd fd (e.accept fd s.env),
        f.accept_opens fd fd s.env,
        f.accept_closes fd fd s.env,
      ))

  pub accept-ops :
      (c : Cqe) (a : IoOp) (s : Server Log) (fd k : ℕ)
      → c.res ≡ pos fd
      → k ≤ s.op_seq
      → k ≢ a.id
      → a.id ≤ s.op_seq
      → s.op_seq + 2 < 2 ^ 64
      → (lookup k (on_accept e a c s).op_map ≡ lookup k s.op_map)
        × (lookup (s.op_seq + 1) (on_accept e a c s).op_map ≡ some (recv_op (s.op_seq + 1) fd))
  unfolding on_accept unregister_op post_accept register_op welcome post_recv
  accept-ops c a s fd k res old other own small =
      let i1 : (s.op_seq + 1) % 2 ^ 64 ≡ s.op_seq + 1 = omega (arith, small) in
      let i2 : (s.op_seq + 1 + 1) % 2 ^ 64 ≡ s.op_seq + 2 = omega (arith, small) in
      let m = delete a.id s.op_map in
      let r = recv_op (s.op_seq + 1) fd in
      let m' = insert (s.op_seq + 1) r m in
      let n : IoOp = record (new_op accept a.fd) { id = s.op_seq + 2 } in
      rw (res, i1, i2)
        (
          ground (
            arith,
            lookup-insert (s.op_seq + 2) k n m',
            lookup-insert (s.op_seq + 1) k r m,
            lookup-delete a.id k s.op_map,
          ),
          ground (
            arith,
            lookup-insert (s.op_seq + 2) (s.op_seq + 1) n m',
            lookup-insert (s.op_seq + 1) (s.op_seq + 1) r m,
          ),
        )

  -- The old receive completes.
  pub recv-late :
      (c : Cqe) (o : IoOp) (s : Server Log) (k : ℕ)
      → k ≢ o.id
      → (opens o.fd (on_recv e o c s).env ≡ opens o.fd s.env)
        × (closes o.fd (on_recv e o c s).env ≡ closes o.fd s.env + 1)
        × (lookup o.fd (on_recv e o c s).deadlines ≡ none)
        × (lookup k (on_recv e o c s).op_map ≡ lookup k s.op_map)
  unfolding on_recv unregister_op
  recv-late c o s k other =
      let (a, b) = ended c.res in
      (
        a,
        b,
        ground (arith, lookup-delete o.fd o.fd s.deadlines),
        ground (arith, lookup-delete o.id k s.op_map),
      )
    where
      close_once :
          (t : Log)
          → opens o.fd t ≡ opens o.fd s.env
          → closes o.fd t ≡ closes o.fd s.env
          → (opens o.fd (e.close o.fd (call e e.disconnect o.fd t)) ≡ opens o.fd s.env)
            × (closes o.fd (e.close o.fd (call e e.disconnect o.fd t)) ≡ closes o.fd s.env + 1)
      close_once t p q =
          let u = call e e.disconnect o.fd t in
          ground (
            arith,
            p,
            q,
            f.close_opens o.fd o.fd u,
            f.close_closes o.fd o.fd u,
            f.disconnect_opens o.fd o.fd t,
            f.disconnect_closes o.fd o.fd t,
          )

      ended :
          (res : ℤ)
          → (opens o.fd (received e o.fd res c.buf s.env) ≡ opens o.fd s.env)
            × (closes o.fd (received e o.fd res c.buf s.env) ≡ closes o.fd s.env + 1)
      ended (pos zero) = close_once s.env refl refl
      ended (negsuc n) = close_once s.env refl refl
      ended (pos (suc n)) =
          close_once (e.deliver o.fd (take (suc n) c.buf) s.env)
            (f.deliver_opens o.fd o.fd (take (suc n) c.buf) s.env)
            (f.deliver_closes o.fd o.fd (take (suc n) c.buf) s.env)
