-- ===== src/IoUring/Served.antt =====
-- server_linux_iouring.go: what one completion does to the clients that `Connect` was called for.
use io_mutiplexing.EventLoop.Tallies.{IsTally}
use io_mutiplexing.IoUring.Receives.{
  is_recv, recvs, IsRegistry, register_op-IsRegistry, recvs-register_op, unregister_op-IsRegistry,
  recvs-unregister_op, IsRegistry-not_send,
}
use io_mutiplexing.IoUring.{new_op, timespec}
use io_mutiplexing.IoUring.Steps.{post_accept-seq, post_recv-seq, post_timer-seq}
use io_mutiplexing.EventLoop.{sweep_tick}
use io_mutiplexing.Common.{
  ℕ, ◌+◌, ◌^◌, ◌≤◌, ◌<◌, ◌≡◌, refl, arith, false, List, [], ◌∷◌, some, ◌==◌, inl, inr, Option-cases,
  ℤ, pos, negsuc, zero, suc, Bytes, take, ap, ◌∙◌,
}
use io_mutiplexing.Common.Maps.{lookup}
use io_mutiplexing.Common.Counts.{one_if}
use io_mutiplexing.EventLoop.{Env, call, expire}
use io_mutiplexing.EventLoop.Kqueue.{kqueue_env}
use io_mutiplexing.IoUring.Rings.{Cqe}
use io_mutiplexing.IoUring.{
  OpKind, accept, recv, send, timeout, IoOp, Server, register_op, unregister_op, post_accept,
  post_timer, received, accepted, welcome, on_accept, on_timeout, on_recv, on_kind, dispatch,
}
use io_mutiplexing.IoUring.Registry.{is_send}

module _ {σ : Type 0} (e : Env σ) (connects disconnects : ℕ → σ → ℕ)
    (f : IsTally e connects disconnects) where
  -- The clients that `Connect` was called for are those that `Disconnect` was called for and those
  -- with a receive.
  pub record IsServed (s : Server σ) : Type 0 where
    pub registry : IsRegistry s
    pub served : (j : ℕ) → connects j s.env ≡ disconnects j s.env + recvs j s.op_map

  -- The state behind a completion, which has given out two ids at most.
  abbrev pub ServedBy : Server σ → Server σ → Type 0
  ServedBy s t = IsServed t × (t.op_seq ≤ s.op_seq + 2)

  expire-tally :
      (now : ℕ) (m : List (ℕ × ℕ)) (s : σ) (j : ℕ)
      → (connects j (expire (kqueue_env e) now m s).1 ≡ connects j s)
        × (disconnects j (expire (kqueue_env e) now m s).1 ≡ disconnects j s)
  unfolding expire
  expire-tally now [] s j = (refl, refl)
  expire-tally now ((fd, deadline) ∷ m) s j = ground (
    arith,
    f.close_connects fd j s,
    f.close_disconnects fd j s,
    expire-tally now m s j,
    expire-tally now m (e.close fd s) j,
  )

  hang_up-tally :
      (fd j : ℕ) (s : σ)
      → (connects j (e.close fd (call e e.disconnect fd s)) ≡ connects j s)
        × (disconnects j (e.close fd (call e e.disconnect fd s))
            ≡ one_if (fd == j) + disconnects j s)
  hang_up-tally fd j s =
      let t : σ = call e e.disconnect fd s in
      (
        f.close_connects fd j t ∙ f.disconnect_connects fd j s,
        f.close_disconnects fd j t ∙ f.disconnect_disconnects fd j s,
      )

  received-tally :
      (fd : ℕ) (res : ℤ) (buf : Bytes) (s : σ) (j : ℕ)
      → (connects j (received e fd res buf s) ≡ connects j s)
        × (disconnects j (received e fd res buf s) ≡ one_if (fd == j) + disconnects j s)
  received-tally fd (pos zero) buf s j = hang_up-tally fd j s
  received-tally fd (negsuc _) buf s j = hang_up-tally fd j s
  received-tally fd (pos (suc n)) buf s j =
      let bytes : Bytes = take (suc n) buf in
      let (c, d) = hang_up-tally fd j (e.deliver fd bytes s) in
      (
        c ∙ f.deliver_connects fd j bytes s,
        d ∙ ap (λ n. one_if (fd == j) + n) (f.deliver_disconnects fd j bytes s),
      )

  -- A registration that is no receive and leaves the state alone.
  other-IsServed :
      (o : IoOp) (s : Server σ)
      → is_send o.kind ≡ false
      → is_recv o.kind ≡ false
      → IsServed s
      → s.op_seq + 1 < 2 ^ 64
      → IsServed (register_op o s)
  unfolding register_op
  other-IsServed o s plain other h small = record {
    registry = register_op-IsRegistry o s plain h.registry small;
    served = λ j. ground (arith, h.served j, other, recvs-register_op o s j h.registry small);
  }

  pub post_accept-IsServed :
      (l : ℕ) (s : Server σ) → IsServed s → s.op_seq + 1 < 2 ^ 64 → IsServed (post_accept l s)
  unfolding post_accept register_op
  post_accept-IsServed l s h small =
      let h' = other-IsServed (new_op accept l) s refl refl h small in
      record { registry = h'.registry; served = h'.served }

  pub post_timer-IsServed :
      (s : Server σ) → IsServed s → s.op_seq + 1 < 2 ^ 64 → IsServed (post_timer s)
  unfolding post_timer register_op
  post_timer-IsServed s h small =
      let o : IoOp = record (new_op timeout 0) { ts = some (timespec sweep_tick) } in
      let h' = other-IsServed o s refl refl h small in
      record { registry = h'.registry; served = h'.served }

  -- A client that the kernel has accepted.
  accepted-IsServed :
      (res : ℤ) (now : ℕ) (s : Server σ)
      → IsServed s
      → s.op_seq + 1 < 2 ^ 64
      → IsServed (accepted e res now s) × ((accepted e res now s).op_seq ≤ s.op_seq + 1)
  unfolding welcome
  accepted-IsServed (negsuc _) now s h small = (h, omega arith)
  accepted-IsServed (pos client) now s h small =
      let t : Server σ = record s { env = call e e.connect client (e.accept client s.env) } in
      (
        record {
          registry = register_op-IsRegistry (new_op recv client) t refl h.registry small;
          served = λ j. omega (
            arith,
            h.served j,
            f.connect_connects client j (e.accept client s.env),
            f.connect_disconnects client j (e.accept client s.env),
            f.accept_connects client j s.env,
            f.accept_disconnects client j s.env,
            recvs-register_op (new_op recv client) t j h.registry small,
          );
        },
        post_recv-seq client t,
      )

  module _ (o : IoOp) (k : ℕ) (s : Server σ) (h : IsServed s) (found : lookup k s.op_map ≡ some o)
      (small : s.op_seq + 2 < 2 ^ 64) where
    -- An operation that is no receive has completed.
    unregistered-IsServed : is_recv o.kind ≡ false → IsServed (unregister_op o s)
    unfolding unregister_op
    unregistered-IsServed other = record {
      registry = unregister_op-IsRegistry o k s h.registry found;
      served = λ j. ground (arith, h.served j, other, recvs-unregister_op o k s j h.registry found);
    }

    on_accept-ServedBy : (c : Cqe) → o.kind ≡ accept → ServedBy s (on_accept e o c s)
    unfolding on_accept unregister_op
    on_accept-ServedBy c kind =
        let t : Server σ = unregister_op o s in
        let (h', l) =
          accepted-IsServed c.res c.now t (unregistered-IsServed (rw kind refl))
            (omega (arith, small)) in
        let u = accepted e c.res c.now t in
        (
          post_accept-IsServed o.fd u h' (omega (arith, small, l)),
          omega (arith, l, post_accept-seq o.fd u),
        )

    on_timeout-ServedBy : (c : Cqe) → o.kind ≡ timeout → ServedBy s (on_timeout e o c s)
    unfolding on_timeout unregister_op
    on_timeout-ServedBy c kind =
        let swept = expire (kqueue_env e) c.now s.deadlines s.env in
        let t : Server σ = record (unregister_op o s) { deadlines = swept.0; env = swept.1 } in
        let h' = unregistered-IsServed (rw kind refl) in
        (
          post_timer-IsServed t
              (record {
                registry = h'.registry;
                served = λ j. omega (arith, h'.served j, expire-tally c.now s.deadlines s.env j);
              })
              (omega (arith, small)),
          omega (arith, post_timer-seq t),
        )

    on_recv-ServedBy : (c : Cqe) → o.kind ≡ recv → ServedBy s (on_recv e o c s)
    unfolding on_recv unregister_op
    on_recv-ServedBy c kind = (
      record {
        registry = unregister_op-IsRegistry o k s h.registry found;
        served = λ j. ground (
          arith,
          h.served j,
          kind,
          recvs-unregister_op o k s j h.registry found,
          received-tally o.fd c.res c.buf s.env j,
        );
      },
      omega arith,
    )

    on_kind-ServedBy : (c : Cqe) (kind : OpKind) → o.kind ≡ kind → ServedBy s (on_kind e kind o c s)
    unfolding on_kind
    on_kind-ServedBy c accept same = on_accept-ServedBy c same
    on_kind-ServedBy c timeout same = on_timeout-ServedBy c same
    on_kind-ServedBy c recv same = on_recv-ServedBy c same
    on_kind-ServedBy c send same =
        absurd (ground (arith, same, IsRegistry-not_send o k s h.registry found))

  pub dispatch-ServedBy :
      (c : Cqe) (s : Server σ)
      → IsServed s
      → s.op_seq + 2 < 2 ^ 64
      → ServedBy s (dispatch e (lookup c.user_data s.op_map) c s)
  unfolding dispatch
  dispatch-ServedBy c s h small = elim (Option-cases (lookup c.user_data s.op_map)) [
    | inl unknown ↦ rw (unknown, dispatch) (h, omega arith)
    | inr (o, found) ↦
        rw (found, dispatch) (on_kind-ServedBy o c.user_data s h found small c o.kind refl)
  ]
