-- ===== src/IoUring/Steps.antt =====
-- server_linux_iouring.go: what one completion does to the registered operations and to the room in
-- the submission ring.
use io_mutiplexing.Common.{
  ℕ, ◌+◌, ◌*◌, ◌%◌, ◌^◌, ◌≤◌, ◌<◌, ◌≡◌, refl, arith, List, [], ◌∷◌, some, length, inl, inr,
  Option-cases, ℤ, pos, negsuc, All,
}
use io_mutiplexing.Common.Maps.{lookup, delete}
use io_mutiplexing.EventLoop.{Env, call, expire, sweep_tick}
use io_mutiplexing.EventLoop.Kqueue.{kqueue_env}
use io_mutiplexing.IoUring.Rings.{
  Cqe, Addr, sq_entries, submit_accept, submit_recv, submit_timeout, empty_sqe, cqe_seen,
  opcode_accept, opcode_recv, opcode_timeout, buf_size,
}
use io_mutiplexing.IoUring.{
  OpKind, accept, recv, send, timeout, IoOp, new_op, Server, register_op, unregister_op,
  post_accept, post_recv, post_timer, accepted, welcome, on_accept, on_timeout, on_recv, on_kind,
  dispatch, handle_cqe, timespec,
}
use io_mutiplexing.IoUring.Drain.{handle_all}
use io_mutiplexing.IoUring.Registry.{
  not-send, HasBooks, submit-HasBooks, delete-HasBooks, Numbered-lookup,
}

module _ {σ : Type 0} where
  abbrev pub Books : ℕ → ℕ → ℕ → ℕ → Server σ → Type 0
  Books old acc tim budget s = HasBooks old acc tim budget s.op_seq s.op_map s.ring

  pub next_id : (s : Server σ) → s.op_seq + 1 < 2 ^ 64 → (s.op_seq + 1) % 2 ^ 64 ≡ s.op_seq + 1
  next_id s small = omega (arith, small)

  module _ (old acc tim budget : ℕ) (s : Server σ) (b : Books old acc tim budget s)
      (small : s.op_seq + 1 < 2 ^ 64) (room : budget < sq_entries) where
    pub post_accept-HasBooks :
        (l : ℕ) → Books old (1 + acc) (0 + tim) (budget + 1) (post_accept l s)
    unfolding post_accept register_op submit_accept
    post_accept-HasBooks l =
        let id = s.op_seq + 1 in
        rw (next_id s small) (
          submit-HasBooks old acc tim budget s.op_seq s.op_map s.ring
            (record (new_op accept l) { id = id })
            (record empty_sqe { opcode = opcode_accept; fd = l; user_data = id }) b refl refl room)

    pub post_recv-HasBooks : (l : ℕ) → Books old (0 + acc) (0 + tim) (budget + 1) (post_recv l s)
    unfolding post_recv register_op submit_recv
    post_recv-HasBooks l =
        let id = s.op_seq + 1 in
        rw (next_id s small) (
          submit-HasBooks old acc tim budget s.op_seq s.op_map s.ring
            (record (new_op recv l) { id = id })
            (record {
              opcode = opcode_recv;
              fd = l;
              addr = Addr.buf_of id;
              len = buf_size;
              user_data = id;
            })
            b refl refl room)

    pub post_timer-HasBooks : Books old (0 + acc) (1 + tim) (budget + 1) (post_timer s)
    unfolding post_timer register_op submit_timeout
    post_timer-HasBooks =
        let id = s.op_seq + 1 in
        rw (next_id s small) (
          submit-HasBooks old acc tim budget s.op_seq s.op_map s.ring
            (record (new_op timeout 0) { id = id; ts = some (timespec sweep_tick) })
            (record empty_sqe {
              opcode = opcode_timeout;
              addr = Addr.ts_of id;
              len = 0;
              user_data = id;
            })
            b refl refl room)

  pub post_accept-seq : (l : ℕ) (s : Server σ) → (post_accept l s).op_seq ≤ s.op_seq + 1
  unfolding post_accept register_op
  post_accept-seq l s = omega arith

  pub post_recv-seq : (l : ℕ) (s : Server σ) → (post_recv l s).op_seq ≤ s.op_seq + 1
  unfolding post_recv register_op
  post_recv-seq l s = omega arith

  pub post_timer-seq : (s : Server σ) → (post_timer s).op_seq ≤ s.op_seq + 1
  unfolding post_timer register_op
  post_timer-seq s = omega arith

  pub more-HasBooks :
      (old acc tim b b' : ℕ) (s : Server σ)
      → b ≤ b'
      → Books old acc tim b s
      → Books old acc tim b' s
  more-HasBooks old acc tim b b' s l h = record {
    distinct = h.distinct;
    numbered = h.numbered;
    has_accepts = h.has_accepts;
    has_timers = h.has_timers;
    no_sends = h.no_sends;
    sq = h.sq;
    spent = omega (arith, l, h.spent);
    past = h.past;
  }

  -- Between two completions: one accept and one timer are registered, and three entries at most
  -- wait or may come.
  abbrev pub IsSteady : ℕ → Server σ → Type 0
  IsSteady old s = Books old 1 1 3 s

  -- The state behind a completion, which has given out two ids at most.
  abbrev pub StepsTo : ℕ → Server σ → Server σ → Type 0
  StepsTo old s t = IsSteady old t × (t.op_seq ≤ s.op_seq + 2)

module _ {σ : Type 0} (e : Env σ) (old : ℕ) where
  accepted-HasBooks :
      (res : ℤ) (now : ℕ) (s : Server σ)
      → Books old 0 1 1 s
      → s.op_seq + 1 < 2 ^ 64
      → Books old 0 1 2 (accepted e res now s) × ((accepted e res now s).op_seq ≤ s.op_seq + 1)
  unfolding welcome
  accepted-HasBooks (pos client) now s b small =
      let t : Server σ = record s { env = call e e.connect client (e.accept client s.env) } in
      (post_recv-HasBooks old 0 1 1 t b small (omega arith) client, post_recv-seq client t)
  accepted-HasBooks (negsuc _) now s b small =
      (more-HasBooks old 0 1 1 2 s (omega arith) b, omega arith)

  -- The operation of a completion that the map has.
  module _ (o : IoOp) (k : ℕ) (s : Server σ) (b : IsSteady old s)
      (found : lookup k s.op_map ≡ some o) (taken_before : k ≤ old)
      (small : s.op_seq + 2 < 2 ^ 64) where
    own_id : o.id ≡ k
    own_id = Numbered-lookup s.op_seq k o s.op_map b.numbered found

    on_accept-StepsTo : (c : Cqe) → o.kind ≡ accept → StepsTo old s (on_accept e o c s)
    unfolding on_accept unregister_op
    on_accept-StepsTo c kind =
        let t : Server σ = record s { op_map = delete o.id s.op_map } in
        let closed_books : Books old 0 1 1 t = rw own_id (
          delete-HasBooks old 1 1 3 s.op_seq s.op_map s.ring o k b found taken_before 0 1 1
            (rw kind refl) (rw kind refl) (rw kind refl)) in
        let (b', l) = accepted-HasBooks c.res c.now t closed_books (omega (arith, small)) in
        (
          post_accept-HasBooks old 0 1 2 (accepted e c.res c.now t) b' (omega (arith, small, l))
              (omega arith) o.fd,
          omega (arith, l, post_accept-seq o.fd (accepted e c.res c.now t)),
        )

    on_timeout-StepsTo : (c : Cqe) → o.kind ≡ timeout → StepsTo old s (on_timeout e o c s)
    unfolding on_timeout unregister_op
    on_timeout-StepsTo c kind =
        let t : Server σ = record s {
          op_map = delete o.id s.op_map;
          deadlines = (expire (kqueue_env e) c.now s.deadlines s.env).0;
          env = (expire (kqueue_env e) c.now s.deadlines s.env).1;
        } in
        let b' : Books old 1 0 2 t = rw own_id (
          delete-HasBooks old 1 1 3 s.op_seq s.op_map s.ring o k b found taken_before 1 0 2
            (rw kind refl) (rw kind refl) (rw kind refl)) in
        (
          post_timer-HasBooks old 1 0 2 t b' (omega (arith, small)) (omega arith),
          omega (arith, post_timer-seq t),
        )

    on_recv-StepsTo : (c : Cqe) → o.kind ≡ recv → StepsTo old s (on_recv e o c s)
    unfolding on_recv unregister_op
    on_recv-StepsTo c kind = (
      rw own_id (
          delete-HasBooks old 1 1 3 s.op_seq s.op_map s.ring o k b found taken_before 1 1 3
            (rw kind refl) (rw kind refl) (rw kind refl)),
      omega arith,
    )

    on_kind-StepsTo :
        (c : Cqe) (kind : OpKind) → o.kind ≡ kind → StepsTo old s (on_kind e kind o c s)
    unfolding on_kind
    on_kind-StepsTo c accept same = on_accept-StepsTo c same
    on_kind-StepsTo c timeout same = on_timeout-StepsTo c same
    on_kind-StepsTo c recv same = on_recv-StepsTo c same
    on_kind-StepsTo c send same =
        absurd (ground (arith, same, not-send old 1 1 3 s.op_seq s.op_map s.ring o k b found))

  seen-HasBooks :
      (acc tim budget : ℕ) (s : Server σ)
      → Books old acc tim budget s
      → Books old acc tim budget (record s { ring = cqe_seen s.ring })
  unfolding cqe_seen
  seen-HasBooks acc tim budget s b = record {
    distinct = b.distinct;
    numbered = b.numbered;
    has_accepts = b.has_accepts;
    has_timers = b.has_timers;
    no_sends = b.no_sends;
    sq = record {
      sq_head_in = b.sq.sq_head_in;
      sq_tail_in = b.sq.sq_tail_in;
      within = b.sq.within;
      own = b.sq.own;
    };
    spent = b.spent;
    past = b.past;
  }

  dispatch-StepsTo :
      (c : Cqe) (s : Server σ)
      → IsSteady old s
      → c.user_data ≤ old
      → s.op_seq + 2 < 2 ^ 64
      → StepsTo old s (dispatch e (lookup c.user_data s.op_map) c s)
  unfolding dispatch
  dispatch-StepsTo c s b before small = elim (Option-cases (lookup c.user_data s.op_map)) [
    | inl unknown ↦ rw (unknown, dispatch) (b, omega arith)
    | inr (o, found) ↦
        rw (found, dispatch) (on_kind-StepsTo o c.user_data s b found before small c o.kind refl)
  ]

  pub handle_all-IsSteady :
      (cs : List Cqe) (s : Server σ)
      → IsSteady old s
      → All (λ c. c.user_data ≤ old) cs
      → s.op_seq + 2 * length cs < 2 ^ 64
      → IsSteady old (handle_all e cs s) × ((handle_all e cs s).op_seq ≤ s.op_seq + 2 * length cs)
  unfolding handle_cqe
  handle_all-IsSteady [] s b h small = (b, omega arith)
  handle_all-IsSteady (c ∷ cs) s b (before, h) small =
      let t = dispatch e (lookup c.user_data s.op_map) c s in
      let (b', l) = dispatch-StepsTo c s b before (omega (arith, small)) in
      let (b'', l') =
        handle_all-IsSteady cs (record t { ring = cqe_seen t.ring }) (seen-HasBooks 1 1 3 t b') h
          (omega (arith, small, l)) in
      (b'', omega (arith, l, l'))
