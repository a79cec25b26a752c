-- ===== src/IoUring/Drain.antt =====
-- server_linux_iouring.go: the drain loop handles the completions that were posted, each once.
use mathlib.Core.Path.{subst}
use io_mutiplexing.Common.{
  ℕ, ◌+◌, ◌%◌, ◌^◌, ◌≤◌, ◌<◌, ◌≡◌, refl, sym, ap, ◌∙◌, arith, List, [], ◌∷◌, ◌++◌, append_assoc,
  append-nil, Option, none, some, leb, ◌||◌, length, inl, inr, Bool-cases, ℤ, pos, negsuc,
}
use io_mutiplexing.Common.Maps.{lookup}
use io_mutiplexing.EventLoop.{Env}
use io_mutiplexing.IoUring.Rings.{
  Ring, Cqe, cq_entries, next, submit, get_sqe, advance_tail, cqe_seen, submit_send, submit_accept,
  submit_recv, submit_timeout,
}
use io_mutiplexing.IoUring.Rings.Queue.{
  span, between, IsCq, unseen, unseen_count, unseen-post, next_cqe-unseen, consume, post,
}
use io_mutiplexing.IoUring.{
  IoOp, OpKind, accept, recv, send, timeout, Server, dispatch, on_kind, on_accept, on_timeout,
  on_recv, on_send, handle_cqe, drain, post_all, enter, taken, sent_more, is_negative,
  unregister_op, register_op, accepted, welcome, post_accept, post_recv, post_timer,
}

-- What a ring holds of completions.
abbrev Cq : Type 0
Cq = ℕ × ℕ × (ℕ → Cqe)

abbrev cq_of : Ring → Cq
cq_of r = (r.cq_head, r.cq_tail, r.cqes)

abbrev unseen_of : Cq → List Cqe
unseen_of q = span (λ t. q.2 (t % cq_entries)) q.0 (between q.0 q.1)

abbrev seen_of : Cq → Cq
seen_of q = (next q.0, q.1, q.2)

abbrev Bounded : Cq → Type 0
Bounded q = (q.0 < 2 ^ 32) × (q.1 < 2 ^ 32)

module _ {σ : Type 0} (e : Env σ) where
  abbrev pub handle_all : List Cqe → Server σ → Server σ
  handle_all [] s = s
  handle_all (c ∷ cs) s = handle_all cs (handle_cqe e c s)

  accepted-cq :
      (res : ℤ) (now : ℕ) (s : Server σ) → cq_of (accepted e res now s).ring ≡ cq_of s.ring
  unfolding welcome post_recv register_op submit_recv submit get_sqe advance_tail
  accepted-cq (pos client) now s = refl
  accepted-cq (negsuc _) now s = refl

  on_accept-cq : (o : IoOp) (c : Cqe) (s : Server σ) → cq_of (on_accept e o c s).ring ≡ cq_of s.ring
  unfolding on_accept unregister_op post_accept register_op submit_accept submit get_sqe
      advance_tail
  on_accept-cq o c s = accepted-cq c.res c.now (unregister_op o s)

  on_send-cq : (o : IoOp) (c : Cqe) (s : Server σ) → cq_of (on_send e o c s).ring ≡ cq_of s.ring
  unfolding on_send unregister_op submit_send submit get_sqe advance_tail
  on_send-cq o c s =
      elim (Bool-cases (
        is_negative c.res
        || leb (length (sent_more c.res o).send_data) (sent_more c.res o).send_off)) [
          | inl t ↦ rw t refl
          | inr t ↦ rw t refl
        ]

  on_kind-cq :
      (k : OpKind) (o : IoOp) (c : Cqe) (s : Server σ)
      → cq_of (on_kind e k o c s).ring ≡ cq_of s.ring
  unfolding on_kind on_timeout on_recv unregister_op post_timer register_op submit_timeout submit
      get_sqe advance_tail
  on_kind-cq accept o c s = on_accept-cq o c s
  on_kind-cq timeout o c s = refl
  on_kind-cq recv o c s = refl
  on_kind-cq send o c s = on_send-cq o c s

  dispatch-cq :
      (o : Option IoOp) (c : Cqe) (s : Server σ) → cq_of (dispatch e o c s).ring ≡ cq_of s.ring
  unfolding dispatch
  dispatch-cq none c s = refl
  dispatch-cq (some o) c s = on_kind-cq o.kind o c s

  -- Handling a completion takes it off the ring, and nothing else of what was posted.
  handle_cqe-cq : (c : Cqe) (s : Server σ) → cq_of (handle_cqe e c s).ring ≡ seen_of (cq_of s.ring)
  unfolding handle_cqe cqe_seen
  handle_cqe-cq c s = ap seen_of (dispatch-cq (lookup c.user_data s.op_map) c s)

  drain-handle_all :
      (cs : List Cqe) (s : Server σ)
      → Bounded (cq_of s.ring)
      → unseen s.ring ≡ cs
      → (drain e (length cs) s ≡ handle_all cs s)
        × (unseen (handle_all cs s).ring ≡ [])
        × Bounded (cq_of (handle_all cs s).ring)
  unfolding drain cqe_seen
  drain-handle_all [] s b u = (refl, u, b)
  drain-handle_all (c ∷ cs) s b u =
      elim (next_cqe-unseen s.ring (record { cq_head_in = b.0; cq_tail_in = b.1 })) [
        | inl (_, empty) ↦ cc
        | inr (c', first, more) ↦
            let here : c' ≡ c = cc in
            let rest : unseen (cqe_seen s.ring) ≡ cs = cc in
            rw (first, here)
              (drain-handle_all cs (handle_cqe e c s)
                (subst Bounded (sym (handle_cqe-cq c s)) (omega arith, b.1))
                (ap unseen_of (handle_cqe-cq c s) ∙ rest))
      ]

unseen_count-post :
    (c : Cqe) (r : Ring)
    → IsCq r
    → unseen_count r < cq_entries
    → unseen_count (post c r) ≡ unseen_count r + 1
unfolding post
unseen_count-post c r v room = omega (arith, room, v.cq_head_in, v.cq_tail_in)

post-IsCq : (c : Cqe) (r : Ring) → IsCq r → IsCq (post c r)
unfolding post
post-IsCq c r v = record { cq_head_in = v.cq_head_in; cq_tail_in = omega arith }

-- What the kernel posts while there is room comes behind what is there.
post_all-unseen :
    (cs : List Cqe) (r : Ring)
    → IsCq r
    → unseen_count r + length cs ≤ cq_entries
    → IsCq (post_all cs r) × (unseen (post_all cs r) ≡ unseen r ++ cs)
unfolding post_all
post_all-unseen [] r v room = (v, sym (append-nil (unseen r)))
post_all-unseen (c ∷ cs) r v room =
    let (v', e) =
      post_all-unseen cs (post c r) (post-IsCq c r v)
        (omega (arith, room, unseen_count-post c r v (omega (arith, room)))) in
    (
      v',
      e
          ∙ ap (λ t. t ++ cs) (unseen-post c r v (omega (arith, room)))
          ∙ append_assoc (unseen r) (c ∷ []) cs,
    )

-- When a call of `io_uring_enter` returns with at most 128 completions, at a moment when none were
-- left unhandled, the drain loop handles them in the order in which they were posted, each once,
-- and leaves none, whatever the 32-bit counters of the ring stand at.
pub drain-enter :
    {σ : Type 0} (e : Env σ) (cs : List Cqe) (s : Server σ)
    → IsCq s.ring
    → unseen_count s.ring ≡ 0
    → length cs ≤ cq_entries
    → (drain e (length cs) (record s { ring = enter cs s.ring })
        ≡ handle_all e cs (record s { ring = enter cs s.ring }))
      × (unseen (handle_all e cs (record s { ring = enter cs s.ring })).ring ≡ [])
      × ((handle_all e cs (record s { ring = enter cs s.ring })).ring.cq_head < 2 ^ 32)
      × ((handle_all e cs (record s { ring = enter cs s.ring })).ring.cq_tail < 2 ^ 32)
unfolding enter consume
drain-enter e cs s v empty room =
    let r = consume (taken s.ring) s.ring in
    let (v', u) =
      post_all-unseen cs r (record { cq_head_in = v.cq_head_in; cq_tail_in = v.cq_tail_in })
        (omega (arith, empty, room)) in
    let none_left : unseen r ≡ [] =
      ap (span (λ t. s.ring.cqes (t % cq_entries)) s.ring.cq_head) empty in
    let (same, done, b) =
      drain-handle_all e cs (record s { ring = enter cs s.ring }) (v'.cq_head_in, v'.cq_tail_in)
        (u ∙ ap (λ t. t ++ cs) none_left) in
    (same, done, b.0, b.1)
