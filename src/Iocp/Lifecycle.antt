-- ===== src/Iocp/Lifecycle.antt =====
-- server_windows.go: the `Connect` and the `Disconnect` of each client, over a run of the loop.
use mathlib.Core.Path.{subst}
use io_mutiplexing.Common.{
  ℕ, zero, suc, ◌+◌, ◌≡◌, refl, sym, ap, ◌∙◌, arith, inl, inr, Bool, true, false, Bool-cases, List,
  [], ◌∷◌, Option, none, some, Bytes, ◌==◌, ltb, take,
}
use io_mutiplexing.Common.Maps.{lookup, insert, delete, is_key, delete-insert, delete-absent}
use io_mutiplexing.Common.Counts.{one_if, count, count-delete}
use io_mutiplexing.EventLoop.{call, start, expire, sweep}
use io_mutiplexing.EventLoop.Kqueue.{kqueue_env}
use io_mutiplexing.Iocp.{
  OpKind, accept, recv, send, IoOp, Kernel, Server, with_env, pin_op, unpin_op, new_op,
  set_deadline, drop_deadline, close_socket, accept_with, post_accept, post_recv, post_accepts,
  welcomed, attached, on_accept, received, on_recv, Wait, idle, completed, on_kind, dispatch,
  on_wait, run_iocp, start_iocp, entered,
}
use io_mutiplexing.Iocp.Counted.{Pins, is_send}
use io_mutiplexing.Iocp.Tallies.{
  Tally, IsTally, recvs, Attended, quiet-Attended, insert-Attended, delete-Attended,
  posted-Attended, refused-Attended, completed-Attended, one_if_refused,
}

module _ {σ : Type 0} (k : Kernel σ) (tally : ℕ → σ → Tally) (f : IsTally k tally)
    (fresh : (m : Pins) → is_key (k.place m) m ≡ false) where
  abbrev IsAttended : Server σ → Type 0
  IsAttended s = Attended tally s.pins s.loop.env

  -- An operation that was refused is pinned no longer.
  unpinned-Attended :
      (o : IoOp) (m : Pins) (t : σ)
      → Attended tally m t
      → Attended tally (delete (k.place m) (insert (k.place m) o m)) t
  unpinned-Attended o m t h =
      subst (λ m. Attended tally m t)
        (sym (delete-insert (k.place m) o m ∙ delete-absent (k.place m) m (fresh m))) h

  closed-Attended :
      (c : ℕ) (m : Pins) (t : σ) → Attended tally m t → Attended tally m (k.env.close c t)
  closed-Attended c m t h = quiet-Attended tally m t _ (λ j. f.close_tally c j t) h

  accept_with-Attended :
      (listener : ℕ) (sock : Option ℕ) (s : Server σ)
      → IsAttended s
      → IsAttended (accept_with k listener sock s).1
  unfolding pin_op unpin_op
  accept_with-Attended listener none s h = h
  accept_with-Attended listener (some sock) s h =
      let a = k.place s.pins in
      let o : IoOp = record (new_op accept sock) { listener = listener } in
      let asked = k.accept_ex listener sock a s.loop.env in
      let h' =
        quiet-Attended tally s.pins s.loop.env asked.1
          (λ j. f.accept_ex_tally listener sock a j s.loop.env) h in
      elim (Bool-cases asked.0) [
        | inl good ↦ rw good (insert-Attended tally a o s.pins asked.1 refl refl (fresh s.pins) h')
        | inr bad ↦ rw bad (closed-Attended sock _ asked.1 (unpinned-Attended o s.pins asked.1 h'))
      ]

  post_accept-Attended :
      (listener : ℕ) (s : Server σ) → IsAttended s → IsAttended (post_accept k listener s).1
  unfolding post_accept
  post_accept-Attended listener s h =
      let opened = k.wsa_socket s.loop.env in
      accept_with-Attended listener _ (with_env opened.1 s)
        (quiet-Attended tally s.pins s.loop.env opened.1 (λ j. f.wsa_socket_tally j s.loop.env) h)

  -- Behind `Connect`, the receive's answer.
  asked_lem :
      (c a : ℕ) (t : σ) (b : Bool) (j : ℕ)
      → (k.wsa_recv c a (call k.env k.env.connect c t)).0 ≡ b
      → tally j (k.wsa_recv c a (call k.env k.env.connect c t)).1 ≡ record (tally j t) {
        connects = one_if (c == j) + (tally j t).connects;
        refusals = one_if_refused b (c == j) + (tally j t).refusals;
      }
  asked_lem c a t b j e =
      f.wsa_recv_tally c a j (call k.env k.env.connect c t)
      ∙ ap
          (λ (y : Tally). record y {
            refusals =
                one_if_refused (k.wsa_recv c a (call k.env k.env.connect c t)).0 (c == j)
                + y.refusals;
          })
          (f.connect_tally c j t)
      ∙ ap
          (λ b. record (tally j t) {
            connects = one_if (c == j) + (tally j t).connects;
            refusals = one_if_refused b (c == j) + (tally j t).refusals;
          })
          e

  -- `Connect` and the post of the receive, by whether that is refused.
  welcomed-Attended :
      (c now : ℕ) (s : Server σ)
      → IsAttended s
      → IsAttended
          (welcomed k c now (post_recv k c (with_env (call k.env k.env.connect c s.loop.env) s)))
  unfolding post_recv set_deadline pin_op unpin_op
  welcomed-Attended c now s h =
      let a = k.place s.pins in
      let o : IoOp = new_op recv c in
      let t = call k.env k.env.connect c s.loop.env in
      let asked = k.wsa_recv c a t in
      elim (Bool-cases asked.0) [
        | inl good ↦ rw good (
            posted-Attended tally c a s.pins s.loop.env asked.1 (fresh s.pins)
              (λ j. asked_lem c a s.loop.env true j good) h)
        | inr bad ↦ rw bad (
            closed-Attended c _ asked.1 (
              unpinned-Attended o s.pins asked.1 (
                refused-Attended tally c s.pins s.loop.env asked.1
                  (λ j. asked_lem c a s.loop.env false j bad) h)))
      ]

  attached-Attended :
      (a : ℕ) (o : IoOp) (now : ℕ) (answer : Bool × σ) (s : Server σ)
      → ((j : ℕ) → tally j answer.1 ≡ tally j s.loop.env)
      → Attended tally (delete a s.pins) s.loop.env
      → IsAttended (attached k a o now answer s)
  unfolding unpin_op
  attached-Attended a o now (false, t) s same h =
      closed-Attended o.sock _ t (quiet-Attended tally _ s.loop.env t same h)
  attached-Attended a o now (true, t) s same h =
      welcomed-Attended o.sock now (with_env t (unpin_op a s))
        (quiet-Attended tally _ s.loop.env t same h)

  on_accept-Attended :
      (a : ℕ) (o : IoOp) (bad : Bool) (now : ℕ) (s : Server σ)
      → Attended tally (delete a s.pins) s.loop.env
      → IsAttended (on_accept k a o bad now s)
  unfolding on_accept unpin_op
  on_accept-Attended a o true now s h =
      post_accept-Attended o.listener (unpin_op a (close_socket k o.sock s))
        (closed-Attended o.sock _ s.loop.env h)
  on_accept-Attended a o false now s h =
      let t = k.update_accept_context o.sock o.listener s.loop.env in
      post_accept-Attended o.listener (attached k a o now (k.attach o.sock t) (with_env t s)) (
        attached-Attended a o now (k.attach o.sock t) (with_env t s)
          (λ j. f.attach_tally o.sock j t)
          (quiet-Attended tally _ s.loop.env t (λ j. f.update_tally o.sock o.listener j s.loop.env)
            h))

  received_lem :
      (c : ℕ) (bad : Bool) (n : ℕ) (buf : Bytes) (t : σ) (j : ℕ)
      → tally j (received k c bad n buf t)
        ≡ record (tally j t) { disconnects = one_if (c == j) + (tally j t).disconnects }
  received_lem c true n buf t j = f.disconnect_tally c j t
  received_lem c false zero buf t j = f.disconnect_tally c j t
  received_lem c false (suc n) buf t j =
      let u = k.env.deliver c (take (suc n) buf) t in
      f.disconnect_tally c j u
      ∙ ap (λ (y : Tally). record y { disconnects = one_if (c == j) + y.disconnects })
          (f.deliver_tally c j (take (suc n) buf) t)

  on_recv-Attended :
      (a : ℕ) (o : IoOp) (bad : Bool) (n : ℕ) (buf : Bytes) (s : Server σ)
      → o.kind ≡ recv
      → lookup a s.pins ≡ some o
      → IsAttended s
      → IsAttended (on_recv k a o bad n buf s)
  unfolding on_recv unpin_op drop_deadline
  on_recv-Attended a o bad n buf s kind found h = closed-Attended o.sock _ _ (
      completed-Attended tally a o s.pins s.loop.env _ kind found
        (received_lem o.sock bad n buf s.loop.env) h)

  on_kind-Attended :
      (kind : OpKind) (a : ℕ) (o : IoOp) (bad : Bool) (n : ℕ) (buf : Bytes) (now : ℕ) (s : Server σ)
      → o.kind ≡ kind
      → lookup a s.pins ≡ some o
      → IsAttended s
      → IsAttended (on_kind k kind a o bad n buf now s)
  unfolding on_kind
  on_kind-Attended accept a o bad n buf now s same found h =
      on_accept-Attended a o bad now s
        (delete-Attended tally a o s.pins s.loop.env (rw same refl) found h)
  on_kind-Attended recv a o bad n buf now s same found h =
      on_recv-Attended a o bad n buf s same found h
  on_kind-Attended send a o bad n buf now s same found h = absurd (
      ground
        (arith, same, count-delete (λ a o. is_send o.kind) a o s.pins h.distinct found, h.no_sends))

  dispatch-Attended :
      (found : Option IoOp) (a : ℕ) (bad : Bool) (n : ℕ) (buf : Bytes) (now : ℕ) (s : Server σ)
      → lookup a s.pins ≡ found
      → IsAttended s
      → IsAttended (dispatch k found a bad n buf now s)
  unfolding dispatch
  dispatch-Attended none a bad n buf now s e h = h
  dispatch-Attended (some o) a bad n buf now s e h =
      on_kind-Attended o.kind a o bad n buf now s refl e h

  expire_lem :
      (now : ℕ) (m : List (ℕ × ℕ)) (t : σ) (j : ℕ)
      → tally j (expire (kqueue_env k.env) now m t).1 ≡ tally j t
  unfolding expire
  expire_lem now [] t j = refl
  expire_lem now ((c, deadline) ∷ m) t j = elim (Bool-cases (ltb deadline now)) [
    | inl past ↦ rw past (expire_lem now m (k.env.close c t) j ∙ f.close_tally c j t)
    | inr early ↦ rw early (expire_lem now m t j)
  ]

  on_wait-Attended : (w : Wait) (s : Server σ) → IsAttended s → IsAttended (on_wait k w s)
  unfolding on_wait sweep
  on_wait-Attended (idle now) s h = elim (Bool-cases (ltb now s.loop.next_sweep)) [
    | inl early ↦ rw early h
    | inr due ↦
        rw due
          (quiet-Attended tally s.pins s.loop.env _ (expire_lem now s.loop.deadlines s.loop.env) h)
  ]
  on_wait-Attended (completed a bad n buf now) s h =
      let t = k.dequeue a s.loop.env in
      dispatch-Attended (lookup a s.pins) a bad n buf now (with_env t s) refl
        (quiet-Attended tally s.pins s.loop.env t (λ j. f.dequeue_tally a j s.loop.env) h)

  run_iocp-Attended : (ws : List Wait) (s : Server σ) → IsAttended s → IsAttended (run_iocp k ws s)
  unfolding run_iocp
  run_iocp-Attended [] s h = h
  run_iocp-Attended (w ∷ ws) s h = run_iocp-Attended ws (on_wait k w s) (on_wait-Attended w s h)

  post_accepts-Attended :
      (n listener : ℕ) (s : Server σ) → IsAttended s → IsAttended (post_accepts k n listener s).1
  unfolding post_accepts
  post_accepts-Attended zero listener s h = h
  post_accepts-Attended (suc n) listener s h =
      let first = post_accept k listener s in
      let h' = post_accept-Attended listener s h in
      elim (Bool-cases first.0) [
        | inl good ↦ rw good (post_accepts-Attended n listener first.1 h')
        | inr bad ↦ rw bad h'
      ]

  entered-Attended :
      (r : Bool × Server σ) (s : Server σ) → entered k r ≡ some s → IsAttended r.1 → IsAttended s
  entered-Attended (true, s') s e h = let same : s' ≡ s = cc in subst IsAttended same h
  entered-Attended (false, s') s e h = cc

-- Over any run of the IOCP loop, when the allocator does not reuse the address of a pinned
-- operation: `Connect` has been called for a socket as often as `Disconnect`, once more for each of
-- its receives that are pinned, and once more for each receive that was refused. So a client that
-- was connected is disconnected when its receive completes, and only then; one whose receive was
-- refused is not.
pub run_iocp-connects :
    {σ : Type 0} (k : Kernel σ) (tally : ℕ → σ → Tally) (listener now : ℕ) (t : σ) (s : Server σ)
    (ws : List Wait) (j : ℕ)
    → IsTally k tally
    → ((m : List (ℕ × IoOp)) → is_key (k.place m) m ≡ false)
    → ((i : ℕ) → (tally i t).connects ≡ (tally i t).disconnects + (tally i t).refusals)
    → start_iocp k listener now t ≡ some s
    → let s' = run_iocp k ws s in
      (tally j s'.loop.env).connects
      ≡ (tally j s'.loop.env).disconnects + recvs j s'.pins + (tally j s'.loop.env).refusals
unfolding start_iocp count
run_iocp-connects {σ = σ} k tally listener now t s ws j f fresh none_seen e =
    let empty : Server σ = record { pins = []; loop = start now t } in
    let h : Attended tally [] t = record {
      distinct = tt;
      no_sends = refl;
      served = λ i. omega (arith, none_seen i);
    } in
    (run_iocp-Attended k tally f fresh ws s (
        entered-Attended k tally f fresh (post_accepts k 8 listener empty) s e
          (post_accepts-Attended k tally f fresh 8 listener empty h))).served
      j
