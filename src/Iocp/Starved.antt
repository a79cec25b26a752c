-- ===== src/Iocp/Starved.antt =====
-- server_windows.go: the sweep of idle clients, which only a wait without a completion leads to.
use io_mutiplexing.Common.{
  ℕ, ◌+◌, ◌≡◌, refl, ◌∙◌, arith, inl, inr, Bool, true, false, Bool-cases, List, [], ◌∷◌, Option,
  none, some, Bytes, ◌==◌, leb, length, drop,
}
use io_mutiplexing.Common.Maps.{lookup, lookup-insert, lookup-delete}
use io_mutiplexing.EventLoop.{call, idle_timeout}
use io_mutiplexing.Iocp.{
  OpKind, accept, recv, send, IoOp, Kernel, Server, with_env, pin_op, unpin_op, set_deadline,
  drop_deadline, close_socket, if_posted, accept_with, post_accept, post_recv, welcomed, attached,
  on_accept, on_recv, resent, on_send, Wait, idle, completed, on_kind, dispatch, on_wait, run_iocp,
}

module _ {σ : Type 0} (k : Kernel σ) where
  -- The waits all bring completions, and none of them is for an operation on the client.
  abbrev NotFor : ℕ → Option IoOp → Type 0
  NotFor client none = Unit
  NotFor client (some o) = (o.sock == client) ≡ false

  abbrev pub BusyFor : ℕ → Wait → Server σ → Type 0
  BusyFor client (idle now) s = false ≡ true
  BusyFor client (completed a bad n buf now) s = NotFor client (lookup a s.pins)

  abbrev pub BusyRun : ℕ → List Wait → Server σ → Type 0
  BusyRun client [] s = Unit
  BusyRun client (w ∷ ws) s = BusyFor client w s × BusyRun client ws (on_wait k w s)

module _ {σ : Type 0} (k : Kernel σ) (client : ℕ) where
  -- The loop's books on the client.
  abbrev KeepsBooks : Server σ → Server σ → Type 0
  KeepsBooks s s' =
      (lookup client s'.loop.deadlines ≡ lookup client s.loop.deadlines)
      × (s'.loop.next_sweep ≡ s.loop.next_sweep)

  if_posted-KeepsBooks :
      (s : Server σ) (b : Bool) (posted refused : Server σ)
      → KeepsBooks s posted
      → KeepsBooks s refused
      → KeepsBooks s (if_posted k b posted refused).1
  if_posted-KeepsBooks s true posted refused p r = p
  if_posted-KeepsBooks s false posted refused p r = r

  accept_with-KeepsBooks :
      (listener : ℕ) (sock : Option ℕ) (s : Server σ)
      → KeepsBooks s (accept_with k listener sock s).1
  unfolding pin_op unpin_op
  accept_with-KeepsBooks listener none s = (refl, refl)
  accept_with-KeepsBooks listener (some sock) s =
      if_posted-KeepsBooks s _ _ _ (refl, refl) (refl, refl)

  post_accept-KeepsBooks :
      (listener : ℕ) (s s' : Server σ)
      → KeepsBooks s s'
      → KeepsBooks s (post_accept k listener s').1
  unfolding post_accept
  post_accept-KeepsBooks listener s s' b =
      let kept = accept_with-KeepsBooks listener _ (with_env (k.wsa_socket s'.loop.env).1 s') in
      (kept.0 ∙ b.0, kept.1 ∙ b.1)

  post_recv-KeepsBooks : (sock : ℕ) (s : Server σ) → KeepsBooks s (post_recv k sock s).1
  unfolding post_recv pin_op unpin_op
  post_recv-KeepsBooks sock s = if_posted-KeepsBooks s _ _ _ (refl, refl) (refl, refl)

  welcomed-KeepsBooks :
      (sock now : ℕ) (r : Bool × Server σ)
      → (sock == client) ≡ false
      → KeepsBooks r.1 (welcomed k sock now r)
  unfolding set_deadline
  welcomed-KeepsBooks sock now (true, s) other =
      (ground (arith, other, lookup-insert sock client (now + idle_timeout) s.loop.deadlines), refl)
  welcomed-KeepsBooks sock now (false, s) other = (refl, refl)

  attached-KeepsBooks :
      (a : ℕ) (o : IoOp) (now : ℕ) (answer : Bool × σ) (s : Server σ)
      → (o.sock == client) ≡ false
      → KeepsBooks s (attached k a o now answer s)
  unfolding unpin_op
  attached-KeepsBooks a o now (false, t) s other = (refl, refl)
  attached-KeepsBooks a o now (true, t) s other =
      let s' = with_env (call k.env k.env.connect o.sock t) (unpin_op a s) in
      let received = post_recv k o.sock s' in
      let posted = post_recv-KeepsBooks o.sock s' in
      let welcome = welcomed-KeepsBooks o.sock now received other in
      (welcome.0 ∙ posted.0, welcome.1 ∙ posted.1)

  on_accept-KeepsBooks :
      (a : ℕ) (o : IoOp) (bad : Bool) (now : ℕ) (s : Server σ)
      → (o.sock == client) ≡ false
      → KeepsBooks s (on_accept k a o bad now s)
  unfolding on_accept unpin_op
  on_accept-KeepsBooks a o true now s other =
      post_accept-KeepsBooks o.listener s (unpin_op a (close_socket k o.sock s)) (refl, refl)
  on_accept-KeepsBooks a o false now s other =
      let updated = k.update_accept_context o.sock o.listener s.loop.env in
      let answer = k.attach o.sock updated in
      post_accept-KeepsBooks o.listener s (attached k a o now answer (with_env updated s))
        (attached-KeepsBooks a o now answer (with_env updated s) other)

  on_recv-KeepsBooks :
      (a : ℕ) (o : IoOp) (bad : Bool) (n : ℕ) (buf : Bytes) (s : Server σ)
      → (o.sock == client) ≡ false
      → KeepsBooks s (on_recv k a o bad n buf s)
  unfolding on_recv unpin_op drop_deadline
  on_recv-KeepsBooks a o bad n buf s other =
      (ground (arith, other, lookup-delete o.sock client s.loop.deadlines), refl)

  resent-KeepsBooks :
      (a : ℕ) (o : IoOp) (answer : Bool × σ) (s : Server σ) → KeepsBooks s (resent k a o answer s)
  unfolding unpin_op
  resent-KeepsBooks a o (true, t) s = (refl, refl)
  resent-KeepsBooks a o (false, t) s = (refl, refl)

  on_send-KeepsBooks :
      (a : ℕ) (o : IoOp) (bad : Bool) (n : ℕ) (s : Server σ) → KeepsBooks s (on_send k a o bad n s)
  unfolding on_send pin_op unpin_op
  on_send-KeepsBooks a o true n s = (refl, refl)
  on_send-KeepsBooks a o' false n s' =
      let o = record o' { send_off = o'.send_off + n } in
      let s = pin_op a o s' in
      let rest = drop o.send_off o.send_data in
      elim (Bool-cases (leb (length o.send_data) o.send_off)) [
        | inl whole ↦ rw whole (refl, refl)
        | inr part ↦ rw part (resent-KeepsBooks a o (k.wsa_send o.sock rest a s.loop.env) s)
      ]

  on_kind-KeepsBooks :
      (kind : OpKind) (a : ℕ) (o : IoOp) (bad : Bool) (n : ℕ) (buf : Bytes) (now : ℕ) (s : Server σ)
      → (o.sock == client) ≡ false
      → KeepsBooks s (on_kind k kind a o bad n buf now s)
  unfolding on_kind
  on_kind-KeepsBooks accept a o bad n buf now s other = on_accept-KeepsBooks a o bad now s other
  on_kind-KeepsBooks recv a o bad n buf now s other = on_recv-KeepsBooks a o bad n buf s other
  on_kind-KeepsBooks send a o bad n buf now s other = on_send-KeepsBooks a o bad n s

  dispatch-KeepsBooks :
      (found : Option IoOp) (a : ℕ) (bad : Bool) (n : ℕ) (buf : Bytes) (now : ℕ) (s : Server σ)
      → NotFor k client found
      → KeepsBooks s (dispatch k found a bad n buf now s)
  unfolding dispatch
  dispatch-KeepsBooks none a bad n buf now s other = (refl, refl)
  dispatch-KeepsBooks (some o) a bad n buf now s other =
      on_kind-KeepsBooks o.kind a o bad n buf now s other

-- In a run in which each wait brings a completion, none of them for an operation on the socket
-- `client`, the deadline of the client stays as it was and the sweep is never made, however late it
-- becomes: a client that is idle is not closed while others are busy.
pub run_iocp-busy :
    {σ : Type 0} (k : Kernel σ) (client : ℕ) (ws : List Wait) (s : Server σ)
    → BusyRun k client ws s
    → (lookup client (run_iocp k ws s).loop.deadlines ≡ lookup client s.loop.deadlines)
      × ((run_iocp k ws s).loop.next_sweep ≡ s.loop.next_sweep)
unfolding run_iocp on_wait
run_iocp-busy k client [] s b = (refl, refl)
run_iocp-busy k client (idle now ∷ ws) s (never, b) = cc
run_iocp-busy k client (completed a bad n buf now ∷ ws) s (other, b) =
    let kept =
      dispatch-KeepsBooks k client (lookup a s.pins) a bad n buf now
        (with_env (k.dequeue a s.loop.env) s) other in
    let rest = run_iocp-busy k client ws (on_wait k (completed a bad n buf now) s) b in
    (rest.0 ∙ kept.0, rest.1 ∙ kept.1)
