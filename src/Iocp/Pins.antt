-- ===== src/Iocp/Pins.antt =====
-- server_windows.go: over the whole loop, what is pinned is what the kernel holds.
use mathlib.Core.Path.{subst}
use io_mutiplexing.Common.{
  ℕ, ◌+◌, ltb, ◌≡◌, refl, sym, ap, ◌∙◌, arith, inl, inr, Bool, true, false, ◌&&◌, Bool-cases, List,
  [], ◌∷◌, Option, none, some, Bytes, ◌==◌, ==_iff, leb, length, take, drop, zero, suc,
  if◌then◌else◌,
}
use io_mutiplexing.Common.Maps.{lookup, is_key, is_key-insert, is_key-lookup, is_key-lookup-some}
use io_mutiplexing.EventLoop.{call, Loop, start, expire, sweep}
use io_mutiplexing.EventLoop.Kqueue.{kqueue_env}
use io_mutiplexing.Iocp.{
  OpKind, accept, recv, send, IoOp, Kernel, Server, with_env, pin_op, unpin_op, set_deadline,
  drop_deadline, close_socket, post_accept, welcomed, attached, on_accept, received, on_recv,
  resent, on_send, Wait, idle, completed, on_kind, dispatch, on_wait, run_iocp, post_accepts,
  start_iocp, entered,
}
use io_mutiplexing.Iocp.Held.{
  IsHolding, IsPinned, IsPinnedWith, unpin_op-IsPinned, with_env-IsPinned, with_env-IsPinnedWith,
  close_socket-IsPinned, post_accept-IsPinned, post_recv-IsPinned,
}

-- The kernel hands out completions of operations that it holds.
module _ {σ : Type 0} (k : Kernel σ) (held : ℕ → σ → Bool) where
  abbrev pub Honest : Wait → Server σ → Type 0
  Honest (idle now) s = Unit
  Honest (completed a bad n buf now) s = held a s.loop.env ≡ true

  abbrev pub HonestRun : List Wait → Server σ → Type 0
  HonestRun [] s = Unit
  HonestRun (w ∷ ws) s = Honest w s × HonestRun ws (on_wait k w s)

module _ {σ : Type 0} (k : Kernel σ) (held : ℕ → σ → Bool) (h : IsHolding k held) where
  welcomed-IsPinned :
      (client now : ℕ) (r : Bool × Server σ)
      → IsPinned held r.1
      → IsPinned held (welcomed k client now r)
  unfolding set_deadline
  welcomed-IsPinned client now (true, s) p = p
  welcomed-IsPinned client now (false, s) p = close_socket-IsPinned k held h client s p

  closed-IsPinned :
      (a sock : ℕ) (s : Server σ)
      → IsPinnedWith held a s
      → IsPinned held (unpin_op a (close_socket k sock s))
  closed-IsPinned a sock s p = unpin_op-IsPinned held a (close_socket k sock s) (
      with_env-IsPinnedWith held a (k.env.close sock s.loop.env) s
        (λ j. h.close_held sock j s.loop.env) p)

  attached-IsPinned :
      (a : ℕ) (o : IoOp) (now : ℕ) (answer : Bool × σ) (s : Server σ)
      → ((j : ℕ) → held j answer.1 ≡ held j s.loop.env)
      → IsPinnedWith held a s
      → IsPinned held (attached k a o now answer s)
  unfolding unpin_op
  attached-IsPinned a o now (false, t) s same p =
      closed-IsPinned a o.sock (with_env t s) (with_env-IsPinnedWith held a t s same p)
  attached-IsPinned a o now (true, t) s same p =
      let t' = call k.env k.env.connect o.sock t in
      welcomed-IsPinned o.sock now _ (
        post_recv-IsPinned k held h o.sock _ (
          with_env-IsPinned held t' (unpin_op a s) (λ j. h.connect_held o.sock j t ∙ same j)
            (unpin_op-IsPinned held a s p)))

  on_accept-IsPinned :
      (a : ℕ) (o : IoOp) (bad : Bool) (now : ℕ) (s : Server σ)
      → IsPinnedWith held a s
      → IsPinned held (on_accept k a o bad now s)
  unfolding on_accept
  on_accept-IsPinned a o true now s p =
      post_accept-IsPinned k held h o.listener _ (closed-IsPinned a o.sock s p)
  on_accept-IsPinned a o false now s p =
      let updated = k.update_accept_context o.sock o.listener s.loop.env in
      let same : (j : ℕ) → held j updated ≡ held j s.loop.env =
        λ j. h.update_held o.sock o.listener j s.loop.env in
      post_accept-IsPinned k held h o.listener _ (
        attached-IsPinned a o now (k.attach o.sock updated) (with_env updated s)
          (λ j. h.attach_held o.sock j updated) (with_env-IsPinnedWith held a updated s same p))

  received-held :
      (client : ℕ) (bad : Bool) (n : ℕ) (buf : Bytes) (t : σ) (j : ℕ)
      → held j (received k client bad n buf t) ≡ held j t
  received-held client true n buf t j = h.disconnect_held client j t
  received-held client false zero buf t j = h.disconnect_held client j t
  received-held client false (suc n) buf t j =
      h.disconnect_held client j (k.env.deliver client (take (suc n) buf) t)
      ∙ h.deliver_held client j (take (suc n) buf) t

  on_recv-IsPinned :
      (a : ℕ) (o : IoOp) (bad : Bool) (n : ℕ) (buf : Bytes) (s : Server σ)
      → IsPinnedWith held a s
      → IsPinned held (on_recv k a o bad n buf s)
  unfolding on_recv drop_deadline unpin_op
  on_recv-IsPinned a o bad n buf s' p =
      let s = unpin_op a (drop_deadline o.sock s') in
      close_socket-IsPinned k held h o.sock (with_env (received k o.sock bad n buf s.loop.env) s) (
        with_env-IsPinned held (received k o.sock bad n buf s.loop.env) s
          (received-held o.sock bad n buf s.loop.env)
          (unpin_op-IsPinned held a (drop_deadline o.sock s') p))

  resent-IsPinned :
      (a : ℕ) (o : IoOp) (rest : Bytes) (answer : Bool × σ) (s : Server σ)
      → ((j : ℕ) → held j answer.1 ≡ (if answer.0 && (a == j) then true else held j s.loop.env))
      → IsPinnedWith held a s
      → IsPinned held (resent k a o answer s)
  resent-IsPinned a o rest (true, t) s law (gone, p) = λ j. ground (arith, law j, p j)
  resent-IsPinned a o rest (false, t) s law p =
      closed-IsPinned a o.sock (with_env t s) (with_env-IsPinnedWith held a t s law p)

  on_send-IsPinned :
      (a : ℕ) (o : IoOp) (bad : Bool) (n : ℕ) (s : Server σ)
      → IsPinnedWith held a s
      → IsPinned held (on_send k a o bad n s)
  unfolding on_send pin_op
  on_send-IsPinned a o true n s p = closed-IsPinned a o.sock s p
  on_send-IsPinned a o' false n s' (gone, p) =
      let o = record o' { send_off = o'.send_off + n } in
      let s = pin_op a o s' in
      let rest = drop o.send_off o.send_data in
      let q : IsPinnedWith held a s =
        (gone, λ j. ground (arith, p j, is_key-insert a j o s'.pins)) in
      elim (Bool-cases (leb (length o.send_data) o.send_off)) [
        | inl whole ↦ rw whole (closed-IsPinned a o.sock s q)
        | inr part ↦ rw part (
            resent-IsPinned a o rest (k.wsa_send o.sock rest a s.loop.env) s
              (λ j. h.wsa_send_held o.sock rest a j s.loop.env) q)
      ]

  on_kind-IsPinned :
      (kind : OpKind) (a : ℕ) (o : IoOp) (bad : Bool) (n : ℕ) (buf : Bytes) (now : ℕ) (s : Server σ)
      → IsPinnedWith held a s
      → IsPinned held (on_kind k kind a o bad n buf now s)
  unfolding on_kind
  on_kind-IsPinned accept a o bad n buf now s p = on_accept-IsPinned a o bad now s p
  on_kind-IsPinned recv a o bad n buf now s p = on_recv-IsPinned a o bad n buf s p
  on_kind-IsPinned send a o bad n buf now s p = on_send-IsPinned a o bad n s p

  expire-held :
      (now : ℕ) (m : List (ℕ × ℕ)) (t : σ) (j : ℕ)
      → held j (expire (kqueue_env k.env) now m t).1 ≡ held j t
  unfolding expire
  expire-held now [] t j = refl
  expire-held now ((sock, deadline) ∷ m) t j = elim (Bool-cases (ltb deadline now)) [
    | inl past ↦ rw past (expire-held now m (k.env.close sock t) j ∙ h.close_held sock j t)
    | inr early ↦ rw early (expire-held now m t j)
  ]

  sweep-held :
      (now : ℕ) (l : Loop σ) (j : ℕ) → held j (sweep (kqueue_env k.env) now l).env ≡ held j l.env
  unfolding sweep
  sweep-held now l j = elim (Bool-cases (ltb now l.next_sweep)) [
    | inl early ↦ rw early refl
    | inr due ↦ rw due (expire-held now l.deadlines l.env j)
  ]

  -- A completion that the kernel hands out finds its operation pinned.
  dispatch-IsPinned :
      (found : Option IoOp) (a : ℕ) (bad : Bool) (n : ℕ) (buf : Bytes) (now : ℕ) (s : Server σ)
      → lookup a s.pins ≡ found
      → held a s.loop.env ≡ true
      → IsPinned held s
      → IsPinned held (dispatch k found a bad n buf now (with_env (k.dequeue a s.loop.env) s))
  unfolding dispatch
  dispatch-IsPinned none a bad n buf now s e mine p =
      absurd (ground (arith, is_key-lookup a s.pins e, mine, p a))
  dispatch-IsPinned (some o) a bad n buf now s e mine p =
      on_kind-IsPinned o.kind a o bad n buf now _ (
        ground (arith, h.dequeue_held a a s.loop.env),
        λ j. elim (Bool-cases (a == j)) [
          | inl same ↦ rw same (
              ap (λ i. is_key i s.pins) (sym ((==_iff a j).0 same))
              ∙ is_key-lookup-some a o s.pins e)
          | inr other ↦ ground (arith, other, p j, h.dequeue_held a j s.loop.env)
        ],
      )

  on_wait-IsPinned :
      (w : Wait) (s : Server σ)
      → Honest k held w s
      → IsPinned held s
      → IsPinned held (on_wait k w s)
  unfolding on_wait
  on_wait-IsPinned (idle now) s fair p = λ j. p j ∙ sym (sweep-held now s.loop j)
  on_wait-IsPinned (completed a bad n buf now) s mine p =
      dispatch-IsPinned (lookup a s.pins) a bad n buf now s refl mine p

  run_iocp-IsPinned :
      (ws : List Wait) (s : Server σ)
      → HonestRun k held ws s
      → IsPinned held s
      → IsPinned held (run_iocp k ws s)
  unfolding run_iocp
  run_iocp-IsPinned [] s fair p = p
  run_iocp-IsPinned (w ∷ ws) s (fair, fairs) p =
      run_iocp-IsPinned ws (on_wait k w s) fairs (on_wait-IsPinned w s fair p)

  post_accepts-IsPinned :
      (n listener : ℕ) (s : Server σ)
      → IsPinned held s
      → IsPinned held (post_accepts k n listener s).1
  unfolding post_accepts
  post_accepts-IsPinned zero listener s p = p
  post_accepts-IsPinned (suc n) listener s p =
      let first = post_accept k listener s in
      let q = post_accept-IsPinned k held h listener s p in
      elim (Bool-cases first.0) [
        | inl good ↦ rw good (post_accepts-IsPinned n listener first.1 q)
        | inr bad ↦ rw bad q
      ]

entered-IsPinned :
    {σ : Type 0} (k : Kernel σ) (held : ℕ → σ → Bool) (r : Bool × Server σ) (s : Server σ)
    → IsPinned held r.1
    → entered k r ≡ some s
    → IsPinned held s
entered-IsPinned k held (true, s') s p e j =
    let same : s' ≡ s = cc in subst (IsPinned held) same p j
entered-IsPinned k held (false, s') s p e j = cc

-- When Go's allocator never places an operation at an address that is pinned, and the kernel holds
-- exactly the operations that it has accepted and not handed out, of which there are none before
-- the loop is started, then at each wait the pinned operations are those that the kernel holds:
-- none is freed too early, and none is kept for ever.
pub run_iocp-is_key :
    {σ : Type 0} (k : Kernel σ) (held : ℕ → σ → Bool) (listener now : ℕ) (t : σ) (s : Server σ)
    (ws : List Wait)
    → IsHolding k held
    → ((j : ℕ) → held j t ≡ false)
    → start_iocp k listener now t ≡ some s
    → HonestRun k held ws s
    → (j : ℕ) → is_key j (run_iocp k ws s).pins ≡ held j (run_iocp k ws s).loop.env
unfolding start_iocp is_key
run_iocp-is_key {σ = σ} k held listener now t s ws h none_held e fair j =
    let empty : Server σ = record { pins = []; loop = start now t } in
    run_iocp-IsPinned k held h ws s fair
      (entered-IsPinned k held (post_accepts k 8 listener empty) s
        (post_accepts-IsPinned k held h 8 listener empty (λ i. sym (none_held i))) e)
      j
