-- ===== src/IoUring/Late.antt =====
-- server_linux_iouring.go: a receive outlives the sweep that closes its descriptor.
use mathlib.Core.Path.{subst}
use io_mutiplexing.Common.{
  ℕ, ◌+◌, ◌^◌, ◌≤◌, ◌<◌, ◌≡◌, ◌≢◌, sym, ap, ◌∙◌, arith, [], ◌∷◌, none, some, pos, Option,
}
use io_mutiplexing.Common.Maps.{lookup, HasDistinctKeys}
use io_mutiplexing.EventLoop.{Env}
use io_mutiplexing.EventLoop.Trace.{Log, opens, closes, IsFaithful}
use io_mutiplexing.IoUring.Rings.{Cqe}
use io_mutiplexing.IoUring.{
  accept, timeout, IoOp, new_op, Server, on_accept, on_timeout, on_recv, on_kind, handle_cqe,
}
use io_mutiplexing.IoUring.Drain.{handle_all}
use io_mutiplexing.IoUring.Completions.{
  handled, timer-late, timer-ops, accept-late, accept-ops, recv-late, seen, recv_op,
}

-- The timer, an accept and the receive of the descriptor `fd` are registered, and `fd` has a deadline.
pub record IsWaiting (tid aid rid fd listener d : ℕ) (s : Server Log) : Type 0 where
  pub ts : Option (ℕ × ℕ)
  pub has_timer : lookup tid s.op_map ≡ some (record (new_op timeout 0) { id = tid; ts = ts })
  pub has_accept : lookup aid s.op_map ≡ some (record (new_op accept listener) { id = aid })
  pub has_recv : lookup rid s.op_map ≡ some (recv_op rid fd)
  pub numbered : (tid ≤ s.op_seq) × (aid ≤ s.op_seq) × (rid ≤ s.op_seq)
  pub few_ids : s.op_seq + 3 < 2 ^ 64
  pub distinct : HasDistinctKeys s.deadlines
  pub has_deadline : lookup fd s.deadlines ≡ some d

module _ (e : Env Log) (f : IsFaithful e) (tid aid rid fd listener d : ℕ) (s : Server Log)
    (w : IsWaiting tid aid rid fd listener d s) where
  tid-ne-rid : tid ≢ rid
  tid-ne-rid same =
      let h : some (record (new_op timeout 0) { id = tid; ts = w.ts }) ≡ some (recv_op rid fd) =
        sym w.has_timer ∙ ap (λ k. lookup k s.op_map) same ∙ w.has_recv in
      ground (arith, h)

  tid-ne-aid : tid ≢ aid
  tid-ne-aid same =
      let h : some (record (new_op timeout 0) { id = tid; ts = w.ts })
          ≡ some (record (new_op accept listener) { id = aid }) =
        sym w.has_timer ∙ ap (λ k. lookup k s.op_map) same ∙ w.has_accept in
      ground (arith, h)

  aid-ne-rid : aid ≢ rid
  aid-ne-rid same =
      let h : some (record (new_op accept listener) { id = aid }) ≡ some (recv_op rid fd) =
        sym w.has_accept ∙ ap (λ k. lookup k s.op_map) same ∙ w.has_recv in
      ground (arith, h)

  -- When the timer fires after the deadline of `fd` has passed, the kernel then gives the number
  -- `fd` to a new client, and the receive of the old client completes, whatever its result: `fd` has
  -- been accepted once more and closed twice, so that the new client's descriptor is closed, while
  -- its own receive is still registered and it has no deadline.
  pub handle_all-late :
      (c₁ c₂ c₃ : Cqe)
      → c₁.user_data ≡ tid
      → d < c₁.now
      → c₂.user_data ≡ aid
      → c₂.res ≡ pos fd
      → c₃.user_data ≡ rid
      → let s' = handle_all e (c₁ ∷ c₂ ∷ c₃ ∷ []) s in
        (opens fd s'.env ≡ opens fd s.env + 1)
        × (closes fd s'.env ≡ closes fd s.env + 2)
        × (lookup fd s'.deadlines ≡ none)
        × (lookup (s.op_seq + 2) s'.op_map ≡ some (recv_op (s.op_seq + 2) fd))
  unfolding on_kind
  handle_all-late c₁ c₂ c₃ at_timer past at_accept res at_recv =
      let t : IoOp = record (new_op timeout 0) { id = tid; ts = w.ts } in
      let a : IoOp = record (new_op accept listener) { id = aid } in
      let o = recv_op rid fd in
      let (t_le, a_le, r_le) = w.numbered in
      let s₁ = on_timeout e t c₁ s in
      let (keeps_accept, seq₁) =
        timer-ops e f c₁ t s aid a_le (λ q. tid-ne-aid (sym q)) (omega (arith, w.few_ids)) in
      let (keeps_recv, _) =
        timer-ops e f c₁ t s rid r_le (λ q. tid-ne-rid (sym q)) (omega (arith, w.few_ids)) in
      let s₂ = on_accept e a c₂ (seen e f s₁) in
      let (still_recv, new_recv) =
        accept-ops e f c₂ a (seen e f s₁) fd rid res (omega (arith, r_le, seq₁))
          (λ q. aid-ne-rid (sym q)) (omega (arith, a_le, seq₁)) (omega (arith, seq₁, w.few_ids)) in
      let step₁ : handle_cqe e c₁ s ≡ seen e f s₁ =
        handled e f c₁ t s (ap (λ k. lookup k s.op_map) at_timer ∙ w.has_timer) in
      let step₂ : handle_cqe e c₂ (seen e f s₁) ≡ seen e f s₂ =
        handled e f c₂ a (seen e f s₁)
          (ap (λ k. lookup k s₁.op_map) at_accept ∙ keeps_accept ∙ w.has_accept) in
      let step₃ : handle_cqe e c₃ (seen e f s₂) ≡ seen e f (on_recv e o c₃ (seen e f s₂)) =
        handled e f c₃ o (seen e f s₂)
          (ap (λ k. lookup k s₂.op_map) at_recv ∙ still_recv ∙ keeps_recv ∙ w.has_recv) in
      let all : handle_all e (c₁ ∷ c₂ ∷ c₃ ∷ []) s ≡ seen e f (on_recv e o c₃ (seen e f s₂)) =
        ap (λ u. handle_cqe e c₃ (handle_cqe e c₂ u)) step₁ ∙ ap (handle_cqe e c₃) step₂ ∙ step₃ in
      let (o₁, x₁) = timer-late e f c₁ t s fd d w.distinct w.has_deadline past in
      let (o₂, x₂) = accept-late e f c₂ a (seen e f s₁) fd res in
      let (o₃, x₃, gone, keeps_new) =
        recv-late e f c₃ o (seen e f s₂) (s.op_seq + 2) (omega (arith, r_le)) in
      let next : s₁.op_seq + 1 ≡ s.op_seq + 2 = omega (arith, seq₁) in
      let registered : lookup (s.op_seq + 2) s₂.op_map ≡ some (recv_op (s.op_seq + 2) fd) =
        subst (λ k. lookup k s₂.op_map ≡ some (recv_op k fd)) next new_recv in
      subst
        (λ u.
          (opens fd u.env ≡ opens fd s.env + 1)
          × (closes fd u.env ≡ closes fd s.env + 2)
          × (lookup fd u.deadlines ≡ none)
          × (lookup (s.op_seq + 2) u.op_map ≡ some (recv_op (s.op_seq + 2) fd)))
        (sym all)
        (o₃ ∙ o₂ ∙ ap (λ n. n + 1) o₁, omega (arith, x₁, x₂, x₃), gone, keeps_new ∙ registered)
