-- ===== src/Iocp/Held.antt =====
-- server_windows.go: what the kernel holds, against `pinOp` and `unpinOp` in the posts.
use io_mutiplexing.Common.{
  ℕ, ◌≡◌, refl, sym, ap, ◌∙◌, arith, inl, inr, Bool, true, false, ◌&&◌, Bool-cases, List, Option,
  none, some, Bytes, ◌==◌, ==_iff, if◌then◌else◌,
}
use io_mutiplexing.Common.Maps.{insert, is_key, is_key-insert, is_key-delete}
use io_mutiplexing.EventLoop.{call}
use io_mutiplexing.Iocp.{
  accept, recv, IoOp, Kernel, Server, with_env, pin_op, unpin_op, new_op, close_socket, if_posted,
  accept_with, post_accept, post_recv,
}

-- The kernel holds the operations that were posted and have not completed.
pub record IsHolding {σ : Type 0} (k : Kernel σ) (held : ℕ → σ → Bool) : Type 0 where
  pub place_fresh : (m : List (ℕ × IoOp)) → is_key (k.place m) m ≡ false
  pub accept_ex_held :
      (l sock a j : ℕ) (t : σ)
      → held j (k.accept_ex l sock a t).1
        ≡ (if (k.accept_ex l sock a t).0 && (a == j) then true else held j t)
  pub wsa_recv_held :
      (sock a j : ℕ) (t : σ)
      → held j (k.wsa_recv sock a t).1
        ≡ (if (k.wsa_recv sock a t).0 && (a == j) then true else held j t)
  pub wsa_send_held :
      (sock : ℕ) (bytes : Bytes) (a j : ℕ) (t : σ)
      → held j (k.wsa_send sock bytes a t).1
        ≡ (if (k.wsa_send sock bytes a t).0 && (a == j) then true else held j t)
  pub dequeue_held :
      (a j : ℕ) (t : σ) → held j (k.dequeue a t) ≡ (if a == j then false else held j t)
  pub wsa_socket_held : (j : ℕ) (t : σ) → held j (k.wsa_socket t).1 ≡ held j t
  pub update_held : (sock l j : ℕ) (t : σ) → held j (k.update_accept_context sock l t) ≡ held j t
  pub attach_held : (sock j : ℕ) (t : σ) → held j (k.attach sock t).1 ≡ held j t
  pub close_held : (sock j : ℕ) (t : σ) → held j (k.env.close sock t) ≡ held j t
  pub connect_held : (sock j : ℕ) (t : σ) → held j (call k.env k.env.connect sock t) ≡ held j t
  pub deliver_held :
      (sock j : ℕ) (bytes : Bytes) (t : σ) → held j (k.env.deliver sock bytes t) ≡ held j t
  pub disconnect_held :
      (sock j : ℕ) (t : σ) → held j (call k.env k.env.disconnect sock t) ≡ held j t

module _ {σ : Type 0} (held : ℕ → σ → Bool) where
  -- What is pinned is what the kernel holds.
  abbrev pub IsPinned : Server σ → Type 0
  IsPinned s = (j : ℕ) → is_key j s.pins ≡ held j s.loop.env

  -- So it is but for one operation, which has completed and is still pinned.
  abbrev pub IsPinnedWith : ℕ → Server σ → Type 0
  IsPinnedWith a s =
      (held a s.loop.env ≡ false)
      × ((j : ℕ) → is_key j s.pins ≡ (if a == j then true else held j s.loop.env))

  pub unpin_op-IsPinned : (a : ℕ) (s : Server σ) → IsPinnedWith a s → IsPinned (unpin_op a s)
  unfolding unpin_op
  unpin_op-IsPinned a s (gone, p) j = elim (Bool-cases (a == j)) [
    | inl same ↦
        ground
          (arith, is_key-delete a j s.pins, gone, ap (λ i. held i s.loop.env) ((==_iff a j).0 same))
    | inr other ↦ ground (arith, is_key-delete a j s.pins, p j)
  ]

  if_posted-IsPinned :
      (k : Kernel σ) (b : Bool) (posted refused : Server σ)
      → (b ≡ true → IsPinned posted)
      → (b ≡ false → IsPinned refused)
      → IsPinned (if_posted k b posted refused).1
  if_posted-IsPinned k true posted refused p r = p refl
  if_posted-IsPinned k false posted refused p r = r refl

  module _ (a : ℕ) (o : IoOp) (s : Server σ) (b : Bool) (t : σ) (fresh : is_key a s.pins ≡ false)
      (answer : (j : ℕ) → held j t ≡ (if b && (a == j) then true else held j s.loop.env))
      (p : IsPinned s) where
    posted-IsPinned : b ≡ true → IsPinned (with_env t (pin_op a o s))
    unfolding pin_op
    posted-IsPinned good j = ground (arith, is_key-insert a j o s.pins, answer j, p j, good)

    refused-IsPinned : b ≡ false → IsPinned (unpin_op a (with_env t (pin_op a o s)))
    unfolding pin_op unpin_op
    refused-IsPinned bad j = elim (Bool-cases (a == j)) [
      | inl same ↦
          rw (sym ((==_iff a j).0 same))
            (ground (arith, is_key-delete a a (insert a o s.pins), fresh, answer a, p a, bad))
      | inr other ↦ ground (
        arith,
        is_key-delete a j (insert a o s.pins),
        is_key-insert a j o s.pins,
        answer j,
        p j,
        bad,
      )
    ]

  -- A call that neither posts nor completes an operation.
  pub with_env-IsPinned :
      (t : σ) (s : Server σ)
      → ((j : ℕ) → held j t ≡ held j s.loop.env)
      → IsPinned s
      → IsPinned (with_env t s)
  with_env-IsPinned t s same p j = p j ∙ sym (same j)

  pub with_env-IsPinnedWith :
      (a : ℕ) (t : σ) (s : Server σ)
      → ((j : ℕ) → held j t ≡ held j s.loop.env)
      → IsPinnedWith a s
      → IsPinnedWith a (with_env t s)
  with_env-IsPinnedWith a t s same (gone, p) = (same a ∙ gone, λ j. ground (arith, p j, same j))

module _ {σ : Type 0} (k : Kernel σ) (held : ℕ → σ → Bool) (h : IsHolding k held) where
  pub close_socket-IsPinned :
      (sock : ℕ) (s : Server σ) → IsPinned held s → IsPinned held (close_socket k sock s)
  close_socket-IsPinned sock s p =
      with_env-IsPinned held (k.env.close sock s.loop.env) s (λ j. h.close_held sock j s.loop.env) p

  accept_with-IsPinned :
      (listener : ℕ) (sock : Option ℕ) (s : Server σ)
      → IsPinned held s
      → IsPinned held (accept_with k listener sock s).1
  unfolding pin_op
  accept_with-IsPinned listener none s p = p
  accept_with-IsPinned listener (some sock) s p =
      let a = k.place s.pins in
      let o = record (new_op accept sock) { listener = listener } in
      let answer = k.accept_ex listener sock a s.loop.env in
      let law : (j : ℕ)
          → held j answer.1 ≡ (if answer.0 && (a == j) then true else held j s.loop.env) =
        λ j. h.accept_ex_held listener sock a j s.loop.env in
      let fresh = h.place_fresh s.pins in
      if_posted-IsPinned held k answer.0 _ _
        (posted-IsPinned held a o s answer.0 answer.1 fresh law p)
        (λ bad.
          close_socket-IsPinned sock (unpin_op a (with_env answer.1 (pin_op a o s)))
            (refused-IsPinned held a o s answer.0 answer.1 fresh law p bad))

  pub post_accept-IsPinned :
      (listener : ℕ) (s : Server σ) → IsPinned held s → IsPinned held (post_accept k listener s).1
  unfolding post_accept
  post_accept-IsPinned listener s p =
      let opened = k.wsa_socket s.loop.env in
      accept_with-IsPinned listener _ (with_env opened.1 s)
        (with_env-IsPinned held opened.1 s (λ j. h.wsa_socket_held j s.loop.env) p)

  pub post_recv-IsPinned :
      (client : ℕ) (s : Server σ) → IsPinned held s → IsPinned held (post_recv k client s).1
  unfolding post_recv pin_op
  post_recv-IsPinned client s p =
      let a = k.place s.pins in
      let o = new_op recv client in
      let answer = k.wsa_recv client a s.loop.env in
      let law : (j : ℕ)
          → held j answer.1 ≡ (if answer.0 && (a == j) then true else held j s.loop.env) =
        λ j. h.wsa_recv_held client a j s.loop.env in
      let fresh = h.place_fresh s.pins in
      if_posted-IsPinned held k answer.0 _ _
        (posted-IsPinned held a o s answer.0 answer.1 fresh law p)
        (refused-IsPinned held a o s answer.0 answer.1 fresh law p)
