-- ===== src/Iocp/Slots.antt =====
-- server_windows.go: how many accepts are posted.
use mathlib.Core.Path.{subst}
use io_mutiplexing.Common.{
  ℕ, zero, suc, ◌+◌, ◌≡◌, refl, sym, ◌∙◌, arith, inl, inr, Bool, true, false, Bool-cases, List, [],
  ◌∷◌, Option, none, some, Bytes, ◌==◌, if◌then◌else◌,
}
use io_mutiplexing.Common.Maps.{lookup, insert, delete, is_key, delete-insert, delete-absent}
use io_mutiplexing.Common.Counts.{count}
use io_mutiplexing.EventLoop.{call, start}
use io_mutiplexing.Iocp.{
  OpKind, accept, recv, send, IoOp, Kernel, Server, with_env, pin_op, unpin_op, new_op,
  set_deadline, drop_deadline, close_socket, if_posted, accept_with, post_accept, post_recv,
  post_accepts, welcomed, attached, on_accept, on_recv, Wait, idle, completed, on_kind, dispatch,
  on_wait, run_iocp, start_iocp, entered, invalid_socket,
}
use io_mutiplexing.Iocp.Counted.{
  Pins, accepts, HasSlots, suc-HasSlots, insert-HasSlots, delete-HasSlots,
}

module _ {σ : Type 0} (k : Kernel σ) (fresh : (m : Pins) → is_key (k.place m) m ≡ false)
    (all : Bool) where
  if_posted-HasSlots :
      (n : ℕ) (b : Bool) (posted refused : Server σ)
      → (all ≡ true → (if_posted k b posted refused).0 ≡ true)
      → HasSlots all (suc n) posted.pins
      → HasSlots all n refused.pins
      → HasSlots all (suc n) (if_posted k b posted refused).1.pins
  if_posted-HasSlots n true posted refused g h r = h
  if_posted-HasSlots n false posted refused g h r = suc-HasSlots all n refused.pins g r

  refused-pins : (o : IoOp) (m : Pins) → delete (k.place m) (insert (k.place m) o m) ≡ m
  refused-pins o m = delete-insert (k.place m) o m ∙ delete-absent (k.place m) m (fresh m)

  accept_with-HasSlots :
      (n listener : ℕ) (sock : Option ℕ) (s : Server σ)
      → (all ≡ true → (accept_with k listener sock s).0 ≡ true)
      → HasSlots all n s.pins
      → HasSlots all (suc n) (accept_with k listener sock s).1.pins
  unfolding pin_op unpin_op
  accept_with-HasSlots n listener none s g h = suc-HasSlots all n s.pins g h
  accept_with-HasSlots n listener (some sock) s g h =
      let a = k.place s.pins in
      let o = record (new_op accept sock) { listener = listener } in
      if_posted-HasSlots n (k.accept_ex listener sock a s.loop.env).0 _ _ g
        (insert-HasSlots all n a o s.pins refl (fresh s.pins) h)
        (subst (HasSlots all n) (sym (refused-pins o s.pins)) h)

  module _
      (granted : all ≡ true
        → (listener : ℕ) (s : Server σ) → (post_accept k listener s).0 ≡ true) where
    post_accept-HasSlots :
        (n listener : ℕ) (s : Server σ)
        → HasSlots all n s.pins
        → HasSlots all (suc n) (post_accept k listener s).1.pins
    unfolding post_accept
    post_accept-HasSlots n listener s h =
        let opened = k.wsa_socket s.loop.env in
        accept_with-HasSlots n listener _ (with_env opened.1 s) (λ g. granted g listener s) h

    post_recv-HasSlots :
        (n client : ℕ) (s : Server σ)
        → HasSlots all n s.pins
        → HasSlots all n (post_recv k client s).1.pins
    unfolding post_recv pin_op unpin_op
    post_recv-HasSlots n client s h =
        let a = k.place s.pins in
        let o = new_op recv client in
        elim (Bool-cases (k.wsa_recv client a s.loop.env).0) [
          | inl good ↦ rw good (insert-HasSlots all n a o s.pins refl (fresh s.pins) h)
          | inr bad ↦ rw bad (subst (HasSlots all n) (sym (refused-pins o s.pins)) h)
        ]

    welcomed-HasSlots :
        (n client now : ℕ) (r : Bool × Server σ)
        → HasSlots all n r.1.pins
        → HasSlots all n (welcomed k client now r).pins
    unfolding set_deadline
    welcomed-HasSlots n client now (true, s) h = h
    welcomed-HasSlots n client now (false, s) h = h

    attached-HasSlots :
        (n a : ℕ) (o : IoOp) (now : ℕ) (answer : Bool × σ) (s : Server σ)
        → HasSlots all n (delete a s.pins)
        → HasSlots all n (attached k a o now answer s).pins
    unfolding unpin_op
    attached-HasSlots n a o now (false, t) s h = h
    attached-HasSlots n a o now (true, t) s h = welcomed-HasSlots n o.sock now _ (
        post_recv-HasSlots n o.sock (with_env (call k.env k.env.connect o.sock t) (unpin_op a s)) h)

    on_accept-HasSlots :
        (n a : ℕ) (o : IoOp) (bad : Bool) (now : ℕ) (s : Server σ)
        → HasSlots all n (delete a s.pins)
        → HasSlots all (suc n) (on_accept k a o bad now s).pins
    unfolding on_accept unpin_op
    on_accept-HasSlots n a o true now s h =
        post_accept-HasSlots n o.listener (unpin_op a (close_socket k o.sock s)) h
    on_accept-HasSlots n a o false now s h =
        let updated = k.update_accept_context o.sock o.listener s.loop.env in
        let answer = k.attach o.sock updated in
        post_accept-HasSlots n o.listener (attached k a o now answer (with_env updated s))
          (attached-HasSlots n a o now answer (with_env updated s) h)

    -- What the completed operation is decides what takes its place.
    on_kind-HasSlots :
        (n : ℕ) (kind : OpKind) (a : ℕ) (o : IoOp) (bad : Bool) (m : ℕ) (buf : Bytes) (now : ℕ)
        (s : Server σ)
        → o.kind ≡ kind
        → lookup a s.pins ≡ some o
        → HasSlots all (suc n) s.pins
        → HasSlots all (suc n) (on_kind k kind a o bad m buf now s).pins
    unfolding on_kind on_recv drop_deadline unpin_op
    on_kind-HasSlots n accept a o bad m buf now s e found h =
        on_accept-HasSlots n a o bad now s (delete-HasSlots all n a o s.pins accept e found h).0
    on_kind-HasSlots n recv a o bad m buf now s e found h =
        (delete-HasSlots all (suc n) a o s.pins recv e found h).0
    on_kind-HasSlots n send a o bad m buf now s e found h =
        absurd (ground (arith, (delete-HasSlots all (suc n) a o s.pins send e found h).1))

    dispatch-HasSlots :
        (n : ℕ) (found : Option IoOp) (a : ℕ) (bad : Bool) (m : ℕ) (buf : Bytes) (now : ℕ)
        (s : Server σ)
        → lookup a s.pins ≡ found
        → HasSlots all (suc n) s.pins
        → HasSlots all (suc n) (dispatch k found a bad m buf now s).pins
    unfolding dispatch
    dispatch-HasSlots n none a bad m buf now s e h = h
    dispatch-HasSlots n (some o) a bad m buf now s e h =
        on_kind-HasSlots n o.kind a o bad m buf now s refl e h

    run_iocp-HasSlots :
        (n : ℕ) (ws : List Wait) (s : Server σ)
        → HasSlots all (suc n) s.pins
        → HasSlots all (suc n) (run_iocp k ws s).pins
    unfolding run_iocp on_wait
    run_iocp-HasSlots n [] s h = h
    run_iocp-HasSlots n (idle now ∷ ws) s h = run_iocp-HasSlots n ws (on_wait k (idle now) s) h
    run_iocp-HasSlots n (completed a bad m buf now ∷ ws) s h =
        run_iocp-HasSlots n ws (on_wait k (completed a bad m buf now) s) (
          dispatch-HasSlots n (lookup a s.pins) a bad m buf now
            (with_env (k.dequeue a s.loop.env) s) refl h)

    rest-HasSlots :
        (n : ℕ) (b : Bool) (rest first : Bool × Server σ)
        → first.0 ≡ b
        → (if b then rest else first).0 ≡ true
        → (rest.0 ≡ true → HasSlots all n rest.1.pins)
        → HasSlots all n (if b then rest else first).1.pins
    rest-HasSlots n true rest first posted e h = h e
    rest-HasSlots n false rest first refused e h = absurd (ground (arith, refused, e))

    post_accepts-HasSlots :
        (n m total listener : ℕ) (s : Server σ)
        → total ≡ n + m
        → HasSlots all m s.pins
        → (post_accepts k n listener s).0 ≡ true
        → HasSlots all total (post_accepts k n listener s).1.pins
    unfolding post_accepts
    post_accepts-HasSlots zero m total listener s size h e =
        let same : m ≡ total = omega (arith, size) in subst (λ n. HasSlots all n s.pins) same h
    post_accepts-HasSlots (suc n) m total listener s size h e =
        let first = post_accept k listener s in
        rest-HasSlots total first.0 (post_accepts k n listener first.1) first refl e (
          post_accepts-HasSlots n (suc m) total listener first.1 (omega (arith, size))
            (post_accept-HasSlots m listener s h))

    entered-HasSlots :
        (r : Bool × Server σ) (s : Server σ)
        → entered k r ≡ some s
        → (r.0 ≡ true → HasSlots all 8 r.1.pins)
        → HasSlots all 8 s.pins
    entered-HasSlots (true, s') s e h =
        let same : s' ≡ s = cc in subst (λ s. HasSlots all 8 s.pins) same (h refl)
    entered-HasSlots (false, s') s e h = cc

    started-HasSlots :
        (listener now : ℕ) (t : σ) (s : Server σ)
        → start_iocp k listener now t ≡ some s
        → HasSlots all 8 s.pins
    unfolding start_iocp count
    started-HasSlots listener now t s e =
        let empty : Server σ = record { pins = []; loop = start now t } in
        entered-HasSlots (post_accepts k 8 listener empty) s e (
          post_accepts-HasSlots 8 0 8 listener empty (omega arith)
            (record { distinct = tt; no_sends = refl; at_most = omega arith; every = λ g. refl }))

post_accept-granted :
    {σ : Type 0} (k : Kernel σ)
    → ((u : σ) → ((k.wsa_socket u).0 == invalid_socket) ≡ false)
    → ((l sock a : ℕ) (u : σ) → (k.accept_ex l sock a u).0 ≡ true)
    → (listener : ℕ) (s : Server σ) → (post_accept k listener s).0 ≡ true
unfolding post_accept pin_op
post_accept-granted k sockets taken listener s =
    let sock = (k.wsa_socket s.loop.env).0 in
    let t = (k.wsa_socket s.loop.env).1 in
    rw (sockets s.loop.env, taken listener sock (k.place s.pins) t) refl

-- When moreover no socket and no `AcceptEx` is refused, exactly eight accepts are pinned at each
-- wait, whatever else fails.
pub run_iocp-exactly_eight :
    {σ : Type 0} (k : Kernel σ) (listener now : ℕ) (t : σ) (s : Server σ) (ws : List Wait)
    → ((m : List (ℕ × IoOp)) → is_key (k.place m) m ≡ false)
    → ((u : σ) → ((k.wsa_socket u).0 == invalid_socket) ≡ false)
    → ((l sock a : ℕ) (u : σ) → (k.accept_ex l sock a u).0 ≡ true)
    → start_iocp k listener now t ≡ some s
    → accepts (run_iocp k ws s).pins ≡ 8
run_iocp-exactly_eight {σ = σ} k listener now t s ws fresh sockets taken e =
    let granted : true ≡ true
        → (listener : ℕ) (s : Server σ) → (post_accept k listener s).0 ≡ true =
      λ g l s. post_accept-granted k sockets taken l s in
    (run_iocp-HasSlots k fresh true granted 7 ws s
        (started-HasSlots k fresh true granted listener now t s e)).every
      refl
