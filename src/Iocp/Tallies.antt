-- ===== src/Iocp/Tallies.antt =====
-- server_windows.go: the clients that the callbacks have been called for, and the pinned receives.
use io_mutiplexing.Common.{ℕ, ◌+◌, ◌≡◌, ap, arith, Bool, true, false, ◌&&◌, some, Bytes, ◌==◌}
use io_mutiplexing.Common.Maps.{
  lookup, insert, delete, is_key, HasDistinctKeys, HasDistinctKeys-insert, HasDistinctKeys-delete,
}
use io_mutiplexing.Common.Counts.{one_if, count, count-insert, count-delete}
use io_mutiplexing.EventLoop.{call}
use io_mutiplexing.Iocp.{OpKind, recv, IoOp, new_op, Kernel}
use io_mutiplexing.Iocp.Counted.{Pins, is_send, sends}

-- How often `Connect` and `Disconnect` have been called for a socket, and a receive was refused.
pub record Tally : Type 0 where
  pub connects : ℕ
  pub disconnects : ℕ
  pub refusals : ℕ

abbrev pub one_if_refused : Bool → Bool → ℕ
one_if_refused true own = 0
one_if_refused false own = one_if own

-- A state of the kernel and of the application that tells the tally of each socket.
pub record IsTally {σ : Type 0} (k : Kernel σ) (tally : ℕ → σ → Tally) : Type 0 where
  pub connect_tally :
      (c j : ℕ) (t : σ)
      → tally j (call k.env k.env.connect c t)
        ≡ record (tally j t) { connects = one_if (c == j) + (tally j t).connects }
  pub disconnect_tally :
      (c j : ℕ) (t : σ)
      → tally j (call k.env k.env.disconnect c t)
        ≡ record (tally j t) { disconnects = one_if (c == j) + (tally j t).disconnects }
  pub wsa_recv_tally :
      (c a j : ℕ) (t : σ)
      → tally j (k.wsa_recv c a t).1 ≡ record (tally j t) {
        refusals = one_if_refused (k.wsa_recv c a t).0 (c == j) + (tally j t).refusals;
      }
  pub deliver_tally : (c j : ℕ) (b : Bytes) (t : σ) → tally j (k.env.deliver c b t) ≡ tally j t
  pub close_tally : (c j : ℕ) (t : σ) → tally j (k.env.close c t) ≡ tally j t
  pub wsa_socket_tally : (j : ℕ) (t : σ) → tally j (k.wsa_socket t).1 ≡ tally j t
  pub accept_ex_tally : (l c a j : ℕ) (t : σ) → tally j (k.accept_ex l c a t).1 ≡ tally j t
  pub update_tally : (c l j : ℕ) (t : σ) → tally j (k.update_accept_context c l t) ≡ tally j t
  pub attach_tally : (c j : ℕ) (t : σ) → tally j (k.attach c t).1 ≡ tally j t
  pub dequeue_tally : (a j : ℕ) (t : σ) → tally j (k.dequeue a t) ≡ tally j t

abbrev pub is_recv : OpKind → Bool
is_recv recv = true
is_recv _ = false

-- The receives of a socket that are pinned.
abbrev pub recvs : ℕ → Pins → ℕ
recvs j = count (λ a o. is_recv o.kind && (o.sock == j))

module _ {σ : Type 0} (tally : ℕ → σ → Tally) where
  -- Of the clients that `Connect` was called for, those that `Disconnect` was not called for have a
  -- receive, or had theirs refused.
  pub record Attended (m : Pins) (t : σ) : Type 0 where
    pub distinct : HasDistinctKeys m
    pub no_sends : sends m ≡ 0
    pub served :
        (j : ℕ) → (tally j t).connects ≡ (tally j t).disconnects + recvs j m + (tally j t).refusals

  -- A step that calls neither.
  pub quiet-Attended :
      (m : Pins) (t u : σ) → ((j : ℕ) → tally j u ≡ tally j t) → Attended m t → Attended m u
  quiet-Attended m t u same h = record {
    distinct = h.distinct;
    no_sends = h.no_sends;
    served = λ j. omega (
      arith,
      h.served j,
      ap (λ y. y.connects) (same j),
      ap (λ y. y.disconnects) (same j),
      ap (λ y. y.refusals) (same j),
    );
  }

  -- A new operation that is neither a receive nor a send.
  pub insert-Attended :
      (a : ℕ) (o : IoOp) (m : Pins) (t : σ)
      → is_send o.kind ≡ false
      → is_recv o.kind ≡ false
      → is_key a m ≡ false
      → Attended m t
      → Attended (insert a o m) t
  insert-Attended a o m t plain other fresh h = record {
    distinct = HasDistinctKeys-insert a o m h.distinct;
    no_sends = ground (arith, count-insert (λ a o. is_send o.kind) a o m fresh, plain, h.no_sends);
    served = λ j. ground (
      arith,
      h.served j,
      other,
      count-insert (λ a o. is_recv o.kind && (o.sock == j)) a o m fresh,
    );
  }

  -- An operation that has completed, and is no receive.
  pub delete-Attended :
      (a : ℕ) (o : IoOp) (m : Pins) (t : σ)
      → is_recv o.kind ≡ false
      → lookup a m ≡ some o
      → Attended m t
      → Attended (delete a m) t
  delete-Attended a o m t other found h = record {
    distinct = HasDistinctKeys-delete a m h.distinct;
    no_sends =
        omega (arith, count-delete (λ a o. is_send o.kind) a o m h.distinct found, h.no_sends);
    served = λ j. ground (
      arith,
      h.served j,
      other,
      count-delete (λ a o. is_recv o.kind && (o.sock == j)) a o m h.distinct found,
    );
  }

  -- `Connect` has been called, and the receive of the client is pinned.
  pub posted-Attended :
      (c a : ℕ) (m : Pins) (t u : σ)
      → is_key a m ≡ false
      → ((j : ℕ)
          → tally j u ≡ record (tally j t) {
            connects = one_if (c == j) + (tally j t).connects;
            refusals = 0 + (tally j t).refusals;
          })
      → Attended m t
      → Attended (insert a (new_op recv c) m) u
  posted-Attended c a m t u fresh e h =
      let o : IoOp = new_op recv c in
      record {
        distinct = HasDistinctKeys-insert a o m h.distinct;
        no_sends = omega (arith, count-insert (λ a o. is_send o.kind) a o m fresh, h.no_sends);
        served = λ j. omega (
          arith,
          h.served j,
          ap (λ y. y.connects) (e j),
          ap (λ y. y.disconnects) (e j),
          ap (λ y. y.refusals) (e j),
          count-insert (λ a o. is_recv o.kind && (o.sock == j)) a o m fresh,
        );
      }

  -- `Connect` has been called, and the receive of the client was refused.
  pub refused-Attended :
      (c : ℕ) (m : Pins) (t u : σ)
      → ((j : ℕ)
          → tally j u ≡ record (tally j t) {
            connects = one_if (c == j) + (tally j t).connects;
            refusals = one_if (c == j) + (tally j t).refusals;
          })
      → Attended m t
      → Attended m u
  refused-Attended c m t u e h = record {
    distinct = h.distinct;
    no_sends = h.no_sends;
    served = λ j. omega (
      arith,
      h.served j,
      ap (λ y. y.connects) (e j),
      ap (λ y. y.disconnects) (e j),
      ap (λ y. y.refusals) (e j),
    );
  }

  -- A receive has completed, and `Disconnect` has been called.
  pub completed-Attended :
      (a : ℕ) (o : IoOp) (m : Pins) (t u : σ)
      → o.kind ≡ recv
      → lookup a m ≡ some o
      → ((j : ℕ)
          → tally j u
            ≡ record (tally j t) { disconnects = one_if (o.sock == j) + (tally j t).disconnects })
      → Attended m t
      → Attended (delete a m) u
  completed-Attended a o m t u kind found e h = record {
    distinct = HasDistinctKeys-delete a m h.distinct;
    no_sends =
        omega (arith, count-delete (λ a o. is_send o.kind) a o m h.distinct found, h.no_sends);
    served = λ j. ground (
      arith,
      h.served j,
      kind,
      ap (λ y. y.connects) (e j),
      ap (λ y. y.disconnects) (e j),
      ap (λ y. y.refusals) (e j),
      count-delete (λ a o. is_recv o.kind && (o.sock == j)) a o m h.distinct found,
    );
  }
