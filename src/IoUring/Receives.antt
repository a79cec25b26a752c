-- ===== src/IoUring/Receives.antt =====
-- server_linux_iouring.go: the receives that are registered.
use io_mutiplexing.Common.{ℕ, ◌+◌, ◌^◌, ◌<◌, ◌≡◌, refl, arith, Bool, true, false, ◌&&◌, some, ◌==◌}
use io_mutiplexing.Common.Maps.{
  lookup, HasDistinctKeys, HasDistinctKeys-insert, HasDistinctKeys-delete,
}
use io_mutiplexing.Common.Counts.{one_if, count, count-delete, count-insert}
use io_mutiplexing.IoUring.{OpKind, recv, IoOp, Server, register_op, unregister_op}
use io_mutiplexing.IoUring.Registry.{
  Ops, is_send, sends, Numbered, Numbered-fresh, Numbered-insert, Numbered-delete, Numbered-lookup,
}
use io_mutiplexing.IoUring.Steps.{next_id}

abbrev pub is_recv : OpKind → Bool
is_recv recv = true
is_recv _ = false

-- The receives of a descriptor that are registered.
abbrev pub recvs : ℕ → Ops → ℕ
recvs j = count (λ k o. is_recv o.kind && (o.fd == j))

-- The registered operations have different ids, all of which have been given out, and none is a send.
pub record AreNumbered (seq : ℕ) (ops : Ops) : Type 0 where
  pub distinct : HasDistinctKeys ops
  pub numbered : Numbered seq ops
  pub no_sends : sends ops ≡ 0

abbrev pub IsRegistry : {σ : Type 0} → Server σ → Type 0
IsRegistry s = AreNumbered s.op_seq s.op_map

module _ {σ : Type 0} where
  -- A new operation, which is a receive or not.
  pub register_op-IsRegistry :
      (o : IoOp) (s : Server σ)
      → is_send o.kind ≡ false
      → IsRegistry s
      → s.op_seq + 1 < 2 ^ 64
      → IsRegistry (register_op o s)
  unfolding register_op
  register_op-IsRegistry o s plain h small =
      let own : IoOp = record o { id = s.op_seq + 1 } in
      let fresh = Numbered-fresh s.op_seq (s.op_seq + 1) s.op_map h.numbered (omega arith) in
      rw (next_id s small) (record {
        distinct = HasDistinctKeys-insert (s.op_seq + 1) own s.op_map h.distinct;
        numbered =
            Numbered-insert s.op_seq (s.op_seq + 1) own s.op_map h.numbered (omega arith) refl;
        no_sends = ground (
          arith,
          count-insert (λ k o. is_send o.kind) (s.op_seq + 1) own s.op_map fresh,
          h.no_sends,
          plain,
        );
      })

  pub recvs-register_op :
      (o : IoOp) (s : Server σ) (j : ℕ)
      → IsRegistry s
      → s.op_seq + 1 < 2 ^ 64
      → recvs j (register_op o s).op_map ≡ one_if (is_recv o.kind && (o.fd == j)) + recvs j s.op_map
  unfolding register_op
  recvs-register_op o s j h small =
      let own : IoOp = record o { id = s.op_seq + 1 } in
      let fresh = Numbered-fresh s.op_seq (s.op_seq + 1) s.op_map h.numbered (omega arith) in
      rw (next_id s small)
        (count-insert (λ k o. is_recv o.kind && (o.fd == j)) (s.op_seq + 1) own s.op_map fresh)

  -- An operation that has completed.
  pub unregister_op-IsRegistry :
      (o : IoOp) (k : ℕ) (s : Server σ)
      → IsRegistry s
      → lookup k s.op_map ≡ some o
      → IsRegistry (unregister_op o s)
  unfolding unregister_op
  unregister_op-IsRegistry o k s h found =
      rw (Numbered-lookup s.op_seq k o s.op_map h.numbered found) (record {
        distinct = HasDistinctKeys-delete k s.op_map h.distinct;
        numbered = Numbered-delete s.op_seq k s.op_map h.numbered;
        no_sends =
            omega (
              arith,
              count-delete (λ k o. is_send o.kind) k o s.op_map h.distinct found,
              h.no_sends,
            );
      })

  pub recvs-unregister_op :
      (o : IoOp) (k : ℕ) (s : Server σ) (j : ℕ)
      → IsRegistry s
      → lookup k s.op_map ≡ some o
      → recvs j (unregister_op o s).op_map + one_if (is_recv o.kind && (o.fd == j))
        ≡ recvs j s.op_map
  unfolding unregister_op
  recvs-unregister_op o k s j h found =
      rw (Numbered-lookup s.op_seq k o s.op_map h.numbered found)
        (count-delete (λ k o. is_recv o.kind && (o.fd == j)) k o s.op_map h.distinct found)

  -- No operation that is found is a send.
  pub IsRegistry-not_send :
      (o : IoOp) (k : ℕ) (s : Server σ)
      → IsRegistry s
      → lookup k s.op_map ≡ some o
      → is_send o.kind ≡ false
  IsRegistry-not_send o k s h found =
      ground (arith, count-delete (λ k o. is_send o.kind) k o s.op_map h.distinct found, h.no_sends)
