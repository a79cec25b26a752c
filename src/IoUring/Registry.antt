-- ===== src/IoUring/Registry.antt =====
-- server_linux_iouring.go: what is registered, and how many entries are submitted between two calls
-- of `io_uring_enter`.
use io_mutiplexing.Common.{
  ℕ, ◌+◌, ◌*◌, ◌≤◌, ◌<◌, ◌≡◌, refl, arith, Bool, true, false, ◌&&◌, List, [], ◌∷◌, some, leb, ◌==◌,
  inl, inr, Bool-cases, All,
}
use io_mutiplexing.Common.Maps.{
  lookup, insert, delete, is_key, HasDistinctKeys, HasDistinctKeys-insert, HasDistinctKeys-delete,
}
use io_mutiplexing.Common.Counts.{one_if, count, count-le, count-delete, count-insert}
use io_mutiplexing.IoUring.Rings.{Ring, Sqe, sq_entries, submit}
use io_mutiplexing.IoUring.Rings.Queue.{queued, IsSq, submit-IsSq, queued-submit}
use io_mutiplexing.IoUring.{OpKind, accept, send, timeout, IoOp}

abbrev pub Ops : Type 0
Ops = List (ℕ × IoOp)

abbrev pub is_accept : OpKind → Bool
is_accept accept = true
is_accept _ = false

abbrev pub is_timer : OpKind → Bool
is_timer timeout = true
is_timer _ = false

abbrev pub is_send : OpKind → Bool
is_send send = true
is_send _ = false

abbrev pub accepts : Ops → ℕ
accepts = count (λ k o. is_accept o.kind)

abbrev pub timers : Ops → ℕ
timers = count (λ k o. is_timer o.kind)

abbrev pub sends : Ops → ℕ
sends = count (λ k o. is_send o.kind)

-- Those of an id up to `old`.
abbrev old_accepts : ℕ → Ops → ℕ
old_accepts old = count (λ k o. leb k old && is_accept o.kind)

abbrev old_timers : ℕ → Ops → ℕ
old_timers old = count (λ k o. leb k old && is_timer o.kind)

-- Each operation stands under its own id, which has been given out.
abbrev pub Numbered : ℕ → Ops → Type 0
Numbered seq = All (λ row. (row.1.id ≡ row.0) × (row.0 ≤ seq))

-- `old` is the last id that was given out before the kernel last took the entries. An accept and
-- a timer that were registered by then may still complete, and each may submit entries: `budget`
-- bounds those that wait and those that may come.
pub record HasBooks (old acc tim budget seq : ℕ) (ops : Ops) (r : Ring) : Type 0 where
  pub distinct : HasDistinctKeys ops
  pub numbered : Numbered seq ops
  pub has_accepts : accepts ops ≡ acc
  pub has_timers : timers ops ≡ tim
  pub no_sends : sends ops ≡ 0
  pub sq : IsSq r
  pub spent : queued r + 2 * old_accepts old ops + old_timers old ops ≤ budget
  pub past : old ≤ seq

pub Numbered-fresh : (seq k : ℕ) (ops : Ops) → Numbered seq ops → seq < k → is_key k ops ≡ false
unfolding is_key
Numbered-fresh seq k [] h l = refl
Numbered-fresh seq k ((j, o) ∷ ops) ((_, small), h) l =
    ground (arith, small, l, Numbered-fresh seq k ops h l)

pub Numbered-insert :
    (seq k : ℕ) (o : IoOp) (ops : Ops)
    → Numbered seq ops
    → seq ≤ k
    → o.id ≡ k
    → Numbered k (insert k o ops)
unfolding insert
Numbered-insert seq k o [] h l e = ((e, omega arith), tt)
Numbered-insert seq k o ((j, p) ∷ ops) ((own, small), h) l e = elim (Bool-cases (j == k)) [
  | inl same ↦ rw same ((e, omega arith), weaken seq k ops h l)
  | inr other ↦ rw other ((own, omega (arith, small, l)), Numbered-insert seq k o ops h l e)
]
  where
    weaken : (seq k : ℕ) (ops : Ops) → Numbered seq ops → seq ≤ k → Numbered k ops
    weaken seq k [] h l = tt
    weaken seq k ((j, p) ∷ ops) ((own, small), h) l =
        ((own, omega (arith, small, l)), weaken seq k ops h l)

pub Numbered-delete : (seq k : ℕ) (ops : Ops) → Numbered seq ops → Numbered seq (delete k ops)
unfolding delete
Numbered-delete seq k [] h = tt
Numbered-delete seq k ((j, p) ∷ ops) (row, h) = elim (Bool-cases (j == k)) [
  | inl same ↦ rw same (Numbered-delete seq k ops h)
  | inr other ↦ rw other (row, Numbered-delete seq k ops h)
]

pub Numbered-lookup :
    (seq k : ℕ) (o : IoOp) (ops : Ops) → Numbered seq ops → lookup k ops ≡ some o → o.id ≡ k
unfolding lookup
Numbered-lookup seq k o [] h e = cc
Numbered-lookup seq k o ((j, p) ∷ ops) ((own, _), h) e =
    ground (arith, own, e, Numbered-lookup seq k o ops h)

module _ (old acc tim budget seq : ℕ) (ops : Ops) (r : Ring) where
  -- A new operation, under the next id, and its entry.
  pub submit-HasBooks :
      (o : IoOp) (s : Sqe)
      → HasBooks old acc tim budget seq ops r
      → is_send o.kind ≡ false
      → o.id ≡ seq + 1
      → budget < sq_entries
      → HasBooks old
          (one_if (is_accept o.kind) + acc)
          (one_if (is_timer o.kind) + tim)
          (budget + 1)
          (seq + 1)
          (insert (seq + 1) o ops)
          (submit s r)
  submit-HasBooks o s b plain e room =
      let fresh : is_key (seq + 1) ops ≡ false =
        Numbered-fresh seq (seq + 1) ops b.numbered (omega arith) in
      let fits : queued r < sq_entries = omega (arith, b.spent, room) in
      record {
        distinct = HasDistinctKeys-insert (seq + 1) o ops b.distinct;
        numbered = Numbered-insert seq (seq + 1) o ops b.numbered (omega arith) e;
        has_accepts =
            omega
              (arith, count-insert (λ k o. is_accept o.kind) (seq + 1) o ops fresh, b.has_accepts);
        has_timers =
            omega
              (arith, count-insert (λ k o. is_timer o.kind) (seq + 1) o ops fresh, b.has_timers);
        no_sends =
            ground (arith, count-insert (λ k o. is_send o.kind) (seq + 1) o ops fresh, b.no_sends);
        sq = submit-IsSq s r b.sq fits;
        spent = ground (
          arith,
          queued-submit s r b.sq fits,
          count-insert (λ k o. leb k old && is_accept o.kind) (seq + 1) o ops fresh,
          count-insert (λ k o. leb k old && is_timer o.kind) (seq + 1) o ops fresh,
          b.spent,
          b.past,
        );
        past = omega (arith, b.past);
      }

  -- An operation that has completed.
  pub delete-HasBooks :
      (o : IoOp) (k : ℕ)
      → HasBooks old acc tim budget seq ops r
      → lookup k ops ≡ some o
      → k ≤ old
      → (acc' tim' budget' : ℕ) → acc' + one_if (is_accept o.kind) ≡ acc
      → tim' + one_if (is_timer o.kind) ≡ tim
      → budget' + 2 * one_if (is_accept o.kind) + one_if (is_timer o.kind) ≡ budget
      → HasBooks old acc' tim' budget' seq (delete k ops) r
  delete-HasBooks o k b found taken acc' tim' budget' ea et eb = record {
    distinct = HasDistinctKeys-delete k ops b.distinct;
    numbered = Numbered-delete seq k ops b.numbered;
    has_accepts =
        omega (
          arith,
          count-delete (λ k o. is_accept o.kind) k o ops b.distinct found,
          b.has_accepts,
          ea,
        );
    has_timers =
        omega
          (arith, count-delete (λ k o. is_timer o.kind) k o ops b.distinct found, b.has_timers, et);
    no_sends =
        omega (arith, count-delete (λ k o. is_send o.kind) k o ops b.distinct found, b.no_sends);
    sq = b.sq;
    spent = ground (
      arith,
      count-delete (λ k o. leb k old && is_accept o.kind) k o ops b.distinct found,
      count-delete (λ k o. leb k old && is_timer o.kind) k o ops b.distinct found,
      b.spent,
      taken,
      eb,
    );
    past = b.past;
  }

one_if-and : (a b : Bool) → one_if (a && b) ≤ one_if b
one_if-and true b = omega arith
one_if-and false b = omega arith

-- The entries that waited have been taken, and the ids that were given out are old.
pub taken-HasBooks :
    (old budget seq : ℕ) (ops : Ops) (r r' : Ring)
    → HasBooks old 1 1 budget seq ops r
    → IsSq r'
    → queued r' ≡ 0
    → HasBooks seq 1 1 3 seq ops r'
taken-HasBooks old budget seq ops r r' b v empty = record {
  distinct = b.distinct;
  numbered = b.numbered;
  has_accepts = b.has_accepts;
  has_timers = b.has_timers;
  no_sends = b.no_sends;
  sq = v;
  spent = omega (
    arith,
    empty,
    b.has_accepts,
    b.has_timers,
    count-le (λ k o. leb k seq && is_accept o.kind) (λ k o. is_accept o.kind) ops
        (λ k o. one_if-and (leb k seq) (is_accept o.kind)),
    count-le (λ k o. leb k seq && is_timer o.kind) (λ k o. is_timer o.kind) ops
        (λ k o. one_if-and (leb k seq) (is_timer o.kind)),
  );
  past = omega arith;
}

-- No operation of the kind `send` is found.
pub not-send :
    (old acc tim budget seq : ℕ) (ops : Ops) (r : Ring) (o : IoOp) (k : ℕ)
    → HasBooks old acc tim budget seq ops r
    → lookup k ops ≡ some o
    → is_send o.kind ≡ false
not-send old acc tim budget seq ops r o k b found =
    ground (arith, count-delete (λ k o. is_send o.kind) k o ops b.distinct found, b.no_sends)
