-- ===== src/Iocp/Counted.antt =====
-- server_windows.go: the accepts among the pinned operations, counted.
use io_mutiplexing.Common.{
  ℕ, suc, ◌+◌, ◌≤◌, ◌≡◌, sym, ap, ◌∙◌, arith, Bool, true, false, List, some,
}
use io_mutiplexing.Common.Maps.{
  lookup, insert, delete, is_key, HasDistinctKeys, HasDistinctKeys-insert, HasDistinctKeys-delete,
}
use io_mutiplexing.Common.Counts.{one_if, count, count-insert, count-delete}
use io_mutiplexing.Iocp.{OpKind, accept, send, IoOp}

abbrev pub Pins : Type 0
Pins = List (ℕ × IoOp)

abbrev pub is_accept : OpKind → Bool
is_accept accept = true
is_accept _ = false

abbrev pub is_send : OpKind → Bool
is_send send = true
is_send _ = false

abbrev pub accepts : Pins → ℕ
accepts = count (λ a o. is_accept o.kind)

abbrev pub sends : Pins → ℕ
sends = count (λ a o. is_send o.kind)

-- At most `n` accepts are pinned, all of them where `all` says that none is refused, and no send.
pub record HasSlots (all : Bool) (n : ℕ) (m : Pins) : Type 0 where
  pub distinct : HasDistinctKeys m
  pub no_sends : sends m ≡ 0
  pub at_most : accepts m ≤ n
  pub every : all ≡ true → accepts m ≡ n

abbrev pub plus_one_if : Bool → ℕ → ℕ
plus_one_if true n = suc n
plus_one_if false n = n

plus_one_if_lem : (b : Bool) (n : ℕ) → plus_one_if b n ≡ one_if b + n
plus_one_if_lem true n = omega arith
plus_one_if_lem false n = omega arith

module _ (all : Bool) (n a : ℕ) (o : IoOp) (m : Pins) where
  pub insert-HasSlots :
      is_send o.kind ≡ false
      → is_key a m ≡ false
      → HasSlots all n m
      → HasSlots all (plus_one_if (is_accept o.kind) n) (insert a o m)
  insert-HasSlots plain fresh h =
      let size = plus_one_if_lem (is_accept o.kind) n in
      let more = count-insert (λ a o. is_accept o.kind) a o m fresh in
      let same : sends (insert a o m) ≡ 0 + sends m =
        count-insert (λ a o. is_send o.kind) a o m fresh ∙ ap (λ b. one_if b + sends m) plain in
      record {
        distinct = HasDistinctKeys-insert a o m h.distinct;
        no_sends = omega (arith, same, h.no_sends);
        at_most = omega (arith, more, size, h.at_most);
        every = λ g. omega (arith, more, size, h.every g);
      }

  -- The operation of a completion; it is no send.
  pub delete-HasSlots :
      (kind : OpKind)
      → o.kind ≡ kind
      → lookup a m ≡ some o
      → HasSlots all (plus_one_if (is_accept kind) n) m
      → HasSlots all n (delete a m) × (is_send kind ≡ false)
  delete-HasSlots kind e found h =
      let size = plus_one_if_lem (is_accept kind) n in
      let less =
        ap (λ k. accepts (delete a m) + one_if (is_accept k)) (sym e)
        ∙ count-delete (λ a o. is_accept o.kind) a o m h.distinct found in
      let same =
        ap (λ k. sends (delete a m) + one_if (is_send k)) (sym e)
        ∙ count-delete (λ a o. is_send o.kind) a o m h.distinct found in
      (
        record {
          distinct = HasDistinctKeys-delete a m h.distinct;
          no_sends = omega (arith, same, h.no_sends);
          at_most = omega (arith, less, size, h.at_most);
          every = λ g. omega (arith, less, size, h.every g);
        },
        ground (arith, same, h.no_sends),
      )

-- One more may be posted where one may be refused.
pub suc-HasSlots :
    (all : Bool) (n : ℕ) (m : Pins)
    → (all ≡ true → false ≡ true)
    → HasSlots all n m
    → HasSlots all (suc n) m
suc-HasSlots all n m none_refused h = record {
  distinct = h.distinct;
  no_sends = h.no_sends;
  at_most = omega (arith, h.at_most);
  every = λ g. ground (arith, none_refused g);
}
