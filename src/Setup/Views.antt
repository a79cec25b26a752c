-- ===== src/Setup/Views.antt =====
-- server_linux_iouring.go: the pointers and slices that `newRing` makes into the mapped memory.
use io_mutiplexing.Common.{
  ℕ, ◌+◌, ◌*◌, ◌≤◌, ◌<◌, arith, List, [], ◌∷◌, All, if◌then◌else◌, Bool-cases, inl, inr,
}
use io_mutiplexing.Setup.{
  Params, single_mmap, ring_sizes, sqes_size, sizeof_sqe, sizeof_cqe, sizeof_uint32,
}

-- What is mapped.
pub data Mapping : Type 0 where
  sq_ring cq_ring sqes : Mapping

-- Bytes of a mapping that a pointer or a slice stands for.
pub record View : Type 0 where
  pub mapping : Mapping
  pub off : ℕ
  pub size : ℕ

abbrev word_at : Mapping → ℕ → View
word_at m off = record { mapping = m; off = off; size = sizeof_uint32 }

-- Where `cqRing` is: with one mapping for both rings, it is that of the other ring.
abbrev pub cq_mapping : Params → Mapping
cq_mapping p = if single_mmap p then sq_ring else cq_ring

-- `sqHead`, `sqTail`, `sqMask` and `sqArray`, the same of the completions, and the entries.
unfoldable pub ring_views : Params → List View
ring_views p =
    word_at sq_ring p.sq_off.head
    ∷ word_at sq_ring p.sq_off.tail
    ∷ word_at sq_ring p.sq_off.ring_mask
    ∷ record { mapping = sq_ring; off = p.sq_off.array; size = p.sq_entries * sizeof_uint32 }
    ∷ word_at (cq_mapping p) p.cq_off.head
    ∷ word_at (cq_mapping p) p.cq_off.tail
    ∷ word_at (cq_mapping p) p.cq_off.ring_mask
    ∷ record { mapping = cq_mapping p; off = p.cq_off.cqes; size = p.cq_entries * sizeof_cqe }
    ∷ record { mapping = sqes; off = 0; size = p.sq_entries * sizeof_sqe }
    ∷ []

-- The length that `Mmap` is asked for. With one mapping for both rings, `cq_ring` is not mapped, and
-- nothing lies in it.
abbrev pub mapped : Params → Mapping → ℕ
mapped p sq_ring = (ring_sizes p).0
mapped p cq_ring = if single_mmap p then 0 else (ring_sizes p).1
mapped p sqes = sqes_size p

-- How the kernel lays the rings out: the words stand in front of the arrays, and no length passes
-- 32 bits.
pub record IsLaidOut (p : Params) : Type 0 where
  pub sq_head_first : p.sq_off.head + 4 ≤ p.sq_off.array
  pub sq_tail_first : p.sq_off.tail + 4 ≤ p.sq_off.array
  pub sq_mask_first : p.sq_off.ring_mask + 4 ≤ p.sq_off.array
  pub cq_head_first : p.cq_off.head + 4 ≤ p.cq_off.cqes
  pub cq_tail_first : p.cq_off.tail + 4 ≤ p.cq_off.cqes
  pub cq_mask_first : p.cq_off.ring_mask + 4 ≤ p.cq_off.cqes
  pub sq_short : p.sq_off.array + p.sq_entries * 4 < 0x1_0000_0000
  pub cq_short : p.cq_off.cqes + p.cq_entries * 16 < 0x1_0000_0000
  pub sqes_short : p.sq_entries * 64 < 0x1_0000_0000

-- When no length passes 32 bits, what is mapped where a ring of io_uring lies holds its entries.
entries-le :
    (p : Params)
    → p.sq_off.array + p.sq_entries * 4 < 0x1_0000_0000
    → p.cq_off.cqes + p.cq_entries * 16 < 0x1_0000_0000
    → (p.sq_off.array + p.sq_entries * 4 ≤ mapped p sq_ring)
      × (p.cq_off.cqes + p.cq_entries * 16 ≤ mapped p (cq_mapping p))
unfolding ring_sizes
entries-le p l m = elim (Bool-cases (single_mmap p)) [
  | inl single ↦ rw single (ground (arith, l, m))
  | inr double ↦ rw double (ground (arith, l, m))
]

-- When the kernel lays the rings out as it does, every pointer and every slice that `newRing` makes
-- lies within what it has mapped, in both ways of mapping.
pub ring_views-le :
    (p : Params) → IsLaidOut p → All (λ v. v.off + v.size ≤ mapped p v.mapping) (ring_views p)
unfolding ring_views
ring_views-le p h =
    let fits = entries-le p h.sq_short h.cq_short in
    (
      omega (arith, fits.0, h.sq_head_first),
      (
        omega (arith, fits.0, h.sq_tail_first),
        (
          omega (arith, fits.0, h.sq_mask_first),
          (
            fits.0,
            (
              omega (arith, fits.1, h.cq_head_first),
              (
                omega (arith, fits.1, h.cq_tail_first),
                (
                  omega (arith, fits.1, h.cq_mask_first),
                  (fits.1, (omega (arith, h.sqes_short), tt)),
                ),
              ),
            ),
          ),
        ),
      ),
    )
