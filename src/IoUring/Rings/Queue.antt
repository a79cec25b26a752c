-- ===== src/IoUring/Rings/Queue.antt =====
-- server_linux_iouring.go: each ring is a queue, also where its 32-bit counters wrap around.
use mathlib.Core.Path.{subst}
use io_mutiplexing.Common.{
  ℕ, zero, suc, ◌+◌, ◌-◌, ◌%◌, ◌^◌, ◌≤◌, ◌<◌, ◌≡◌, ◌≢◌, refl, ap, ◌∙◌, arith, List, [], ◌∷◌, ◌++◌,
  none, some, ◌==◌, ◌⊎◌, inl, inr, Bool-cases, ltb, ltb→lt, ltb→le,
}
use io_mutiplexing.IoUring.Rings.{
  Sqe, Cqe, Ring, sq_entries, cq_entries, next, update, submit, get_sqe, advance_tail, next_cqe,
  cqe_seen,
}

-- The number of entries between two 32-bit counters.
abbrev pub between : ℕ → ℕ → ℕ
between head tail = (tail + 2 ^ 32 - head) % 2 ^ 32

-- The `n` entries from the counter `head` on, where `read` takes a counter to its entry.
module _ {ℓ} {A : Type ℓ} (read : ℕ → A) where
  abbrev pub span : ℕ → ℕ → List A
  span head zero = []
  span head (suc n) = read head ∷ span (next head) n

  span-last :
      (head n : ℕ)
      → head < 2 ^ 32
      → span head (suc n) ≡ span head n ++ read ((head + n) % 2 ^ 32) ∷ []
  span-last head zero h =
      let e : head ≡ (head + 0) % 2 ^ 32 = omega (arith, h) in ap (λ k. read k ∷ []) e
  span-last head (suc n) h =
      let e : (next head + n) % 2 ^ 32 ≡ (head + suc n) % 2 ^ 32 = omega (arith, h) in
      ap (λ t. read head ∷ t)
        (span-last (next head) n (omega arith) ∙ ap (λ k. span (next head) n ++ read k ∷ []) e)

-- Two readers that agree on the entries give the same list.
span-eq {ℓ} :
    {A : Type ℓ} (f g : ℕ → A) (head n : ℕ)
    → head < 2 ^ 32
    → ((i : ℕ) → i < n → f ((head + i) % 2 ^ 32) ≡ g ((head + i) % 2 ^ 32))
    → span f head n ≡ span g head n
span-eq f g head zero h same = refl
span-eq f g head (suc n) h same =
    let e : (head + 0) % 2 ^ 32 ≡ head = omega (arith, h) in
    let first : f head ≡ g head = subst (λ k. f k ≡ g k) e (same 0 (omega arith)) in
    ap (λ x. x ∷ span f (next head) n) first
    ∙ ap (λ t. g head ∷ t) (span-eq f g (next head) n (omega arith) rest)
  where
    rest : (i : ℕ) → i < n → f ((next head + i) % 2 ^ 32) ≡ g ((next head + i) % 2 ^ 32)
    rest i l =
        let e : (head + suc i) % 2 ^ 32 ≡ (next head + i) % 2 ^ 32 = omega (arith, h) in
        subst (λ k. f k ≡ g k) e (same (suc i) (omega (arith, l)))

-- How many entries the kernel has not taken yet, and what it will read: each through the array.
abbrev pub queued : Ring → ℕ
queued r = between r.sq_head r.sq_tail

abbrev read_sq : Ring → ℕ → Sqe
read_sq r t = r.sqes (r.sq_array (t % sq_entries))

abbrev pub published : Ring → List Sqe
published r = span (read_sq r) r.sq_head (queued r)

-- The counters are 32 bits wide, no more entries wait than there are, and each waiting entry's
-- place in the array holds its own index.
pub record IsSq (r : Ring) : Type 0 where
  pub sq_head_in : r.sq_head < 2 ^ 32
  pub sq_tail_in : r.sq_tail < 2 ^ 32
  pub within : queued r ≤ sq_entries
  pub own :
      (i : ℕ)
      → i < queued r
      → r.sq_array ((r.sq_head + i) % 2 ^ 32 % sq_entries) ≡ (r.sq_head + i) % 2 ^ 32 % sq_entries

add_one : (n : ℕ) → n + 1 ≡ suc n
add_one n = omega arith

module _ (s : Sqe) (r : Ring) (v : IsSq r) (room : queued r < sq_entries) where
  pub queued-submit : queued (submit s r) ≡ queued r + 1
  unfolding submit get_sqe advance_tail
  queued-submit = omega (arith, room, v.sq_head_in, v.sq_tail_in)

  -- The counter of a waiting entry, whose place is not the one that is written.
  waiting-slot :
      (i : ℕ) → i < queued r → (r.sq_head + i) % 2 ^ 32 % sq_entries ≢ r.sq_tail % sq_entries
  waiting-slot i l = omega (arith, l, room, v.sq_head_in, v.sq_tail_in)

  array-submit :
      (k : ℕ)
      → (submit s r).sq_array k
        ≡ update r.sq_array (r.sq_tail % sq_entries) (r.sq_tail % sq_entries) k
  unfolding submit get_sqe advance_tail
  array-submit k = refl

  own-submit :
      (i : ℕ)
      → i < queued r + 1
      → (submit s r).sq_array ((r.sq_head + i) % 2 ^ 32 % sq_entries)
        ≡ (r.sq_head + i) % 2 ^ 32 % sq_entries
  unfolding submit get_sqe advance_tail
  own-submit i l = elim (Bool-cases (ltb i (queued r))) [
    | inl old ↦
        ground (arith, waiting-slot i (ltb→lt i (queued r) old), v.own i (ltb→lt i (queued r) old))
    | inr last ↦
        let e : (r.sq_head + i) % 2 ^ 32 ≡ r.sq_tail =
          omega (arith, l, ltb→le i (queued r) last, room, v.sq_head_in, v.sq_tail_in) in
        rw e (ground arith)
  ]

  pub submit-IsSq : IsSq (submit s r)
  unfolding submit get_sqe advance_tail
  submit-IsSq = record {
    sq_head_in = v.sq_head_in;
    sq_tail_in = omega arith;
    within = omega (arith, queued-submit, room);
    own = λ i l. own-submit i (omega (arith, l, queued-submit));
  }

  read_sq-submit_self : read_sq (submit s r) ((r.sq_head + queued r) % 2 ^ 32) ≡ s
  unfolding submit get_sqe advance_tail
  read_sq-submit_self =
      let e : (r.sq_head + queued r) % 2 ^ 32 ≡ r.sq_tail =
        omega (arith, v.sq_head_in, v.sq_tail_in) in
      rw e (ground arith)

  read_sq-submit_old :
      (i : ℕ)
      → i < queued r
      → read_sq (submit s r) ((r.sq_head + i) % 2 ^ 32) ≡ read_sq r ((r.sq_head + i) % 2 ^ 32)
  unfolding submit get_sqe advance_tail
  read_sq-submit_old i l = ground (arith, waiting-slot i l, v.own i l)

  -- An entry that is submitted while there is room goes to the end of what the kernel will read,
  -- and no entry before it changes, whatever the 32-bit counters stand at.
  pub published-submit : published (submit s r) ≡ published r ++ s ∷ []
  unfolding submit get_sqe advance_tail
  published-submit =
      ap (span (read_sq (submit s r)) r.sq_head) queued-submit
      ∙ ap (span (read_sq (submit s r)) r.sq_head) (add_one (queued r))
      ∙ span-last (read_sq (submit s r)) r.sq_head (queued r) v.sq_head_in
      ∙ ap (λ t. t ++ read_sq (submit s r) ((r.sq_head + queued r) % 2 ^ 32) ∷ [])
          (span-eq (read_sq (submit s r)) (read_sq r) r.sq_head (queued r) v.sq_head_in
            read_sq-submit_old)
      ∙ ap (λ x. published r ++ x ∷ []) read_sq-submit_self

-- The kernel's side: it takes the `n` oldest entries, and it posts a completion at the tail.
unfoldable pub consume : ℕ → Ring → Ring
consume n r = record r { sq_head = (r.sq_head + n) % 2 ^ 32 }

unfoldable pub post : Cqe → Ring → Ring
post c r = record r { cqes = update r.cqes (r.cq_tail % cq_entries) c; cq_tail = next r.cq_tail }

pub consume-IsSq : (n : ℕ) (r : Ring) → n ≤ queued r → IsSq r → IsSq (consume n r)
unfolding consume
consume-IsSq n r l v = record {
  sq_head_in = omega arith;
  sq_tail_in = v.sq_tail_in;
  within = omega (arith, l, v.within, v.sq_head_in, v.sq_tail_in);
  own = λ i h.
      let e : (r.sq_head + (n + i)) % 2 ^ 32 ≡ ((r.sq_head + n) % 2 ^ 32 + i) % 2 ^ 32 =
        omega arith in
      subst (λ t. r.sq_array (t % sq_entries) ≡ t % sq_entries) e
        (v.own (n + i) (omega (arith, l, h, v.sq_head_in, v.sq_tail_in)));
}

pub queued-consume :
    (n : ℕ) (r : Ring) → n ≤ queued r → IsSq r → queued (consume n r) + n ≡ queued r
unfolding consume
queued-consume n r l v = omega (arith, l, v.sq_head_in, v.sq_tail_in)

pub record IsCq (r : Ring) : Type 0 where
  pub cq_head_in : r.cq_head < 2 ^ 32
  pub cq_tail_in : r.cq_tail < 2 ^ 32

-- The completions that the loop has not handled.
abbrev read_cq : Ring → ℕ → Cqe
read_cq r t = r.cqes (t % cq_entries)

abbrev pub unseen_count : Ring → ℕ
unseen_count r = between r.cq_head r.cq_tail

abbrev pub unseen : Ring → List Cqe
unseen r = span (read_cq r) r.cq_head (unseen_count r)

-- A completion that is posted while there is room comes last.
pub unseen-post :
    (c : Cqe) (r : Ring)
    → IsCq r
    → unseen_count r < cq_entries
    → unseen (post c r) ≡ unseen r ++ c ∷ []
unfolding post
unseen-post c r v room =
    let n : unseen_count (post c r) ≡ suc (unseen_count r) =
      omega (arith, room, v.cq_head_in, v.cq_tail_in) in
    let e : (r.cq_head + unseen_count r) % 2 ^ 32 ≡ r.cq_tail =
      omega (arith, v.cq_head_in, v.cq_tail_in) in
    let new : read_cq (post c r) r.cq_tail ≡ c = ground arith in
    ap (span (read_cq (post c r)) r.cq_head) n
    ∙ span-last (read_cq (post c r)) r.cq_head (unseen_count r) v.cq_head_in
    ∙ ap (λ t. t ++ read_cq (post c r) ((r.cq_head + unseen_count r) % 2 ^ 32) ∷ [])
        (span-eq (read_cq (post c r)) (read_cq r) r.cq_head (unseen_count r) v.cq_head_in old)
    ∙ ap (λ t. unseen r ++ read_cq (post c r) t ∷ []) e
    ∙ ap (λ x. unseen r ++ x ∷ []) new
  where
    old :
        (i : ℕ)
        → i < unseen_count r
        → read_cq (post c r) ((r.cq_head + i) % 2 ^ 32) ≡ read_cq r ((r.cq_head + i) % 2 ^ 32)
    old i l =
        let apart : (r.cq_head + i) % 2 ^ 32 % cq_entries ≢ r.cq_tail % cq_entries =
          omega (arith, l, room, v.cq_head_in, v.cq_tail_in) in
        ground (arith, apart)

-- What the drain loop reads is the oldest, and `StoreUint32(cqHead, head+1)` takes it off.
pub next_cqe-unseen :
    (r : Ring)
    → IsCq r
    → ((next_cqe r ≡ none) × (unseen r ≡ []))
      ⊎ ((c : Cqe) × (next_cqe r ≡ some c) × (unseen r ≡ c ∷ unseen (cqe_seen r)))
unfolding next_cqe cqe_seen
next_cqe-unseen r v = elim (Bool-cases (r.cq_head == r.cq_tail)) [
  | inl e ↦
      let z : unseen_count r ≡ 0 = ground (arith, e, v.cq_head_in, v.cq_tail_in) in
      inl (rw e refl, ap (span (read_cq r) r.cq_head) z)
  | inr ne ↦
      let n : unseen_count r ≡ suc (unseen_count (cqe_seen r)) =
        ground (arith, ne, v.cq_head_in, v.cq_tail_in) in
      inr (read_cq r r.cq_head, rw ne refl, ap (span (read_cq r) r.cq_head) n)
]
