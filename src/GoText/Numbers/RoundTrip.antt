-- ===== src/GoText/Numbers/RoundTrip.antt =====
-- Decimal text is read back: `strconv.Itoa` against `strconv.Atoi` and other loops over digits.
use io_mutiplexing.Common.{
  ℕ, zero, suc, ◌+◌, ◌*◌, ◌/◌, ◌%◌, ◌≤◌, ◌<◌, ◌≡◌, refl, sym, ap, ◌∙◌, arith, [], ◌∷◌, Option, some,
  Bytes, ltb, All, pos, inl, inr, Bool-cases, ltb→lt, ltb→le,
}
use io_mutiplexing.GoText.Numbers.{digits, itoa_nat, read_digits, read_number, max_int, atoi}

abbrev pub IsDigit : ℕ → Type 0
IsDigit c = (48 ≤ c) × (c ≤ 57)

-- A reader of digits that goes through `digits` from the front: what it has read is the number.
module _ (read : Bytes → ℕ → Option ℕ) (limit : ℕ)
    (step : (d m : ℕ) (s : Bytes)
      → d < 10
      → m * 10 + d ≤ limit
      → read ((48 + d) ∷ s) m ≡ read s (m * 10 + d)) where
  pub read-digits :
      (k n : ℕ) (out : Bytes) → n ≤ k → n ≤ limit → read (digits k n out) 0 ≡ read out n
  unfolding digits
  read-digits zero n out h l =
      step n 0 out (omega (arith, h)) (omega (arith, l)) ∙ ap (read out) (omega arith)
  read-digits (suc k) n out h l = elim (Bool-cases (ltb n 10)) [
    | inl small ↦
        rw (small, digits)
          (step n 0 out (ltb→lt n 10 small) (omega (arith, l)) ∙ ap (read out) (omega arith))
    | inr large ↦
        let l10 = ltb→le n 10 large in
        rw (large, digits)
          (read-digits k (n / 10) ((48 + n % 10) ∷ out) (omega (arith, h, l10)) (omega (arith, l))
            ∙ step (n % 10) (n / 10) out (omega arith) (omega (arith, l))
            ∙ ap (read out) (omega arith))
  ]

read_digits-step :
    (d m : ℕ) (s : Bytes) → d < 10 → read_digits ((48 + d) ∷ s) m ≡ read_digits s (m * 10 + d)
unfolding read_digits
read_digits-step d m s h = ground arith

digits-IsDigit :
    (k n : ℕ) (out : Bytes)
    → n ≤ k
    → All IsDigit out
    → (c : ℕ) × (s : Bytes) × (digits k n out ≡ c ∷ s) × IsDigit c × All IsDigit s
unfolding digits
digits-IsDigit zero n out h o = (48 + n, out, refl, (omega arith, omega (arith, h)), o)
digits-IsDigit (suc k) n out h o = elim (Bool-cases (ltb n 10)) [
  | inl small ↦
      (48 + n, out, rw (small, digits) refl, (omega arith, omega (arith, ltb→lt n 10 small)), o)
  | inr large ↦
      rw (large, digits)
        (digits-IsDigit k (n / 10) ((48 + n % 10) ∷ out) (omega (arith, h, ltb→le n 10 large))
          ((omega arith, omega arith), o))
]

-- The text of a number is one digit or more.
pub itoa_nat-IsDigit :
    (n : ℕ) → (c : ℕ) × (s : Bytes) × (itoa_nat n ≡ c ∷ s) × IsDigit c × All IsDigit s
unfolding itoa_nat
itoa_nat-IsDigit n = digits-IsDigit n n [] (omega arith) tt

atoi-digits :
    (n c : ℕ) (s : Bytes)
    → IsDigit c
    → read_digits (c ∷ s) 0 ≡ some n
    → n ≤ max_int
    → atoi (c ∷ s) ≡ some (pos n)
unfolding atoi read_number
atoi-digits n c s (low, high) e h = ground (arith, e)

pub atoi-itoa_nat : (n : ℕ) → n ≤ max_int → atoi (itoa_nat n) ≡ some (pos n)
unfolding itoa_nat read_digits
atoi-itoa_nat n h =
    let (c, s, e, d, _) = itoa_nat-IsDigit n in
    let reads : read_digits (itoa_nat n) 0 ≡ some n =
      read-digits read_digits n (λ k m t l _. read_digits-step k m t l) n n [] (omega arith)
        (omega arith) in
    ap atoi e ∙ atoi-digits n c s d (ap (λ t. read_digits t 0) (sym e) ∙ reads) h
