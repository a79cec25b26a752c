-- ===== src/Http1/Lengths.antt =====
-- httpserver.go: `parsePositiveInt`, which reads the value of Content-Length.
use io_mutiplexing.Common.{
  ℕ, ◌+◌, ◌-◌, ◌*◌, ◌≤◌, ◌<◌, ◌≡◌, sym, ap, ◌∙◌, arith, [], ◌∷◌, some, Bytes,
}
use io_mutiplexing.GoText.Numbers.{itoa_nat}
use io_mutiplexing.GoText.Numbers.RoundTrip.{read-digits, itoa_nat-IsDigit}
use io_mutiplexing.Http1.{read_positive, parse_positive_int, max_content_length}

read_positive-step :
    (d m : ℕ) (s : Bytes)
    → d < 10
    → m * 10 + d ≤ max_content_length
    → read_positive ((48 + d) ∷ s) m ≡ read_positive s (m * 10 + d)
unfolding read_positive
read_positive-step d m s h l = ground arith

parse_positive_int-cons :
    (s : Bytes) (c : ℕ) (t : Bytes) → s ≡ c ∷ t → parse_positive_int s ≡ read_positive s 0
unfolding parse_positive_int
parse_positive_int-cons s c t e = ap parse_positive_int e ∙ ap (λ r. read_positive r 0) (sym e)

-- The decimal text of a number up to 2^30 is read back.
pub parse_positive_int-itoa_nat :
    (n : ℕ) → n ≤ max_content_length → parse_positive_int (itoa_nat n) ≡ some n
unfolding itoa_nat read_positive
parse_positive_int-itoa_nat n h =
    let (c, s, e, _, _) = itoa_nat-IsDigit n in
    parse_positive_int-cons (itoa_nat n) c s e
    ∙ read-digits read_positive max_content_length read_positive-step n n [] (omega arith) h

-- A number that is read is at most 2^30.
read_positive-le :
    (s : Bytes) (m n : ℕ)
    → m ≤ max_content_length
    → read_positive s m ≡ some n
    → n ≤ max_content_length
unfolding read_positive
read_positive-le [] m n h e = ground (arith, e, h)
read_positive-le (c ∷ s) m n h e = ground (arith, h, e, read_positive-le s (m * 10 + (c - b'0')) n)

pub parse_positive_int-le :
    (s : Bytes) (n : ℕ) → parse_positive_int s ≡ some n → n ≤ max_content_length
unfolding parse_positive_int
parse_positive_int-le [] n e = ground (arith, e)
parse_positive_int-le (c ∷ s) n e = read_positive-le (c ∷ s) 0 n (omega arith) e
