-- ===== src/GoText/Numbers.antt =====
-- Go's decimal text of integers: `strconv.Itoa` (and `%d`), and `strconv.Atoi`.
pub mod RoundTrip
use io_mutiplexing.Common.{
  ℕ, zero, suc, ◌+◌, ◌-◌, ◌*◌, ◌/◌, ◌%◌, [], ◌∷◌, Bytes, ltb, leb, ◌==◌, true, false, ◌&&◌,
  if◌then◌else◌, ℤ, pos, negsuc, Option, none, some,
}

-- The digits of `n` in front of `out`. The first argument bounds the rounds: `n` itself is enough,
-- since a round divides `n` by ten.
unfoldable pub digits : ℕ → ℕ → Bytes → Bytes
digits zero n out = (b'0' + n) ∷ out
digits (suc rounds) n out = elim (ltb n 10) [
  | true ↦ (b'0' + n) ∷ out
  | false ↦ digits rounds (n / 10) ((b'0' + n % 10) ∷ out)
]

unfoldable pub itoa_nat : ℕ → Bytes
unfolding digits
itoa_nat n = digits n n []

unfoldable pub itoa : ℤ → Bytes
unfolding itoa_nat
itoa (pos n) = itoa_nat n
itoa (negsuc n) = b'-' ∷ itoa_nat (suc n)

-- The number that ASCII digits spell behind `n`; `none` at any other byte.
unfoldable pub read_digits : Bytes → ℕ → Option ℕ
read_digits [] n = some n
read_digits (c ∷ s) n =
    let rest = read_digits s (n * 10 + (c - b'0')) in
    if leb b'0' c && leb c b'9' then rest else none

-- One digit or more.
unfoldable pub read_number : Bytes → Option ℕ
unfolding read_digits
read_number [] = none
read_number (c ∷ s) = read_digits (c ∷ s) 0

abbrev pub max_int : ℕ
max_int = 0x7fff_ffff_ffff_ffff

-- The range check of `Atoi` behind each sign.
abbrev pub positive : Option ℕ → Option ℤ
positive none = none
positive (some n) = if ltb max_int n then none else some (pos n)

abbrev pub negative : Option ℕ → Option ℤ
negative none = none
negative (some zero) = some (pos zero)
negative (some (suc n)) = if ltb max_int n then none else some (negsuc n)

-- `none` for both of its errors, a text that is no number and one out of range.
unfoldable pub atoi : Bytes → Option ℤ
unfolding read_number
atoi [] = none
atoi (c ∷ s) =
    if c == b'-'
    then negative (read_number s)
    else if c == b'+'
    then positive (read_number s)
    else positive (read_number (c ∷ s))
