-- ===== src/Http/Addresses.antt =====
-- http.go: `parseAddr` reads back the text of an address and a port.
use mathlib.Core.Path.{subst}
use io_mutiplexing.Common.{
  ℕ, ◌≤◌, ◌<◌, ◌≡◌, refl, sym, ap, ◌∙◌, arith, true, false, List, [], ◌∷◌, ◌++◌, none, some, Bytes,
  codes, length, All, append_assoc, append-nil, take-append_self, inl, inr, ◌⊎◌, Bool-cases, le→ltb,
  ℤ, pos,
}
use io_mutiplexing.GoText.Bytes.{equal, equal_sound, last_index_byte, split, split_onto}
use io_mutiplexing.GoText.Numbers.{itoa_nat, atoi, max_int}
use io_mutiplexing.GoText.Numbers.RoundTrip.{IsDigit, itoa_nat-IsDigit, atoi-itoa_nat}
use io_mutiplexing.Http1.Search.{Without, drop-append_add, ==_refl}
use io_mutiplexing.Http.{ok, read_octets, any_ip, with_ip, parse_host, at_colon, parse_addr}

-- No digit is a dot or a colon.
digits-Without : (c : ℕ) (s : Bytes) → (c < 48) ⊎ (57 < c) → All IsDigit s → Without c s
digits-Without c [] o i = tt
digits-Without c (x ∷ s) o ((low, high), i) = (ground (arith, o, low, high), digits-Without c s o i)

itoa-Without : (c n : ℕ) → (c < 48) ⊎ (57 < c) → Without c (itoa_nat n)
itoa-Without c n o =
    let (d, s, e, i, is) = itoa_nat-IsDigit n in
    subst (Without c) (sym e) (digits-Without c (d ∷ s) o (i, is))

split_onto-append :
    (c : ℕ) (s t cur : Bytes)
    → Without c s
    → split_onto (s ++ c ∷ t) c cur ≡ (cur ++ s) ∷ split_onto t c []
unfolding split_onto
split_onto-append c [] t cur h =
    rw (==_refl c, split_onto) (ap (λ p. p ∷ split_onto t c []) (sym (append-nil cur)))
split_onto-append c (x ∷ s) t cur (e, h) =
    rw (e, split_onto)
      (split_onto-append c s t (cur ++ x ∷ []) h
        ∙ ap (λ p. p ∷ split_onto t c []) (append_assoc cur (x ∷ []) s))

split_onto-last : (c : ℕ) (s cur : Bytes) → Without c s → split_onto s c cur ≡ (cur ++ s) ∷ []
unfolding split_onto
split_onto-last c [] cur h = ap (λ p. p ∷ []) (sym (append-nil cur))
split_onto-last c (x ∷ s) cur (e, h) =
    rw (e, split_onto)
      (split_onto-last c s (cur ++ x ∷ []) h ∙ ap (λ p. p ∷ []) (append_assoc cur (x ∷ []) s))

last_index_byte-none : (c : ℕ) (s : Bytes) → Without c s → last_index_byte s c ≡ none
unfolding last_index_byte
last_index_byte-none c [] h = refl
last_index_byte-none c (x ∷ s) (e, h) = rw (last_index_byte-none c s h, e) refl

last_index_byte-append :
    (c : ℕ) (s t : Bytes) → Without c t → last_index_byte (s ++ c ∷ t) c ≡ some (length s)
unfolding last_index_byte
last_index_byte-append c [] t h = rw (last_index_byte-none c t h, ==_refl c) refl
last_index_byte-append c (x ∷ s) t h = rw (last_index_byte-append c s t h) refl

abbrev pub host_text : ℕ → ℕ → ℕ → ℕ → Bytes
host_text a b c d = itoa_nat a ++ b'.' ∷ (itoa_nat b ++ b'.' ∷ (itoa_nat c ++ b'.' ∷ itoa_nat d))

abbrev parts_of : ℕ → ℕ → ℕ → ℕ → List Bytes
parts_of a b c d = itoa_nat a ∷ itoa_nat b ∷ itoa_nat c ∷ itoa_nat d ∷ []

split-host_text : (a b c d : ℕ) → split (host_text a b c d) b'.' ≡ parts_of a b c d
unfolding split
split-host_text a b c d =
    let no_dot : (n : ℕ) → Without b'.' (itoa_nat n) =
      λ n. itoa-Without b'.' n (inl (omega arith)) in
    split_onto-append b'.' (itoa_nat a) (itoa_nat b ++ b'.' ∷ (itoa_nat c ++ b'.' ∷ itoa_nat d)) []
      (no_dot a)
    ∙ ap (λ t. itoa_nat a ∷ t)
        (split_onto-append b'.' (itoa_nat b) (itoa_nat c ++ b'.' ∷ itoa_nat d) [] (no_dot b)
          ∙ ap (λ t. itoa_nat b ∷ t)
              (split_onto-append b'.' (itoa_nat c) (itoa_nat d) [] (no_dot c)
                ∙ ap (λ t. itoa_nat c ∷ t) (split_onto-last b'.' (itoa_nat d) [] (no_dot d))))

read_octets-itoa :
    (n : ℕ) (os : List Bytes) (ip : List ℕ)
    → n ≤ 255
    → read_octets (itoa_nat n ∷ os) ip ≡ read_octets os (ip ++ n ∷ [])
unfolding read_octets
read_octets-itoa n os ip h = rw (atoi-itoa_nat n (omega (arith, h)), le→ltb 255 n h) refl

-- Four numbers that fit in a byte.
pub record IsIp (a b c d : ℕ) : Type 0 where
  pub a_byte : a ≤ 255
  pub b_byte : b ≤ 255
  pub c_byte : c ≤ 255
  pub d_byte : d ≤ 255

read_octets-parts :
    (a b c d : ℕ) → IsIp a b c d → read_octets (parts_of a b c d) [] ≡ some (a ∷ b ∷ c ∷ d ∷ [])
unfolding read_octets
read_octets-parts a b c d i =
    read_octets-itoa a (itoa_nat b ∷ itoa_nat c ∷ itoa_nat d ∷ []) [] i.a_byte
    ∙ read_octets-itoa b (itoa_nat c ∷ itoa_nat d ∷ []) (a ∷ []) i.b_byte
    ∙ read_octets-itoa c (itoa_nat d ∷ []) (a ∷ b ∷ []) i.c_byte
    ∙ read_octets-itoa d [] (a ∷ b ∷ c ∷ []) i.d_byte

-- The text of no address is empty, and where it is the text that stands for every interface, the
-- numbers in it are that address.
host_text-empty : (a b c d : ℕ) → equal (host_text a b c d) [] ≡ false
unfolding equal
host_text-empty a b c d =
    let (x, s, e, _, _) = itoa_nat-IsDigit a in
    ap (λ t. equal (t ++ b'.' ∷ (itoa_nat b ++ b'.' ∷ (itoa_nat c ++ b'.' ∷ itoa_nat d))) []) e

read_octets-host :
    (a b c d : ℕ)
    → IsIp a b c d
    → read_octets (split (host_text a b c d) b'.') [] ≡ some (a ∷ b ∷ c ∷ d ∷ [])
read_octets-host a b c d i =
    ap (λ ps. read_octets ps []) (split-host_text a b c d) ∙ read_octets-parts a b c d i

any_ip-host :
    (h : Bytes) (ip : List ℕ)
    → read_octets (split h b'.') [] ≡ some ip
    → equal h (codes "0.0.0.0") ≡ true
    → some any_ip ≡ some ip
unfolding read_octets split split_onto atoi
any_ip-host h ip reads e =
    ap (λ t. read_octets (split t b'.') []) (sym (equal_sound h (codes "0.0.0.0") e)) ∙ reads

parse_host-host_text :
    (a b c d : ℕ) (port : ℤ)
    → IsIp a b c d
    → parse_host (host_text a b c d) port ≡ ok (record { ip = a ∷ b ∷ c ∷ d ∷ []; port = port })
unfolding parse_host
parse_host-host_text a b c d port i =
    let h = host_text a b c d in
    let reads = read_octets-host a b c d i in
    elim (Bool-cases (equal h (codes "0.0.0.0"))) [
      | inl e ↦
          rw (host_text-empty a b c d, e)
            (ap (with_ip port) (any_ip-host h (a ∷ b ∷ c ∷ d ∷ []) reads e))
      | inr e ↦
          rw (host_text-empty a b c d, e, split-host_text a b c d)
            (ap (with_ip port) (read_octets-parts a b c d i))
    ]

-- The text of four numbers of a byte, with dots between them, a colon and a port is parsed to them.
pub parse_addr-host_text :
    (a b c d p : ℕ)
    → IsIp a b c d
    → p ≤ max_int
    → parse_addr (host_text a b c d ++ b':' ∷ itoa_nat p)
      ≡ ok (record { ip = a ∷ b ∷ c ∷ d ∷ []; port = pos p })
unfolding parse_addr
parse_addr-host_text a b c d p i l =
    let h = host_text a b c d in
    let text = h ++ b':' ∷ itoa_nat p in
    ap (at_colon text)
      (last_index_byte-append b':' h (itoa_nat p) (itoa-Without b':' p (inr (omega arith))))
    ∙ rw
        (
          take-append_self h (b':' ∷ itoa_nat p),
          drop-append_add h (b':' ∷ itoa_nat p) 1,
          atoi-itoa_nat p l,
        )
        (parse_host-host_text a b c d (pos p) i)
