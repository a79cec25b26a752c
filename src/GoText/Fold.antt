-- ===== src/GoText/Fold.antt =====
-- Go's `strings.ToLower`, `strings.EqualFold` and `strings.TrimSpace` over bytes.
use mathlib.Core.List.{map, reverse}
use io_mutiplexing.Common.{
  ℕ, ◌+◌, Bool, true, false, ◌&&◌, ◌||◌, [], ◌∷◌, Bytes, leb, ltb, ◌==◌, if◌then◌else◌,
}

-- The Unicode case tables, which ASCII text does not reach: lower case of a text that holds a byte
-- above 127, and equality under case folding from the first such byte on.
pub record Unicode : Type 0 where
  pub lower : Bytes → Bytes
  pub fold_equal : Bytes → Bytes → Bool

unfoldable pub lower_byte : ℕ → ℕ
lower_byte c = if leb b'A' c && leb c b'Z' then c + 32 else c

unfoldable pub is_ascii : Bytes → Bool
is_ascii [] = true
is_ascii (c ∷ s) = ltb c 128 && is_ascii s

unfoldable pub to_lower : Unicode → Bytes → Bytes
unfolding lower_byte is_ascii
to_lower u s = if is_ascii s then map lower_byte s else u.lower s

unfoldable pub equal_fold : Unicode → Bytes → Bytes → Bool
unfolding lower_byte
equal_fold u [] [] = true
equal_fold u (x ∷ xs) (y ∷ ys) =
    if leb 128 x || leb 128 y
    then u.fold_equal (x ∷ xs) (y ∷ ys)
    else lower_byte x == lower_byte y && equal_fold u xs ys
equal_fold u _ _ = false

-- `unicode.IsSpace` on the UTF-8 encodings of its members, which take one to three bytes.
unfoldable pub is_space : ℕ → Bool
is_space c = leb 9 c && leb c 13 || c == b' '

unfoldable pub is_space2 : ℕ → ℕ → Bool
is_space2 a b = a == 0xc2 && (b == 0x85 || b == 0xa0)

unfoldable pub is_space3 : ℕ → ℕ → ℕ → Bool
is_space3 a b c =
    a == 0xe1 && b == 0x9a && c == 0x80
    || a == 0xe2 && b == 0x80 && (leb 0x80 c && leb c 0x8a || c == 0xa8 || c == 0xa9 || c == 0xaf)
    || a == 0xe2 && b == 0x81 && c == 0x9f
    || a == 0xe3 && b == 0x80 && c == 0x80

-- The text without the spaces at its front, for the given tests on one, two and three bytes.
module _ (two : ℕ → ℕ → Bool) (three : ℕ → ℕ → ℕ → Bool) where
  unfoldable pub trim_front : Bytes → Bytes
  unfolding is_space
  trim_front [] = []
  trim_front (a ∷ []) = if is_space a then [] else a ∷ []
  trim_front (a ∷ b ∷ []) =
      let rest = trim_front (b ∷ []) in
      if is_space a then rest else if two a b then [] else a ∷ b ∷ []
  trim_front (a ∷ b ∷ c ∷ s) =
      let behind_one = trim_front (b ∷ c ∷ s) in
      let behind_two = trim_front (c ∷ s) in
      let behind_three = trim_front s in
      if is_space a
      then behind_one
      else if two a b
      then behind_two
      else if three a b c
      then behind_three
      else a ∷ b ∷ c ∷ s

unfoldable pub trim_left : Bytes → Bytes
unfolding trim_front is_space2 is_space3
trim_left = trim_front is_space2 is_space3

-- The same on the reversed text, with the bytes of each encoding in reverse.
unfoldable pub trim_right : Bytes → Bytes
unfolding trim_front is_space2 is_space3
trim_right s = reverse (trim_front (λ b a. is_space2 a b) (λ c b a. is_space3 a b c) (reverse s))

unfoldable pub trim_space : Bytes → Bytes
unfolding trim_left trim_right
trim_space s = trim_right (trim_left s)
