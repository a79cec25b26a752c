-- ===== src/GoText/Bytes.antt =====
-- Go's byte-string functions: equality, `bytes.HasPrefix`, `bytes.Index`, `strings.Contains`,
-- `bytes.IndexByte`, `strings.LastIndex`, `bytes.SplitN` and `strings.Split`.
use io_mutiplexing.Common.{
  ℕ, zero, suc, ◌-◌, Bool, true, false, ◌&&◌, List, [], ◌∷◌, ◌++◌, Option, none, some, Bytes, ◌==◌,
  if◌then◌else◌, ◌≡◌, refl, arith,
}
use mathlib.Core.Option

unfoldable pub equal : Bytes → Bytes → Bool
equal [] [] = true
equal [] (b ∷ t) = false
equal (a ∷ s) [] = false
equal (a ∷ s) (b ∷ t) = a == b && equal s t

pub equal_sound : (s t : Bytes) → equal s t ≡ true → s ≡ t
unfolding equal
equal_sound [] [] e = refl
equal_sound [] (y ∷ t) e = ground (arith, e)
equal_sound (x ∷ s) [] e = ground (arith, e)
equal_sound (x ∷ s) (y ∷ t) e = ground (arith, e, equal_sound s t)

unfoldable pub has_prefix : Bytes → Bytes → Bool
has_prefix s [] = true
has_prefix [] (y ∷ ys) = false
has_prefix (x ∷ xs) (y ∷ ys) = x == y && has_prefix xs ys

-- The first position at which `sep` stands in `s`; -1 is `none`.
unfoldable pub index : Bytes → Bytes → Option ℕ
unfolding has_prefix
index [] sep = if has_prefix [] sep then some 0 else none
index (x ∷ xs) sep = if has_prefix (x ∷ xs) sep then some 0 else Option.map suc (index xs sep)

unfoldable pub contains : Bytes → Bytes → Bool
unfolding index
contains s sub = elim (index s sub) [ none ↦ false | some _ ↦ true ]

unfoldable pub index_byte : Bytes → ℕ → Option ℕ
index_byte [] c = none
index_byte (x ∷ xs) c = if x == c then some 0 else Option.map suc (index_byte xs c)

-- The last position of a byte, `strings.LastIndex` at a text of one byte.
abbrev pub or_here : Bool → Option ℕ → Option ℕ
or_here here (some i) = some (suc i)
or_here here none = if here then some 0 else none

unfoldable pub last_index_byte : Bytes → ℕ → Option ℕ
last_index_byte [] c = none
last_index_byte (x ∷ xs) c = or_here (x == c) (last_index_byte xs c)

-- `s` cut at each occurrence of the byte, with no limit; `cur` is the part that is being read.
unfoldable pub split_onto : Bytes → ℕ → Bytes → List Bytes
split_onto [] sep cur = cur ∷ []
split_onto (x ∷ xs) sep cur = elim (x == sep) [
  | true ↦ cur ∷ split_onto xs sep []
  | false ↦ split_onto xs sep (cur ++ x ∷ [])
]

unfoldable pub split : Bytes → ℕ → List Bytes
unfolding split_onto
split s sep = split_onto s sep []

-- The same with `n` parts at most, for `n` at least 1: the last one is what is left.
unfoldable pub split_n_onto : ℕ → Bytes → ℕ → Bytes → List Bytes
split_n_onto zero xs sep cur = (cur ++ xs) ∷ []
split_n_onto (suc cuts) [] sep cur = cur ∷ []
split_n_onto (suc cuts) (x ∷ xs) sep cur = elim (x == sep) [
  | true ↦ cur ∷ split_n_onto cuts xs sep []
  | false ↦ split_n_onto (suc cuts) xs sep (cur ++ x ∷ [])
]

unfoldable pub split_n : Bytes → ℕ → ℕ → List Bytes
unfolding split_n_onto
split_n s sep n = split_n_onto (n - 1) s sep []
