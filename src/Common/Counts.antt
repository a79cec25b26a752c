-- ===== src/Common/Counts.antt =====
-- How many rows of a map with number keys pass a test.
use mathlib.Core.Path.{◌≡◌, refl}
use mathlib.Core.Bool.{Bool, true, false}
use mathlib.Core.Option.{some}
use mathlib.Core.List.{List, [], ◌∷◌}
use Prim.Native.Nat.{ℕ, ◌+◌, ◌≤◌}
use native.Mathlib.Omega.{arith}
use io_mutiplexing.Common.Maps.{lookup, insert, delete, is_key, HasDistinctKeys}

abbrev pub one_if : Bool → ℕ
one_if true = 1
one_if false = 0

module _ {ℓ} {V : Type ℓ} (test : ℕ → V → Bool) where
  unfoldable pub count : List (ℕ × V) → ℕ
  count [] = 0
  count ((k, v) ∷ rows) = one_if (test k v) + count rows

  count-delete_absent :
      (key : ℕ) (rows : List (ℕ × V))
      → is_key key rows ≡ false
      → count (delete key rows) ≡ count rows
  unfolding count delete is_key
  count-delete_absent key [] h = refl
  count-delete_absent key ((k, v) ∷ rows) h = ground (arith, count-delete_absent key rows)

  -- A deletion takes the row of the key off the count.
  pub count-delete :
      (key : ℕ) (v : V) (rows : List (ℕ × V))
      → HasDistinctKeys rows
      → lookup key rows ≡ some v
      → count (delete key rows) + one_if (test key v) ≡ count rows
  unfolding count delete lookup
  count-delete key v [] d h = cc
  count-delete key v ((k, w) ∷ rows) (fresh, d) h =
      ground (arith, count-delete key v rows d, count-delete_absent key rows)

  -- A new key adds its row to the count.
  pub count-insert :
      (key : ℕ) (v : V) (rows : List (ℕ × V))
      → is_key key rows ≡ false
      → count (insert key v rows) ≡ one_if (test key v) + count rows
  unfolding count insert is_key
  count-insert key v [] h = refl
  count-insert key v ((k, w) ∷ rows) h = ground (arith, count-insert key v rows)

-- A test that implies another passes on no more rows.
pub count-le {ℓ} :
    {V : Type ℓ} (f g : ℕ → V → Bool) (rows : List (ℕ × V))
    → ((k : ℕ) (v : V) → one_if (f k v) ≤ one_if (g k v))
    → count f rows ≤ count g rows
unfolding count
count-le f g [] h = omega arith
count-le f g ((k, v) ∷ rows) h = omega (arith, h k v, count-le f g rows h)
