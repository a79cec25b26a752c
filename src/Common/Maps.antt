-- ===== src/Common/Maps.antt =====
-- Go maps with number keys as association lists: a lookup reads the first entry of a key, an
-- assignment replaces it or adds one, a deletion removes every entry of the key.
pub mod Orders
use mathlib.Core.Path.{◌≡◌, refl}
use mathlib.Core.Bool.{Bool, true, false}
use mathlib.Core.Option.{Option, none, some}
use mathlib.Core.List.{List, [], ◌∷◌}
use Prim.Native.Nat.{ℕ}
use native.Mathlib.Omega.{arith}
use io_mutiplexing.Common.Tests.{◌==◌, if◌then◌else◌}

module _ {ℓ} {V : Type ℓ} where
  unfoldable pub lookup : ℕ → List (ℕ × V) → Option V
  lookup key [] = none
  lookup key ((k, found) ∷ rows) = if k == key then some found else lookup key rows

  unfoldable pub insert : ℕ → V → List (ℕ × V) → List (ℕ × V)
  insert key new [] = (key, new) ∷ []
  insert key new ((k, old) ∷ rows) =
      if k == key then (key, new) ∷ rows else (k, old) ∷ insert key new rows

  unfoldable pub delete : ℕ → List (ℕ × V) → List (ℕ × V)
  delete key [] = []
  delete key ((k, old) ∷ rows) = if k == key then delete key rows else (k, old) ∷ delete key rows

  pub lookup-insert :
      (key other : ℕ) (new : V) (rows : List (ℕ × V))
      → lookup other (insert key new rows) ≡ (if key == other then some new else lookup other rows)
  unfolding lookup insert
  lookup-insert key other new [] = refl
  lookup-insert key other new ((k, old) ∷ rows) = ground (arith, lookup-insert key other new rows)

  pub lookup-delete :
      (k j : ℕ) (m : List (ℕ × V)) → lookup j (delete k m) ≡ (if k == j then none else lookup j m)
  unfolding lookup delete
  lookup-delete k j [] = ground arith
  lookup-delete k j ((i, w) ∷ m) = ground (arith, lookup-delete k j m)

  -- The keys of a map are pairwise different.
  unfoldable pub is_key : ℕ → List (ℕ × V) → Bool
  is_key k [] = false
  is_key k ((j, v) ∷ m) = if j == k then true else is_key k m

  abbrev pub HasDistinctKeys : List (ℕ × V) → Type 0
  HasDistinctKeys [] = Unit
  HasDistinctKeys ((k, v) ∷ m) = (is_key k m ≡ false) × HasDistinctKeys m

  pub is_key-insert :
      (k j : ℕ) (v : V) (m : List (ℕ × V))
      → is_key j (insert k v m) ≡ (if k == j then true else is_key j m)
  unfolding is_key insert
  is_key-insert k j v [] = refl
  is_key-insert k j v ((i, w) ∷ m) = ground (arith, is_key-insert k j v m)

  pub is_key-delete :
      (k j : ℕ) (m : List (ℕ × V)) → is_key j (delete k m) ≡ (if k == j then false else is_key j m)
  unfolding is_key delete
  is_key-delete k j [] = ground arith
  is_key-delete k j ((i, w) ∷ m) = ground (arith, is_key-delete k j m)

  pub HasDistinctKeys-insert :
      (k : ℕ) (v : V) (m : List (ℕ × V)) → HasDistinctKeys m → HasDistinctKeys (insert k v m)
  unfolding is_key insert
  HasDistinctKeys-insert k v [] h = (refl, tt)
  HasDistinctKeys-insert k v ((i, w) ∷ m) (fresh, h) =
      ground (arith, is_key-insert k i v m, HasDistinctKeys-insert k v m h)

  pub HasDistinctKeys-delete :
      (k : ℕ) (m : List (ℕ × V)) → HasDistinctKeys m → HasDistinctKeys (delete k m)
  unfolding delete
  HasDistinctKeys-delete k [] h = tt
  HasDistinctKeys-delete k ((i, w) ∷ m) (fresh, h) =
      ground (arith, is_key-delete k i m, HasDistinctKeys-delete k m h)

  pub is_key-lookup : (k : ℕ) (m : List (ℕ × V)) → lookup k m ≡ none → is_key k m ≡ false
  unfolding is_key lookup
  is_key-lookup k [] h = refl
  is_key-lookup k ((i, w) ∷ m) h = ground (arith, is_key-lookup k m)

  pub delete-insert : (k : ℕ) (v : V) (m : List (ℕ × V)) → delete k (insert k v m) ≡ delete k m
  unfolding insert delete
  delete-insert k v [] = ground arith
  delete-insert k v ((i, w) ∷ m) = ground (arith, delete-insert k v m)

  -- A deletion of a key that is not there.
  pub delete-absent : (k : ℕ) (m : List (ℕ × V)) → is_key k m ≡ false → delete k m ≡ m
  unfolding is_key delete
  delete-absent k [] h = refl
  delete-absent k ((i, w) ∷ m) h = ground (arith, delete-absent k m)

  pub delete-delete : (k : ℕ) (m : List (ℕ × V)) → delete k (delete k m) ≡ delete k m
  unfolding delete
  delete-delete k [] = refl
  delete-delete k ((i, w) ∷ m) = ground (arith, delete-delete k m)

  pub insert-insert :
      (k : ℕ) (v w : V) (m : List (ℕ × V)) → insert k v (insert k w m) ≡ insert k v m
  unfolding insert
  insert-insert k v w [] = ground arith
  insert-insert k v w ((i, x) ∷ m) = ground (arith, insert-insert k v w m)

  pub insert-lookup : (k : ℕ) (v : V) (m : List (ℕ × V)) → lookup k m ≡ some v → insert k v m ≡ m
  unfolding lookup insert
  insert-lookup k v [] h = cc
  insert-lookup k v ((i, w) ∷ m) h = ground (arith, insert-lookup k v m)

  pub is_key-lookup-some :
      (k : ℕ) (v : V) (m : List (ℕ × V)) → lookup k m ≡ some v → is_key k m ≡ true
  unfolding is_key lookup
  is_key-lookup-some k v [] h = cc
  is_key-lookup-some k v ((i, w) ∷ m) h = ground (arith, is_key-lookup-some k v m)
