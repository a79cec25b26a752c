-- ===== src/Common/Maps/Orders.antt =====
-- The entries of a map in another order. The order in which Go goes through a map is not specified.
use mathlib.Core.Path.{subst}
use mathlib.Core.List.{Permᴰ}
use mathlib.Core.List.Permᴰ
use io_mutiplexing.Common.{
  ℕ, ◌≡◌, refl, sym, ap, ◌∙◌, arith, true, false, List, [], ◌∷◌, inl, inr, Bool-cases,
  if◌then◌else◌, ◌==◌,
}
use io_mutiplexing.Common.Maps.{insert, delete, is_key, HasDistinctKeys, delete-absent}

-- A relation holds of reordered lists when it holds of their steps.
pub Permᴰ-rule {ℓ κ} :
    {A : Type ℓ} (Q : List A → List A → Type κ)
    → Q [] []
    → ((a : A) (m n : List A) → Q m n → Q (a ∷ m) (a ∷ n))
    → ((a b : A) (m : List A) → Q (a ∷ b ∷ m) (b ∷ a ∷ m))
    → ((l m n : List A) → Q l m → Q m n → Q l n)
    → (m n : List A) → Permᴰ m n
    → Q m n
Permᴰ-rule Q empty skip swap both _ _ Permᴰ.nil = empty
Permᴰ-rule Q empty skip swap both _ _ (Permᴰ.cons {a = a} {l₁ = m} {l₂ = n} e p) =
    subst (λ b. Q (a ∷ m) (b ∷ n)) e (skip a m n (Permᴰ-rule Q empty skip swap both m n p))
Permᴰ-rule Q empty skip swap both _ _ (Permᴰ.swap {a = a} {b = b} {b' = b'} {l = m} e e') =
    subst (λ y. Q (a ∷ b ∷ m) (y ∷ b' ∷ m)) e'
      (subst (λ y. Q (a ∷ b ∷ m) (b ∷ y ∷ m)) e (swap a b m))
Permᴰ-rule Q empty skip swap both l n (Permᴰ.trans {l₂ = m} p q) =
    both l m n (Permᴰ-rule Q empty skip swap both l m p) (Permᴰ-rule Q empty skip swap both m n q)

module _ {ℓ} {V : Type ℓ} where
  pub is_key-perm : (j : ℕ) (m n : List (ℕ × V)) → Permᴰ m n → is_key j m ≡ is_key j n
  unfolding is_key
  is_key-perm j m n p =
      Permᴰ-rule (λ m n. is_key j m ≡ is_key j n) refl
        (λ a m n e. ap (λ b. if a.0 == j then true else b) e) (λ a b m. ground arith)
        (λ l m n e e'. e ∙ e') m n p

  -- No key twice, in whatever order, and the same keys.
  abbrev KeepsKeys : List (ℕ × V) → List (ℕ × V) → Type 0
  KeepsKeys m n = ((j : ℕ) → is_key j m ≡ is_key j n) × (HasDistinctKeys m → HasDistinctKeys n)

  swap-KeepsKeys : (a b : ℕ × V) (m : List (ℕ × V)) → KeepsKeys (a ∷ b ∷ m) (b ∷ a ∷ m)
  unfolding is_key
  swap-KeepsKeys a b m = (λ j. ground arith, λ h. ground (arith, h))

  perm-KeepsKeys : (m n : List (ℕ × V)) → Permᴰ m n → KeepsKeys m n
  unfolding is_key
  perm-KeepsKeys =
      Permᴰ-rule KeepsKeys (λ j. refl, λ h. h)
        (λ a m n q. (
          λ j. ap (λ b. if a.0 == j then true else b) (q.0 j),
          λ h. (sym (q.0 a.0) ∙ h.0, q.1 h.1),
        ))
        swap-KeepsKeys (λ l m n q r. (λ j. q.0 j ∙ r.0 j, λ h. r.1 (q.1 h)))

  pub HasDistinctKeys-perm :
      (m n : List (ℕ × V)) → Permᴰ m n → HasDistinctKeys m → HasDistinctKeys n
  HasDistinctKeys-perm m n p = (perm-KeepsKeys m n p).1

  delete-skip :
      (k : ℕ) (a : ℕ × V) (m n : List (ℕ × V))
      → Permᴰ (delete k m) (delete k n)
      → Permᴰ (delete k (a ∷ m)) (delete k (a ∷ n))
  unfolding delete
  delete-skip k a m n p = elim (Bool-cases (a.0 == k)) [
    | inl own ↦ rw own p
    | inr other ↦ rw other (Permᴰ.cons refl p)
  ]

  delete-swap :
      (k : ℕ) (a b : ℕ × V) (m : List (ℕ × V)) → Permᴰ (delete k (a ∷ b ∷ m)) (delete k (b ∷ a ∷ m))
  unfolding delete
  delete-swap k a b m = elim (Bool-cases (a.0 == k)) [
    | inl own ↦ rw own (Permᴰ.refl _)
    | inr other ↦ elim (Bool-cases (b.0 == k)) [
      | inl own ↦ rw (other, own) (Permᴰ.refl _)
      | inr fresh ↦ rw (other, fresh) (Permᴰ.swap refl refl)
    ]
  ]

  pub delete-perm : (k : ℕ) (m n : List (ℕ × V)) → Permᴰ m n → Permᴰ (delete k m) (delete k n)
  unfolding delete
  delete-perm k =
      Permᴰ-rule (λ m n. Permᴰ (delete k m) (delete k n)) Permᴰ.nil (delete-skip k) (delete-swap k)
        (λ l m n p q. Permᴰ.trans p q)

  deleted_once :
      (k i : ℕ) (m : List (ℕ × V)) → (i == k) ≡ true → is_key i m ≡ false → m ≡ delete k m
  deleted_once k i m own fresh = ground (arith, delete-absent k m)

  -- An insertion, but for the order, is a deletion and a new entry.
  pub insert-delete-perm :
      (k : ℕ) (v : V) (m : List (ℕ × V))
      → HasDistinctKeys m
      → Permᴰ (insert k v m) ((k, v) ∷ delete k m)
  unfolding insert delete
  insert-delete-perm k v [] h = Permᴰ.refl _
  insert-delete-perm k v ((i, w) ∷ m) (fresh, h) = elim (Bool-cases (i == k)) [
    | inl own ↦
        rw own (Permᴰ.cons refl (subst (Permᴰ m) (deleted_once k i m own fresh) (Permᴰ.refl m)))
    | inr other ↦
        rw other (Permᴰ.trans (Permᴰ.cons refl (insert-delete-perm k v m h)) (Permᴰ.swap refl refl))
  ]

  pub insert-perm :
      (k : ℕ) (v : V) (m n : List (ℕ × V))
      → HasDistinctKeys m
      → Permᴰ m n
      → Permᴰ (insert k v m) (insert k v n)
  insert-perm k v m n h p = Permᴰ.trans (insert-delete-perm k v m h) (
      Permᴰ.trans (Permᴰ.cons refl (delete-perm k m n p))
        (Permᴰ.symm (insert-delete-perm k v n (HasDistinctKeys-perm m n p h))))
