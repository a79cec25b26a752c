-- ===== src/Sending/Whole.antt =====
-- conn_unix.go and conn_windows.go: `Send` ends, and sends all of its data or a part with an error.
use mathlib.Core.Path.{subst}
use io_mutiplexing.Common.{
  ℕ, zero, suc, ◌+◌, ◌%◌, ◌^◌, ◌≤◌, ◌<◌, ◌≡◌, refl, sym, ap, ◌∙◌, arith, List, [], ◌∷◌, ◌++◌, Bytes,
  ltb, length, take, drop, ◌⊎◌, inl, inr, Bool-cases, ltb→lt, ltb→le, le→ltb, take_all, length-drop,
}
use io_mutiplexing.Sending.{
  Taken, failed, took, Sent, sent, refused, send_from, send, send_wsa, wsa_buf,
}

-- The documented answer of a sending call to a buffer that is not empty: it fails, or it takes one
-- byte or more and no more than it was given.
abbrev pub Progresses {ℓ} : {E : Type ℓ} → (ℕ → Bytes → Taken E) → Type ℓ
Progresses {E = E} call =
    (n : ℕ) (buf : Bytes) (k : ℕ)
    → 0 < length buf
    → call n buf ≡ took k
    → (0 < k) × (k ≤ length buf)

-- All of the data was sent, or a part of it that is not all, with an error.
pub data IsEnded {ℓ} {E : Type ℓ} (bytes : Bytes) : Sent E → Type ℓ where
  whole : IsEnded bytes (sent bytes)
  part : (e : E) (off : ℕ) → off < length bytes → IsEnded bytes (refused e (take off bytes))

take_nil {ℓ} : {A : Type ℓ} (n : ℕ) → take {A = A} n [] ≡ []
take_nil zero = refl
take_nil (suc n) = refl

take_add {ℓ} :
    {A : Type ℓ} (n k : ℕ) (xs : List A) → take (n + k) xs ≡ take n xs ++ take k (drop n xs)
take_add zero k xs = ap (λ m. take m xs) (omega arith)
take_add (suc n) k [] = take_nil (suc n + k) ∙ sym (take_nil k)
take_add (suc n) k (x ∷ xs) =
    let e : suc n + k ≡ suc (n + k) = omega arith in
    ap (λ m. take m (x ∷ xs)) e ∙ ap (λ t. x ∷ t) (take_add n k xs)

Taken-cases {ℓ} : {E : Type ℓ} (t : Taken E) → ((e : E) × (t ≡ failed e)) ⊎ ((k : ℕ) × (t ≡ took k))
Taken-cases (failed e) = inl (e, refl)
Taken-cases (took k) = inr (k, refl)

-- A sending call that makes progress, given all that is left of the data.
module _ {ℓ} {E : Type ℓ} (call : ℕ → Bytes → Taken E) (progresses : Progresses call)
    (given : Bytes → Bytes) (bytes : Bytes)
    (all : (rest : Bytes) → length rest ≤ length bytes → given rest ≡ rest) where
  ended :
      (wire : Bytes) (off : ℕ)
      → wire ≡ take off bytes
      → off ≡ length bytes
      → IsEnded {E = E} bytes (sent wire)
  ended wire off w e =
      subst (λ t. IsEnded {E = E} bytes (sent t))
        (sym (take_all bytes) ∙ ap (λ n. take n bytes) (sym e) ∙ sym w) whole

  given-drop : (off : ℕ) → given (drop off bytes) ≡ drop off bytes
  given-drop off = all (drop off bytes) (omega (arith, length-drop off bytes))

  send_from-IsEnded :
      (rounds n off : ℕ) (wire : Bytes)
      → wire ≡ take off bytes
      → off ≤ length bytes
      → length bytes ≤ off + rounds
      → IsEnded bytes (send_from call given rounds n bytes off wire)
  unfolding send_from
  send_from-IsEnded zero n off wire w low fuel =
      rw (le→ltb off (length bytes) (omega (arith, fuel)))
        (ended wire off w (omega (arith, low, fuel)))
  send_from-IsEnded (suc rounds) n off wire w low fuel =
      elim (Bool-cases (ltb off (length bytes))) [
        | inr over ↦ rw over (ended wire off w (omega (arith, low, ltb→le off (length bytes) over)))
        | inl more ↦
            let left = ltb→lt off (length bytes) more in
            elim (Taken-cases (call n (drop off bytes))) [
              | inl (e, fails) ↦
                  rw (more, given-drop off, fails)
                    (subst (λ t. IsEnded bytes (refused e t)) (sym w) (part e off left))
              | inr (k, takes) ↦
                  let (some_bytes, within) =
                    progresses n (drop off bytes) k (omega (arith, left, length-drop off bytes))
                      takes in
                  rw (more, given-drop off, takes)
                    (send_from-IsEnded rounds (suc n) (off + k) (wire ++ take k (drop off bytes))
                      (ap (λ t. t ++ take k (drop off bytes)) w ∙ sym (take_add off k bytes))
                      (omega (arith, within, left, length-drop off bytes))
                      (omega (arith, fuel, some_bytes)))
            ]
      ]

-- When each `write` of a buffer that is not empty fails or takes one byte or more of it, `Send`
-- ends: either all of the data was taken, in order, or an error is returned and a part of the data
-- that is not all of it was taken.
pub send-IsEnded {ℓ} :
    {E : Type ℓ} (call : ℕ → Bytes → Taken E) (bytes : Bytes)
    → Progresses call
    → IsEnded bytes (send call bytes)
unfolding send
send-IsEnded call bytes p =
    send_from-IsEnded call p (λ rest. rest) bytes (λ rest _. refl) (length bytes) 0 0 [] refl
      (omega arith) (omega arith)

-- The same with `WSASend`, for data of less than 4 GiB, which fits the length of its buffer.
pub send_wsa-IsEnded {ℓ} :
    {E : Type ℓ} (call : ℕ → Bytes → Taken E) (bytes : Bytes)
    → Progresses call
    → length bytes < 2 ^ 32
    → IsEnded bytes (send_wsa call bytes)
unfolding send_wsa
send_wsa-IsEnded call bytes p short =
    send_from-IsEnded call p wsa_buf bytes fits (length bytes) 0 0 [] refl (omega arith)
      (omega arith)
  where
    fits : (rest : Bytes) → length rest ≤ length bytes → wsa_buf rest ≡ rest
    fits rest h =
        let e : length rest % 2 ^ 32 ≡ length rest = omega (arith, short, h) in
        ap (λ n. take n rest) e ∙ take_all rest
