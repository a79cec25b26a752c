-- ===== src/Http1/Search.antt =====
-- The searches of httpserver.go for CRLF, for the blank line, for a colon and for spaces, in a text
-- that is put together from parts without those bytes.
use io_mutiplexing.Common.{
  ℕ, suc, ◌+◌, ◌≡◌, refl, ap, ◌∙◌, arith, Bool, true, false, not, ◌&&◌, List, [], ◌∷◌, ◌++◌, none,
  some, Bytes, ◌==◌, length, drop, All, append_assoc, append-nil, sym,
}
use io_mutiplexing.GoText.Bytes.{index, has_prefix, index_byte, split_n_onto}
use io_mutiplexing.Http1.{crlf, header_end}

-- The byte does not stand in the text.
abbrev pub Without : ℕ → Bytes → Type 0
Without c = All (λ x. (x == c) ≡ false)

-- The same as a test, for texts that are known.
abbrev pub lacks : ℕ → Bytes → Bool
lacks c [] = true
lacks c (x ∷ s) = not (x == c) && lacks c s

pub lacks-Without : (c : ℕ) (s : Bytes) → lacks c s ≡ true → Without c s
lacks-Without c [] e = tt
lacks-Without c (x ∷ s) e = (ground (arith, e), lacks-Without c s (ground (arith, e)))

pub index-crlf : (s t : Bytes) → Without b'\r' s → index (s ++ (crlf ++ t)) crlf ≡ some (length s)
unfolding index has_prefix
index-crlf [] t h = refl
index-crlf (x ∷ s) t (e, h) = rw (e, index-crlf s t h) refl

pub index-none : (s : Bytes) → Without b'\r' s → index s crlf ≡ none
unfolding index has_prefix
index-none [] h = refl
index-none (x ∷ s) (e, h) = rw (e, index-none s h) refl

-- The blank line is not found in front of where it stands.
pub index-header_end :
    (s t : Bytes) (n : ℕ)
    → Without b'\r' s
    → index t header_end ≡ some n
    → index (s ++ t) header_end ≡ some (length s + n)
unfolding index has_prefix
index-header_end [] t n h e = e ∙ ap some (omega arith)
index-header_end (x ∷ s) t n (ne, h) e = rw (ne, index-header_end s t n h e) (ap some (omega arith))

pub index_byte-append :
    (c : ℕ) (s t : Bytes) → Without c s → index_byte (s ++ c ∷ t) c ≡ some (length s)
unfolding index_byte
index_byte-append c [] t h = ground arith
index_byte-append c (x ∷ s) t (e, h) = rw (e, index_byte-append c s t h) refl

pub ==_refl : (c : ℕ) → (c == c) ≡ true
==_refl c = ground arith

pub split_n_onto-append :
    (cuts c : ℕ) (s t cur : Bytes)
    → Without c s
    → split_n_onto (suc cuts) (s ++ c ∷ t) c cur ≡ (cur ++ s) ∷ split_n_onto cuts t c []
unfolding split_n_onto
split_n_onto-append cuts c [] t cur h =
    rw (==_refl c, split_n_onto) (ap (λ p. p ∷ split_n_onto cuts t c []) (sym (append-nil cur)))
split_n_onto-append cuts c (x ∷ s) t cur (e, h) =
    rw (e, split_n_onto)
      (split_n_onto-append cuts c s t (cur ++ x ∷ []) h
        ∙ ap (λ p. p ∷ split_n_onto cuts t c []) (append_assoc cur (x ∷ []) s))

pub drop-append_add {ℓ} :
    {A : Type ℓ} (s t : List A) (n : ℕ) → drop (length s + n) (s ++ t) ≡ drop n t
drop-append_add [] t n = ap (λ k. drop k t) (omega arith)
drop-append_add (x ∷ s) t n =
    let e : length (x ∷ s) + n ≡ suc (length s + n) = omega arith in
    ap (λ k. drop k (x ∷ s ++ t)) e ∙ drop-append_add s t n
