-- ===== src/HttpServer/Stable.antt =====
-- httpserver.go: what has been made of the first bytes of an HTTP/1 connection stands, whatever
-- bytes come behind them, so that the pieces in which they come do not matter.
use io_mutiplexing.Common.{
  ℕ, ◌+◌, ◌≤◌, ◌≡◌, refl, ◌∙◌, sym, ap, arith, ◌⊎◌, inl, inr, true, false, ◌&&◌, Bool-cases, [],
  ◌∷◌, ◌++◌, Option, none, some, Bytes, ltb, ◌==◌, length, take, drop, length-append, length-drop,
  take-append_le, drop-append_le, Option-cases, ltb→le, codes,
}
use mathlib.Core.Path.{subst}
use io_mutiplexing.GoText.Bytes.{index, has_prefix}
use io_mutiplexing.GoText.Fold.{Unicode}
use io_mutiplexing.Http1.{
  HttpRequest, header_end, parse_http1_request, header_value, parse_positive_int,
}
use io_mutiplexing.HttpServer.{
  Progress, no_head, no_body, ready, body_of, with_length, with_head, progress_at, read_request,
}

has_prefix-append : (s t m : Bytes) → has_prefix s t ≡ true → has_prefix (s ++ m) t ≡ true
unfolding has_prefix
has_prefix-append s [] m e = refl
has_prefix-append [] (y ∷ t) m e = cc
has_prefix-append (x ∷ s) (y ∷ t) m e = ground (arith, has_prefix-append s t m)

-- A prefix that fits in the text is there already.
has_prefix-append_le :
    (s t m : Bytes) → length t ≤ length s → has_prefix (s ++ m) t ≡ has_prefix s t
unfolding has_prefix
has_prefix-append_le s [] m l = refl
has_prefix-append_le [] (y ∷ t) m l = absurd (omega (arith, l))
has_prefix-append_le (x ∷ s) (y ∷ t) m l =
    ap (λ b. x == y && b) (has_prefix-append_le s t m (omega (arith, l)))

has_prefix-le : (s t : Bytes) → has_prefix s t ≡ true → length t ≤ length s
unfolding has_prefix
has_prefix-le s [] e = omega arith
has_prefix-le [] (y ∷ t) e = cc
has_prefix-le (x ∷ s) (y ∷ t) e = ground (arith, has_prefix-le s t)

-- Where a text was found first, it still is found first with more bytes behind, and it ends
-- within the bytes that there were.
index-append :
    (s t m : Bytes) (n : ℕ)
    → index s t ≡ some n
    → (index (s ++ m) t ≡ some n) × (n + length t ≤ length s)
unfolding index has_prefix
index-append [] [] [] n e = ground (arith, e)
index-append [] [] (x ∷ m) n e = ground (arith, e)
index-append [] (y ∷ t) m n e = cc
index-append (x ∷ s) t m n e = elim (Bool-cases (has_prefix (x ∷ s) t)) [
  | inl here ↦
      let fits = has_prefix-le (x ∷ s) t here in
      ground (arith, e, here, fits, has_prefix-append (x ∷ s) t m here)
  | inr later ↦ elim (Option-cases (index s t)) [
    | inl none_found ↦ ground (arith, e, later, none_found)
    | inr (k, found) ↦
        let ih = index-append s t m k found in
        let same = has_prefix-append_le (x ∷ s) t m (omega (arith, ih.1)) in
        ground (arith, e, later, found, ih.0, ih.1, same)
  ]
]

body_of-append :
    (req : HttpRequest) (buf m : Bytes) (from : ℕ) (o : Option ℕ)
    → (body_of req buf from o ≡ no_body) ⊎ (body_of req (buf ++ m) from o ≡ body_of req buf from o)
body_of-append req buf m from none = inr refl
body_of-append req buf m from (some n) = elim (Bool-cases (ltb (length buf) (from + n))) [
  | inl short ↦ inl (rw short refl)
  | inr whole ↦
      let longer : ltb (length (buf ++ m)) (from + n) ≡ false =
        ground (arith, whole, length-append buf m) in
      let enough : from + n ≤ length buf = ltb→le (length buf) (from + n) whole in
      let dropped : drop from (buf ++ m) ≡ drop from buf ++ m =
        drop-append_le from buf m (omega (arith, enough)) in
      let taken : take n (drop from buf ++ m) ≡ take n (drop from buf) =
        take-append_le n (drop from buf) m (omega (arith, enough, length-drop from buf)) in
      inr (
        rw (whole, longer)
          (ap (λ body. ready (record req { body = body })) (ap (take n) dropped ∙ taken)))
]

-- A head without an end, an incomplete body, or the same with more bytes.
abbrev pub Settled : Progress → Progress → Type 0
Settled p p' = (p ≡ no_head) ⊎ ((p ≡ no_body) ⊎ (p' ≡ p))

with_length-append :
    (req : HttpRequest) (buf m : Bytes) (from : ℕ) (cl : Bytes)
    → Settled (with_length req buf from cl) (with_length req (buf ++ m) from cl)
with_length-append req buf m from [] = inr (inr refl)
with_length-append req buf m from (c ∷ cl) =
    inr (body_of-append req buf m from (parse_positive_int (c ∷ cl)))

with_head-append :
    (u : Unicode) (buf m : Bytes) (end : ℕ) (o : Option HttpRequest)
    → Settled (with_head u buf end o) (with_head u (buf ++ m) end o)
with_head-append u buf m end none = inr (inr refl)
with_head-append u buf m end (some req) =
    with_length-append req buf m (end + 4) (header_value u req.headers (codes "Content-Length"))

-- Behind the first bytes that make a whole request, or one that is refused, nothing changes what
-- was made of them.
pub read_request-append :
    (u : Unicode) (buf m : Bytes) → Settled (read_request u buf) (read_request u (buf ++ m))
unfolding read_request
read_request-append u buf m = elim (Option-cases (index buf header_end)) [
  | inl no_end ↦ inl (rw no_end refl)
  | inr (end, found) ↦
      let (later, fits) = index-append buf header_end m end found in
      let head : take end (buf ++ m) ≡ take end buf =
        take-append_le end buf m (omega (arith, fits)) in
      subst (λ p. Settled p (read_request u (buf ++ m))) (sym (ap (progress_at u buf) found))
        (subst (Settled (with_head u buf end (parse_http1_request (take end buf))))
          (sym (
            ap (progress_at u (buf ++ m)) later
            ∙ ap (λ t. with_head u (buf ++ m) end (parse_http1_request t)) head))
          (with_head-append u buf m end (parse_http1_request (take end buf))))
]
