-- ===== src/HttpServer/Requests.antt =====
-- httpserver.go: `serveHTTP1Plain` finds the end of a request's head, and its body by its length.
use mathlib.Core.List
use io_mutiplexing.Common.{
  ℕ, ◌+◌, ◌<◌, ◌≡◌, refl, true, false, ap, ◌∙◌, arith, List, [], ◌∷◌, ◌++◌, Option, none, some,
  Bytes, codes, ltb, if◌then◌else◌, length, take, All, append_assoc, length-append,
  take-append_self,
}
use io_mutiplexing.GoText.Bytes.{index, has_prefix}
use io_mutiplexing.GoText.Fold.{Unicode, equal_fold, trim_space}
use io_mutiplexing.Http1.{
  HttpRequest, crlf, header_end, request_at, parse_http1_request, header_value, parse_positive_int,
}
use io_mutiplexing.Http1.Search.{Without, index-none, index-header_end, drop-append_add}
use io_mutiplexing.Http1.Heads.{
  Field, header_of, IsLine, line_of, line-Without, length-line, lines, Start, IsStart, start_line,
  start-Without, request_with, parse_http1_request-lines,
}
use io_mutiplexing.HttpServer.{
  Progress, no_body, refused, ready, body_of, with_length, with_head, progress_at, read_request,
}

-- A blank line is not found across the line that begins behind a CRLF.
index-crlf_line :
    (l t : Bytes) (n : ℕ)
    → Without b'\r' l
    → 0 < length l
    → index t header_end ≡ some n
    → index (crlf ++ (l ++ t)) header_end ≡ some (2 + (length l + n))
unfolding index has_prefix
index-crlf_line [] t n w h e = absurd (omega (arith, h))
index-crlf_line (x ∷ l) t n (x_other, w) h e =
    rw (x_other, index-header_end l t n w e) (ap some (omega arith))

index-lines :
    (fs : List Field) (t : Bytes)
    → All IsLine fs
    → index (lines fs ++ (header_end ++ t)) header_end ≡ some (length (lines fs))
unfolding index has_prefix
index-lines [] t i = refl
index-lines (f ∷ fs) t (i, is) =
    let rest = lines fs ++ (header_end ++ t) in
    ap (λ s. index (crlf ++ s) header_end) (append_assoc (line_of f) (lines fs) (header_end ++ t))
    ∙ index-crlf_line (line_of f) rest (length (lines fs)) (line-Without f i)
        (omega (arith, length-line f)) (index-lines fs t is)
    ∙ ap some (omega (arith, length-append (line_of f) (lines fs)))

abbrev pub head_text : Start → List Field → Bytes
head_text r fs = start_line r ++ lines fs

index-head :
    (r : Start) (fs : List Field) (t : Bytes)
    → IsStart r
    → All IsLine fs
    → index (head_text r fs ++ (header_end ++ t)) header_end ≡ some (length (head_text r fs))
index-head r fs t i is =
    ap (λ s. index s header_end) (append_assoc (start_line r) (lines fs) (header_end ++ t))
    ∙ index-header_end (start_line r) (lines fs ++ (header_end ++ t)) (length (lines fs))
        (start-Without r i) (index-lines fs t is)
    ∙ ap some (omega (arith, length-append (start_line r) (lines fs)))

-- What the header lines say of Content-Length: the text of the first line of that name, in whatever
-- case, without the white space around it; nothing, when there is none.
pub data SaysLength (u : Unicode) : List Field → Bytes → Type 0 where
  silent : SaysLength u [] []
  passed :
      (f : Field) (fs : List Field) (text : Bytes)
      → equal_fold u (trim_space f.name) (codes "Content-Length") ≡ false
      → SaysLength u fs text
      → SaysLength u (f ∷ fs) text
  found :
      (f : Field) (fs : List Field)
      → equal_fold u (trim_space f.name) (codes "Content-Length") ≡ true
      → SaysLength u (f ∷ fs) (trim_space f.text)

header_value-SaysLength :
    (u : Unicode) (fs : List Field) (text : Bytes)
    → SaysLength u fs text
    → header_value u (List.map header_of fs) (codes "Content-Length") ≡ text
unfolding header_value
header_value-SaysLength u _ _ silent = refl
header_value-SaysLength u _ _ (passed f fs text other h) =
    rw other (header_value-SaysLength u fs text h)
header_value-SaysLength u _ _ (found f fs same) = rw same refl

-- What is made of the bytes behind the head, by the text of Content-Length: with an empty one the
-- request has no body; with one that parsePositiveInt does not read it is refused; otherwise it waits for that many bytes, which are its body.
abbrev pub expected_of : HttpRequest → Bytes → Option ℕ → Progress
expected_of req rest none = refused
expected_of req rest (some n) =
    if ltb (length rest) n then no_body else ready (record req { body = take n rest })

abbrev pub expected : HttpRequest → Bytes → Bytes → Progress
expected req rest [] = ready req
expected req rest (c ∷ cl) = expected_of req rest (parse_positive_int (c ∷ cl))

with_length-expected :
    (req : HttpRequest) (head rest cl : Bytes)
    → with_length req (head ++ (header_end ++ rest)) (length head + 4) cl ≡ expected req rest cl
with_length-expected req head rest [] = refl
with_length-expected req head rest (c ∷ cl) = go (parse_positive_int (c ∷ cl))
  where
    same_test :
        (n : ℕ)
        → ltb (length (head ++ (header_end ++ rest))) (length head + 4 + n) ≡ ltb (length rest) n
    same_test n = ground (arith, length-append head (header_end ++ rest))

    go :
        (o : Option ℕ)
        → body_of req (head ++ (header_end ++ rest)) (length head + 4) o ≡ expected_of req rest o
    go none = refl
    go (some n) = rw (same_test n, drop-append_add head (header_end ++ rest) 4) refl

-- The head of a request with one header line or more, a blank line and any bytes behind it are
-- read as that request, with the body that its Content-Length says: none, when no line has it or the
-- first one that has is empty; the request is refused, when parsePositiveInt does not read its text;
-- otherwise it waits for as many bytes as that reads, which are its body.
pub read_request-expected :
    (u : Unicode) (r : Start) (f : Field) (fs : List Field) (rest text : Bytes)
    → IsStart r
    → All IsLine (f ∷ fs)
    → SaysLength u (f ∷ fs) text
    → read_request u (head_text r (f ∷ fs) ++ (header_end ++ rest))
      ≡ expected (request_with r (f ∷ fs) []) rest text
unfolding read_request
read_request-expected u r f fs rest text i is says =
    let head = head_text r (f ∷ fs) in
    let req = request_with r (f ∷ fs) [] in
    let buf = head ++ (header_end ++ rest) in
    ap (progress_at u buf) (index-head r (f ∷ fs) rest i is)
    ∙ ap (λ t. with_head u buf (length head) (parse_http1_request t))
        (take-append_self head (header_end ++ rest))
    ∙ ap (with_head u buf (length head)) (parse_http1_request-lines r f fs i is)
    ∙ with_length-expected req head rest (header_value u req.headers (codes "Content-Length"))
    ∙ ap (expected req rest) (header_value-SaysLength u (f ∷ fs) text says)

add_zero : (n : ℕ) → n + 0 ≡ n
add_zero n = omega arith

-- A head of a request line alone, which HTTP/1.0 allows, is refused: no line in it ends in CRLF.
pub read_request-start_line :
    (u : Unicode) (r : Start) (rest : Bytes)
    → IsStart r
    → read_request u (start_line r ++ (header_end ++ rest)) ≡ refused
unfolding read_request parse_http1_request
read_request-start_line u r rest i =
    let text = start_line r in
    let buf = text ++ (header_end ++ rest) in
    ap (progress_at u buf)
      (index-header_end text (header_end ++ rest) 0 (start-Without r i) (index-lines [] rest tt))
    ∙ ap (λ n. with_head u buf n (parse_http1_request (take n buf))) (add_zero (length text))
    ∙ ap (λ t. with_head u buf (length text) (parse_http1_request t))
        (take-append_self text (header_end ++ rest))
    ∙ ap (λ o. with_head u buf (length text) (request_at text o))
        (index-none text (start-Without r i))
