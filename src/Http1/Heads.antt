-- ===== src/Http1/Heads.antt =====
-- httpserver.go: `parseHTTP1Request` reads back a head that is written out.
use mathlib.Core.List
use io_mutiplexing.Common.{
  ℕ, zero, suc, ◌+◌, ◌≤◌, ◌≡◌, refl, ap, ◌∙◌, arith, false, List, [], ◌∷◌, ◌++◌, some, Bytes, ◌==◌,
  length, All, append_assoc, length-append, take-append_self, append-nil, ◌<◌, ◌≢◌, take_all,
}
use io_mutiplexing.GoText.Bytes.{split_n, split_n_onto}
use io_mutiplexing.GoText.Fold.{trim_space}
use io_mutiplexing.Http1.{
  HttpHeader, HttpRequest, crlf, header_at, parse_header, parse_headers, request_at,
  parse_http1_request,
}
use io_mutiplexing.Http1.Search.{
  Without, index-crlf, index-none, index_byte-append, split_n_onto-append, drop-append_add, ==_refl,
}

-- A header line, its two parts as they stand on the wire.
pub record Field : Type 0 where
  pub name : Bytes
  pub text : Bytes

abbrev pub line_of : Field → Bytes
line_of f = f.name ++ b':' ∷ f.text

-- No part holds CR, and the name no colon.
pub record IsLine (f : Field) : Type 0 where
  pub name_whole : Without b'\r' f.name
  pub text_whole : Without b'\r' f.text
  pub no_colon : Without b':' f.name

-- What the server keeps of it.
abbrev pub header_of : Field → HttpHeader
header_of f = record { name = trim_space f.name; value = trim_space f.text }

-- The header lines, each behind a CRLF.
abbrev pub lines : List Field → Bytes
lines [] = []
lines (f ∷ fs) = crlf ++ (line_of f ++ lines fs)

Without-append : (c : ℕ) (s t : Bytes) → Without c s → Without c t → Without c (s ++ t)
Without-append c [] t hs ht = ht
Without-append c (x ∷ s) t (e, hs) ht = (e, Without-append c s t hs ht)

pub line-Without : (f : Field) → IsLine f → Without b'\r' (line_of f)
line-Without f i = Without-append b'\r' f.name (b':' ∷ f.text) i.name_whole (refl, i.text_whole)

parse_header-line : (f : Field) → IsLine f → parse_header (line_of f) ≡ some (header_of f)
unfolding parse_header
parse_header-line f i =
    ap (header_at (line_of f)) (index_byte-append b':' f.name f.text i.no_colon)
    ∙ rw (take-append_self f.name (b':' ∷ f.text), drop-append_add f.name (b':' ∷ f.text) 1) refl

pub length-line : (f : Field) → length (line_of f) ≡ suc (length f.name + length f.text)
length-line f = omega (arith, length-append f.name (b':' ∷ f.text))

eq_false : (a b : ℕ) → a ≢ b → (a == b) ≡ false
eq_false a b h = ground arith

-- One round, at the last line and at a line with more behind it.
parse_headers-last :
    (n : ℕ) (l : Bytes) (h : HttpHeader) (acc : List HttpHeader)
    → Without b'\r' l
    → 0 < length l
    → parse_header l ≡ some h
    → parse_headers (suc n) l acc ≡ some (acc ++ h ∷ [])
unfolding parse_headers
parse_headers-last n l h acc w some_bytes e =
    rw
      (
        index-none l w,
        take_all l,
        eq_false (length l) 0 (omega (arith, some_bytes)),
        e,
        ==_refl (length l),
      )
      refl

parse_headers-more :
    (n : ℕ) (l t : Bytes) (h : HttpHeader) (acc : List HttpHeader)
    → Without b'\r' l
    → 0 < length l
    → parse_header l ≡ some h
    → parse_headers (suc n) (l ++ (crlf ++ t)) acc ≡ parse_headers n t (acc ++ h ∷ [])
unfolding parse_headers
parse_headers-more n l t h acc w some_bytes e =
    rw
      (
        index-crlf l t w,
        take-append_self l (crlf ++ t),
        eq_false (length (l ++ (crlf ++ t))) 0
            (omega (arith, some_bytes, length-append l (crlf ++ t))),
        eq_false (length l) 0 (omega (arith, some_bytes)),
        e,
        eq_false (length l) (length (l ++ (crlf ++ t)))
            (omega (arith, length-append l (crlf ++ t))),
        drop-append_add l (crlf ++ t) 2,
      )
      refl

parse_headers-lines :
    (n : ℕ) (f : Field) (fs : List Field) (acc : List HttpHeader)
    → All IsLine (f ∷ fs)
    → length (line_of f ++ lines fs) ≤ n
    → parse_headers n (line_of f ++ lines fs) acc ≡ some (acc ++ List.map header_of (f ∷ fs))
parse_headers-lines zero f fs acc i fuel =
    absurd (omega (arith, fuel, length-append (line_of f) (lines fs), length-line f))
parse_headers-lines (suc n) f [] acc (i, _) fuel =
    ap (λ l. parse_headers (suc n) l acc) (append-nil (line_of f))
    ∙ parse_headers-last n (line_of f) (header_of f) acc (line-Without f i)
        (omega (arith, length-line f)) (parse_header-line f i)
parse_headers-lines (suc n) f (g ∷ fs) acc (i, is) fuel =
    parse_headers-more n (line_of f) (line_of g ++ lines fs) (header_of f) acc (line-Without f i)
      (omega (arith, length-line f)) (parse_header-line f i)
    ∙ parse_headers-lines n g fs (acc ++ header_of f ∷ []) is
        (omega (arith, fuel, length-append (line_of f) (lines (g ∷ fs))))
    ∙ ap some (append_assoc acc (header_of f ∷ []) (List.map header_of (g ∷ fs)))

-- The first line of a request.
pub record Start : Type 0 where
  pub verb : Bytes
  pub path : Bytes
  pub version : Bytes

-- No part holds CR, and the first two hold no space.
pub record IsStart (r : Start) : Type 0 where
  pub verb_whole : Without b'\r' r.verb
  pub path_whole : Without b'\r' r.path
  pub version_whole : Without b'\r' r.version
  pub verb_word : Without b' ' r.verb
  pub path_word : Without b' ' r.path

abbrev pub start_line : Start → Bytes
start_line r = r.verb ++ b' ' ∷ (r.path ++ b' ' ∷ r.version)

pub start-Without : (r : Start) → IsStart r → Without b'\r' (start_line r)
start-Without r i =
    Without-append b'\r' r.verb (b' ' ∷ (r.path ++ b' ' ∷ r.version)) i.verb_whole
      (refl, Without-append b'\r' r.path (b' ' ∷ r.version) i.path_whole (refl, i.version_whole))

split_n-start :
    (r : Start) → IsStart r → split_n (start_line r) b' ' 3 ≡ r.verb ∷ r.path ∷ r.version ∷ []
unfolding split_n split_n_onto
split_n-start r i =
    split_n_onto-append 1 b' ' r.verb (r.path ++ b' ' ∷ r.version) [] i.verb_word
    ∙ ap (λ t. r.verb ∷ t) (split_n_onto-append 0 b' ' r.path r.version [] i.path_word)

abbrev pub request_with : Start → List Field → Bytes → HttpRequest
request_with r fs body = record {
  verb = r.verb;
  path = r.path;
  version = r.version;
  headers = List.map header_of fs;
  body = body;
}

-- A head of a request line and one header line or more is read back, its headers in order and
-- without the white space around their names and values.
pub parse_http1_request-lines :
    (r : Start) (f : Field) (fs : List Field)
    → IsStart r
    → All IsLine (f ∷ fs)
    → parse_http1_request (start_line r ++ lines (f ∷ fs)) ≡ some (request_with r (f ∷ fs) [])
unfolding parse_http1_request
parse_http1_request-lines r f fs i is =
    let rest = line_of f ++ lines fs in
    ap (request_at (start_line r ++ (crlf ++ rest)))
      (index-crlf (start_line r) rest (start-Without r i))
    ∙ rw
        (
          take-append_self (start_line r) (crlf ++ rest),
          split_n-start r i,
          drop-append_add (start_line r) (crlf ++ rest) 2,
          parse_headers-lines (length rest) f fs [] is (omega arith),
        )
        refl
