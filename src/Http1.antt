-- ===== src/Http1.antt =====
-- httpserver.go: HTTP/1.x request heads, header lookup and `parsePositiveInt`.
pub mod Search
pub mod Heads
pub mod Lengths
use io_mutiplexing.Common.{
  ℕ, zero, suc, ◌+◌, ◌-◌, ◌*◌, ◌^◌, ◌||◌, List, [], ◌∷◌, ◌++◌, Option, none, some, Bytes, ltb, ◌==◌,
  if◌then◌else◌, length, take, drop,
}
use io_mutiplexing.GoText.Bytes.{index, index_byte, split_n}
use io_mutiplexing.GoText.Fold.{Unicode, equal_fold, trim_space}

pub record HttpHeader : Type 0 where
  pub name : Bytes
  pub value : Bytes

pub record HttpRequest : Type 0 where
  pub verb : Bytes
  pub path : Bytes
  pub version : Bytes
  pub headers : List HttpHeader
  pub body : Bytes

abbrev pub crlf : Bytes
crlf = b'\r' ∷ b'\n' ∷ []

abbrev pub header_end : Bytes
header_end = b'\r' ∷ b'\n' ∷ b'\r' ∷ b'\n' ∷ []

-- Where the first line of `rest` ends: at its first CRLF, or at its end.
abbrev pub end_or : Option ℕ → ℕ → ℕ
end_or none n = n
end_or (some i) n = i

-- `Name: value`, cut at the first colon.
abbrev pub header_at : Bytes → Option ℕ → Option HttpHeader
header_at line none = none
header_at line (some colon) =
    some
      (record { name = trim_space (take colon line); value = trim_space (drop (colon + 1) line) })

unfoldable pub parse_header : Bytes → Option HttpHeader
unfolding index_byte trim_space
parse_header line = header_at line (index_byte line b':')

-- What the loop does behind a header that it has read, or at a line that is none.
abbrev pub add_header :
    (List HttpHeader → Option (List HttpHeader))
    → List HttpHeader
    → Option HttpHeader
    → Option (List HttpHeader)
add_header loop headers none = none
add_header loop headers (some h) = loop (headers ++ h ∷ [])

-- The header loop. The first argument bounds the rounds: the length of `rest` is enough, as each
-- round takes a line off it, and with no round left `rest` is empty.
unfoldable pub parse_headers : ℕ → Bytes → List HttpHeader → Option (List HttpHeader)
unfolding index parse_header
parse_headers zero rest headers = some headers
parse_headers (suc rounds) rest headers =
    let end = end_or (index rest crlf) (length rest) in
    let line = take end rest in
    let next = parse_headers rounds (drop (end + 2) rest) in
    if length rest == 0
    then some headers
    else if length line == 0
    then some headers
    else add_header (λ hs. if end == length rest then some hs else next hs) headers
        (parse_header line)

abbrev pub with_headers : Bytes → Bytes → Bytes → Option (List HttpHeader) → Option HttpRequest
with_headers verb path version none = none
with_headers verb path version (some hs) =
    some (record { verb = verb; path = path; version = version; headers = hs; body = [] })

-- The request behind a request line cut into its parts: there must be three.
abbrev pub request_of : List Bytes → Bytes → Option HttpRequest
request_of (verb ∷ path ∷ version ∷ _) rest =
    with_headers verb path version (parse_headers (length rest) rest [])
request_of _ rest = none

abbrev pub request_at : Bytes → Option ℕ → Option HttpRequest
request_at raw none = none
request_at raw (some line_end) =
    request_of (split_n (take line_end raw) b' ' 3) (drop (line_end + 2) raw)

unfoldable pub parse_http1_request : Bytes → Option HttpRequest
unfolding index split_n parse_headers
parse_http1_request raw = request_at raw (index raw crlf)

unfoldable pub header_value : Unicode → List HttpHeader → Bytes → Bytes
unfolding equal_fold
header_value u [] name = []
header_value u (h ∷ hs) name = if equal_fold u h.name name then h.value else header_value u hs name

abbrev pub max_content_length : ℕ
max_content_length = 2 ^ 30

-- The loop of `parsePositiveInt` from a value read so far.
unfoldable pub read_positive : Bytes → ℕ → Option ℕ
read_positive [] n = some n
read_positive (c ∷ s) n' =
    let n = n' * 10 + (c - b'0') in
    let rest = read_positive s n in
    if ltb c b'0' || ltb b'9' c then none else if ltb max_content_length n then none else rest

unfoldable pub parse_positive_int : Bytes → Option ℕ
unfolding read_positive
parse_positive_int [] = none
parse_positive_int (c ∷ s) = read_positive (c ∷ s) 0
