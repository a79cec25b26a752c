-- ===== src/Http.antt =====
-- http.go: the minimal request line, the plain-text response and the address of the listener.
pub mod Addresses
use io_mutiplexing.Common.{
  ℕ, ◌+◌, ◌||◌, List, [], ◌∷◌, ◌++◌, Option, none, some, Bytes, codes, ltb, ◌==◌, not,
  if◌then◌else◌, length, take, drop, ℤ, pos,
}
use io_mutiplexing.GoText.Bytes.{index, last_index_byte, split, split_n, equal}
use io_mutiplexing.GoText.Numbers.{atoi, itoa_nat}
use io_mutiplexing.Http1.{crlf}

abbrev pub request_parts : List Bytes → Option (Bytes × Bytes)
request_parts (verb ∷ path ∷ _ ∷ _) = some (verb, path)
request_parts _ = none

abbrev pub request_line : Bytes → Option ℕ → Option (Bytes × Bytes)
request_line buf none = none
request_line buf (some end) = request_parts (split_n (take end buf) b' ' 3)

unfoldable pub parse_request : Bytes → Option (Bytes × Bytes)
unfolding index split_n
parse_request buf = request_line buf (index buf crlf)

-- The HTTP/1.1 200 answer around a plain-text body, as `buildResponse` formats it.
unfoldable pub ok_response : Bytes → Bytes
unfolding itoa_nat
ok_response body =
    codes "HTTP/1.1 200 OK\r\nContent-Type: text/plain\r\nContent-Length: "
    ++ (itoa_nat (length body) ++ (codes "\r\nConnection: close\r\n\r\n" ++ body))

abbrev pub hello : Bytes → Bytes → Bytes
hello verb path =
    codes "Hello from io-multiplexing server\nMethod: "
    ++ (verb ++ (codes "\nPath: " ++ (path ++ codes "\n")))

unfoldable pub build_response : Bytes → Bytes → Bytes
unfolding ok_response
build_response verb path = ok_response (hello verb path)

-- What the handler of `newHTTPHandler` sends, if anything.
abbrev pub answer : Option (Bytes × Bytes) → Option Bytes
answer none = none
answer (some (verb, path)) = some (build_response verb path)

unfoldable pub http_handler : Bytes → Option Bytes
unfolding parse_request build_response
http_handler bytes = answer (parse_request bytes)

pub data AddrError : Type 0 where
  invalid_addr invalid_port invalid_ipv4 invalid_octet : AddrError

pub record Addr : Type 0 where
  pub ip : List ℕ
  pub port : ℤ

pub data ParsedAddr : Type 0 where
  ok : Addr → ParsedAddr
  err : AddrError → ParsedAddr

-- A number from 0 to 255.
abbrev pub octet_of : Option ℤ → Option ℕ
octet_of (some (pos v)) = if ltb 255 v then none else some v
octet_of _ = none

abbrev pub put_octet : List ℕ → Option ℕ → Option (List ℕ)
put_octet ip none = none
put_octet ip (some v) = some (ip ++ v ∷ [])

abbrev pub and_then : Option (List ℕ) → (List ℕ → Option (List ℕ)) → Option (List ℕ)
and_then none f = none
and_then (some ip) f = f ip

-- The loop over the parts of the host, with the bytes of the address so far.
unfoldable pub read_octets : List Bytes → List ℕ → Option (List ℕ)
unfolding atoi
read_octets [] ip = some ip
read_octets (o ∷ os) ip = and_then (put_octet ip (octet_of (atoi o))) (read_octets os)

abbrev pub any_ip : List ℕ
any_ip = 0 ∷ 0 ∷ 0 ∷ 0 ∷ []

abbrev pub with_ip : ℤ → Option (List ℕ) → ParsedAddr
with_ip port none = err invalid_octet
with_ip port (some ip) = ok (record { ip = ip; port = port })

unfoldable pub parse_host : Bytes → ℤ → ParsedAddr
unfolding split equal read_octets
parse_host host port =
    if equal host [] || equal host (codes "0.0.0.0")
    then ok (record { ip = any_ip; port = port })
    else if not (length (split host b'.') == 4)
    then err invalid_ipv4
    else with_ip port (read_octets (split host b'.') [])

abbrev pub with_port : Bytes → Option ℤ → ParsedAddr
with_port host none = err invalid_port
with_port host (some port) = parse_host host port

abbrev pub at_colon : Bytes → Option ℕ → ParsedAddr
at_colon addr none = err invalid_addr
at_colon addr (some i) = with_port (take i addr) (atoi (drop (i + 1) addr))

unfoldable pub parse_addr : Bytes → ParsedAddr
unfolding last_index_byte atoi parse_host
parse_addr addr = at_colon addr (last_index_byte addr b':')
