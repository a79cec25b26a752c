-- ===== src/Tests/Texts.antt =====
-- httpserver.go, http.go and the loop of `Send` on concrete inputs.
use io_mutiplexing.Tests.Values.{open_socket, ascii, server}
use io_mutiplexing.Common.{◌≡◌, refl, arith, true, [], ◌∷◌, ◌++◌, some, codes, pos, take, Bytes, ℕ}
use io_mutiplexing.GoText.Numbers.{itoa}
use io_mutiplexing.Http2.Conn.{http2_preface}
use io_mutiplexing.HttpServer.{http1, fresh, dispatch_plain}
use io_mutiplexing.HttpServer.Closing.{IsSound}
use io_mutiplexing.HttpServer.Modes.{dispatch_all, dispatch_all-IsSound}
use io_mutiplexing.HttpServer.Preface.{dispatch_plain-take_preface}
use io_mutiplexing.HttpServer.{read_request, refused}
use io_mutiplexing.GoText.Fold.{equal_fold, trim_space}
use io_mutiplexing.HttpServer.Requests.{
  found, expected, head_text, read_request-expected, read_request-start_line,
}
use io_mutiplexing.Http1.{header_end, parse_positive_int}
use io_mutiplexing.Http1.Search.{lacks-Without}
use io_mutiplexing.Http1.Heads.{Field, Start, start_line, request_with}
use io_mutiplexing.Http1.Lengths.{parse_positive_int-itoa_nat}
use io_mutiplexing.GoText.Numbers.{itoa_nat}
use io_mutiplexing.Http
use io_mutiplexing.Http.{parse_addr}
use io_mutiplexing.Http.Addresses.{host_text, parse_addr-host_text}
use io_mutiplexing.Sending.{Taken, took, send}
use io_mutiplexing.Sending.Whole.{Progresses, IsEnded, send-IsEnded}

itoa_1204 : itoa (pos 1204) ≡ codes "1204"
unfolding itoa
itoa_1204 = refl

dispatch_all-IsSound_example : IsSound 0 (
    dispatch_all server
      (codes "GET /a HTTP/1.1\r\n" ∷ codes "\r\n" ∷ codes "x" ∷ [])
      (fresh open_socket))
dispatch_all-IsSound_example =
    dispatch_all-IsSound server (codes "GET /a HTTP/1.1\r\n" ∷ codes "\r\n" ∷ codes "x" ∷ [])
      open_socket

dispatch_plain-take_preface_example :
    ((dispatch_plain server (take 20 http2_preface) (fresh open_socket)).mode ≡ http1)
    × ((dispatch_plain server (take 20 http2_preface) (fresh open_socket)).closing ≡ true)
dispatch_plain-take_preface_example = dispatch_plain-take_preface server open_socket 2 (omega arith)

abbrev post : Start
post = record { verb = codes "POST"; path = codes "/a"; version = codes "HTTP/1.1" }

abbrev length_field : Field
length_field = record { name = codes "Content-Length"; text = codes " 2" }

read_request-expected_example :
    read_request ascii (head_text post (length_field ∷ []) ++ (header_end ++ codes "abc"))
    ≡ expected (request_with post (length_field ∷ []) []) (codes "abc") (codes "2")
unfolding equal_fold trim_space
read_request-expected_example =
    read_request-expected ascii post length_field [] (codes "abc") (codes "2")
      (record {
        verb_whole = lacks-Without b'\r' post.verb refl;
        path_whole = lacks-Without b'\r' post.path refl;
        version_whole = lacks-Without b'\r' post.version refl;
        verb_word = lacks-Without b' ' post.verb refl;
        path_word = lacks-Without b' ' post.path refl;
      })
      (
        record {
          name_whole = lacks-Without b'\r' length_field.name refl;
          text_whole = lacks-Without b'\r' length_field.text refl;
          no_colon = lacks-Without b':' length_field.name refl;
        },
        tt,
      )
      (found length_field [] refl)

abbrev get : Start
get = record { verb = codes "GET"; path = codes "/"; version = codes "HTTP/1.0" }

read_request-start_line_example :
    read_request ascii (start_line get ++ (header_end ++ codes "")) ≡ refused
read_request-start_line_example = read_request-start_line ascii get (codes "") (record {
  verb_whole = lacks-Without b'\r' get.verb refl;
  path_whole = lacks-Without b'\r' get.path refl;
  version_whole = lacks-Without b'\r' get.version refl;
  verb_word = lacks-Without b' ' get.verb refl;
  path_word = lacks-Without b' ' get.path refl;
})

parse_positive_int-itoa_nat_example : parse_positive_int (itoa_nat 1204) ≡ some 1204
parse_positive_int-itoa_nat_example = parse_positive_int-itoa_nat 1204 (omega arith)

parse_addr-host_text_example :
    parse_addr (host_text 127 0 0 1 ++ b':' ∷ itoa_nat 8080)
    ≡ Http.ok (record { ip = 127 ∷ 0 ∷ 0 ∷ 1 ∷ []; port = pos 8080 })
parse_addr-host_text_example =
    parse_addr-host_text 127 0 0 1 8080
      (record {
        a_byte = omega arith;
        b_byte = omega arith;
        c_byte = omega arith;
        d_byte = omega arith;
      })
      (omega arith)

-- A system call that takes two bytes at most.
abbrev two_at_most : ℕ → Bytes → Taken Bytes
two_at_most n [] = took 0
two_at_most n (b ∷ []) = took 1
two_at_most n (b ∷ c ∷ rest) = took 2

two_at_most-Progresses : Progresses two_at_most
two_at_most-Progresses n [] k some_bytes e = absurd (omega (arith, some_bytes))
two_at_most-Progresses n (b ∷ []) k some_bytes e = ground (arith, e)
two_at_most-Progresses n (b ∷ c ∷ rest) k some_bytes e = ground (arith, e)

send-IsEnded_example : IsEnded (codes "hello") (send two_at_most (codes "hello"))
send-IsEnded_example = send-IsEnded two_at_most (codes "hello") two_at_most-Progresses
