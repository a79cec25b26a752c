-- ===== src/HttpServer/Tls/Requests.antt =====
-- httpserver.go: `serveH1OverConn` does not depend on how the bytes of a request come.
use io_mutiplexing.Common.{
  ◌≡◌, refl, sym, ◌∙◌, ap, arith, inl, inr, false, List, [], ◌∷◌, ◌++◌, Bytes, append-nil,
  append_assoc, length, ◌==◌, joined,
}
use io_mutiplexing.Http2.Types.{Socket}
use io_mutiplexing.HttpServer.{
  HttpServer, Progress, no_head, no_body, refused, ready, read_request, serve1,
}
use io_mutiplexing.HttpServer.Stable.{Settled, read_request-append}
use io_mutiplexing.HttpServer.Tls.{
  Ending, returned, waiting, next_h1, serve_h1_loop, serve_h1_over_conn,
}
use io_mutiplexing.HttpServer.Tls.Pieces.{reads_of}

module _ (srv : HttpServer) (w : Socket) where
  -- What becomes of a connection on which these bytes have come: it waits for more, or it has
  -- returned, behind the handler where they are a whole request.
  abbrev pub ending_of_request : Progress → Ending Socket
  ending_of_request no_head = waiting w
  ending_of_request no_body = waiting w
  ending_of_request refused = returned w
  ending_of_request (ready req) = returned (serve1 srv.h1 req w)

  abbrev request_of : Bytes → Progress
  request_of buf = read_request srv.unicode buf

  -- From bytes that decide nothing yet, the loop comes to what all the bytes decide.
  abbrev Agrees : List Bytes → Bytes → Type 0
  Agrees ps buf =
      serve_h1_loop srv (reads_of ps) buf w ≡ ending_of_request (request_of (buf ++ joined ps))

  abbrev IsOpen : Progress → Type 0
  IsOpen p = ending_of_request p ≡ waiting w

  next_h1-pieces :
      (p p' : Progress) (rest : Ending Socket)
      → Settled p p'
      → (IsOpen p → rest ≡ ending_of_request p')
      → next_h1 srv rest false w p ≡ ending_of_request p'
  next_h1-pieces no_head p' rest s ih = ih refl
  next_h1-pieces no_body p' rest s ih = ih refl
  next_h1-pieces refused p' rest (inl e) ih = cc
  next_h1-pieces refused p' rest (inr (inl e)) ih = cc
  next_h1-pieces refused p' rest (inr (inr e)) ih = ap ending_of_request (sym e)
  next_h1-pieces (ready req) p' rest (inl e) ih = cc
  next_h1-pieces (ready req) p' rest (inr (inl e)) ih = cc
  next_h1-pieces (ready req) p' rest (inr (inr e)) ih = ap ending_of_request (sym e)

  serve_h1_loop-pieces : (ps : List Bytes) (buf : Bytes) → IsOpen (request_of buf) → Agrees ps buf
  unfolding serve_h1_loop
  serve_h1_loop-pieces [] buf o =
      sym (ap (λ b. ending_of_request (request_of b)) (append-nil buf) ∙ o)
  serve_h1_loop-pieces ([] ∷ ps) buf o =
      let same = append-nil buf in
      serve_h1_loop-pieces ps (buf ++ []) (ap (λ b. ending_of_request (request_of b)) same ∙ o)
      ∙ ap (λ b. ending_of_request (request_of (b ++ joined ps))) same
  serve_h1_loop-pieces ((x ∷ xs) ∷ ps) buf o =
      let p = x ∷ xs in
      let some_bytes : (length p == 0) ≡ false = ground arith in
      let all : (buf ++ p) ++ joined ps ≡ buf ++ (p ++ joined ps) =
        append_assoc buf p (joined ps) in
      rw some_bytes (
        next_h1-pieces (request_of (buf ++ p)) (request_of ((buf ++ p) ++ joined ps)) _
          (read_request-append srv.unicode (buf ++ p) (joined ps))
          (serve_h1_loop-pieces ps (buf ++ p))
        ∙ ap (λ b. ending_of_request (request_of b)) all)

-- An HTTP/1 connection over TLS whose bytes come in any pieces, by reads without an error, comes to
-- what all the bytes together are: it waits while they are no whole request, it returns where they
-- are refused, and it has called the handler, once, on the request that they are.
pub serve_h1_over_conn-joined :
    (srv : HttpServer) (ps : List Bytes) (w : Socket)
    → serve_h1_over_conn srv (reads_of ps) w
      ≡ ending_of_request srv w (read_request srv.unicode (joined ps))
unfolding serve_h1_over_conn read_request
serve_h1_over_conn-joined srv ps w = serve_h1_loop-pieces srv w ps [] refl
