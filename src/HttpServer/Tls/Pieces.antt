-- ===== src/HttpServer/Tls/Pieces.antt =====
-- httpserver.go: `serveH2OverConn` against one call of `feed`.
use io_mutiplexing.Common.{
  ℕ, ◌≡◌, refl, sym, ◌∙◌, ap, arith, false, List, [], ◌∷◌, ◌++◌, Bytes, append-nil, append_assoc,
  length, ◌==◌, joined, if◌then◌else◌,
}
use io_mutiplexing.Http2.Types.{Error, Outcome, ok, err, Http2Conn, Socket}
use io_mutiplexing.Http2.Conn.{feed}
use io_mutiplexing.Http2.Conn.Chunks.{feed_more, feed-append}
use io_mutiplexing.HttpServer.{HttpServer}
use io_mutiplexing.HttpServer.Tls.{
  Read, Ending, returned, waiting, next_h2, serve_h2_loop, h2_socket,
}

-- Reads without an error.
abbrev pub reads_of : List Bytes → List Read
reads_of [] = []
reads_of (p ∷ ps) = record { bytes = p; failed = false } ∷ reads_of ps

-- The loop is left at an error; the socket is as the connection left it.
abbrev pub ending_of : Outcome Http2Conn → Ending Socket
ending_of (ok c) = waiting c.w
ending_of (err _ c) = returned c.w

module _ (srv : HttpServer) where
  ending_of-feed_more :
      (b : Bytes) (o : Outcome Http2Conn) (e : Error) (d : Http2Conn)
      → o ≡ err e d
      → ending_of (feed_more srv.setup b o) ≡ returned d.w
  ending_of-feed_more b o e d same = ap (λ o. ending_of (feed_more srv.setup b o)) same

  serve_h2_loop-piece :
      (x : ℕ) (xs : Bytes) (reads : List Read) (c : Http2Conn)
      → serve_h2_loop srv (record { bytes = x ∷ xs; failed = false } ∷ reads) c
        ≡ next_h2 srv (serve_h2_loop srv reads) false (feed srv.setup (x ∷ xs) c)
  unfolding serve_h2_loop
  serve_h2_loop-piece x xs reads c =
      let some_bytes : (length (x ∷ xs) == 0) ≡ false = ground arith in
      ap
        (λ none.
          next_h2 srv (serve_h2_loop srv reads) false
            (if none then ok c else feed srv.setup (x ∷ xs) c))
        some_bytes

  next_h2-pieces :
      (ps : List Bytes) (a : Bytes) (c : Http2Conn) (o : Outcome Http2Conn)
      → feed srv.setup a c ≡ o
      → h2_socket srv (next_h2 srv (serve_h2_loop srv (reads_of ps)) false o)
        ≡ ending_of (feed srv.setup (a ++ joined ps) c)
  unfolding serve_h2_loop
  next_h2-pieces ps a c (err e d) same = sym (
      ap ending_of (feed-append srv.setup a (joined ps) c)
      ∙ ending_of-feed_more (joined ps) (feed srv.setup a c) e d same)
  next_h2-pieces [] a c (ok d) same =
      sym (ap (λ s. ending_of (feed srv.setup s c)) (append-nil a) ∙ ap ending_of same)
  next_h2-pieces ([] ∷ ps) a c (ok d) same = next_h2-pieces ps a c (ok d) same
  next_h2-pieces ((x ∷ xs) ∷ ps) a c (ok d) same =
      let p = x ∷ xs in
      ap (h2_socket srv) (serve_h2_loop-piece x xs (reads_of ps) d)
      ∙ next_h2-pieces ps (a ++ p) c (feed srv.setup p d)
          (feed-append srv.setup a p c ∙ ap (feed_more srv.setup p) same)
      ∙ ap (λ s. ending_of (feed srv.setup s c)) (append_assoc a p (joined ps))

  -- An HTTP/2 connection over TLS whose bytes come in any pieces, the first of which is not empty,
  -- by reads without an error: what it has written, and whether it has returned, is as after one
  -- call of `feed` with all the bytes.
  pub serve_h2_loop-joined :
      (b : ℕ) (bytes : Bytes) (ps : List Bytes) (c : Http2Conn)
      → h2_socket srv (serve_h2_loop srv (reads_of ((b ∷ bytes) ∷ ps)) c)
        ≡ ending_of (feed srv.setup (joined ((b ∷ bytes) ∷ ps)) c)
  serve_h2_loop-joined b bytes ps c =
      ap (h2_socket srv) (serve_h2_loop-piece b bytes (reads_of ps) c)
      ∙ next_h2-pieces ps (b ∷ bytes) c (feed srv.setup (b ∷ bytes) c) refl
