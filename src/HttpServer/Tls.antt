-- ===== src/HttpServer/Tls.antt =====
-- httpserver.go: connections over TLS. What the peer and the TLS library do is the list of the
-- results of `c.Read`, the handshake's success and the negotiated protocol.
pub mod Pieces
pub mod Requests
pub mod Server
pub mod Threads
use io_mutiplexing.Common.{
  Bool, not, List, [], ◌∷◌, ◌++◌, Bytes, codes, ◌==◌, if◌then◌else◌, length,
}
use io_mutiplexing.GoText.Bytes.{equal}
use io_mutiplexing.Http2.Types.{Outcome, ok, err, Http2Conn, Socket}
use io_mutiplexing.Http2.Conn.{new_http2_conn, send_initial_settings, feed}
use io_mutiplexing.HttpServer.{
  HttpServer, Progress, no_head, no_body, refused, ready, read_request, serve1, respond1,
}

-- `n, err := c.Read(buf)`: the bytes read, and whether there was an error.
pub record Read : Type 0 where
  pub bytes : Bytes
  pub failed : Bool

-- A loop has returned, or it waits for the next read.
pub data Ending {ℓ} (S : Type ℓ) : Type ℓ where
  returned : S → Ending S
  waiting : S → Ending S

module _ (srv : HttpServer) where
  -- Behind the bytes of one read: the loop ends at a feed error or at a read error.
  abbrev pub next_h2 : (Http2Conn → Ending Http2Conn) → Bool → Outcome Http2Conn → Ending Http2Conn
  next_h2 loop failed (err _ c) = returned c
  next_h2 loop failed (ok c) = if failed then returned c else loop c

  unfoldable pub serve_h2_loop : List Read → Http2Conn → Ending Http2Conn
  unfolding feed
  serve_h2_loop [] c = waiting c
  serve_h2_loop (r ∷ reads) c =
      next_h2 (serve_h2_loop reads) r.failed
        (if length r.bytes == 0 then ok c else feed srv.setup r.bytes c)

  abbrev pub started : List Read → Outcome Http2Conn → Ending Http2Conn
  started reads (err _ c) = returned c
  started reads (ok c) = serve_h2_loop reads c

  unfoldable pub serve_h2_over_conn : List Read → Socket → Ending Http2Conn
  unfolding serve_h2_loop new_http2_conn send_initial_settings
  serve_h2_over_conn reads w = started reads (send_initial_settings (new_http2_conn w))

  -- Behind the bytes of one read. While a body is incomplete the read's error is not looked at.
  abbrev pub next_h1 : Ending Socket → Bool → Socket → Progress → Ending Socket
  next_h1 rest failed w no_head = if failed then returned w else rest
  next_h1 rest failed w no_body = rest
  next_h1 rest failed w refused = returned w
  next_h1 rest failed w (ready req) = returned (serve1 srv.h1 req w)

  unfoldable pub serve_h1_loop : List Read → Bytes → Socket → Ending Socket
  unfolding read_request respond1
  serve_h1_loop [] buf w = waiting w
  serve_h1_loop (r ∷ reads) buf w =
      let rest = serve_h1_loop reads (buf ++ r.bytes) w in
      if length r.bytes == 0
      then (if r.failed then returned w else rest)
      else next_h1 rest r.failed w (read_request srv.unicode (buf ++ r.bytes))

  unfoldable pub serve_h1_over_conn : List Read → Socket → Ending Socket
  unfolding serve_h1_loop
  serve_h1_over_conn reads w = serve_h1_loop reads [] w

  abbrev pub h2_socket : Ending Http2Conn → Ending Socket
  h2_socket (returned c) = returned c.w
  h2_socket (waiting c) = waiting c.w

  -- `handleTLSConn` on a TLS connection, up to the deferred close.
  unfoldable pub handle_tls_conn : Bool → Bytes → List Read → Socket → Ending Socket
  unfolding serve_h2_over_conn serve_h1_over_conn equal
  handle_tls_conn handshake proto reads w =
      if not handshake
      then returned w
      else if equal proto (codes "h2")
      then h2_socket (serve_h2_over_conn reads w)
      else serve_h1_over_conn reads w
