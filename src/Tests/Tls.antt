-- ===== src/Tests/Tls.antt =====
-- The TLS server and the HTTP/2 connections under it at concrete schedules and bytes.
use io_mutiplexing.Common.{
  ◌≡◌, refl, true, false, List, [], ◌∷◌, ◌++◌, ◌⊎◌, ◌<◌, some, Bytes, codes, joined, length,
}
use mathlib.Core.Option
use io_mutiplexing.Common.Places.{get_elem?}
use io_mutiplexing.HttpServer.{HttpConnState, read_request, fresh}
use io_mutiplexing.Common.{take}
use io_mutiplexing.HttpServer.Tls.{Read, handle_tls_conn, serve_h1_over_conn}
use io_mutiplexing.HttpServer.Tls.Pieces.{reads_of}
use io_mutiplexing.HttpServer.Tls.Requests.{ending_of_request, serve_h1_over_conn-joined}
use io_mutiplexing.HttpServer.Tls.Server.{
  Turn, shaken, got, start, accepted, accept_failed, woken, take_turns,
}
use io_mutiplexing.HttpServer.Tls.Threads.{view, close_ending, take_turns-handle_tls_conn}
use io_mutiplexing.Http2.Types.{Http2Conn}
use io_mutiplexing.Http2.Frame.{encode}
use io_mutiplexing.Http2.Conn.{on_headers, feed, new_http2_conn, http2_preface}
use io_mutiplexing.Http2.Conn.Buffer.{state_of}
use io_mutiplexing.Http2.Conn.Waiting.{Rounds, feed-Rounds}
use io_mutiplexing.Http2.Conn.Buffer.{with_rx}
use io_mutiplexing.Common.{drop}
use io_mutiplexing.Tests.Values.{open_socket, server, toy_setup}

abbrev head_read : Read
head_read = record { bytes = codes "GET / HTTP/1.1\r\nHost: a\r\n"; failed = false }

abbrev end_read : Read
end_read = record { bytes = codes "\r\n"; failed = false }

-- Two connections: the second is served while the first is still at its handshake, and the
-- listener fails between its reads.
abbrev turns_before : List Turn
turns_before = accepted open_socket ∷ []

abbrev turns_after : List Turn
turns_after =
    woken 1 (shaken true (codes "http/1.1"))
    ∷ woken 1 (got head_read)
    ∷ accept_failed
    ∷ woken 0 (shaken false [])
    ∷ woken 1 (got end_read)
    ∷ []

take_turns-handle_tls_conn_example :
    Option.map view (
      get_elem?
        (take_turns server (turns_before ++ accepted open_socket ∷ turns_after) start).threads
        (length (take_turns server turns_before start).threads))
    ≡ some (
        close_ending
          (handle_tls_conn server true (codes "http/1.1") (head_read ∷ end_read ∷ []) open_socket))
unfolding take_turns
take_turns-handle_tls_conn_example =
    take_turns-handle_tls_conn server turns_before turns_after open_socket true (codes "http/1.1")
      (head_read ∷ end_read ∷ []) refl refl

abbrev pieces : List Bytes
pieces = codes "GET / HTTP/1.1\r\nHo" ∷ [] ∷ codes "st: a\r\n\r" ∷ codes "\n" ∷ []

serve_h1_over_conn-joined_example :
    serve_h1_over_conn server (reads_of pieces) open_socket
    ≡ ending_of_request server open_socket (read_request server.unicode (joined pieces))
serve_h1_over_conn-joined_example = serve_h1_over_conn-joined server pieces open_socket

-- The preface, a HEADERS frame that opens the stream 5, and the first bytes of the next frame.
abbrev opening : Bytes
opening =
    http2_preface
    ++ (encode (record { typ = 1; flags = 4; stream_id = 5; payload = codes "h" }) ++ (0 ∷ 0 ∷ []))

abbrev newborn : Http2Conn
newborn = new_http2_conn open_socket

abbrev waiting_conn : Http2Conn
waiting_conn = record (state_of (feed toy_setup opening newborn)) { rx_buf = 0 ∷ 0 ∷ [] }

feed-Rounds_example :
    let rx = newborn.rx_buf ++ opening in
    ((newborn.preface_seen ≡ false) × (length rx < 24) × (waiting_conn ≡ with_rx rx newborn))
    ⊎ (((newborn.preface_seen ≡ true) × Rounds toy_setup (with_rx rx newborn) waiting_conn)
        ⊎ ((newborn.preface_seen ≡ false)
            × (take 24 rx ≡ http2_preface)
            × Rounds toy_setup
                (record newborn { rx_buf = drop 24 rx; preface_seen = true })
                waiting_conn))
unfolding feed new_http2_conn encode on_headers
feed-Rounds_example = feed-Rounds toy_setup opening newborn waiting_conn refl

abbrev asked : HttpConnState
asked = record (fresh open_socket) {
  rx_buf =
      codes
        "GET /a HTTP/1.1\r\nHost: b\r\nConnection: Upgrade, HTTP2-Settings\r\nUpgrade: h2c\r\n\r\n";
}
