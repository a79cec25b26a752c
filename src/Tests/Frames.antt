-- ===== src/Tests/Frames.antt =====
-- http2.go on concrete inputs.
use io_mutiplexing.Tests.Values.{toy_setup, open_socket}
use io_mutiplexing.Common.{
  ◌≡◌, refl, arith, true, false, [], ◌∷◌, ◌++◌, some, codes, joined, Bytes, ℕ, zero, suc, ◌+◌, ◌≤◌,
}
use io_mutiplexing.Http2.Types.{Frame}
use io_mutiplexing.Http2.Frame.{encode, next_frame, stream_bits}
use io_mutiplexing.Http2.Frame.RoundTrip.{next_frame-encode}
use io_mutiplexing.Http2.Conn.{feed, new_http2_conn, http2_preface}
use io_mutiplexing.Http2.Conn.Chunks.{feed-append, feed_more}
use io_mutiplexing.Http2.Types.{ok, ◌>>=◌, Http2Conn}
use io_mutiplexing.Http2.Conn
use io_mutiplexing.Http2.Conn.{on_headers, on_continuation, remove_stream}
use io_mutiplexing.Http2.Conn.HeaderBlocks.{
  continue_all, continuation-joined, data_all, body-joined, trailers-forget,
}
use io_mutiplexing.Http2.Conn.Buffer.{over_rx, state_of}
use io_mutiplexing.Http2.Conn.Wire.{wire, handle_all, feed-wire}
use io_mutiplexing.Http2.Conn.Sent.{OnlyFrames, feed-OnlyFrames}
use io_mutiplexing.Http2.Stream
use io_mutiplexing.Http2.Stream.{Call}
use io_mutiplexing.Http2.Stream.Data.{IsCut, write_data-IsCut}
use io_mutiplexing.Http2.Conn.{invoke}
use io_mutiplexing.Http2.Conn.Once.{headers_of, invoke-headers_of}

abbrev settings : Frame
settings = record { typ = 4; flags = 0; stream_id = 0; payload = [] }

abbrev request : Frame
request = record { typ = 1; flags = 5; stream_id = 1; payload = codes "/a" }

next_frame-encode_example :
    next_frame (encode request ++ codes "xyz")
    ≡ some (record request { stream_id = stream_bits 1 }, codes "xyz")
next_frame-encode_example = next_frame-encode request (codes "xyz") (omega arith)

feed-append_example :
    feed toy_setup (http2_preface ++ encode request) (new_http2_conn open_socket)
    ≡ feed_more toy_setup
        (encode request)
        (feed toy_setup http2_preface (new_http2_conn open_socket))
feed-append_example =
    feed-append toy_setup http2_preface (encode request) (new_http2_conn open_socket)

feed-wire_example :
    over_rx [] (
      feed toy_setup (http2_preface ++ wire (settings ∷ request ∷ [])) (new_http2_conn open_socket))
    ≡ over_rx [] (
        handle_all toy_setup
          (settings ∷ request ∷ [])
          (record (new_http2_conn open_socket) { preface_seen = true }))
feed-wire_example = feed-wire toy_setup (settings ∷ request ∷ []) open_socket (omega arith)

feed-OnlyFrames_example :
    OnlyFrames
      (state_of (feed toy_setup (http2_preface ++ encode request) (new_http2_conn open_socket))).w
unfolding new_http2_conn
feed-OnlyFrames_example =
    feed-OnlyFrames toy_setup (http2_preface ++ encode request) (new_http2_conn open_socket) tt

abbrev conn : Http2Conn
conn = record {
  w = open_socket;
  dec = [];
  enc = [];
  enc_buf = [];
  rx_buf = [];
  preface_seen = true;
  streams = (3, record { id = 3; headers = []; body = codes "ab"; sent_hdr = false }) ∷ [];
  headers_stream = 0;
  headers_block = [];
  headers_end = false;
}

continuation-joined_example :
    (on_headers toy_setup 1 5 (codes "a") conn >>= λ d.
    continue_all toy_setup 5 (codes "b" ∷ codes "c" ∷ []) d
    >>= on_continuation toy_setup 4 5 (codes "d"))
    ≡ on_headers toy_setup 5 5
        (codes "a" ++ (joined (codes "b" ∷ codes "c" ∷ []) ++ codes "d"))
        conn
continuation-joined_example =
    continuation-joined toy_setup 5 1 (codes "a") (codes "d") (codes "b" ∷ codes "c" ∷ []) conn
      (omega arith) (omega arith)

body-joined_example :
    (data_all toy_setup 3 (codes "c" ∷ codes "d" ∷ []) conn
      >>= Conn.on_data toy_setup 1 3 (codes "e"))
    ≡ Conn.on_data toy_setup 1 3 (joined (codes "c" ∷ codes "d" ∷ []) ++ codes "e") conn
body-joined_example = body-joined toy_setup 3 (codes "c" ∷ codes "d" ∷ []) (codes "e") conn

trailers-forget_example :
    on_headers toy_setup 5 3 (codes "x") conn
    ≡ on_headers toy_setup 5 3 (codes "x") (remove_stream 3 conn)
trailers-forget_example = trailers-forget toy_setup 3 (codes "x") conn (omega arith) refl

abbrev handler_call : Call
handler_call = record {
  stream = record { id = 1; headers = []; body = []; sent_hdr = false };
  conn = conn;
}

abbrev sevens : ℕ → Bytes
sevens zero = []
sevens (suc n) = 7 ∷ sevens n

-- A body that takes two frames.
abbrev long_body : Bytes
long_body = sevens 20_000

write_data-IsCut_example :
    (c : Http2Conn) × (Stream.write_data long_body true handler_call
      ≡ ok (record { stream = handler_call.stream; conn = c }))
    × IsCut 1 true long_body open_socket c.w
write_data-IsCut_example = write_data-IsCut long_body true handler_call (λ n. refl)

invoke-headers_of_example :
    headers_of (invoke toy_setup handler_call.stream (codes "ab") conn) ≤ headers_of conn + 1
invoke-headers_of_example = invoke-headers_of toy_setup handler_call.stream (codes "ab") conn
