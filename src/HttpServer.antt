-- ===== src/HttpServer.antt =====
-- httpserver.go: the protocol state of a plain connection, and how its bytes are dispatched.
pub mod Listening
pub mod Tls
pub mod Closing
pub mod Modes
pub mod Preface
pub mod Requests
pub mod Stable
pub mod Upgrade
use io_mutiplexing.Common.{
  ℕ, ◌+◌, ◌*◌, Bool, true, false, ◌&&◌, not, List, [], ◌∷◌, ◌++◌, Option, none, some, Bytes, codes,
  ltb, ◌==◌, if◌then◌else◌, length, take, drop,
}
use io_mutiplexing.Common.Maps.{lookup, insert, delete}
use io_mutiplexing.GoText.Bytes.{index, contains, has_prefix}
use io_mutiplexing.GoText.Fold.{Unicode, to_lower}
use io_mutiplexing.Http1.{
  HttpRequest, header_end, parse_http1_request, header_value, parse_positive_int,
}
use io_mutiplexing.Http2.Types.{Error, Outcome, ok, err, Http2Conn, Setup, Socket, write}
use io_mutiplexing.Http2.Conn.{
  new_http2_conn, send_initial_settings, feed, synthesize_upgraded_stream, http2_preface,
}

-- What an HTTP/1 handler does: its writes, one after another; it sees each write's error.
pub data Http1Response : Type 0 where
  done : Http1Response
  write_bytes : Bytes → (Option Error → Http1Response) → Http1Response

abbrev pub Http1Handler : Type 0
Http1Handler = HttpRequest → Http1Response

-- `setup` holds the HTTP/2 handler and the HPACK codec.
pub record HttpServer : Type 0 where
  pub h1 : Option Http1Handler
  pub setup : Setup
  pub unicode : Unicode

pub data HttpMode : Type 0 where
  unknown http1 http2 : HttpMode

-- `httpConnState`, with the connection that its methods are called with. The HTTP/2 connection
-- writes to the same socket: `h2` is given it when it runs, and `conn` takes it back.
pub record HttpConnState : Type 0 where
  pub conn : Socket
  pub mode : HttpMode
  pub rx_buf : Bytes
  pub h2 : Option Http2Conn
  pub closing : Bool

abbrev pub fresh : Socket → HttpConnState
fresh conn = record { conn = conn; mode = unknown; rx_buf = []; h2 = none; closing = false }

-- `Conn.Disconnect`.
abbrev pub disconnect : Socket → Socket
disconnect s = record s { disconnects = s.disconnects + 1 }

unfoldable pub close_conn : HttpConnState → HttpConnState
close_conn st = if st.closing then st else record st { closing = true; conn = disconnect st.conn }

abbrev pub socket_of : Outcome Socket → Socket
socket_of (ok s) = s
socket_of (err _ s) = s

abbrev pub error_of : Outcome Socket → Option Error
error_of (ok _) = none
error_of (err e _) = some e

-- An HTTP/1 handler at work on its connection.
unfoldable pub respond1 : Http1Response → Socket → Socket
unfolding write
respond1 Http1Response.done s = s
respond1 (Http1Response.write_bytes p next) s =
    respond1 (next (error_of (write p s))) (socket_of (write p s))

abbrev pub serve1 : Option Http1Handler → HttpRequest → Socket → Socket
serve1 none req s = s
serve1 (some h) req s = respond1 (h req) s

unfoldable pub has_http2_preface : Bytes → Bool
unfolding has_prefix
has_http2_preface buf = has_prefix buf http2_preface

abbrev pub is_upgrade : Bytes → Bool
is_upgrade head =
    contains head (codes "\r\nupgrade: h2c")
    && contains head (codes "\r\nconnection:")
    && contains head (codes "\r\nhttp2-settings:")

abbrev pub upgrade_at : Unicode → Bytes → Option ℕ → Bool
upgrade_at u buf none = false
upgrade_at u buf (some end) = is_upgrade (to_lower u (take end buf))

unfoldable pub detect_h2c_upgrade : Unicode → Bytes → Bool
unfolding index contains to_lower
detect_h2c_upgrade u buf = upgrade_at u buf (index buf header_end)

abbrev pub h2c_upgrade_response : Bytes
h2c_upgrade_response =
    codes "HTTP/1.1 101 Switching Protocols\r\nConnection: Upgrade\r\nUpgrade: h2c\r\n\r\n"

-- How far the bytes of an HTTP/1 connection have come: no complete head, no complete body yet, a
-- head or a length that is refused, or a whole request.
pub data Progress : Type 0 where
  no_head no_body refused : Progress
  ready : HttpRequest → Progress

abbrev pub body_of : HttpRequest → Bytes → ℕ → Option ℕ → Progress
body_of req buf body_start none = refused
body_of req buf body_start (some n) =
    if ltb (length buf) (body_start + n)
    then no_body
    else ready (record req { body = take n (drop body_start buf) })

abbrev pub with_length : HttpRequest → Bytes → ℕ → Bytes → Progress
with_length req buf body_start [] = ready req
with_length req buf body_start (c ∷ cl) = body_of req buf body_start (parse_positive_int (c ∷ cl))

abbrev pub with_head : Unicode → Bytes → ℕ → Option HttpRequest → Progress
with_head u buf end none = refused
with_head u buf end (some req) =
    with_length req buf (end + 4) (header_value u req.headers (codes "Content-Length"))

abbrev pub progress_at : Unicode → Bytes → Option ℕ → Progress
progress_at u buf none = no_head
progress_at u buf (some end) = with_head u buf end (parse_http1_request (take end buf))

-- The reading half of `serveHTTP1Plain` and of `serveH1OverConn`.
unfoldable pub read_request : Unicode → Bytes → Progress
unfolding index parse_http1_request header_value parse_positive_int
read_request u buf = progress_at u buf (index buf header_end)

abbrev pub on_progress : HttpServer → HttpConnState → Progress → HttpConnState
on_progress srv st no_head = st
on_progress srv st no_body = st
on_progress srv st refused = close_conn st
on_progress srv st (ready req) = close_conn (record st { conn = serve1 srv.h1 req st.conn })

unfoldable pub serve_http1_plain : HttpServer → HttpConnState → HttpConnState
unfolding read_request close_conn respond1
serve_http1_plain srv st = on_progress srv st (read_request srv.unicode st.rx_buf)

-- The state with the HTTP/2 connection that has just run.
abbrev pub with_h2 : Http2Conn → HttpConnState → HttpConnState
with_h2 h st = record st { h2 = some h; conn = h.w }

abbrev pub after_h2 : HttpConnState → Outcome Http2Conn → HttpConnState
after_h2 st (ok h) = with_h2 h st
after_h2 st (err _ h) = close_conn (with_h2 h st)

-- `st.h2.feed(data)`. There is an HTTP/2 connection in each state that is reached in this mode.
abbrev pub feed_h2 : HttpServer → Bytes → Option Http2Conn → HttpConnState → HttpConnState
feed_h2 srv bytes none st = st
feed_h2 srv bytes (some h) st = after_h2 st (feed srv.setup bytes (record h { w = st.conn }))

-- `beginH2CUpgrade` behind the server's SETTINGS frame.
abbrev pub run_upgraded :
    HttpServer → HttpRequest → Bytes → HttpConnState → Outcome Http2Conn → HttpConnState
run_upgraded srv req leftover st (err _ h) = close_conn (with_h2 h st)
run_upgraded srv req leftover st (ok h) =
    let h' =
      synthesize_upgraded_stream srv.setup req.verb req.path
        (header_value srv.unicode req.headers (codes "Host")) [] h in
    let st' = record (with_h2 h' st) { rx_buf = [] } in
    if length leftover == 0 then st' else after_h2 st' (feed srv.setup leftover h')

-- `beginH2CUpgrade` behind the 101 response.
abbrev pub switch_protocol :
    HttpServer → HttpRequest → Bytes → HttpConnState → Outcome Socket → HttpConnState
switch_protocol srv req leftover st (err _ s) = close_conn (record st { conn = s })
switch_protocol srv req leftover st (ok s) =
    let h = new_http2_conn s in
    run_upgraded srv req leftover (record st { conn = s; h2 = some h; mode = http2 })
      (send_initial_settings h)

abbrev pub upgrade_request : HttpServer → ℕ → HttpConnState → Option HttpRequest → HttpConnState
upgrade_request srv hdr_end st none = close_conn st
upgrade_request srv hdr_end st (some req) =
    switch_protocol srv req (drop hdr_end st.rx_buf) st (write h2c_upgrade_response st.conn)

unfoldable pub begin_h2c_upgrade : HttpServer → ℕ → HttpConnState → HttpConnState
unfolding parse_http1_request header_value new_http2_conn send_initial_settings feed write
    close_conn synthesize_upgraded_stream
begin_h2c_upgrade srv hdr_end st =
    upgrade_request srv hdr_end st (parse_http1_request (take hdr_end st.rx_buf))

abbrev pub max_head : ℕ
max_head = 64 * 1024

-- `dispatchPlain` in the unknown mode, behind the search for the end of the head.
abbrev pub decide_http1 : HttpServer → HttpConnState → Option ℕ → HttpConnState
decide_http1 srv st none = if ltb max_head (length st.rx_buf) then close_conn st else st
decide_http1 srv st (some end) =
    if detect_h2c_upgrade srv.unicode (take (end + 4) st.rx_buf)
    then begin_h2c_upgrade srv (end + 4) st
    else serve_http1_plain srv (record st { mode = http1 })

-- `dispatchPlain` in the unknown mode, its bytes already in the buffer.
abbrev pub decide : HttpServer → HttpConnState → HttpConnState
decide srv st =
    if has_http2_preface st.rx_buf
    then feed_h2 srv st.rx_buf (some (new_http2_conn st.conn))
        (record st { mode = http2; rx_buf = [] })
    else decide_http1 srv st (index st.rx_buf header_end)

abbrev pub dispatch_mode : HttpServer → HttpMode → Bytes → HttpConnState → HttpConnState
dispatch_mode srv http2 bytes st = feed_h2 srv bytes st.h2 st
dispatch_mode srv http1 bytes st = serve_http1_plain srv (record st { rx_buf = st.rx_buf ++ bytes })
dispatch_mode srv unknown bytes st = decide srv (record st { rx_buf = st.rx_buf ++ bytes })

unfoldable pub dispatch_plain : HttpServer → Bytes → HttpConnState → HttpConnState
unfolding feed close_conn serve_http1_plain begin_h2c_upgrade detect_h2c_upgrade has_http2_preface
    new_http2_conn index
dispatch_plain srv bytes st = if st.closing then st else dispatch_mode srv st.mode bytes st

-- The callbacks of `Listen`, on the states of the open connections by `Conn.Key`.
abbrev pub States : Type 0
States = List (ℕ × HttpConnState)

unfoldable pub on_connect : ℕ → Socket → States → States
unfolding insert
on_connect key conn states = insert key (fresh conn) states

unfoldable pub on_disconnect : ℕ → States → States
unfolding delete
on_disconnect key states = delete key states

-- The state of a connection, or a new one, with the connection as it is now.
abbrev pub state_or_fresh : Socket → Option HttpConnState → HttpConnState
state_or_fresh conn none = fresh conn
state_or_fresh conn (some st) = record st { conn = conn }

unfoldable pub on_data : HttpServer → ℕ → Socket → Bytes → States → States
unfolding dispatch_plain lookup insert
on_data srv key conn bytes states =
    insert key (dispatch_plain srv bytes (state_or_fresh conn (lookup key states))) states
