-- ===== src/HttpServer/Closing.antt =====
-- httpserver.go: when the protocol state of a plain connection is consistent, and how `closeConn`
-- and the handlers leave it.
use io_mutiplexing.Common.{
  ℕ, ◌+◌, ◌≡◌, refl, ◌∙◌, arith, false, Option, none, some, Bytes, if◌then◌else◌,
}
use io_mutiplexing.Http1.{HttpRequest}
use io_mutiplexing.Http2.Types.{Http2Conn, Socket, write}
use io_mutiplexing.Http2.Conn.Responses.{IsFrame, write_frame-Good}
use io_mutiplexing.Http2.Conn.Responses
use io_mutiplexing.HttpServer.{
  HttpMode, unknown, http1, http2, HttpConnState, Http1Response, Http1Handler, close_conn, respond1,
  serve1, socket_of, error_of,
}

-- There is an HTTP/2 connection in the HTTP/2 mode and in no other.
abbrev pub ModeFits : HttpMode → Option Http2Conn → Type 0
ModeFits unknown none = Unit
ModeFits http1 none = Unit
ModeFits http2 (some _) = Unit
ModeFits _ _ = ⊥

-- `d` counts the disconnections before the connection came to the server.
pub record IsSound (d : ℕ) (st : HttpConnState) : Type 0 where
  pub disconnected : st.conn.disconnects ≡ d + (if st.closing then 1 else 0)
  pub mode_fits : ModeFits st.mode st.h2

-- A state that is not closing and has not been disconnected.
pub record IsOpen (d : ℕ) (st : HttpConnState) : Type 0 where
  pub not_closing : st.closing ≡ false
  pub connected : st.conn.disconnects ≡ d
  pub fits : ModeFits st.mode st.h2

pub write-disconnects :
    (p : Bytes) (s : Socket) → (socket_of (write p s)).disconnects ≡ s.disconnects
unfolding write
write-disconnects p s = ground arith

respond1-disconnects : (r : Http1Response) (s : Socket) → (respond1 r s).disconnects ≡ s.disconnects
unfolding respond1
respond1-disconnects Http1Response.done s = refl
respond1-disconnects (Http1Response.write_bytes p next) s =
    respond1-disconnects (next (error_of (write p s))) (socket_of (write p s))
    ∙ write-disconnects p s

pub serve1-disconnects :
    (h : Option Http1Handler) (req : HttpRequest) (s : Socket)
    → (serve1 h req s).disconnects ≡ s.disconnects
serve1-disconnects none req s = refl
serve1-disconnects (some h) req s = respond1-disconnects (h req) s

-- No frame that is written disconnects.
pub keep :
    (d : ℕ) (p : Bytes) (s : Socket)
    → IsFrame p
    → s.disconnects ≡ d
    → (Responses.socket_of (write p s)).disconnects ≡ d
unfolding write
keep d p s f h = ground arith

module _ (d : ℕ) where
  pub IsOpen-IsSound : (st : HttpConnState) → IsOpen d st → IsSound d st
  IsOpen-IsSound st o = record {
    disconnected = rw o.not_closing (omega (arith, o.connected));
    mode_fits = o.fits;
  }

  pub close_conn-IsSound : (st : HttpConnState) → IsOpen d st → IsSound d (close_conn st)
  unfolding close_conn
  close_conn-IsSound st o =
      rw o.not_closing (record { disconnected = omega (arith, o.connected); mode_fits = o.fits })

-- An undecided connection has no HTTP/2 connection, and may become HTTP/1.
pub http1_fits :
    (m : HttpMode) (h : Option Http2Conn) → m ≡ unknown → ModeFits m h → ModeFits http1 h
http1_fits unknown none e f = tt
http1_fits http1 none e f = tt
http1_fits http2 (some h) e f = cc
http1_fits unknown (some h) e f = f
http1_fits http1 (some h) e f = f
http1_fits http2 none e f = absurd f
