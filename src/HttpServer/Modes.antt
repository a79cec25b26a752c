-- ===== src/HttpServer/Modes.antt =====
-- httpserver.go: the protocol state of a plain connection is consistent at every moment, and
-- `closeConn` disconnects it once.
use mathlib.Core.Path.{subst}
use io_mutiplexing.Common.{
  ℕ, ◌+◌, ◌≡◌, refl, ◌∙◌, arith, Bool, true, false, List, [], ◌∷◌, ◌++◌, inl, inr, Option, none,
  some, Bytes, codes, ltb, ◌==◌, if◌then◌else◌, length, take, drop, Bool-cases,
}
use io_mutiplexing.GoText.Bytes.{index}
use io_mutiplexing.Http1.{HttpRequest, header_end, parse_http1_request, header_value}
use io_mutiplexing.Http2.Types.{Outcome, ok, err, Http2Conn, Socket, write}
use io_mutiplexing.Http2.Conn.{
  new_http2_conn, send_initial_settings, feed, synthesize_upgraded_stream,
}
use io_mutiplexing.Http2.Conn.Buffer.{state_of}
use io_mutiplexing.Http2.Conn.Responses.{write_frame-Good}
use io_mutiplexing.Http2.Conn.Sent.{feed-kept, synthesize_upgraded_stream-kept}
use io_mutiplexing.HttpServer.{
  HttpServer, HttpMode, unknown, http1, http2, HttpConnState, fresh, serve1, socket_of, Progress,
  no_head, no_body, refused, ready, on_progress, read_request, serve_http1_plain, with_h2, after_h2,
  feed_h2, run_upgraded, switch_protocol, upgrade_request, begin_h2c_upgrade, decide_http1, decide,
  dispatch_mode, dispatch_plain, detect_h2c_upgrade, has_http2_preface, h2c_upgrade_response,
  max_head,
}
use io_mutiplexing.HttpServer.Closing.{
  ModeFits, IsSound, IsOpen, write-disconnects, serve1-disconnects, keep, IsOpen-IsSound,
  close_conn-IsSound, http1_fits,
}

module _ (srv : HttpServer) (d : ℕ) where
  on_progress-IsSound :
      (st : HttpConnState) (p : Progress) → IsOpen d st → IsSound d (on_progress srv st p)
  on_progress-IsSound st no_head o = IsOpen-IsSound d st o
  on_progress-IsSound st no_body o = IsOpen-IsSound d st o
  on_progress-IsSound st refused o = close_conn-IsSound d st o
  on_progress-IsSound st (ready req) o =
      close_conn-IsSound d (record st { conn = serve1 srv.h1 req st.conn })
        (record {
          not_closing = o.not_closing;
          connected = serve1-disconnects srv.h1 req st.conn ∙ o.connected;
          fits = o.fits;
        })

  -- Behind a run of the HTTP/2 connection that has not disconnected.
  after_h2-IsSound :
      (st : HttpConnState) (o : Outcome Http2Conn)
      → st.closing ≡ false
      → st.mode ≡ http2
      → (state_of o).w.disconnects ≡ d
      → IsSound d (after_h2 st o)
  after_h2-IsSound st (ok h) c m e =
      IsOpen-IsSound d (with_h2 h st) (record { not_closing = c; connected = e; fits = rw m tt })
  after_h2-IsSound st (err x h) c m e =
      close_conn-IsSound d (with_h2 h st)
        (record { not_closing = c; connected = e; fits = rw m tt })

  feed_h2-IsSound :
      (bytes : Bytes) (h : Http2Conn) (st : HttpConnState)
      → st.closing ≡ false
      → st.mode ≡ http2
      → st.conn.disconnects ≡ d
      → IsSound d (feed_h2 srv bytes (some h) st)
  feed_h2-IsSound bytes h st c m e =
      after_h2-IsSound st (feed srv.setup bytes (record h { w = st.conn })) c m
        (feed-kept (λ s. s.disconnects ≡ d) (keep d) srv.setup bytes (record h { w = st.conn }) e)

  run_upgraded-IsSound :
      (req : HttpRequest) (leftover : Bytes) (st : HttpConnState) (o : Outcome Http2Conn)
      → st.closing ≡ false
      → st.mode ≡ http2
      → (state_of o).w.disconnects ≡ d
      → IsSound d (run_upgraded srv req leftover st o)
  run_upgraded-IsSound req leftover st (err x h) c m e = after_h2-IsSound st (err x h) c m e
  run_upgraded-IsSound req leftover st (ok h) c m e =
      let host = header_value srv.unicode req.headers (codes "Host") in
      let h' = synthesize_upgraded_stream srv.setup req.verb req.path host [] h in
      let st' = record st { h2 = some h'; conn = h'.w; rx_buf = [] } in
      let kept =
        synthesize_upgraded_stream-kept (λ s. s.disconnects ≡ d) (keep d) srv.setup req.verb
          req.path host [] h e in
      elim (Bool-cases (length leftover == 0)) [
        | inl none_left ↦ rw none_left (after_h2-IsSound st' (ok h') c m kept)
        | inr some_left ↦ rw some_left (
            after_h2-IsSound st' (feed srv.setup leftover h') c m
              (feed-kept (λ s. s.disconnects ≡ d) (keep d) srv.setup leftover h' kept))
      ]

  switch_protocol-IsSound :
      (req : HttpRequest) (leftover : Bytes) (st : HttpConnState) (o : Outcome Socket)
      → st.closing ≡ false
      → ModeFits st.mode st.h2
      → (socket_of o).disconnects ≡ d
      → IsSound d (switch_protocol srv req leftover st o)
  unfolding send_initial_settings new_http2_conn
  switch_protocol-IsSound req leftover st (err x s) c m e =
      close_conn-IsSound d (record st { conn = s })
        (record { not_closing = c; connected = e; fits = m })
  switch_protocol-IsSound req leftover st (ok s) c m e =
      let h = new_http2_conn s in
      run_upgraded-IsSound req leftover (record st { conn = s; h2 = some h; mode = http2 })
        (send_initial_settings h) c refl
        (write_frame-Good (λ s'. s'.disconnects ≡ d) (keep d) 4 0 0 [] h refl e)

  begin_h2c_upgrade-IsSound :
      (n : ℕ) (st : HttpConnState) → IsOpen d st → IsSound d (begin_h2c_upgrade srv n st)
  unfolding begin_h2c_upgrade
  begin_h2c_upgrade-IsSound n st o = go (parse_http1_request (take n st.rx_buf))
    where
      go : (r : Option HttpRequest) → IsSound d (upgrade_request srv n st r)
      go none = close_conn-IsSound d st o
      go (some req) =
          switch_protocol-IsSound req (drop n st.rx_buf) st (write h2c_upgrade_response st.conn)
            o.not_closing o.fits (write-disconnects h2c_upgrade_response st.conn ∙ o.connected)

  serve_http1_plain-IsSound :
      (st : HttpConnState) → IsOpen d st → IsSound d (serve_http1_plain srv st)
  unfolding serve_http1_plain
  serve_http1_plain-IsSound st o = on_progress-IsSound st (read_request srv.unicode st.rx_buf) o

  decide_http1-IsSound :
      (st : HttpConnState) (o : Option ℕ)
      → IsOpen d st
      → st.mode ≡ unknown
      → IsSound d (decide_http1 srv st o)
  decide_http1-IsSound st none o m = elim (Bool-cases (ltb max_head (length st.rx_buf))) [
    | inl long ↦ rw long (close_conn-IsSound d st o)
    | inr short ↦ rw short (IsOpen-IsSound d st o)
  ]
  decide_http1-IsSound st (some end) o m =
      elim (Bool-cases (detect_h2c_upgrade srv.unicode (take (end + 4) st.rx_buf))) [
        | inl upgrade ↦ rw upgrade (begin_h2c_upgrade-IsSound (end + 4) st o)
        | inr plain ↦ rw plain (
            serve_http1_plain-IsSound (record st { mode = http1 })
              (record {
                not_closing = o.not_closing;
                connected = o.connected;
                fits = http1_fits st.mode st.h2 m o.fits;
              }))
      ]

  decide-IsSound :
      (st : HttpConnState) → IsOpen d st → st.mode ≡ unknown → IsSound d (decide srv st)
  decide-IsSound st o m = elim (Bool-cases (has_http2_preface st.rx_buf)) [
    | inl preface ↦ rw preface (
        feed_h2-IsSound st.rx_buf (new_http2_conn st.conn) (record st { mode = http2; rx_buf = [] })
          o.not_closing refl o.connected)
    | inr other ↦ rw other (decide_http1-IsSound st (index st.rx_buf header_end) o m)
  ]

  -- The HTTP/2 mode comes with an HTTP/2 connection.
  fed-IsSound :
      (bytes : Bytes) (st : HttpConnState) (h : Option Http2Conn)
      → st.closing ≡ false
      → st.conn.disconnects ≡ d
      → st.mode ≡ http2
      → ModeFits http2 h
      → IsSound d (feed_h2 srv bytes h st)
  fed-IsSound bytes st none c e m f = absurd f
  fed-IsSound bytes st (some h) c e m f = feed_h2-IsSound bytes h st c m e

  dispatch_mode-IsSound :
      (bytes : Bytes) (st : HttpConnState) (m : HttpMode)
      → IsOpen d st
      → st.mode ≡ m
      → IsSound d (dispatch_mode srv m bytes st)
  dispatch_mode-IsSound bytes st http2 o m =
      fed-IsSound bytes st st.h2 o.not_closing o.connected m
        (subst (λ k. ModeFits k st.h2) m o.fits)
  dispatch_mode-IsSound bytes st http1 o m =
      serve_http1_plain-IsSound (record st { rx_buf = st.rx_buf ++ bytes })
        (record { not_closing = o.not_closing; connected = o.connected; fits = o.fits })
  dispatch_mode-IsSound bytes st unknown o m =
      decide-IsSound (record st { rx_buf = st.rx_buf ++ bytes })
        (record { not_closing = o.not_closing; connected = o.connected; fits = o.fits }) m

  IsSound-IsOpen : (st : HttpConnState) → st.closing ≡ false → IsSound d st → IsOpen d st
  IsSound-IsOpen st c i = record {
    not_closing = c;
    connected = ground (arith, i.disconnected);
    fits = i.mode_fits;
  }

  dispatch_plain-IsSound :
      (bytes : Bytes) (st : HttpConnState) → IsSound d st → IsSound d (dispatch_plain srv bytes st)
  unfolding dispatch_plain
  dispatch_plain-IsSound bytes st i = split st.closing refl
    where
      split :
          (b : Bool)
          → st.closing ≡ b
          → IsSound d (if b then st else dispatch_mode srv st.mode bytes st)
      split true e = i
      split false e = dispatch_mode-IsSound bytes st st.mode (IsSound-IsOpen st e i) refl

-- The pieces that a connection's bytes come in, one call of `dispatchPlain` each.
abbrev pub dispatch_all : HttpServer → List Bytes → HttpConnState → HttpConnState
dispatch_all srv [] st = st
dispatch_all srv (p ∷ pieces) st = dispatch_all srv pieces (dispatch_plain srv p st)

run-IsSound :
    (srv : HttpServer) (d : ℕ) (pieces : List Bytes) (st : HttpConnState)
    → IsSound d st
    → IsSound d (dispatch_all srv pieces st)
run-IsSound srv d [] st i = i
run-IsSound srv d (p ∷ pieces) st i =
    run-IsSound srv d pieces (dispatch_plain srv p st) (dispatch_plain-IsSound srv d p st i)

-- Whatever pieces of bytes a new connection receives, it has been disconnected once when its state
-- is closing and not at all otherwise, and it has an HTTP/2 connection in the HTTP/2 mode only,
-- where `feed` is never called on a missing one.
pub dispatch_all-IsSound :
    (srv : HttpServer) (pieces : List Bytes) (s : Socket)
    → IsSound s.disconnects (dispatch_all srv pieces (fresh s))
dispatch_all-IsSound srv pieces s =
    run-IsSound srv s.disconnects pieces (fresh s)
      (record { disconnected = omega arith; mode_fits = tt })
