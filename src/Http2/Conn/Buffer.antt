-- ===== src/Http2/Conn/Buffer.antt =====
-- Handling a frame neither reads nor changes the receive buffer of http2.go's `http2Conn`, nor the
-- mark `prefaceSeen`: each operation gives the same result over any others, which it leaves.
use io_mutiplexing.Common.{
  ℕ, ◌≡◌, ◌∙◌, refl, sym, ap, arith, Bool, true, false, List, [], ◌∷◌, inl, inr, Option, none, some,
  Bytes, ◌++◌, Bool-cases,
}
use io_mutiplexing.Http2.Types.{
  Outcome, ok, err, HeaderField, Frame, Http2Stream, Http2Conn, Setup, Http2Handler,
}
use io_mutiplexing.Http2.Frame.{
  frame_settings, frame_ping, flag_ack, has_flag, flag_end_stream, flag_end_headers,
}
use io_mutiplexing.Http2.Stream.{write_frame}
use io_mutiplexing.Http2.Conn.{
  invoke, open_stream, open_decoded, new_stream, opened, finish_headers, finish_if, on_known,
  on_headers, on_continuation, add_data, on_stream_data, on_data, on_settings, on_ping,
  handle_frame, begin_block, carried, data_start, padding, remove_stream,
}
use io_mutiplexing.Common.Maps.{lookup}
use io_mutiplexing.Http2.Conn.Output.{handler_conn, handler_conn-at, invoke-handler_conn}

-- A receive buffer and the mark that the preface has been read.
abbrev pub Front : Type 0
Front = Bytes × Bool

abbrev pub at_front : Front → Http2Conn → Http2Conn
at_front r c = record c { rx_buf = r.0; preface_seen = r.1 }

abbrev pub over_front : Front → Outcome Http2Conn → Outcome Http2Conn
over_front r (ok c) = ok (at_front r c)
over_front r (err e c) = err e (at_front r c)

write_frame-over_front :
    (typ flags id : ℕ) (payload : Bytes) (r : Front) (c : Http2Conn)
    → write_frame typ flags id payload (at_front r c)
      ≡ over_front r (write_frame typ flags id payload c)
unfolding write_frame
write_frame-over_front typ flags id payload r c = ground arith

handler_conn-at_front :
    (u : Setup) (h : Option Http2Handler) (st : Http2Stream) (body : Bytes) (r : Front)
    (c : Http2Conn)
    → handler_conn u h st body (at_front r c) ≡ at_front r (handler_conn u h st body c)
handler_conn-at_front u h st body r c =
    handler_conn-at u h st body (at_front r c) c
    ∙ ap (at_front r) (sym (handler_conn-at u h st body c c))

module _ (u : Setup) where
  invoke-at_front :
      (st : Http2Stream) (body : Bytes) (r : Front) (c : Http2Conn)
      → invoke u st body (at_front r c) ≡ at_front r (invoke u st body c)
  invoke-at_front st body r c =
      invoke-handler_conn u st body (at_front r c)
      ∙ ap (remove_stream st.id) (handler_conn-at_front u u.handler st body r c)
      ∙ ap (at_front r) (sym (invoke-handler_conn u st body c))

  open_stream-at_front :
      (fields : List HeaderField) (r : Front) (c : Http2Conn)
      → open_stream u fields (at_front r c) ≡ at_front r (open_stream u fields c)
  unfolding open_stream
  open_stream-at_front fields r c =
      ground (arith, invoke-at_front (new_stream fields c) [] r (opened fields c))

  open_decoded-over_front :
      (o : Option (List HeaderField)) (r : Front) (c : Http2Conn)
      → open_decoded u o (at_front r c) ≡ over_front r (open_decoded u o c)
  open_decoded-over_front none r c = refl
  open_decoded-over_front (some fields) r c = ap (λ d. ok d) (open_stream-at_front fields r c)

  finish_if-over_front :
      (b : Bool) (r : Front) (c : Http2Conn)
      → finish_if u b (at_front r c) ≡ over_front r (finish_if u b c)
  unfolding finish_headers
  finish_if-over_front true r c =
      open_decoded-over_front (u.hpack.decode_full c.dec c.headers_block) r
        (record c { dec = c.dec ++ c.headers_block ∷ [] })
  finish_if-over_front false r c = refl

  on_headers-over_front :
      (flags id : ℕ) (payload : Bytes) (r : Front) (c : Http2Conn)
      → on_headers u flags id payload (at_front r c)
        ≡ over_front r (on_headers u flags id payload c)
  unfolding on_headers
  on_headers-over_front flags id payload r c = ground (
    arith,
    finish_if-over_front (has_flag flags flag_end_headers) r (begin_block flags id payload c),
  )

  on_continuation-over_front :
      (flags id : ℕ) (payload : Bytes) (r : Front) (c : Http2Conn)
      → on_continuation u flags id payload (at_front r c)
        ≡ over_front r (on_continuation u flags id payload c)
  unfolding on_continuation
  on_continuation-over_front flags id payload r c = ground (
    arith,
    finish_if-over_front (has_flag flags flag_end_headers) r
        (record c { headers_block = c.headers_block ++ payload }),
  )

  add_data-at_front :
      (flags id : ℕ) (part : Bytes) (r : Front) (st : Http2Stream) (c : Http2Conn)
      → add_data u flags id part st (at_front r c) ≡ at_front r (add_data u flags id part st c)
  unfolding add_data
  add_data-at_front flags id part r st c = elim (Bool-cases (has_flag flags flag_end_stream)) [
    | inl last ↦ rw last (invoke-at_front _ _ r _)
    | inr more ↦ rw more
  ]

  on_known-over_front :
      (flags id : ℕ) (payload : Bytes) (r : Front) (o : Option Http2Stream) (c : Http2Conn)
      → on_known u flags id payload o (at_front r c)
        ≡ over_front r (on_known u flags id payload o c)
  unfolding on_stream_data
  on_known-over_front flags id payload r none c = refl
  on_known-over_front flags id payload r (some st) c = ground (
    arith,
    add_data-at_front flags id (carried (data_start flags) (padding flags payload) payload) r st c,
  )

  handle_frame-over_front :
      (f : Frame) (r : Front) (c : Http2Conn)
      → handle_frame u f (at_front r c) ≡ over_front r (handle_frame u f c)
  unfolding handle_frame on_settings on_ping on_data
  handle_frame-over_front f r c = ground (
    arith,
    write_frame-over_front frame_settings flag_ack 0 [] r c,
    write_frame-over_front frame_ping flag_ack 0 f.payload r c,
    on_headers-over_front f.flags f.stream_id f.payload r c,
    on_continuation-over_front f.flags f.stream_id f.payload r c,
    on_known-over_front f.flags f.stream_id f.payload r (lookup f.stream_id c.streams) c,
  )

abbrev pub with_rx : Bytes → Http2Conn → Http2Conn
with_rx r c = record c { rx_buf = r }

abbrev pub over_rx : Bytes → Outcome Http2Conn → Outcome Http2Conn
over_rx r (ok c) = ok (with_rx r c)
over_rx r (err e c) = err e (with_rx r c)

abbrev pub state_of : Outcome Http2Conn → Http2Conn
state_of (ok c) = c
state_of (err e c) = c

front_of :
    (o : Outcome Http2Conn) (r : Front) → o ≡ over_front r o → (state_of o).preface_seen ≡ r.1
front_of (ok c) r e = ground arith
front_of (err x c) r e = ground arith

over_front-rx :
    (o : Outcome Http2Conn) (r b : Bytes) (p : Bool)
    → o ≡ over_front (r, p) o
    → over_front (b, p) o ≡ over_rx b o
over_front-rx (ok c) r b p e = ground arith
over_front-rx (err x c) r b p e = ground arith

module _ (u : Setup) (f : Frame) where
  pub handle_frame-preface_seen :
      (c : Http2Conn) → (state_of (handle_frame u f c)).preface_seen ≡ c.preface_seen
  handle_frame-preface_seen c =
      front_of (handle_frame u f c) (c.rx_buf, c.preface_seen)
        (handle_frame-over_front u f (c.rx_buf, c.preface_seen) c)

  pub handle_frame-over_rx :
      (r : Bytes) (c : Http2Conn) → handle_frame u f (with_rx r c) ≡ over_rx r (handle_frame u f c)
  handle_frame-over_rx r c =
      handle_frame-over_front u f (r, c.preface_seen) c
      ∙ over_front-rx (handle_frame u f c) c.rx_buf r c.preface_seen
          (handle_frame-over_front u f (c.rx_buf, c.preface_seen) c)
