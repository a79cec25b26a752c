-- ===== src/Http2/Conn/Sent.antt =====
-- http2.go: whatever arrives and whatever the handler does, a connection writes nothing but frames.
use mathlib.Core.Path.{subst}
use io_mutiplexing.Common.{
  ℕ, zero, suc, ◌≡◌, refl, sym, ap, arith, Bool, true, false, List, [], ◌++◌, ◌⊎◌, inl, inr, Option,
  none, some, Bytes, ◌∷◌, All, All-append, Bool-cases, length, drop,
}
use io_mutiplexing.Common.Maps.{lookup, insert}
use io_mutiplexing.Http2.Types.{
  Outcome, ok, HeaderField, Frame, Http2Stream, Http2Conn, Setup, Socket, write,
}
use io_mutiplexing.Http2.Frame.{
  next_frame, frame_settings, frame_ping, has_flag, flag_ack, flag_end_headers,
}
use io_mutiplexing.Http2.Stream.{write_frame}
use io_mutiplexing.Http2.Conn.{
  invoke, open_stream, open_decoded, finish_headers, finish_if, on_headers, on_continuation,
  on_known, on_data, on_stream_data, add_data, on_settings, on_ping, handle_frame, feed_frames,
  feed_next, synthesize_upgraded_stream, feed, feed_loop, http2_preface, carried, data_start,
  padding, begin_block, new_stream, opened,
}
use io_mutiplexing.Http2.Conn.Responses.{
  IsFrame, socket_of, write_frame-Good, bind-Good, run_handler-kept,
}
use io_mutiplexing.Http2.Conn.Buffer.{state_of, with_rx}

module _ (Q : Socket → Type 0)
    (keep : (p : Bytes) (s : Socket) → IsFrame p → Q s → Q (socket_of (write p s)))
    (u : Setup) where
  abbrev Good : Outcome Http2Conn → Type 0
  Good o = Q (state_of o).w

  invoke-kept : (st : Http2Stream) (body : Bytes) (c : Http2Conn) → Q c.w → Q (invoke u st body c).w
  unfolding invoke
  invoke-kept st body c good = run_handler-kept Q keep u u.handler st body c good

  opened-or-invoked :
      (fields : List HeaderField) (c : Http2Conn)
      → (open_stream u fields c ≡ opened fields c)
        ⊎ (open_stream u fields c ≡ invoke u (new_stream fields c) [] (opened fields c))
  unfolding open_stream
  opened-or-invoked fields c = ground arith

  open_decoded-Good :
      (o : Option (List HeaderField)) (c : Http2Conn) → Q c.w → Good (open_decoded u o c)
  open_decoded-Good none c good = good
  open_decoded-Good (some fields) c good = elim (opened-or-invoked fields c) [
    | inl more ↦ subst Q (sym (ap (λ d. d.w) more)) good
    | inr last ↦
        subst Q (sym (ap (λ d. d.w) last))
          (invoke-kept (new_stream fields c) [] (opened fields c) good)
  ]

  finish_if-Good : (b : Bool) (c : Http2Conn) → Q c.w → Good (finish_if u b c)
  unfolding finish_headers
  finish_if-Good true c good = open_decoded-Good (u.hpack.decode_full c.dec c.headers_block) _ good
  finish_if-Good false c good = good

  -- An outcome that keeps the transport, or that is a good one.
  cases-Good :
      (o o' : Outcome Http2Conn) (c : Http2Conn)
      → Q c.w
      → ((state_of o).w ≡ c.w) ⊎ (o ≡ o')
      → Good o'
      → Good o
  cases-Good o o' c good (inl same) h = subst Q (sym same) good
  cases-Good o o' c good (inr e) h = subst Good (sym e) h

  on_headers-Good :
      (flags id : ℕ) (payload : Bytes) (c : Http2Conn)
      → Q c.w
      → Good (on_headers u flags id payload c)
  unfolding on_headers
  on_headers-Good flags id payload c good =
      let block = begin_block flags id payload c in
      cases-Good (on_headers u flags id payload c)
        (finish_if u (has_flag flags flag_end_headers) block) c good (ground arith)
        (finish_if-Good (has_flag flags flag_end_headers) block good)

  on_continuation-Good :
      (flags id : ℕ) (payload : Bytes) (c : Http2Conn)
      → Q c.w
      → Good (on_continuation u flags id payload c)
  unfolding on_continuation
  on_continuation-Good flags id payload c good =
      let block = record c { headers_block = c.headers_block ++ payload } in
      cases-Good (on_continuation u flags id payload c)
        (finish_if u (has_flag flags flag_end_headers) block) c good (ground arith)
        (finish_if-Good (has_flag flags flag_end_headers) block good)

  on_settings-Good :
      (flags : ℕ) (payload : Bytes) (c : Http2Conn) → Q c.w → Good (on_settings flags payload c)
  unfolding on_settings
  on_settings-Good flags payload c good =
      cases-Good (on_settings flags payload c) (write_frame frame_settings flag_ack 0 [] c) c good
        (ground arith) (write_frame-Good Q keep frame_settings flag_ack 0 [] c refl good)

  on_ping-Good :
      (flags : ℕ) (payload : Bytes) (c : Http2Conn) → Q c.w → Good (on_ping flags payload c)
  unfolding on_ping
  on_ping-Good flags payload c good =
      cases-Good (on_ping flags payload c) (write_frame frame_ping flag_ack 0 payload c) c good
        (ground arith) (write_frame-Good Q keep frame_ping flag_ack 0 payload c refl good)

  add_data-Good :
      (flags id : ℕ) (part : Bytes) (st : Http2Stream) (c : Http2Conn)
      → Q c.w
      → Good (ok (add_data u flags id part st c))
  unfolding add_data
  add_data-Good flags id part st c good =
      let st' = record st { body = st.body ++ part } in
      let c' = record c { streams = insert id st' c.streams } in
      cases-Good (ok (add_data u flags id part st c)) (ok (invoke u st' st'.body c')) c good
        (ground arith) (invoke-kept st' st'.body c' good)

  on_known-Good :
      (flags id : ℕ) (payload : Bytes) (o : Option Http2Stream) (c : Http2Conn)
      → Q c.w
      → Good (on_known u flags id payload o c)
  unfolding on_stream_data
  on_known-Good flags id payload none c good = good
  on_known-Good flags id payload (some st) c good =
      let part = carried (data_start flags) (padding flags payload) payload in
      cases-Good (on_known u flags id payload (some st) c) (ok (add_data u flags id part st c)) c
        good (ground arith) (add_data-Good flags id part st c good)

  on_data-Good :
      (flags id : ℕ) (payload : Bytes) (c : Http2Conn) → Q c.w → Good (on_data u flags id payload c)
  unfolding on_data
  on_data-Good flags id payload c good = on_known-Good flags id payload (lookup id c.streams) c good

  handle_frame-cases :
      (f : Frame) (c : Http2Conn)
      → ((state_of (handle_frame u f c)).w ≡ c.w)
        ⊎ ((handle_frame u f c ≡ on_settings f.flags f.payload c)
            ⊎ ((handle_frame u f c ≡ on_ping f.flags f.payload c)
                ⊎ ((handle_frame u f c ≡ on_headers u f.flags f.stream_id f.payload c)
                    ⊎ ((handle_frame u f c ≡ on_continuation u f.flags f.stream_id f.payload c)
                        ⊎ (handle_frame u f c ≡ on_data u f.flags f.stream_id f.payload c)))))
  unfolding handle_frame
  handle_frame-cases f c = ground arith

  handle_frame-Good : (f : Frame) (c : Http2Conn) → Q c.w → Good (handle_frame u f c)
  handle_frame-Good f c good = elim (handle_frame-cases f c) [
    | inl same ↦ subst Q (sym same) good
    | inr (inl e) ↦ subst Good (sym e) (on_settings-Good f.flags f.payload c good)
    | inr (inr (inl e)) ↦ subst Good (sym e) (on_ping-Good f.flags f.payload c good)
    | inr (inr (inr (inl e))) ↦
        subst Good (sym e) (on_headers-Good f.flags f.stream_id f.payload c good)
    | inr (inr (inr (inr (inl e)))) ↦
        subst Good (sym e) (on_continuation-Good f.flags f.stream_id f.payload c good)
    | inr (inr (inr (inr (inr e)))) ↦
        subst Good (sym e) (on_data-Good f.flags f.stream_id f.payload c good)
  ]

  feed_frames-Good : (n : ℕ) (c : Http2Conn) → Q c.w → Good (feed_frames u n c)
  unfolding feed_frames
  feed_frames-Good zero c good = good
  feed_frames-Good (suc n) c good = next-Good (next_frame c.rx_buf) (feed_frames-Good n)
    where
      next-Good :
          (o : Option (Frame × Bytes))
          → ((d : Http2Conn) → Q d.w → Good (feed_frames u n d))
          → Good (feed_next u (feed_frames u n) o c)
      next-Good none ih = good
      next-Good (some (f, rest)) ih =
          bind-Good Q keep (handle_frame u f c) (λ d. feed_frames u n (record d { rx_buf = rest }))
            (handle_frame-Good f c good) (λ d h. ih (record d { rx_buf = rest }) h)

  feed-cases :
      (bytes : Bytes) (c : Http2Conn)
      → let rx = c.rx_buf ++ bytes in
        ((state_of (feed u bytes c)).w ≡ c.w)
        ⊎ ((feed u bytes c ≡ feed_loop u (with_rx rx c))
            ⊎ (feed u bytes c
                ≡ feed_loop u
                    (record c { rx_buf = drop (length http2_preface) rx; preface_seen = true })))
  unfolding feed
  feed-cases bytes c = ground arith

  pub feed-kept : (bytes : Bytes) (c : Http2Conn) → Q c.w → Q (state_of (feed u bytes c)).w
  unfolding feed
  feed-kept bytes c good = elim (feed-cases bytes c) [
    | inl same ↦ subst Q (sym same) good
    | inr (inl e) ↦
        let rx = c.rx_buf ++ bytes in
        subst Good (sym e) (feed_frames-Good (length rx) (with_rx rx c) good)
    | inr (inr e) ↦
        let rx = drop (length http2_preface) (c.rx_buf ++ bytes) in
        subst Good (sym e)
          (feed_frames-Good (length rx) (record c { rx_buf = rx; preface_seen = true }) good)
  ]

  pub synthesize_upgraded_stream-kept :
      (verb path authority body : Bytes) (c : Http2Conn)
      → Q c.w
      → Q (synthesize_upgraded_stream u verb path authority body c).w
  unfolding synthesize_upgraded_stream
  synthesize_upgraded_stream-kept verb path authority body c good = invoke-kept _ body _ good

-- A socket on which nothing but frames has been written, one to a write.
abbrev pub OnlyFrames : Socket → Type 0
OnlyFrames s = All IsFrame s.sent

pub write-OnlyFrames :
    (p : Bytes) (s : Socket) → IsFrame p → OnlyFrames s → OnlyFrames (socket_of (write p s))
unfolding write
write-OnlyFrames p s h good = elim (Bool-cases (s.fails s.calls)) [
  | inl failed ↦ rw failed good
  | inr sent ↦ rw sent (All-append IsFrame s.sent (p ∷ []) good (h, tt))
]

-- Whatever bytes arrive, however they are cut, and whatever the handler does, if all that a
-- connection has written is frames, one to a write, then so is all that it has written behind a
-- call of `feed`, also where that call returns an error. Each of the frames is of type DATA,
-- HEADERS, SETTINGS or PING and carries at most 2^24 - 1 bytes.
pub feed-OnlyFrames :
    (u : Setup) (bytes : Bytes) (c : Http2Conn)
    → OnlyFrames c.w
    → OnlyFrames (state_of (feed u bytes c)).w
feed-OnlyFrames u bytes c good = feed-kept OnlyFrames write-OnlyFrames u bytes c good
