-- ===== src/Http2/Conn/Wire.antt =====
-- http2.go: what `feed` does to the bytes of whole frames is what `handleFrame` does to the frames.
use io_mutiplexing.Common.{
  ℕ, ◌≤◌, ◌<◌, ◌^◌, ◌≡◌, refl, ap, ◌∙◌, arith, true, List, [], ◌∷◌, ◌++◌, some, Bytes, length, All,
}
use io_mutiplexing.Http2.Types.{Outcome, ok, err, ◌>>=◌, Frame, Http2Conn, Setup, Socket}
use io_mutiplexing.Http2.Frame.{encode, next_frame, max_payload}
use io_mutiplexing.Http2.Frame.RoundTrip.{next_frame-encode}
use io_mutiplexing.Http2.Conn.{
  handle_frame, feed_frames, feed_loop, feed, http2_preface, new_http2_conn,
}
use io_mutiplexing.Http2.Conn.Buffer.{with_rx, over_rx}
use io_mutiplexing.Http2.Conn.Chunks.{first_round, feed_loop-rx, feed-append, feed_more}

-- The bytes of some frames.
abbrev pub wire : List Frame → Bytes
wire [] = []
wire (f ∷ fs) = encode f ++ wire fs

-- A frame that the nine header bytes can describe.
abbrev pub Fits : Frame → Type 0
Fits f = (length f.payload ≤ max_payload) × (f.stream_id < 2 ^ 31)

module _ (u : Setup) where
  -- The frames one after another, up to the first error.
  abbrev pub handle_all : List Frame → Http2Conn → Outcome Http2Conn
  handle_all [] c = ok c
  handle_all (f ∷ fs) c = handle_frame u f c >>= handle_all fs

  behind :
      (o : Outcome Http2Conn) (rx : Bytes) (f g : Http2Conn → Outcome Http2Conn)
      → ((c : Http2Conn) → over_rx [] (f (with_rx rx c)) ≡ over_rx [] (g c))
      → over_rx [] (over_rx rx o >>= f) ≡ over_rx [] (o >>= g)
  behind (ok c) rx f g h = h c
  behind (err e c) rx f g h = refl

  first_of_wire :
      (f : Frame) (fs : List Frame) → Fits f → next_frame (encode f ++ wire fs) ≡ some (f, wire fs)
  first_of_wire f fs (short, small) =
      next_frame-encode f (wire fs) short
      ∙ ap (λ (i : ℕ). some (record f { stream_id = i }, wire fs)) (omega arith)

  loop-wire :
      (fs : List Frame) (c : Http2Conn)
      → All Fits fs
      → over_rx [] (feed_loop u (with_rx (wire fs) c)) ≡ over_rx [] (handle_all fs c)
  loop-wire [] c h = unfold feed_frames in refl
  loop-wire (f ∷ fs) c (h, hs) =
      ap (over_rx []) (first_round u (encode f ++ wire fs) (wire fs) f c (first_of_wire f fs h))
      ∙ behind (handle_frame u f c) (encode f ++ wire fs) _ (handle_all fs) (λ d. loop-wire fs d hs)

  feed_preface :
      (w : Socket)
      → feed u http2_preface (new_http2_conn w)
        ≡ ok (record (new_http2_conn w) { preface_seen = true })
  unfolding feed new_http2_conn
  feed_preface w = refl

  feed_behind_preface :
      (fs : List Frame) (c : Http2Conn)
      → c.rx_buf ≡ []
      → c.preface_seen ≡ true
      → All Fits fs
      → over_rx [] (feed u (wire fs) c) ≡ over_rx [] (handle_all fs c)
  feed_behind_preface fs c empty seen h =
      ap (over_rx []) (feed_loop-rx u (wire fs) c seen)
      ∙ ap (λ r. over_rx [] (feed_loop u (with_rx (r ++ wire fs) c))) empty
      ∙ loop-wire fs c h

  -- A new connection that is fed the preface and then the bytes of any frames ends, but for what is
  -- left in its receive buffer, as if `handleFrame` had been called on those frames in order, up to
  -- the first error: the same output, streams and error. The frames' payloads must fit in 24 bits
  -- of length and their stream ids in 31 bits.
  pub feed-wire :
      (fs : List Frame) (w : Socket)
      → All Fits fs
      → over_rx [] (feed u (http2_preface ++ wire fs) (new_http2_conn w))
        ≡ over_rx [] (handle_all fs (record (new_http2_conn w) { preface_seen = true }))
  feed-wire fs w h =
      ap (over_rx []) (feed-append u http2_preface (wire fs) (new_http2_conn w))
      ∙ ap (λ o. over_rx [] (feed_more u (wire fs) o)) (feed_preface w)
      ∙ feed_behind_preface fs (record (new_http2_conn w) { preface_seen = true })
          (unfold new_http2_conn in refl) refl h
