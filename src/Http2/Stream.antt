-- ===== src/Http2/Stream.antt =====
-- http2.go: `writeFrame` and the methods of `Http2Stream`. A stream's methods work on the stream
-- and on the connection behind its pointer.
pub mod Data
use io_mutiplexing.Common.{
  ℕ, zero, suc, ◌+◌, Bool, true, false, List, [], ◌∷◌, ◌++◌, none, some, Bytes, codes, ltb,
  if◌then◌else◌, length, take, drop, ℤ, pos,
}
use io_mutiplexing.GoText.Bytes.{equal}
use io_mutiplexing.GoText.Numbers.{itoa}
use io_mutiplexing.Http2.Types.{
  Outcome, ok, err, ◌>>=◌, HeaderField, Http2Stream, Http2Conn, Hpack, Socket, write,
}
use io_mutiplexing.Http2.Types.{frame_too_large, headers_already_sent, hpack_encode}
use io_mutiplexing.Http2.Frame.{
  encode, max_payload, frame_data, frame_headers, flag_end_stream, flag_end_headers,
}

-- The connection whose transport has changed, with the transport's error if it has one.
abbrev pub on_conn : Http2Conn → Outcome Socket → Outcome Http2Conn
on_conn c (ok s) = ok (record c { w = s })
on_conn c (err e s) = err e (record c { w = s })

unfoldable pub write_frame : ℕ → ℕ → ℕ → Bytes → Http2Conn → Outcome Http2Conn
unfolding write
write_frame typ flags stream_id payload c =
    if ltb max_payload (length payload)
    then err frame_too_large c
    else on_conn c (
        write
          (encode (record { typ = typ; flags = flags; stream_id = stream_id; payload = payload }))
          c.w)

-- The value of the first header field with this name, or the empty string.
unfoldable pub pseudo : List HeaderField → Bytes → Bytes
unfolding equal
pseudo [] name = []
pseudo (h ∷ hs) name = if equal h.name name then h.value else pseudo hs name

unfoldable pub stream_method : Http2Stream → Bytes
unfolding pseudo
stream_method s = pseudo s.headers (codes ":method")

unfoldable pub stream_path : Http2Stream → Bytes
unfolding pseudo
stream_path s = pseudo s.headers (codes ":path")

unfoldable pub stream_scheme : Http2Stream → Bytes
unfolding pseudo
stream_scheme s = pseudo s.headers (codes ":scheme")

unfoldable pub stream_authority : Http2Stream → Bytes
unfolding pseudo
stream_authority s = pseudo s.headers (codes ":authority")

-- A stream in a handler's hands, with its connection.
pub record Call : Type 0 where
  pub stream : Http2Stream
  pub conn : Http2Conn

abbrev pub on_call : Http2Stream → Outcome Http2Conn → Outcome Call
on_call s (ok c) = ok (record { stream = s; conn = c })
on_call s (err e c) = err e (record { stream = s; conn = c })

-- `enc.WriteField`, which appends to `encBuf`.
unfoldable pub write_field : Hpack → HeaderField → Http2Conn → Outcome Http2Conn
write_field hpack h c = elim (hpack.write_field c.enc h) [
  | none ↦ err hpack_encode (record c { enc = c.enc ++ h ∷ [] })
  | some text ↦ ok (record c { enc = c.enc ++ h ∷ []; enc_buf = c.enc_buf ++ text })
]

unfoldable pub write_fields : Hpack → List HeaderField → Http2Conn → Outcome Http2Conn
unfolding write_field
write_fields hpack [] c = ok c
write_fields hpack (h ∷ hs) c = write_field hpack h c >>= write_fields hpack hs

-- The frame of a header block, its fields already in `encBuf`.
abbrev pub header_flags : Bool → ℕ
header_flags end_stream =
    if end_stream then flag_end_headers + flag_end_stream else flag_end_headers

-- The header fields encoded into the emptied `encBuf`, and the frame that carries them.
unfoldable pub send_headers : Hpack → List HeaderField → Bool → ℕ → Http2Conn → Outcome Http2Conn
unfolding write_fields write_frame
send_headers hpack fields end_stream id c =
    write_fields hpack fields (record c { enc_buf = [] }) >>= λ c'.
    write_frame frame_headers (header_flags end_stream) id c'.enc_buf c'

unfoldable pub write_headers : Hpack → ℤ → List HeaderField → Bool → Call → Outcome Call
unfolding send_headers
write_headers hpack status extra end_stream k =
    let fields : List HeaderField =
      record { name = codes ":status"; value = itoa status } ∷ extra in
    if k.stream.sent_hdr
    then err headers_already_sent k
    else on_call (record (k.stream) { sent_hdr = true })
        (send_headers hpack fields end_stream k.stream.id k.conn)

abbrev pub default_max_frame_size : ℕ
default_max_frame_size = 16384

abbrev pub data_flags : Bool → ℕ
data_flags end_stream = if end_stream then flag_end_stream else 0

-- The loop of `WriteData` and the frame behind it. The first argument bounds the rounds: the
-- length of the data is enough, and with no round left the data is empty.
unfoldable pub write_chunks : ℕ → ℕ → Bytes → Bool → Http2Conn → Outcome Http2Conn
unfolding write_frame
write_chunks zero id bytes end_stream c = write_frame frame_data (data_flags end_stream) id bytes c
write_chunks (suc rounds) id bytes end_stream c =
    let more =
      write_frame frame_data 0 id (take default_max_frame_size bytes) c
      >>= write_chunks rounds id (drop default_max_frame_size bytes) end_stream in
    if ltb default_max_frame_size (length bytes)
    then more
    else write_frame frame_data (data_flags end_stream) id bytes c

unfoldable pub write_data : Bytes → Bool → Call → Outcome Call
unfolding write_chunks
write_data bytes end_stream k =
    on_call k.stream (write_chunks (length bytes) k.stream.id bytes end_stream k.conn)

abbrev pub is_empty : Bytes → Bool
is_empty [] = true
is_empty (_ ∷ _) = false

-- The `extra` fields of `SimpleResponse`.
abbrev pub response_fields : Bytes → Bytes → List HeaderField
response_fields content_type body =
    record { name = codes "content-type"; value = content_type }
    ∷ record { name = codes "content-length"; value = itoa (pos (length body)) }
    ∷ []

unfoldable pub simple_response : Hpack → ℤ → Bytes → Bytes → Call → Outcome Call
unfolding write_headers write_data
simple_response hpack status content_type body k =
    write_headers hpack status (response_fields content_type body) (is_empty body) k >>= λ k'.
    if is_empty body then ok k' else write_data body true k'
