-- ===== src/Http2/Conn.antt =====
-- http2.go: the methods of `http2Conn`, from `newHttp2Conn` to the loop of `feed`.
pub mod Output
pub mod Buffer
pub mod Chunks
pub mod Wire
pub mod HeaderBlocks
pub mod Responses
pub mod Sent
pub mod Streams
pub mod Rows
pub mod Tables
pub mod Waiting
pub mod Once
use io_mutiplexing.Common.{
  ℕ, zero, suc, ◌+◌, ◌-◌, ◌%◌, ◌≤◌, Bool, true, false, not, ◌&&◌, ◌||◌, List, [], ◌∷◌, ◌++◌, Option,
  none, some, Bytes, codes, ltb, ◌==◌, if◌then◌else◌, length, take, drop,
}
use io_mutiplexing.Common.Maps.{lookup, insert, delete}
use io_mutiplexing.GoText.Bytes.{equal}
use io_mutiplexing.Http2.Types.{
  Error, Outcome, ok, err, ◌>>=◌, HeaderField, Frame, Http2Stream, Http2Conn, Hpack, Socket, Setup,
  Response, Http2Handler,
}
use io_mutiplexing.Http2.Types.{
  bad_preface, malformed_settings, malformed_ping, eof, headers_on_stream_zero,
  padded_headers_short, priority_headers_short, invalid_headers_padding, unexpected_continuation,
  hpack_decode, padded_data_short, invalid_data_padding,
}
use io_mutiplexing.Http2.Frame.{
  next_frame, frame_data, frame_headers, frame_priority, frame_rst_stream, frame_settings,
  frame_ping, frame_go_away, frame_window_update, frame_continuation, has_flag, flag_end_stream,
  flag_ack, flag_end_headers, flag_padded, flag_priority,
}
use io_mutiplexing.Http2.Stream
use io_mutiplexing.Http2.Stream.{Call, write_frame}

abbrev pub http2_preface : Bytes
http2_preface = codes "PRI * HTTP/2.0\r\n\r\nSM\r\n\r\n"

unfoldable pub new_http2_conn : Socket → Http2Conn
new_http2_conn w = record {
  w = w;
  dec = [];
  enc = [];
  enc_buf = [];
  rx_buf = [];
  preface_seen = false;
  streams = [];
  headers_stream = 0;
  headers_block = [];
  headers_end = false;
}

unfoldable pub send_initial_settings : Http2Conn → Outcome Http2Conn
unfolding write_frame
send_initial_settings c = write_frame frame_settings 0 0 [] c

abbrev pub outcome_call : Outcome Call → Call
outcome_call (ok k) = k
outcome_call (err _ k) = k

abbrev pub outcome_error : Outcome Call → Option Error
outcome_error (ok _) = none
outcome_error (err e _) = some e

-- A handler at work: each of its calls is made, and it goes on from the call's error.
unfoldable pub respond : Hpack → Response → Call → Call
unfolding Stream.write_headers Stream.write_data Stream.simple_response
respond hpack Response.done k = k
respond hpack (Response.write_headers status extra end_stream next) k =
    let o = Stream.write_headers hpack status extra end_stream k in
    respond hpack (next (outcome_error o)) (outcome_call o)
respond hpack (Response.write_data bytes end_stream next) k =
    let o = Stream.write_data bytes end_stream k in
    respond hpack (next (outcome_error o)) (outcome_call o)
respond hpack (Response.simple_response status content_type body next) k =
    let o = Stream.simple_response hpack status content_type body k in
    respond hpack (next (outcome_error o)) (outcome_call o)

-- The map holds a stream by its pointer, and so shows what the handler has changed in it.
abbrev pub show_stream : ℕ → Call → Http2Conn
show_stream id k = record k.conn { streams = insert id k.stream k.conn.streams }

-- What `invoke` runs, if a handler is installed, on a stream that is in the map.
abbrev pub run_handler : Setup → Option Http2Handler → Http2Stream → Bytes → Http2Conn → Http2Conn
run_handler u none st body c = c
run_handler u (some h) st body c =
    show_stream st.id (respond u.hpack (h st st.headers body) (record { stream = st; conn = c }))

abbrev pub remove_stream : ℕ → Http2Conn → Http2Conn
remove_stream id c = record c { streams = delete id c.streams }

-- The stream of a decoded header block, and the connection that has it in its map.
abbrev pub new_stream : List HeaderField → Http2Conn → Http2Stream
new_stream fields c = record {
  id = c.headers_stream;
  headers = fields;
  body = [];
  sent_hdr = false;
}

abbrev pub opened : List HeaderField → Http2Conn → Http2Conn
opened fields c = record c {
  streams = insert c.headers_stream (new_stream fields c) c.streams;
  headers_stream = 0;
  headers_block = [];
}

-- The pad length of a payload, its first byte if the frame is padded.
abbrev pub first_byte : Bytes → ℕ
first_byte [] = 0
first_byte (p ∷ _) = p

abbrev pub padding : ℕ → Bytes → ℕ
padding flags payload = if has_flag flags flag_padded then first_byte payload else 0

-- Where the carried bytes begin, in a DATA and in a HEADERS frame.
abbrev pub data_start : ℕ → ℕ
data_start flags = if has_flag flags flag_padded then 1 else 0

abbrev pub headers_start : ℕ → ℕ
headers_start flags =
    if has_flag flags flag_priority then data_start flags + 5 else data_start flags

-- `payload[off : len(payload)-padLen]`.
abbrev pub carried : ℕ → ℕ → Bytes → Bytes
carried off pad payload = drop off (take (length payload - pad) payload)

abbrev pub begin_block : ℕ → ℕ → Bytes → Http2Conn → Http2Conn
begin_block flags stream_id payload c = record c {
  headers_stream = stream_id;
  headers_block = carried (headers_start flags) (padding flags payload) payload;
  headers_end = has_flag flags flag_end_stream;
}

unfoldable pub on_settings : ℕ → Bytes → Http2Conn → Outcome Http2Conn
unfolding write_frame
on_settings flags payload c =
    if has_flag flags flag_ack
    then ok c
    else if not (length payload % 6 == 0)
    then err malformed_settings c
    else write_frame frame_settings flag_ack 0 [] c

unfoldable pub on_ping : ℕ → Bytes → Http2Conn → Outcome Http2Conn
unfolding write_frame
on_ping flags payload c =
    if has_flag flags flag_ack
    then ok c
    else if not (length payload == 8)
    then err malformed_ping c
    else write_frame frame_ping flag_ack 0 payload c

module _ (u : Setup) where
  unfoldable pub invoke : Http2Stream → Bytes → Http2Conn → Http2Conn
  unfolding respond delete insert
  invoke st body c = remove_stream st.id (run_handler u u.handler st body c)

  -- `finishHeaders` behind the decoder.
  unfoldable pub open_stream : List HeaderField → Http2Conn → Http2Conn
  unfolding invoke insert
  open_stream fields c =
      if c.headers_end then invoke (new_stream fields c) [] (opened fields c) else opened fields c

  abbrev pub open_decoded : Option (List HeaderField) → Http2Conn → Outcome Http2Conn
  open_decoded none c = err hpack_decode c
  open_decoded (some fields) c = ok (open_stream fields c)

  unfoldable pub finish_headers : Http2Conn → Outcome Http2Conn
  unfolding open_stream
  finish_headers c =
      let c' = record c { dec = c.dec ++ c.headers_block ∷ [] } in
      open_decoded (u.hpack.decode_full c.dec c.headers_block) c'

  abbrev pub finish_if : Bool → Http2Conn → Outcome Http2Conn
  finish_if true c = finish_headers c
  finish_if false c = ok c

  unfoldable pub on_headers : ℕ → ℕ → Bytes → Http2Conn → Outcome Http2Conn
  unfolding finish_headers
  on_headers flags stream_id payload c =
      if stream_id == 0
      then err headers_on_stream_zero c
      else if has_flag flags flag_padded && ltb (length payload) 1
      then err padded_headers_short c
      else if has_flag flags flag_priority && ltb (length payload) (data_start flags + 5)
      then err priority_headers_short c
      else if ltb (length payload) (headers_start flags + padding flags payload)
      then err invalid_headers_padding c
      else finish_if (has_flag flags flag_end_headers) (begin_block flags stream_id payload c)

  unfoldable pub on_continuation : ℕ → ℕ → Bytes → Http2Conn → Outcome Http2Conn
  unfolding finish_headers
  on_continuation flags stream_id payload c =
      if stream_id == 0 || not (stream_id == c.headers_stream)
      then err unexpected_continuation c
      else finish_if (has_flag flags flag_end_headers)
          (record c { headers_block = c.headers_block ++ payload })

  -- `onData` behind the padding checks: `part` is what the frame carries.
  unfoldable pub add_data : ℕ → ℕ → Bytes → Http2Stream → Http2Conn → Http2Conn
  unfolding invoke insert
  add_data flags stream_id part st c =
      let st' = record st { body = st.body ++ part } in
      let c' = record c { streams = insert stream_id st' c.streams } in
      if has_flag flags flag_end_stream then invoke st' st'.body c' else c'

  unfoldable pub on_stream_data : ℕ → ℕ → Bytes → Http2Stream → Http2Conn → Outcome Http2Conn
  unfolding add_data
  on_stream_data flags stream_id payload st c =
      if has_flag flags flag_padded && ltb (length payload) 1
      then err padded_data_short c
      else if ltb (length payload) (data_start flags + padding flags payload)
      then err invalid_data_padding c
      else ok (
          add_data flags stream_id (carried (data_start flags) (padding flags payload) payload) st
            c)

  -- A frame of a stream that is not in the map is ignored.
  abbrev pub on_known : ℕ → ℕ → Bytes → Option Http2Stream → Http2Conn → Outcome Http2Conn
  on_known flags stream_id payload none c = ok c
  on_known flags stream_id payload (some st) c = on_stream_data flags stream_id payload st c

  unfoldable pub on_data : ℕ → ℕ → Bytes → Http2Conn → Outcome Http2Conn
  unfolding on_stream_data lookup
  on_data flags stream_id payload c =
      on_known flags stream_id payload (lookup stream_id c.streams) c

  unfoldable pub handle_frame : Frame → Http2Conn → Outcome Http2Conn
  handle_frame f c =
      if f.typ == frame_settings
      then on_settings f.flags f.payload c
      else if f.typ == frame_ping
      then on_ping f.flags f.payload c
      else if f.typ == frame_window_update
      then ok c
      else if f.typ == frame_rst_stream
      then ok (record c { streams = delete f.stream_id c.streams })
      else if f.typ == frame_priority
      then ok c
      else if f.typ == frame_go_away
      then err eof c
      else if f.typ == frame_headers
      then on_headers f.flags f.stream_id f.payload c
      else if f.typ == frame_continuation
      then on_continuation f.flags f.stream_id f.payload c
      else if f.typ == frame_data
      then on_data f.flags f.stream_id f.payload c
      else ok c

  -- One round of the loop of `feed`, on the frame that stands at the front of the buffer.
  abbrev pub feed_next :
      (Http2Conn → Outcome Http2Conn) → Option (Frame × Bytes) → Http2Conn → Outcome Http2Conn
  feed_next loop none c = ok c
  feed_next loop (some (f, rest)) c = handle_frame f c >>= λ c'. loop (record c' { rx_buf = rest })

  -- The loop of `feed`. The first argument bounds the rounds: the length of the buffer is enough,
  -- as each round takes nine bytes or more, and with no round left the buffer is empty.
  unfoldable pub feed_frames : ℕ → Http2Conn → Outcome Http2Conn
  unfolding handle_frame next_frame
  feed_frames zero c = ok c
  feed_frames (suc rounds) c = feed_next (feed_frames rounds) (next_frame c.rx_buf) c

  abbrev pub feed_loop : Http2Conn → Outcome Http2Conn
  feed_loop c = feed_frames (length c.rx_buf) c

  unfoldable pub feed : Bytes → Http2Conn → Outcome Http2Conn
  unfolding feed_frames equal
  feed bytes c' =
      let c = record c' { rx_buf = c'.rx_buf ++ bytes } in
      let started =
        feed_loop
          (record c { rx_buf = drop (length http2_preface) c.rx_buf; preface_seen = true }) in
      if c.preface_seen
      then feed_loop c
      else if ltb (length c.rx_buf) (length http2_preface)
      then ok c
      else if not (equal (take (length http2_preface) c.rx_buf) http2_preface)
      then err bad_preface c
      else started

  unfoldable pub synthesize_upgraded_stream : Bytes → Bytes → Bytes → Bytes → Http2Conn → Http2Conn
  unfolding invoke insert
  synthesize_upgraded_stream method path authority body c =
      let headers : List HeaderField =
        record { name = codes ":method"; value = method }
        ∷ record { name = codes ":scheme"; value = codes "http" }
        ∷ record { name = codes ":path"; value = path }
        ∷ record { name = codes ":authority"; value = authority }
        ∷ [] in
      let st : Http2Stream = record { id = 1; headers = headers; body = body; sent_hdr = false } in
      invoke st body (record c { streams = insert 1 st c.streams })
