-- ===== src/Http2/Frame.antt =====
-- http2.go: the frame layout, as `writeFrame` builds it and as the loop of `feed` takes it apart.
pub mod RoundTrip
pub mod Framing
use io_mutiplexing.Common.{
  ℕ, ◌+◌, ◌*◌, ◌/◌, ◌%◌, ◌^◌, Bool, [], ◌∷◌, ◌++◌, Option, none, some, Bytes, ltb, ◌==◌,
  if◌then◌else◌, length, take, drop, not,
}
use io_mutiplexing.Http2.Types.{Frame}

abbrev pub frame_data : ℕ
frame_data = 0x0

abbrev pub frame_headers : ℕ
frame_headers = 0x1

abbrev pub frame_priority : ℕ
frame_priority = 0x2

abbrev pub frame_rst_stream : ℕ
frame_rst_stream = 0x3

abbrev pub frame_settings : ℕ
frame_settings = 0x4

abbrev pub frame_ping : ℕ
frame_ping = 0x6

abbrev pub frame_go_away : ℕ
frame_go_away = 0x7

abbrev pub frame_window_update : ℕ
frame_window_update = 0x8

abbrev pub frame_continuation : ℕ
frame_continuation = 0x9

abbrev pub flag_end_stream : ℕ
flag_end_stream = 0x1

abbrev pub flag_ack : ℕ
flag_ack = 0x1

abbrev pub flag_end_headers : ℕ
flag_end_headers = 0x4

abbrev pub flag_padded : ℕ
flag_padded = 0x8

abbrev pub flag_priority : ℕ
flag_priority = 0x20

-- `flags&flag != 0`, for a flag that is a power of two.
abbrev pub has_flag : ℕ → ℕ → Bool
has_flag flags flag = not (flags / flag % 2 == 0)

abbrev pub max_payload : ℕ
max_payload = 0xffffff

-- The low 31 bits of a stream id, `streamID&0x7fffffff`.
abbrev pub stream_bits : ℕ → ℕ
stream_bits id = id % 2 ^ 31

-- `binary.BigEndian.PutUint32`.
abbrev pub put_uint32 : ℕ → Bytes
put_uint32 v = (v / 2 ^ 24 % 256) ∷ (v / 2 ^ 16 % 256) ∷ (v / 2 ^ 8 % 256) ∷ (v % 256) ∷ []

-- `binary.BigEndian.Uint32`.
abbrev pub uint32 : ℕ → ℕ → ℕ → ℕ → ℕ
uint32 a b c d = a * 2 ^ 24 + b * 2 ^ 16 + c * 2 ^ 8 + d

-- The buffer that `writeFrame` fills: 9 header bytes, then the payload.
unfoldable pub encode : Frame → Bytes
encode f =
    let n = length f.payload in
    (n / 2 ^ 16 % 256)
    ∷ (n / 2 ^ 8 % 256)
    ∷ (n % 256)
    ∷ f.typ
    ∷ f.flags
    ∷ (put_uint32 (stream_bits f.stream_id) ++ f.payload)

-- The first frame of the buffer and the bytes behind it, if all its bytes are there.
unfoldable pub next_frame : Bytes → Option (Frame × Bytes)
next_frame (n2 ∷ n1 ∷ n0 ∷ typ ∷ flags ∷ s3 ∷ s2 ∷ s1 ∷ s0 ∷ body) =
    let n = n2 * 2 ^ 16 + n1 * 2 ^ 8 + n0 in
    if ltb (length body) n
    then none
    else some (
      record {
        typ = typ;
        flags = flags;
        stream_id = stream_bits (uint32 s3 s2 s1 s0);
        payload = take n body;
      },
      drop n body,
    )
next_frame _ = none
