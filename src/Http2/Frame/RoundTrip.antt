-- ===== src/Http2/Frame/RoundTrip.antt =====
-- The two halves of the frame layout agree, and a frame is cut off the same way whatever
-- bytes stand behind it.
use io_mutiplexing.Common.{
  ℕ, ◌+◌, ◌*◌, ◌/◌, ◌%◌, ◌^◌, ◌≤◌, ◌≡◌, ◌∷◌, ◌++◌, some, Bytes, arith, length, length-append,
  length-drop, take-append_self, drop-append_self, take-append_le, drop-append_le,
}
use io_mutiplexing.Http2.Types.{Frame}
use io_mutiplexing.Http2.Frame.{encode, next_frame, stream_bits, max_payload, uint32}

-- A length below 2^24 is read back from its three bytes.
length_bytes :
    (n : ℕ) → n ≤ max_payload → n / 2 ^ 16 % 256 * 2 ^ 16 + n / 2 ^ 8 % 256 * 2 ^ 8 + n % 256 ≡ n
length_bytes n h = omega arith

stream_bytes :
    (v : ℕ)
    → stream_bits (
        uint32
          (stream_bits v / 2 ^ 24 % 256)
          (stream_bits v / 2 ^ 16 % 256)
          (stream_bits v / 2 ^ 8 % 256)
          (stream_bits v % 256))
      ≡ stream_bits v
stream_bytes v = omega arith

-- The loop of `feed` reads back every frame that `writeFrame` writes, whatever follows it: the
-- same type, flags and payload, and the low 31 bits of the stream id.
pub next_frame-encode :
    (f : Frame) (rest : Bytes)
    → length f.payload ≤ max_payload
    → next_frame (encode f ++ rest) ≡ some (record f { stream_id = stream_bits f.stream_id }, rest)
unfolding encode next_frame
next_frame-encode f rest h =
    rw (length_bytes (length f.payload) h, stream_bytes f.stream_id)
      (ground (
        arith,
        length-append f.payload rest,
        take-append_self f.payload rest,
        drop-append_self f.payload rest,
      ))

-- What follows a complete frame does not change how it is read.
pub next_frame-append :
    (rx more : Bytes) {f : Frame} {rest : Bytes}
    → next_frame rx ≡ some (f, rest)
    → next_frame (rx ++ more) ≡ some (f, rest ++ more)
unfolding next_frame
next_frame-append (n2 ∷ n1 ∷ n0 ∷ t ∷ g ∷ s3 ∷ s2 ∷ s1 ∷ s0 ∷ body) more h =
    let n = n2 * 2 ^ 16 + n1 * 2 ^ 8 + n0 in
    ground (arith, length-append body more, take-append_le n body more, drop-append_le n body more)
next_frame-append _ more h = cc

-- A frame takes at least nine bytes of the buffer.
pub next_frame-shorter :
    (rx : Bytes) {f : Frame} {rest : Bytes}
    → next_frame rx ≡ some (f, rest)
    → length rest + 9 ≤ length rx
unfolding next_frame
next_frame-shorter (n2 ∷ n1 ∷ n0 ∷ t ∷ g ∷ s3 ∷ s2 ∷ s1 ∷ s0 ∷ body) h =
    let n = n2 * 2 ^ 16 + n1 * 2 ^ 8 + n0 in ground (arith, length-drop n body)
next_frame-shorter _ h = cc
