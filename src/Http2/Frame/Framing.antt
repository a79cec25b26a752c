-- ===== src/Http2/Frame/Framing.antt =====
-- http2.go: the bytes of a frame and of a part of one, by their positions.
use mathlib.Core.Path.{subst}
use mathlib.Core.Option.{some-injective}
use io_mutiplexing.Common.{
  ℕ, ◌+◌, ◌*◌, ◌%◌, ◌≤◌, ◌<◌, ◌≡◌, refl, arith, Bool, true, false, ◌∷◌, ◌++◌, Option, none, some,
  Bytes, length, take, drop, ltb, ltb→le, if◌then◌else◌, take-append-drop, length-take,
}
use io_mutiplexing.Http2.Types.{Frame}
use io_mutiplexing.Http2.Frame.{next_frame}

-- A buffer that begins with this frame, its nine bytes of header and its payload, before the rest.
pub data Framed : Bytes → Frame → Bytes → Type 0 where
  framed :
      (n2 n1 n0 typ flags s3 s2 s1 s0 : ℕ) (payload rest : Bytes)
      → length payload ≡ n2 * 65536 + n1 * 256 + n0
      → Framed
          (n2 ∷ n1 ∷ n0 ∷ typ ∷ flags ∷ s3 ∷ s2 ∷ s1 ∷ s0 ∷ (payload ++ rest))
          (record {
            typ = typ;
            flags = flags;
            stream_id = (s3 * 16777216 + s2 * 65536 + s1 * 256 + s0) % 2147483648;
            payload = payload;
          })
          rest

-- A buffer that is shorter than a frame: than its header, or than what the header says.
pub data IsPart : Bytes → Type 0 where
  part_of_header : (rx : Bytes) → length rx < 9 → IsPart rx
  part_of_payload :
      (n2 n1 n0 typ flags s3 s2 s1 s0 : ℕ) (body : Bytes)
      → length body < n2 * 65536 + n1 * 256 + n0
      → IsPart (n2 ∷ n1 ∷ n0 ∷ typ ∷ flags ∷ s3 ∷ s2 ∷ s1 ∷ s0 ∷ body)

pub next_frame-Framed :
    (rx : Bytes) (f : Frame) (rest : Bytes) → next_frame rx ≡ some (f, rest) → Framed rx f rest
unfolding next_frame
next_frame-Framed (n2 ∷ n1 ∷ n0 ∷ typ ∷ flags ∷ s3 ∷ s2 ∷ s1 ∷ s0 ∷ body) f rest e =
    go (ltb (length body) n) refl e
  where
    n : ℕ
    n = n2 * 65536 + n1 * 256 + n0

    own : Frame
    own = record {
      typ = typ;
      flags = flags;
      stream_id = (s3 * 16777216 + s2 * 65536 + s1 * 256 + s0) % 2147483648;
      payload = take n body;
    }

    buffer : Bytes → Bytes
    buffer b = n2 ∷ n1 ∷ n0 ∷ typ ∷ flags ∷ s3 ∷ s2 ∷ s1 ∷ s0 ∷ b

    found : Option (Frame × Bytes)
    found = some (own, drop n body)

    cut : n ≤ length body → Framed (buffer body) own (drop n body)
    cut l =
        subst (λ b. Framed (buffer b) own (drop n body)) (take-append-drop n body)
          (framed n2 n1 n0 typ flags s3 s2 s1 s0 (take n body) (drop n body)
            (omega (arith, length-take n body, l)))

    go :
        (b : Bool)
        → ltb (length body) n ≡ b
        → (if b then none else found) ≡ some (f, rest)
        → Framed (buffer body) f rest
    go true short same = cc
    go false whole same =
        subst (λ y. Framed (buffer body) y.0 y.1) (some-injective (own, drop n body) (f, rest) same)
          (cut (ltb→le (length body) n whole))
next_frame-Framed _ f rest e = cc

pub next_frame-IsPart : (rx : Bytes) → next_frame rx ≡ none → IsPart rx
unfolding next_frame
next_frame-IsPart (n2 ∷ n1 ∷ n0 ∷ typ ∷ flags ∷ s3 ∷ s2 ∷ s1 ∷ s0 ∷ body) e =
    part_of_payload n2 n1 n0 typ flags s3 s2 s1 s0 body (ground (arith, e))
next_frame-IsPart rx e = part_of_header rx (omega arith)
