-- ===== src/Http2/Conn/Once.antt =====
-- http2.go: `sentHdr` lets a stream's response have one HEADERS frame.
use mathlib.Core.Path.{subst}
use io_mutiplexing.Common.{
  ℕ, zero, suc, ◌+◌, ◌≤◌, ◌≡◌, refl, ◌∙◌, arith, Bool, true, false, List, [], ◌∷◌, ◌++◌, inl, inr,
  Option, none, some, Bytes, codes, ltb, ◌==◌, if◌then◌else◌, length, take, drop, ℤ, Bool-cases,
}
use io_mutiplexing.Http2.Types.{
  Outcome, ok, err, ◌>>=◌, HeaderField, Frame, Http2Stream, Http2Conn, Hpack, Setup, Response,
  Socket, Http2Handler, write,
}
use io_mutiplexing.Http2.Frame.{encode, frame_headers, frame_data}
use io_mutiplexing.Http2.Stream
use io_mutiplexing.GoText.Numbers.{itoa}
use io_mutiplexing.Http2.Stream.{
  Call, on_call, write_frame, default_max_frame_size, response_fields, data_flags, header_flags,
}
use io_mutiplexing.Http2.Conn.{respond, run_handler, invoke, outcome_call, outcome_error}
use io_mutiplexing.Http2.Conn.Buffer.{state_of}

-- The type byte of a frame on the wire.
abbrev pub typ_of : Bytes → ℕ
typ_of (_ ∷ _ ∷ _ ∷ t ∷ _) = t
typ_of _ = 0

abbrev one_if : Bool → ℕ
one_if true = 1
one_if false = 0

-- The number of HEADERS frames among the buffers that were written.
abbrev pub header_frames : List Bytes → ℕ
header_frames [] = 0
header_frames (b ∷ bs) = one_if (typ_of b == frame_headers) + header_frames bs

abbrev pub headers_of : Http2Conn → ℕ
headers_of c = header_frames c.w.sent

header_frames-append :
    (a b : List Bytes) → header_frames (a ++ b) ≡ header_frames a + header_frames b
header_frames-append [] b = omega arith
header_frames-append (x ∷ a) b = omega (arith, header_frames-append a b)

write_frame-headers_of :
    (typ flags id : ℕ) (p : Bytes) (c : Http2Conn)
    → headers_of (state_of (write_frame typ flags id p c))
      ≤ headers_of c + one_if (typ == frame_headers)
unfolding write_frame write encode
write_frame-headers_of typ flags id p c =
    let f : Frame = record { typ = typ; flags = flags; stream_id = id; payload = p } in
    ground (arith, header_frames-append c.w.sent (encode f ∷ []))

-- What can still come: the HEADERS frames that were written, and one more while `sentHdr` is not
-- set. No method raises it.
abbrev potential : Call → ℕ
potential k = headers_of k.conn + one_if (if k.stream.sent_hdr then false else true)

bind-headers_of :
    (n : ℕ) (o : Outcome Http2Conn) (f : Http2Conn → Outcome Http2Conn)
    → headers_of (state_of o) ≤ n
    → ((c : Http2Conn) → headers_of c ≤ n → headers_of (state_of (f c)) ≤ n)
    → headers_of (state_of (o >>= f)) ≤ n
bind-headers_of n (ok c) f b h = h c b
bind-headers_of n (err e c) f b h = b

bind-potential :
    (n : ℕ) (o : Outcome Call) (f : Call → Outcome Call)
    → potential (outcome_call o) ≤ n
    → ((k : Call) → potential k ≤ n → potential (outcome_call (f k)) ≤ n)
    → potential (outcome_call (o >>= f)) ≤ n
bind-potential n (ok k) f b h = h k b
bind-potential n (err e k) f b h = b

write_field-w :
    (hp : Hpack) (h : HeaderField) (c : Http2Conn) → (state_of (Stream.write_field hp h c)).w ≡ c.w
unfolding Stream.write_field
write_field-w hp h c = ground arith

bind-w :
    (w : Socket) (o : Outcome Http2Conn) (f : Http2Conn → Outcome Http2Conn)
    → (state_of o).w ≡ w
    → ((c : Http2Conn) → (state_of (f c)).w ≡ c.w)
    → (state_of (o >>= f)).w ≡ w
bind-w w (ok c) f e h = h c ∙ e
bind-w w (err x c) f e h = e

write_fields-w :
    (hp : Hpack) (hs : List HeaderField) (c : Http2Conn)
    → (state_of (Stream.write_fields hp hs c)).w ≡ c.w
unfolding Stream.write_fields
write_fields-w hp [] c = refl
write_fields-w hp (h ∷ hs) c =
    bind-w c.w (Stream.write_field hp h c) (Stream.write_fields hp hs) (write_field-w hp h c)
      (write_fields-w hp hs)

on_call-potential :
    (s : Http2Stream) (o : Outcome Http2Conn)
    → potential (outcome_call (on_call s o))
      ≡ headers_of (state_of o) + one_if (if s.sent_hdr then false else true)
on_call-potential s (ok c) = refl
on_call-potential s (err e c) = refl

frame_behind-headers_of :
    (flags id : ℕ) (w : Socket) (o : Outcome Http2Conn)
    → (state_of o).w ≡ w
    → headers_of (state_of (o >>= λ c. write_frame frame_headers flags id c.enc_buf c))
      ≤ header_frames w.sent + 1
frame_behind-headers_of flags id w (ok c) e =
    subst
      (λ v.
        headers_of (state_of (write_frame frame_headers flags id c.enc_buf c))
        ≤ header_frames v.sent + 1)
      e (write_frame-headers_of frame_headers flags id c.enc_buf c)
frame_behind-headers_of flags id w (err x c) e =
    subst (λ v. headers_of c ≤ header_frames v.sent + 1) e (omega arith)

send_headers-headers_of :
    (hp : Hpack) (fields : List HeaderField) (e : Bool) (id : ℕ) (c : Http2Conn)
    → headers_of (state_of (Stream.send_headers hp fields e id c)) ≤ headers_of c + 1
unfolding Stream.send_headers
send_headers-headers_of hp fields e id c =
    frame_behind-headers_of (header_flags e) id c.w
      (Stream.write_fields hp fields (record c { enc_buf = [] }))
      (write_fields-w hp fields (record c { enc_buf = [] }))

write_headers-potential :
    (hp : Hpack) (status : ℤ) (extra : List HeaderField) (e : Bool) (k : Call)
    → potential (outcome_call (Stream.write_headers hp status extra e k)) ≤ potential k
unfolding Stream.write_headers
write_headers-potential hp status extra e k = elim (Bool-cases k.stream.sent_hdr) [
  | inl sent ↦ rw sent (omega arith)
  | inr fresh ↦
      let fields : List HeaderField =
        record { name = codes ":status"; value = itoa status } ∷ extra in
      rw fresh (
        omega (
          arith,
          on_call-potential (record (k.stream) { sent_hdr = true })
              (Stream.send_headers hp fields e k.stream.id k.conn),
          send_headers-headers_of hp fields e k.stream.id k.conn,
        ))
]

write_chunks-headers_of :
    (m n id : ℕ) (bytes : Bytes) (e : Bool) (c : Http2Conn)
    → headers_of c ≤ m
    → headers_of (state_of (Stream.write_chunks n id bytes e c)) ≤ m
unfolding Stream.write_chunks
write_chunks-headers_of m zero id bytes e c b =
    omega (arith, write_frame-headers_of frame_data (data_flags e) id bytes c, b)
write_chunks-headers_of m (suc n) id bytes e c b =
    let head = take default_max_frame_size bytes in
    let rest = drop default_max_frame_size bytes in
    elim (Bool-cases (ltb default_max_frame_size (length bytes))) [
      | inl long ↦ rw long (
          bind-headers_of m (write_frame frame_data 0 id head c) (Stream.write_chunks n id rest e)
            (omega (arith, write_frame-headers_of frame_data 0 id head c, b))
            (write_chunks-headers_of m n id rest e))
      | inr short ↦
          rw short (omega (arith, write_frame-headers_of frame_data (data_flags e) id bytes c, b))
    ]

write_data-potential :
    (bytes : Bytes) (e : Bool) (k : Call)
    → potential (outcome_call (Stream.write_data bytes e k)) ≤ potential k
unfolding Stream.write_data
write_data-potential bytes e k = omega (
  arith,
  on_call-potential k.stream (Stream.write_chunks (length bytes) k.stream.id bytes e k.conn),
  write_chunks-headers_of (headers_of k.conn) (length bytes) k.stream.id bytes e k.conn
      (omega arith),
)

simple_response-potential :
    (hp : Hpack) (status : ℤ) (kind body : Bytes) (k : Call)
    → potential (outcome_call (Stream.simple_response hp status kind body k)) ≤ potential k
unfolding Stream.simple_response
simple_response-potential hp status kind [] k =
    let extra = response_fields kind [] in
    bind-potential (potential k) (Stream.write_headers hp status extra true k) ok
      (write_headers-potential hp status extra true k) (λ k' h. h)
simple_response-potential hp status kind (b ∷ body) k =
    let extra = response_fields kind (b ∷ body) in
    bind-potential (potential k) (Stream.write_headers hp status extra false k)
      (Stream.write_data (b ∷ body) true) (write_headers-potential hp status extra false k)
      (λ k' h. omega (arith, h, write_data-potential (b ∷ body) true k'))

respond-potential :
    (hp : Hpack) (p : Response) (k : Call) → potential (respond hp p k) ≤ potential k
unfolding respond
respond-potential hp Response.done k = omega arith
respond-potential hp (Response.write_headers status extra e next) k =
    let o = Stream.write_headers hp status extra e k in
    omega (
      arith,
      respond-potential hp (next (outcome_error o)) (outcome_call o),
      write_headers-potential hp status extra e k,
    )
respond-potential hp (Response.write_data bytes e next) k =
    let o = Stream.write_data bytes e k in
    omega (
      arith,
      respond-potential hp (next (outcome_error o)) (outcome_call o),
      write_data-potential bytes e k,
    )
respond-potential hp (Response.simple_response status kind body next) k =
    let o = Stream.simple_response hp status kind body k in
    omega (
      arith,
      respond-potential hp (next (outcome_error o)) (outcome_call o),
      simple_response-potential hp status kind body k,
    )

run_handler-headers_of :
    (u : Setup) (h : Option Http2Handler) (st : Http2Stream) (body : Bytes) (c : Http2Conn)
    → headers_of (run_handler u h st body c)
      ≤ headers_of c + one_if (if st.sent_hdr then false else true)
run_handler-headers_of u none st body c = omega arith
run_handler-headers_of u (some h) st body c =
    omega
      (arith, respond-potential u.hpack (h st st.headers body) (record { stream = st; conn = c }))

-- However often a handler that is invoked calls the methods of its stream, and whichever of the
-- calls fail, at most one HEADERS frame is written, and none if the stream's HEADERS were sent.
pub invoke-headers_of :
    (u : Setup) (st : Http2Stream) (body : Bytes) (c : Http2Conn)
    → headers_of (invoke u st body c) ≤ headers_of c + one_if (if st.sent_hdr then false else true)
unfolding invoke
invoke-headers_of u st body c = run_handler-headers_of u u.handler st body c
