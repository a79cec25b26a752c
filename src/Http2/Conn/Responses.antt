-- ===== src/Http2/Conn/Responses.antt =====
-- http2.go: whatever a handler does, a connection writes nothing but frames, one to a write: what
-- such writes keep true of the socket, a handler keeps true.
use mathlib.Core.Path.{subst}
use io_mutiplexing.Common.{
  ℕ, zero, suc, ◌≤◌, ◌≡◌, refl, sym, arith, Bool, true, false, ◌||◌, List, [], ◌∷◌, inl, inr,
  Option, none, some, Bytes, codes, ltb, ◌==◌, length, take, drop, ℤ, Bool-cases, ltb→le,
}
use io_mutiplexing.Http2.Types.{
  Outcome, ok, err, ◌>>=◌, HeaderField, Frame, Http2Stream, Http2Conn, Hpack, Setup, Response,
  Socket, Http2Handler, write,
}
use io_mutiplexing.Http2.Frame.{
  encode, max_payload, frame_headers, frame_data, frame_settings, frame_ping,
}
use io_mutiplexing.Http2.Stream
use io_mutiplexing.GoText.Numbers.{itoa}
use io_mutiplexing.Http2.Stream.{
  response_fields, Call, on_conn, on_call, write_frame, default_max_frame_size,
}
use io_mutiplexing.Http2.Conn.{respond, run_handler, outcome_call, outcome_error}
use io_mutiplexing.Http2.Conn.Buffer.{state_of}

-- The types of the frames that a server sends.
abbrev pub is_sent_type : ℕ → Bool
is_sent_type t = t == frame_data || t == frame_headers || t == frame_settings || t == frame_ping

-- A buffer that holds exactly one frame, of a type that a server sends.
pub record IsFrame (b : Bytes) : Type 0 where
  pub frame : Frame
  pub short : length frame.payload ≤ max_payload
  pub sent_type : is_sent_type frame.typ ≡ true
  pub encoded : b ≡ encode frame

-- The socket behind a write, whatever its result.
abbrev pub socket_of : Outcome Socket → Socket
socket_of (ok s) = s
socket_of (err _ s) = s

-- A property of the socket that every write of a frame keeps.
module _ (Q : Socket → Type 0)
    (keep : (p : Bytes) (s : Socket) → IsFrame p → Q s → Q (socket_of (write p s))) where
  abbrev Good : Outcome Http2Conn → Type 0
  Good o = Q (state_of o).w

  abbrev GoodCall : Outcome Call → Type 0
  GoodCall o = Q (outcome_call o).conn.w

  on_conn-Good : (c : Http2Conn) (o : Outcome Socket) → Q (socket_of o) → Good (on_conn c o)
  on_conn-Good c (ok s) h = h
  on_conn-Good c (err e s) h = h

  pub write_frame-Good :
      (typ flags id : ℕ) (payload : Bytes) (c : Http2Conn)
      → is_sent_type typ ≡ true
      → Q c.w
      → Good (write_frame typ flags id payload c)
  unfolding write_frame
  write_frame-Good typ flags id payload c t good =
      elim (Bool-cases (ltb max_payload (length payload))) [
        | inl long ↦ rw long good
        | inr fits ↦
            let f : Frame = record {
              typ = typ;
              flags = flags;
              stream_id = id;
              payload = payload;
            } in
            rw fits (
              on_conn-Good c (write (encode f) c.w) (
                keep (encode f) c.w
                  (record {
                    frame = f;
                    short = ltb→le max_payload (length payload) fits;
                    sent_type = t;
                    encoded = refl;
                  })
                  good))
      ]

  pub bind-Good :
      (o : Outcome Http2Conn) (f : Http2Conn → Outcome Http2Conn)
      → Good o
      → ((c : Http2Conn) → Q c.w → Good (f c))
      → Good (o >>= f)
  bind-Good (ok c) f good h = h c good
  bind-Good (err e c) f good h = good

  write_field-w :
      (hp : Hpack) (h : HeaderField) (c : Http2Conn)
      → (state_of (Stream.write_field hp h c)).w ≡ c.w
  unfolding Stream.write_field
  write_field-w hp h c = ground arith

  write_fields-Good :
      (hp : Hpack) (hs : List HeaderField) (c : Http2Conn)
      → Q c.w
      → Good (Stream.write_fields hp hs c)
  unfolding Stream.write_fields
  write_fields-Good hp [] c good = good
  write_fields-Good hp (h ∷ hs) c good =
      bind-Good (Stream.write_field hp h c) (Stream.write_fields hp hs)
        (subst Q (sym (write_field-w hp h c)) good) (write_fields-Good hp hs)

  on_call-conn :
      (s : Http2Stream) (o : Outcome Http2Conn) → (outcome_call (on_call s o)).conn ≡ state_of o
  on_call-conn s (ok c) = refl
  on_call-conn s (err e c) = refl

  send_headers-Good :
      (hp : Hpack) (fields : List HeaderField) (e : Bool) (id : ℕ) (c : Http2Conn)
      → Q c.w
      → Good (Stream.send_headers hp fields e id c)
  unfolding Stream.send_headers
  send_headers-Good hp fields e id c good =
      bind-Good (Stream.write_fields hp fields (record c { enc_buf = [] }))
        (λ d. write_frame frame_headers (Stream.header_flags e) id d.enc_buf d)
        (write_fields-Good hp fields (record c { enc_buf = [] }) good)
        (λ d h. write_frame-Good frame_headers (Stream.header_flags e) id d.enc_buf d refl h)

  write_headers-Good :
      (hp : Hpack) (status : ℤ) (extra : List HeaderField) (e : Bool) (k : Call)
      → Q k.conn.w
      → GoodCall (Stream.write_headers hp status extra e k)
  unfolding Stream.write_headers
  write_headers-Good hp status extra e k good = elim (Bool-cases k.stream.sent_hdr) [
    | inl sent ↦ rw sent good
    | inr fresh ↦
        rw (fresh, on_call-conn)
          (send_headers-Good hp (record { name = codes ":status"; value = itoa status } ∷ extra) e
            k.stream.id k.conn good)
  ]

  write_chunks-Good :
      (n id : ℕ) (bytes : Bytes) (e : Bool) (c : Http2Conn)
      → Q c.w
      → Good (Stream.write_chunks n id bytes e c)
  unfolding Stream.write_chunks
  write_chunks-Good zero id bytes e c good =
      write_frame-Good frame_data (Stream.data_flags e) id bytes c refl good
  write_chunks-Good (suc n) id bytes e c good =
      elim (Bool-cases (ltb default_max_frame_size (length bytes))) [
        | inl long ↦ rw long (
            bind-Good (write_frame frame_data 0 id (take default_max_frame_size bytes) c)
              (Stream.write_chunks n id (drop default_max_frame_size bytes) e)
              (write_frame-Good frame_data 0 id (take default_max_frame_size bytes) c refl good)
              (write_chunks-Good n id (drop default_max_frame_size bytes) e))
        | inr short ↦
            rw short (write_frame-Good frame_data (Stream.data_flags e) id bytes c refl good)
      ]

  write_data-Good :
      (bytes : Bytes) (e : Bool) (k : Call) → Q k.conn.w → GoodCall (Stream.write_data bytes e k)
  unfolding Stream.write_data
  write_data-Good bytes e k good =
      rw on_call-conn (write_chunks-Good (length bytes) k.stream.id bytes e k.conn good)

  bind-GoodCall :
      (o : Outcome Call) (f : Call → Outcome Call)
      → GoodCall o
      → ((k : Call) → Q k.conn.w → GoodCall (f k))
      → GoodCall (o >>= f)
  bind-GoodCall (ok k) f good h = h k good
  bind-GoodCall (err e k) f good h = good

  simple_response-Good :
      (hp : Hpack) (status : ℤ) (kind body : Bytes) (k : Call)
      → Q k.conn.w
      → GoodCall (Stream.simple_response hp status kind body k)
  unfolding Stream.simple_response
  simple_response-Good hp status kind [] k good =
      let extra = response_fields kind [] in
      bind-GoodCall (Stream.write_headers hp status extra true k) ok
        (write_headers-Good hp status extra true k good) (λ k' h. h)
  simple_response-Good hp status kind (b ∷ body) k good =
      let extra = response_fields kind (b ∷ body) in
      bind-GoodCall (Stream.write_headers hp status extra false k)
        (Stream.write_data (b ∷ body) true) (write_headers-Good hp status extra false k good)
        (write_data-Good (b ∷ body) true)

  respond-kept : (hp : Hpack) (p : Response) (k : Call) → Q k.conn.w → Q (respond hp p k).conn.w
  unfolding respond
  respond-kept hp Response.done k good = good
  respond-kept hp (Response.write_headers status extra e next) k good =
      respond-kept hp (next (outcome_error (Stream.write_headers hp status extra e k)))
        (outcome_call (Stream.write_headers hp status extra e k))
        (write_headers-Good hp status extra e k good)
  respond-kept hp (Response.write_data bytes e next) k good =
      respond-kept hp (next (outcome_error (Stream.write_data bytes e k)))
        (outcome_call (Stream.write_data bytes e k)) (write_data-Good bytes e k good)
  respond-kept hp (Response.simple_response status kind body next) k good =
      respond-kept hp (next (outcome_error (Stream.simple_response hp status kind body k)))
        (outcome_call (Stream.simple_response hp status kind body k))
        (simple_response-Good hp status kind body k good)

  pub run_handler-kept :
      (u : Setup) (h : Option Http2Handler) (st : Http2Stream) (body : Bytes) (c : Http2Conn)
      → Q c.w
      → Q (run_handler u h st body c).w
  run_handler-kept u none st body c good = good
  run_handler-kept u (some h) st body c good =
      respond-kept u.hpack (h st st.headers body) (record { stream = st; conn = c }) good
