-- ===== src/Http2/Conn/Output.antt =====
-- What a handler and the methods of http2.go that write touch of a connection: the transport and
-- the encoder. They give the same output whatever else the connection holds, and leave the rest.
use io_mutiplexing.Common.{
  ℕ, zero, suc, ◌≡◌, refl, ap, arith, Bool, true, List, [], ◌∷◌, inl, inr, Option, none, some,
  Bytes, ltb, length, Bool-cases, ℤ,
}
use io_mutiplexing.Common.Maps.{delete-insert}
use io_mutiplexing.Http2.Types.{
  Outcome, ok, err, ◌>>=◌, HeaderField, Http2Stream, Http2Conn, Hpack, Setup, Response,
  Http2Handler,
}
use io_mutiplexing.Http2.Frame.{frame_headers}
use io_mutiplexing.Http2.Stream
use io_mutiplexing.Http2.Stream.{Call, on_conn, on_call, write_frame, default_max_frame_size}
use io_mutiplexing.Http2.Conn.{
  respond, run_handler, remove_stream, invoke, outcome_call, outcome_error,
}

-- `c`'s output, on top of all else that `r` holds.
abbrev pub at : Http2Conn → Http2Conn → Http2Conn
at r c = record r { w = c.w; enc = c.enc; enc_buf = c.enc_buf }

abbrev pub over : Http2Conn → Outcome Http2Conn → Outcome Http2Conn
over r (ok c) = ok (at r c)
over r (err e c) = err e (at r c)

abbrev call_at : Http2Conn → Call → Call
call_at r k = record k { conn = at r k.conn }

abbrev calls_at : Http2Conn → Outcome Call → Outcome Call
calls_at r (ok k) = ok (call_at r k)
calls_at r (err e k) = err e (call_at r k)

pub write_frame-over :
    (typ flags id : ℕ) (payload : Bytes) (r : Http2Conn) (c : Http2Conn)
    → write_frame typ flags id payload (at r c) ≡ over r (write_frame typ flags id payload c)
unfolding write_frame
write_frame-over typ flags id payload r c = ground arith

write_field-over :
    (hp : Hpack) (h : HeaderField) (r : Http2Conn) (c : Http2Conn)
    → Stream.write_field hp h (at r c) ≡ over r (Stream.write_field hp h c)
unfolding Stream.write_field
write_field-over hp h r c = ground arith

>>=-over :
    (r : Http2Conn) (m : Outcome Http2Conn) (f : Http2Conn → Outcome Http2Conn)
    → ((c : Http2Conn) → f (at r c) ≡ over r (f c))
    → (over r m >>= f) ≡ over r (m >>= f)
>>=-over r (ok c) f h = h c
>>=-over r (err e c) f h = refl

write_fields-over :
    (hp : Hpack) (hs : List HeaderField) (r : Http2Conn) (c : Http2Conn)
    → Stream.write_fields hp hs (at r c) ≡ over r (Stream.write_fields hp hs c)
unfolding Stream.write_fields
write_fields-over hp [] r c = refl
write_fields-over hp (h ∷ hs) r c =
    rw (write_field-over hp h r c) (
      >>=-over r (Stream.write_field hp h c) (Stream.write_fields hp hs)
        (write_fields-over hp hs r))

on_call-calls_at :
    (s : Http2Stream) (r : Http2Conn) (o : Outcome Http2Conn)
    → on_call s (over r o) ≡ calls_at r (on_call s o)
on_call-calls_at s r (ok c) = refl
on_call-calls_at s r (err e c) = refl

send_headers-over :
    (hp : Hpack) (fields : List HeaderField) (e : Bool) (id : ℕ) (r : Http2Conn) (c : Http2Conn)
    → Stream.send_headers hp fields e id (at r c) ≡ over r (Stream.send_headers hp fields e id c)
unfolding Stream.send_headers
send_headers-over hp fields e id r c =
    rw (write_fields-over hp fields r (record c { enc_buf = [] })) (
      >>=-over r (Stream.write_fields hp fields (record c { enc_buf = [] }))
        (λ d. write_frame frame_headers (Stream.header_flags e) id d.enc_buf d)
        (λ d. write_frame-over _ _ id d.enc_buf r d))

write_headers-calls_at :
    (hp : Hpack) (status : ℤ) (extra : List HeaderField) (end_stream : Bool) (r : Http2Conn)
    (k : Call)
    → Stream.write_headers hp status extra end_stream (call_at r k)
      ≡ calls_at r (Stream.write_headers hp status extra end_stream k)
unfolding Stream.write_headers
write_headers-calls_at hp status extra end_stream r k = elim (Bool-cases k.stream.sent_hdr) [
  | inl sent ↦ rw sent
  | inr fresh ↦ rw (fresh, send_headers-over) (on_call-calls_at _ r _)
]

write_chunks-over :
    (n id : ℕ) (bytes : Bytes) (end_stream : Bool) (r : Http2Conn) (c : Http2Conn)
    → Stream.write_chunks n id bytes end_stream (at r c)
      ≡ over r (Stream.write_chunks n id bytes end_stream c)
unfolding Stream.write_chunks
write_chunks-over zero id bytes end_stream r c = write_frame-over _ _ id bytes r c
write_chunks-over (suc n) id bytes end_stream r c =
    elim (Bool-cases (ltb default_max_frame_size (length bytes))) [
      | inl long ↦
          rw (long, write_frame-over) (>>=-over r _ _ (write_chunks-over n id _ end_stream r))
      | inr short ↦ rw short (write_frame-over _ _ id bytes r c)
    ]

write_data-calls_at :
    (bytes : Bytes) (end_stream : Bool) (r : Http2Conn) (k : Call)
    → Stream.write_data bytes end_stream (call_at r k)
      ≡ calls_at r (Stream.write_data bytes end_stream k)
unfolding Stream.write_data
write_data-calls_at bytes end_stream r k = rw write_chunks-over (on_call-calls_at _ r _)

bind-calls_at :
    (r : Http2Conn) (m : Outcome Call) (f : Call → Outcome Call)
    → ((k : Call) → f (call_at r k) ≡ calls_at r (f k))
    → (calls_at r m >>= f) ≡ calls_at r (m >>= f)
bind-calls_at r (ok k) f h = h k
bind-calls_at r (err e k) f h = refl

simple_response-calls_at :
    (hp : Hpack) (status : ℤ) (kind body : Bytes) (r : Http2Conn) (k : Call)
    → Stream.simple_response hp status kind body (call_at r k)
      ≡ calls_at r (Stream.simple_response hp status kind body k)
unfolding Stream.simple_response
simple_response-calls_at hp status kind [] r k =
    rw write_headers-calls_at (bind-calls_at r _ ok (λ _. refl))
simple_response-calls_at hp status kind (b ∷ body) r k =
    rw write_headers-calls_at (
      bind-calls_at r _ (Stream.write_data (b ∷ body) true) (write_data-calls_at (b ∷ body) true r))

call_of-calls_at :
    (r : Http2Conn) (o : Outcome Call)
    → (outcome_call (calls_at r o) ≡ call_at r (outcome_call o))
      × (outcome_error (calls_at r o) ≡ outcome_error o)
call_of-calls_at r (ok k) = (refl, refl)
call_of-calls_at r (err e k) = (refl, refl)

respond-call_at :
    (hp : Hpack) (p : Response) (r : Http2Conn) (k : Call)
    → respond hp p (call_at r k) ≡ call_at r (respond hp p k)
unfolding respond
respond-call_at hp Response.done r k = refl
respond-call_at hp (Response.write_headers status extra e next) r k =
    let o = Stream.write_headers hp status extra e k in
    rw (write_headers-calls_at, (call_of-calls_at r o).0, (call_of-calls_at r o).1)
      (respond-call_at hp (next (outcome_error o)) r (outcome_call o))
respond-call_at hp (Response.write_data bytes e next) r k =
    let o = Stream.write_data bytes e k in
    rw (write_data-calls_at, (call_of-calls_at r o).0, (call_of-calls_at r o).1)
      (respond-call_at hp (next (outcome_error o)) r (outcome_call o))
respond-call_at hp (Response.simple_response status kind body next) r k =
    let o = Stream.simple_response hp status kind body k in
    rw (simple_response-calls_at, (call_of-calls_at r o).0, (call_of-calls_at r o).1)
      (respond-call_at hp (next (outcome_error o)) r (outcome_call o))

-- The connection behind a handler, without what the handler has changed in its stream.
abbrev pub handler_conn : Setup → Option Http2Handler → Http2Stream → Bytes → Http2Conn → Http2Conn
handler_conn u none st body c = c
handler_conn u (some h) st body c =
    (respond u.hpack (h st st.headers body) (record { stream = st; conn = c })).conn

-- `invoke` then removes the stream.
pub invoke-handler_conn :
    (u : Setup) (st : Http2Stream) (body : Bytes) (c : Http2Conn)
    → invoke u st body c ≡ remove_stream st.id (handler_conn u u.handler st body c)
unfolding invoke
invoke-handler_conn u st body c = go u.handler
  where
    go :
        (o : Option Http2Handler)
        → remove_stream st.id (run_handler u o st body c)
          ≡ remove_stream st.id (handler_conn u o st body c)
    go none = refl
    go (some h) =
        let k = respond u.hpack (h st st.headers body) (record { stream = st; conn = c }) in
        ap (λ m. record k.conn { streams = m }) (delete-insert st.id k.stream k.conn.streams)

pub handler_conn-at :
    (u : Setup) (h : Option Http2Handler) (st : Http2Stream) (body : Bytes) (r : Http2Conn)
    (c : Http2Conn)
    → handler_conn u h st body (at r c) ≡ at r (handler_conn u h st body c)
handler_conn-at u none st body r c = refl
handler_conn-at u (some h) st body r c =
    ap (λ k. k.conn)
      (respond-call_at u.hpack (h st st.headers body) r (record { stream = st; conn = c }))
