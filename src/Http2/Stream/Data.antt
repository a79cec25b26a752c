-- ===== src/Http2/Stream/Data.antt =====
-- http2.go: the DATA frames that `WriteData` cuts a body into.
use mathlib.Core.List
use mathlib.Core.Path.{subst}
use io_mutiplexing.Common.{
  ℕ, zero, suc, ◌+◌, ◌≤◌, ◌≡◌, refl, sym, ap, ◌∙◌, arith, Bool, false, List, [], ◌∷◌, ◌++◌,
  append_assoc, Bytes, ltb, length, take, drop, All, joined, inl, inr, Bool-cases, ltb→lt, ltb→le,
  le→ltb, length-take, length-drop, take-append-drop,
}
use io_mutiplexing.Http2.Types.{ok, ◌>>=◌, Http2Conn, Socket, write}
use io_mutiplexing.Http2.Frame.{encode, frame_data, max_payload}
use io_mutiplexing.Http2.Stream.{
  Call, on_call, write_frame, write_chunks, write_data, default_max_frame_size, data_flags,
}

-- A DATA frame on the wire.
abbrev pub data_frame : ℕ → ℕ → Bytes → Bytes
data_frame flags id p =
    encode (record { typ = frame_data; flags = flags; stream_id = id; payload = p })

-- What is written between two moments of a socket: `bytes` in DATA frames that are full and have
-- no flag, but for the last one, which has END_STREAM if the stream ends.
pub record IsCut (id : ℕ) (end_stream : Bool) (bytes : Bytes) (s s' : Socket) : Type 0 where
  pub full : List Bytes
  pub last : Bytes
  pub all_full : All (λ p. length p ≡ default_max_frame_size) full
  pub last_fits : length last ≤ default_max_frame_size
  pub whole : joined full ++ last ≡ bytes
  pub written :
      s'.sent
      ≡ (s.sent ++ List.map (data_frame 0 id) full)
        ++ data_frame (data_flags end_stream) id last ∷ []

-- A socket behind one more write that it took.
abbrev took : Bytes → Socket → Socket
took p s = record s { calls = s.calls + 1; sent = s.sent ++ p ∷ [] }

write_frame-took :
    (flags id : ℕ) (p : Bytes) (c : Http2Conn)
    → length p ≤ default_max_frame_size
    → c.w.fails c.w.calls ≡ false
    → write_frame frame_data flags id p c ≡ ok (record c { w = took (data_frame flags id p) c.w })
unfolding write_frame write
write_frame-took flags id p c short open_now =
    rw (le→ltb max_payload (length p) (omega (arith, short)), open_now) refl

last_frame :
    (id : ℕ) (e : Bool) (bytes : Bytes) (c : Http2Conn)
    → length bytes ≤ default_max_frame_size
    → ((n : ℕ) → c.w.fails n ≡ false)
    → (c' : Http2Conn) × (write_frame frame_data (data_flags e) id bytes c ≡ ok c')
      × IsCut id e bytes c.w c'.w
last_frame id e bytes c short h = (
  record c { w = took (data_frame (data_flags e) id bytes) c.w },
  write_frame-took (data_flags e) id bytes c short (h c.w.calls),
  record {
    full = [];
    last = bytes;
    all_full = tt;
    last_fits = short;
    whole = refl;
    written =
        ap (λ t. t ++ data_frame (data_flags e) id bytes ∷ []) (sym (List.append-nil c.w.sent));
  },
)

-- A full frame, and a cut behind it.
full-IsCut :
    (id : ℕ) (e : Bool) (head rest : Bytes) (s s' : Socket)
    → length head ≡ default_max_frame_size
    → IsCut id e rest (took (data_frame 0 id head) s) s'
    → IsCut id e (head ++ rest) s s'
full-IsCut id e head rest s s' l cut = record {
  full = head ∷ cut.full;
  last = cut.last;
  all_full = (l, cut.all_full);
  last_fits = cut.last_fits;
  whole = append_assoc head (joined cut.full) cut.last ∙ ap (λ t. head ++ t) cut.whole;
  written =
      cut.written
      ∙ ap (λ t. t ++ data_frame (data_flags e) id cut.last ∷ [])
          (append_assoc s.sent (data_frame 0 id head ∷ []) (List.map (data_frame 0 id) cut.full));
}

-- The round that writes a full frame, and the rounds behind it.
full_then-IsCut :
    (n id : ℕ) (bytes : Bytes) (e : Bool) (c : Http2Conn)
    → length (take default_max_frame_size bytes) ≡ default_max_frame_size
    → c.w.fails c.w.calls ≡ false
    → (let head = take default_max_frame_size bytes in
        let rest = drop default_max_frame_size bytes in
        let c₁ = record c { w = took (data_frame 0 id head) c.w } in
        ((c' : Http2Conn) × (write_chunks n id rest e c₁ ≡ ok c') × IsCut id e rest c₁.w c'.w)
        → (c' : Http2Conn) × ((write_frame frame_data 0 id head c >>= write_chunks n id rest e)
            ≡ ok c')
          × IsCut id e bytes c.w c'.w)
full_then-IsCut n id bytes e c l open_now (c', runs, cut) =
    let head = take default_max_frame_size bytes in
    let rest = drop default_max_frame_size bytes in
    (
      c',
      ap (λ o. o >>= write_chunks n id rest e)
            (write_frame-took 0 id head c (omega (arith, l)) open_now)
          ∙ runs,
      subst (λ b. IsCut id e b c.w c'.w) (take-append-drop default_max_frame_size bytes)
          (full-IsCut id e head rest c.w c'.w l cut),
    )

write_chunks-IsCut :
    (n id : ℕ) (bytes : Bytes) (e : Bool) (c : Http2Conn)
    → length bytes ≤ n
    → ((k : ℕ) → c.w.fails k ≡ false)
    → (c' : Http2Conn) × (write_chunks n id bytes e c ≡ ok c') × IsCut id e bytes c.w c'.w
unfolding write_chunks
write_chunks-IsCut zero id bytes e c fuel h = last_frame id e bytes c (omega (arith, fuel)) h
write_chunks-IsCut (suc n) id bytes e c fuel h =
    let head = take default_max_frame_size bytes in
    let rest = drop default_max_frame_size bytes in
    elim (Bool-cases (ltb default_max_frame_size (length bytes))) [
      | inl long ↦
          let l = ltb→lt default_max_frame_size (length bytes) long in
          rw long (
            full_then-IsCut n id bytes e c
              (omega (arith, l, length-take default_max_frame_size bytes)) (h c.w.calls)
              (write_chunks-IsCut n id rest e (record c { w = took (data_frame 0 id head) c.w })
                (omega (arith, l, fuel, length-drop default_max_frame_size bytes)) h))
      | inr short ↦
          rw short (last_frame id e bytes c (ltb→le default_max_frame_size (length bytes) short) h)
    ]

-- On a socket that refuses no write, `WriteData` returns no error, and what it writes are DATA
-- frames of the stream whose payloads, joined, are the data: each but the last is 16,384 bytes
-- long without a flag, and the last one, of at most 16,384 bytes, alone has END_STREAM, if the
-- stream ends. Nothing of the stream changes.
pub write_data-IsCut :
    (bytes : Bytes) (e : Bool) (k : Call)
    → ((n : ℕ) → k.conn.w.fails n ≡ false)
    → (c : Http2Conn) × (write_data bytes e k ≡ ok (record { stream = k.stream; conn = c }))
      × IsCut k.stream.id e bytes k.conn.w c.w
unfolding write_data
write_data-IsCut bytes e k h =
    let (c, runs, cut) =
      write_chunks-IsCut (length bytes) k.stream.id bytes e k.conn (omega arith) h in
    (c, ap (on_call k.stream) runs, cut)
