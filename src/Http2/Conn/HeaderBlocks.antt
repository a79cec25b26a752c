-- ===== src/Http2/Conn/HeaderBlocks.antt =====
-- http2.go: header blocks over several frames, request bodies over several frames, and trailers.
use io_mutiplexing.Common.{
  ℕ, zero, suc, ◌+◌, ◌<◌, ◌≡◌, ◌≢◌, refl, sym, ap, ◌∙◌, arith, Bool, true, false, List, [], ◌∷◌,
  ◌++◌, append-nil, append_assoc, none, some, Bytes, ◌==◌, if◌then◌else◌, inl, inr, Option-cases,
  joined, take_all,
}
use io_mutiplexing.Common.Maps.{
  lookup, insert, delete, lookup-insert, delete-insert, delete-delete, insert-insert, insert-lookup,
}
use io_mutiplexing.Http2.Types.{Outcome, ok, ◌>>=◌, Http2Stream, Http2Conn, Setup, HeaderField}
use io_mutiplexing.Http2.Conn.{
  on_headers, on_continuation, on_data, on_stream_data, add_data, invoke, finish_if, remove_stream,
  finish_headers, open_stream, new_stream, opened, open_decoded,
}
use io_mutiplexing.Http2.Conn.Output.{at, handler_conn, handler_conn-at, invoke-handler_conn}

module _ (u : Setup) (id : ℕ) where
  -- A CONTINUATION frame of the stream whose block is being read, with no flag or END_HEADERS.
  on_continuation-eq :
      (last : Bool) (p : Bytes) (c : Http2Conn)
      → id ≢ 0
      → c.headers_stream ≡ id
      → on_continuation u (if last then 4 else 0) id p c
        ≡ finish_if u last (record c { headers_block = c.headers_block ++ p })
  unfolding on_continuation
  on_continuation-eq true p c h e = ground arith
  on_continuation-eq false p c h e = ground arith

  -- CONTINUATION frames with no flag, one for each part.
  abbrev pub continue_all : List Bytes → Http2Conn → Outcome Http2Conn
  continue_all [] c = ok c
  continue_all (p ∷ ps) c = on_continuation u 0 id p c >>= continue_all ps

  continue_all-block :
      (ps : List Bytes) (c : Http2Conn)
      → id ≢ 0
      → c.headers_stream ≡ id
      → continue_all ps c ≡ ok (record c { headers_block = c.headers_block ++ joined ps })
  continue_all-block [] c h e =
      ap (λ b. ok (record c { headers_block = b })) (sym (append-nil c.headers_block))
  continue_all-block (p ∷ ps) c h e =
      ap (λ o. o >>= continue_all ps) (on_continuation-eq false p c h e)
      ∙ continue_all-block ps (record c { headers_block = c.headers_block ++ p }) h e
      ∙ ap (λ b. ok (record c { headers_block = b })) (append_assoc c.headers_block p (joined ps))

  -- The state in which the block is read; `e` is the END_STREAM flag.
  abbrev pub reading : ℕ → Bytes → Http2Conn → Http2Conn
  reading e block c = record c { headers_stream = id; headers_block = block; headers_end = e == 1 }

  on_headers-eq :
      (e : ℕ) (last : Bool) (block : Bytes) (c : Http2Conn)
      → e < 2
      → id ≢ 0
      → on_headers u (e + (if last then 4 else 0)) id block c ≡ finish_if u last (reading e block c)
  unfolding on_headers
  on_headers-eq zero true block c small h = ground (arith, take_all block)
  on_headers-eq zero false block c small h = ground (arith, take_all block)
  on_headers-eq (suc zero) true block c small h = ground (arith, take_all block)
  on_headers-eq (suc zero) false block c small h = ground (arith, take_all block)
  on_headers-eq (suc (suc e)) last block c small h = absurd (omega arith)

  -- A header block that comes in a HEADERS frame, any number of CONTINUATION frames and a last one
  -- with END_HEADERS has the effect of one HEADERS frame with END_HEADERS that carries the parts
  -- joined: the same streams, the same handler call and the same error. The frames have no padding
  -- and no priority, `e` is 1 with END_STREAM and 0 without, and the stream is not stream 0.
  pub continuation-joined :
      (e : ℕ) (first last : Bytes) (middle : List Bytes) (c : Http2Conn)
      → e < 2
      → id ≢ 0
      → (on_headers u e id first c >>= λ d. continue_all middle d >>= on_continuation u 4 id last)
        ≡ on_headers u (e + 4) id (first ++ (joined middle ++ last)) c
  continuation-joined e first last middle c small h =
      ap (λ o. o >>= λ d. continue_all middle d >>= on_continuation u 4 id last)
        (ap (λ i. on_headers u i id first c) (omega arith) ∙ on_headers-eq e false first c small h)
      ∙ ap (λ o. o >>= on_continuation u 4 id last)
          (continue_all-block middle (reading e first c) h refl)
      ∙ on_continuation-eq true last (reading e (first ++ joined middle) c) h refl
      ∙ ap (λ b. finish_if u true (reading e b c)) (append_assoc first (joined middle) last)
      ∙ sym (on_headers-eq e true (first ++ (joined middle ++ last)) c small h)

  -- `invoke` depends on the map only but for its own stream.
  invoke-streams :
      (st : Http2Stream) (body : Bytes) (c : Http2Conn) (m m' : List (ℕ × Http2Stream))
      → delete st.id m ≡ delete st.id m'
      → invoke u st body (record c { streams = m }) ≡ invoke u st body (record c { streams = m' })
  invoke-streams st body c m m' e =
      let d = handler_conn u u.handler st body c in
      invoke-handler_conn u st body (record c { streams = m })
      ∙ ap (remove_stream st.id) (handler_conn-at u u.handler st body (record c { streams = m }) c)
      ∙ ap (λ s. record (at c d) { streams = s }) e
      ∙ ap (remove_stream st.id)
          (sym (handler_conn-at u u.handler st body (record c { streams = m' }) c))
      ∙ sym (invoke-handler_conn u st body (record c { streams = m' }))

  open_stream-forgets :
      (fields : List HeaderField) (block : Bytes) (c : Http2Conn)
      → open_stream u fields (reading 1 block c)
        ≡ open_stream u fields (reading 1 block (remove_stream id c))
  unfolding open_stream
  open_stream-forgets fields block c =
      let st = new_stream fields (reading 1 block c) in
      invoke-streams st [] (opened fields (reading 1 block c)) (insert id st c.streams)
        (insert id st (delete id c.streams))
        (delete-insert id st c.streams
          ∙ sym (delete-delete id c.streams)
          ∙ sym (delete-insert id st (delete id c.streams)))

  -- A HEADERS frame with END_HEADERS and END_STREAM, whose block decodes, has the same effect
  -- whether or not its stream is open: the headers and the body that an open stream has received
  -- are dropped, and the handler is called with the new fields and no body. The stream is not
  -- stream 0.
  pub trailers-forget :
      (block : Bytes) (c : Http2Conn) {fields : List HeaderField}
      → id ≢ 0
      → u.hpack.decode_full c.dec block ≡ some fields
      → on_headers u 5 id block c ≡ on_headers u 5 id block (remove_stream id c)
  unfolding finish_headers
  trailers-forget block c {fields} h good =
      let c' = record c { dec = c.dec ++ block ∷ [] } in
      on_headers-eq 1 true block c (omega arith) h
      ∙ ap (λ o. open_decoded u o (reading 1 block c')) good
      ∙ ap (λ d. ok d) (open_stream-forgets fields block c')
      ∙ sym (ap (λ o. open_decoded u o (reading 1 block (remove_stream id c'))) good)
      ∙ sym (on_headers-eq 1 true block (remove_stream id c) (omega arith) h)

  -- The stream of this id with more bytes behind its body; any other map stays as it is.
  abbrev grown : Http2Stream → Bytes → Http2Conn → Http2Conn
  grown st p c = record c { streams = insert id (record st { body = st.body ++ p }) c.streams }

  on_data-open :
      (p : Bytes) (c : Http2Conn) (st : Http2Stream)
      → lookup id c.streams ≡ some st
      → on_data u 0 id p c ≡ ok (grown st p c)
  unfolding on_data on_stream_data add_data
  on_data-open p c st e = rw e (ground (arith, take_all p))

  on_data-last :
      (p : Bytes) (c : Http2Conn) (st : Http2Stream)
      → lookup id c.streams ≡ some st
      → on_data u 1 id p c
        ≡ ok (invoke u (record st { body = st.body ++ p }) (st.body ++ p) (grown st p c))
  unfolding on_data on_stream_data add_data
  on_data-last p c st e = rw e (ground (arith, take_all p))

  -- DATA frames with no flag, one for each part.
  abbrev pub data_all : List Bytes → Http2Conn → Outcome Http2Conn
  data_all [] c = ok c
  data_all (p ∷ ps) c = on_data u 0 id p c >>= data_all ps

  data_all-open :
      (ps : List Bytes) (c : Http2Conn) (st : Http2Stream)
      → lookup id c.streams ≡ some st
      → data_all ps c ≡ ok (grown st (joined ps) c)
  data_all-open [] c st e =
      ap (λ m. ok (record c { streams = m }))
        (sym (insert-lookup id st c.streams e)
          ∙ ap (λ b. insert id (record st { body = b }) c.streams) (sym (append-nil st.body)))
  data_all-open (p ∷ ps) c st e =
      let st' = record st { body = st.body ++ p } in
      ap (λ o. o >>= data_all ps) (on_data-open p c st e)
      ∙ data_all-open ps (grown st p c) st' (ground (arith, lookup-insert id id st' c.streams))
      ∙ ap (λ m. ok (record c { streams = m }))
          (insert-insert id _ st' c.streams
            ∙ ap (λ b. insert id (record st { body = b }) c.streams)
                (append_assoc st.body p (joined ps)))

  data_all-closed :
      (ps : List Bytes) (c : Http2Conn) → lookup id c.streams ≡ none → data_all ps c ≡ ok c
  unfolding on_data
  data_all-closed [] c e = refl
  data_all-closed (p ∷ ps) c e = rw e (data_all-closed ps c e)

  -- A body that comes in any number of unpadded DATA frames, the last one with END_STREAM, has the
  -- effect of one DATA frame with END_STREAM that carries the parts joined: the handler is called
  -- once, with the whole body. If the stream is not open, neither has any effect.
  pub body-joined :
      (parts : List Bytes) (last : Bytes) (c : Http2Conn)
      → (data_all parts c >>= on_data u 1 id last) ≡ on_data u 1 id (joined parts ++ last) c
  body-joined parts last c = elim (Option-cases (lookup id c.streams)) [
    | inl closed ↦
        ap (λ o. o >>= on_data u 1 id last) (data_all-closed parts c closed)
        ∙ (unfold on_data in rw closed)
    | inr (st, open_) ↦
        let st' = record st { body = st.body ++ joined parts } in
        ap (λ o. o >>= on_data u 1 id last) (data_all-open parts c st open_)
        ∙ on_data-last last (grown st (joined parts) c) st'
            (ground (arith, lookup-insert id id st' c.streams))
        ∙ ap
            (λ m. ok (
              invoke u (record st { body = st'.body ++ last }) (st'.body ++ last)
                (record c { streams = m })))
            (insert-insert id _ st' c.streams)
        ∙ ap
            (λ b. ok (
              invoke u (record st { body = b }) b
                (record c { streams = insert id (record st { body = b }) c.streams })))
            (append_assoc st.body (joined parts) last)
        ∙ sym (on_data-last (joined parts ++ last) c st open_)
  ]
