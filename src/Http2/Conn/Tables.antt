-- ===== src/Http2/Conn/Tables.antt =====
-- http2.go: what a frame does to the map of streams.
use mathlib.Core.Path.{subst}
use io_mutiplexing.Common.{
  ℕ, ◌≡◌, refl, sym, ap, ◌∙◌, arith, Bool, true, false, List, [], ◌++◌, ◌⊎◌, inl, inr, Option, none,
  some, Bytes, ◌==◌, if◌then◌else◌,
}
use io_mutiplexing.Common.Maps.{lookup, insert, delete}
use io_mutiplexing.Http2.Types.{Outcome, ok, HeaderField, Http2Stream, Http2Conn, Setup}
use io_mutiplexing.Http2.Frame.{has_flag, flag_end_headers, flag_end_stream}
use io_mutiplexing.Http2.Conn.{
  invoke, open_stream, open_decoded, finish_headers, finish_if, on_headers, on_continuation,
  on_known, on_data, on_stream_data, add_data, carried, data_start, padding, begin_block,
  new_stream, opened,
}
use io_mutiplexing.Http2.Conn.Buffer.{state_of}
use io_mutiplexing.Http2.Conn.Output.{handler_conn-at, invoke-handler_conn}
use io_mutiplexing.Http2.Conn.Rows.{
  HasTable, Rows-lookup, insert-IsTable, delete-IsTable, IsRow, IsTable,
}

module _ (u : Setup) where
  -- The handler leaves the map alone, and `invoke` takes its stream out.
  invoke-streams :
      (st : Http2Stream) (body : Bytes) (c : Http2Conn)
      → (invoke u st body c).streams ≡ delete st.id c.streams
  invoke-streams st body c =
      ap (λ d. d.streams) (invoke-handler_conn u st body c)
      ∙ ap (λ d. delete st.id d.streams) (handler_conn-at u u.handler st body c c)

  invoke-IsTable :
      (st : Http2Stream) (body : Bytes) (c : Http2Conn)
      → IsTable c.streams
      → IsTable (invoke u st body c).streams
  invoke-IsTable st body c t =
      subst IsTable (sym (invoke-streams st body c)) (delete-IsTable st.id c.streams t)

  open_stream-IsTable :
      (fields : List HeaderField) (c : Http2Conn)
      → (c.headers_stream == 0) ≡ false
      → IsTable c.streams
      → IsTable (open_stream u fields c).streams
  unfolding open_stream
  open_stream-IsTable fields c pos_id t = go c.headers_end
    where
      opened-IsTable : IsTable (opened fields c).streams
      opened-IsTable =
          insert-IsTable c.headers_stream (new_stream fields c) c.streams (refl, pos_id, refl) t

      go :
          (b : Bool)
          → IsTable
              (if b
                then invoke u (new_stream fields c) [] (opened fields c)
                else opened fields c).streams
      go true = invoke-IsTable (new_stream fields c) [] (opened fields c) opened-IsTable
      go false = opened-IsTable

  open_decoded-HasTable :
      (o : Option (List HeaderField)) (c : Http2Conn)
      → (c.headers_stream == 0) ≡ false
      → IsTable c.streams
      → HasTable (open_decoded u o c)
  open_decoded-HasTable none c pos_id t = t
  open_decoded-HasTable (some fields) c pos_id t = open_stream-IsTable fields c pos_id t

  finish_if-HasTable :
      (b : Bool) (c : Http2Conn)
      → (c.headers_stream == 0) ≡ false
      → IsTable c.streams
      → HasTable (finish_if u b c)
  unfolding finish_headers
  finish_if-HasTable true c pos_id t =
      open_decoded-HasTable (u.hpack.decode_full c.dec c.headers_block) _ pos_id t
  finish_if-HasTable false c pos_id t = t

  -- An outcome that leaves the map, or that is one with a good map.
  cases-HasTable :
      (o : Outcome Http2Conn) (c : Http2Conn) (A : Type 0) (o' : Outcome Http2Conn)
      → IsTable c.streams
      → ((state_of o).streams ≡ c.streams) ⊎ (A × (o ≡ o'))
      → (A → HasTable o')
      → HasTable o
  cases-HasTable o c A o' t (inl same) h = subst IsTable (sym same) t
  cases-HasTable o c A o' t (inr (a, e)) h = subst HasTable (sym e) (h a)

  pub on_headers-HasTable :
      (flags id : ℕ) (payload : Bytes) (c : Http2Conn)
      → IsTable c.streams
      → HasTable (on_headers u flags id payload c)
  unfolding on_headers
  on_headers-HasTable flags id payload c t =
      let block = begin_block flags id payload c in
      cases-HasTable (on_headers u flags id payload c) c ((id == 0) ≡ false)
        (finish_if u (has_flag flags flag_end_headers) block) t (ground arith)
        (λ pos_id. finish_if-HasTable (has_flag flags flag_end_headers) block pos_id t)

  pub on_continuation-HasTable :
      (flags id : ℕ) (payload : Bytes) (c : Http2Conn)
      → IsTable c.streams
      → HasTable (on_continuation u flags id payload c)
  unfolding on_continuation
  on_continuation-HasTable flags id payload c t =
      let block = record c { headers_block = c.headers_block ++ payload } in
      cases-HasTable (on_continuation u flags id payload c) c ((c.headers_stream == 0) ≡ false)
        (finish_if u (has_flag flags flag_end_headers) block) t (ground arith)
        (λ pos_id. finish_if-HasTable (has_flag flags flag_end_headers) block pos_id t)

  add_data-IsTable :
      (flags id : ℕ) (part : Bytes) (st : Http2Stream) (c : Http2Conn)
      → IsRow id st
      → IsTable c.streams
      → IsTable (add_data u flags id part st c).streams
  unfolding add_data
  add_data-IsTable flags id part st c row t = go (has_flag flags flag_end_stream)
    where
      st' : Http2Stream
      st' = record st { body = st.body ++ part }

      c' : Http2Conn
      c' = record c { streams = insert id st' c.streams }

      grown : IsTable c'.streams
      grown = insert-IsTable id st' c.streams row t

      go : (b : Bool) → IsTable (if b then invoke u st' st'.body c' else c').streams
      go true = invoke-IsTable st' st'.body c' grown
      go false = grown

  on_known-HasTable :
      (flags id : ℕ) (payload : Bytes) (o : Option Http2Stream) (c : Http2Conn)
      → lookup id c.streams ≡ o
      → IsTable c.streams
      → HasTable (on_known u flags id payload o c)
  unfolding on_stream_data
  on_known-HasTable flags id payload none c e t = t
  on_known-HasTable flags id payload (some st) c e t =
      let part = carried (data_start flags) (padding flags payload) payload in
      cases-HasTable (on_known u flags id payload (some st) c) c Unit
        (ok (add_data u flags id part st c)) t (ground arith)
        (λ _. add_data-IsTable flags id part st c (Rows-lookup id st c.streams t.rows e) t)

  pub on_data-HasTable :
      (flags id : ℕ) (payload : Bytes) (c : Http2Conn)
      → IsTable c.streams
      → HasTable (on_data u flags id payload c)
  unfolding on_data
  on_data-HasTable flags id payload c t =
      on_known-HasTable flags id payload (lookup id c.streams) c refl t
