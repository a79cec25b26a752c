-- ===== src/HttpServer/Tls/Threads.antt =====
-- httpserver.go: each goroutine of the TLS server does what `handleTLSConn` does on its own, in
-- whatever order the listener and the goroutines are woken.
use io_mutiplexing.Common.{
  ℕ, ◌≡◌, refl, ◌∙◌, sym, ap, arith, inl, inr, Bool, true, false, Bool-cases, List, [], ◌∷◌, ◌++◌,
  some, Bytes, codes, ◌==◌, if◌then◌else◌, length, append-nil,
}
use mathlib.Core.Option
use io_mutiplexing.Common.Places.{
  get_elem?, get_elem?-modify, get_elem?-append_length, get_elem?-append_some,
}
use io_mutiplexing.GoText.Bytes.{equal}
use io_mutiplexing.Http2.Types.{Outcome, ok, err, Http2Conn, Socket}
use io_mutiplexing.Http2.Conn.{new_http2_conn, send_initial_settings, feed}
use io_mutiplexing.HttpServer.{
  HttpServer, Progress, no_head, no_body, refused, ready, read_request, serve1, disconnect,
}
use io_mutiplexing.HttpServer.Tls.{
  Read, Ending, returned, waiting, next_h2, serve_h2_loop, started, serve_h2_over_conn, next_h1,
  serve_h1_loop, serve_h1_over_conn, h2_socket, handle_tls_conn,
}
use io_mutiplexing.HttpServer.Tls.Server.{
  Thread, fresh, in_h2, in_h1, closed, Wake, shaken, got, begin_h2, after_feed, after_bytes,
  on_h1_read, step, Listening, start, Turn, accepted, accept_failed, woken, take_turn, take_turns,
}

-- The wakes of one goroutine in a schedule.
abbrev pub own : ℕ → List Turn → List Wake
own i [] = []
own i (woken j e ∷ ts) = if j == i then e ∷ own i ts else own i ts
own i (accepted w ∷ ts) = own i ts
own i (accept_failed ∷ ts) = own i ts

abbrev pub gots : List Read → List Wake
gots [] = []
gots (r ∷ rs) = got r ∷ gots rs

-- A goroutine as its connection shows it: whether it has returned, and the socket.
abbrev pub view : Thread → Ending Socket
view (fresh w) = waiting w
view (in_h2 c) = waiting c.w
view (in_h1 buf w) = waiting w
view (closed w) = returned w

-- With the deferred `Close`.
abbrev pub close_ending : Ending Socket → Ending Socket
close_ending (returned w) = returned (disconnect w)
close_ending (waiting w) = waiting w

module _ (srv : HttpServer) where
  -- A goroutine alone.
  unfoldable pub steps : Thread → List Wake → Thread
  unfolding step
  steps t [] = t
  steps t (e ∷ es) = steps (step srv t e) es

  take_turn-thread :
      (turn : Turn) (l : Listening) (i : ℕ) (t : Thread)
      → get_elem? l.threads i ≡ some t
      → get_elem? (take_turn srv turn l).threads i ≡ some (steps t (own i (turn ∷ [])))
  unfolding take_turn steps
  take_turn-thread (accepted w) l i t e = go l.accepting
    where
      go :
          (b : Bool)
          → get_elem? (if b then record l { threads = l.threads ++ fresh w ∷ [] } else l).threads i
            ≡ some t
      go true = get_elem?-append_some l.threads (fresh w ∷ []) i t e
      go false = e
  take_turn-thread accept_failed l i t e = e
  take_turn-thread (woken j wake) l i t e =
      ground (arith, e, get_elem?-modify j i (λ t. step srv t wake) l.threads)

  steps-own :
      (turn : Turn) (ts : List Turn) (i : ℕ) (t : Thread)
      → steps t (own i (turn ∷ ts)) ≡ steps (steps t (own i (turn ∷ []))) (own i ts)
  unfolding steps
  steps-own (accepted w) ts i t = refl
  steps-own accept_failed ts i t = refl
  steps-own (woken j e) ts i t = elim (Bool-cases (j == i)) [
    | inl mine ↦ rw mine refl
    | inr other ↦ rw other refl
  ]

  -- A goroutine is moved by its own wakes only.
  take_turns-thread :
      (ts : List Turn) (l : Listening) (i : ℕ) (t : Thread)
      → get_elem? l.threads i ≡ some t
      → get_elem? (take_turns srv ts l).threads i ≡ some (steps t (own i ts))
  unfolding take_turns steps
  take_turns-thread [] l i t e = e
  take_turns-thread (turn ∷ ts) l i t e =
      take_turns-thread ts (take_turn srv turn l) i (steps t (own i (turn ∷ [])))
        (take_turn-thread turn l i t e)
      ∙ ap some (sym (steps-own turn ts i t))

  take_turns-append :
      (ts us : List Turn) (l : Listening)
      → take_turns srv (ts ++ us) l ≡ take_turns srv us (take_turns srv ts l)
  unfolding take_turns
  take_turns-append [] us l = refl
  take_turns-append (t ∷ ts) us l = take_turns-append ts us (take_turn srv t l)

  steps-closed : (es : List Wake) (w : Socket) → steps (closed w) es ≡ closed w
  unfolding steps
  steps-closed [] w = refl
  steps-closed (e ∷ es) w = steps-closed es w

  after_feed-steps :
      (rs : List Read) (failed : Bool) (o : Outcome Http2Conn)
      → ((d : Http2Conn)
          → view (steps (in_h2 d) (gots rs))
            ≡ close_ending (h2_socket srv (serve_h2_loop srv rs d)))
      → view (steps (after_feed srv failed o) (gots rs))
        ≡ close_ending (h2_socket srv (next_h2 srv (serve_h2_loop srv rs) failed o))
  after_feed-steps rs failed (err x d) ih = ap view (steps-closed (gots rs) (disconnect d.w))
  after_feed-steps rs true (ok d) ih = ap view (steps-closed (gots rs) (disconnect d.w))
  after_feed-steps rs false (ok d) ih = ih d

  h2-steps :
      (rs : List Read) (c : Http2Conn)
      → view (steps (in_h2 c) (gots rs)) ≡ close_ending (h2_socket srv (serve_h2_loop srv rs c))
  unfolding steps serve_h2_loop
  h2-steps [] c = refl
  h2-steps (r ∷ rs) c =
      after_feed-steps rs r.failed (if length r.bytes == 0 then ok c else feed srv.setup r.bytes c)
        (h2-steps rs)

  after_bytes-steps :
      (rs : List Read) (failed : Bool) (buf : Bytes) (w : Socket) (p : Progress)
      → view (steps (in_h1 buf w) (gots rs)) ≡ close_ending (serve_h1_loop srv rs buf w)
      → view (steps (after_bytes srv failed buf w p) (gots rs))
        ≡ close_ending (next_h1 srv (serve_h1_loop srv rs buf w) failed w p)
  after_bytes-steps rs true buf w no_head ih = ap view (steps-closed (gots rs) (disconnect w))
  after_bytes-steps rs false buf w no_head ih = ih
  after_bytes-steps rs failed buf w no_body ih = ih
  after_bytes-steps rs failed buf w refused ih = ap view (steps-closed (gots rs) (disconnect w))
  after_bytes-steps rs failed buf w (ready req) ih =
      ap view (steps-closed (gots rs) (disconnect (serve1 srv.h1 req w)))

  on_h1_read-steps :
      (rs : List Read) (bytes : Bytes) (failed : Bool) (buf : Bytes) (w : Socket)
      → ((b : Bytes) → view (steps (in_h1 b w) (gots rs)) ≡ close_ending (serve_h1_loop srv rs b w))
      → let r : Read = record { bytes = bytes; failed = failed } in
        view (steps (on_h1_read srv r buf w) (gots rs))
        ≡ close_ending (serve_h1_loop srv (r ∷ rs) buf w)
  unfolding serve_h1_loop
  on_h1_read-steps rs [] true buf w ih = ap view (steps-closed (gots rs) (disconnect w))
  on_h1_read-steps rs [] false buf w ih =
      ih buf ∙ ap (λ b. close_ending (serve_h1_loop srv rs b w)) (sym (append-nil buf))
  on_h1_read-steps rs (x ∷ xs) failed buf w ih =
      let b = buf ++ x ∷ xs in
      let some_bytes : (length (x ∷ xs) == 0) ≡ false = ground arith in
      rw some_bytes (after_bytes-steps rs failed b w (read_request srv.unicode b) (ih b))

  h1-steps :
      (rs : List Read) (buf : Bytes) (w : Socket)
      → view (steps (in_h1 buf w) (gots rs)) ≡ close_ending (serve_h1_loop srv rs buf w)
  unfolding steps serve_h1_loop
  h1-steps [] buf w = refl
  h1-steps (r ∷ rs) buf w = on_h1_read-steps rs r.bytes r.failed buf w (λ b. h1-steps rs b w)

  begin_h2-steps :
      (rs : List Read) (o : Outcome Http2Conn)
      → view (steps (begin_h2 srv o) (gots rs)) ≡ close_ending (h2_socket srv (started srv rs o))
  begin_h2-steps rs (ok c) = h2-steps rs c
  begin_h2-steps rs (err _ c) = ap view (steps-closed (gots rs) (disconnect c.w))

  by_proto-steps :
      (h2 : Bool) (rs : List Read) (w : Socket)
      → view (
          steps
            (if h2 then begin_h2 srv (send_initial_settings (new_http2_conn w)) else in_h1 [] w)
            (gots rs))
        ≡ close_ending (
            if h2 then h2_socket srv (serve_h2_over_conn srv rs w) else serve_h1_over_conn srv rs w)
  unfolding serve_h2_over_conn serve_h1_over_conn
  by_proto-steps true rs w = begin_h2-steps rs (send_initial_settings (new_http2_conn w))
  by_proto-steps false rs w = h1-steps rs [] w

  -- A goroutine alone is `handleTLSConn` with its deferred `Close`.
  steps-handle_tls_conn :
      (good : Bool) (proto : Bytes) (rs : List Read) (w : Socket)
      → view (steps (fresh w) (shaken good proto ∷ gots rs))
        ≡ close_ending (handle_tls_conn srv good proto rs w)
  unfolding steps handle_tls_conn
  steps-handle_tls_conn false proto rs w = ap view (steps-closed (gots rs) (disconnect w))
  steps-handle_tls_conn true proto rs w = by_proto-steps (equal proto (codes "h2")) rs w

  -- The goroutine of the connection that has just been accepted is the last one.
  last_thread :
      (b : Bool) (w : Socket) (l : Listening)
      → b ≡ true
      → get_elem?
          (if b then record l { threads = l.threads ++ fresh w ∷ [] } else l).threads
          (length l.threads)
        ≡ some (fresh w)
  last_thread true w l e = get_elem?-append_length l.threads (fresh w)
  last_thread false w l e = cc

-- Whatever the listener and the other goroutines do, and in whatever order: when the listener is
-- open and accepts a connection, whose goroutine is then woken by the end of the handshake and by
-- reads, that goroutine has done to its connection what `handleTLSConn` does on its own with these
-- reads, and it has closed it, once, exactly when that has returned.
pub take_turns-handle_tls_conn :
    (srv : HttpServer) (before after : List Turn) (w : Socket) (good : Bool) (proto : Bytes)
    (rs : List Read)
    → (take_turns srv before start).accepting ≡ true
    → own (length (take_turns srv before start).threads) after ≡ shaken good proto ∷ gots rs
    → Option.map view (
        get_elem?
          (take_turns srv (before ++ accepted w ∷ after) start).threads
          (length (take_turns srv before start).threads))
      ≡ some (close_ending (handle_tls_conn srv good proto rs w))
unfolding take_turns take_turn
take_turns-handle_tls_conn srv before after w good proto rs accepting mine =
    let l = take_turns srv before start in
    let i : ℕ = length l.threads in
    ap (λ s. Option.map view (get_elem? s.threads i))
      (take_turns-append srv before (accepted w ∷ after) start)
    ∙ ap (Option.map view) (
        take_turns-thread srv after (take_turn srv (accepted w) l) i (fresh w)
          (last_thread srv l.accepting w l accepting))
    ∙ ap (λ es. some (view (steps srv (fresh w) es))) mine
    ∙ ap some (steps-handle_tls_conn srv good proto rs w)
