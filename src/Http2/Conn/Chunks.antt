-- ===== src/Http2/Conn/Chunks.antt =====
-- http2.go: `feed` is independent of how the transport cuts the bytes of a connection into chunks.
use io_mutiplexing.Common.{
  ℕ, zero, suc, ◌≤◌, ◌≡◌, refl, sym, ap, ◌∙◌, arith, true, false, not, ◌++◌, append_assoc, inl, inr,
  none, some, Bytes, ltb, if◌then◌else◌, length, take, drop, Bool-cases, Option-cases,
  length-append, take-append_le, drop-append_le, le→ltb, ltb→le,
}
use io_mutiplexing.Http2.Types.{Outcome, ok, err, bad_preface, ◌>>=◌, Frame, Http2Conn, Setup}
use io_mutiplexing.GoText.Bytes.{equal}
use io_mutiplexing.Http2.Frame.{next_frame}
use io_mutiplexing.Http2.Frame.RoundTrip.{next_frame-append, next_frame-shorter}
use io_mutiplexing.Http2.Conn.{handle_frame, feed_next, feed_frames, feed_loop, feed, http2_preface}
use io_mutiplexing.Http2.Conn.Buffer.{
  with_rx, over_rx, state_of, handle_frame-over_rx, handle_frame-preface_seen,
}
use native.Mathlib.Nat.{le_refl}

module _ (u : Setup) where
  -- One round of the loop at a known frame.
  pub round_of :
      (n : ℕ) (c : Http2Conn) (f : Frame) (rest : Bytes)
      → next_frame c.rx_buf ≡ some (f, rest)
      → feed_frames u (suc n) c ≡ (handle_frame u f c >>= λ c'. feed_frames u n (with_rx rest c'))
  unfolding feed_frames
  round_of n c f rest e = ap (λ o. feed_next u (feed_frames u n) o c) e

  pub last_round : (n : ℕ) (c : Http2Conn) → next_frame c.rx_buf ≡ none → feed_frames u n c ≡ ok c
  unfolding feed_frames
  last_round zero c e = refl
  last_round (suc n) c e = ap (λ o. feed_next u (feed_frames u n) o c) e

  >>=-ext :
      (o : Outcome Http2Conn) (f g : Http2Conn → Outcome Http2Conn)
      → ((c : Http2Conn) → f c ≡ g c)
      → (o >>= f) ≡ (o >>= g)
  >>=-ext (ok c) f g h = h c
  >>=-ext (err e c) f g h = refl

  pub no_frame : (c : Http2Conn) → length c.rx_buf ≤ 0 → next_frame c.rx_buf ≡ none
  no_frame c h = elim (Option-cases (next_frame c.rx_buf)) [
    | inl short ↦ short
    | inr ((f, rest), full) ↦ absurd (omega (arith, next_frame-shorter c.rx_buf full))
  ]

  -- Any number of rounds that the buffer's length does not exceed gives the same result.
  rounds_enough :
      (n m : ℕ) (c : Http2Conn)
      → length c.rx_buf ≤ n
      → length c.rx_buf ≤ m
      → feed_frames u n c ≡ feed_frames u m c
  unfolding feed_frames
  rounds_enough zero m c hn hm = sym (last_round m c (no_frame c hn))
  rounds_enough (suc n) zero c hn hm = last_round (suc n) c (no_frame c hm)
  rounds_enough (suc n) (suc m) c hn hm = elim (Option-cases (next_frame c.rx_buf)) [
    | inl short ↦ last_round (suc n) c short ∙ sym (last_round (suc m) c short)
    | inr ((f, rest), full) ↦
        let shorter = next_frame-shorter c.rx_buf full in
        round_of n c f rest full
        ∙ >>=-ext (handle_frame u f c) _ _
            (λ c'. rounds_enough n m (with_rx rest c') (omega arith) (omega arith))
        ∙ sym (round_of m c f rest full)
  ]

  -- More bytes behind those of a result: the loop goes on, or they stay behind an error.
  abbrev more_loop : Bytes → Outcome Http2Conn → Outcome Http2Conn
  more_loop b (ok c) = feed_loop u (with_rx (c.rx_buf ++ b) c)
  more_loop b (err e c) = err e (with_rx (c.rx_buf ++ b) c)

  after_frame :
      (k : ℕ) (rx rest b : Bytes) (o : Outcome Http2Conn)
      → ((c : Http2Conn)
          → feed_loop u (with_rx (rest ++ b) c) ≡ more_loop b (feed_frames u k (with_rx rest c)))
      → o ≡ over_rx rx o
      → (over_rx (rx ++ b) o >>= λ c. feed_loop u (with_rx (rest ++ b) c))
        ≡ more_loop b (o >>= λ c. feed_frames u k (with_rx rest c))
  after_frame k rx rest b (ok c) ih e = ih c
  after_frame k rx rest b (err x c) ih e = ground arith

  -- The loop on a buffer whose first frame is known.
  pub first_round :
      (rx rest : Bytes) (f : Frame) (c : Http2Conn)
      → next_frame rx ≡ some (f, rest)
      → feed_loop u (with_rx rx c)
        ≡ (over_rx rx (handle_frame u f c) >>= λ d. feed_loop u (with_rx rest d))
  first_round rx rest f c full =
      let shorter = next_frame-shorter rx full in
      let n : ℕ = length rx in
      rounds_enough n (suc n) (with_rx rx c) (le_refl n) (omega arith)
      ∙ round_of n (with_rx rx c) f rest full
      ∙ ap (λ o. o >>= λ d. feed_frames u n (with_rx rest d)) (handle_frame-over_rx u f rx c)
      ∙ >>=-ext (over_rx rx (handle_frame u f c)) _ _ (λ d.
        rounds_enough n (length rest) (with_rx rest d) (omega arith) (le_refl (length rest)))

  loop_more :
      (n : ℕ) (c : Http2Conn) (b : Bytes)
      → length c.rx_buf ≤ n
      → feed_loop u (with_rx (c.rx_buf ++ b) c) ≡ more_loop b (feed_frames u n c)
  loop_more zero c b h = ap (more_loop b) (sym (last_round zero c (no_frame c h)))
  loop_more (suc n) c b h = elim (Option-cases (next_frame c.rx_buf)) [
    | inl short ↦ ap (more_loop b) (sym (last_round (suc n) c short))
    | inr ((f, rest), full) ↦
        let shorter = next_frame-shorter c.rx_buf full in
        first_round (c.rx_buf ++ b) (rest ++ b) f c (next_frame-append c.rx_buf b full)
        ∙ after_frame n c.rx_buf rest b (handle_frame u f c)
            (λ d. loop_more n (with_rx rest d) b (omega arith))
            (handle_frame-over_rx u f c.rx_buf c)
        ∙ ap (more_loop b) (sym (round_of n c f rest full))
  ]

  -- More bytes for a connection whose last call of `feed` had this result.
  abbrev pub feed_more : Bytes → Outcome Http2Conn → Outcome Http2Conn
  feed_more b (ok c) = feed u b c
  feed_more b (err e c) = err e (with_rx (c.rx_buf ++ b) c)

  pub keeps_preface_seen :
      (n : ℕ) (c : Http2Conn) → (state_of (feed_frames u n c)).preface_seen ≡ c.preface_seen
  keeps_preface_seen zero c = unfold feed_frames in refl
  keeps_preface_seen (suc n) c = elim (Option-cases (next_frame c.rx_buf)) [
    | inl short ↦ rw (last_round (suc n) c short)
    | inr ((f, rest), full) ↦
        rw (round_of n c f rest full)
          (go (handle_frame u f c) rest (handle_frame-preface_seen u f c) (keeps_preface_seen n))
  ]
    where
      go :
          (o : Outcome Http2Conn) (rest : Bytes)
          → (state_of o).preface_seen ≡ c.preface_seen
          → ((d : Http2Conn) → (state_of (feed_frames u n d)).preface_seen ≡ d.preface_seen)
          → (state_of (o >>= λ d. feed_frames u n (with_rx rest d))).preface_seen ≡ c.preface_seen
      go (ok d) rest e ih = ih (with_rx rest d) ∙ e
      go (err x d) rest e ih = e

  pub feed_loop-rx :
      (b : Bytes) (c : Http2Conn)
      → c.preface_seen ≡ true
      → feed u b c ≡ feed_loop u (with_rx (c.rx_buf ++ b) c)
  unfolding feed
  feed_loop-rx b c seen = rw seen

  -- Behind the preface `feed` is its loop.
  loop_behind_preface :
      (b : Bytes) (o : Outcome Http2Conn)
      → (state_of o).preface_seen ≡ true
      → more_loop b o ≡ feed_more b o
  unfolding feed
  loop_behind_preface b (ok c) e = rw e
  loop_behind_preface b (err x c) e = refl

  -- `feed` before the preface has been read, on the whole buffer.
  abbrev check_preface : Bytes → Http2Conn → Outcome Http2Conn
  check_preface s c =
      if not (equal (take (length http2_preface) s) http2_preface)
      then err bad_preface (with_rx s c)
      else feed_loop u (record c { rx_buf = drop (length http2_preface) s; preface_seen = true })

  abbrev begin : Bytes → Http2Conn → Outcome Http2Conn
  begin s c = if ltb (length s) (length http2_preface) then ok (with_rx s c) else check_preface s c

  feed-begin :
      (b : Bytes) (c : Http2Conn) → c.preface_seen ≡ false → feed u b c ≡ begin (c.rx_buf ++ b) c
  unfolding feed
  feed-begin b c unseen = rw unseen

  check_preface-append :
      (s b : Bytes) (c : Http2Conn)
      → length http2_preface ≤ length s
      → check_preface (s ++ b) c ≡ feed_more b (check_preface s c)
  check_preface-append s b c fits =
      let n : ℕ = length http2_preface in
      let d : Http2Conn = record c { rx_buf = drop n s; preface_seen = true } in
      rw (take-append_le n s b fits, drop-append_le n s b fits)
        (elim (Bool-cases (equal (take n s) http2_preface)) [
          | inl good ↦ rw good (
              loop_more (length (drop n s)) d b (le_refl (length (drop n s)))
              ∙ loop_behind_preface b (feed_loop u d) (keeps_preface_seen (length (drop n s)) d))
          | inr bad ↦ rw bad
        ])

  begin-append :
      (s b : Bytes) (c : Http2Conn)
      → c.preface_seen ≡ false
      → begin (s ++ b) c ≡ feed_more b (begin s c)
  begin-append s b c unseen = elim (Bool-cases (ltb (length s) (length http2_preface))) [
    | inl short ↦ rw short (sym (feed-begin b (with_rx s c) unseen))
    | inr long ↦
        let fits = ltb→le (length s) (length http2_preface) long in
        rw
          (long, le→ltb (length (s ++ b)) (length http2_preface) (omega (arith, length-append s b)))
          (check_preface-append s b c fits)
  ]

  -- Feeding a connection the bytes `a ++ b` in one call gives the same result, the same state, the
  -- same frames written and the same error, as feeding it `a` and then `b`. If the first call ends
  -- in an error, the bytes `b` only stay in the buffer.
  pub feed-append : (a b : Bytes) (c : Http2Conn) → feed u (a ++ b) c ≡ feed_more b (feed u a c)
  feed-append a b c = elim (Bool-cases c.preface_seen) [
    | inl seen ↦
        feed_loop-rx (a ++ b) c seen
        ∙ ap (λ r. feed_loop u (with_rx r c)) (sym (append_assoc c.rx_buf a b))
        ∙ loop_more (length (c.rx_buf ++ a)) (with_rx (c.rx_buf ++ a) c) b (le_refl _)
        ∙ loop_behind_preface b (feed_loop u (with_rx (c.rx_buf ++ a) c))
            (keeps_preface_seen (length (c.rx_buf ++ a)) (with_rx (c.rx_buf ++ a) c) ∙ seen)
        ∙ ap (feed_more b) (sym (feed_loop-rx a c seen))
    | inr unseen ↦
        feed-begin (a ++ b) c unseen
        ∙ ap (λ r. begin r c) (sym (append_assoc c.rx_buf a b))
        ∙ begin-append (c.rx_buf ++ a) b c unseen
        ∙ ap (feed_more b) (sym (feed-begin a c unseen))
  ]
