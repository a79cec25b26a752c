-- ===== src/Http2/Conn/Waiting.antt =====
-- http2.go: what `feed` leaves in the buffer of a connection.
use mathlib.Core.Path.{subst}
use native.Mathlib.Nat.{le_refl}
use io_mutiplexing.Common.{
  ℕ, zero, suc, take, ◌≤◌, ◌<◌, ◌≡◌, refl, sym, arith, true, false, ◌++◌, ◌⊎◌, inl, inr, Bytes,
  Option-cases, length, drop,
}
use io_mutiplexing.Http2.Types.{Outcome, ok, err, bad_preface, ◌>>=◌, Frame, Http2Conn, Setup}
use io_mutiplexing.Http2.Frame.{next_frame}
use io_mutiplexing.Http2.Frame.Framing.{Framed, IsPart, next_frame-Framed, next_frame-IsPart}
use io_mutiplexing.GoText.Bytes.{equal, equal_sound}
use io_mutiplexing.Http2.Frame.RoundTrip.{next_frame-shorter}
use io_mutiplexing.Http2.Conn.{handle_frame, feed_frames, feed_loop, feed, http2_preface}
use io_mutiplexing.Http2.Conn.Buffer.{with_rx}
use io_mutiplexing.Http2.Conn.Chunks.{round_of, last_round, no_frame}

module _ (u : Setup) where
  -- The rounds of the loop that end without an error: each takes the frame that the buffer begins
  -- with, which `handleFrame` handles, up to a part of a frame.
  pub data Rounds : Http2Conn → Http2Conn → Type 0 where
    stops : (c : Http2Conn) → IsPart c.rx_buf → Rounds c c
    takes :
        (c d e : Http2Conn) (f : Frame) (rest : Bytes)
        → Framed c.rx_buf f rest
        → handle_frame u f c ≡ ok d
        → Rounds (record d { rx_buf = rest }) e
        → Rounds c e

  -- An outcome without an error is behind such rounds.
  abbrev IsBehind : Http2Conn → Outcome Http2Conn → Type 0
  IsBehind c (ok d) = Rounds c d
  IsBehind c (err e d) = Unit

  >>=-IsBehind :
      (c : Http2Conn) (f : Frame) (rest : Bytes) (o : Outcome Http2Conn)
      (loop : Http2Conn → Outcome Http2Conn)
      → Framed c.rx_buf f rest
      → handle_frame u f c ≡ o
      → ((d : Http2Conn) → IsBehind (with_rx rest d) (loop (with_rx rest d)))
      → IsBehind c (o >>= λ d. loop (with_rx rest d))
  >>=-IsBehind c f rest (err e d) loop whole done h = tt
  >>=-IsBehind c f rest (ok d) loop whole done h = go (loop (with_rx rest d)) (h d)
    where
      go : (o : Outcome Http2Conn) → IsBehind (with_rx rest d) o → IsBehind c o
      go (ok e) rounds = takes c d e f rest whole done rounds
      go (err e d') rounds = tt

  feed_frames-IsBehind :
      (n : ℕ) (c : Http2Conn) → length c.rx_buf ≤ n → IsBehind c (feed_frames u n c)
  unfolding feed_frames
  feed_frames-IsBehind zero c l = stops c (next_frame-IsPart c.rx_buf (no_frame u c l))
  feed_frames-IsBehind (suc n) c l = elim (Option-cases (next_frame c.rx_buf)) [
    | inl short ↦
        subst (IsBehind c) (sym (last_round u (suc n) c short))
          (stops c (next_frame-IsPart c.rx_buf short))
    | inr ((f, rest), full) ↦
        let shorter = next_frame-shorter c.rx_buf full in
        subst (IsBehind c) (sym (round_of u n c f rest full)) (
          >>=-IsBehind c f rest (handle_frame u f c) (feed_frames u n)
            (next_frame-Framed c.rx_buf f rest full) refl
            (λ d. feed_frames-IsBehind n (with_rx rest d) (omega arith)))
  ]

  -- What a call of `feed` without an error comes to: the connection still waits for the preface, and
  -- has kept the bytes; or the bytes that it had, without the preface if that has just come, have
  -- been taken in rounds.
  abbrev Fed : Bytes → Http2Conn → Outcome Http2Conn → Type 0
  Fed rx c (err e d) = Unit
  Fed rx c (ok d) =
      ((c.preface_seen ≡ false) × (length rx < 24) × (d ≡ with_rx rx c))
      ⊎ (((c.preface_seen ≡ true) × Rounds (with_rx rx c) d)
          ⊎ ((c.preface_seen ≡ false)
              × (take 24 rx ≡ http2_preface)
              × Rounds (record c { rx_buf = drop 24 rx; preface_seen = true }) d))

  Fed-Rounds :
      (rx : Bytes) (c s : Http2Conn)
      → ((d : Http2Conn) → Rounds s d → Fed rx c (ok d))
      → Fed rx c (feed_loop u s)
  Fed-Rounds rx c s h =
      go (feed_loop u s) (feed_frames-IsBehind (length s.rx_buf) s (le_refl (length s.rx_buf)))
    where
      go : (o : Outcome Http2Conn) → IsBehind s o → Fed rx c o
      go (ok d) rounds = h d rounds
      go (err e d) rounds = tt

  feed-branches :
      (bytes : Bytes) (c : Http2Conn)
      → let rx = c.rx_buf ++ bytes in
        ((c.preface_seen ≡ false) × (length rx < 24) × (feed u bytes c ≡ ok (with_rx rx c)))
        ⊎ (((c.preface_seen ≡ true) × (feed u bytes c ≡ feed_loop u (with_rx rx c)))
            ⊎ ((feed u bytes c ≡ err bad_preface (with_rx rx c))
                ⊎ ((c.preface_seen ≡ false)
                    × (equal (take 24 rx) http2_preface ≡ true)
                    × (feed u bytes c
                        ≡ feed_loop u (record c { rx_buf = drop 24 rx; preface_seen = true })))))
  unfolding feed
  feed-branches bytes c = ground arith

  feed-Fed : (bytes : Bytes) (c : Http2Conn) → Fed (c.rx_buf ++ bytes) c (feed u bytes c)
  feed-Fed bytes c =
      let rx = c.rx_buf ++ bytes in
      elim (feed-branches bytes c) [
        | inl (unseen, short, e) ↦ subst (Fed rx c) (sym e) (inl (unseen, short, refl))
        | inr (inl (seen, e)) ↦
            subst (Fed rx c) (sym e)
              (Fed-Rounds rx c (with_rx rx c) (λ d rounds. inr (inl (seen, rounds))))
        | inr (inr (inl e)) ↦ subst (Fed rx c) (sym e) tt
        | inr (inr (inr (unseen, same, e))) ↦ subst (Fed rx c) (sym e) (
            Fed-Rounds rx c (record c { rx_buf = drop 24 rx; preface_seen = true })
              (λ d rounds. inr (inr (unseen, equal_sound (take 24 rx) http2_preface same, rounds))))
      ]

-- A call of `feed` that returns no error has handled every whole frame that it had. Either the
-- preface has not come, and the bytes, fewer than 24, are kept; or, behind the preface, frames have
-- been taken off the front of the buffer, each handled by `handleFrame` in its turn, until what is
-- left is a part of a frame.
pub feed-Rounds :
    (u : Setup) (bytes : Bytes) (c d : Http2Conn)
    → feed u bytes c ≡ ok d
    → let rx = c.rx_buf ++ bytes in
      ((c.preface_seen ≡ false) × (length rx < 24) × (d ≡ with_rx rx c))
      ⊎ (((c.preface_seen ≡ true) × Rounds u (with_rx rx c) d)
          ⊎ ((c.preface_seen ≡ false)
              × (take 24 rx ≡ http2_preface)
              × Rounds u (record c { rx_buf = drop 24 rx; preface_seen = true }) d))
feed-Rounds u bytes c d e = subst (Fed u (c.rx_buf ++ bytes) c) e (feed-Fed u bytes c)
