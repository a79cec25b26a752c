-- ===== src/EventLoop/Sweeps.antt =====
-- The sweep over the deadlines of an event loop: what it keeps and what it closes.
use io_mutiplexing.Common.{
  ℕ, ◌+◌, ◌<◌, ◌≡◌, refl, arith, inl, inr, Bool-cases, false, List, [], ◌∷◌, some, ltb,
  if◌then◌else◌, lt→ltb,
}
use io_mutiplexing.Common.Counts.{one_if}
use io_mutiplexing.Common.Maps.{is_key, HasDistinctKeys, lookup}
use io_mutiplexing.EventLoop.{Env, expire}
use io_mutiplexing.EventLoop.Trace.{Log, opens, closes, IsFaithful}

module _ {σ : Type 0} (e : Env σ) where
  -- What the sweep keeps has been in the map, once.
  pub expire-keys :
      (now : ℕ) (m : List (ℕ × ℕ)) (s : σ) (j : ℕ)
      → is_key j m ≡ false
      → is_key j (expire e now m s).0 ≡ false
  unfolding expire is_key
  expire-keys now [] s j h = refl
  expire-keys now ((fd, deadline) ∷ m) s j h =
      ground
        (arith, expire-keys now m (if ltb deadline now then e.close fd (e.unwatch fd s) else s) j)

  pub expire-distinct :
      (now : ℕ) (m : List (ℕ × ℕ)) (s : σ)
      → HasDistinctKeys m
      → HasDistinctKeys (expire e now m s).0
  unfolding expire
  expire-distinct now [] s h = tt
  expire-distinct now ((fd, deadline) ∷ m) s (fresh, h) = elim (Bool-cases (ltb deadline now)) [
    | inl past ↦ rw past (expire-distinct now m (e.close fd (e.unwatch fd s)) h)
    | inr kept ↦ rw kept (expire-keys now m s fd fresh, expire-distinct now m s h)
  ]

  -- A descriptor whose deadline has passed is not kept.
  pub expire-past :
      (now fd d : ℕ) (m : List (ℕ × ℕ)) (s : σ)
      → HasDistinctKeys m
      → lookup fd m ≡ some d
      → d < now
      → is_key fd (expire e now m s).0 ≡ false
  unfolding expire is_key lookup
  expire-past now fd d [] s h found past = refl
  expire-past now fd d ((k, deadline) ∷ m) s (fresh, h) found past = ground (
    arith,
    lt→ltb d now past,
    expire-past now fd d m (e.close k (e.unwatch k s)) h,
    expire-past now fd d m s h,
    expire-keys now m (e.close k (e.unwatch k s)) fd,
  )

module _ (e : Env Log) (f : IsFaithful e) where
  -- The sweep closes what it does not keep.
  pub expire-counts :
      (now : ℕ) (m : List (ℕ × ℕ)) (s : Log) (j : ℕ)
      → HasDistinctKeys m
      → (opens j (expire e now m s).1 ≡ opens j s)
        × (closes j (expire e now m s).1 + one_if (is_key j (expire e now m s).0)
            ≡ closes j s + one_if (is_key j m))
  unfolding expire is_key
  expire-counts now [] s j h = (refl, refl)
  expire-counts now ((fd, deadline) ∷ m) s j (fresh, h) =
      let past : Log = e.close fd (e.unwatch fd s) in
      ground (
        arith,
        f.close_opens fd j (e.unwatch fd s),
        f.close_closes fd j (e.unwatch fd s),
        f.unwatch_opens fd j s,
        f.unwatch_closes fd j s,
        expire-counts now m past j h,
        expire-counts now m s j h,
        expire-keys e now m past fd fresh,
        expire-keys e now m s fd fresh,
      )
