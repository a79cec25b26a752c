-- ===== src/EventLoop/Orders/Logs.antt =====
-- server_linux.go: the loop over a log, whose actions may come in another order.
use mathlib.Core.List.{Permᴰ}
use mathlib.Core.List.Permᴰ
use io_mutiplexing.Common.{ℕ, refl, Bool, true, false, [], ◌∷◌, Option, some, none, Bytes}
use io_mutiplexing.EventLoop.{handle_conn, call}
use io_mutiplexing.EventLoop.Trace.{closed, unwatched, Log, logging}
use io_mutiplexing.EventLoop.Orders.{IsIndifferent, shut}

-- An optional callback adds an action or nothing.
connect-perm :
    (c d : Bool) (fd : ℕ) (s t : Log)
    → Permᴰ s t
    → Permᴰ
        (call (logging c d) (logging c d).connect fd s)
        (call (logging c d) (logging c d).connect fd t)
connect-perm true d fd s t p = Permᴰ.cons refl p
connect-perm false d fd s t p = p

ended-perm :
    (c d : Bool) (fd : ℕ) (s t : Log)
    → Permᴰ s t
    → Permᴰ
        (closed fd ∷ call (logging c d) (logging c d).disconnect fd s)
        (closed fd ∷ call (logging c d) (logging c d).disconnect fd t)
ended-perm c true fd s t p = Permᴰ.cons refl (Permᴰ.cons refl p)
ended-perm c false fd s t p = Permᴰ.cons refl p

conn-perm :
    (c d : Bool) (fd : ℕ) (read : Option Bytes) (s t : Log)
    → Permᴰ s t
    → Permᴰ (handle_conn (logging c d) fd read s) (handle_conn (logging c d) fd read t)
unfolding handle_conn
conn-perm c d fd none s t p = ended-perm c d fd _ _ (connect-perm c d fd s t p)
conn-perm c d fd (some []) s t p = ended-perm c d fd _ _ (connect-perm c d fd s t p)
conn-perm c d fd (some (b ∷ bytes)) s t p =
    ended-perm c d fd _ _ (Permᴰ.cons refl (connect-perm c d fd s t p))

-- The actions of two closings change places as pairs.
shut-perm :
    (c d : Bool) (fd j : ℕ) (s : Log)
    → Permᴰ
        (shut (logging c d) j (shut (logging c d) fd s))
        (shut (logging c d) fd (shut (logging c d) j s))
shut-perm c d fd j s =
    Permᴰ.append_right s
      (Permᴰ.append_comm (closed j ∷ unwatched j ∷ []) (closed fd ∷ unwatched fd ∷ []))

-- A log does not depend on the order of its actions.
pub logging-IsIndifferent : (c d : Bool) → IsIndifferent (logging c d) Permᴰ
logging-IsIndifferent c d = record {
  same_refl = Permᴰ.refl;
  same_trans = λ s t u p q. Permᴰ.trans p q;
  conn_same = conn-perm c d;
  accept_same = λ fd s t p. Permᴰ.cons refl p;
  watch_same = λ fd s t p. Permᴰ.cons refl p;
  unwatch_same = λ fd s t p. Permᴰ.cons refl p;
  close_same = λ fd s t p. Permᴰ.cons refl p;
  shut_swap = shut-perm c d;
}
