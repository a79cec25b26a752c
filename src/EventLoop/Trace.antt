-- ===== src/EventLoop/Trace.antt =====
-- The event loop of server_linux.go over a log: what it did, newest first.
use io_mutiplexing.Common.{
  ℕ, ◌+◌, Bool, true, false, List, [], ◌∷◌, Option, none, some, Bytes, ◌==◌, if◌then◌else◌, ◌≡◌,
  refl, ap,
}
use io_mutiplexing.EventLoop.{Env, call}
use io_mutiplexing.Common.Counts.{one_if}

pub data Action : Type 0 where
  accepted watched unwatched connected disconnected closed : ℕ → Action
  delivered : ℕ → Bytes → Action

abbrev pub Log : Type 0
Log = List Action

abbrev pub optional : Bool → (ℕ → Log → Log) → Option (ℕ → Log → Log)
optional true f = some f
optional false f = none

-- The flags say whether the `Connect` and the `Disconnect` callback are there.
abbrev pub logging : Bool → Bool → Env Log
logging has_connect has_disconnect = record {
  connect = optional has_connect (λ fd s. connected fd ∷ s);
  deliver = λ fd bytes s. delivered fd bytes ∷ s;
  disconnect = optional has_disconnect (λ fd s. disconnected fd ∷ s);
  accept = λ fd s. accepted fd ∷ s;
  watch = λ fd s. watched fd ∷ s;
  unwatch = λ fd s. unwatched fd ∷ s;
  close = λ fd s. closed fd ∷ s;
}

-- How often a descriptor was accepted, and how often it was closed.
abbrev pub opens : ℕ → Log → ℕ
opens fd [] = 0
opens fd (accepted f ∷ s) = (if f == fd then 1 else 0) + opens fd s
opens fd (_ ∷ s) = opens fd s

abbrev pub closes : ℕ → Log → ℕ
closes fd [] = 0
closes fd (closed f ∷ s) = (if f == fd then 1 else 0) + closes fd s
closes fd (_ ∷ s) = closes fd s

-- An environment whose log has the accepts and the closes of the loop, and whose callbacks and
-- registrations neither accept nor close.
pub record IsFaithful (e : Env Log) : Type 0 where
  pub accept_opens : (fd j : ℕ) (s : Log) → opens j (e.accept fd s) ≡ one_if (fd == j) + opens j s
  pub accept_closes : (fd j : ℕ) (s : Log) → closes j (e.accept fd s) ≡ closes j s
  pub close_opens : (fd j : ℕ) (s : Log) → opens j (e.close fd s) ≡ opens j s
  pub close_closes : (fd j : ℕ) (s : Log) → closes j (e.close fd s) ≡ one_if (fd == j) + closes j s
  pub watch_opens : (fd j : ℕ) (s : Log) → opens j (e.watch fd s) ≡ opens j s
  pub watch_closes : (fd j : ℕ) (s : Log) → closes j (e.watch fd s) ≡ closes j s
  pub unwatch_opens : (fd j : ℕ) (s : Log) → opens j (e.unwatch fd s) ≡ opens j s
  pub unwatch_closes : (fd j : ℕ) (s : Log) → closes j (e.unwatch fd s) ≡ closes j s
  pub connect_opens : (fd j : ℕ) (s : Log) → opens j (call e e.connect fd s) ≡ opens j s
  pub connect_closes : (fd j : ℕ) (s : Log) → closes j (call e e.connect fd s) ≡ closes j s
  pub deliver_opens : (fd j : ℕ) (b : Bytes) (s : Log) → opens j (e.deliver fd b s) ≡ opens j s
  pub deliver_closes : (fd j : ℕ) (b : Bytes) (s : Log) → closes j (e.deliver fd b s) ≡ closes j s
  pub disconnect_opens : (fd j : ℕ) (s : Log) → opens j (call e e.disconnect fd s) ≡ opens j s
  pub disconnect_closes : (fd j : ℕ) (s : Log) → closes j (call e e.disconnect fd s) ≡ closes j s

if-eq : (b : Bool) → (if b then 1 else 0) ≡ one_if b
if-eq true = refl
if-eq false = refl

abbrev connects : Bool → Option (ℕ → Log → Log)
connects b = optional b (λ fd s. connected fd ∷ s)

abbrev disconnects : Bool → Option (ℕ → Log → Log)
disconnects b = optional b (λ fd s. disconnected fd ∷ s)

pub logging-IsFaithful : (c d : Bool) → IsFaithful (logging c d)
logging-IsFaithful c d = record {
  accept_opens = λ fd j s. ap (λ n. n + opens j s) (if-eq (fd == j));
  accept_closes = λ fd j s. refl;
  close_opens = λ fd j s. refl;
  close_closes = λ fd j s. ap (λ n. n + closes j s) (if-eq (fd == j));
  watch_opens = λ fd j s. refl;
  watch_closes = λ fd j s. refl;
  unwatch_opens = λ fd j s. refl;
  unwatch_closes = λ fd j s. refl;
  connect_opens = connecting c;
  connect_closes = connecting_closes c;
  deliver_opens = λ fd j b s. refl;
  deliver_closes = λ fd j b s. refl;
  disconnect_opens = disconnecting d;
  disconnect_closes = disconnecting_closes d;
}
  where
    connecting :
        (c : Bool) (fd j : ℕ) (s : Log) → opens j (call (logging c d) (connects c) fd s) ≡ opens j s
    connecting true fd j s = refl
    connecting false fd j s = refl

    connecting_closes :
        (c : Bool) (fd j : ℕ) (s : Log)
        → closes j (call (logging c d) (connects c) fd s) ≡ closes j s
    connecting_closes true fd j s = refl
    connecting_closes false fd j s = refl

    disconnecting :
        (d : Bool) (fd j : ℕ) (s : Log)
        → opens j (call (logging c d) (disconnects d) fd s) ≡ opens j s
    disconnecting true fd j s = refl
    disconnecting false fd j s = refl

    disconnecting_closes :
        (d : Bool) (fd j : ℕ) (s : Log)
        → closes j (call (logging c d) (disconnects d) fd s) ≡ closes j s
    disconnecting_closes true fd j s = refl
    disconnecting_closes false fd j s = refl
