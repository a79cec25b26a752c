-- ===== src/EventLoop/Tallies.antt =====
-- The clients that the callbacks of an event loop have been called for.
use io_mutiplexing.Common.{ℕ, ◌+◌, ◌≡◌, ◌==◌, refl, true, [], ◌∷◌, Bytes}
use io_mutiplexing.Common.Counts.{one_if}
use io_mutiplexing.EventLoop.{Env, call}
use io_mutiplexing.EventLoop.Trace.{Log, logging, connected, disconnected}

-- How often `Connect` and `Disconnect` have been called for a descriptor, as a state of the
-- application tells it.
pub record IsTally {σ : Type 0} (e : Env σ) (connects disconnects : ℕ → σ → ℕ) : Type 0 where
  pub connect_connects :
      (fd j : ℕ) (s : σ) → connects j (call e e.connect fd s) ≡ one_if (fd == j) + connects j s
  pub connect_disconnects :
      (fd j : ℕ) (s : σ) → disconnects j (call e e.connect fd s) ≡ disconnects j s
  pub deliver_connects :
      (fd j : ℕ) (b : Bytes) (s : σ) → connects j (e.deliver fd b s) ≡ connects j s
  pub deliver_disconnects :
      (fd j : ℕ) (b : Bytes) (s : σ) → disconnects j (e.deliver fd b s) ≡ disconnects j s
  pub disconnect_connects :
      (fd j : ℕ) (s : σ) → connects j (call e e.disconnect fd s) ≡ connects j s
  pub disconnect_disconnects :
      (fd j : ℕ) (s : σ)
      → disconnects j (call e e.disconnect fd s) ≡ one_if (fd == j) + disconnects j s
  pub accept_connects : (fd j : ℕ) (s : σ) → connects j (e.accept fd s) ≡ connects j s
  pub accept_disconnects : (fd j : ℕ) (s : σ) → disconnects j (e.accept fd s) ≡ disconnects j s
  pub close_connects : (fd j : ℕ) (s : σ) → connects j (e.close fd s) ≡ connects j s
  pub close_disconnects : (fd j : ℕ) (s : σ) → disconnects j (e.close fd s) ≡ disconnects j s

-- The tally that a log keeps.
abbrev pub connects : ℕ → Log → ℕ
connects j [] = 0
connects j (connected fd ∷ s) = one_if (fd == j) + connects j s
connects j (_ ∷ s) = connects j s

abbrev pub disconnects : ℕ → Log → ℕ
disconnects j [] = 0
disconnects j (disconnected fd ∷ s) = one_if (fd == j) + disconnects j s
disconnects j (_ ∷ s) = disconnects j s

pub logging-IsTally : IsTally (logging true true) connects disconnects
logging-IsTally = record {
  connect_connects = λ fd j s. refl;
  connect_disconnects = λ fd j s. refl;
  deliver_connects = λ fd j b s. refl;
  deliver_disconnects = λ fd j b s. refl;
  disconnect_connects = λ fd j s. refl;
  disconnect_disconnects = λ fd j s. refl;
  accept_connects = λ fd j s. refl;
  accept_disconnects = λ fd j s. refl;
  close_connects = λ fd j s. refl;
  close_disconnects = λ fd j s. refl;
}
