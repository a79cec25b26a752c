-- ===== src/Engine.antt =====
-- conn.go: the engine, which keeps the callbacks until `Listen` hands them to a backend.
use io_mutiplexing.Common.{ℕ, Option, none, some, Bytes}
use io_mutiplexing.EventLoop.{Env}

-- A callback that was not registered is nil.
pub record Engine (σ : Type 0) : Type 0 where
  pub connect : Option (ℕ → σ → σ)
  pub deliver : Option (ℕ → Bytes → σ → σ)
  pub disconnect : Option (ℕ → σ → σ)

module _ {σ : Type 0} where
  abbrev pub new_engine : Engine σ
  new_engine = record { connect = none; deliver = none; disconnect = none }

  unfoldable pub on_connect : (ℕ → σ → σ) → Engine σ → Engine σ
  on_connect f e = record e { connect = some f }

  unfoldable pub on_data : (ℕ → Bytes → σ → σ) → Engine σ → Engine σ
  on_data f e = record e { deliver = some f }

  unfoldable pub on_disconnect : (ℕ → σ → σ) → Engine σ → Engine σ
  on_disconnect f e = record e { disconnect = some f }

  -- `Listen` puts a `Data` that does nothing in the place of a nil one.
  abbrev data_or_nothing : Option (ℕ → Bytes → σ → σ) → ℕ → Bytes → σ → σ
  data_or_nothing none fd bytes s = s
  data_or_nothing (some f) fd bytes s = f fd bytes s

  -- The handler that `Listen` gives to the backend, with the backend's system calls.
  unfoldable pub event_handler : Engine σ → Env σ → Env σ
  event_handler e system = record system {
    connect = e.connect;
    deliver = data_or_nothing e.deliver;
    disconnect = e.disconnect;
  }
