-- ===== src/HttpServer/Listening.antt =====
-- `HTTPServer.Listen` of httpserver.go on the epoll loop of server_linux.go: the callbacks that it
-- registers, and what the loop's clients get.
use io_mutiplexing.Common.{
  ℕ, ◌≡◌, ◌∙◌, ap, arith, List, [], ◌∷◌, Option, none, some, Bytes, ◌==◌, if◌then◌else◌,
}
use io_mutiplexing.Common.Maps.{lookup, insert, delete, lookup-insert, delete-insert}
use io_mutiplexing.Http2.Types.{Socket, Hpack, Http2Handler}
use io_mutiplexing.GoText.Fold.{Unicode}
use io_mutiplexing.HttpServer.{
  HttpServer, Http1Handler, HttpConnState, fresh, dispatch_plain, States, on_connect, on_disconnect,
  on_data, state_or_fresh,
}
use io_mutiplexing.EventLoop.{Env, Loop, Wait, handle_conn, run}
use io_mutiplexing.EventLoop.Balance.{loop_of}
use io_mutiplexing.EventLoop.Kept.{Keeps, run-kept}
use io_mutiplexing.Engine
use io_mutiplexing.Engine.{Engine, new_engine, event_handler}

-- The registrations of `HTTP1` and `HTTP2`, which give the server back.
unfoldable pub set_http1 : Http1Handler → HttpServer → HttpServer
set_http1 h srv = record srv { h1 = some h }

unfoldable pub set_http2 : Http2Handler → HttpServer → HttpServer
set_http2 h srv = record srv { setup = record srv.setup { handler = some h } }

-- A server without handlers, with the parameters of the model.
abbrev pub new_http_server : Hpack → Unicode → HttpServer
new_http_server hpack unicode = record {
  h1 = none;
  setup = record { hpack = hpack; handler = none };
  unicode = unicode;
}

-- The map of `Listen` and the connections by their descriptors.
pub record World : Type 0 where
  pub states : States
  pub sockets : ℕ → Socket

abbrev pub update : {A : Type 0} → (ℕ → A) → ℕ → A → ℕ → A
update f key x j = if key == j then x else f j

-- The connection as a state leaves it.
abbrev pub conn_of : Socket → Option HttpConnState → Socket
conn_of conn none = conn
conn_of conn (some st) = st.conn

abbrev pub with_states : ℕ → States → World → World
with_states fd states w = record {
  states = states;
  sockets = update w.sockets fd (conn_of (w.sockets fd) (lookup fd states));
}

-- The engine of `Listen`.
unfoldable pub listen_engine : HttpServer → Engine World
unfolding Engine.on_connect Engine.on_disconnect Engine.on_data on_connect on_disconnect on_data
listen_engine srv =
    Engine.on_data (λ fd bytes w. with_states fd (on_data srv fd (w.sockets fd) bytes w.states) w)
      (Engine.on_disconnect (λ fd w. record w { states = on_disconnect fd w.states })
        (Engine.on_connect (λ fd w. record w { states = on_connect fd (w.sockets fd) w.states })
          new_engine))

module _ (srv : HttpServer) (system : Env World) where
  abbrev pub http_env : Env World
  http_env = event_handler (listen_engine srv) system

  -- What the loop does with a client that has data.
  abbrev pub answered : ℕ → Bytes → World → World
  answered fd bytes w = record {
    states = delete fd w.states;
    sockets = update w.sockets fd (dispatch_plain srv bytes (fresh (w.sockets fd))).conn;
  }

  lookup_inserted :
      (fd : ℕ) (st : HttpConnState) (m : States) → lookup fd (insert fd st m) ≡ some st
  lookup_inserted fd st m = ground (arith, lookup-insert fd fd st m)

  on_data-on_connect :
      (fd : ℕ) (bytes : Bytes) (c : Socket) (m : States)
      → on_data srv fd c bytes (on_connect fd c m)
        ≡ insert fd (dispatch_plain srv bytes (fresh c)) (insert fd (fresh c) m)
  unfolding on_data on_connect
  on_data-on_connect fd bytes c m =
      ap
        (λ found.
          insert fd (dispatch_plain srv bytes (state_or_fresh c found)) (insert fd (fresh c) m))
        (lookup_inserted fd (fresh c) m)

  -- The data of one read is dispatched to a new state on the connection as it was; behind it the
  -- connection is closed, and its state is gone, whatever state stood at the descriptor before.
  pub handle_conn-dispatch_plain :
      (fd b : ℕ) (bytes : Bytes) (w : World)
      → handle_conn http_env fd (some (b ∷ bytes)) w ≡ system.close fd (answered fd (b ∷ bytes) w)
  unfolding handle_conn event_handler listen_engine Engine.on_connect Engine.on_disconnect
      Engine.on_data on_disconnect
  handle_conn-dispatch_plain fd b bytes w =
      let c = w.sockets fd in
      let m = insert fd (fresh c) w.states in
      let d = dispatch_plain srv (b ∷ bytes) (fresh c) in
      let closed : States → Socket → World = λ states conn.
        system.close fd (record { states = states; sockets = update w.sockets fd conn }) in
      ap (λ states. closed (delete fd states) (conn_of c (lookup fd states)))
        (on_data-on_connect fd (b ∷ bytes) c w.states)
      ∙ ap (λ found. closed (delete fd (insert fd d m)) (conn_of c found)) (lookup_inserted fd d m)
      ∙ ap (λ states. closed states d.conn)
          (delete-insert fd d m ∙ delete-insert fd (fresh c) w.states)

  -- The system calls have nothing to do with the map.
  pub record IsSeparate : Type 0 where
    pub accept_states : (fd : ℕ) (w : World) → (system.accept fd w).states ≡ w.states
    pub watch_states : (fd : ℕ) (w : World) → (system.watch fd w).states ≡ w.states
    pub unwatch_states : (fd : ℕ) (w : World) → (system.unwatch fd w).states ≡ w.states
    pub close_states : (fd : ℕ) (w : World) → (system.close fd w).states ≡ w.states

  -- A client that is done with leaves no state.
  handle_conn-states :
      (fd : ℕ) (read : Option Bytes) (w : World)
      → IsSeparate
      → (handle_conn http_env fd read w).states ≡ delete fd w.states
  unfolding handle_conn event_handler listen_engine Engine.on_connect Engine.on_disconnect
      on_connect on_disconnect
  handle_conn-states fd none w h =
      h.close_states fd _ ∙ delete-insert fd (fresh (w.sockets fd)) w.states
  handle_conn-states fd (some []) w h =
      h.close_states fd _ ∙ delete-insert fd (fresh (w.sockets fd)) w.states
  handle_conn-states fd (some (b ∷ bytes)) w h =
      ap (λ w. w.states) (handle_conn-dispatch_plain fd b bytes w) ∙ h.close_states fd _

  http_env-Keeps : IsSeparate → Keeps http_env (λ w. w.states ≡ [])
  unfolding event_handler delete
  http_env-Keeps h = record {
    conn_keeps = λ fd read w e. handle_conn-states fd read w h ∙ ap (delete fd) e;
    accept_keeps = λ fd w e. h.accept_states fd w ∙ e;
    watch_keeps = λ fd w e. h.watch_states fd w ∙ e;
    unwatch_keeps = λ fd w e. h.unwatch_states fd w ∙ e;
    close_keeps = λ fd w e. h.close_states fd w ∙ e;
  }

-- Over any run of the epoll loop under the HTTP server, from an empty map of states, the map is
-- empty at each wait: no state outlives its client.
pub run-no_states :
    (srv : HttpServer) (system : Env World) (ws : List Wait) (l : Loop World)
    → IsSeparate srv system
    → l.env.states ≡ []
    → (loop_of (run (http_env srv system) ws l)).env.states ≡ []
run-no_states srv system ws l h e =
    run-kept (http_env srv system) (λ w. w.states ≡ []) (http_env-Keeps srv system h) ws l e
