-- ===== src/Tests/Serving.antt =====
-- The HTTP server on the epoll loop at concrete states.
use io_mutiplexing.Common.{
  ◌≡◌, refl, true, List, [], ◌∷◌, some, none, Bytes, codes, take, drop, joined,
}
use io_mutiplexing.HttpServer.{fresh}
use io_mutiplexing.HttpServer.Listening.{
  World, update, http_env, answered, handle_conn-dispatch_plain, run-no_states,
}
use io_mutiplexing.EventLoop.{
  Env, Loop, Wait, listener_ready, client_ready, ready, handle_conn, run, start,
}
use io_mutiplexing.EventLoop.Balance.{loop_of}
use io_mutiplexing.Http2.Conn.{feed, new_http2_conn, http2_preface}
use io_mutiplexing.HttpServer.Tls.{h2_socket, serve_h2_loop}
use io_mutiplexing.HttpServer.Tls.Pieces.{reads_of, ending_of, serve_h2_loop-joined}
use io_mutiplexing.Tests.Values.{open_socket, server}

-- The kernel gives each client an open socket.
abbrev system : Env World
system = record {
  connect = none;
  deliver = λ fd bytes w. w;
  disconnect = none;
  accept = λ fd w. record w { sockets = update w.sockets fd open_socket };
  watch = λ fd w. w;
  unwatch = λ fd w. w;
  close = λ fd w. w;
}

-- A state of an earlier client stands at the descriptor 7.
abbrev world : World
world = record { states = (7, fresh open_socket) ∷ []; sockets = λ fd. open_socket }

abbrev first_bytes : Bytes
first_bytes = codes "ET / HTTP/1.1\r\n\r\n"

handle_conn-dispatch_plain_example :
    handle_conn (http_env server system) 7 (some (71 ∷ first_bytes)) world
    ≡ system.close 7 (answered server system 7 (71 ∷ first_bytes) world)
handle_conn-dispatch_plain_example = handle_conn-dispatch_plain server system 7 71 first_bytes world

abbrev clean : Loop World
clean = start 0 (record { states = []; sockets = λ fd. open_socket })

-- A client comes, and sends a request.
abbrev two_events : List Wait
two_events =
    ready
      (listener_ready (record { fd = 7; added = true; now = 1 } ∷ [])
        ∷ client_ready 7 (some (71 ∷ first_bytes))
        ∷ [])
      2
    ∷ []

run-no_states_example : (loop_of (run (http_env server system) two_events clean)).env.states ≡ []
run-no_states_example =
    run-no_states server system two_events clean
      (record {
        accept_states = λ fd w. refl;
        watch_states = λ fd w. refl;
        unwatch_states = λ fd w. refl;
        close_states = λ fd w. refl;
      })
      refl

-- The preface in two reads: a byte and the next eight, and then the rest.
abbrev first_eight : Bytes
first_eight = take 8 (drop 1 http2_preface)

abbrev last_piece : List Bytes
last_piece = drop 9 http2_preface ∷ []

serve_h2_loop-joined_example :
    h2_socket server (
      serve_h2_loop server
        (reads_of ((80 ∷ first_eight) ∷ last_piece))
        (new_http2_conn open_socket))
    ≡ ending_of
        (feed server.setup (joined ((80 ∷ first_eight) ∷ last_piece)) (new_http2_conn open_socket))
serve_h2_loop-joined_example =
    serve_h2_loop-joined server 80 first_eight last_piece (new_http2_conn open_socket)
