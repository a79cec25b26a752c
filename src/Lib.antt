-- ===== src/Lib.antt =====
-- io-multiplexing is a server in Go: an event loop over the sockets of the kernel, a minimal
-- HTTP handler on it, and a server for HTTP/1 and HTTP/2 on plain TCP and TLS. It is a single
-- package; its files are named from the root of the repository.
--
-- The parts, and how they interact. The event loop (server_linux.go over epoll, server_darwin.go
-- over kqueue, server_linux_iouring.go over io_uring, server_windows.go over IOCP) accepts
-- connections, keeps a deadline for each, and calls the callbacks of an EventHandler when one has
-- data; the engine of conn.go keeps these callbacks until the loop is started. The HTTP server
-- (httpserver.go) is such a handler: it keeps the state of each connection and decides from its
-- first bytes whether it speaks HTTP/2, wants an upgrade to it, or speaks HTTP/1. An HTTP/2
-- connection (http2.go) reads frames from its buffer, puts header blocks and bodies together, calls
-- the application's handler, and writes the frames of the answer to the same socket. http.go holds
-- the minimal handler and the parser of addresses, main.go the command line.
--
-- - Common: the shared names, lists and numbers, and Go maps as association lists. GoText: the
--   functions of bytes, strings and strconv that the code calls on byte strings.
-- - Http2.Types, Http2.Frame, Http2.Stream, Http2.Conn: http2.go. `Http2Conn` has the fields of
--   http2Conn; `handle_frame`, `on_headers`, `on_continuation`, `finish_headers`, `on_data`,
--   `invoke` and `feed` are the methods of those names. A method gives an `Outcome`: the state it
--   leaves, with the error if it returns one. A handler is a tree of the calls it makes on its
--   stream (`Response`), each of which shows it the call's error.
-- - Http1, HttpServer, HttpServer.Tls: httpserver.go. `dispatch_plain`, `begin_h2c_upgrade`,
--   `serve_http1_plain` and `close_conn` act on `HttpConnState`; `Tls` has the loops that read a
--   TLS connection. HttpServer.Tls.Server has `ListenTLS`, `ListenTLSConfig` and the goroutines
--   that they start: a `Thread` is a goroutine between two calls that block, and `take_turns` runs
--   the listener and the goroutines in the order of a list of turns.
-- - Sending: the loop of `Send` in conn_unix.go and conn_windows.go, over answers of the system call;
--   Sending.Conns has the other methods of a connection.
-- - Http: http.go. Main: main.go.
-- - EventLoop: server_linux.go and timeout.go. The loop acts on a state through an `Env` of system
--   calls and callbacks; what the kernel answers is an argument of each step.
-- - EventLoop.Kqueue: server_darwin.go, with its loop as it is written there, and `kqueue_env`, the
--   system calls with which the loop of server_linux.go stands beside it.
-- - EventLoop.Orders: the sweep with a map that it goes through in any order, as Go may do.
-- - IoUring: server_linux_iouring.go. `Rings` has the two rings, with the window of each as a queue;
--   `register_op`, `on_accept`, `on_timeout`, `on_recv`, `on_send`, `drain` and `run_ring` are the
--   parts of its `Run`. What `io_uring_enter` returns with is an argument of each step.
-- - Iocp: server_windows.go. `post_accept`, `post_recv`, `post_send`, `pin_op` and `unpin_op` are the
--   functions of those names; `on_accept`, `on_recv` and `on_send` are the cases of the loop. Winsock
--   and Go's allocator are a `Kernel`; what the port hands out is an argument of each step.
-- - IoUring.Lifecycle, Iocp.Lifecycle: the calls of `Connect` and `Disconnect` over a run of these
--   two loops, against the receives that are registered or pinned.
-- - Engine: conn.go. HttpServer.Listening joins the callbacks of `HTTPServer.Listen`, the engine and
--   the epoll loop.
-- - Setup: the calls by which the four backends open their listener, the mapping of the rings, and
--   in Setup.Views the pointers and slices into the mapped memory.
--
-- The transport is a `Socket`: a function says which of its writes is refused, and it holds what
-- was written. The HPACK codec (golang.org/x/net/http2/hpack) is a parameter, a function of what it
-- was given before; so are Go's Unicode tables, which only text beyond ASCII reaches.
--
-- Bounds and fuel. Bytes and ids are natural numbers; the length, the type, the flags and the 31
-- bits of the stream id are cut as the code cuts them. The loop of `feed` has as much fuel as the
-- buffer has bytes, as a round takes nine bytes or more; `WriteData` has as much as there is data,
-- and `parseHTTP1Request` as much as there is text behind the request line. `strconv.Itoa` has the
-- number itself. The loop of `Send` has as much as there is data, enough when each call that does
-- not fail takes a byte or more. The drain loop of io_uring has a round for each completion that
-- was posted; its counters are 32-bit numbers and its ids 64-bit numbers, which wrap. Times are in
-- nanoseconds.
--
-- Not modelled. Handlers that answer after their call has returned, and so the lock of the
-- connection. What net and crypto/tls do when a key pair is loaded, a listener is opened, a
-- handshake is made or a read is answered: the answers are arguments. The memory that io_uring
-- shares with the kernel, beyond what a step is given; an operation of IOCP whose address is not
-- pinned, whose memory may have been freed. The HTTP server writes to a `Socket`, for which a write
-- is whole or refused; `Sending` is about how `Send` gets there.
pub mod Common
pub mod Http2
pub mod GoText
pub mod Http1
pub mod Http
pub mod HttpServer
pub mod Main
pub mod EventLoop
pub mod Sending
pub mod IoUring
pub mod Iocp
pub mod Setup
pub mod Engine
mod Tests
