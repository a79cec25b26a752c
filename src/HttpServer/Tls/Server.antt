-- ===== src/HttpServer/Tls/Server.antt =====
-- httpserver.go: `ListenTLS` and `ListenTLSConfig`, and the goroutines that they start. The key
-- pair, the listener and the handshake are calls of crypto/tls, whose answers are arguments; a
-- schedule says in which order the listener and the goroutines are woken.
use io_mutiplexing.Common.{
  ℕ, Bool, true, false, List, [], ◌∷◌, ◌++◌, Option, none, some, Bytes, codes, ◌==◌, if◌then◌else◌,
  length,
}
use io_mutiplexing.Common.Places.{modify}
use io_mutiplexing.GoText.Bytes.{equal}
use io_mutiplexing.Http2.Types.{Outcome, ok, err, Http2Conn, Socket}
use io_mutiplexing.Http2.Conn.{new_http2_conn, send_initial_settings, feed}
use io_mutiplexing.HttpServer.{
  HttpServer, Progress, no_head, no_body, refused, ready, read_request, serve1, respond1,
  disconnect,
}
use io_mutiplexing.HttpServer.Tls.{Read}

-- `tls.Config`, for a type of key pairs.
pub record Config (Pair : Type 0) : Type 0 where
  pub certificates : List Pair
  pub next_protos : List Bytes
  pub min_version : ℕ

abbrev pub version_tls12 : ℕ
version_tls12 = 0x0303

abbrev pub default_protos : List Bytes
default_protos = codes "h2" ∷ codes "http/1.1" ∷ []

pub data ListenError : Type 0 where
  load_cert nil_config listen_failed : ListenError

-- A listener is made, with this configuration, or there is an error.
pub data Listened (Pair : Type 0) : Type 0 where
  listening : Config Pair → Listened Pair
  not_listening : ListenError → Listened Pair

module _ {Pair : Type 0} (listen : Bytes → Config Pair → Bool) where
  abbrev with_protos : Config Pair → Config Pair
  with_protos cfg =
      if length cfg.next_protos == 0 then record cfg { next_protos = default_protos } else cfg

  -- `ListenTLSConfig` up to its loop; a nil configuration is `none`.
  unfoldable pub listen_tls_config : Bytes → Option (Config Pair) → Listened Pair
  listen_tls_config addr none = not_listening nil_config
  listen_tls_config addr (some cfg) =
      if listen addr (with_protos cfg)
      then listening (with_protos cfg)
      else not_listening listen_failed

  abbrev with_pair : Bytes → Option Pair → Listened Pair
  with_pair addr none = not_listening load_cert
  with_pair addr (some pair) = listen_tls_config addr (
      some (record {
        certificates = pair ∷ [];
        next_protos = default_protos;
        min_version = version_tls12;
      }))

  unfoldable pub listen_tls : (Bytes → Bytes → Option Pair) → Bytes → Bytes → Bytes → Listened Pair
  unfolding listen_tls_config
  listen_tls load addr cert_file key_file = with_pair addr (load cert_file key_file)

-- A goroutine of `handleTLSConn`, between two calls that block: before the handshake, in the loop
-- of `serveH2OverConn` or of `serveH1OverConn` with its buffer, or behind its deferred `Close`.
pub data Thread : Type 0 where
  fresh : Socket → Thread
  in_h2 : Http2Conn → Thread
  in_h1 : Bytes → Socket → Thread
  closed : Socket → Thread

-- What wakes a goroutine: the handshake's end, with its success and the protocol, or a read's.
pub data Wake : Type 0 where
  shaken : Bool → Bytes → Wake
  got : Read → Wake

-- Behind a return, the deferred `Close`.
abbrev pub return : Socket → Thread
return w = closed (disconnect w)

module _ (srv : HttpServer) where
  abbrev pub begin_h2 : Outcome Http2Conn → Thread
  begin_h2 (ok c) = in_h2 c
  begin_h2 (err _ c) = return c.w

  abbrev pub on_handshake : Bool → Bytes → Socket → Thread
  on_handshake false proto w = return w
  on_handshake true proto w =
      if equal proto (codes "h2")
      then begin_h2 (send_initial_settings (new_http2_conn w))
      else in_h1 [] w

  abbrev pub after_feed : Bool → Outcome Http2Conn → Thread
  after_feed failed (err _ c) = return c.w
  after_feed failed (ok c) = if failed then return c.w else in_h2 c

  abbrev pub after_bytes : Bool → Bytes → Socket → Progress → Thread
  after_bytes failed buf w no_head = if failed then return w else in_h1 buf w
  after_bytes failed buf w no_body = in_h1 buf w
  after_bytes failed buf w refused = return w
  after_bytes failed buf w (ready req) = return (serve1 srv.h1 req w)

  abbrev pub on_h1_read : Read → Bytes → Socket → Thread
  on_h1_read r buf w =
      if length r.bytes == 0
      then (if r.failed then return w else in_h1 buf w)
      else after_bytes r.failed (buf ++ r.bytes) w (read_request srv.unicode (buf ++ r.bytes))

  -- One run of a goroutine, up to its next call that blocks. A wake that does not fit its state
  -- does not come.
  unfoldable pub step : Thread → Wake → Thread
  unfolding new_http2_conn send_initial_settings feed equal read_request respond1
  step (fresh w) (shaken good proto) = on_handshake good proto w
  step (fresh w) (got r) = fresh w
  step (in_h2 c) (got r) =
      after_feed r.failed (if length r.bytes == 0 then ok c else feed srv.setup r.bytes c)
  step (in_h2 c) (shaken _ _) = in_h2 c
  step (in_h1 buf w) (got r) = on_h1_read r buf w
  step (in_h1 buf w) (shaken _ _) = in_h1 buf w
  step (closed w) e = closed w

-- The listener's loop, and the goroutines in the order in which they were started.
pub record Listening : Type 0 where
  pub accepting : Bool
  pub threads : List Thread

abbrev pub start : Listening
start = record { accepting = true; threads = [] }

-- What happens next: the listener gives a connection or fails, or a goroutine is woken.
pub data Turn : Type 0 where
  accepted : Socket → Turn
  accept_failed : Turn
  woken : ℕ → Wake → Turn

module _ (srv : HttpServer) where
  unfoldable pub take_turn : Turn → Listening → Listening
  unfolding step
  take_turn (accepted w) l =
      if l.accepting then record l { threads = l.threads ++ fresh w ∷ [] } else l
  take_turn accept_failed l = record l { accepting = false }
  take_turn (woken i e) l = record l { threads = modify i (λ t. step srv t e) l.threads }

  unfoldable pub take_turns : List Turn → Listening → Listening
  unfolding take_turn
  take_turns [] l = l
  take_turns (t ∷ ts) l = take_turns ts (take_turn t l)
