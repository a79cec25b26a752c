-- ===== src/HttpServer/Preface.antt =====
-- httpserver.go and http2.go: a preface of HTTP/2 that does not come in one piece.
use io_mutiplexing.Common.{ℕ, zero, suc, ◌+◌, ◌<◌, ◌≡◌, refl, arith, true, take}
use io_mutiplexing.Http2.Types.{Socket}
use io_mutiplexing.Http2.Conn.{http2_preface}
use io_mutiplexing.HttpServer.{HttpServer, http1, fresh, dispatch_plain}

-- A new connection whose first piece is the first 18 to 23 bytes of the preface of HTTP/2, which is
-- 24 bytes long, is taken for an HTTP/1 connection and closed, instead of waiting for the rest.
pub dispatch_plain-take_preface :
    (srv : HttpServer) (s : Socket) (k : ℕ)
    → k < 6
    → ((dispatch_plain srv (take (18 + k) http2_preface) (fresh s)).mode ≡ http1)
      × ((dispatch_plain srv (take (18 + k) http2_preface) (fresh s)).closing ≡ true)
unfolding dispatch_plain
dispatch_plain-take_preface srv s zero l = (refl, refl)
dispatch_plain-take_preface srv s (suc zero) l = (refl, refl)
dispatch_plain-take_preface srv s (suc (suc zero)) l = (refl, refl)
dispatch_plain-take_preface srv s (suc (suc (suc zero))) l = (refl, refl)
dispatch_plain-take_preface srv s (suc (suc (suc (suc zero)))) l = (refl, refl)
dispatch_plain-take_preface srv s (suc (suc (suc (suc (suc zero))))) l = (refl, refl)
dispatch_plain-take_preface srv s (suc (suc (suc (suc (suc (suc k)))))) l =
    absurd (omega (arith, l))
