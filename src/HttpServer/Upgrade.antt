-- ===== src/HttpServer/Upgrade.antt =====
-- httpserver.go: what `beginH2CUpgrade` writes.
use io_mutiplexing.Common.{
  ◌≡◌, Bool, true, false, List, [], ◌∷◌, ◌++◌, Option, none, some, Bytes, All,
}
use io_mutiplexing.Http2.Types.{Socket}
use io_mutiplexing.Http2.Conn.Responses.{IsFrame}
use io_mutiplexing.Http1.{HttpRequest}
use io_mutiplexing.HttpServer.{HttpServer, HttpConnState, http2, h2c_upgrade_response}

-- Behind what had been written, frames and nothing else have been written, one to a write.
abbrev pub Behind : List Bytes → Socket → Type 0
Behind written s = (frames : List Bytes) × All IsFrame frames × (s.sent ≡ written ++ frames)

module _ (srv : HttpServer) (written : List Bytes) where
  abbrev Q : Socket → Type 0
  Q = Behind written

-- What an upgrade does, by the request that the head parses to and by whether the next write of the
-- connection is refused: without a request, or with the response refused, it writes nothing and the
-- connection is closed; otherwise it writes the 101 response, and behind it frames only.
abbrev pub Upgraded : Option HttpRequest → Bool → HttpConnState → HttpConnState → Type 0
Upgraded none is_refused st st' = (st'.conn.sent ≡ st.conn.sent) × (st'.closing ≡ true)
Upgraded (some req) true st st' = (st'.conn.sent ≡ st.conn.sent) × (st'.closing ≡ true)
Upgraded (some req) false st st' =
    (st'.mode ≡ http2) × Behind (st.conn.sent ++ h2c_upgrade_response ∷ []) st'.conn
