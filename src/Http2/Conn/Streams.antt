-- ===== src/Http2/Conn/Streams.antt =====
-- http2.go: what the map of streams of a connection holds.
use io_mutiplexing.Http2.Types.{Frame}
