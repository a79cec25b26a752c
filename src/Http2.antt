-- ===== src/Http2.antt =====
-- http2.go.
pub mod Types
pub mod Frame
pub mod Stream
pub mod Conn
