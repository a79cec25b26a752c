-- ===== src/Http2/Types.antt =====
-- The data of http2.go: frames, streams, the connection, errors, and what the code takes from
-- elsewhere (the transport and the HPACK codec of golang.org/x/net/http2/hpack).
use io_mutiplexing.Common.{ℕ, ◌+◌, Bool, List, [], ◌∷◌, ◌++◌, Option, Bytes, if◌then◌else◌, ℤ}

-- The errors that the methods of `http2Conn` and `Http2Stream` return, one for each message.
pub data Error : Type 0 where
  frame_too_large bad_preface malformed_settings malformed_ping eof : Error
  headers_on_stream_zero padded_headers_short priority_headers_short : Error
  invalid_headers_padding unexpected_continuation hpack_decode : Error
  padded_data_short invalid_data_padding headers_already_sent hpack_encode : Error
  write_failed : Error

-- A method's result: the state it leaves, and its error if it returns one.
pub data Outcome {ℓ} (S : Type ℓ) : Type ℓ where
  ok : S → Outcome S
  err : Error → S → Outcome S

infixl 5 ◌>>=◌
abbrev pub ◌>>=◌ {ℓ} : {S : Type ℓ} → Outcome S → (S → Outcome S) → Outcome S
ok s >>= f = f s
err e s >>= f = err e s

pub record HeaderField : Type 0 where
  pub name : Bytes
  pub value : Bytes

-- The peer's end of a connection: `fails n` says whether the `n`-th write is refused, `sent` holds
-- the buffers written so far, and `disconnects` counts the calls of `Conn.Disconnect`.
pub record Socket : Type 0 where
  pub fails : ℕ → Bool
  pub calls : ℕ
  pub sent : List Bytes
  pub disconnects : ℕ

-- The HPACK codec. A decoder or encoder is a deterministic function of what it was given before:
-- `decode_full` takes the earlier blocks, `write_field` the earlier fields.
pub record Hpack : Type 0 where
  pub decode_full : List Bytes → Bytes → Option (List HeaderField)
  pub write_field : List HeaderField → HeaderField → Option Bytes

pub record Frame : Type 0 where
  pub typ : ℕ
  pub flags : ℕ
  pub stream_id : ℕ
  pub payload : Bytes

pub record Http2Stream : Type 0 where
  pub id : ℕ
  pub headers : List HeaderField
  pub body : Bytes
  pub sent_hdr : Bool

-- `dec` holds the blocks that the decoder has been given and `enc` the fields that the encoder
-- has. The handler and the codec, which never change, are arguments of the functions.
pub record Http2Conn : Type 0 where
  pub w : Socket
  pub dec : List Bytes
  pub enc : List HeaderField
  pub enc_buf : Bytes
  pub rx_buf : Bytes
  pub preface_seen : Bool
  pub streams : List (ℕ × Http2Stream)
  pub headers_stream : ℕ
  pub headers_block : Bytes
  pub headers_end : Bool

-- What a handler does with its stream, one method call after another; it sees each call's error.
pub data Response : Type 0 where
  done : Response
  write_headers : ℤ → List HeaderField → Bool → (Option Error → Response) → Response
  write_data : Bytes → Bool → (Option Error → Response) → Response
  simple_response : ℤ → Bytes → Bytes → (Option Error → Response) → Response

abbrev pub Http2Handler : Type 0
Http2Handler = Http2Stream → List HeaderField → Bytes → Response

-- The handler's and the codec's part of a connection, fixed by `newHttp2Conn`.
pub record Setup : Type 0 where
  pub hpack : Hpack
  pub handler : Option Http2Handler

unfoldable pub write : Bytes → Socket → Outcome Socket
write p s =
    if s.fails s.calls
    then err write_failed (record s { calls = s.calls + 1 })
    else ok (record s { calls = s.calls + 1; sent = s.sent ++ p ∷ [] })
