-- ===== src/Tests/Values.antt =====
-- The servers and sockets that the tests run.
use io_mutiplexing.Common.{false, [], ◌∷◌, ◌++◌, some, codes}
use io_mutiplexing.Http2.Types.{Socket, Hpack, Setup}
use io_mutiplexing.Main.{default_http1_handler, default_http2_handler}
use io_mutiplexing.HttpServer.{HttpServer}
use io_mutiplexing.GoText.Bytes.{equal}
use io_mutiplexing.GoText.Fold.{Unicode}

-- A codec that writes a field as `name=value;` and reads a block as one `:path` field.
abbrev pub toy_hpack : Hpack
toy_hpack = record {
  decode_full = λ _ block. some (record { name = codes ":path"; value = block } ∷ []);
  write_field = λ _ h. some (h.name ++ (b'=' ∷ h.value ++ b';' ∷ []));
}

abbrev pub toy_setup : Setup
toy_setup = record { hpack = toy_hpack; handler = some default_http2_handler }

abbrev pub open_socket : Socket
open_socket = record { fails = λ _. false; calls = 0; sent = []; disconnects = 0 }

-- Case tables that change no letter beyond ASCII.
abbrev pub ascii : Unicode
ascii = record { lower = λ s. s; fold_equal = equal }

abbrev pub server : HttpServer
server = record { h1 = some default_http1_handler; setup = toy_setup; unicode = ascii }
