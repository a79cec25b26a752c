-- ===== src/Main.antt =====
-- main.go: the command line and the default handlers.
use io_mutiplexing.Common.{List, [], ◌∷◌, ◌++◌, Bytes, codes, if◌then◌else◌, pos}
use io_mutiplexing.GoText.Bytes.{equal}
use io_mutiplexing.Http.{ok_response}
use io_mutiplexing.Http2.Types.{Response, Http2Handler}
use io_mutiplexing.Http2.Stream.{stream_method, stream_path}
use io_mutiplexing.HttpServer.{Http1Response, Http1Handler}

-- What `main` starts: a server on an address, one with TLS, or nothing but a fatal message.
pub data Command : Type 0 where
  listen : Bytes → Command
  listen_tls : Bytes → Bytes → Bytes → Command
  fatal : Command

abbrev pub default_addr : Bytes
default_addr = codes ":8080"

abbrev pub tls_args : List Bytes → Command
tls_args (addr ∷ cert ∷ key ∷ _) = listen_tls addr cert key
tls_args (cert ∷ key ∷ []) = listen_tls default_addr cert key
tls_args _ = fatal

unfoldable pub command : List Bytes → Command
unfolding equal
command [] = listen default_addr
command (a ∷ args) = if equal a (codes "tls") then tls_args args else listen a

abbrev pub greeting : Bytes → Bytes → Bytes → Bytes
greeting protocol verb path =
    codes "Hello from io-multiplexing server\nProtocol: "
    ++ (protocol ++ (codes "\nMethod: " ++ (verb ++ (codes "\nPath: " ++ (path ++ codes "\n")))))

unfoldable pub default_http1_handler : Http1Handler
unfolding ok_response
default_http1_handler req =
    Http1Response.write_bytes (ok_response (greeting (codes "HTTP/1.x") req.verb req.path))
      (λ _. Http1Response.done)

unfoldable pub default_http2_handler : Http2Handler
unfolding stream_method stream_path
default_http2_handler stream _ _ =
    Response.simple_response (pos 200) (codes "text/plain")
      (greeting (codes "HTTP/2") (stream_method stream) (stream_path stream)) (λ _. Response.done)
