-- ===== src/Tcp/Client.antt =====
-- src/tcp_socket.c: the functions of the TCP client, and tcp_server_send. What the system calls return is
-- an argument, `none` where they fail.
use ucp.Common.{
  ℕ, Bool, true, false, not, Option, none, some, List, [], ◌∷◌, ltb, ◌==◌, if◌then◌else◌, Run, ok,
  ◌>>=◌, read_at,
}
use ucp.Common.Words.{ℤ, size_neg, to_ssize}
use ucp.Tcp.Server.{TcpServer, Endpoint, bytes_read, filled}

-- tcp_client_t; the port is not initialised where getsockname fails, and of the callbacks the record
-- says whether they are there.
pub record TcpClient : Type 0 where
  pub sd : ℕ
  pub port : Option ℕ
  pub on_receive : Bool
  pub on_disconnect : Bool

-- The calls of the callbacks.
pub data Call : Type 0 where
  received : (segment : List ℕ) → (data_len : ℤ) → Call
  disconnected : Call

-- tcp_client_connect: NULL, or the client. Its descriptor stays open where `connect` fails.
unfoldable pub connect :
    (memory : Bool) (socket : Option ℕ) (connected : Bool) (name : Option ℕ)
    (on_receive on_disconnect : Bool)
    → Option TcpClient
connect false socket connected name on_receive on_disconnect = none
connect true none connected name on_receive on_disconnect = none
connect true (some sd) connected name on_receive on_disconnect =
    if not connected
    then none
    else some
        (record { sd = sd; port = name; on_receive = on_receive; on_disconnect = on_disconnect })

-- tcp_client_send: 0 where `send` takes all bytes, and else 1; what `send` is given.
unfoldable pub send :
    (sent : Option ℕ) → Option TcpClient → (segment : List ℕ) → ℕ → Run (ℕ × List ℕ)
send sent none segment data_len = ok (1, [])
send sent (some client) segment data_len = do
  bytes ← read_at 0 data_len segment
  ok (elim sent [ none ↦ 1 | some n ↦ if n == data_len then 0 else 1 ], bytes)

-- tcp_client_disconnect: the descriptors that it closes.
unfoldable pub disconnect : Option TcpClient → List ℕ
disconnect none = []
disconnect (some client) = client.sd ∷ []

-- tcp_server_send: what `sendto` is given for the descriptor of the endpoint, and the number of bytes that it
-- reports as sent, if it does not report a failure. The result of `sendto` is kept in a `size_t`.
unfoldable pub server_send :
    (sent : Option ℕ)
    → (server : Option TcpServer) → (dst : Option Endpoint) → (segment : Option (List ℕ)) → ℕ
    → Run (Option (ℕ × List ℕ) × Option ℕ)
server_send sent none dst segment data_len = ok (none, none)
server_send sent (some server) none segment data_len = ok (none, none)
server_send sent (some server) (some endpoint) none data_len = ok (none, none)
server_send sent (some server) (some endpoint) (some segment) data_len = do
  bytes ← read_at 0 data_len segment
  let bytes_sent : ℕ = elim sent [ none ↦ size_neg 1 | some n ↦ n ]
  ok (some (endpoint.sd, bytes), if ltb bytes_sent 0 then none else some bytes_sent)

-- tcp_client_receive: the result of `recv` is kept in a `size_t`, and goes on as a `ssize_t`.
unfoldable pub client_receive : (bytes : Option (List ℕ)) → Option TcpClient → Run (List Call)
client_receive bytes none = ok []
client_receive bytes (some client) = do
  segment ← filled bytes
  if ltb 0 (bytes_read bytes)
      then ok
          (if client.on_receive then received segment (to_ssize (bytes_read bytes)) ∷ [] else [])
      else ok (if client.on_disconnect then disconnected ∷ [] else [])
