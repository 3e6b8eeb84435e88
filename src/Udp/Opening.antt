-- ===== src/Udp/Opening.antt =====
-- What block_thread of src/ucp_client.c does up to its first datagram, and what main of src/ucp_server.c does
-- with it. What the system calls return is an argument. `malloc` of an address is taken to succeed.
use ucp.Common.{
  ℕ, ◌+◌, Bool, Option, none, some, List, if◌then◌else◌, length, Run, ok, fault, ◌>>=◌,
}
use ucp.Packet.Types.{Packet, udp_packet_size, udp_packet_data_size, udp_packet_overhead_margin}
use ucp.Packet.Init.{packet_init_metadata}
use ucp.Packet.Encode.{encode}
use ucp.Packet.Decode.{decode}
use ucp.Files.Disk.{Name, Disk}
use ucp.Files.Ops.{Handle}
use ucp.Tcp.Server.{Started, TcpServer, start}
use ucp.Tcp.Client.{TcpClient}
use ucp.Server.Setup.{open_part}
use ucp.Udp.Sockets.{
  Address, Datagram, af_inet, inaddr_any, htons, ntohs, initialise, send, receive_from,
}

abbrev pub client_base_port : ℕ
client_base_port = 6341

abbrev pub server_base_port : ℕ
server_base_port = 6342

-- create_socket of the client: the descriptor and the address that it is bound to, or -1. The descriptor
-- stays open where `bind` fails.
unfoldable pub create_socket : (socket : Option ℕ) (bound : Bool) → ℕ → Option (ℕ × Address)
create_socket socket bound port = if bound then initialise socket port else none

-- The address with the sender's own in place of INADDR_ANY, as its datagrams carry it.
abbrev pub seen_from : ℕ → Address → Address
seen_from ip a = record a { ip = ip }

-- What tcp_server_start returns is used without a test.
abbrev pub used : Started → Run TcpServer
used Started.missing = fault
used Started.dangling = fault
used (Started.started server) = ok server

-- tcp_server_start, and the address that it binds its socket to, SERVER_ADDR_PORT of "0.0.0.0".
unfoldable pub start_listening :
    (memory : Bool) (socket : Option ℕ) (bound listening : Bool)
    → (port : ℕ) → Run (Started × Address)
start_listening memory socket bound listening port = do
  server ← start memory socket bound listening
  ok (server, record { family = af_inet; port = htons port; ip = inaddr_any })

-- The first datagram, and the address that the TCP server of the same thread listens on.
pub record Opened : Type 0 where
  pub datagram : Datagram
  pub listening : Address

-- The size of block_thread's buffer.
abbrev pub block_buf_size : ℕ
block_buf_size = udp_packet_data_size + udp_packet_overhead_margin

-- block_thread from the socket to the first datagram. `start_server` is tcp_server_start.
unfoldable pub announce :
    (start_server : ℕ → Run (Started × Address)) (memory : Bool) (local_ip remote_ip idx : ℕ)
    (dst_filename : List ℕ) (part_size : ℕ) (buf : List ℕ)
    → Option (ℕ × Address)
    → Run (Option Opened)
announce start_server memory local_ip remote_ip idx dst_filename part_size buf none = ok none
announce start_server memory local_ip remote_ip idx dst_filename part_size buf
      (some (sock_fd, addr)) =
    do
      (returned, listening) ← start_server (client_base_port + idx)
      tcp_server ← used returned
      let remote : Address = record {
        family = af_inet;
        port = htons (server_base_port + idx);
        ip = remote_ip;
      }
      let metadata_packet =
          packet_init_metadata memory dst_filename (length dst_filename) idx part_size
      (len, buf) ← encode metadata_packet buf block_buf_size
      datagram ← send (seen_from local_ip addr) remote buf len
      ok (some (record { datagram = datagram; listening = listening }))

unfoldable pub start_block :
    (socket : Option ℕ) (bound : Bool) (start_server : ℕ → Run (Started × Address)) (memory : Bool)
    (local_ip remote_ip idx : ℕ) (dst_filename : List ℕ) (part_size : ℕ) (buf : List ℕ)
    → Run (Option Opened)
start_block socket bound start_server memory local_ip remote_ip idx dst_filename part_size buf =
    announce start_server memory local_ip remote_ip idx dst_filename part_size buf
      (create_socket socket bound (client_base_port + idx))

-- The address that main makes of the sender's, to connect to.
abbrev pub endpoint_of : Address → Address
endpoint_of client_addr = record {
  family = client_addr.family;
  port = htons (ntohs client_addr.port);
  ip = client_addr.ip;
}

-- main of the server behind a datagram: the handle, the address that it is connected to, and the
-- directory. Where the connection fails, main returns -1.
unfoldable pub answer_first :
    (can_open : Name → Bool) (accepted fuel : ℕ) (client : Option TcpClient)
    → Packet
    → Handle
    → Disk
    → Option (Address × List ℕ)
    → Run (Option (Handle × Address × Disk))
answer_first can_open accepted fuel client rcv_pkt handle disk none = ok none
answer_first can_open accepted fuel client rcv_pkt handle disk (some (client_addr, recv_buffer)) =
    do
      (handle, disk) ← (do
        rcv_pkt ← decode recv_buffer udp_packet_size rcv_pkt
        open_part can_open accepted fuel rcv_pkt handle disk)
      ok (elim client [ none ↦ none | some client ↦ some (handle, endpoint_of client_addr, disk) ])

-- main of the server up to the threads; it opens its socket with the same two calls as create_socket.
-- `network` gives the datagram that arrives for a socket bound to an address, if one does. The result is
-- nothing where main gets no datagram, or returns -1. `rcv_pkt` and `handle` are not initialised.
unfoldable pub server_main :
    (socket : Option ℕ) (bound : Bool) (network : Address → Option Datagram)
    (can_open : Name → Bool) (accepted fuel : ℕ) (client : Option TcpClient)
    → List ℕ
    → Packet
    → Handle
    → Disk
    → Run (Option (Handle × Address × Disk))
server_main socket bound network can_open accepted fuel client recv_buffer rcv_pkt handle disk =
    elim (create_socket socket bound server_base_port) [
      | none ↦ ok none
      | some made ↦ do
        first ← receive_from (network made.1) recv_buffer udp_packet_size
        answer_first can_open accepted fuel client rcv_pkt handle disk first
    ]
