-- ===== src/Udp/Sockets.antt =====
-- src/udp_socket.c. What the system calls return is an argument, `none` or `false` where they fail.
use ucp.Common.{
  ℕ, ◌+◌, ◌*◌, ◌/◌, ◌%◌, Option, none, some, List, take, Run, ok, ◌>>=◌, read_at, write_at,
}

-- AF_INET
abbrev pub af_inet : ℕ
af_inet = 2

-- `htons` and `ntohs` on a machine that stores the low byte first.
abbrev pub htons : ℕ → ℕ
htons n = n % 256 * 256 + n / 256 % 256

abbrev pub ntohs : ℕ → ℕ
ntohs n = htons n

-- struct sockaddr_in, with the port in network order.
pub record Address : Type 0 where
  pub family : ℕ
  pub port : ℕ
  pub ip : ℕ

pub record Datagram : Type 0 where
  pub src : Address
  pub dst : Address
  pub payload : List ℕ

-- INADDR_ANY
abbrev pub inaddr_any : ℕ
inaddr_any = 0

-- udp_socket_initialise: the descriptor, and the address that it sets.
unfoldable pub initialise : (socket : Option ℕ) → ℕ → Option (ℕ × Address)
initialise none port = none
initialise (some sock_fd) port =
    some (sock_fd, record { family = af_inet; port = htons port; ip = inaddr_any })

-- udp_socket_send, from the address that the socket has: what `sendto` is given.
unfoldable pub send : (src addr : Address) → (buffer : List ℕ) → ℕ → Run Datagram
send src addr buffer buf_len = do
  bytes ← read_at 0 buf_len buffer
  ok (record { src = src; dst = addr; payload = bytes })

-- udp_socket_receive_from: the sender's address and the buffer, where there is a datagram, which is cut
-- to the buffer's length.
unfoldable pub receive_from :
    (received : Option Datagram) → (buffer : List ℕ) → ℕ → Run (Option (Address × List ℕ))
receive_from none buffer buf_len = ok none
receive_from (some datagram) buffer buf_len = do
  buffer ← write_at 0 (take buf_len datagram.payload) buffer
  ok (some (datagram.src, buffer))
