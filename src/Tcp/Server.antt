-- ===== src/Tcp/Server.antt =====
-- src/tcp_socket.c: the functions of the TCP server. What the system calls return is an argument, `none`
-- where they fail; what they are asked to do, and the calls of `on_rx`, are events. A descriptor set is
-- a map, and a descriptor beyond FD_SETSIZE is a fault.
use ucp.Common.{
  ℕ, zero, suc, ◌+◌, ◌-◌, Bool, true, false, not, Option, none, some, List, [], ◌∷◌, ◌++◌, ltb, leb,
  ◌==◌, if◌then◌else◌, length, Run, ok, fault, ◌>>=◌, read_at, write_at,
}
use ucp.Common.Words.{size_neg}
use ucp.Packet.Types.{zeros}

-- FD_SETSIZE
abbrev pub fd_setsize : ℕ
fd_setsize = 1024

-- The size of tcp_sgmnt_t's `data`, and of the buffer that is read into.
abbrev pub segment_size : ℕ
segment_size = 1024

-- tcp_endpoint_t; `addr` is the peer's address, 0 where it is not known.
pub record Endpoint : Type 0 where
  pub addr : ℕ
  pub sd : ℕ

-- tcp_server_t without the port and the callbacks. The list of endpoints is in order of `next`.
pub record TcpServer : Type 0 where
  pub sd : ℕ
  pub max_sd : ℕ
  pub server_fd_set : ℕ → Bool
  pub endpoints : List Endpoint

pub data Event : Type 0 where
  accepted : ℕ → Event
  closed : ℕ → Event
  rx : Option Endpoint → (segment : List ℕ) → (data_len : ℕ) → Event

abbrev pub fd_set : ℕ → (ℕ → Bool) → Run (ℕ → Bool)
fd_set d set = if ltb d fd_setsize then ok (λ a. if a == d then true else set a) else fault

abbrev pub fd_clr : ℕ → (ℕ → Bool) → ℕ → Bool
fd_clr d set a = if a == d then false else set a

-- The pointer that tcp_server_start returns: NULL, to memory that has been freed, or to a server.
pub data Started : Type 0 where
  missing : Started
  dangling : Started
  started : TcpServer → Started

-- tcp_server_start
unfoldable pub start : (memory : Bool) (socket : Option ℕ) (bound listening : Bool) → Run Started
start false socket bound listening = ok missing
start true none bound listening = ok dangling
start true (some sd) bound listening =
    let idle : TcpServer = record {
      sd = sd;
      max_sd = 0;
      server_fd_set = λ _. false;
      endpoints = [];
    } in
    if not bound
    then ok dangling
    else (if not listening then ok (started idle) else (do
      set ← fd_set sd (λ _. false)
      ok (started (record idle { max_sd = sd; server_fd_set = set }))))

-- close_child_socket
unfoldable pub close_child_socket : ℕ → TcpServer → List Event × TcpServer
close_child_socket child_sd s = (
  closed child_sd ∷ [],
  record s {
    server_fd_set = fd_clr child_sd s.server_fd_set;
    max_sd = if child_sd == s.max_sd then s.max_sd - 1 else s.max_sd;
  },
)

-- The loop of tcp_server_stop.
unfoldable pub stop_loop : ℕ → TcpServer → Run (List Event × TcpServer)
stop_loop zero s = fault
stop_loop (suc k) s =
    let (events, s') = close_child_socket s.max_sd s in
    let rest = stop_loop k s' >>= λ (later, s''). ok (events ++ later, s'') in
    if ltb s.sd s.max_sd then rest else ok ([], s)

-- tcp_server_stop, which frees the server.
unfoldable pub stop : ℕ → TcpServer → Run (List Event)
stop fuel s = do (events, s') ← stop_loop fuel s; ok (events ++ closed s'.sd ∷ [])

-- create_child_socket: `memory` says whether `calloc` succeeds, `peer` is what getpeername gives.
unfoldable pub create_child_socket :
    (memory : Bool) (peer : Option ℕ) → ℕ → TcpServer → Run TcpServer
create_child_socket memory peer child_sd s = if not memory then fault else (do
  set ← fd_set child_sd s.server_fd_set
  ok (record s {
    endpoints =
        record { addr = elim peer [ none ↦ 0 | some addr ↦ addr ]; sd = child_sd } ∷ s.endpoints;
    server_fd_set = set;
    max_sd = if ltb s.max_sd child_sd then child_sd else s.max_sd;
  }))

-- A connection that waits: what `accept`, `calloc` and `getpeername` give.
pub record Connection : Type 0 where
  pub new_sd : Option ℕ
  pub memory : Bool
  pub peer : Option ℕ

-- tcp_server_accept: the result, 0 or 1, and what has happened.
unfoldable pub accept : Connection → TcpServer → Run (ℕ × List Event × TcpServer)
accept connection s = elim connection.new_sd [
  | none ↦ ok (0, [], s)
  | some new_sd ↦ (do
    s' ← create_child_socket connection.memory connection.peer new_sd s
    ok (1, accepted new_sd ∷ [], s'))
]

-- get_endpoint
unfoldable pub get_endpoint : List Endpoint → ℕ → Option Endpoint
get_endpoint [] sd = none
get_endpoint (endpoint ∷ endpoints) sd =
    let later = get_endpoint endpoints sd in if endpoint.sd == sd then some endpoint else later

-- What `read` returns, as the `size_t` that it is kept in.
abbrev pub bytes_read : Option (List ℕ) → ℕ
bytes_read none = size_neg 1
bytes_read (some bytes) = length bytes

abbrev pub filled : Option (List ℕ) → Run (List ℕ)
filled none = ok (zeros segment_size)
filled (some bytes) = write_at 0 bytes (zeros segment_size)

-- tcp_server_receive: a `size_t` is never below zero, so that the test for a failure does nothing.
unfoldable pub receive : Option (List ℕ) → ℕ → TcpServer → Run (List Event × TcpServer)
receive bytes child_sd s = do
  buffer ← filled bytes
  if bytes_read bytes == 0 then ok (close_child_socket child_sd s) else (do
    data_bytes ← read_at 0 (bytes_read bytes) buffer
    segment ← write_at 0 data_bytes (zeros segment_size)
    ok (rx (get_endpoint s.endpoints child_sd) segment (bytes_read bytes) ∷ [], s))

-- What tcp_server_tick does for one descriptor that is ready.
unfoldable pub serve :
    Connection → (ℕ → Option (List ℕ)) → ℕ → TcpServer → Run (List Event × TcpServer)
serve connection reads d s =
    if d == s.sd
    then (do (result, events, s') ← accept connection s; ok (events, s'))
    else receive (reads d) d s

-- The loop of tcp_server_tick from the descriptor `d` on; `max_sd` is read again in each round.
unfoldable pub tick_loop :
    ℕ
    → (ℕ → Bool)
    → Connection
    → (ℕ → Option (List ℕ))
    → ℕ
    → TcpServer
    → Run (List Event × TcpServer)
tick_loop zero ready connection reads d s = fault
tick_loop (suc k) ready connection reads d s =
    let step = if ready d then serve connection reads d s else ok ([], s) in
    let rest = step >>= λ (events, s').
    tick_loop k ready connection reads (d + 1) s' >>= λ (later, s''). ok (events ++ later, s'') in
    if leb d s.max_sd then rest else ok ([], s)

-- tcp_server_tick: `selected` says whether `select` has found a descriptor, `ready` which ones.
unfoldable pub tick :
    ℕ
    → (selected : Bool) → (ℕ → Bool)
    → Connection
    → (ℕ → Option (List ℕ))
    → TcpServer
    → Run (List Event × TcpServer)
tick fuel selected ready connection reads s =
    if selected then tick_loop fuel ready connection reads s.sd s else ok ([], s)
