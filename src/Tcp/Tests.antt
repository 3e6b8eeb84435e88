-- ===== src/Tcp/Tests.antt =====
-- The TCP server's theorems at a server on descriptor 3 with the connections 4 and 5.
use ucp.Common.{
  ℕ, ◌≡◌, ◌≢◌, ◌↔◌, refl, arith, Bool, true, ◌||◌, Option, none, some, List, [], ◌∷◌, ◌++◌, ◌+◌,
  Bool-cases, inl, inr, length, ◌≤◌, ◌==◌, if◌then◌else◌, ok, fault,
}
use ucp.Common.Words.{negsuc}
use ucp.Packet.Types.{zeros}
use ucp.Tcp.Client.{TcpClient, received, client_receive}
use ucp.Tcp.Server.{TcpServer, closed, Connection, get_endpoint, receive, stop, tick}
use ucp.Tcp.Valid.{IsServing, IsNew, accept_events, receive_overruns}
use ucp.Tcp.Rounds.{expected}
use ucp.Tcp.Ticking.{incoming, set_after, tick_lem}
use ucp.Tcp.Stopping.{stop_closes}

abbrev server : TcpServer
server = record {
  sd = 3;
  max_sd = 5;
  server_fd_set = λ a. a == 3 || a == 4 || a == 5;
  endpoints = record { addr = 8; sd = 5 } ∷ record { addr = 9; sd = 4 } ∷ [];
}

server-IsServing : IsServing server
unfolding get_endpoint
server-IsServing = record {
  in_range = omega arith;
  limited = omega arith;
  listening = refl;
  capped = λ d inside. ground arith;
  known = λ d inside apart. elim (Bool-cases (d == 4)) [
    | inl this ↦ let e : d ≡ 4 = ground arith in rw e
    | inr other ↦ let e : d ≡ 5 = ground arith in rw e
  ];
}

abbrev connection : Connection
connection = record { new_sd = some 6; memory = true; peer = some 7 }

-- The peer of 4 has closed, and 5 has two bytes.
abbrev ready : ℕ → Bool
ready a = a == 3 || a == 4 || a == 5

abbrev reads : ℕ → List ℕ
reads a = if a == 5 then 1 ∷ 2 ∷ [] else []

connection-IsNew : IsNew connection server
connection-IsNew = (refl, λ d e. let six : d ≡ 6 = ground arith in (omega arith, ground arith))

short : (a : ℕ) → length (reads a) ≤ 1024
short a = elim (Bool-cases (a == 5)) [
  | inl this ↦ rw this (omega arith)
  | inr other ↦ rw other (omega arith)
]

tick_lem_example :
    (s' : TcpServer) × (tick 1026 true ready connection (λ a. some (reads a)) server
      ≡ ok (
        accept_events (incoming ready connection server)
            ++ expected server.endpoints ready reads (server.sd + 1) 1024,
        s',
      ))
    × IsServing s'
    × ((a : ℕ) → a ≢ server.sd → s'.server_fd_set a ≡ set_after ready reads connection server a)
tick_lem_example =
    tick_lem server ready reads connection 1026 1024 server-IsServing connection-IsNew
      (λ a live. live) (λ a live. short a) (omega arith) (omega arith)

stop_closes_example : stop 3 server ≡ ok (closed 5 ∷ closed 4 ∷ closed 3 ∷ [])
stop_closes_example = stop_closes server 3 (omega arith) (omega arith)

unread : (bs : List ℕ) → none ≡ some bs → length bs ≤ 1024
unread bs e = cc

abbrev unread_bytes : Option (List ℕ)
unread_bytes = none

receive_overruns_example : (receive none 4 server ≡ fault) ↔ (unread_bytes ≡ none)
receive_overruns_example = receive_overruns server none 4 unread

abbrev tcp_client : TcpClient
tcp_client = record { sd = 6; port = some 9000; on_receive = true; on_disconnect = true }

-- A failure of recv is passed on as data of the length -1.
failed_recv : client_receive none (some tcp_client) ≡ ok (received (zeros 1024) (negsuc 0) ∷ [])
unfolding client_receive
failed_recv = refl
