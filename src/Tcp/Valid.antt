-- ===== src/Tcp/Valid.antt =====
-- The invariant of the TCP server, and that its parts keep it.
use ucp.Common.{
  ℕ, ◌+◌, ◌≤◌, ◌<◌, ◌≡◌, ◌≢◌, ◌↔◌, refl, ap, ◌∙◌, arith, Bool, true, false, Option, none, some,
  List, [], ◌∷◌, ◌++◌, ltb, leb, ◌==◌, if◌then◌else◌, length, length-append, take-append, drop, ok,
  fault, read_at, read_at_ok, write_at, write_at_front, Bool-cases, inl, inr,
}
use ucp.Common.Words.{size_neg}
use ucp.Packet.Types.{zeros, length-zeros}
use ucp.Tcp.Server.{
  start, started, fd_setsize, segment_size, Endpoint, TcpServer, Event, accepted, closed, rx,
  Connection, close_child_socket, create_child_socket, accept, get_endpoint, receive,
}

abbrev pub is_found : Option Endpoint → Bool
is_found none = false
is_found (some e) = true

-- The server listens, all descriptors of the set are within `max_sd` and FD_SETSIZE, and each
-- connection in the set has an endpoint.
pub record IsServing (s : TcpServer) : Type 0 where
  pub in_range : s.sd ≤ s.max_sd
  pub limited : s.max_sd < fd_setsize
  pub listening : s.server_fd_set s.sd ≡ true
  pub capped : (d : ℕ) → s.server_fd_set d ≡ true → d ≤ s.max_sd
  pub known :
      (d : ℕ) → s.server_fd_set d ≡ true → d ≢ s.sd → is_found (get_endpoint s.endpoints d) ≡ true

-- A server that listens after tcp_server_start.
pub start-IsServing :
    (sd : ℕ)
    → sd < fd_setsize
    → (s : TcpServer) × (start true (some sd) true true ≡ ok (started s))
      × (s.sd ≡ sd)
      × IsServing s
unfolding start
start-IsServing sd fits =
    let limit : ltb sd fd_setsize ≡ true = ground arith in
    (
      record {
        sd = sd;
        max_sd = sd;
        server_fd_set = λ a. if a == sd then true else false;
        endpoints = [];
      },
      rw limit,
      refl,
      record {
        in_range = omega arith;
        limited = fits;
        listening = ground arith;
        capped = λ d inside. ground arith;
        known = λ d inside apart. ground arith;
      },
    )

pub close_child_socket-IsServing :
    (s : TcpServer) (d : ℕ) → IsServing s → d ≢ s.sd → IsServing (close_child_socket d s).1
unfolding close_child_socket
close_child_socket-IsServing s d h other = record {
  in_range = ground arith;
  limited = ground arith;
  listening = ground arith;
  capped = λ a inside. ground (arith, h.capped a);
  known = λ a inside apart. ground (arith, h.known a);
}

-- A connection that `accept` can give: one that is not in the set yet and fits it, with memory left.
abbrev pub IsNew : Connection → TcpServer → Type 0
IsNew connection s =
    (connection.memory ≡ true)
    × ((d : ℕ) → connection.new_sd ≡ some d → (d < fd_setsize) × (s.server_fd_set d ≡ false))

abbrev pub accept_events : Option ℕ → List Event
accept_events none = []
accept_events (some d) = accepted d ∷ []

abbrev pub accept_result : Option ℕ → ℕ
accept_result none = 0
accept_result (some d) = 1

abbrev pub is_new : Option ℕ → ℕ → Bool
is_new none a = false
is_new (some d) a = a == d

-- The server with a new connection has the old endpoints for all others.
pub record IsAccepted (new_sd : Option ℕ) (s s' : TcpServer) : Type 0 where
  pub serving : IsServing s'
  pub same_sd : s'.sd ≡ s.sd
  pub grown : (a : ℕ) → s'.server_fd_set a ≡ (if is_new new_sd a then true else s.server_fd_set a)
  pub old :
      (d : ℕ) → s.server_fd_set d ≡ true → get_endpoint s'.endpoints d ≡ get_endpoint s.endpoints d

accept_some :
    (s : TcpServer) (d : ℕ) (peer : Option ℕ)
    → IsServing s
    → d < fd_setsize
    → s.server_fd_set d ≡ false
    → (s' : TcpServer) × (create_child_socket true peer d s ≡ ok s') × IsAccepted (some d) s s'
unfolding create_child_socket get_endpoint
accept_some s d peer h fits new =
    let limit : ltb d fd_setsize ≡ true = ground arith in
    let other : (a : ℕ) → s.server_fd_set a ≡ true → (d == a) ≡ false =
      λ a inside. ground (arith, new) in
    (
      record s {
        endpoints =
            record { addr = elim peer [ none ↦ 0 | some addr ↦ addr ]; sd = d } ∷ s.endpoints;
        server_fd_set = λ a. if a == d then true else s.server_fd_set a;
        max_sd = if ltb s.max_sd d then d else s.max_sd;
      },
      rw limit,
      record {
        serving = record {
          in_range = ground arith;
          limited = ground arith;
          listening = ground arith;
          capped = λ a inside. ground (arith, h.capped a);
          known = λ a inside apart. ground (arith, h.known a);
        };
        same_sd = refl;
        grown = λ a. refl;
        old = λ a inside. rw (other a inside);
      },
    )

accept_new :
    (s : TcpServer) (new_sd : Option ℕ) (memory : Bool) (peer : Option ℕ)
    → IsServing s
    → IsNew (record { new_sd = new_sd; memory = memory; peer = peer }) s
    → (s' : TcpServer) × (accept (record { new_sd = new_sd; memory = memory; peer = peer }) s
        ≡ ok (accept_result new_sd, accept_events new_sd, s'))
      × IsAccepted new_sd s s'
unfolding accept
accept_new s none memory peer h new =
    (s, refl, record { serving = h; same_sd = refl; grown = λ a. refl; old = λ a i. refl })
accept_new s (some d) false peer h (enough, new) = cc
accept_new s (some d) true peer h (enough, new) =
    let (fits, outside) = new d refl in
    let (s', run, done) = accept_some s d peer h fits outside in (s', rw run, done)

pub accept-IsAccepted :
    (s : TcpServer) (connection : Connection)
    → IsServing s
    → IsNew connection s
    → (s' : TcpServer) × (accept connection s
        ≡ ok (accept_result connection.new_sd, accept_events connection.new_sd, s'))
      × IsAccepted connection.new_sd s s'
accept-IsAccepted s connection h new =
    accept_new s connection.new_sd connection.memory connection.peer h new

-- What has been read, in the rest of the zeros of a segment.
abbrev pub padded : List ℕ → List ℕ
padded bytes = bytes ++ drop (length bytes) (zeros segment_size)

-- What tcp_server_receive makes of bytes that were read.
abbrev pub receive_event : List Endpoint → List ℕ → ℕ → Event
receive_event endpoints bytes d =
    if length bytes == 0
    then closed d
    else rx (get_endpoint endpoints d) (padded bytes) (length bytes)

abbrev pub receive_state : List ℕ → ℕ → TcpServer → TcpServer
receive_state bytes d s = if length bytes == 0 then (close_child_socket d s).1 else s

pub receive-receive_event :
    (s : TcpServer) (bytes : List ℕ) (d : ℕ)
    → length bytes ≤ segment_size
    → receive (some bytes) d s
      ≡ ok (receive_event s.endpoints bytes d ∷ [], receive_state bytes d s)
unfolding receive close_child_socket
receive-receive_event s bytes d fits =
    let blank : List ℕ = zeros segment_size in
    let room : length bytes ≤ length blank = omega (arith, length-zeros segment_size) in
    let written : write_at 0 bytes blank ≡ ok (padded bytes) = write_at_front bytes blank room in
    let read : read_at 0 (length bytes) (padded bytes) ≡ ok bytes =
      read_at_ok 0 (length bytes) (padded bytes)
        (omega (arith, length-append bytes (drop (length bytes) blank)))
      ∙ ap ok (take-append bytes (drop (length bytes) blank)) in
    elim (Bool-cases (length bytes == 0)) [
      | inl gone ↦ rw (written, gone)
      | inr some_bytes ↦ rw (written, some_bytes, read, written)
    ]

receive_failed : (s : TcpServer) (d : ℕ) → receive none d s ≡ fault
unfolding receive read_at
receive_failed s d =
    let over : leb (0 + size_neg 1) (length (zeros segment_size)) ≡ false =
      ground (arith, length-zeros segment_size) in
    rw over

-- Where `read` fails or gives at most 1024 bytes, tcp_server_receive runs out of bounds exactly when
-- `read` fails.
pub receive_overruns :
    (s : TcpServer) (bytes : Option (List ℕ)) (d : ℕ)
    → ((bs : List ℕ) → bytes ≡ some bs → length bs ≤ segment_size)
    → (receive bytes d s ≡ fault) ↔ (bytes ≡ none)
receive_overruns s none d fits = (λ e. refl, λ e. receive_failed s d)
receive_overruns s (some bs) d fits =
    (λ e. ground (arith, receive-receive_event s bs d (fits bs refl)), λ e. cc)
