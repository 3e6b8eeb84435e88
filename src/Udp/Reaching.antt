-- ===== src/Udp/Reaching.antt =====
-- The first datagram of a part on its way to the server, and the server's connection back.
use ucp.Common.{
  ℕ, ◌+◌, ◌<◌, ◌≤◌, ◌≡◌, refl, sym, ap, ◌∙◌, arith, Bool, true, Option, none, some, take,
  if◌then◌else◌, List, ◌++◌, All, ◌==◌, Bool-cases, inl, inr, length, length-append, drop, take_all,
  Run, ok, ◌>>=◌, read_at, read_at, read_at_ok, write_at_front,
}
use ucp.Common.Words.{u8_mod, u32_mod}
use ucp.Packet.Types.{Packet, zeros, name_size, udp_packet_size, udp_packet_data_size}
use ucp.Packet.Init.{packet_init_metadata}
use ucp.Packet.Encode.{encode}
use ucp.Packet.Wire.{metadata_wire}
use ucp.Packet.Decode.{decode}
use ucp.Packet.RoundTrip.{take_front, delivered_wire, encode-metadata_wire}
use ucp.Packet.Named.{metadata_packet_of, metadata_packet_of-IsMetadata}
use ucp.Files.Disk.{Name, Disk, put}
use ucp.Files.Stream.{Stream}
use ucp.Files.Ops.{Handle}
use ucp.Tcp.Server.{Started, fd_setsize}
use ucp.Tcp.Valid.{start-IsServing}
use ucp.Tcp.Client.{TcpClient}
use ucp.Server.Setup.{open_part, announced_file}
use ucp.Udp.Sockets.{
  Address, Datagram, af_inet, inaddr_any, htons, ntohs, initialise, send, receive_from,
}
use ucp.Udp.Opening.{
  client_base_port, server_base_port, create_socket, seen_from, start_listening, block_buf_size,
  Opened, announce, start_block, endpoint_of, answer_first, server_main,
}

ntohs-htons : (n : ℕ) → n < 65536 → ntohs (htons n) ≡ n
ntohs-htons n small = omega arith

-- The ports of two parts differ as their numbers do.
htons-offset : (base idx : ℕ) → base + idx < 65536 → (htons (base + idx) == htons base) ≡ (idx == 0)
htons-offset base idx small =
    let there = ntohs-htons (base + idx) small in
    let here = ntohs-htons base (omega arith) in
    elim (Bool-cases (htons (base + idx) == htons base)) [
      | inl same ↦
          let e : htons (base + idx) ≡ htons base = ground arith in
          let none_further : base + idx ≡ base = sym there ∙ ap ntohs e ∙ here in
          rw same (ground arith)
      | inr other ↦ elim (Bool-cases (idx == 0)) [
        | inl first ↦
            let none_further : base + idx ≡ base = ground arith in
            let e : htons (base + idx) ≡ htons base = ap htons none_further in absurd (ground arith)
        | inr further ↦ rw (other, further) refl
      ]
    ]

-- tcp_server_start where its system calls succeed, for a descriptor that fits into a set.
abbrev pub serving : ℕ → ℕ → Run (Started × Address)
serving tcp_sd = start_listening true (some tcp_sd) true true

-- The address of the TCP server of a part.
abbrev listening_at : ℕ → Address
listening_at idx = record {
  family = af_inet;
  port = htons (client_base_port + idx);
  ip = inaddr_any;
}

-- What block_thread sends when `encode` has written `wire` at the front of its buffer.
announce_lem :
    (tcp_sd local_ip remote_ip idx part_size n : ℕ) (name buf wire rest : List ℕ) (sock_fd : ℕ)
    (addr : Address)
    → tcp_sd < fd_setsize
    → encode (packet_init_metadata true name (length name) idx part_size) buf block_buf_size
      ≡ ok (n, wire ++ rest)
    → length wire ≡ n
    → announce
        (serving tcp_sd)
        true
        local_ip
        remote_ip
        idx
        name
        part_size
        buf
        (some (sock_fd, addr))
      ≡ ok (
          some (record {
            datagram = record {
              src = seen_from local_ip addr;
              dst = record {
                family = af_inet;
                port = htons (server_base_port + idx);
                ip = remote_ip;
              };
              payload = wire;
            };
            listening = listening_at idx;
          }))
unfolding announce send start_listening
announce_lem tcp_sd local_ip remote_ip idx part_size n name buf wire rest sock_fd addr fits encoded
      counted =
    let sent : read_at 0 n (wire ++ rest) ≡ ok wire =
      read_at_ok 0 n (wire ++ rest) (omega (arith, length-append wire rest))
      ∙ ap ok (take_front n wire rest counted) in
    let (server, started, _, _) = start-IsServing tcp_sd fits in rw (started, encoded, sent) refl

-- A network with one datagram, which arrives at the socket that is bound to its destination port.
abbrev pub carries : Datagram → Address → Option Datagram
carries datagram bound = if datagram.dst.port == bound.port then some datagram else none

-- What main of the server does on a network with a datagram that fits into its buffer.
answer_lem :
    (can_open : Name → Bool) (accepted k sock_fd : ℕ) (client : TcpClient) (src dst : Address)
    (wire recv_buffer : List ℕ) (old : Packet) (h h' : Handle) (disk disk' : Disk)
    → length wire ≤ udp_packet_size
    → length recv_buffer ≡ udp_packet_size
    → (decode (wire ++ drop (length wire) recv_buffer) udp_packet_size old >>= λ rcv_pkt.
        open_part can_open accepted k rcv_pkt h disk)
      ≡ ok (h', disk')
    → server_main
        (some sock_fd)
        true
        (carries (record { src = src; dst = dst; payload = wire }))
        can_open
        accepted
        k
        (some client)
        recv_buffer
        old
        h
        disk
      ≡ ok (if dst.port == htons server_base_port then some (h', endpoint_of src, disk') else none)
unfolding server_main create_socket initialise receive_from answer_first
answer_lem can_open accepted k sock_fd client src dst wire recv_buffer old h h' disk disk' fits
      sized opened =
    let stored = write_at_front wire recv_buffer (omega arith) in
    elim (Bool-cases (dst.port == htons server_base_port)) [
      | inl here ↦ rw (here, take_all udp_packet_size wire fits, stored, opened) refl
      | inr elsewhere ↦ rw elsewhere refl
    ]

-- For the bytes `wire` that `encode` writes.
reached :
    (wire rest : List ℕ) (n : ℕ) (name buf recv_buffer : List ℕ)
    (sd tcp_sd server_sd idx part_size local_ip remote_ip accepted k : ℕ) (can_open : Name → Bool)
    (client : TcpClient) (old : Packet) (h : Handle) (disk : Disk)
    → can_open (take 19 name) ≡ true
    → tcp_sd < fd_setsize
    → All (λ c. 0 < c) name
    → idx < u8_mod
    → part_size < u32_mod
    → length buf ≡ block_buf_size
    → length recv_buffer ≡ udp_packet_size
    → udp_packet_data_size ≤ accepted
    → part_size < k
    → encode (packet_init_metadata true name (length name) idx part_size) buf block_buf_size
      ≡ ok (n, wire ++ rest)
    → length wire ≡ n
    → n ≤ udp_packet_size
    → (first : Opened) × (fp : Stream) × (start_block
          (some sd)
          true
          (serving tcp_sd)
          true
          local_ip
          remote_ip
          idx
          name
          part_size
          buf
        ≡ ok (some first))
      × (server_main
            (some server_sd)
            true
            (carries first.datagram)
            can_open
            accepted
            k
            (some client)
            recv_buffer
            old
            h
            disk
          ≡ ok (
              if idx == 0
              then some (
                record h { fp = some fp; part_size = part_size },
                record (first.listening) { ip = local_ip },
                put (take 19 name) (zeros part_size) disk,
              )
              else none))
      × (fp.content ≡ zeros part_size)
unfolding start_block create_socket initialise
reached wire rest n name buf recv_buffer sd tcp_sd server_sd idx part_size local_ip remote_ip
      accepted k can_open client old h disk openable settable text part small buf_sized recv_sized
      all enough encoded counted fits =
    let bound_to : Address = listening_at idx in
    let behind : List ℕ = drop (length wire) recv_buffer in
    let disk' : Disk = put (take 19 name) (zeros part_size) disk in
    let (fp, run, blank) =
      announced_file can_open name buf behind (length name) idx part_size block_buf_size
        udp_packet_size accepted k old h disk openable text part small buf_sized (omega arith)
        (omega arith) all enough in
    let opened =
      ap (λ (r : Run Packet). r >>= λ rcv_pkt. open_part can_open accepted k rcv_pkt h disk)
        (sym (
          delivered_wire
            (encode (packet_init_metadata true name (length name) idx part_size) buf block_buf_size)
            wire rest behind n udp_packet_size old encoded counted))
      ∙ run in
    let sent =
      announce_lem tcp_sd local_ip remote_ip idx part_size n name buf wire rest sd bound_to settable
        encoded counted in
    let remote : Address = record {
      family = af_inet;
      port = htons (server_base_port + idx);
      ip = remote_ip;
    } in
    let h' : Handle = record h { fp = some fp; part_size = part_size } in
    let answered =
      answer_lem can_open accepted k server_sd client (seen_from local_ip bound_to) remote wire
        recv_buffer old h h' disk disk' (omega arith) recv_sized opened in
    let there : ntohs (htons (client_base_port + idx)) ≡ client_base_port + idx =
      ntohs-htons (client_base_port + idx) (omega arith) in
    let back : endpoint_of (seen_from local_ip bound_to)
        ≡ record (listening_at idx) { ip = local_ip } =
      ap (λ (port : ℕ). record (listening_at idx) { port = htons port; ip = local_ip }) there in
    let first_only : (htons (server_base_port + idx) == htons server_base_port) ≡ (idx == 0) =
      htons-offset server_base_port idx (omega arith) in
    (
      record {
        datagram = record { src = seen_from local_ip bound_to; dst = remote; payload = wire };
        listening = listening_at idx;
      },
      fp,
      sent,
      answered
          ∙ ap
              (λ (b : Bool).
                ok
                  (if b then some (h', endpoint_of (seen_from local_ip bound_to), disk') else none))
              first_only
          ∙ ap (λ (a : Address). ok (if idx == 0 then some (h', a, disk') else none)) back,
      blank,
    )

-- Where all calls of the system, `malloc` and every write succeed, and the file can be opened: block_thread of
-- a part with a number below 256, of less than 2^32 bytes, for a name without a NUL, with a descriptor of its
-- TCP server below FD_SETSIZE, sends a datagram. On a network that carries this datagram alone, to the socket
-- bound to its destination port, main of the server gets it on the port that it has bound exactly where the
-- part's number is 0, and does nothing where it is not. Where it gets it, it opens in one round more than
-- the part has bytes a file of that many zeros, under the first 19 characters of the name, and connects
-- to the client's address and to the port that the TCP server of that block_thread is bound to.
pub part_announced :
    (name buf recv_buffer : List ℕ)
    (sd tcp_sd server_sd idx part_size local_ip remote_ip accepted k : ℕ) (can_open : Name → Bool)
    (client : TcpClient) (old : Packet) (h : Handle) (disk : Disk)
    → can_open (take 19 name) ≡ true
    → tcp_sd < fd_setsize
    → All (λ c. 0 < c) name
    → idx < u8_mod
    → part_size < u32_mod
    → length buf ≡ block_buf_size
    → length recv_buffer ≡ udp_packet_size
    → udp_packet_data_size ≤ accepted
    → part_size < k
    → (first : Opened) × (fp : Stream) × (start_block
          (some sd)
          true
          (serving tcp_sd)
          true
          local_ip
          remote_ip
          idx
          name
          part_size
          buf
        ≡ ok (some first))
      × (server_main
            (some server_sd)
            true
            (carries first.datagram)
            can_open
            accepted
            k
            (some client)
            recv_buffer
            old
            h
            disk
          ≡ ok (
              if idx == 0
              then some (
                record h { fp = some fp; part_size = part_size },
                record (first.listening) { ip = local_ip },
                put (take 19 name) (zeros part_size) disk,
              )
              else none))
      × (fp.content ≡ zeros part_size)
unfolding packet_init_metadata
part_announced name buf recv_buffer sd tcp_sd server_sd idx part_size local_ip remote_ip accepted k
      can_open client old h disk openable settable text part small buf_sized recv_sized all enough =
    let packet : Packet = metadata_packet_of name idx part_size in
    let is_metadata = metadata_packet_of-IsMetadata name idx part_size part small in
    let whole = is_metadata.name_whole in
    reached (metadata_wire packet) (drop (6 + name_size) buf) (6 + name_size) name buf recv_buffer
      sd tcp_sd server_sd idx part_size local_ip remote_ip accepted k can_open client old h disk
      openable settable text part small buf_sized recv_sized all enough
      (encode-metadata_wire packet buf block_buf_size is_metadata (omega arith) buf_sized)
      (omega (arith, whole)) (omega arith)
