-- ===== src/Server/Setup.antt =====
-- src/ucp_server.c: what main does with the first datagram, which announces the part.
use ucp.Common.{
  ℕ, ◌%◌, ◌<◌, ◌≤◌, ◌≡◌, arith, Bool, true, some, List, All, length, take, Run, ok, ◌>>=◌, ◌==◌,
  if◌then◌else◌,
}
use ucp.Common.Words.{u8_mod, u32_mod}
use ucp.Packet.Types.{Packet, type_metadata, sizeof_packet, udp_packet_data_size, zeros}
use ucp.Packet.Init.{packet_init_metadata}
use ucp.Packet.Encode.{encode}
use ucp.Packet.RoundTrip.{delivered}
use ucp.Packet.Named.{c_string, announced}
use ucp.Files.Disk.{Name, Disk, put}
use ucp.Files.Stream.{Stream}
use ucp.Files.Ops.{Handle, open_file_of_size}
use ucp.Files.Creating.{open_file_of_size_lem}

-- `can_open` says which files can be opened, and `accepted` how much of each write is accepted.
unfoldable pub open_part :
    (can_open : Name → Bool) (accepted fuel : ℕ)
    → (rcv_pkt : Packet) → Handle
    → Disk
    → Run (Handle × Disk)
open_part can_open accepted fuel rcv_pkt handle disk =
    if rcv_pkt.type == type_metadata
    then (do
      name ← c_string rcv_pkt.metadata_packet.destination_name
      (done, handle, disk) ←
          open_file_of_size can_open accepted fuel handle name rcv_pkt.metadata_packet.part_size
            disk
      ok (handle, disk))
    else ok (handle, disk)

-- The announcement of a part of `part_size` bytes, made and encoded by the client and received behind
-- any content of the server's buffer and packet, makes the server, where the file can be opened and
-- every write is accepted, in one round more than the part has bytes, open a file of that many zeros
-- under the first 19 characters of the announced name, and keep the size in its handle.
pub announced_file :
    (can_open : Name → Bool) (name buf rest : List ℕ)
    (dst_len part_index part_size buf_len recv_len accepted k : ℕ) (old : Packet) (h : Handle)
    (disk : Disk)
    → can_open (take 19 name) ≡ true
    → All (λ c. 0 < c) name
    → part_index < u8_mod
    → part_size < u32_mod
    → length buf ≡ buf_len
    → sizeof_packet ≤ buf_len
    → sizeof_packet ≤ recv_len
    → udp_packet_data_size ≤ accepted
    → part_size < k
    → (fp : Stream) × ((delivered
            (encode (packet_init_metadata true name dst_len part_index part_size) buf buf_len)
            rest
            recv_len
            old
          >>= λ rcv_pkt. open_part can_open accepted k rcv_pkt h disk)
        ≡ ok (
          record h { fp = some fp; part_size = part_size },
          put (take 19 name) (zeros part_size) disk,
        ))
      × (fp.content ≡ zeros part_size)
unfolding open_part
announced_file can_open name buf rest dst_len part_index part_size buf_len recv_len accepted k old h
      disk openable text hi hs sized room room' all enough =
    let (p, run, typed, index, size, dst) =
      announced name buf rest dst_len part_index part_size buf_len recv_len old text hi hs sized
        room room' in
    let (fp, opened, blank) =
      open_file_of_size_lem can_open accepted k part_size h (take 19 name) disk openable all
        enough in
    let is_metadata : (p.type == type_metadata) ≡ true = ground arith in
    let whole : part_size % u32_mod ≡ part_size = omega arith in
    (fp, rw (run, is_metadata, dst, size, opened, whole), blank)
