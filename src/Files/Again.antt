-- ===== src/Files/Again.antt =====
-- Reading a packet again from a given offset.
use ucp.Common.{
  ℕ, ◌+◌, ◌<◌, ◌≡◌, ap, arith, true, false, none, some, List, ltb, ◌==◌, if◌then◌else◌, length, ok,
  fault, write_at_past, Bool-cases, inl, inr,
}
use ucp.Common.Words.{succ32}
use ucp.Packet.Types.{zeros, length-zeros, udp_packet_data_size}
use ucp.Packet.Made.{data_packet_of}
use ucp.Files.Stream.{Stream, fread, long_limit}
use ucp.Files.Ops.{Handle, opened, packet_of_read, get_next_packet_with_offset_and_size}
use ucp.Files.Reading.{packet_of_read-made}

packet_of_read-past :
    (h : Handle) (offset : ℕ) (bytes : List ℕ) (fp : Stream)
    → udp_packet_data_size < length bytes
    → packet_of_read true h offset bytes fp ≡ fault
unfolding packet_of_read
packet_of_read-past h offset bytes fp large =
    let over : length (zeros udp_packet_data_size) < 0 + length bytes =
      omega (arith, length-zeros udp_packet_data_size) in
    rw (write_at_past 0 bytes (zeros udp_packet_data_size) over)

-- The stream behind a read of `size` bytes from `offset`.
abbrev pub read_from : ℕ → ℕ → Stream → List ℕ × Stream
read_from offset size fp = fread size (record fp { pos = offset; eof = false })

-- On an open file, with memory left and an offset that is no negative `long`,
-- `file_io_get_next_packet_with_offset_and_size` overruns its buffer when it finds more than
-- UDP_PACKET_DATA_SIZE of the `size` bytes; otherwise it returns NULL when it finds none, and else a
-- packet with the bytes it finds, that offset modulo 2^32, the handle's next number and no flag.
pub get_again_cases :
    (h : Handle) (fp : Stream) (offset size : ℕ)
    → h.fp ≡ some fp
    → offset < long_limit
    → get_next_packet_with_offset_and_size true h offset size ≡ (
        if ltb udp_packet_data_size (length (read_from offset size fp).0)
        then fault
        else (if length (read_from offset size fp).0 == 0
            then ok (none, record h { fp = some (read_from offset size fp).1 })
            else ok (
              some (data_packet_of h.last_seq_no offset (read_from offset size fp).0),
              record h {
                fp = some (read_from offset size fp).1;
                last_seq_no = succ32 h.last_seq_no;
              },
            )))
unfolding get_next_packet_with_offset_and_size
get_again_cases h fp offset size is_open small =
    let stream : opened h.fp ≡ ok fp = ap opened is_open in
    let sought : ltb offset long_limit ≡ true = ground arith in
    let (bytes, fp') = read_from offset size fp in
    rw (stream, sought)
      (elim (Bool-cases (ltb udp_packet_data_size (length bytes))) [
        | inl large ↦ rw (large, packet_of_read-past h offset bytes fp' (ground arith))
        | inr fits ↦ rw (fits, packet_of_read-made h offset bytes fp' (ground arith))
      ])
