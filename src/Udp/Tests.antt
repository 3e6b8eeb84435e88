-- ===== src/Udp/Tests.antt =====
-- The announcement of a part, at a part of three bytes.
use ucp.Common.{◌≡◌, refl, arith, true, false, none, some, [], ◌∷◌, ok}
use ucp.Packet.Types.{blank, type_data, zeros, length-zeros, udp_packet_size, udp_packet_data_size}
use ucp.Files.Disk.{Disk, put}
use ucp.Files.Stream.{Stream}
use ucp.Files.Ops.{Handle}
use ucp.Tcp.Client.{TcpClient}
use ucp.Udp.Sockets.{htons}
use ucp.Udp.Opening.{block_buf_size, Opened, start_block, server_main}
use ucp.Udp.Reaching.{serving, carries, part_announced}

-- 6341 is 0x18c5.
swapped : htons 6341 ≡ 50456
swapped = refl

abbrev back : TcpClient
back = record { sd = 6; port = none; on_receive = false; on_disconnect = false }

abbrev garbage : Handle
garbage = record { fp = none; last_seq_no = 9; part_size = 9 }

-- A directory with nothing in it.
abbrev nothing : Disk
nothing name = none

-- The first part, of three bytes.
part_announced_example :
    (first : Opened) × (fp : Stream) × (start_block
        (some 3)
        true
        (serving 4)
        true
        10
        20
        0
        (97 ∷ 98 ∷ [])
        3
        (zeros block_buf_size)
      ≡ ok (some first))
    × (server_main
          (some 5)
          true
          (carries first.datagram)
          (λ name. true)
          udp_packet_data_size
          4
          (some back)
          (zeros udp_packet_size)
          (blank type_data)
          garbage
          nothing
        ≡ ok (
            some (
              record garbage { fp = some fp; part_size = 3 },
              record (first.listening) { ip = 10 },
              put (97 ∷ 98 ∷ []) (zeros 3) nothing,
            )))
    × (fp.content ≡ zeros 3)
part_announced_example =
    part_announced (97 ∷ 98 ∷ []) (zeros block_buf_size) (zeros udp_packet_size) 3 4 5 0 3 10 20
      udp_packet_data_size 4 (λ name. true) back (blank type_data) garbage nothing refl
      (omega arith) (omega arith, (omega arith, tt)) (omega arith) (omega arith)
      (length-zeros block_buf_size) (length-zeros udp_packet_size) (omega arith) (omega arith)
