-- ===== src/Packet/Received.antt =====
-- What the decoders make of the bytes of a packet, whatever bytes follow them.
use ucp.Common.{
  ℕ, ◌%◌, ◌≤◌, ◌<◌, ◌≡◌, ap, ◌∙◌, arith, bit_and, List, ◌++◌, length, length-append, take, drop,
  take-append, length-take, ok, load, read_at, read_at_ok, write_at_front, false, ltb,
}
use ucp.Common.Bits.{bit_and-byte}
use ucp.Common.Words.{u8_mod}
use ucp.Packet.Types.{
  Packet, type_ctrl, type_data, type_metadata, name_size, sizeof_packet, udp_packet_data_size,
}
use ucp.Packet.Bytes.{join_word-split, join_big-split, join_half-split}
use ucp.Packet.Decode.{decode_data, decode_ctrl_data, decode_meta_data}
use ucp.Packet.Wire.{
  IsData, IsCtrl, IsMetadata, data_wire, ctrl_wire, metadata_header, metadata_wire,
  length-data_wire,
}

-- `old` with the data packet of `p`: the old segment keeps the bytes behind the new ones.
abbrev pub received_data : Packet → Packet → Packet
received_data p old = record old {
  type = type_data;
  data_packet = record (p.data_packet) {
    segment_data =
        take p.data_packet.seg_len p.data_packet.segment_data
        ++ drop p.data_packet.seg_len old.data_packet.segment_data;
  };
}

byte_kept : (b : ℕ) → b < u8_mod → bit_and b 0xff ≡ b
byte_kept b h = bit_and-byte b ∙ omega arith

pub decode_data-wire :
    (p old : Packet) (rest : List ℕ) (buf_len : ℕ)
    → IsData p
    → length old.data_packet.segment_data ≡ udp_packet_data_size
    → sizeof_packet ≤ buf_len
    → decode_data (data_wire p ++ rest) buf_len old ≡ ok (received_data p old)
unfolding decode_data load
decode_data-wire p old rest buf_len h whole room =
    let n : ℕ = p.data_packet.seg_len in
    let bytes : List ℕ = take n p.data_packet.segment_data in
    let large : ltb buf_len sizeof_packet ≡ false = ground arith in
    let typed : p.type % u8_mod ≡ type_data = omega arith in
    let counted : length bytes ≡ n = omega (arith, length-take n p.data_packet.segment_data) in
    let sent : take n (bytes ++ rest) ≡ bytes = rw counted at (take-append bytes rest) in
    let fits : length bytes ≤ length old.data_packet.segment_data = omega arith in
    let read : read_at 12 n (data_wire p ++ rest) ≡ ok bytes =
      read_at_ok 12 n (data_wire p ++ rest)
        (omega (arith, length-append (data_wire p) rest, length-data_wire p h))
      ∙ ap ok sent in
    rw (large, join_half-split n (omega arith), read)
      (rw (write_at_front bytes old.data_packet.segment_data fits) (
        rw (typed, byte_kept p.data_packet.flag h.flag_fits)
          (rw
            (
              join_word-split p.data_packet.seq_no h.seq_no_fits,
              join_word-split p.data_packet.offset h.offset_fits,
            )
            (rw counted))))

pub decode_ctrl_data-wire :
    (p old : Packet) (rest : List ℕ) (buf_len : ℕ)
    → IsCtrl p
    → 6 ≤ buf_len
    → decode_ctrl_data (ctrl_wire p ++ rest) buf_len old
      ≡ ok (record old { type = type_ctrl; ctrl_packet = p.ctrl_packet })
unfolding decode_ctrl_data load
decode_ctrl_data-wire p old rest buf_len h room =
    let large : ltb buf_len 6 ≡ false = ground arith in
    let typed : p.type % u8_mod ≡ type_ctrl = omega arith in
    rw (large, typed, byte_kept p.ctrl_packet.flag h.flag_fits)
      (rw (join_word-split p.ctrl_packet.seq_no h.seq_no_fits))

pub decode_meta_data-wire :
    (p old : Packet) (rest : List ℕ) (buf_len : ℕ)
    → IsMetadata p
    → sizeof_packet ≤ buf_len
    → decode_meta_data (metadata_wire p ++ rest) buf_len old
      ≡ ok (record old { type = type_metadata; metadata_packet = p.metadata_packet })
unfolding decode_meta_data load
decode_meta_data-wire p old rest buf_len h room =
    let name : List ℕ = p.metadata_packet.destination_name in
    let large : ltb buf_len sizeof_packet ≡ false = ground arith in
    let typed : bit_and p.type 0xff ≡ type_metadata = bit_and-byte p.type ∙ omega arith in
    let sent : take name_size (name ++ rest) ≡ name = rw h.name_whole at (take-append name rest) in
    let read : read_at 6 name_size (metadata_wire p ++ rest) ≡ ok name =
      read_at_ok 6 name_size (metadata_wire p ++ rest) (
        omega (arith, length-append (metadata_wire p) rest, length-append (metadata_header p) name))
      ∙ ap ok sent in
    rw (large, read, typed, byte_kept p.metadata_packet.part_index h.part_index_fits)
      (rw (join_big-split p.metadata_packet.part_size h.part_size_fits))
