-- ===== src/Packet/Wire.antt =====
-- The bytes of a packet on the wire, and that the encoders write exactly these.
use ucp.Common.{
  ℕ, ◌+◌, ◌%◌, ◌≤◌, ◌<◌, ◌≡◌, arith, bit_and, List, [], ◌∷◌, ◌++◌, length, take, drop, length-take,
  take_all, write_at_ok, ok, read_at_ok, write_at_twice, true, false, ltb, ◌==◌,
}
use ucp.Common.Words.{shr, u8_mod, u32_mod, size_mod}
use ucp.Packet.Types.{
  Packet, type_ctrl, type_data, type_metadata, name_size, sizeof_packet, udp_packet_data_size,
}
use ucp.Packet.Encode.{word_bytes, encode_data, encode_ctrl_data, encode_meta_data}

-- A data packet whose fields fit the wire format.
pub record IsData (p : Packet) : Type 0 where
  pub typed : p.type ≡ type_data
  pub flag_fits : p.data_packet.flag < u8_mod
  pub seq_no_fits : p.data_packet.seq_no < u32_mod
  pub offset_fits : p.data_packet.offset < u32_mod
  pub seg_len_fits : p.data_packet.seg_len ≤ udp_packet_data_size
  pub segment_whole : length p.data_packet.segment_data ≡ udp_packet_data_size

abbrev pub data_header : Packet → List ℕ
data_header p =
    p.type % u8_mod
    ∷ bit_and p.data_packet.flag 0xff
    ∷ (word_bytes p.data_packet.seq_no
        ++ word_bytes p.data_packet.offset
        ++ bit_and p.data_packet.seg_len 0xff ∷ bit_and (shr p.data_packet.seg_len 8) 0xff ∷ [])

abbrev pub data_wire : Packet → List ℕ
data_wire p = data_header p ++ take p.data_packet.seg_len p.data_packet.segment_data

pub length-data_wire : (p : Packet) → IsData p → length (data_wire p) ≡ 12 + p.data_packet.seg_len
length-data_wire p h = omega (arith, length-take p.data_packet.seg_len p.data_packet.segment_data)

pub encode_data-wire :
    (p : Packet) (buf : List ℕ) (buf_len : ℕ)
    → IsData p
    → sizeof_packet ≤ buf_len
    → length buf ≡ buf_len
    → encode_data p buf buf_len
      ≡ ok (12 + p.data_packet.seg_len, data_wire p ++ drop (12 + p.data_packet.seg_len) buf)
unfolding encode_data
encode_data-wire p buf buf_len h room whole =
    let n : ℕ = p.data_packet.seg_len in
    let segment : List ℕ = p.data_packet.segment_data in
    let large : ltb buf_len sizeof_packet ≡ false = ground arith in
    let typed : (p.type == type_data) ≡ true = ground arith in
    let taken : length (take n segment) ≡ n = omega (arith, length-take n segment) in
    let (first, second) = write_at_twice (data_header p) (take n segment) buf (omega arith) in
    let sent : (12 + n) % size_mod ≡ 12 + n = omega arith in
    rw (large, typed, first, read_at_ok 0 n segment (omega arith), second, taken, sent)

-- A control packet whose fields fit the wire format.
pub record IsCtrl (p : Packet) : Type 0 where
  pub typed : p.type ≡ type_ctrl
  pub flag_fits : p.ctrl_packet.flag < u8_mod
  pub seq_no_fits : p.ctrl_packet.seq_no < u32_mod

abbrev pub ctrl_wire : Packet → List ℕ
ctrl_wire p = p.type % u8_mod ∷ bit_and p.ctrl_packet.flag 0xff ∷ word_bytes p.ctrl_packet.seq_no

pub encode_ctrl_data-wire :
    (p : Packet) (buf : List ℕ) (buf_len : ℕ)
    → IsCtrl p
    → 6 ≤ buf_len
    → length buf ≡ buf_len
    → encode_ctrl_data p buf buf_len ≡ ok (6, ctrl_wire p ++ drop 6 buf)
unfolding encode_ctrl_data
encode_ctrl_data-wire p buf buf_len h room whole =
    let large : ltb buf_len 6 ≡ false = ground arith in
    let typed : (p.type == type_ctrl) ≡ true = ground arith in
    rw (large, typed, write_at_ok 0 (ctrl_wire p) buf (omega arith))

-- A metadata packet whose fields fit the wire format.
pub record IsMetadata (p : Packet) : Type 0 where
  pub typed : p.type ≡ type_metadata
  pub part_index_fits : p.metadata_packet.part_index < u8_mod
  pub part_size_fits : p.metadata_packet.part_size < u32_mod
  pub name_whole : length p.metadata_packet.destination_name ≡ name_size

abbrev pub metadata_header : Packet → List ℕ
metadata_header p =
    bit_and p.type 0xff
    ∷ bit_and p.metadata_packet.part_index 0xff
    ∷ bit_and (shr p.metadata_packet.part_size 24) 0xff
    ∷ bit_and (shr p.metadata_packet.part_size 16) 0xff
    ∷ bit_and (shr p.metadata_packet.part_size 8) 0xff
    ∷ bit_and (shr p.metadata_packet.part_size 0) 0xff
    ∷ []

abbrev pub metadata_wire : Packet → List ℕ
metadata_wire p = metadata_header p ++ p.metadata_packet.destination_name

pub encode_meta_data-wire :
    (p : Packet) (buf : List ℕ) (buf_len : ℕ)
    → IsMetadata p
    → sizeof_packet ≤ buf_len
    → length buf ≡ buf_len
    → encode_meta_data p buf buf_len
      ≡ ok (6 + name_size, metadata_wire p ++ drop (6 + name_size) buf)
unfolding encode_meta_data
encode_meta_data-wire p buf buf_len h room whole =
    let name : List ℕ = p.metadata_packet.destination_name in
    let large : ltb buf_len sizeof_packet ≡ false = ground arith in
    let typed : (p.type == type_metadata) ≡ true = ground arith in
    let all : take name_size name ≡ name = take_all name_size name (omega arith) in
    let (first, second) = write_at_twice (metadata_header p) name buf (omega arith) in
    rw (large, typed, first, read_at_ok 0 name_size name (omega arith), all, second, h.name_whole)
