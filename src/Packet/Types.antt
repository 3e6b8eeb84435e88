-- ===== src/Packet/Types.antt =====
-- src/ucp_packet.h and the sizes of src/defines.h: the packets as records.
-- The union's three members are kept side by side: the program writes and reads only the one that
-- `type` names. Enumerations are numbers, since the decoders store any byte in them.
use ucp.Common.{ℕ, ◌+◌, ◌*◌, ◌-◌, List, replicate, ◌≡◌, length, length-replicate}

-- UDP_PACKET_DATA_SIZE
abbrev pub udp_packet_data_size : ℕ
udp_packet_data_size = 9 * 1024 - 50

-- UDP_PACKET_OVERHEAD_MARGIN
abbrev pub udp_packet_overhead_margin : ℕ
udp_packet_overhead_margin = 50

-- UDP_PACKET_SIZE
abbrev pub udp_packet_size : ℕ
udp_packet_size = udp_packet_data_size + udp_packet_overhead_margin

-- ucp_packet_type_t
abbrev pub type_ctrl : ℕ
type_ctrl = 0x01

abbrev pub type_data : ℕ
type_data = 0x02

abbrev pub type_metadata : ℕ
type_metadata = 0x03

-- ucp_flag_t
abbrev pub flag_ack : ℕ
flag_ack = 0x01

abbrev pub flag_nack : ℕ
flag_nack = 0x02

abbrev pub flag_fin : ℕ
flag_fin = 0x03

-- ucp_flag_data_t
abbrev pub flag_data_segment : ℕ
flag_data_segment = 0x00

abbrev pub flag_data_start : ℕ
flag_data_start = 0x01

abbrev pub flag_data_end : ℕ
flag_data_end = 0x02

pub record DataPacket : Type 0 where
  pub flag : ℕ
  pub seq_no : ℕ
  pub offset : ℕ
  pub seg_len : ℕ
  pub segment_data : List ℕ

pub record CtrlPacket : Type 0 where
  pub seq_no : ℕ
  pub flag : ℕ

pub record MetadataPacket : Type 0 where
  pub destination_name : List ℕ
  pub part_index : ℕ
  pub part_size : ℕ

pub record Packet : Type 0 where
  pub type : ℕ
  pub ctrl_packet : CtrlPacket
  pub data_packet : DataPacket
  pub metadata_packet : MetadataPacket

-- sizeof(ucp_packet_t) where pointers and `size_t` have eight bytes: the type and its padding, the
-- four scalar fields of the data packet with padding before `seg_len`, the segment, padding to 8.
abbrev pub sizeof_packet : ℕ
sizeof_packet = 8 + (16 + 8 + udp_packet_data_size) + 2

-- sizeof(desination_name)
abbrev pub name_size : ℕ
name_size = 20

-- Zeroed memory; shut, so that a segment is never written out in a proof.
unfoldable pub zeros : ℕ → List ℕ
zeros n = replicate n 0

pub length-zeros : (n : ℕ) → length (zeros n) ≡ n
unfolding zeros
length-zeros n = length-replicate n 0

-- The packet of all zero bytes, as `memset` leaves it, with its type set.
abbrev pub blank : ℕ → Packet
blank type = record {
  type = type;
  ctrl_packet = record { seq_no = 0; flag = 0 };
  data_packet = record {
    flag = 0;
    seq_no = 0;
    offset = 0;
    seg_len = 0;
    segment_data = zeros udp_packet_data_size;
  };
  metadata_packet = record { destination_name = zeros name_size; part_index = 0; part_size = 0 };
}
