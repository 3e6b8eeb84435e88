-- ===== src/Packet/Decode.antt =====
-- src/ucp_packet.c: the decoders, which overwrite a given packet.
use ucp.Common.{ℕ, bit_or, List, ltb, ◌==◌, if◌then◌else◌, Run, ok, ◌>>=◌, load, read_at, write_at}
use ucp.Common.Words.{shl}
use ucp.Packet.Types.{Packet, type_ctrl, type_data, type_metadata, name_size, sizeof_packet}

-- `(b3 << 24) | (b2 << 16) | (b1 << 8) | b0`
abbrev pub join_word : ℕ → ℕ → ℕ → ℕ → ℕ
join_word b3 b2 b1 b0 = bit_or (bit_or (bit_or (shl b3 24) (shl b2 16)) (shl b1 8)) b0

-- ucp_packet_decode_data: the segment keeps its old bytes behind the copied ones.
unfoldable pub decode_data : List ℕ → ℕ → Packet → Run Packet
decode_data buf buf_len p = if ltb buf_len sizeof_packet then ok p else do
  b0 ← load buf 0
  b1 ← load buf 1
  b2 ← load buf 2
  b3 ← load buf 3
  b4 ← load buf 4
  b5 ← load buf 5
  b6 ← load buf 6
  b7 ← load buf 7
  b8 ← load buf 8
  b9 ← load buf 9
  b10 ← load buf 10
  b11 ← load buf 11
  bytes ← read_at 12 (bit_or (shl b11 8) b10) buf
  segment ← write_at 0 bytes p.data_packet.segment_data
  ok (record p {
    type = b0;
    data_packet = record {
      flag = b1;
      seq_no = join_word b5 b4 b3 b2;
      offset = join_word b9 b8 b7 b6;
      seg_len = bit_or (shl b11 8) b10;
      segment_data = segment;
    };
  })

-- ucp_packet_decode_ctrl_data
unfoldable pub decode_ctrl_data : List ℕ → ℕ → Packet → Run Packet
decode_ctrl_data buf buf_len p = if ltb buf_len 6 then ok p else do
  b0 ← load buf 0
  b1 ← load buf 1
  b2 ← load buf 2
  b3 ← load buf 3
  b4 ← load buf 4
  b5 ← load buf 5
  ok (record p { type = b0; ctrl_packet = record { flag = b1; seq_no = join_word b5 b4 b3 b2 } })

-- ucp_packet_decode_meta_data
unfoldable pub decode_meta_data : List ℕ → ℕ → Packet → Run Packet
decode_meta_data buf buf_len p = if ltb buf_len sizeof_packet then ok p else do
  b0 ← load buf 0
  b1 ← load buf 1
  b2 ← load buf 2
  b3 ← load buf 3
  b4 ← load buf 4
  b5 ← load buf 5
  name ← read_at 6 name_size buf
  ok (record p {
    type = b0;
    metadata_packet = record {
      part_index = b1;
      part_size = bit_or (shl b5 0) (bit_or (shl b4 8) (bit_or (shl b3 16) (shl b2 24)));
      destination_name = name;
    };
  })

-- ucp_packet_decode: a buffer with another first byte leaves the packet as it was.
unfoldable pub decode : List ℕ → ℕ → Packet → Run Packet
decode buf buf_len p = do
  b0 ← load buf 0
  if b0 == type_data
      then decode_data buf buf_len p
      else (if b0 == type_metadata
          then decode_meta_data buf buf_len p
          else (if b0 == type_ctrl then decode_ctrl_data buf buf_len p else ok p))
