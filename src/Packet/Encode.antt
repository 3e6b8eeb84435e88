-- ===== src/Packet/Encode.antt =====
-- src/ucp_packet.c: the encoders. A buffer is a list of bytes with its C length beside it, and is
-- never NULL; consecutive single stores are one write.
use ucp.Common.{
  ℕ, ◌+◌, ◌%◌, bit_and, not, Option, none, some, List, [], ◌∷◌, ◌++◌, ltb, ◌==◌, if◌then◌else◌, Run,
  ok, ◌>>=◌, read_at, write_at,
}
use ucp.Common.Words.{u8_mod, size_mod, size_neg, shr}
use ucp.Packet.Types.{Packet, type_ctrl, type_data, type_metadata, name_size, sizeof_packet}

-- The four bytes of a word as `encode` stores them, lowest first.
abbrev pub word_bytes : ℕ → List ℕ
word_bytes w =
    bit_and w 0xff ∷ bit_and (shr w 8) 0xff ∷ bit_and (shr w 16) 0xff ∷ bit_and (shr w 24) 0xff ∷ []

-- What an encoder returns: the C result, and the buffer after its stores.
abbrev pub Encoded : Type 0
Encoded = Run (ℕ × List ℕ)

-- ucp_packet_encode_data
unfoldable pub encode_data : Packet → List ℕ → ℕ → Encoded
encode_data p buf buf_len =
    if ltb buf_len sizeof_packet
    then ok (size_neg 1, buf)
    else (if not (p.type == type_data) then ok (size_neg 1, buf) else do
      head ←
          write_at 0
            (p.type % u8_mod
              ∷ bit_and p.data_packet.flag 0xff
              ∷ (word_bytes p.data_packet.seq_no
                  ++ word_bytes p.data_packet.offset
                  ++ bit_and p.data_packet.seg_len 0xff
                    ∷ bit_and (shr p.data_packet.seg_len 8) 0xff
                    ∷ []))
            buf
      bytes ← read_at 0 p.data_packet.seg_len p.data_packet.segment_data
      whole ← write_at 12 bytes head
      ok ((12 + p.data_packet.seg_len) % size_mod, whole))

-- ucp_packet_encode_ctrl_data
unfoldable pub encode_ctrl_data : Packet → List ℕ → ℕ → Encoded
encode_ctrl_data p buf buf_len =
    if ltb buf_len 6
    then ok (size_neg 1, buf)
    else (if not (p.type == type_ctrl) then ok (size_neg 1, buf) else do
      whole ←
          write_at 0
            (p.type % u8_mod ∷ bit_and p.ctrl_packet.flag 0xff ∷ word_bytes p.ctrl_packet.seq_no)
            buf
      ok (6, whole))

-- ucp_packet_encode_meta_data: the part size goes out highest byte first.
unfoldable pub encode_meta_data : Packet → List ℕ → ℕ → Encoded
encode_meta_data p buf buf_len =
    if ltb buf_len sizeof_packet
    then ok (size_neg 1, buf)
    else (if not (p.type == type_metadata) then ok (size_neg 1, buf) else do
      head ←
          write_at 0
            (bit_and p.type 0xff
              ∷ bit_and p.metadata_packet.part_index 0xff
              ∷ bit_and (shr p.metadata_packet.part_size 24) 0xff
              ∷ bit_and (shr p.metadata_packet.part_size 16) 0xff
              ∷ bit_and (shr p.metadata_packet.part_size 8) 0xff
              ∷ bit_and (shr p.metadata_packet.part_size 0) 0xff
              ∷ [])
            buf
      name ← read_at 0 name_size p.metadata_packet.destination_name
      whole ← write_at 6 name head
      ok (6 + name_size, whole))

-- ucp_packet_encode
unfoldable pub encode : Option Packet → List ℕ → ℕ → Encoded
encode none buf buf_len = ok (size_neg 1, buf)
encode (some p) buf buf_len =
    if p.type == type_data
    then encode_data p buf buf_len
    else (if p.type == type_ctrl
        then encode_ctrl_data p buf buf_len
        else (if p.type == type_metadata
            then encode_meta_data p buf buf_len
            else ok (size_neg 2, buf)))
