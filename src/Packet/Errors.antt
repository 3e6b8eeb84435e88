-- ===== src/Packet/Errors.antt =====
-- What the encoders and decoders do with packets and buffers that they do not accept.
use ucp.Common.{
  ℕ, ◌+◌, ◌*◌, ◌≤◌, ◌<◌, ◌≡◌, ◌↔◌, ◌⊎◌, arith, Bool, false, some, List, ◌∷◌, length, length-take,
  Run, ok, fault, load, read_at, write_at, ◌==◌, ◌||◌, ltb, if◌then◌else◌, bit_or,
}
use ucp.Common.Bits.{bit_or-disjoint}
use ucp.Common.Words.{size_neg, IsByte, shl}
use ucp.Packet.Types.{
  Packet, type_ctrl, type_data, type_metadata, sizeof_packet, udp_packet_data_size,
}
use ucp.Packet.Encode.{encode, encode_data, encode_ctrl_data, encode_meta_data}
use ucp.Packet.Decode.{decode, decode_data}

-- The size below which the encoder or decoder of a type refuses a buffer.
abbrev pub room_needed : ℕ → ℕ
room_needed type = if type == type_ctrl then 6 else sizeof_packet

abbrev pub is_known : ℕ → Bool
is_known type = type == type_data || type == type_ctrl || type == type_metadata

-- `ucp_packet_encode` refuses a packet of no known type with (size_t) -2, and with (size_t) -1 a
-- packet of a known type for which the buffer is too small; it writes nothing in either case.
pub encode_refuses :
    (p : Packet) (buf : List ℕ) (buf_len : ℕ)
    → (is_known p.type ≡ false) ⊎ (buf_len < room_needed p.type)
    → encode (some p) buf buf_len ≡ ok (if is_known p.type then size_neg 1 else size_neg 2, buf)
unfolding encode encode_data encode_ctrl_data encode_meta_data
encode_refuses p buf buf_len refused = ground arith

-- What is returned has the type, if anything is.
unfoldable HasType : ℕ → Run Packet → Type 0
HasType type fault = Unit {0}
HasType type (ok p) = p.type ≡ type

-- On a datagram whose first byte announces a data packet, in a receive buffer of at least a packet's
-- size, `ucp_packet_decode` runs out of bounds exactly when the announced segment length is more
-- than the segment holds: the sender's length is not checked before the copy.
pub decode_overruns :
    (b1 b2 b3 b4 b5 b6 b7 b8 b9 low high : ℕ) (rest : List ℕ) (old : Packet)
    → IsByte low
    → length old.data_packet.segment_data ≡ udp_packet_data_size
    → sizeof_packet ≤ 12 + length rest
    → (decode
          (type_data ∷ b1 ∷ b2 ∷ b3 ∷ b4 ∷ b5 ∷ b6 ∷ b7 ∷ b8 ∷ b9 ∷ low ∷ high ∷ rest)
          (12 + length rest)
          old
        ≡ fault)
      ↔ (udp_packet_data_size < high * 256 + low)
unfolding decode decode_data load read_at write_at
decode_overruns b1 b2 b3 b4 b5 b6 b7 b8 b9 low high rest old byte whole room =
    let n : ℕ = high * 256 + low in
    let joined : bit_or (shl high 8) low ≡ n = bit_or-disjoint 8 high low byte in
    let large : ltb (12 + length rest) sizeof_packet ≡ false = ground arith in
    rw (large, joined) (ground (arith, length-take n rest))
