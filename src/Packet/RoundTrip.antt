-- ===== src/Packet/RoundTrip.antt =====
-- Encoding, sending the encoder's count of bytes, and decoding gives the packet back.
use ucp.Common.{
  ℕ, ◌+◌, ◌%◌, ◌≤◌, ◌≡◌, refl, ap, ◌∙◌, arith, bit_and, some, List, ◌∷◌, ◌++◌, length,
  length-append, take, drop, take-append, Run, ok, ◌>>=◌, load, true, false, ◌==◌,
}
use ucp.Common.Bits.{bit_and-byte}
use ucp.Common.Words.{u8_mod}
use ucp.Packet.Types.{
  Packet, type_ctrl, type_data, type_metadata, name_size, sizeof_packet, udp_packet_data_size,
}
use ucp.Packet.Encode.{encode, encode_data, encode_ctrl_data, encode_meta_data, Encoded}
use ucp.Packet.Decode.{decode, decode_data, decode_ctrl_data, decode_meta_data}
use ucp.Packet.Wire.{
  IsData, IsCtrl, IsMetadata, data_wire, ctrl_wire, metadata_wire, length-data_wire,
  encode_data-wire, encode_ctrl_data-wire, encode_meta_data-wire, metadata_header,
}
use ucp.Packet.Received.{
  received_data, decode_data-wire, decode_ctrl_data-wire, decode_meta_data-wire,
}

-- The sender passes on as many bytes as `encode` says; the receiver decodes them where other bytes,
-- left in its buffer, follow.
abbrev pub delivered : Encoded → List ℕ → ℕ → Packet → Run Packet
delivered encoded rest recv_len old =
    encoded >>= λ (n, sent). decode (take n sent ++ rest) recv_len old

pub take_front : (n : ℕ) (xs ys : List ℕ) → length xs ≡ n → take n (xs ++ ys) ≡ xs
take_front n xs ys h = rw h at (take-append xs ys)

pub delivered_wire :
    (encoded : Encoded) (wire tail rest : List ℕ) (n recv_len : ℕ) (old : Packet)
    → encoded ≡ ok (n, wire ++ tail)
    → length wire ≡ n
    → delivered encoded rest recv_len old ≡ decode (wire ++ rest) recv_len old
delivered_wire encoded wire tail rest n recv_len old sent counted =
    ap (λ (e : Encoded). delivered e rest recv_len old) sent
    ∙ ap (λ (xs : List ℕ). decode (xs ++ rest) recv_len old) (take_front n wire tail counted)

-- `decode` goes by the first byte.
module _ (b : ℕ) (bs : List ℕ) (buf_len : ℕ) (old : Packet) where
  decode-as_data : b ≡ type_data → decode (b ∷ bs) buf_len old ≡ decode_data (b ∷ bs) buf_len old
  unfolding decode load
  decode-as_data e = let t : (b == type_data) ≡ true = ground arith in rw t

  decode-as_ctrl :
      b ≡ type_ctrl → decode (b ∷ bs) buf_len old ≡ decode_ctrl_data (b ∷ bs) buf_len old
  unfolding decode load
  decode-as_ctrl e =
      let t : (b == type_ctrl) ≡ true = ground arith in
      let not_data : (b == type_data) ≡ false = ground arith in
      let not_metadata : (b == type_metadata) ≡ false = ground arith in
      rw (not_data, not_metadata, t)

  decode-as_metadata :
      b ≡ type_metadata → decode (b ∷ bs) buf_len old ≡ decode_meta_data (b ∷ bs) buf_len old
  unfolding decode load
  decode-as_metadata e =
      let t : (b == type_metadata) ≡ true = ground arith in
      let not_data : (b == type_data) ≡ false = ground arith in rw (not_data, t)

-- `encode` goes by the packet's type.
module _ (p : Packet) (buf : List ℕ) (buf_len : ℕ) where
  encode-as_data : p.type ≡ type_data → encode (some p) buf buf_len ≡ encode_data p buf buf_len
  unfolding encode
  encode-as_data e = let t : (p.type == type_data) ≡ true = ground arith in rw t

  encode-as_ctrl : p.type ≡ type_ctrl → encode (some p) buf buf_len ≡ encode_ctrl_data p buf buf_len
  unfolding encode
  encode-as_ctrl e =
      let t : (p.type == type_ctrl) ≡ true = ground arith in
      let not_data : (p.type == type_data) ≡ false = ground arith in rw (not_data, t)

  encode-as_metadata :
      p.type ≡ type_metadata → encode (some p) buf buf_len ≡ encode_meta_data p buf buf_len
  unfolding encode
  encode-as_metadata e =
      let t : (p.type == type_metadata) ≡ true = ground arith in
      let not_data : (p.type == type_data) ≡ false = ground arith in
      let not_ctrl : (p.type == type_ctrl) ≡ false = ground arith in rw (not_data, not_ctrl, t)

-- What `encode` writes for a metadata packet.
pub encode-metadata_wire :
    (p : Packet) (buf : List ℕ) (buf_len : ℕ)
    → IsMetadata p
    → sizeof_packet ≤ buf_len
    → length buf ≡ buf_len
    → encode (some p) buf buf_len ≡ ok (6 + name_size, metadata_wire p ++ drop (6 + name_size) buf)
encode-metadata_wire p buf buf_len h room whole =
    encode-as_metadata p buf buf_len h.typed ∙ encode_meta_data-wire p buf buf_len h room whole

-- What `encode` writes for a data packet, and what `decode` reads behind a control packet.
pub encode-data_wire :
    (p : Packet) (buf : List ℕ) (buf_len : ℕ)
    → IsData p
    → sizeof_packet ≤ buf_len
    → length buf ≡ buf_len
    → encode (some p) buf buf_len
      ≡ ok (12 + p.data_packet.seg_len, data_wire p ++ drop (12 + p.data_packet.seg_len) buf)
encode-data_wire p buf buf_len h room whole =
    encode-as_data p buf buf_len h.typed ∙ encode_data-wire p buf buf_len h room whole

pub decode-data_wire :
    (p old : Packet) (rest : List ℕ) (buf_len : ℕ)
    → IsData p
    → length old.data_packet.segment_data ≡ udp_packet_data_size
    → sizeof_packet ≤ buf_len
    → decode (data_wire p ++ rest) buf_len old ≡ ok (received_data p old)
decode-data_wire p old rest buf_len h whole room =
    decode-as_data (p.type % u8_mod) _ buf_len old (omega (arith, h.typed))
    ∙ decode_data-wire p old rest buf_len h whole room

pub encode-ctrl_wire :
    (p : Packet) (buf : List ℕ) (buf_len : ℕ)
    → IsCtrl p
    → 6 ≤ buf_len
    → length buf ≡ buf_len
    → encode (some p) buf buf_len ≡ ok (6, ctrl_wire p ++ drop 6 buf)
encode-ctrl_wire p buf buf_len h room whole =
    encode-as_ctrl p buf buf_len h.typed ∙ encode_ctrl_data-wire p buf buf_len h room whole

pub decode-ctrl_wire :
    (p old : Packet) (rest : List ℕ) (buf_len : ℕ)
    → IsCtrl p
    → 6 ≤ buf_len
    → decode (ctrl_wire p ++ rest) buf_len old
      ≡ ok (record old { type = type_ctrl; ctrl_packet = p.ctrl_packet })
decode-ctrl_wire p old rest buf_len h room =
    decode-as_ctrl (p.type % u8_mod) _ buf_len old (omega (arith, h.typed))
    ∙ decode_ctrl_data-wire p old rest buf_len h room

module _ (p old : Packet) (buf rest : List ℕ) (buf_len recv_len : ℕ) where
  -- A data packet whose fields fit the wire format, encoded into a buffer of at least the size of a
  -- packet, sent with the length that the encoder returns, and decoded where any bytes follow, gives
  -- the flag, sequence number, offset, length and segment bytes back; the receiver's segment keeps
  -- its old bytes behind those, and nothing else of its packet changes but the type.
  pub decode-encode_data :
      IsData p
      → length old.data_packet.segment_data ≡ udp_packet_data_size
      → length buf ≡ buf_len
      → sizeof_packet ≤ buf_len
      → sizeof_packet ≤ recv_len
      → delivered (encode (some p) buf buf_len) rest recv_len old ≡ ok (received_data p old)
  decode-encode_data h whole sized room room' =
      delivered_wire (encode (some p) buf buf_len) (data_wire p)
        (drop (12 + p.data_packet.seg_len) buf) rest _ recv_len old
        (encode-as_data p buf buf_len h.typed ∙ encode_data-wire p buf buf_len h room sized)
        (length-data_wire p h)
      ∙ decode-data_wire p old rest recv_len h whole room'

  -- A control packet whose fields fit survives encoding, sending and decoding unchanged, in any
  -- buffers of at least six bytes.
  pub decode-encode_ctrl :
      IsCtrl p
      → length buf ≡ buf_len
      → 6 ≤ buf_len
      → 6 ≤ recv_len
      → delivered (encode (some p) buf buf_len) rest recv_len old
        ≡ ok (record old { type = type_ctrl; ctrl_packet = p.ctrl_packet })
  decode-encode_ctrl h sized room room' =
      delivered_wire (encode (some p) buf buf_len) (ctrl_wire p) (drop 6 buf) rest 6 recv_len old
        (encode-as_ctrl p buf buf_len h.typed ∙ encode_ctrl_data-wire p buf buf_len h room sized)
        refl
      ∙ decode-ctrl_wire p old rest recv_len h room'

  -- A metadata packet whose fields fit survives encoding, sending and decoding unchanged, in buffers
  -- of at least the size of a packet.
  pub decode-encode_metadata :
      IsMetadata p
      → length buf ≡ buf_len
      → sizeof_packet ≤ buf_len
      → sizeof_packet ≤ recv_len
      → delivered (encode (some p) buf buf_len) rest recv_len old
        ≡ ok (record old { type = type_metadata; metadata_packet = p.metadata_packet })
  decode-encode_metadata h sized room room' =
      delivered_wire (encode (some p) buf buf_len) (metadata_wire p) (drop (6 + name_size) buf) rest
        (6 + name_size) recv_len old
        (encode-as_metadata p buf buf_len h.typed
          ∙ encode_meta_data-wire p buf buf_len h room sized)
        (omega (arith, length-append (metadata_header p) p.metadata_packet.destination_name))
      ∙ decode-as_metadata (bit_and p.type 0xff) _ recv_len old (bit_and-byte p.type ∙ omega arith)
      ∙ decode_meta_data-wire p old rest recv_len h room'
