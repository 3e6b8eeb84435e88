-- ===== src/Packet/Tests.antt =====
-- The packet theorems at concrete packets, and runs.
use ucp.Common.{
  ℕ, ◌≡◌, ◌<◌, ◌↔◌, refl, arith, some, ok, fault, List, [], ◌∷◌, length, ◌+◌, ◌*◌, load, write_at,
}
use ucp.Packet.Types.{Packet, blank, zeros, length-zeros, type_ctrl, udp_packet_data_size, flag_ack}
use ucp.Packet.Encode.{encode, encode_ctrl_data}
use ucp.Packet.Decode.{decode, decode_ctrl_data}
use ucp.Packet.Wire.{IsCtrl}
use ucp.Packet.Received.{received_data}
use ucp.Packet.RoundTrip.{delivered, decode-encode_data}
use ucp.Packet.Made.{data_packet_of, data_packet_of-IsData}
use ucp.Packet.Errors.{decode_overruns}

-- An acknowledgement of the number 258.
abbrev ack : Packet
ack = record (blank type_ctrl) { ctrl_packet = record { seq_no = 258; flag = flag_ack } }

abbrev hello : List ℕ
hello = b'h' ∷ b'i' ∷ []

abbrev data_packet : Packet
data_packet = data_packet_of 7 9166 hello

-- The bytes of the acknowledgement in the server's buffer of ten.
encode-ack : encode (some ack) (zeros 10) 10 ≡ ok (6, 1 ∷ 1 ∷ 2 ∷ 1 ∷ 0 ∷ 0 ∷ 0 ∷ 0 ∷ 0 ∷ 0 ∷ [])
unfolding encode encode_ctrl_data zeros write_at
encode-ack = refl

decode_ack :
    decode (1 ∷ 1 ∷ 2 ∷ 1 ∷ 0 ∷ 0 ∷ []) 6 (blank 0)
    ≡ ok (record (blank 0) { type = 1; ctrl_packet = record { seq_no = 258; flag = 1 } })
unfolding decode decode_ctrl_data load
decode_ack = refl

ack-IsCtrl : IsCtrl ack
ack-IsCtrl = omega arith

decode-encode_data_example :
    delivered (encode (some data_packet) (zeros 9216) 9216) (zeros 9202) 9216 (blank 0)
    ≡ ok (received_data data_packet (blank 0))
decode-encode_data_example =
    decode-encode_data data_packet (blank 0) (zeros 9216) (zeros 9202) 9216 9216
      (data_packet_of-IsData 7 9166 hello (omega arith) (omega arith))
      (length-zeros udp_packet_data_size) (length-zeros 9216) (omega arith) (omega arith)

decode_overruns_example :
    (decode
        (2 ∷ 0 ∷ 0 ∷ 0 ∷ 0 ∷ 0 ∷ 0 ∷ 0 ∷ 0 ∷ 0 ∷ 255 ∷ 255 ∷ zeros 9204)
        (12 + length (zeros 9204))
        (blank 0)
      ≡ fault)
    ↔ (udp_packet_data_size < 255 * 256 + 255)
decode_overruns_example =
    decode_overruns 0 0 0 0 0 0 0 0 0 255 255 (zeros 9204) (blank 0) (omega arith)
      (length-zeros udp_packet_data_size) (omega (arith, length-zeros 9204))
