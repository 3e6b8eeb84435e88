-- ===== src/Packet/Made.antt =====
-- The packets that the init functions make fit the wire format, and what a receiver has of them.
use ucp.Common.{
  ℕ, ◌+◌, ◌%◌, ◌≤◌, ◌<◌, ◌≡◌, refl, ◌∙◌, arith, Bool, true, false, none, some, List, ◌++◌, length,
  length-append, length-drop, take, drop, take-append, ok, fault, ◌>>=◌, leb, Bool-cases, inl, inr,
  if◌then◌else◌, write_at_front, write_at_past, read_whole,
}
use ucp.Common.Words.{u32_mod}
use ucp.Packet.Types.{
  Packet, blank, zeros, length-zeros, type_data, sizeof_packet, udp_packet_data_size,
}
use ucp.Packet.Init.{packet_init_data}
use ucp.Packet.Encode.{encode}
use ucp.Packet.Wire.{IsData}
use ucp.Packet.Received.{received_data}
use ucp.Packet.RoundTrip.{delivered, decode-encode_data}

-- The packet that `ucp_packet_init_data` fills in.
abbrev pub data_packet_of : ℕ → ℕ → List ℕ → Packet
data_packet_of seq_no offset bytes = record (blank type_data) {
  data_packet = record {
    flag = 0;
    seq_no = seq_no;
    offset = offset % u32_mod;
    seg_len = length bytes;
    segment_data = bytes ++ drop (length bytes) (zeros udp_packet_data_size);
  };
}

module _ (seq_no offset : ℕ) (chunk : List ℕ) where
  pub data_packet_of-IsData :
      seq_no < u32_mod
      → length chunk ≤ udp_packet_data_size
      → IsData (data_packet_of seq_no offset chunk)
  data_packet_of-IsData small fits =
      let blanks : List ℕ = zeros udp_packet_data_size in
      record {
        typed = refl;
        flag_fits = omega arith;
        seq_no_fits = small;
        offset_fits = omega arith;
        seg_len_fits = fits;
        segment_whole =
            length-append chunk (drop (length chunk) blanks)
            ∙ omega (arith, length-drop (length chunk) blanks, length-zeros udp_packet_data_size);
      }

  packet_init_data-made :
      length chunk ≤ udp_packet_data_size
      → packet_init_data true seq_no offset chunk (length chunk)
        ≡ ok (some (data_packet_of seq_no offset chunk))
  unfolding packet_init_data
  packet_init_data-made fits =
      let blanks : List ℕ = zeros udp_packet_data_size in
      let room : length chunk ≤ length blanks = omega (arith, length-zeros udp_packet_data_size) in
      rw (read_whole chunk, write_at_front chunk blanks room)

  packet_init_data-past :
      udp_packet_data_size < length chunk
      → packet_init_data true seq_no offset chunk (length chunk) ≡ fault
  unfolding packet_init_data
  packet_init_data-past large =
      let blanks : List ℕ = zeros udp_packet_data_size in
      let over : length blanks < 0 + length chunk =
        omega (arith, length-zeros udp_packet_data_size) in
      rw (read_whole chunk, write_at_past 0 chunk blanks over)

-- Behind any content of the receiver's packet and buffer, what the sender makes of a chunk arrives.
module _ (seq_no offset buf_len recv_len : ℕ) (chunk buf rest : List ℕ) (old : Packet)
    (small : seq_no < u32_mod) (fits : length chunk ≤ udp_packet_data_size)
    (whole : length old.data_packet.segment_data ≡ udp_packet_data_size)
    (sized : length buf ≡ buf_len) (room : sizeof_packet ≤ buf_len)
    (room' : sizeof_packet ≤ recv_len) where
  -- A chunk of a file that fits a segment, made into a data packet, encoded, sent and decoded, is
  -- received as a data packet with no flag, the chunk's sequence number, its offset modulo 2^32, its
  -- length, and its bytes at the front of the segment.
  pub chunk_arrives :
      (p : Packet) × ((packet_init_data true seq_no offset chunk (length chunk) >>= λ made.
      delivered (encode made buf buf_len) rest recv_len old)
        ≡ ok p)
      × (p.type ≡ type_data)
      × (p.data_packet.flag ≡ 0)
      × (p.data_packet.seq_no ≡ seq_no)
      × (p.data_packet.offset ≡ offset % u32_mod)
      × (p.data_packet.seg_len ≡ length chunk)
      × (take (length chunk) p.data_packet.segment_data ≡ chunk)
  chunk_arrives =
      let p : Packet = data_packet_of seq_no offset chunk in
      let sent : take (length chunk) p.data_packet.segment_data ≡ chunk =
        take-append chunk (drop (length chunk) (zeros udp_packet_data_size)) in
      (
        received_data p old,
        rw (packet_init_data-made seq_no offset chunk fits) (
            decode-encode_data p old buf rest buf_len recv_len
              (data_packet_of-IsData seq_no offset chunk small fits) whole sized room room'),
        refl,
        refl,
        refl,
        refl,
        refl,
        rw (sent, take-append chunk (drop (length chunk) old.data_packet.segment_data)),
      )

-- `ucp_packet_init_data` returns NULL when memory is exhausted; otherwise it fills in the packet if
-- the chunk is at most a segment long, and overruns the segment with any longer chunk, since nothing
-- checks the length.
pub packet_init_data_cases :
    (memory : Bool) (seq_no offset : ℕ) (chunk : List ℕ)
    → packet_init_data memory seq_no offset chunk (length chunk) ≡ (
        if memory
        then (if leb (length chunk) udp_packet_data_size
            then ok (some (data_packet_of seq_no offset chunk))
            else fault)
        else ok none)
packet_init_data_cases false seq_no offset chunk = unfold packet_init_data in refl
packet_init_data_cases true seq_no offset chunk =
    elim (Bool-cases (leb (length chunk) udp_packet_data_size)) [
      | inl fits ↦ rw fits (packet_init_data-made seq_no offset chunk (ground arith))
      | inr over ↦ rw over (packet_init_data-past seq_no offset chunk (ground arith))
    ]
