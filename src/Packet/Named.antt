-- ===== src/Packet/Named.antt =====
-- The metadata packet: what the server reads of the name, the index and the size it announces.
use ucp.Common.{
  ℕ, zero, suc, ◌-◌, ◌≤◌, ◌<◌, ◌≡◌, refl, ap, ◌∙◌, arith, true, false, Run, fault, ◌>>=◌, List, [],
  ◌∷◌, ◌++◌, length, length-append, take, drop, ok, ◌==◌, if◌then◌else◌, All,
}
use ucp.Common.Words.{u8_mod, u32_mod}
use ucp.Packet.Types.{Packet, blank, zeros, type_metadata, name_size, sizeof_packet}
use ucp.Packet.Init.{packet_init_metadata, strncpy}
use ucp.Packet.Encode.{encode}
use ucp.Packet.Wire.{IsMetadata}
use ucp.Packet.RoundTrip.{delivered, decode-encode_metadata}

-- A C string in an array: the characters before the first NUL. Without a NUL the array is left.
unfoldable pub c_string : List ℕ → Run (List ℕ)
c_string [] = fault
c_string (c ∷ cs) =
    let later = c_string cs in
    if c == 0 then ok [] else (do characters ← later; ok (c ∷ characters))

length-strncpy : (n : ℕ) (src : List ℕ) → length (strncpy n src) ≡ n
length-strncpy zero src = refl
length-strncpy (suc n) [] = ap suc (length-strncpy n [])
length-strncpy (suc n) (c ∷ src) = ap suc (length-strncpy n src)

-- With a NUL behind it, the copy is a string: the first `n` characters of the source.
c_string-strncpy :
    (n : ℕ) (src rest : List ℕ)
    → All (λ c. 0 < c) src
    → c_string (strncpy n src ++ 0 ∷ rest) ≡ ok (take n src)
unfolding c_string
c_string-strncpy zero src rest h = refl
c_string-strncpy (suc n) [] rest h = refl
c_string-strncpy (suc n) (c ∷ src) rest (some_character, h) =
    let no_nul : (c == 0) ≡ false = ground arith in rw (no_nul, c_string-strncpy n src rest h) refl

abbrev pub metadata_packet_of : List ℕ → ℕ → ℕ → Packet
metadata_packet_of name part_index part_size = record (blank type_metadata) {
  metadata_packet = record {
    destination_name = strncpy (name_size - 1) name ++ drop (name_size - 1) (zeros name_size);
    part_index = part_index;
    part_size = part_size;
  };
}

last_zero : drop (name_size - 1) (zeros name_size) ≡ 0 ∷ []
unfolding zeros
last_zero = refl

pub metadata_packet_of-IsMetadata :
    (name : List ℕ) (part_index part_size : ℕ)
    → part_index < u8_mod
    → part_size < u32_mod
    → IsMetadata (metadata_packet_of name part_index part_size)
metadata_packet_of-IsMetadata name part_index part_size hi hs = record {
  typed = refl;
  part_index_fits = hi;
  part_size_fits = hs;
  name_whole =
      length-append (strncpy 19 name) (drop 19 (zeros name_size))
      ∙ rw (length-strncpy 19 name, last_zero) (omega arith);
}

-- The announcement of a part, made, encoded, sent and decoded behind any content of the receiver's
-- packet and buffer, is received as metadata with the part's index and size, and with the first 19
-- characters of the destination name as a C string.
pub announced :
    (name buf rest : List ℕ) (dst_len part_index part_size buf_len recv_len : ℕ) (old : Packet)
    → All (λ c. 0 < c) name
    → part_index < u8_mod
    → part_size < u32_mod
    → length buf ≡ buf_len
    → sizeof_packet ≤ buf_len
    → sizeof_packet ≤ recv_len
    → (p : Packet) × (delivered
          (encode (packet_init_metadata true name dst_len part_index part_size) buf buf_len)
          rest
          recv_len
          old
        ≡ ok p)
      × (p.type ≡ type_metadata)
      × (p.metadata_packet.part_index ≡ part_index)
      × (p.metadata_packet.part_size ≡ part_size)
      × (c_string p.metadata_packet.destination_name ≡ ok (take 19 name))
unfolding packet_init_metadata
announced name buf rest dst_len part_index part_size buf_len recv_len old text hi hs sized room
      room' =
    let p : Packet = metadata_packet_of name part_index part_size in
    (
      record old { type = type_metadata; metadata_packet = p.metadata_packet },
      decode-encode_metadata p old buf rest buf_len recv_len
          (metadata_packet_of-IsMetadata name part_index part_size hi hs) sized room room',
      refl,
      refl,
      refl,
      rw last_zero (c_string-strncpy 19 name [] text),
    )
