-- ===== src/Files/Chunks.antt =====
-- The chunks that a file is read in: how long they are, and the flags they get.
use ucp.Common.{
  ℕ, suc, ◌-◌, ◌%◌, ◌≤◌, ◌<◌, ◌≡◌, refl, ◌∙◌, arith, Bool, true, false, ◌&&◌, ◌||◌, ◌⊎◌, not, List,
  min, ltb, ◌==◌, if◌then◌else◌, length, take, drop, length-take, length-drop, Bool-cases, inl, inr,
}
use ucp.Packet.Types.{udp_packet_data_size, flag_data_segment, flag_data_start, flag_data_end}

-- The flag that the packet from `offset` gets, where `short` says that the read met the end.
abbrev pub flag_at : ℕ → Bool → ℕ
flag_at offset short =
    if offset == 0 then flag_data_start else (if short then flag_data_end else flag_data_segment)

-- The part of a file that is left behind a chunk.
abbrev pub behind_chunk : List ℕ → List ℕ
behind_chunk rest = drop (length (take udp_packet_data_size rest)) rest

pub length-behind_chunk :
    (rest : List ℕ) → length (behind_chunk rest) ≡ length rest - udp_packet_data_size
length-behind_chunk rest = omega (
  arith,
  length-drop (length (take udp_packet_data_size rest)) rest,
  length-take udp_packet_data_size rest,
)

pub if_same : (b : Bool) → (if b then true else false) ≡ b
if_same true = refl
if_same false = refl

pub still_unread :
    (left : ℕ) (eof : Bool) → (eof ≡ false) ⊎ (left ≡ 0) → (left == 0) ≡ false → eof ≡ false
still_unread left eof fresh some_left = ground arith

-- How much of `left` bytes a read gives, when it meets the end, and what is left then.
module _ (read left behind : ℕ) (counted : read ≡ min udp_packet_data_size left)
    (rest : behind ≡ left - udp_packet_data_size) where
  pub none_together : (read == 0) ≡ (left == 0)
  none_together = ground arith

  pub end_or_more :
      (eof : Bool)
      → (eof ≡ false) ⊎ (left ≡ 0)
      → ((if ltb read udp_packet_data_size then true else eof) ≡ false) ⊎ (behind ≡ 0)
  end_or_more eof fresh = ground arith

  pub end_flag :
      (later : Bool) (offset : ℕ)
      → 0 < offset
      → (left == 0) ≡ false
      → later ≡ not (behind % udp_packet_data_size == 0)
      → (flag_at offset (ltb read udp_packet_data_size) == flag_data_end || later)
        ≡ not (left % udp_packet_data_size == 0)
  end_flag later offset far some_left e = elim (Bool-cases (ltb read udp_packet_data_size)) [
    | inl short ↦
        let few : left < udp_packet_data_size = ground arith in
        let odd : left % udp_packet_data_size ≡ left = omega arith in
        let behind_start : (offset == 0) ≡ false = ground arith in
        rw (short, odd, some_left, behind_start)
    | inr whole ↦
        let many : udp_packet_data_size ≤ left = ground arith in
        let same : behind % udp_packet_data_size ≡ left % udp_packet_data_size = omega arith in
        let behind_start : (offset == 0) ≡ false = ground arith in
        rw (whole, behind_start) (e ∙ rw same)
  ]

  pub fewer : (k : ℕ) → (left == 0) ≡ false → left < suc k → behind < k
  fewer k some_left enough = ground arith

  pub no_bytes : (left == 0) ≡ true → (left % udp_packet_data_size == 0) ≡ true
  no_bytes none_left = ground arith

  pub start_flag :
      (left == 0) ≡ false
      → not (behind % udp_packet_data_size == 0)
        ≡ (ltb udp_packet_data_size left && not (left % udp_packet_data_size == 0))
  start_flag some_left = elim (Bool-cases (ltb udp_packet_data_size left)) [
    | inl long ↦
        let many : udp_packet_data_size < left = ground arith in
        let same : behind % udp_packet_data_size ≡ left % udp_packet_data_size = omega arith in
        rw (long, same)
    | inr few ↦
        let at_most : left ≤ udp_packet_data_size = ground arith in
        let none_behind : behind ≡ 0 = omega arith in rw (few, none_behind)
  ]

  pub some_read : (left == 0) ≡ false → 0 < read
  some_read some_left = ground arith
