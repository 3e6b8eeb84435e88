-- ===== src/Files/Flags.antt =====
-- Which packets of a file get the flag END.
use ucp.Common.{
  ℕ, zero, suc, ◌+◌, ◌-◌, ◌%◌, ◌<◌, ◌≡◌, ap, ◌∙◌, arith, Bool, false, ◌&&◌, ◌||◌, not, some, List,
  [], ◌∷◌, min, ltb, ◌==◌, length, take, drop, length-take, ok, Bool-cases, inl, inr,
}
use ucp.Common.Words.{succ32}
use ucp.Packet.Types.{Packet, udp_packet_data_size, flag_data_end}
use ucp.Files.Stream.{Stream}
use ucp.Files.Ops.{Handle}
use ucp.Files.Chunks.{
  start_flag, some_read, behind_chunk, length-behind_chunk, end_flag, fewer, no_bytes,
}
use ucp.Files.Reading.{cut, read_all, read_all-cut}

-- Whether some packet of a list has the flag END.
abbrev pub ended : List Packet → Bool
ended [] = false
ended (p ∷ ps) = p.data_packet.flag == flag_data_end || ended ps

ended-cut_behind :
    (k seq_no offset : ℕ) (rest : List ℕ)
    → 0 < offset
    → length rest < k
    → ended (cut k seq_no offset rest) ≡ not (length rest % udp_packet_data_size == 0)
unfolding cut
ended-cut_behind zero seq_no offset rest far enough = absurd (omega arith)
ended-cut_behind (suc k) seq_no offset rest far enough =
    let chunk : List ℕ = take udp_packet_data_size rest in
    let counted : length chunk ≡ min udp_packet_data_size (length rest) =
      length-take udp_packet_data_size rest in
    let left : length (behind_chunk rest) ≡ length rest - udp_packet_data_size =
      length-behind_chunk rest in
    elim (Bool-cases (length rest == 0)) [
      | inl none_left ↦ rw (
        none_left,
        no_bytes (length chunk) (length rest) (length (behind_chunk rest)) counted left none_left,
      )
      | inr some_left ↦
          let later : ended (cut k (succ32 seq_no) (offset + length chunk) (behind_chunk rest))
              ≡ not (length (behind_chunk rest) % udp_packet_data_size == 0) =
            ended-cut_behind k (succ32 seq_no) (offset + length chunk) (behind_chunk rest)
              (omega arith)
              (fewer (length chunk) (length rest) (length (behind_chunk rest)) counted left k
                some_left enough) in
          rw some_left (
            end_flag (length chunk) (length rest) (length (behind_chunk rest)) counted left
              (ended (cut k (succ32 seq_no) (offset + length chunk) (behind_chunk rest))) offset far
              some_left later)
    ]

ended-cut :
    (k seq_no : ℕ) (rest : List ℕ)
    → length rest < k
    → ended (cut k seq_no 0 rest)
      ≡ (ltb udp_packet_data_size (length rest) && not (length rest % udp_packet_data_size == 0))
unfolding cut
ended-cut zero seq_no rest enough = absurd (omega arith)
ended-cut (suc k) seq_no rest enough =
    let chunk : List ℕ = take udp_packet_data_size rest in
    let counted : length chunk ≡ min udp_packet_data_size (length rest) =
      length-take udp_packet_data_size rest in
    let left : length (behind_chunk rest) ≡ length rest - udp_packet_data_size =
      length-behind_chunk rest in
    elim (Bool-cases (length rest == 0)) [
      | inl none_left ↦ let none : length rest ≡ 0 = ground arith in rw none
      | inr some_left ↦
          let later : ended (cut k (succ32 seq_no) (0 + length chunk) (behind_chunk rest))
              ≡ not (length (behind_chunk rest) % udp_packet_data_size == 0) =
            ended-cut_behind k (succ32 seq_no) (0 + length chunk) (behind_chunk rest)
              (omega (
                arith,
                some_read (length chunk) (length rest) (length (behind_chunk rest)) counted left
                    some_left,
              ))
              (fewer (length chunk) (length rest) (length (behind_chunk rest)) counted left k
                some_left enough) in
          rw some_left (
            later
            ∙ start_flag (length chunk) (length rest) (length (behind_chunk rest)) counted left
                some_left)
    ]

-- When a file is read to its end from its start, with memory left and one round more than it has
-- bytes, some packet has the flag END exactly when the file is longer than one segment and its size
-- is no multiple of UDP_PACKET_DATA_SIZE.
pub read_all-ended :
    (k : ℕ) (h : Handle) (fp : Stream)
    → h.fp ≡ some fp
    → fp.pos ≡ 0
    → fp.eof ≡ false
    → length fp.content < k
    → (h' : Handle) × (ps : List Packet) × (read_all k h ≡ ok (ps, h'))
      × (ended ps ≡ (
          ltb udp_packet_data_size (length fp.content)
          && not (length fp.content % udp_packet_data_size == 0)))
read_all-ended k h fp is_open start fresh enough =
    let whole : drop fp.pos fp.content ≡ fp.content = ap (λ (n : ℕ). drop n fp.content) start in
    let (h', all) = read_all-cut k h fp fp.content is_open whole (inl fresh) enough in
    (
      h',
      cut k h.last_seq_no fp.pos fp.content,
      all,
      rw start (ended-cut k h.last_seq_no fp.content enough),
    )
