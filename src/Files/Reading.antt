-- ===== src/Files/Reading.antt =====
-- Reading a file packet by packet until there is none left.
use ucp.Common.{
  ℕ, zero, suc, ◌+◌, ◌≤◌, ◌<◌, ◌≡◌, refl, ap, ◌∙◌, arith, Bool, true, false, ◌⊎◌, none, some, List,
  [], ◌∷◌, ◌++◌, min, leb, ltb, ◌==◌, if◌then◌else◌, length, take, drop, take-append, drop-add,
  length-take, length-append, Run, ok, fault, ◌>>=◌, read_at, read_at_ok, read_whole,
  write_at_front, Bool-cases, inl, inr,
}
use ucp.Common.Words.{succ32}
use ucp.Packet.Types.{Packet, zeros, length-zeros, udp_packet_data_size}
use ucp.Packet.Init.{packet_init_data}
use ucp.Packet.Made.{data_packet_of, packet_init_data_cases}
use ucp.Files.Stream.{Stream, fread}
use ucp.Files.Ops.{Handle, opened, packet_of_read, set_flag, get_next_packet}
use ucp.Files.Chunks.{
  flag_at, behind_chunk, length-behind_chunk, if_same, still_unread, none_together, end_or_more,
  fewer,
}

-- The packet with a chunk of the file.
abbrev pub chunk_packet : ℕ → ℕ → Bool → List ℕ → Packet
chunk_packet seq_no offset short chunk =
    let p = data_packet_of seq_no offset chunk in
    record p { data_packet = record (p.data_packet) { flag = flag_at offset short } }

abbrev pub is_short : List ℕ → Bool
is_short chunk = ltb (length chunk) udp_packet_data_size

-- The chunk that the next read of a stream gives.
abbrev pub next_chunk : Stream → List ℕ
next_chunk fp = take udp_packet_data_size (drop fp.pos fp.content)

packet_init_data-front :
    (seq_no offset : ℕ) (chunk tail : List ℕ)
    → packet_init_data true seq_no offset (chunk ++ tail) (length chunk)
      ≡ packet_init_data true seq_no offset chunk (length chunk)
unfolding packet_init_data
packet_init_data-front seq_no offset chunk tail =
    let n : ℕ = length chunk in
    let more : read_at 0 n (chunk ++ tail) ≡ ok chunk =
      read_at_ok 0 n (chunk ++ tail) (omega (arith, length-append chunk tail))
      ∙ ap ok (take-append chunk tail) in
    rw (more, read_whole chunk)

pub packet_of_read-made :
    (h : Handle) (offset : ℕ) (bytes : List ℕ) (fp : Stream)
    → length bytes ≤ udp_packet_data_size
    → packet_of_read true h offset bytes fp ≡ (
        if length bytes == 0
        then ok (none, record h { fp = some fp })
        else ok (
          some (data_packet_of h.last_seq_no offset bytes),
          record h { fp = some fp; last_seq_no = succ32 h.last_seq_no },
        ))
unfolding packet_of_read
packet_of_read-made h offset bytes fp fits =
    let room : length bytes ≤ length (zeros udp_packet_data_size) =
      omega (arith, length-zeros udp_packet_data_size) in
    let within : leb (length bytes) udp_packet_data_size ≡ true = ground arith in
    rw (
      write_at_front bytes (zeros udp_packet_data_size) room,
      packet_init_data-front h.last_seq_no offset bytes
          (drop (length bytes) (zeros udp_packet_data_size)),
      packet_init_data_cases true h.last_seq_no offset bytes,
      within,
    )

-- On an open file, with memory left, `file_io_get_next_packet` returns NULL at the end of the file;
-- otherwise it returns a packet with the next chunk of at most UDP_PACKET_DATA_SIZE bytes, its offset
-- modulo 2^32, the handle's next number, and the flag START at offset 0, or else END exactly when the
-- stream's end-of-file indicator is set then. The position moves behind the chunk.
pub get_next_packet_lem :
    (h : Handle) (fp : Stream)
    → h.fp ≡ some fp
    → get_next_packet true h ≡ (
        if length (next_chunk fp) == 0
        then ok (none, record h { fp = some ((fread udp_packet_data_size fp).1) })
        else ok (
          some (
              chunk_packet h.last_seq_no fp.pos
                (if is_short (next_chunk fp) then true else fp.eof)
                (next_chunk fp)),
          record h {
            fp = some ((fread udp_packet_data_size fp).1);
            last_seq_no = succ32 h.last_seq_no;
          },
        ))
unfolding get_next_packet set_flag
get_next_packet_lem h fp is_open =
    let small : length (next_chunk fp) ≤ udp_packet_data_size =
      omega (arith, length-take udp_packet_data_size (drop fp.pos fp.content)) in
    let stream : opened h.fp ≡ ok fp = ap opened is_open in
    rw
      (stream, packet_of_read-made h fp.pos (next_chunk fp) (fread udp_packet_data_size fp).1 small)
      (ground arith)

-- The packets until NULL is returned; running out of rounds is a fault.
unfoldable pub read_all : ℕ → Handle → Run (List Packet × Handle)
read_all zero h = fault
read_all (suc k) h = do
  (packet, h') ← get_next_packet true h
  elim packet [ none ↦ ok ([], h') | some p ↦ do (ps, h'') ← read_all k h'; ok (p ∷ ps, h'') ]

-- What `k` rounds cut from the rest of a file.
unfoldable pub cut : ℕ → ℕ → ℕ → List ℕ → List Packet
cut zero seq_no offset rest = []
cut (suc k) seq_no offset rest =
    let chunk = take udp_packet_data_size rest in
    let later = cut k (succ32 seq_no) (offset + length chunk) (drop (length chunk) rest) in
    if length rest == 0 then [] else chunk_packet seq_no offset (is_short chunk) chunk ∷ later

-- The rest of the file is `rest`; when the indicator is set there is none.
pub read_all-cut :
    (k : ℕ) (h : Handle) (fp : Stream) (rest : List ℕ)
    → h.fp ≡ some fp
    → drop fp.pos fp.content ≡ rest
    → (fp.eof ≡ false) ⊎ (length rest ≡ 0)
    → length rest < k
    → (h' : Handle) × (read_all k h ≡ ok (cut k h.last_seq_no fp.pos rest, h'))
unfolding read_all cut
read_all-cut zero h fp rest is_open e fresh enough = absurd (omega arith)
read_all-cut (suc k) h fp rest is_open e fresh enough =
    let fp' : Stream = (fread udp_packet_data_size fp).1 in
    let h1 : Handle = record h { fp = some fp'; last_seq_no = succ32 h.last_seq_no } in
    let chunk_is : next_chunk fp ≡ take udp_packet_data_size rest =
      ap (take udp_packet_data_size) e in
    let counted : length (next_chunk fp) ≡ min udp_packet_data_size (length rest) =
      ap length chunk_is ∙ length-take udp_packet_data_size rest in
    let e' : drop fp'.pos fp'.content ≡ behind_chunk rest =
      drop-add fp.pos (length (next_chunk fp)) fp.content ∙ rw e in
    let fresh' : (fp'.eof ≡ false) ⊎ (length (behind_chunk rest) ≡ 0) =
      end_or_more (length (next_chunk fp)) (length rest) (length (behind_chunk rest)) counted
        (length-behind_chunk rest) fp.eof fresh in
    let together : (length (next_chunk fp) == 0) ≡ (length rest == 0) =
      none_together (length (next_chunk fp)) (length rest) (length (behind_chunk rest)) counted
        (length-behind_chunk rest) in
    elim (Bool-cases (length rest == 0)) [
      | inl none_left ↦
          let none_read : (length (next_chunk fp) == 0) ≡ true = together ∙ none_left in
          (record h { fp = some fp' }, rw (get_next_packet_lem h fp is_open, none_read, none_left))
      | inr some_left ↦
          let some_read : (length (next_chunk fp) == 0) ≡ false = together ∙ some_left in
          let (h', later) = read_all-cut k h1 fp' (behind_chunk rest) refl e' fresh' (
            fewer (length (next_chunk fp)) (length rest) (length (behind_chunk rest)) counted
              (length-behind_chunk rest) k some_left enough) in
          (
            h',
            rw (get_next_packet_lem h fp is_open, some_read, some_left)
                (rw later (
                  ap
                    (λ (c : List ℕ). ok (
                      chunk_packet h.last_seq_no fp.pos (if is_short c then true else fp.eof) c
                          ∷ cut k h1.last_seq_no (fp.pos + length c) (behind_chunk rest),
                      h',
                    ))
                    chunk_is
                  ∙ rw (
                    still_unread (length rest) fp.eof fresh some_left,
                    if_same (is_short (take udp_packet_data_size rest)),
                  ))),
          )
    ]
