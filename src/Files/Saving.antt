-- ===== src/Files/Saving.antt =====
-- Saving packets: what becomes of the file, and that the order of the packets does not matter.
use ucp.Common.{
  ℕ, ◌+◌, ◌-◌, ◌≤◌, ◌<◌, ◌≡◌, refl, ap, ◌∙◌, arith, Bool, true, false, ◌&&◌, ◌||◌, some, List, [],
  ◌∷◌, min, leb, ltb, if◌then◌else◌, length, take, drop, take_all, length-take, All, Run, ok, ◌>>=◌,
  read_at_ok, Bool-cases, inl, inr,
}
use ucp.Packet.Types.{Packet}
use ucp.Files.Stream.{Stream, overwrite, long_limit}
use ucp.Files.Ops.{Handle, save_packet}
use ucp.Files.Overwrite.{
  byte_at, length-overwrite_inside, byte_at-overwrite, byte_at-take, byte_at-drop, same_bytes,
}

-- The bytes that a packet carries.
abbrev pub payload : Packet → List ℕ
payload p = take p.data_packet.seg_len p.data_packet.segment_data

-- The stream behind a save of which `accepted` bytes have been written.
abbrev pub written : ℕ → Packet → Stream → Stream
written accepted p fp = record fp {
  content = overwrite p.data_packet.offset (take accepted (payload p)) fp.content;
  pos = p.data_packet.offset + min accepted p.data_packet.seg_len;
  eof = false;
}

-- On an open file, `file_io_save_packet` with a packet whose segment has the announced length and
-- whose offset is no negative `long` writes the accepted part of the announced bytes at the offset,
-- and answers TRUE exactly when all of them are accepted and the flush succeeds.
pub save_packet_lem :
    (accepted : ℕ) (flushed : Bool) (h : Handle) (fp : Stream) (p : Packet)
    → h.fp ≡ some fp
    → p.data_packet.seg_len ≤ length p.data_packet.segment_data
    → p.data_packet.offset < long_limit
    → save_packet accepted flushed h p
      ≡ ok (
        leb p.data_packet.seg_len accepted && flushed,
        record h { fp = some (written accepted p fp) },
      )
unfolding save_packet
save_packet_lem accepted flushed h fp p is_open fits small =
    let n : ℕ = p.data_packet.seg_len in
    let seek_ok : ltb p.data_packet.offset long_limit ≡ true = ground arith in
    let whole : length (payload p) ≡ n = omega (arith, length-take n p.data_packet.segment_data) in
    let count : length (take accepted (payload p)) ≡ min accepted n =
      length-take accepted (payload p) ∙ ap (min accepted) whole in
    rw (is_open, seek_ok, read_at_ok 0 n p.data_packet.segment_data (omega arith), count)
      (ground arith)

-- The packet carries the bytes that the file `c` has from its offset on.
pub record Piece (c : List ℕ) (p : Packet) : Type 0 where
  pub fits : p.data_packet.seg_len ≤ length p.data_packet.segment_data
  pub small : p.data_packet.offset < long_limit
  pub inside : p.data_packet.offset + p.data_packet.seg_len ≤ length c
  pub bytes : payload p ≡ take p.data_packet.seg_len (drop p.data_packet.offset c)

-- Whether a packet, or one of a list, carries the byte at an index.
abbrev pub carries : Packet → ℕ → Bool
carries p i = leb p.data_packet.offset i && ltb i (p.data_packet.offset + p.data_packet.seg_len)

abbrev pub covered : List Packet → ℕ → Bool
covered [] i = false
covered (p ∷ ps) i = carries p i || covered ps i

-- The content of a file behind some packets.
abbrev pub saved : List ℕ → List Packet → List ℕ
saved content [] = content
saved content (p ∷ ps) = saved (overwrite p.data_packet.offset (payload p) content) ps

length-payload : (c : List ℕ) (p : Packet) → Piece c p → length (payload p) ≡ p.data_packet.seg_len
length-payload c p piece =
    omega (arith, length-take p.data_packet.seg_len p.data_packet.segment_data, piece.fits)

length-saved :
    (c content : List ℕ) (ps : List Packet)
    → All (Piece c) ps
    → length content ≡ length c
    → length (saved content ps) ≡ length c
length-saved c content [] pieces e = e
length-saved c content (p ∷ ps) (piece, pieces) e =
    let inside : p.data_packet.offset + length (payload p) ≤ length content =
      omega (arith, length-payload c p piece, piece.inside) in
    length-saved c (overwrite p.data_packet.offset (payload p) content) ps pieces
      (length-overwrite_inside p.data_packet.offset (payload p) content inside ∙ e)

one_saved :
    (c content : List ℕ) (p : Packet) (i : ℕ)
    → Piece c p
    → byte_at (overwrite p.data_packet.offset (payload p) content) i
      ≡ (if carries p i then byte_at c i else byte_at content i)
one_saved c content p i piece =
    let off : ℕ = p.data_packet.offset in
    let n : ℕ = p.data_packet.seg_len in
    byte_at-overwrite off i (payload p) content
    ∙ rw (length-payload c p piece) (elim (Bool-cases (carries p i)) [
      | inl within ↦
          let at : off + (i - off) ≡ i = ground arith in
          rw (within, piece.bytes)
            (byte_at-take n (i - off) (drop off c) (ground arith)
              ∙ byte_at-drop off (i - off) c
              ∙ rw at)
      | inr outside ↦ rw outside
    ])

saved_bytes :
    (c content : List ℕ) (ps : List Packet) (i : ℕ)
    → All (Piece c) ps
    → byte_at (saved content ps) i ≡ (if covered ps i then byte_at c i else byte_at content i)
saved_bytes c content [] i pieces = refl
saved_bytes c content (p ∷ ps) i (piece, pieces) = ground (
  arith,
  saved_bytes c (overwrite p.data_packet.offset (payload p) content) ps i pieces,
  one_saved c content p i piece,
)

-- The packets are saved one after the other; every write is accepted.
unfoldable pub save_all : Handle → List Packet → Run Handle
save_all h [] = ok h
save_all h (p ∷ ps) = do (done, h') ← save_packet p.data_packet.seg_len true h p; save_all h' ps

-- The handle's file is open and has the content.
abbrev pub Holds : Handle → List ℕ → Type 0
Holds h content = (fp : Stream) × (h.fp ≡ some fp) × (fp.content ≡ content)

save_all-saved :
    (c content : List ℕ) (ps : List Packet) (h : Handle)
    → All (Piece c) ps
    → Holds h content
    → (h' : Handle) × (save_all h ps ≡ ok h') × Holds h' (saved content ps)
unfolding save_all
save_all-saved c content [] h pieces holds = (h, refl, holds)
save_all-saved c content (p ∷ ps) h (piece, pieces) (fp, is_open, has) =
    let n : ℕ = p.data_packet.seg_len in
    let after : Stream = written n p fp in
    let h1 : Handle = record h { fp = some after } in
    let one : save_packet n true h p ≡ ok (leb n n && true, h1) =
      save_packet_lem n true h fp p is_open piece.fits piece.small in
    let all_bytes : after.content ≡ overwrite p.data_packet.offset (payload p) content =
      rw (take_all n (payload p) (omega (arith, length-payload c p piece)), has) in
    let rest =
      save_all-saved c (overwrite p.data_packet.offset (payload p) content) ps h1 pieces
        (after, refl, all_bytes) in
    rw one rest

-- Into an open file that is as long as the sender's, when packets are saved that each carry a piece
-- of the sender's file and together carry all of it, in any order and any number of times, the file
-- has the sender's content in the end.
pub saved_in_any_order :
    (c content : List ℕ) (ps : List Packet) (h : Handle)
    → All (Piece c) ps
    → ((i : ℕ) → i < length c → covered ps i ≡ true)
    → Holds h content
    → length content ≡ length c
    → (h' : Handle) × (save_all h ps ≡ ok h') × Holds h' c
saved_in_any_order c content ps h pieces all holds e =
    let same : saved content ps ≡ c =
      same_bytes (saved content ps) c (length-saved c content ps pieces e)
        (λ i below. saved_bytes c content ps i pieces ∙ rw (all i below)) in
    rw same at (save_all-saved c content ps h pieces holds)
