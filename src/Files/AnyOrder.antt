-- ===== src/Files/AnyOrder.antt =====
-- A whole part of a file: read, and saved again in whatever order the packets come.
use ucp.Common.{
  ℕ, ◌<◌, ◌≡◌, sym, ap, ◌∙◌, arith, true, some, List, [], ◌∷◌, inl, length, drop, All, Run, ok,
  fault, Bool-cases, inr, false,
}
use ucp.Common.Words.{u32_mod}
use ucp.Packet.Types.{Packet}
use ucp.Files.Stream.{Stream}
use ucp.Files.Ops.{Handle}
use ucp.Files.Reading.{cut, read_all, read_all-cut}
use ucp.Files.Saving.{Piece, carries, covered, save_all, Holds, saved_in_any_order}
use ucp.Files.Transfer.{or_right, cut-Piece, cut-covered, cut-numbers, numbers, seq_nos}
use mathlib.Core.List.{Memᴰ}

Piece-Memᴰ : (c : List ℕ) (ps : List Packet) (p : Packet) → All (Piece c) ps → Memᴰ p ps → Piece c p
Piece-Memᴰ c [] p pieces m = elim m [ ]
Piece-Memᴰ c (q ∷ ps) p (first, others) (Memᴰ.head e) = rw (e) first
Piece-Memᴰ c (q ∷ ps) p (first, others) (Memᴰ.tail m) = Piece-Memᴰ c ps p others m

All-Piece :
    (c : List ℕ) (ps qs : List Packet)
    → All (Piece c) ps
    → All (λ q. Memᴰ q ps) qs
    → All (Piece c) qs
All-Piece c ps [] pieces sent = tt
All-Piece c ps (q ∷ qs) pieces (one, others) =
    (Piece-Memᴰ c ps q pieces one, All-Piece c ps qs pieces others)

covered-Memᴰ :
    (p : Packet) (qs : List Packet) (i : ℕ) → Memᴰ p qs → carries p i ≡ true → covered qs i ≡ true
covered-Memᴰ p [] i m h = elim m [ ]
covered-Memᴰ p (q ∷ qs) i (Memᴰ.head e) h =
    let here : carries q i ≡ true = ap (λ (r : Packet). carries r i) (sym e) ∙ h in rw here
covered-Memᴰ p (q ∷ qs) i (Memᴰ.tail m) h = or_right (carries q i) (covered-Memᴰ p qs i m h)

abbrev packets_of : Run (List Packet × Handle) → List Packet
packets_of (ok (ps, h)) = ps
packets_of fault = []

covered-All :
    (ps qs : List Packet) (i : ℕ)
    → All (λ p. Memᴰ p qs) ps
    → covered ps i ≡ true
    → covered qs i ≡ true
covered-All [] qs i arrived h = (ground arith)
covered-All (p ∷ ps) qs i (one, others) h = elim (Bool-cases (carries p i)) [
  | inl here ↦ covered-Memᴰ p qs i one here
  | inr elsewhere ↦ covered-All ps qs i others (rw elsewhere at h)
]

-- A file of less than 2^32 bytes that is open at its start, and enough rounds to read it.
module _ (k : ℕ) (h : Handle) (fp : Stream) (is_open : h.fp ≡ some fp) (start : fp.pos ≡ 0)
    (fresh : fp.eof ≡ false) (enough : length fp.content < k)
    (within : length fp.content < u32_mod) where
  whole : drop fp.pos fp.content ≡ fp.content
  whole = ap (λ (n : ℕ). drop n fp.content) start

  read_all-run : (h' : Handle) × (read_all k h ≡ ok (cut k h.last_seq_no fp.pos fp.content, h'))
  read_all-run = read_all-cut k h fp fp.content is_open whole (inl fresh) enough

  cut_whole-Piece : All (Piece fp.content) (cut k h.last_seq_no fp.pos fp.content)
  cut_whole-Piece =
      cut-Piece fp.content within k h.last_seq_no fp.pos fp.content whole (omega arith)

  read_all-covered :
      (i : ℕ) → i < length fp.content → covered (cut k h.last_seq_no fp.pos fp.content) i ≡ true
  read_all-covered i below =
      cut-covered fp.content within k h.last_seq_no fp.pos fp.content i whole enough (omega arith)
        below

  -- When a file of less than 2^32 bytes is read to its end from its start, with memory left and one
  -- round more than it has bytes, the packets have consecutive numbers from the handle's next one
  -- on, modulo 2^32; each carries the bytes that the file has from its offset on, and every byte of
  -- the file is carried by one of them.
  pub read_all_lem :
      (i : ℕ)
      → i < length fp.content
      → (h' : Handle) × (ps : List Packet) × (read_all k h ≡ ok (ps, h'))
        × (seq_nos ps ≡ numbers h.last_seq_no (length ps))
        × All (Piece fp.content) ps
        × (covered ps i ≡ true)
  read_all_lem i below =
      let (h', run) = read_all-run in
      (
        h',
        cut k h.last_seq_no fp.pos fp.content,
        run,
        cut-numbers k h.last_seq_no fp.pos fp.content,
        cut_whole-Piece,
        read_all-covered i below,
      )

  -- When a file of less than 2^32 bytes has been read to its end from its start, with memory left
  -- and one round more than it has bytes, and its packets, and no others, are saved, each at least
  -- once, in any order, into an open file of the same length, and every write is accepted, then that
  -- file has the same content in the end.
  pub save_all-read_all :
      (ps qs : List Packet) (h' to : Handle) (old : List ℕ)
      → read_all k h ≡ ok (ps, h')
      → All (λ q. Memᴰ q ps) qs
      → All (λ p. Memᴰ p qs) ps
      → Holds to old
      → length old ≡ length fp.content
      → (to' : Handle) × (save_all to qs ≡ ok to') × Holds to' fp.content
  save_all-read_all ps qs h' to old run sent arrived holds same =
      let (_, run') = read_all-run in
      let these : cut k h.last_seq_no fp.pos fp.content ≡ ps = ap packets_of (sym run' ∙ run) in
      let pieces : All (Piece fp.content) ps = rw these at cut_whole-Piece in
      saved_in_any_order fp.content old qs to (All-Piece fp.content ps qs pieces sent)
        (λ i below. covered-All ps qs i arrived (rw these at (read_all-covered i below))) holds same
