-- ===== src/Client/Choosing.antt =====
-- Which packet the client sends next: one that waits, or else one from the file, or else the one that
-- has been in flight for the longest time.
use ucp.Common.{
  ◌≡◌, ◌≢◌, sym, ap, ◌∙◌, arith, true, Option, none, some, List, [], ◌∷◌, length, ok, ◌==◌,
  if◌then◌else◌, Bool-cases, inl, inr,
}
use ucp.Common.Words.{succ32}
use ucp.Packet.Types.{Packet, udp_packet_data_size}
use ucp.Files.Stream.{Stream, fread}
use ucp.Files.Ops as File
use ucp.Files.Reading.{chunk_packet, is_short, next_chunk, get_next_packet_lem}
use ucp.LinkedList.Memory.{Ptr, null, Memory, valid}
use ucp.LinkedList.Walk.{first_last_lem}
use ucp.LinkedList.Pair.{AreRings, unlink-AreRings}
use ucp.Client.Windows.{Client, take_first}

-- The packet that the file gives next, and the handle behind it.
abbrev pub file_packet : File.Handle → Stream → Option Packet
file_packet h fp =
    if length (next_chunk fp) == 0
    then none
    else some (
        chunk_packet h.last_seq_no fp.pos (if is_short (next_chunk fp) then true else fp.eof)
          (next_chunk fp))

abbrev pub handle_behind : File.Handle → Stream → File.Handle
handle_behind h fp = record h {
  fp = some (fread udp_packet_data_size fp).1;
  last_seq_no = if length (next_chunk fp) == 0 then h.last_seq_no else succ32 h.last_seq_no;
}

-- What is sent next, and the windows without it.
abbrev pub choice :
    List Packet → Option Packet → List Packet → Option Packet × List Packet × List Packet
choice (p ∷ ps) from_file qs = (some p, ps, qs)
choice [] (some p) qs = (some p, [], qs)
choice [] none (q ∷ qs) = (some q, [], qs)
choice [] none [] = (none, [], [])

-- The file is read only when no packet waits.
abbrev pub handle_after : List Packet → File.Handle → Stream → File.Handle
handle_after (p ∷ ps) h fp = h
handle_after [] h fp = handle_behind h fp

-- A pointer to a packet, or NULL.
abbrev pub Points : Client → Ptr → Option Packet → Type 0
Points c a none = a ≡ null
Points c a (some p) = (a ≢ null) × (c.packets a ≡ some p)

pub Points-some :
    (c : Client) (a : Ptr) (p : Packet)
    → c.packets null ≡ none
    → c.packets a ≡ some p
    → Points c a (some p)
Points-some c a p unused here =
    (λ e. let clash : some p ≡ none = sym here ∙ ap c.packets e ∙ unused in ground arith, here)

-- Either window may be the first of the two lists.
pub take_first-AreRings :
    (c : Client) (a : Ptr) (x : Ptr) (xs : List Ptr) (b : Ptr) (ys : List Ptr)
    → AreRings c.memory a (x ∷ xs) b ys
    → (m' : Memory) × (take_first a c ≡ ok (c.memory.obj x, record c { memory = m' }))
      × AreRings m' a xs b ys
      × ((p : Ptr) → m'.obj p ≡ c.memory.obj p)
unfolding take_first
take_first-AreRings c a x xs b ys two =
    let (m', run, two', same) = unlink-AreRings c.memory a [] x xs b ys two in
    let live : valid c.memory x ≡ true = two.ring.alive.1.0 in
    (m', rw ((first_last_lem c.memory a (x ∷ xs) two.ring).0, live, run), two', same)

pub file_next :
    (h : File.Handle) (fp : Stream)
    → h.fp ≡ some fp
    → File.get_next_packet true h ≡ ok (file_packet h fp, handle_behind h fp)
file_next h fp is_open = elim (Bool-cases (length (next_chunk fp) == 0)) [
  | inl at_end ↦ rw (get_next_packet_lem h fp is_open, at_end)
  | inr more ↦ rw (get_next_packet_lem h fp is_open, more)
]
