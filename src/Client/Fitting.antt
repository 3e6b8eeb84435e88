-- ===== src/Client/Fitting.antt =====
-- The packets of the protocol fit the wire format, and the windows grow by one packet a round.
use ucp.Common.{
  ℕ, ◌≤◌, ◌<◌, ◌≡◌, refl, arith, length, length-take, drop, Bool, true, Option, none, some, List,
  [], ◌∷◌, ◌==◌, if◌then◌else◌, Bool-cases, inl, inr, All, All-append,
}
use ucp.Common.Words.{u32_mod}
use ucp.Packet.Types.{Packet, flag_ack, flag_nack, udp_packet_data_size}
use ucp.Packet.Wire.{IsData}
use ucp.Packet.Made.{data_packet_of-IsData}
use ucp.Files.Stream.{Stream}
use ucp.Files.Ops as File
use ucp.Files.Reading.{next_chunk, is_short, chunk_packet}
use ucp.Client.Held.{has_seq, numbered, without}
use ucp.Client.Choosing.{file_packet, handle_after, choice}
use ucp.Client.Moved.{listed}
use ucp.Client.Loop.{Answer}
use ucp.Client.Protocol.{Windows, file_after, next_packet, fly, answered}

-- All packets fit the wire, and the file's packets get numbers of 32 bits.
pub record IsFitting (w : Windows) : Type 0 where
  pub waiting_fit : All IsData w.waiting
  pub flying_fit : All IsData w.flying
  pub is_open : w.handle.fp ≡ some w.file
  pub small : w.handle.last_seq_no < u32_mod

without-IsData : (n : ℕ) (ps : List Packet) → All IsData ps → All IsData (without n ps)
without-IsData n [] all = tt
without-IsData n (p ∷ ps) (one, all) = elim (Bool-cases (has_seq n p)) [
  | inl this ↦ rw this all
  | inr other ↦ rw other (one, without-IsData n ps all)
]

numbered-IsData : (n : ℕ) (ps : List Packet) → All IsData ps → All IsData (listed (numbered n ps))
numbered-IsData n [] all = tt
numbered-IsData n (p ∷ ps) (one, all) = elim (Bool-cases (has_seq n p)) [
  | inl this ↦ rw this (one, tt)
  | inr other ↦ rw other (numbered-IsData n ps all)
]

length-without : (n : ℕ) (ps : List Packet) → length (without n ps) ≤ length ps
length-without n [] = omega arith
length-without n (p ∷ ps) = ground (arith, length-without n ps)

pub answered-IsFitting : (a : Answer) (w : Windows) → IsFitting w → IsFitting (answered a w)
answered-IsFitting a w h = elim (Bool-cases (a.flag == flag_ack)) [
  | inl ack ↦ rw ack (record {
    waiting_fit = h.waiting_fit;
    flying_fit = without-IsData a.seq_no w.flying h.flying_fit;
    is_open = h.is_open;
    small = h.small;
  })
  | inr no_ack ↦ elim (Bool-cases (a.flag == flag_nack)) [
    | inl nack ↦
        rw (no_ack, nack)
          (record {
            waiting_fit =
                All-append IsData w.waiting _ h.waiting_fit
                  (numbered-IsData a.seq_no w.flying h.flying_fit);
            flying_fit = without-IsData a.seq_no w.flying h.flying_fit;
            is_open = h.is_open;
            small = h.small;
          })
    | inr no_nack ↦
        rw (no_ack, no_nack)
          (record {
            waiting_fit = h.waiting_fit;
            flying_fit = h.flying_fit;
            is_open = h.is_open;
            small = h.small;
          })
  ]
]

pub fewer_answered : (a : Answer) (w : Windows) → length (answered a w).flying ≤ length w.flying
fewer_answered a w = ground (arith, length-without a.seq_no w.flying)

pub fly-IsFitting : (p : Packet) (w : Windows) → IsData p → IsFitting w → IsFitting (fly p w)
fly-IsFitting p w one h = record {
  waiting_fit = h.waiting_fit;
  flying_fit = All-append IsData w.flying (p ∷ []) h.flying_fit (one, tt);
  is_open = h.is_open;
  small = h.small;
}

abbrev pub IsSendable : Option Packet → Type 0
IsSendable none = Unit {0}
IsSendable (some p) = IsData p

chunk_packet-IsData :
    (seq_no offset : ℕ) (short : Bool) (chunk : List ℕ)
    → seq_no < u32_mod
    → length chunk ≤ udp_packet_data_size
    → IsData (chunk_packet seq_no offset short chunk)
chunk_packet-IsData seq_no offset short chunk small fits =
    let h = data_packet_of-IsData seq_no offset chunk small fits in
    record {
      typed = h.typed;
      flag_fits = ground arith;
      seq_no_fits = h.seq_no_fits;
      offset_fits = h.offset_fits;
      seg_len_fits = h.seg_len_fits;
      segment_whole = h.segment_whole;
    }

file_packet-IsData :
    (h : File.Handle) (fp : Stream) → h.last_seq_no < u32_mod → IsSendable (file_packet h fp)
file_packet-IsData h fp small = elim (Bool-cases (length (next_chunk fp) == 0)) [
  | inl at_end ↦ rw at_end tt
  | inr more ↦ rw more (
      chunk_packet-IsData h.last_seq_no fp.pos (if is_short (next_chunk fp) then true else fp.eof)
        (next_chunk fp) small
        (omega (arith, length-take udp_packet_data_size (drop fp.pos fp.content))))
]

choice-IsData :
    (ps : List Packet) (from_file : Option Packet) (qs : List Packet)
    → All IsData ps
    → IsSendable from_file
    → All IsData qs
    → IsSendable (choice ps from_file qs).0
      × All IsData (choice ps from_file qs).1
      × All IsData (choice ps from_file qs).2
choice-IsData (p ∷ ps) from_file qs (one, hp) hf hq = (one, hp, hq)
choice-IsData [] (some p) qs hp hf hq = (hf, tt, hq)
choice-IsData [] none (q ∷ qs) hp hf (one, hq) = (one, tt, hq)
choice-IsData [] none [] hp hf hq = (tt, tt, tt)

handle_after_lem :
    (ps : List Packet) (h : File.Handle) (fp : Stream)
    → h.fp ≡ some fp
    → h.last_seq_no < u32_mod
    → ((handle_after ps h fp).fp ≡ some (file_after ps fp))
      × ((handle_after ps h fp).last_seq_no < u32_mod)
handle_after_lem (p ∷ ps) h fp is_open small = (is_open, small)
handle_after_lem [] h fp is_open small = (refl, ground arith)

pub next_packet-IsFitting :
    (w : Windows) → IsFitting w → IsSendable (next_packet w).0 × IsFitting (next_packet w).1
next_packet-IsFitting w h =
    let (one, ps, qs) =
      choice-IsData w.waiting (file_packet w.handle w.file) w.flying h.waiting_fit
        (file_packet-IsData w.handle w.file h.small) h.flying_fit in
    let (is_open, small) = handle_after_lem w.waiting w.handle w.file h.is_open h.small in
    (one, record { waiting_fit = ps; flying_fit = qs; is_open = is_open; small = small })

fewer_chosen :
    (ps : List Packet) (from_file : Option Packet) (qs : List Packet)
    → length (choice ps from_file qs).2 ≤ length qs
fewer_chosen (p ∷ ps) from_file qs = omega arith
fewer_chosen [] (some p) qs = omega arith
fewer_chosen [] none (q ∷ qs) = omega arith
fewer_chosen [] none [] = omega arith

pub fewer_next : (w : Windows) → length (next_packet w).1.flying ≤ length w.flying
fewer_next w = fewer_chosen w.waiting (file_packet w.handle w.file) w.flying
