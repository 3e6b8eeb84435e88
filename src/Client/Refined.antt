-- ===== src/Client/Refined.antt =====
-- The loop of block_thread does on the memory what the protocol does on lists of packets.
use ucp.Common.{
  ℕ, suc, ◌+◌, ◌≤◌, ◌<◌, ◌≡◌, refl, ap, ◌∙◌, arith, length, length-append, true, Option, none, some,
  List, [], ◌∷◌, map, ok, Bool-cases, inl, inr, ne→==,
}
use mathlib.Core.Path.{subst}
use ucp.Packet.Types.{Packet, udp_packet_size}
use ucp.Packet.Wire.{data_wire}
use ucp.LinkedList.Memory.{Ptr, null}
use ucp.Files.Ops as File
use ucp.Client.Windows.{Client, get_next_packet}
use ucp.Client.Held.{IsClient}
use ucp.Client.Choosing.{file_packet, handle_after, choice, Points}
use ucp.Client.Sent.{get_next_packet-IsClient}
use ucp.Client.Answered.{on_ctrl-IsClient}
use ucp.Client.Exchange.{send_packet-IsClient}
use ucp.Client.Loop.{Answer, Turn, answer_all, block_loop, fresh_answers, fresh_turns}
use ucp.Client.Fresh.{next_answer, next_turn}
use ucp.Client.Protocol.{
  Windows, next_packet, fly, answered, answered_all, protocol, protocol_round,
}
use ucp.Client.Fitting.{
  IsFitting, answered-IsFitting, fly-IsFitting, next_packet-IsFitting, fewer_answered, fewer_next,
  IsSendable,
}

module _ (pending in_flight : Ptr) (fuel : ℕ) where
  -- A client whose windows hold the packets.
  pub record Implements (c : Client) (w : Windows) : Type 0 where
    pub windows : IsClient c pending in_flight w.waiting w.flying
    pub same_handle : c.handle ≡ w.handle
    pub same_done : c.done ≡ w.done

  answer_all_lem :
      (answers : List Answer) (c : Client) (w : Windows)
      → Implements c w
      → length w.flying < fuel
      → fresh_answers pending in_flight fuel answers c ≡ true
      → (c' : Client) × (answer_all pending in_flight fuel answers c ≡ ok c')
        × Implements c' (answered_all answers w)
  unfolding answer_all
  answer_all_lem [] c w h enough fresh = (c, refl, h)
  answer_all_lem (a ∷ answers) c w h enough fresh =
      let (address, unused, later) = next_answer pending in_flight fuel a answers c fresh in
      let (c₁, run, windows, same_done, same_handle) =
        on_ctrl-IsClient c pending in_flight a.elem_at fuel a.seq_no w.waiting w.flying h.windows
          address unused enough a.flag in
      let h₁ : Implements c₁ (answered a w) = record {
        windows = windows;
        same_handle = same_handle ∙ h.same_handle;
        same_done = same_done ∙ rw h.same_done;
      } in
      let (c', rest, done) =
        answer_all_lem answers c₁ (answered a w) h₁ (omega (arith, fewer_answered a w))
          (later c₁ run) in
      (c', rw (run, rest), done)

  answered_all-IsFitting :
      (answers : List Answer) (w : Windows)
      → IsFitting w
      → IsFitting (answered_all answers w)
        × (length (answered_all answers w).flying ≤ length w.flying)
  answered_all-IsFitting [] w h = (h, omega arith)
  answered_all-IsFitting (a ∷ answers) w h =
      let (fits, fewer) =
        answered_all-IsFitting answers (answered a w) (answered-IsFitting a w h) in
      (fits, omega (arith, fewer, fewer_answered a w))

  -- What the loop sends and leaves from windows that implement `w`.
  abbrev Refines : List Turn → List ℕ → Client → Windows → Type 0
  Refines turns buf c w =
      (c' : Client) × (block_loop pending in_flight fuel turns buf c
        ≡ ok (map data_wire (protocol turns w).0, c'))
      × Implements c' (protocol turns w).1

  -- Any number of rounds, each from a well-formed state.
  abbrev Rounds : List Turn → Type 0
  Rounds turns =
      (buf : List ℕ) (c : Client) (w : Windows)
      → Implements c w
      → IsFitting w
      → length buf ≡ udp_packet_size
      → fresh_turns pending in_flight fuel turns buf c ≡ true
      → length w.flying + length turns < fuel
      → Refines turns buf c w

  -- The round with what get_next_packet has given.
  round_lem :
      (turn : Turn) (turns : List Turn) (buf : List ℕ) (c : Client) (w₁ : Windows)
      (next : Option Packet) (a : Ptr) (c₁ : Client)
      → get_next_packet pending in_flight turn.packet_at c ≡ ok (a, c₁)
      → Points c₁ a next
      → Implements c₁ w₁
      → IsFitting w₁
      → IsSendable next
      → length buf ≡ udp_packet_size
      → fresh_turns pending in_flight fuel (turn ∷ turns) buf c ≡ true
      → length w₁.flying + suc (length turns) < fuel
      → Rounds turns
      → (c' : Client) × (block_loop pending in_flight fuel (turn ∷ turns) buf c
          ≡ ok (map data_wire (protocol_round turn.answers (λ w. protocol turns w) next w₁).0, c'))
        × Implements c' (protocol_round turn.answers (λ w. protocol turns w) next w₁).1
  unfolding block_loop
  round_lem turn turns buf c w₁ none a c₁ run points h₁ fits one sized fresh enough rounds =
      (c₁, rw (run, points), h₁)
  round_lem turn turns buf c w₁ (some p) a c₁ run (some_packet, here) h₁ fits one sized fresh enough
        rounds =
      let (_, _, later) = next_turn pending in_flight fuel turn turns buf c fresh in
      let (address, unused, behind) = later a c₁ run some_packet in
      let (c₂, sent, sized', windows, same_handle, same_done) =
        send_packet-IsClient c₁ pending in_flight turn.elem_at a w₁.waiting w₁.flying p buf
          h₁.windows here one sized address unused in
      let (fresh', last) = behind _ _ c₂ sent in
      let h₂ : Implements c₂ (fly p w₁) = record {
        windows = windows;
        same_handle = same_handle ∙ h₁.same_handle;
        same_done = same_done ∙ h₁.same_done;
      } in
      let one_more : length (fly p w₁).flying ≡ length w₁.flying + 1 =
        length-append w₁.flying (p ∷ []) in
      let (c₃, done, h₃) =
        answer_all_lem turn.answers c₂ (fly p w₁) h₂ (omega (arith, one_more)) fresh' in
      let (fits₃, fewer) =
        answered_all-IsFitting turn.answers (fly p w₁) (fly-IsFitting p w₁ one fits) in
      let w₃ : Windows = answered_all turn.answers (fly p w₁) in
      elim (Bool-cases w₃.done) [
        | inl over ↦
            (c₃, rw (run, ne→== a null some_packet, sent, done, h₃.same_done, over), rw over h₃)
        | inr going ↦
            let (c', rest, h') =
              rounds _ c₃ w₃ h₃ fits₃ sized' (last c₃ done) (omega (arith, one_more, fewer)) in
            (
              c',
              rw (run, ne→== a null some_packet, sent, done, h₃.same_done, going, rest),
              rw going h',
            )
      ]

  -- What get_next_packet gives, for a file's handle that equals the client's.
  abbrev Got : Client → Ptr → Windows → File.Handle → Type 0
  Got c at w handle =
      let (next, ps, qs) = choice w.waiting (file_packet handle w.file) w.flying in
      (a : Ptr) × (c₁ : Client) × (get_next_packet pending in_flight at c ≡ ok (a, c₁))
      × Points c₁ a next
      × IsClient c₁ pending in_flight ps qs
      × (c₁.handle ≡ handle_after w.waiting handle w.file)
      × (c₁.done ≡ c.done)

  block_loop_lem : (turns : List Turn) → Rounds turns
  unfolding block_loop
  block_loop_lem [] buf c w h fits sized fresh enough = (c, refl, h)
  block_loop_lem (turn ∷ turns) buf c w h fits sized fresh enough =
      let (address, unused, _) = next_turn pending in_flight fuel turn turns buf c fresh in
      let (a, c₁, run, points, windows, same_handle, same_done) =
        subst (Got c turn.packet_at w) h.same_handle (
          get_next_packet-IsClient c pending in_flight turn.packet_at w.file
            (ap (λ (h : File.Handle). h.fp) h.same_handle ∙ fits.is_open) address unused w.waiting
            w.flying h.windows) in
      let (one, fits₁) = next_packet-IsFitting w fits in
      let h₁ : Implements c₁ (next_packet w).1 = record {
        windows = windows;
        same_handle = same_handle;
        same_done = same_done ∙ h.same_done;
      } in
      round_lem turn turns buf c (next_packet w).1 (next_packet w).0 a c₁ run points h₁ fits₁ one
        sized fresh (omega (arith, fewer_next w)) (block_loop_lem turns)

  -- The loop of block_thread from windows with the packets of `w`, an open file, packets that fit the
  -- wire, unused addresses from `malloc`, and a search of one round more than there can be packets in
  -- flight: it returns, sends the bytes on the wire of exactly the packets that the protocol on lists
  -- sends, in the same order, and leaves windows with the packets that the protocol leaves.
  pub block_loop-protocol :
      (turns : List Turn) (buf : List ℕ) (c : Client) (w : Windows)
      → Implements c w
      → IsFitting w
      → length buf ≡ udp_packet_size
      → fresh_turns pending in_flight fuel turns buf c ≡ true
      → length w.flying + length turns < fuel
      → (c' : Client) × (block_loop pending in_flight fuel turns buf c
          ≡ ok (map data_wire (protocol turns w).0, c'))
        × Implements c' (protocol turns w).1
  block_loop-protocol turns buf c w h fits sized fresh enough =
      block_loop_lem turns buf c w h fits sized fresh enough
