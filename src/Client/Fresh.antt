-- ===== src/Client/Fresh.antt =====
-- The addresses that `malloc` returns in the loop of block_thread, one step at a time.
use ucp.Common.{
  ℕ, ◌≡◌, ◌≢◌, refl, arith, ne→==, Bool, true, false, ◌&&◌, Option, none, some, List, ◌∷◌, Run, ok,
}
use ucp.Packet.Types.{Packet}
use ucp.LinkedList.Memory.{Ptr, null}
use ucp.Client.Windows.{Client, get_next_packet, send_packet, on_ctrl}
use ucp.Client.Loop.{
  Answer, Turn, answer_all, if_ok, is_none, fresh_elem, fresh_packet, fresh_answers, fresh_turns,
}

fresh_elem_parts :
    {a : Ptr} (c : Client) {rest : Bool}
    → (fresh_elem a c && rest) ≡ true
    → (a ≢ null) × (c.memory.live a ≡ false) × (rest ≡ true)
fresh_elem_parts c fresh = (ground arith, ground arith, ground arith)

is_none_lem : (packet : Option Packet) → is_none packet ≡ true → packet ≡ none
is_none_lem none h = refl
is_none_lem (some p) h = cc

fresh_packet_parts :
    {a : Ptr} (c : Client) {rest : Bool}
    → (fresh_packet a c && rest) ≡ true
    → (a ≢ null) × (c.packets a ≡ none) × (rest ≡ true)
fresh_packet_parts {a} c fresh =
    (ground arith, is_none_lem (c.packets a) (ground arith), ground arith)

if_ok_lem {ℓ} :
    {A : Type ℓ} {run : Run A} (test : A → Bool) {result : A}
    → run ≡ ok result
    → if_ok run test ≡ true
    → test result ≡ true
if_ok_lem test done h = rw done at h

both_parts : {a b : Bool} → (a && b) ≡ true → (a ≡ true) × (b ≡ true)
both_parts h = (ground arith, ground arith)

module _ (pending in_flight : Ptr) (fuel : ℕ) where
  pub next_answer :
      (a : Answer) (answers : List Answer) (c : Client)
      → fresh_answers pending in_flight fuel (a ∷ answers) c ≡ true
      → (a.elem_at ≢ null)
        × (c.memory.live a.elem_at ≡ false)
        × ((c' : Client)
            → on_ctrl pending in_flight a.elem_at fuel a.flag a.seq_no c ≡ ok c'
            → fresh_answers pending in_flight fuel answers c' ≡ true)
  unfolding fresh_answers
  next_answer a answers c fresh =
      let (address, unused, rest) = fresh_elem_parts c fresh in
      (
        address,
        unused,
        λ c' run. if_ok_lem (λ c'. fresh_answers pending in_flight fuel answers c') run rest,
      )

  pub next_turn :
      (turn : Turn) (turns : List Turn) (buf : List ℕ) (c : Client)
      → fresh_turns pending in_flight fuel (turn ∷ turns) buf c ≡ true
      → (turn.packet_at ≢ null)
        × (c.packets turn.packet_at ≡ none)
        × ((packet : Ptr) (c₁ : Client)
            → get_next_packet pending in_flight turn.packet_at c ≡ ok (packet, c₁)
            → packet ≢ null
            → (turn.elem_at ≢ null)
              × (c₁.memory.live turn.elem_at ≡ false)
              × ((datagram buf' : List ℕ) (c₂ : Client)
                  → send_packet in_flight turn.elem_at buf packet c₁ ≡ ok (datagram, buf', c₂)
                  → (fresh_answers pending in_flight fuel turn.answers c₂ ≡ true)
                    × ((c₃ : Client)
                        → answer_all pending in_flight fuel turn.answers c₂ ≡ ok c₃
                        → fresh_turns pending in_flight fuel turns buf' c₃ ≡ true)))
  unfolding fresh_turns
  next_turn turn turns buf c fresh =
      let (address, unused, rest) = fresh_packet_parts c fresh in
      (
        address,
        unused,
        λ packet c₁ run some_packet.
            let (address', unused', rest') =
              fresh_elem_parts c₁ (rw (run, ne→== packet null some_packet) at rest) in
            (
              address',
              unused',
              λ datagram buf' c₂ sent.
                  let (answers, rest'') = both_parts (rw sent at rest') in
                  (answers, λ c₃ done. rw done at rest''),
            ),
      )
