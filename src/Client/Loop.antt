-- ===== src/Client/Loop.antt =====
-- src/ucp_client.c: the loop of block_thread. The control packets that come back while
-- tcp_server_tick runs are an argument, and so are the addresses that `malloc` returns.
use ucp.Common.{
  ℕ, Bool, true, false, not, ◌&&◌, Option, none, some, List, [], ◌∷◌, Run, ok, fault, ◌>>=◌, ◌==◌,
  if◌then◌else◌,
}
use ucp.Packet.Types.{Packet}
use ucp.LinkedList.Memory.{Ptr, null}
use ucp.Client.Windows.{Client, get_next_packet, send_packet, on_ctrl}

-- A control packet that has come back; `elem_at` is what `malloc` returns for an element.
pub record Answer : Type 0 where
  pub flag : ℕ
  pub seq_no : ℕ
  pub elem_at : Ptr

-- What a round of the loop meets: the addresses that `malloc` returns for a packet and for an
-- element, and the control packets.
pub record Turn : Type 0 where
  pub packet_at : Ptr
  pub elem_at : Ptr
  pub answers : List Answer

-- The calls of on_ack_received in a call of tcp_server_tick.
unfoldable pub answer_all : (pending in_flight : Ptr) (fuel : ℕ) → List Answer → Client → Run Client
answer_all pending in_flight fuel [] c = ok c
answer_all pending in_flight fuel (a ∷ answers) c =
    on_ctrl pending in_flight a.elem_at fuel a.flag a.seq_no c >>= λ c'.
    answer_all pending in_flight fuel answers c'

-- The loop, for as many rounds as there are turns: the datagrams that are sent, and the client.
unfoldable pub block_loop :
    (pending in_flight : Ptr) (fuel : ℕ)
    → List Turn
    → List ℕ
    → Client
    → Run (List (List ℕ) × Client)
block_loop pending in_flight fuel [] buf c = ok ([], c)
block_loop pending in_flight fuel (turn ∷ turns) buf c =
    get_next_packet pending in_flight turn.packet_at c >>= λ (packet, c₁).
    if packet == null
    then ok ([], c₁)
    else (send_packet in_flight turn.elem_at buf packet c₁ >>= λ (datagram, buf', c₂).
        answer_all pending in_flight fuel turn.answers c₂ >>= λ c₃.
        let rest = block_loop pending in_flight fuel turns buf' c₃ in
        if c₃.done
        then ok (datagram ∷ [], c₃)
        else (rest >>= λ (later, c₄). ok (datagram ∷ later, c₄)))

abbrev pub is_none : Option Packet → Bool
is_none none = true
is_none (some p) = false

abbrev pub if_ok {ℓ} : {A : Type ℓ} → Run A → (A → Bool) → Bool
if_ok (ok a) test = test a
if_ok fault test = true

-- Whether an address is one that `malloc` can return for an element.
abbrev pub fresh_elem : Ptr → Client → Bool
fresh_elem a c = not (a == null) && not (c.memory.live a)

abbrev pub fresh_packet : Ptr → Client → Bool
fresh_packet a c = not (a == null) && is_none (c.packets a)

-- Whether the addresses that `malloc` returns in the course of the loop are not in use then.
unfoldable pub fresh_answers : (pending in_flight : Ptr) (fuel : ℕ) → List Answer → Client → Bool
fresh_answers pending in_flight fuel [] c = true
fresh_answers pending in_flight fuel (a ∷ answers) c =
    fresh_elem a.elem_at c
    && if_ok (on_ctrl pending in_flight a.elem_at fuel a.flag a.seq_no c)
        (λ c'. fresh_answers pending in_flight fuel answers c')

unfoldable pub fresh_turns :
    (pending in_flight : Ptr) (fuel : ℕ) → List Turn → List ℕ → Client → Bool
fresh_turns pending in_flight fuel [] buf c = true
fresh_turns pending in_flight fuel (turn ∷ turns) buf c =
    fresh_packet turn.packet_at c
    && if_ok (get_next_packet pending in_flight turn.packet_at c) (λ (packet, c₁).
      if packet == null
      then true
      else (fresh_elem turn.elem_at c₁
          && if_ok (send_packet in_flight turn.elem_at buf packet c₁) (λ (datagram, buf', c₂).
            fresh_answers pending in_flight fuel turn.answers c₂
            && if_ok (answer_all pending in_flight fuel turn.answers c₂)
                (λ c₃. fresh_turns pending in_flight fuel turns buf' c₃))))
