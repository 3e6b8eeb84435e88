-- ===== src/Client/Windows.antt =====
-- src/ucp_client.c: the windows of packets that wait to be sent again and that wait for an
-- acknowledgement. Each is a linked list whose objects are packets. Two lists at `pending` and
-- `in_flight` share one memory with the packets; a loop runs on fuel, and running out is a fault.
use ucp.Common.{
  ℕ, zero, suc, ◌+◌, ◌%◌, Bool, true, false, not, Option, none, some, List, [], ◌∷◌, ◌==◌,
  if◌then◌else◌, Run, ok, fault, read_at,
}
use ucp.Common
use ucp.Common.Words.{succ32}
use ucp.Packet.Types.{Packet, udp_packet_size, type_ctrl, flag_ack, flag_nack, flag_fin}
use ucp.Packet.Encode.{encode}
use ucp.Packet.Decode.{decode}
use ucp.Files.Ops as File
use ucp.LinkedList.Memory.{Ptr, null, Memory, update, get_obj, get_next}
use ucp.LinkedList.Ops.{is_empty, first, unlink, append}

-- The memory of the lists, the packets that are allocated, the part that is sent, and the variables
-- `packet_count` and `done`.
pub record Client : Type 0 where
  pub memory : Memory
  pub packets : Ptr → Option Packet
  pub handle : File.Handle
  pub packet_count : ℕ
  pub done : Bool

-- `*packet`
abbrev pub allocated : Option Packet → Run Packet
allocated none = fault
allocated (some p) = ok p

infixl 5 ◌>>=◌
abbrev ◌>>=◌ : {A B : Type 0} → Run A → (A → Run B) → Run B
r >>= f = Common.◌>>=◌ r f

-- The loop of find_packet. It changes nothing.
unfoldable pub find_loop : ℕ → Ptr → ℕ → Ptr → Client → Run Ptr
find_loop zero list seq_no elem c = fault
find_loop (suc k) list seq_no elem c = if elem == list then ok null else (do
  (obj, _) ← get_obj elem c.memory
  packet ← allocated (c.packets obj)
  if packet.data_packet.seq_no == seq_no
      then ok elem
      else (do (elem', _) ← get_next elem c.memory; find_loop k list seq_no elem' c))

-- find_packet
unfoldable pub find_packet : ℕ → Ptr → ℕ → Client → Run Ptr
find_packet fuel list seq_no c = do
  (elem, _) ← get_next list c.memory
  find_loop fuel list seq_no elem c

-- The first packet of a window is taken out of it.
unfoldable pub take_first : Ptr → Client → Run (Ptr × Client)
take_first list c = do
  (elem, m) ← first list c.memory
  (packet, m) ← get_obj elem m
  (done, m) ← unlink list elem m
  ok (packet, record c { memory = m })

-- get_next_packet: `packet_at` is what `malloc` returns for a packet that is read from the file.
unfoldable pub get_next_packet : (pending in_flight packet_at : Ptr) → Client → Run (Ptr × Client)
get_next_packet pending in_flight packet_at c = do
  (none_pending, m) ← is_empty pending c.memory
  if not none_pending then take_first pending c else (do
    (read, handle) ← File.get_next_packet (not (packet_at == null)) c.handle
    elim read [
      | some packet ↦ ok (
        packet_at,
        record c {
          handle = handle;
          packets = update c.packets packet_at (some packet);
          packet_count = succ32 c.packet_count;
        },
      )
      | none ↦ (do
        let at_end : Client = record c { handle = handle }
        (none_in_flight, m) ← is_empty in_flight c.memory
        if not none_in_flight then take_first in_flight at_end else ok (null, at_end))
    ])

-- What on_ack_received does with a control packet. `elem_at` is what `malloc` returns for an element.
unfoldable pub on_ctrl :
    (pending in_flight elem_at : Ptr) (fuel : ℕ) → (flag seq_no : ℕ) → Client → Run Client
on_ctrl pending in_flight elem_at fuel flag seq_no c =
    if flag == flag_ack
    then (do
      elem ← find_packet fuel in_flight seq_no c
      if elem == null
          then ok c
          else (do (done, m) ← unlink in_flight elem c.memory; ok (record c { memory = m })))
    else (if flag == flag_nack
        then (do
          elem ← find_packet fuel in_flight seq_no c
          if elem == null then ok c else (do
            (packet, m) ← get_obj elem c.memory
            (added, m) ← append elem_at pending packet m
            (done, m) ← unlink in_flight elem m
            ok (record c { memory = m })))
        else ok (if flag == flag_fin then record c { done = true } else c))

-- on_ack_received: `rsp_pkt` is not initialised, and `old` is what it holds.
unfoldable pub on_ack_received :
    (pending in_flight elem_at : Ptr) (fuel : ℕ) → (old : Packet) → List ℕ → ℕ → Client → Run Client
on_ack_received pending in_flight elem_at fuel old segment data_len c = do
  rsp_pkt ← decode segment data_len old
  if rsp_pkt.type == type_ctrl
      then on_ctrl pending in_flight elem_at fuel rsp_pkt.ctrl_packet.flag
          rsp_pkt.ctrl_packet.seq_no c
      else ok c

-- The body of the loop of block_thread up to tcp_server_tick: the datagram that is sent, and the
-- buffer behind it. `elem_at` is what `malloc` returns for an element.
unfoldable pub send_packet :
    (in_flight elem_at : Ptr) → List ℕ → Ptr → Client → Run (List ℕ × List ℕ × Client)
send_packet in_flight elem_at buf packet c = do
  p ← allocated (c.packets packet)
  (len, buf) ← encode (some p) buf udp_packet_size
  datagram ← read_at 0 len buf
  (added, m) ← append elem_at in_flight packet c.memory
  ok (datagram, buf, record c { memory = m })
