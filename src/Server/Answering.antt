-- ===== src/Server/Answering.antt =====
-- The way of an answer: src/ucp_server.c sends it, src/tcp_socket.c reads it for the client, and
-- src/ucp_client.c, whose on_ack_received is the server's `on_rx`, acts on it.
use ucp.Common.{
  ℕ, ◌+◌, ◌≤◌, ◌<◌, ◌≡◌, ◌∙◌, arith, true, false, some, List, [], ◌∷◌, ◌++◌, append_assoc, length,
  length-append, drop, Run, ok, ◌==◌,
}
use ucp.Common.Words.{u8_mod, u32_mod}
use ucp.Packet.Types.{Packet, zeros}
use ucp.Packet.Wire.{ctrl_wire}
use ucp.LinkedList.Memory.{Ptr}
use ucp.Client.Windows.{Client, on_ctrl, on_ack_received}
use ucp.Client.Exchange.{on_ack_received-first}
use ucp.Tcp.Server.{TcpServer, Event, accepted, closed, rx, segment_size, get_endpoint, receive}
use ucp.Tcp.Valid.{padded, receive-receive_event}
use ucp.Server.Control.{
  ctrl_buf_size, ctrl_packet_of, send_ctrl_packet, send_ctrl_packet-wire, ctrl_packet_of-IsCtrl,
}

-- What the client does on an event of its TCP server.
unfoldable pub on_event :
    (pending in_flight elem_at : Ptr) (fuel : ℕ) → (old : Packet) → Event → Client → Run Client
on_event pending in_flight elem_at fuel old (accepted sd) c = ok c
on_event pending in_flight elem_at fuel old (closed sd) c = ok c
on_event pending in_flight elem_at fuel old (rx endpoint segment data_len) c =
    on_ack_received pending in_flight elem_at fuel old segment data_len c

-- With memory left, what the server sends for a number and a flag, read by the client at the start of
-- a segment that is not too long, is one call of `on_rx`, which makes the client do for that number
-- what the flag asks and nothing else, whatever follows in the segment and whatever the uninitialised
-- buffers hold.
pub answer_delivered :
    (pending in_flight z : Ptr) (fuel seq_no flag d : ℕ) (old : Packet) (buf more : List ℕ)
    (s : TcpServer) (c : Client)
    → seq_no < u32_mod
    → flag < u8_mod
    → length buf ≡ ctrl_buf_size
    → 6 + length more ≤ segment_size
    → (sent : List ℕ) × (event : Event) × (send_ctrl_packet true seq_no flag buf ≡ ok sent)
      × (receive (some (sent ++ more)) d s ≡ ok (event ∷ [], s))
      × (on_event pending in_flight z fuel old event c
          ≡ on_ctrl pending in_flight z fuel flag seq_no c)
unfolding on_event
answer_delivered pending in_flight z fuel seq_no flag d old buf more s c small flag_small sized
      fits =
    let p : Packet = ctrl_packet_of seq_no flag in
    let bytes : List ℕ = ctrl_wire p ++ more in
    let size : length bytes ≡ 6 + length more = length-append (ctrl_wire p) more in
    let some_bytes : (length bytes == 0) ≡ false = ground (arith, size) in
    let segment : List ℕ = padded bytes in
    let blank : List ℕ = drop (length bytes) (zeros segment_size) in
    let front : segment ≡ ctrl_wire p ++ (more ++ blank) = append_assoc (ctrl_wire p) more blank in
    (
      ctrl_wire p,
      rx (get_endpoint s.endpoints d) segment (length bytes),
      send_ctrl_packet-wire seq_no flag small flag_small buf sized,
      receive-receive_event s bytes d (omega (arith, size)) ∙ rw some_bytes,
      rw front (
          on_ack_received-first pending in_flight z fuel (length bytes) p old (more ++ blank) c
            (ctrl_packet_of-IsCtrl seq_no flag small flag_small) (omega (arith, size))),
    )
