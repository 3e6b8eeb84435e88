-- ===== src/Client/Exchange.antt =====
-- The client's two encounters with the server: a packet that is sent, and a segment that comes back.
use ucp.Common.{
  ℕ, ◌+◌, ◌≤◌, ◌≡◌, ◌≢◌, refl, ap, ◌∙◌, arith, false, some, List, [], ◌∷◌, ◌++◌, length,
  length-append, length-drop, drop, take-append, ok, read_at, read_at_ok, ==-refl,
}
use ucp.Packet.Types.{Packet, udp_packet_size}
use ucp.Packet.Encode.{encode}
use ucp.Packet.Wire.{IsData, IsCtrl, data_wire, length-data_wire, ctrl_wire}
use ucp.Packet.RoundTrip.{encode-data_wire, decode-ctrl_wire}
use ucp.LinkedList.Memory.{Ptr, null}
use ucp.LinkedList.Pair.{AreRings, AreRings-flip, append-AreRings}
use ucp.Client.Windows.{Client, allocated, send_packet, on_ctrl, on_ack_received}
use ucp.Client.Held.{IsClient, Held-frame, Held-append}
use ucp.Client.Moved.{new_element}

-- The packet at `a` is sent, in a buffer of UDP_PACKET_SIZE bytes; `z` is what `malloc` returns for an
-- element.
module _ (c : Client) (pending in_flight z a : Ptr) (ps qs : List Packet) (p : Packet)
    (buf : List ℕ) (h : IsClient c pending in_flight ps qs) (here : c.packets a ≡ some p)
    (fits : IsData p) (sized : length buf ≡ udp_packet_size) (found_address : z ≢ null)
    (unused : c.memory.live z ≡ false) where
  abbrev buf' : List ℕ
  buf' = data_wire p ++ drop (12 + p.data_packet.seg_len) buf

  encoded : encode (some p) buf udp_packet_size ≡ ok (12 + p.data_packet.seg_len, buf')
  encoded = encode-data_wire p buf udp_packet_size fits (omega arith) sized

  sized' : length buf' ≡ udp_packet_size
  sized' =
      length-append (data_wire p) (drop (12 + p.data_packet.seg_len) buf)
      ∙ omega (
        arith,
        length-data_wire p fits,
        length-drop (12 + p.data_packet.seg_len) buf,
        fits.seg_len_fits,
      )

  datagram : read_at 0 (12 + p.data_packet.seg_len) buf' ≡ ok (data_wire p)
  datagram =
      read_at_ok 0 (12 + p.data_packet.seg_len) buf' (omega (arith, sized', fits.seg_len_fits))
      ∙ ap ok (rw (← length-data_wire p fits) (take-append (data_wire p) _))

  -- With the packets `ps` waiting and `qs` in flight, the loop of block_thread sends for the packet at
  -- `a`, whose fields fit, exactly its bytes on the wire, and puts it behind those in flight; the
  -- windows lose nothing, and the file and `done` stay.
  pub send_packet-IsClient :
      (c' : Client) × (send_packet in_flight z buf a c ≡ ok (data_wire p, buf', c'))
      × (length buf' ≡ udp_packet_size)
      × IsClient c' pending in_flight ps (qs ++ p ∷ [])
      × (c'.handle ≡ c.handle)
      × (c'.done ≡ c.done)
  unfolding send_packet
  send_packet-IsClient =
      let got : allocated (c.packets a) ≡ ok p = ap allocated here in
      let flipped : AreRings c.memory in_flight h.flying pending h.waiting =
        AreRings-flip c.memory pending h.waiting in_flight h.flying h.rings in
      let (m', added, two, obj') =
        append-AreRings c.memory in_flight h.flying pending h.waiting z a flipped found_address
          unused in
      let new_held : m'.obj z ≡ a = obj' z ∙ rw (==-refl z) in
      (
        record c { memory = m' },
        rw (got, encoded, datagram, added),
        sized',
        record {
          waiting = h.waiting;
          flying = h.flying ++ z ∷ [];
          rings = AreRings-flip m' in_flight (h.flying ++ z ∷ []) pending h.waiting two;
          waiting_held =
              Held-frame c.memory.obj m'.obj c.packets c.packets h.waiting ps
                (λ b i. obj' b ∙ new_element c.memory z a h.waiting b unused h.rings.ring.alive.1 i)
                (λ b r e. e) h.waiting_held;
          flying_held =
              Held-append m'.obj c.packets h.flying qs (z ∷ []) (p ∷ [])
                (Held-frame c.memory.obj m'.obj c.packets c.packets h.flying qs
                  (λ b i.
                    obj' b
                    ∙ new_element c.memory z a h.flying b unused h.rings.other_ring.alive.1 i)
                  (λ b r e. e) h.flying_held)
                (ap c.packets new_held ∙ here, tt);
          null_unused = h.null_unused;
        },
        refl,
        refl,
      )

-- On a segment of at least six bytes that starts with the bytes of a control packet, on_ack_received
-- acts on that packet alone: whatever follows in the segment, further control packets too, is lost.
pub on_ack_received-first :
    (pending in_flight z : Ptr) (fuel data_len : ℕ) (p old : Packet) (rest : List ℕ) (c : Client)
    → IsCtrl p
    → 6 ≤ data_len
    → on_ack_received pending in_flight z fuel old (ctrl_wire p ++ rest) data_len c
      ≡ on_ctrl pending in_flight z fuel p.ctrl_packet.flag p.ctrl_packet.seq_no c
unfolding on_ack_received
on_ack_received-first pending in_flight z fuel data_len p old rest c fits room =
    rw (decode-ctrl_wire p old rest data_len fits room)
