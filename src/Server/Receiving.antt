-- ===== src/Server/Receiving.antt =====
-- src/ucp_server.c: the receiving thread, on a datagram at a time.
use ucp.Common.{
  ℕ, ◌+◌, ◌≡◌, refl, sym, ap, ◌∙◌, arith, Bool, true, false, not, ◌&&◌, ◌||◌, returned_parts,
  Option, none, some, List, [], ◌∷◌, take, length, leb, ltb, ◌==◌, if◌then◌else◌, Run, ok, ◌>>=◌,
  read_at, write_at, Bool-cases, inl, inr,
}
use mathlib.Core.Path.{subst}
use ucp.Packet.Types.{Packet, type_data, udp_packet_size, flag_ack, flag_nack, flag_data_end}
use ucp.Packet.Decode.{decode}
use ucp.Files.Stream.{overwrite, long_limit}
use ucp.Files.Ops.{Handle, save_packet}
use ucp.Files.Saving.{payload, written, Holds, save_packet_lem}
use ucp.Server.Queue.{QueueItem}

-- The local variables of receiving_thread, the file, and whether the thread has returned.
pub record Receiver : Type 0 where
  pub recv_buffer : List ℕ
  pub rcv_pkt : Packet
  pub handle : Handle
  pub returned : Bool

-- What receiving_thread pushes for a packet, and what becomes of the thread.
unfoldable pub saved_or_not : Receiver → Bool × Handle → Option QueueItem × Receiver
saved_or_not r (done, handle) =
    if not done
    then (
      some (record { seq_no = r.rcv_pkt.data_packet.seq_no; flag = flag_nack; is_last = false }),
      record r { handle = handle; returned = true },
    )
    else (
      some (record {
        seq_no = r.rcv_pkt.data_packet.seq_no;
        flag = flag_ack;
        is_last = r.rcv_pkt.data_packet.flag == flag_data_end;
      }),
      record r { handle = handle },
    )

-- What receiving_thread does with the packet that it has decoded last. `accepted` and `flushed` say
-- what becomes of the write.
unfoldable pub handle_packet :
    (accepted : ℕ) (flushed : Bool) → Receiver → Run (Option QueueItem × Receiver)
handle_packet accepted flushed r =
    if r.rcv_pkt.type == type_data
    then (do
      (done, handle) ← save_packet accepted flushed r.handle r.rcv_pkt
      ok (saved_or_not r (done, handle)))
    else ok (none, r)

-- The body of the loop of receiving_thread, for a datagram that recvfrom has cut to the buffer's size:
-- what is pushed into the queue. A datagram that the decoder refuses leaves the last packet.
unfoldable pub receive :
    (accepted : ℕ) (flushed : Bool) → List ℕ → Receiver → Run (Option QueueItem × Receiver)
receive accepted flushed datagram r = do
  buffer ← write_at 0 datagram r.recv_buffer
  rcv_pkt ← decode buffer udp_packet_size r.rcv_pkt
  handle_packet accepted flushed (record r { recv_buffer = buffer; rcv_pkt = rcv_pkt })

-- A write to the file: the packet that is written, how many bytes are accepted, and whether the flush
-- succeeds.
pub record Write : Type 0 where
  pub packet : Packet
  pub accepted : ℕ
  pub flushed : Bool

-- All bytes of the packet have been written and flushed.
abbrev pub is_whole : Write → Bool
is_whole w = leb w.packet.data_packet.seg_len w.accepted && w.flushed

-- What the writes, one after the other, make of a content: the accepted bytes stand at their offset.
abbrev pub file_of : List ℕ → List Write → List ℕ
file_of content [] = content
file_of content (w ∷ ws) =
    file_of (overwrite w.packet.data_packet.offset (take w.accepted (payload w.packet)) content) ws

-- The write of a data packet to the file, where its offset is no negative `long`.
abbrev pub save_writes : (accepted : ℕ) (flushed : Bool) → Packet → List Write
save_writes accepted flushed p =
    if ltb p.data_packet.offset long_limit
    then record { packet = p; accepted = accepted; flushed = flushed } ∷ []
    else []

-- The writes of the thread for the packet that it has decoded last.
abbrev pub writes_of : (accepted : ℕ) (flushed : Bool) → Packet → List Write
writes_of accepted flushed p = if p.type == type_data then save_writes accepted flushed p else []

-- A packet with a number has been written whole.
abbrev pub is_saved : ℕ → List Write → Bool
is_saved n [] = false
is_saved n (w ∷ ws) = is_whole w && w.packet.data_packet.seq_no == n || is_saved n ws

-- An item with an ACK is about a packet that has been written whole.
abbrev pub acks_saved : List Write → ℕ → ℕ → Bool
acks_saved ws flag n = if flag == flag_ack then is_saved n ws else true

abbrev pub item_saved : List Write → Option QueueItem → Bool
item_saved ws none = true
item_saved ws (some item) = acks_saved ws item.flag item.seq_no

-- What holds behind a datagram with these writes, when the file has had the content.
abbrev pub IsReceived : List ℕ → List Write → Option QueueItem × Receiver → Type 0
IsReceived content ws (item, r) = (item_saved ws item ≡ true) × Holds r.handle (file_of content ws)

-- A save changes the file as its writes say; one that answers TRUE has written the packet whole.
save_packet_done :
    (accepted : ℕ) (flushed : Bool) (content : List ℕ) (h h' : Handle) (done : Bool) (p : Packet)
    → Holds h content
    → save_packet accepted flushed h p ≡ ok (done, h')
    → Holds h' (file_of content (save_writes accepted flushed p))
      × (done ≡ is_saved p.data_packet.seq_no (save_writes accepted flushed p))
unfolding save_packet read_at
save_packet_done accepted flushed content h h' done p (fp, is_open, has) run =
    elim (Bool-cases (ltb p.data_packet.offset long_limit)) [
      | inr refused ↦
          let last : ◌≡◌ {A = Run (Bool × Handle)} (ok (false, record h { fp = some fp }))
              (ok (done, h')) =
            rw (is_open, refused) at run in
          let same : ◌≡◌ {A = Bool × Handle} (false, record h { fp = some fp }) (done, h') = cc in
          rw refused (
            (fp, sym (ap (λ (out : Bool × Handle). out.1.fp) same), has),
            sym (ap (λ (out : Bool × Handle). out.0) same),
          )
      | inl sought ↦
          elim (Bool-cases (leb (0 + p.data_packet.seg_len) (length p.data_packet.segment_data))) [
            | inr past ↦ absurd (ground (arith, rw (is_open, sought, past) at run))
            | inl fits ↦
                let last : ◌≡◌ {A = Run (Bool × Handle)}
                    (ok (
                      leb p.data_packet.seg_len accepted && flushed,
                      record h { fp = some (written accepted p fp) },
                    ))
                    (ok (done, h')) =
                  sym
                    (save_packet_lem accepted flushed h fp p is_open (ground arith) (ground arith))
                  ∙ run in
                let same : ◌≡◌ {A = Bool × Handle}
                    (
                      leb p.data_packet.seg_len accepted && flushed,
                      record h { fp = some (written accepted p fp) },
                    )
                    (done, h') =
                  cc in
                let answer : (leb p.data_packet.seg_len accepted && flushed) ≡ done =
                  ap (λ (out : Bool × Handle). out.0) same in
                rw sought (
                  (
                    written accepted p fp,
                    sym (ap (λ (out : Bool × Handle). out.1.fp) same),
                    ap (overwrite p.data_packet.offset (take accepted (payload p))) has,
                  ),
                  ground arith,
                )
          ]
    ]

-- The packet stays.
saved_or_not-rcv_pkt :
    (r : Receiver) (done : Bool) (h' : Handle) → (saved_or_not r (done, h')).1.rcv_pkt ≡ r.rcv_pkt
unfolding saved_or_not
saved_or_not-rcv_pkt r false h' = refl
saved_or_not-rcv_pkt r true h' = refl

saved_or_not_lem :
    (accepted : ℕ) (flushed : Bool) (h' : Handle) (done : Bool) (r : Receiver) (content : List ℕ)
    → Holds r.handle content
    → save_packet accepted flushed r.handle r.rcv_pkt ≡ ok (done, h')
    → IsReceived content (save_writes accepted flushed r.rcv_pkt) (saved_or_not r (done, h'))
unfolding saved_or_not
saved_or_not_lem accepted flushed h' false r content holds run =
    (refl, (save_packet_done accepted flushed content r.handle h' false r.rcv_pkt holds run).0)
saved_or_not_lem accepted flushed h' true r content holds run =
    let (file, whole) =
      save_packet_done accepted flushed content r.handle h' true r.rcv_pkt holds run in
    (sym whole, file)

handle_packet_lem :
    (accepted : ℕ) (flushed : Bool) (content : List ℕ) (r : Receiver)
    (out : Option QueueItem × Receiver)
    → Holds r.handle content
    → handle_packet accepted flushed r ≡ ok out
    → IsReceived content (writes_of accepted flushed out.1.rcv_pkt) out
unfolding handle_packet saved_or_not
handle_packet_lem accepted flushed content r out holds run =
    elim (Bool-cases (r.rcv_pkt.type == type_data)) [
      | inl typed ↦
          let ((done, h'), last, saving) =
            returned_parts _ (save_packet accepted flushed r.handle r.rcv_pkt) (rw typed at run) in
          let same : saved_or_not r (done, h') ≡ out = cc in
          let kept : out.1.rcv_pkt ≡ r.rcv_pkt =
            sym (ap (λ (o : Option QueueItem × Receiver). o.1.rcv_pkt) same)
            ∙ saved_or_not-rcv_pkt r done h' in
          rw (kept, typed)
            (subst (IsReceived content (save_writes accepted flushed r.rcv_pkt)) same
              (saved_or_not_lem accepted flushed h' done r content holds saving))
      | inr other ↦
          let last : ok (none, r) ≡ ok out = rw other at run in
          let same : (none, r) ≡ out = cc in
          let kept : out.1.rcv_pkt ≡ r.rcv_pkt =
            sym (ap (λ (o : Option QueueItem × Receiver). o.1.rcv_pkt) same) in
          rw (kept, other) (subst (IsReceived content []) same (refl, holds))
    ]

-- A datagram that is received while the file has a content: what is pushed with an ACK has been written
-- whole, and the file is as the datagram's writes leave it.
pub receive_lem :
    (accepted : ℕ) (flushed : Bool) (datagram content : List ℕ) (r : Receiver)
    (out : Option QueueItem × Receiver)
    → Holds r.handle content
    → receive accepted flushed datagram r ≡ ok out
    → IsReceived content (writes_of accepted flushed out.1.rcv_pkt) out
unfolding receive
receive_lem accepted flushed datagram content r out holds run =
    let (buffer, run1, _) = returned_parts _ (write_at 0 datagram r.recv_buffer) run in
    let (rcv_pkt, run2, _) = returned_parts _ (decode buffer udp_packet_size r.rcv_pkt) run1 in
    handle_packet_lem accepted flushed content
      (record r { recv_buffer = buffer; rcv_pkt = rcv_pkt }) out holds run2
