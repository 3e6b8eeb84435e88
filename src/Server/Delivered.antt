-- ===== src/Server/Delivered.antt =====
-- A datagram from the client at the receiving thread.
use ucp.Common.{
  ℕ, ◌≤◌, ◌≡◌, refl, ap, ◌∙◌, arith, true, some, List, ◌++◌, take, take-append, take_all, drop,
  length, length-take, length-drop, length-append, leb, ◌==◌, ok, write_at, write_at_front,
}
use ucp.Packet.Types.{Packet, udp_packet_size, udp_packet_data_size, flag_ack, flag_data_end}
use ucp.Packet.Wire.{IsData, data_wire, length-data_wire}
use ucp.Packet.Received.{received_data}
use ucp.Packet.RoundTrip.{decode-data_wire}
use ucp.Files.Stream.{Stream, overwrite}
use ucp.Files.Ops.{Handle, save_packet}
use ucp.Files.Saving.{payload, written, save_packet_lem, Holds}
use ucp.Server.Queue.{QueueItem}
use ucp.Server.Receiving.{Receiver, saved_or_not, handle_packet, receive}

-- The receiving thread is at a datagram with the bytes of a packet whose fields fit; its buffers have
-- their sizes, its file is open, and the write is accepted and flushed.
module _ (p : Packet) (r : Receiver) (fp : Stream) (accepted : ℕ) (fits : IsData p)
    (sized : length r.recv_buffer ≡ udp_packet_size)
    (whole : length r.rcv_pkt.data_packet.segment_data ≡ udp_packet_data_size)
    (is_open : r.handle.fp ≡ some fp) (all : p.data_packet.seg_len ≤ accepted) where
  abbrev got : Packet
  got = received_data p r.rcv_pkt

  abbrev buffer : List ℕ
  buffer = data_wire p ++ drop (length (data_wire p)) r.recv_buffer

  abbrev ack : QueueItem
  ack = record {
    seq_no = p.data_packet.seq_no;
    flag = flag_ack;
    is_last = p.data_packet.flag == flag_data_end;
  }

  same_payload : payload got ≡ payload p
  same_payload =
      let bytes : List ℕ = payload p in
      let counted : length bytes ≡ p.data_packet.seg_len = omega (
        arith,
        length-take p.data_packet.seg_len p.data_packet.segment_data,
        fits.segment_whole,
        fits.seg_len_fits,
      ) in
      rw counted at
        (take-append bytes (drop p.data_packet.seg_len r.rcv_pkt.data_packet.segment_data))

  got_fits : p.data_packet.seg_len ≤ length got.data_packet.segment_data
  got_fits = omega (
    arith,
    length-append (payload p) (drop p.data_packet.seg_len r.rcv_pkt.data_packet.segment_data),
    length-take p.data_packet.seg_len p.data_packet.segment_data,
    fits.segment_whole,
    fits.seg_len_fits,
  )

  buffered : write_at 0 (data_wire p) r.recv_buffer ≡ ok buffer
  buffered =
      write_at_front (data_wire p) r.recv_buffer
        (omega (arith, length-data_wire p fits, sized, fits.seg_len_fits))

  length-buffer : length buffer ≡ udp_packet_size
  length-buffer =
      length-append (data_wire p) (drop (length (data_wire p)) r.recv_buffer)
      ∙ omega (
        arith,
        length-drop (length (data_wire p)) r.recv_buffer,
        length-data_wire p fits,
        sized,
        fits.seg_len_fits,
      )

  all_taken : take accepted (payload got) ≡ payload p
  all_taken =
      ap (take accepted) same_payload
      ∙ take_all accepted (payload p)
          (omega (arith, length-take p.data_packet.seg_len p.data_packet.segment_data))

  -- When the bytes of a packet arrive whose fields fit, the file is open, and the write is accepted
  -- and flushed, receiving_thread writes the packet's bytes at its offset, pushes an ACK of its
  -- number, marked as the last one exactly when the packet has the flag END, and goes on.
  pub receive-data_wire :
      (r' : Receiver) × (receive accepted true (data_wire p) r ≡ ok (some ack, r'))
      × Holds r'.handle (overwrite p.data_packet.offset (payload p) fp.content)
      × (r'.returned ≡ r.returned)
      × (length r'.recv_buffer ≡ udp_packet_size)
  unfolding receive handle_packet saved_or_not
  receive-data_wire =
      let h' : Handle = record (r.handle) { fp = some (written accepted got fp) } in
      let decoded =
        decode-data_wire p r.rcv_pkt (drop (length (data_wire p)) r.recv_buffer) udp_packet_size
          fits whole (omega arith) in
      let enough : leb p.data_packet.seg_len accepted ≡ true = ground arith in
      let saving : save_packet accepted true r.handle got ≡ ok (true, h') =
        save_packet_lem accepted true r.handle fp got is_open got_fits
          (omega (arith, fits.offset_fits))
        ∙ rw enough in
      (
        record r { recv_buffer = buffer; rcv_pkt = got; handle = h' },
        rw (buffered, decoded, saving),
        (
          written accepted got fp,
          refl,
          ap (λ (bytes : List ℕ). overwrite p.data_packet.offset bytes fp.content) all_taken,
        ),
        refl,
        length-buffer,
      )
