-- ===== src/Server/Control.antt =====
-- src/ucp_server.c: send_ctrl_packet, the first of its two definitions. What tcp_client_send gets is
-- the result.
use ucp.Common.{
  ℕ, ◌+◌, ◌<◌, ◌≤◌, ◌≡◌, refl, ap, ◌∙◌, arith, Bool, true, List, ◌++◌, length, length-append, drop,
  take-append, Run, ok, ◌>>=◌, read_at, read_at_ok,
}
use ucp.Common.Words.{u8_mod, u32_mod}
use ucp.Packet.Types.{Packet, blank, type_ctrl}
use ucp.Packet.Init.{packet_init, packet_init_ctrl}
use ucp.Packet.Encode.{encode}
use ucp.Packet.Wire.{IsCtrl, ctrl_wire}
use ucp.Packet.RoundTrip.{encode-ctrl_wire}
use ucp.LinkedList.Memory.{Ptr}
use ucp.Client.Windows.{Client, on_ctrl, on_ack_received}
use ucp.Client.Exchange.{on_ack_received-first}

-- The size of `buf`.
abbrev pub ctrl_buf_size : ℕ
ctrl_buf_size = 10

-- send_ctrl_packet: `memory` says whether `malloc` succeeds, and `buf` is not initialised.
unfoldable pub send_ctrl_packet : Bool → ℕ → ℕ → List ℕ → Run (List ℕ)
send_ctrl_packet memory seq_no flag buf = do
  (data_len, buf) ← encode (packet_init_ctrl memory seq_no flag) buf ctrl_buf_size
  read_at 0 data_len buf

abbrev pub ctrl_packet_of : ℕ → ℕ → Packet
ctrl_packet_of seq_no flag = record (blank type_ctrl) {
  ctrl_packet = record { seq_no = seq_no; flag = flag };
}

module _ (seq_no flag : ℕ) (small : seq_no < u32_mod) (flag_small : flag < u8_mod) where
  pub ctrl_packet_of-IsCtrl : IsCtrl (ctrl_packet_of seq_no flag)
  ctrl_packet_of-IsCtrl = record { typed = refl; flag_fits = flag_small; seq_no_fits = small }

  pub send_ctrl_packet-wire :
      (buf : List ℕ)
      → length buf ≡ ctrl_buf_size
      → send_ctrl_packet true seq_no flag buf ≡ ok (ctrl_wire (ctrl_packet_of seq_no flag))
  unfolding send_ctrl_packet packet_init_ctrl packet_init
  send_ctrl_packet-wire buf sized =
      let p : Packet = ctrl_packet_of seq_no flag in
      let room : 6 ≤ length (ctrl_wire p ++ drop 6 buf) =
        omega (arith, length-append (ctrl_wire p) (drop 6 buf)) in
      rw (encode-ctrl_wire p buf ctrl_buf_size ctrl_packet_of-IsCtrl (omega arith) sized) (
        read_at_ok 0 6 (ctrl_wire p ++ drop 6 buf) room
        ∙ ap ok (take-append (ctrl_wire p) (drop 6 buf)))

  -- With memory left, what the server sends for a number and a flag makes the client do for that
  -- number what the flag asks, whatever follows in the same segment and whatever the uninitialised
  -- buffers hold.
  pub on_ack_received-send_ctrl_packet :
      (pending in_flight z : Ptr) (fuel : ℕ) (old : Packet) (buf rest : List ℕ) (c : Client)
      → length buf ≡ ctrl_buf_size
      → (send_ctrl_packet true seq_no flag buf >>= λ sent.
          on_ack_received pending in_flight z fuel old (sent ++ rest) (length sent + length rest) c)
        ≡ on_ctrl pending in_flight z fuel flag seq_no c
  on_ack_received-send_ctrl_packet pending in_flight z fuel old buf rest c sized =
      let p : Packet = ctrl_packet_of seq_no flag in
      rw (send_ctrl_packet-wire buf sized) (
        on_ack_received-first pending in_flight z fuel (length (ctrl_wire p) + length rest) p old
          rest c ctrl_packet_of-IsCtrl (omega arith))
