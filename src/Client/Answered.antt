-- ===== src/Client/Answered.antt =====
-- What an answer of the server does to the windows.
use ucp.Common.{
  ℕ, ◌<◌, ◌≡◌, ◌≢◌, refl, ap, ◌∙◌, arith, true, false, Option, none, some, List, ◌++◌, append-nil,
  length, ok, ◌==◌, if◌then◌else◌, Bool-cases, inl, inr,
}
use ucp.Packet.Types.{Packet, flag_ack, flag_nack, flag_fin}
use ucp.LinkedList.Memory.{Ptr, null}
use ucp.Client.Windows.{Client, find_packet, on_ctrl}
use ucp.Client.Held.{IsClient, numbered, without, elem_of, length-Held}
use ucp.Client.Finding.{find_packet-elem_of}
use ucp.Client.Moved.{listed, absent, at_address, at_alive, dropped, moved}

-- The windows behind a control packet, and whether the transfer is over.
abbrev pub answer_waiting : ℕ → ℕ → List Packet → List Packet → List Packet
answer_waiting flag n ps qs =
    if flag == flag_ack
    then ps
    else (if flag == flag_nack then ps ++ listed (numbered n qs) else ps)

abbrev pub answer_flying : ℕ → ℕ → List Packet → List Packet
answer_flying flag n qs =
    if flag == flag_ack then without n qs else (if flag == flag_nack then without n qs else qs)

module _ (c : Client) (pending in_flight z : Ptr) (fuel n : ℕ) (ps qs : List Packet)
    (h : IsClient c pending in_flight ps qs) (found_address : z ≢ null)
    (unused : c.memory.live z ≡ false) (enough : length qs < fuel) where
  abbrev pub Answers : ℕ → Type 0
  Answers flag =
      (c' : Client) × (on_ctrl pending in_flight z fuel flag n c ≡ ok c')
      × IsClient c' pending in_flight (answer_waiting flag n ps qs) (answer_flying flag n qs)
      × (c'.done ≡ (if flag == flag_fin then true else c.done))
      × (c'.handle ≡ c.handle)

  search_flying : find_packet fuel in_flight n c ≡ ok (elem_of n h.flying qs)
  search_flying =
      find_packet-elem_of c in_flight n fuel h.flying qs h.rings.other_ring h.flying_held
        (omega (arith, length-Held c.memory.obj c.packets h.flying qs h.flying_held))

  -- Neither an ACK nor a NACK.
  answer_other :
      (flag : ℕ) → (flag == flag_ack) ≡ false → (flag == flag_nack) ≡ false → Answers flag
  unfolding on_ctrl
  answer_other flag no_ack no_nack = elim (Bool-cases (flag == flag_fin)) [
    | inl fin ↦ (
      record c { done = true },
      rw (no_ack, no_nack, fin),
      rw (no_ack, no_nack)
          (record {
            waiting = h.waiting;
            flying = h.flying;
            rings = h.rings;
            waiting_held = h.waiting_held;
            flying_held = h.flying_held;
            null_unused = h.null_unused;
          }),
      rw fin,
      refl,
    )
    | inr no_fin ↦ (c, rw (no_ack, no_nack, no_fin), rw (no_ack, no_nack) h, rw no_fin, refl)
  ]

  answer_ack :
      (flag : ℕ) (found : Option Packet)
      → numbered n qs ≡ found
      → (flag == flag_ack) ≡ true
      → Answers flag
  unfolding on_ctrl
  answer_ack flag none missing ack =
      let (nowhere, same) = absent n c.memory.obj c.packets h.flying qs h.flying_held missing in
      let not_fin : (flag == flag_fin) ≡ false = ground arith in
      let none_found : find_packet fuel in_flight n c ≡ ok null = search_flying ∙ ap ok nowhere in
      (c, rw (ack, none_found), rw (ack, same) h, rw not_fin, refl)
  answer_ack flag (some p) found ack =
      let not_fin : (flag == flag_fin) ≡ false = ground arith in
      let (m', run, windows) = dropped c pending in_flight ps qs h n p found in
      (
        record c { memory = m' },
        rw (ack, search_flying, at_address c pending in_flight ps qs h n p found, run),
        rw ack windows,
        rw not_fin,
        refl,
      )

  answer_nack :
      (flag : ℕ) (found : Option Packet)
      → numbered n qs ≡ found
      → (flag == flag_nack) ≡ true
      → Answers flag
  unfolding on_ctrl
  answer_nack flag none missing nack =
      let (nowhere, same) = absent n c.memory.obj c.packets h.flying qs h.flying_held missing in
      let not_ack : (flag == flag_ack) ≡ false = ground arith in
      let not_fin : (flag == flag_fin) ≡ false = ground arith in
      let none_found : find_packet fuel in_flight n c ≡ ok null = search_flying ∙ ap ok nowhere in
      (
        c,
        rw (not_ack, nack, none_found),
        rw (not_ack, nack, same, missing, append-nil) h,
        rw not_fin,
        refl,
      )
  answer_nack flag (some p) found nack =
      let not_ack : (flag == flag_ack) ≡ false = ground arith in
      let not_fin : (flag == flag_fin) ≡ false = ground arith in
      let (m1, m', added, run, windows) =
        moved c pending in_flight ps qs h n p found z found_address unused in
      (
        record c { memory = m' },
        rw (
          not_ack,
          nack,
          search_flying,
          at_address c pending in_flight ps qs h n p found,
          at_alive c pending in_flight ps qs h n p found,
          added,
          run,
        ),
        rw (not_ack, nack, found) windows,
        rw not_fin,
        refl,
      )

  -- With the packets `ps` waiting and `qs` in flight, an unused address `z` from `malloc` for an
  -- element, and one round more of search than there are packets in flight: an ACK takes the first
  -- packet with its number out of those in flight, a NACK moves it behind those that wait, and only a
  -- FIN sets `done`. A number that is not in flight, and any other flag, changes nothing.
  pub on_ctrl-IsClient : (flag : ℕ) → Answers flag
  on_ctrl-IsClient flag = elim (Bool-cases (flag == flag_ack)) [
    | inl ack ↦ answer_ack flag (numbered n qs) refl ack
    | inr no_ack ↦ elim (Bool-cases (flag == flag_nack)) [
      | inl nack ↦ answer_nack flag (numbered n qs) refl nack
      | inr no_nack ↦ answer_other flag no_ack no_nack
    ]
  ]
