-- ===== src/Client/Kept.antt =====
-- No packet is lost: what is sent stays in a window until it is acknowledged.
use ucp.Common.{
  ℕ, ◌≡◌, refl, arith, Bool, true, false, ◌&&◌, ◌||◌, Option, none, some, List, [], ◌∷◌, map,
  length, ok, ◌+◌, ◌<◌, ◌++◌, ◌==◌, Bool-cases, inl, inr,
}
use ucp.Packet.Types.{Packet, flag_ack, flag_nack, udp_packet_size}
use ucp.Client.Held.{IsClient, has_seq, numbered, without}
use ucp.Client.Choosing.{file_packet, choice}
use ucp.Client.Moved.{listed}
use ucp.Packet.Wire.{data_wire}
use ucp.LinkedList.Memory.{Ptr}
use ucp.Client.Windows.{Client}
use ucp.Client.Loop.{Answer, Turn, block_loop, fresh_turns}
use ucp.Client.Fitting.{IsFitting}
use ucp.Client.Refined.{Implements, block_loop-protocol}
use ucp.Client.Protocol.{
  Windows, next_packet, fly, answered, answered_all, protocol_round, protocol,
}

abbrev pub has_number : ℕ → List Packet → Bool
has_number n [] = false
has_number n (p ∷ ps) = has_seq n p || has_number n ps

-- Whether a packet with a number is in a window.
abbrev pub present : ℕ → Windows → Bool
present n w = has_number n w.waiting || has_number n w.flying

-- Whether a number is acknowledged.
abbrev pub acknowledges : ℕ → List Answer → Bool
acknowledges n [] = false
acknowledges n (a ∷ answers) = a.flag == flag_ack && a.seq_no == n || acknowledges n answers

abbrev pub acknowledges_in : ℕ → List Turn → Bool
acknowledges_in n [] = false
acknowledges_in n (turn ∷ turns) = acknowledges n turn.answers || acknowledges_in n turns

has_number-append :
    (n : ℕ) (ps qs : List Packet) → has_number n (ps ++ qs) ≡ has_number n ps || has_number n qs
has_number-append n [] qs = refl
has_number-append n (p ∷ ps) qs = ground (arith, has_number-append n ps qs)

-- Taking out a packet with another number.
has_number-without :
    (n m : ℕ) (ps : List Packet) → (m == n) ≡ false → has_number n (without m ps) ≡ has_number n ps
has_number-without n m [] other = refl
has_number-without n m (p ∷ ps) other = ground (arith, has_number-without n m ps other)

has_number-moved :
    (n m : ℕ) (ps : List Packet)
    → has_number n ps ≡ true
    → has_number n (listed (numbered m ps)) || has_number n (without m ps) ≡ true
has_number-moved n m [] h = cc
has_number-moved n m (p ∷ ps) h = elim (Bool-cases (has_seq m p)) [
  | inl this ↦ rw this (ground arith)
  | inr other ↦ rw other (ground (arith, has_number-moved n m ps))
]

answered-present :
    (n : ℕ) (a : Answer) (w : Windows)
    → (a.flag == flag_ack && a.seq_no == n) ≡ false
    → present n w ≡ true
    → present n (answered a w) ≡ true
answered-present n a w unacked h = elim (Bool-cases (a.flag == flag_ack)) [
  | inl ack ↦ rw ack (ground (arith, has_number-without n a.seq_no w.flying (ground arith)))
  | inr no_ack ↦ elim (Bool-cases (a.flag == flag_nack)) [
    | inl nack ↦
        rw (no_ack, nack)
          (ground (
            arith,
            has_number-append n w.waiting (listed (numbered a.seq_no w.flying)),
            has_number-moved n a.seq_no w.flying,
          ))
    | inr no_nack ↦ rw (no_ack, no_nack) h
  ]
]

answered_all-present :
    (n : ℕ) (answers : List Answer) (w : Windows)
    → acknowledges n answers ≡ false
    → present n w ≡ true
    → present n (answered_all answers w) ≡ true
answered_all-present n [] w unacked h = h
answered_all-present n (a ∷ answers) w unacked h =
    answered_all-present n answers (answered a w) (ground arith)
      (answered-present n a w (ground arith) h)

-- The packet that is chosen goes in flight, and the others stay.
choice-has_number :
    (n : ℕ) (ps : List Packet) (from_file : Option Packet) (qs : List Packet)
    → (has_number n ps || has_number n qs) ≡ true
    → has_number n (choice ps from_file qs).1
        || has_number n ((choice ps from_file qs).2 ++ listed (choice ps from_file qs).0)
      ≡ true
choice-has_number n (p ∷ ps) from_file qs h = ground (arith, has_number-append n qs (p ∷ []))
choice-has_number n [] (some p) qs h = ground (arith, has_number-append n qs (p ∷ []))
choice-has_number n [] none (q ∷ qs) h = ground (arith, has_number-append n qs (q ∷ []))
choice-has_number n [] none [] h = h

round-present :
    (n : ℕ) (answers : List Answer) (rest : Windows → List Packet × Windows) (next : Option Packet)
    (w : Windows)
    → acknowledges n answers ≡ false
    → (has_number n w.waiting
        || has_number n (w.flying ++ listed next)
        || has_number n (protocol_round answers rest next w).0)
      ≡ true
    → ((w' : Windows)
        → (present n w' || has_number n (rest w').0) ≡ true
        → present n (rest w').1 ≡ true)
    → present n (protocol_round answers rest next w).1 ≡ true
round-present n answers rest none w unacked h later =
    ground (arith, has_number-append n w.flying [])
round-present n answers rest (some p) w unacked h later =
    let w' : Windows = answered_all answers (fly p w) in
    let flown : has_number n (w.flying ++ p ∷ []) ≡ has_number n w.flying || has_number n (p ∷ []) =
      has_number-append n w.flying (p ∷ []) in
    elim (Bool-cases (present n (fly p w))) [
      | inl here ↦
          let stays : present n w' ≡ true = answered_all-present n answers (fly p w) unacked here in
          elim (Bool-cases w'.done) [
            | inl over ↦ rw over stays
            | inr going ↦ rw going (later w' (ground arith))
          ]
      | inr elsewhere ↦ elim (Bool-cases w'.done) [
        | inl over ↦ let sent = rw over at h in absurd (ground (arith, sent))
        | inr going ↦ let sent = rw going at h in rw going (later w' (ground (arith, sent)))
      ]
    ]

-- In the loop of block_thread, a number that is in a window at the start, or that a packet is sent
-- with, is at the end in one of the two windows, unless an ACK of it has come back.
pub protocol-present :
    (n : ℕ) (turns : List Turn) (w : Windows)
    → acknowledges_in n turns ≡ false
    → (present n w || has_number n (protocol turns w).0) ≡ true
    → present n (protocol turns w).1 ≡ true
protocol-present n [] w unacked h = ground arith
protocol-present n (turn ∷ turns) w unacked h =
    let from_file : Option Packet = file_packet w.handle w.file in
    let (next, w') = next_packet w in
    round-present n turn.answers (λ w''. protocol turns w'') next w' (ground arith)
      (ground (arith, choice-has_number n w.waiting from_file w.flying))
      (λ w'' before. protocol-present n turns w'' (ground arith) before)

module _ (pending in_flight : Ptr) (fuel : ℕ) where
  -- Under the conditions of the loop of block_thread (windows with the packets of `w`, an open file,
  -- packets that fit the wire, unused addresses from `malloc`, enough rounds of search): the loop
  -- returns, and a number that was in a window, or that a packet was sent with, is then in one of the
  -- two windows on the memory, unless an ACK of it has come back.
  pub block_loop-present :
      (n : ℕ) (turns : List Turn) (buf : List ℕ) (c : Client) (w : Windows)
      → Implements pending in_flight fuel c w
      → IsFitting w
      → length buf ≡ udp_packet_size
      → fresh_turns pending in_flight fuel turns buf c ≡ true
      → length w.flying + length turns < fuel
      → acknowledges_in n turns ≡ false
      → (present n w || has_number n (protocol turns w).0) ≡ true
      → (c' : Client) × (ps qs : List Packet) × (block_loop pending in_flight fuel turns buf c
          ≡ ok (map data_wire (protocol turns w).0, c'))
        × IsClient c' pending in_flight ps qs
        × ((has_number n ps || has_number n qs) ≡ true)
  block_loop-present n turns buf c w h fits sized fresh enough unacked before =
      let (c', run, done) =
        block_loop-protocol pending in_flight fuel turns buf c w h fits sized fresh enough in
      (
        c',
        (protocol turns w).1.waiting,
        (protocol turns w).1.flying,
        run,
        done.windows,
        protocol-present n turns w unacked before,
      )
