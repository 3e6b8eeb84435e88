-- ===== src/Server/Sequencing.antt =====
-- src/ucp_server.c: the sequencing thread, on the items that it takes from the queue.
use ucp.Common.{
  ℕ, ◌+◌, ◌<◌, ◌≡◌, refl, sym, ◌∙◌, arith, Bool, true, false, List, [], ◌∷◌, ◌++◌, map, Option,
  none, some, All, leb, ltb, ◌==◌, if◌then◌else◌, ◌&&◌, Bool-cases, inl, inr,
}
use ucp.Common.Words.{u32_max}
use ucp.Packet.Types.{CtrlPacket, flag_ack, flag_nack, flag_fin, flag_data_end}
use ucp.Sequencer.Ops.{Item, Sequencer, init, check, add, complete, missing}
use ucp.Sequencer.Ranges.{Ranges}
use ucp.Sequencer.Record.{add_records}
use ucp.Sequencer.Complete.{complete_keeps, complete_sound}
use ucp.Server.Queue.{QueueItem}

-- The control packet that send_ctrl_packet, send_ack, send_nack and send_fin make.
abbrev pub ctrl : ℕ → ℕ → CtrlPacket
ctrl seq_no flag = record { seq_no = seq_no; flag = flag }

-- The body of the loop of sequencing_thread, with what sequencing_queue_pop returns: the control
-- packets that it sends, and the sequencer behind it. What sequencer_add gets as `is_last` is a
-- comparison of the flag.
unfoldable pub serve : Sequencer → Option QueueItem → List CtrlPacket × Sequencer
serve s none = ([], s)
serve s (some item) =
    let after = (add s item.seq_no (item.flag == flag_data_end)).1 in
    (ctrl item.seq_no item.flag ∷ map (λ n. ctrl n flag_nack) (missing after), after)

-- The loop of sequencing_thread and what follows it, for the results of the next calls of
-- sequencing_queue_pop: what is sent, and whether the loop has ended by then.
unfoldable pub sequencing : Sequencer → List (Option QueueItem) → List CtrlPacket × Bool
sequencing s [] =
    let (done, s') = complete s in
    (if done then ctrl s'.expected_last_seq_no flag_fin ∷ [] else [], done)
sequencing s (popped ∷ polls) =
    let (done, s') = complete s in
    let (sent, after) = serve s' popped in
    let (later, ended) = sequencing after polls in
    if done then (ctrl s'.expected_last_seq_no flag_fin ∷ [], true) else (sent ++ later, ended)

-- What receiving_thread pushes for a packet that it has saved.
abbrev pub is_ack : Option QueueItem → Bool
is_ack none = true
is_ack (some item) = item.flag == flag_ack && ltb item.seq_no u32_max

all_below : (low : ℕ) (items : List Item) → Ranges low items → check items u32_max ≡ false
unfolding check
all_below low [] r = refl
all_below low (item ∷ items) (a, b, c, r) = ground (arith, all_below (item.last_seq_no + 1) items r)

clash : (expected : ℕ) → expected ≡ u32_max → false ≡ leb u32_max expected → ⊥
clash expected unknown e = ground arith

not_last :
    (flag n : ℕ)
    → (flag == flag_ack && ltb n u32_max) ≡ true
    → ((flag == flag_data_end) ≡ false) × (n < u32_max)
not_last flag n ack = ground arith

unfinished :
    (s : Sequencer) → Ranges 0 s.seq → s.expected_last_seq_no ≡ u32_max → (complete s).0 ≡ false
unfinished s r unknown =
    let none_that_large : check s.seq u32_max ≡ false = all_below 0 s.seq r in
    elim (Bool-cases (complete s).0) [
      | inl done ↦
          let recorded : check s.seq u32_max ≡ leb u32_max s.expected_last_seq_no =
            complete_sound s u32_max r done in
          absurd (clash s.expected_last_seq_no unknown (sym none_that_large ∙ recorded))
      | inr waiting ↦ waiting
    ]

sequencing_waits :
    (s : Sequencer) (polls : List (Option QueueItem))
    → Ranges 0 s.seq
    → s.expected_last_seq_no ≡ u32_max
    → All (λ popped. is_ack popped ≡ true) polls
    → (sequencing s polls).1 ≡ false
unfolding sequencing serve
sequencing_waits s [] r unknown acks = unfinished s r unknown
sequencing_waits s (none ∷ polls) r unknown (ack, acks) =
    let (r', _, _, unknown') = complete_keeps s r in
    rw (unfinished s r unknown) (sequencing_waits (complete s).1 polls r' (unknown' ∙ unknown) acks)
sequencing_waits s (some item ∷ polls) r unknown (ack, acks) =
    let s' : Sequencer = (complete s).1 in
    let (r', _, _, unknown') = complete_keeps s r in
    let (plain, small) = not_last item.flag item.seq_no ack in
    let (_, _, r'', _, unknown'') = add_records s' item.seq_no false r' small in
    rw (unfinished s r unknown, plain)
      (sequencing_waits (add s' item.seq_no false).1 polls r'' (unknown'' ∙ unknown' ∙ unknown)
        acks)

-- When the sequencing thread starts with a new sequencer, and all that it ever takes from the queue
-- are items with the flag ACK and a number below UINT32_MAX, in any order and with empty polls
-- between, then its loop does not end, whatever the items' `is_last` says.
pub never_ends :
    (s : Sequencer) (polls : List (Option QueueItem))
    → init true ≡ some s
    → All (λ popped. is_ack popped ≡ true) polls
    → (sequencing s polls).1 ≡ false
unfolding init
never_ends s polls made acks =
    let new : s ≡ record { seq = []; max_seq_no = 0; expected_last_seq_no = u32_max } =
      ground arith in
    rw new (sequencing_waits _ polls tt refl acks)
