-- ===== src/Server/Thread/End.antt =====
-- sequencing_thread from sequencer_init to sequencer_destroy.
use ucp.Common.{
  ℕ, ◌<◌, ◌≤◌, ◌≡◌, ◌≢◌, refl, ◌∙◌, [], arith, true, not, List, some, All, Bool-cases, inl, inr,
  length, ok,
}
use ucp.Common.Words.{u32_mod, u32_max}
use ucp.LinkedList.Memory.{Ptr, null, valid}
use ucp.Sequencer.Ops as Ops
use ucp.Sequencer.Ops.{Sequencer}
use ucp.Sequencer.Store.{Store}
use ucp.Sequencer.Loops.{init}
use ucp.Sequencer.Starting.{init_equal}
use ucp.Sequencer.Destroying.{destroy-IsFreed}
use ucp.Server.Sequencing as Lists
use ucp.Server.Thread.{Poll, sequencing_thread}
use ucp.Server.Thread.Equal.{Behind, AllFresh, IsBelow, popped_of, thread_loop_lem}

new_numbers : (l : Sequencer) → Ops.init true ≡ some l → (length l.seq ≡ 0) × (l.max_seq_no ≡ 0)
unfolding Ops.init
new_numbers l made =
    let new : l ≡ record { seq = []; max_seq_no = 0; expected_last_seq_no = u32_max } =
      ground arith in
    rw new (refl, refl)

-- sequencing_thread with the sequencer at an address that is not NULL, on any results of its calls of
-- sequencing_queue_pop, where `malloc` returns addresses that are not in use at that time, on one round
-- more than there are calls and more rounds than the largest number, neither more than 2^32: without a
-- fault it sends in order what it sends on the list of ranges, ends exactly when it ends there, and has
-- freed the sequencer exactly when it has ended.
pub sequencing_thread_equal :
    (fresh : Ptr) (rounds fuel : ℕ) (polls : List Poll) (s : Store) (l : Sequencer)
    → fresh ≢ null
    → Ops.init true ≡ some l
    → Behind (init fresh s) (λ s₁. AllFresh rounds fuel fresh s₁ polls)
    → All (λ poll. IsBelow rounds poll.popped) polls
    → length polls < fuel
    → fuel ≤ u32_mod
    → 0 < rounds
    → rounds ≤ u32_mod
    → (s' : Store) × (sequencing_thread fresh rounds fuel polls s
        ≡ ok (Lists.sequencing l (popped_of polls), s'))
      × (s'.memory.live fresh ≡ not (Lists.sequencing l (popped_of polls)).1)
unfolding sequencing_thread
sequencing_thread_equal fresh rounds fuel polls s l address made unused below enough few some_rounds
      fits =
    let (none_yet, zero_yet) = new_numbers l made in
    let (s₁, started, stores₁) = init_equal fresh s l address made in
    let (s₂, l₂, run, (xs, ranges, _, _), fewer) =
      thread_loop_lem rounds fuel fresh few fits s₁ l polls stores₁ (rw started at unused)
        (omega arith) (omega arith) below in
    let at_anchor : valid s₂.memory fresh ≡ true = ranges.ring.alive.0 in
    let (s₃, destroyed, freed) = destroy-IsFreed fuel fresh s₂ xs l₂.seq ranges fewer in
    elim (Bool-cases (Lists.sequencing l (popped_of polls)).1) [
      | inl ended ↦ (
        s₃,
        rw (started, run, ended, destroyed) refl,
        rw ended (freed.elements fresh ∙ ground arith),
      )
      | inr going ↦ (s₂, rw (started, run, going) refl, rw going (ground (arith, address)))
    ]
