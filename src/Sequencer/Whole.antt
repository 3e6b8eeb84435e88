-- ===== src/Sequencer/Whole.antt =====
-- sequencer_complete does in the store what it does on the list of ranges.
use ucp.Common.{
  ℕ, ◌<◌, ◌≤◌, ◌≡◌, refl, ap, ◌∙◌, arith, Bool, true, false, List, [], ◌∷◌, ◌==◌, length, ok,
  if◌then◌else◌, Bool-cases, inl, inr,
}
use ucp.Common.Words.{u32_mod, succ32}
use ucp.LinkedList.Memory.{Ptr, valid}
use ucp.LinkedList.Ops as LL
use ucp.Sequencer.Ops as Ops
use ucp.Sequencer.Ops.{Item, Sequencer}
use ucp.Sequencer.Store.{Store, Prog, pure, ◌>>=◌, on_list}
use ucp.Sequencer.Loops.{get_range, is_spanning, complete}
use ucp.Sequencer.Stored.{range_of, IsRanges, length-Held}
use ucp.Sequencer.Reading.{range_at, first_at, empty_at}
use ucp.Sequencer.Merging.{Leaves}
use ucp.Sequencer.Equal.{Stores}
use ucp.Sequencer.Completing.{merge_loop_lem}

pub merge_pass_longest : (js : List Item) → length (Ops.merge_pass js) ≤ length js
unfolding Ops.merge_pass
merge_pass_longest [] = omega arith
merge_pass_longest (i ∷ []) = omega arith
merge_pass_longest (i ∷ j ∷ js) = elim (Bool-cases (succ32 i.last_seq_no == j.first_seq_no)) [
  | inl meet ↦ rw meet (let shorter = merge_pass_longest js in omega arith)
  | inr apart ↦ rw apart (let shorter = merge_pass_longest (j ∷ js) in omega arith)
]

count_at :
    (seq : Ptr) (s : Store) (xs : List Ptr) (is : List Item)
    → IsRanges seq s xs is
    → length is < u32_mod
    → on_list (LL.length seq) s ≡ ok (length is, s)
unfolding LL.length
count_at seq s xs is h few =
    let at_anchor : valid s.memory seq ≡ true = h.ring.alive.0 in
    let same = length-Held (range_of s) xs is h.held in
    let count : s.memory.num_members seq ≡ length is = h.counted ∙ ground arith in
    rw (at_anchor, count)

-- What follows the loop in sequencer_complete.
abbrev last_test : Ptr → Prog Bool
last_test seq = on_list (LL.length seq) >>= λ count.
    if count == 1
    then (on_list (LL.first seq) >>= λ elem. get_range elem >>= λ item. is_spanning item)
    else pure false

last_test_lem :
    (seq : Ptr) (s : Store) (xs : List Ptr) (is : List Item)
    → IsRanges seq s xs is
    → length is < u32_mod
    → last_test seq s ≡ ok (Ops.spans is s.expected_last_seq_no, s)
last_test_lem seq s [] [] h few = rw (count_at seq s [] [] h few)
last_test_lem seq s [] (i ∷ is) h few = absurd h.held
last_test_lem seq s (x ∷ xs) [] h few = absurd h.held
last_test_lem seq s (x ∷ []) (i ∷ []) h few = rw (
  count_at seq s (x ∷ []) (i ∷ []) h few,
  first_at seq s (x ∷ []) h.ring,
  range_at seq s [] x [] h.ring i h.held.0,
)
last_test_lem seq s (x ∷ y ∷ xs) (i ∷ []) h few = absurd h.held.1
last_test_lem seq s (x ∷ xs) (i ∷ j ∷ is) h few =
    let several : (length (i ∷ j ∷ is) == 1) ≡ false = ground arith in
    rw (count_at seq s (x ∷ xs) (i ∷ j ∷ is) h few, several)

complete_lem :
    (fuel : ℕ) (seq : Ptr) (s : Store) (xs : List Ptr) (is : List Item)
    → IsRanges seq s xs is
    → length is < fuel
    → length is < u32_mod
    → Leaves seq s
        (complete fuel seq s)
        (Ops.spans (Ops.merge_pass is) s.expected_last_seq_no)
        (Ops.merge_pass is)
unfolding complete Ops.merge_pass
complete_lem fuel seq s [] [] h enough few = (s, [], rw (empty_at seq s [] h.ring), h, refl, refl)
complete_lem fuel seq s [] (i ∷ is) h enough few = absurd h.held
complete_lem fuel seq s (x ∷ xs) [] h enough few = absurd h.held
complete_lem fuel seq s (x ∷ xs) (i ∷ is) h enough few =
    let (s', zs, run, ranges, max, expected) =
      merge_loop_lem fuel seq s [] [] (x ∷ xs) (i ∷ is) h refl enough in
    let shorter = merge_pass_longest (i ∷ is) in
    let tested : last_test seq s'
        ≡ ok (Ops.spans (Ops.merge_pass (i ∷ is)) s.expected_last_seq_no, s') =
      rw (← expected) (last_test_lem seq s' zs (Ops.merge_pass (i ∷ is)) ranges (omega arith)) in
    (
      s',
      zs,
      rw (empty_at seq s (x ∷ xs) h.ring, first_at seq s (x ∷ xs) h.ring, run) tested,
      ranges,
      max,
      expected,
    )

-- On a store that holds a sequencer, with one round more than there are ranges, of which there are
-- fewer than an `int` counts, sequencer_complete on the linked list returns what it returns on the list
-- of ranges, and leaves a store that holds the sequencer that it leaves there.
pub complete_equal :
    (fuel : ℕ) (seq : Ptr) (s : Store) (l : Sequencer)
    → Stores seq s l
    → length l.seq < fuel
    → length l.seq < u32_mod
    → (s' : Store) × (complete fuel seq s ≡ ok ((Ops.complete l).0, s'))
      × Stores seq s' (Ops.complete l).1
unfolding complete Ops.complete
complete_equal fuel seq s l (xs, h, max, expected) enough few =
    let (s', zs, run, ranges, max', expected') = complete_lem fuel seq s xs l.seq h enough few in
    (
      s',
      run ∙ ap (λ (n : ℕ). ok (Ops.spans (Ops.merge_pass l.seq) n, s')) expected,
      (zs, ranges, max' ∙ max, expected' ∙ expected),
    )
