-- ===== src/Sequencer/Asking.antt =====
-- sequencer_iterate_missing_segments asks in the store for the same numbers as on the list of ranges.
use ucp.Common.{
  ℕ, zero, suc, ◌+◌, ◌<◌, ◌≡◌, ap, ◌∙◌, arith, true, false, List, [], ◌∷◌, ltb, length, ok,
}
use ucp.Common.Words.{u32_mod, succ32}
use ucp.LinkedList.Memory.{Ptr}
use ucp.Sequencer.Ops as Ops
use ucp.Sequencer.Ops.{Item, Sequencer}
use ucp.Sequencer.Store.{Store}
use ucp.Sequencer.Loops.{missing_loop, missing}
use ucp.Sequencer.Stored.{IsRanges}
use ucp.Sequencer.Reading.{empty_at, check_lem}
use ucp.Sequencer.Equal.{Stores}

module _ (fuel : ℕ) (seq : Ptr) (s : Store) (xs : List Ptr) (is : List Item)
    (h : IsRanges seq s xs is) (enough : length is < fuel) (fits : s.max_seq_no < u32_mod) where
  missing_loop_lem :
      (k rounds req_seq_no : ℕ)
      → req_seq_no + rounds ≡ s.max_seq_no
      → rounds < k
      → missing_loop k fuel seq req_seq_no s ≡ ok (Ops.missing_from is rounds req_seq_no, s)
  unfolding missing_loop Ops.missing_from
  missing_loop_lem zero rounds req ends long = absurd (omega arith)
  missing_loop_lem (suc k) zero req ends long =
      let over : ltb req s.max_seq_no ≡ false = ground arith in rw over
  missing_loop_lem (suc k) (suc rounds) req ends long =
      let going : ltb req s.max_seq_no ≡ true = ground arith in
      let here = check_lem fuel seq s xs is req h enough in
      let step : succ32 req ≡ req + 1 = ground arith in
      let later = missing_loop_lem k rounds (req + 1) (omega arith) (omega arith) in
      rw (going, here, step, later)

missing_lem :
    (rounds fuel : ℕ) (seq : Ptr) (s : Store) (xs : List Ptr) (is : List Item)
    → IsRanges seq s xs is
    → length is < fuel
    → s.max_seq_no < rounds
    → s.max_seq_no < u32_mod
    → missing rounds fuel seq s ≡ ok (Ops.missing_in is s.max_seq_no, s)
unfolding missing Ops.missing_in
missing_lem rounds fuel seq s [] [] h enough long fits = rw (empty_at seq s [] h.ring)
missing_lem rounds fuel seq s [] (i ∷ is) h enough long fits = absurd h.held
missing_lem rounds fuel seq s (x ∷ xs) [] h enough long fits = absurd h.held
missing_lem rounds fuel seq s (x ∷ xs) (i ∷ is) h enough long fits = rw (
  empty_at seq s (x ∷ xs) h.ring,
  missing_loop_lem fuel seq s (x ∷ xs) (i ∷ is) h enough fits rounds s.max_seq_no 0 (omega arith)
      long,
)

-- On a store that holds a sequencer whose largest number is a uint32_t, with a round more than that
-- number and one more than there are ranges, sequencer_iterate_missing_segments on the linked list
-- calls back for the numbers, in order, that it calls back for on the list of ranges, and leaves the
-- store as it was.
pub missing_equal :
    (rounds fuel : ℕ) (seq : Ptr) (s : Store) (l : Sequencer)
    → Stores seq s l
    → length l.seq < fuel
    → l.max_seq_no < rounds
    → l.max_seq_no < u32_mod
    → missing rounds fuel seq s ≡ ok (Ops.missing l, s)
unfolding Ops.missing
missing_equal rounds fuel seq s l (xs, h, max, expected) enough long fits =
    missing_lem rounds fuel seq s xs l.seq h enough (omega arith) (omega arith)
    ∙ ap (λ (n : ℕ). ok (Ops.missing_in l.seq n, s)) max
