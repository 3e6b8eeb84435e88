-- ===== src/Sequencer/Record.antt =====
-- sequencer_add as a whole: what it records, and the numbers that it drops.
use ucp.Common.{
  ℕ, ◌<◌, ◌≡◌, refl, arith, Bool, true, false, not, ◌&&◌, ◌||◌, ◌==◌, if◌then◌else◌, max,
}
use ucp.Common.Words.{u32_max}
use ucp.Sequencer.Ops.{Sequencer, check, note_max, add}
use ucp.Sequencer.Ranges.{Ranges, precedes}
use ucp.Sequencer.Add.{add_item-Adds, add_item_early}

-- On a well-formed list, sequencer_add of a number below UINT32_MAX returns TRUE exactly when the
-- number is not recorded yet and does not lie in front of the first range without touching it. The
-- list stays well formed and records what it did and, if TRUE was returned, the new number. With
-- `is_last` the number becomes the largest and the expected last one; without, only the largest
-- number is raised.
pub add_records :
    (s : Sequencer) (n : ℕ) (is_last : Bool)
    → Ranges 0 s.seq
    → n < u32_max
    → ((add s n is_last).0 ≡ (not (check s.seq n) && not (precedes s.seq n)))
      × ((m : ℕ)
          → check (add s n is_last).1.seq m ≡ (check s.seq m || (add s n is_last).0 && m == n))
      × Ranges 0 (add s n is_last).1.seq
      × ((add s n is_last).1.max_seq_no ≡ (if is_last then n else max s.max_seq_no n))
      × ((add s n is_last).1.expected_last_seq_no ≡ (if is_last then n else s.expected_last_seq_no))
unfolding add note_max
add_records s n is_last r small =
    let one = add_item-Adds s.seq n small r in
    (one.done, one.recorded, one.ranges, ground arith, ground arith)

-- A number that lies in front of the first range without touching it is dropped: sequencer_add
-- returns FALSE, leaves the list as it was, and the number stays unrecorded.
pub add_drops_early :
    (s : Sequencer) (n : ℕ) (is_last : Bool)
    → Ranges 0 s.seq
    → precedes s.seq n ≡ true
    → ((add s n is_last).0 ≡ false)
      × ((add s n is_last).1.seq ≡ s.seq)
      × (check (add s n is_last).1.seq n ≡ false)
unfolding add
add_drops_early s n is_last r early =
    let (same, out) = add_item_early s.seq n r early in rw same (refl, refl, out)
