-- ===== src/Sequencer/Tests.antt =====
-- The sequencer theorems at concrete lists of ranges, and runs.
use ucp.Common.{
  none, some, ok, fault, if◌then◌else◌, ℕ, ◌≡◌, refl, arith, true, false, not, ◌&&◌, ◌||◌, [], ◌∷◌,
  ltb, leb, ◌==◌,
}
use ucp.Common.Words.{u32_max}
use ucp.Sequencer.Ops.{
  Sequencer, create_range, init, check, add, add_item, add_loop, note_max, merge_next, merge_prev,
  complete, merge_pass, missing, missing_in, missing_from,
}
use ucp.Sequencer.Ranges.{Ranges}
use ucp.Sequencer.Record.{add_records, add_drops_early}
use ucp.Sequencer.Missing.{contains, is_empty, Ascending, missing_lem}
use ucp.Sequencer.Complete.{complete_loop, complete_keeps, complete_sound, complete_eventually}
use ucp.Sequencer.InOrder.{add_below, in_order_completes}
use ucp.LinkedList.Memory.{null}
use ucp.Sequencer.Store.{Store}
use ucp.Sequencer.Loops as Loops
use ucp.Sequencer.Loops.{destroy}
use ucp.Sequencer.Stored.{IsRanges}
use ucp.Sequencer.Inserting.{IsFresh}
use ucp.Sequencer.Equal.{Stores, add_equal}
use ucp.Sequencer.Whole.{complete_equal}
use ucp.Sequencer.Asking.{missing_equal}
use ucp.Sequencer.Destroying.{IsFreed, destroy-IsFreed}
use ucp.Sequencer.NoMemory.{add_no_range}

-- The numbers 0 to 3 and 6 have arrived.
abbrev gap : Sequencer
gap = record {
  seq = create_range 0 3 ∷ create_range 6 6 ∷ [];
  max_seq_no = 6;
  expected_last_seq_no = u32_max;
}

-- The number 5 is put in front of 6 without a merge, and 4 then joins all but the last.
gap_filled :
    ((add gap 5 false).1.seq ≡ create_range 0 3 ∷ create_range 5 5 ∷ create_range 6 6 ∷ [])
    × ((add (add gap 5 false).1 4 false).1.seq ≡ create_range 0 5 ∷ create_range 6 6 ∷ [])
unfolding add add_item add_loop note_max merge_next merge_prev check
gap_filled = (refl, refl)

gap-missing : missing gap ≡ 4 ∷ 5 ∷ []
unfolding missing missing_in missing_from check
gap-missing = refl

-- The number 2 arrives before 0, and 0 is not recorded.
early_lost : (add (record gap { seq = create_range 2 2 ∷ [] }) 0 false).0 ≡ false
unfolding add add_item add_loop note_max check
early_lost = refl

add_records_example :
    ((add gap 4 false).0 ≡ true)
    × ((m : ℕ)
        → check (add gap 4 false).1.seq m ≡ (check gap.seq m || (add gap 4 false).0 && m == 4))
    × Ranges 0 (add gap 4 false).1.seq
    × ((add gap 4 false).1.max_seq_no ≡ 6)
    × ((add gap 4 false).1.expected_last_seq_no ≡ u32_max)
unfolding check
add_records_example = add_records gap 4 false (omega arith) (omega arith)

abbrev late : Sequencer
late = record { seq = create_range 2 2 ∷ []; max_seq_no = 2; expected_last_seq_no = u32_max }

add_drops_early_example :
    ((add late 0 false).0 ≡ false)
    × ((add late 0 false).1.seq ≡ late.seq)
    × (check (add late 0 false).1.seq 0 ≡ false)
add_drops_early_example = add_drops_early late 0 false (omega arith) refl

missing_lem_example :
    Ascending 0 (missing gap)
    × ((m : ℕ)
        → contains m (missing gap) ≡ (not (is_empty gap.seq) && ltb m 6 && not (check gap.seq m)))
missing_lem_example = missing_lem gap

-- Three adjacent ranges that make up the numbers 0 to 8.
abbrev parts : Sequencer
parts = record {
  seq = create_range 0 3 ∷ create_range 4 5 ∷ create_range 6 8 ∷ [];
  max_seq_no = 8;
  expected_last_seq_no = 8;
}

parts_check : (m : ℕ) → check parts.seq m ≡ leb m 8
unfolding check
parts_check m = ground arith

-- One call does not merge all three.
parts_first_call : (complete parts).0 ≡ false
unfolding complete merge_pass
parts_first_call = refl

complete_keeps_example :
    Ranges 0 (complete parts).1.seq
    × ((m : ℕ) → check (complete parts).1.seq m ≡ check parts.seq m)
    × ((complete parts).1.max_seq_no ≡ 8)
    × ((complete parts).1.expected_last_seq_no ≡ 8)
complete_keeps_example = complete_keeps parts (omega arith)

abbrev whole : Sequencer
whole = record { seq = create_range 0 8 ∷ []; max_seq_no = 8; expected_last_seq_no = 8 }

complete_sound_example : check whole.seq 5 ≡ leb 5 8
unfolding complete merge_pass
complete_sound_example = complete_sound whole 5 (omega arith) refl

complete_eventually_example : complete_loop 4 parts ≡ true
complete_eventually_example = complete_eventually 4 parts (omega arith) parts_check (omega arith)

abbrev start : Sequencer
start = record { seq = []; max_seq_no = 0; expected_last_seq_no = u32_max }

in_order_completes_example : (complete (add (add_below 3 start) 3 true).1).0 ≡ true
unfolding init
in_order_completes_example = in_order_completes 2 start refl (omega arith)

-- The sequencer `gap` in memory: its anchor at 1, its elements at 2 and 3, their ranges at 50 and 51.
abbrev gap_store : Store
gap_store = record {
  memory = record {
    live = λ a. a == 1 || a == 2 || a == 3;
    obj = λ a. if a == 2 then 50 else (if a == 3 then 51 else 0);
    next = λ a. if a == 1 then 2 else (if a == 2 then 3 else 1);
    prev = λ a. if a == 1 then 3 else (if a == 3 then 2 else 1);
    num_members = λ a. if a == 1 then 2 else 0;
  };
  items = λ p.
      if p == 50
      then some (create_range 0 3)
      else (if p == 51 then some (create_range 6 6) else none);
  max_seq_no = 6;
  expected_last_seq_no = u32_max;
}

gap-IsRanges : IsRanges 1 gap_store (2 ∷ 3 ∷ []) gap.seq
gap-IsRanges = record {
  ring = record {
    chain = (refl, refl, (refl, refl, (refl, refl)));
    distinct = (refl, (refl, (refl, tt)));
    alive = (refl, (refl, (refl, tt)));
  };
  held = (refl, (refl, tt));
  separate = λ a b in_a in_b same. ground arith;
  counted = refl;
}

gap_stored : Stores 1 gap_store gap
gap_stored = (2 ∷ 3 ∷ [], gap-IsRanges, refl, refl)

gap-IsFresh : IsFresh gap_store 52 4
gap-IsFresh = record {
  range_address = omega arith;
  no_range = refl;
  elem_address = omega arith;
  no_elem = refl;
}

add_equal_example :
    (s' : Store) × (Loops.add 52 4 3 1 4 false gap_store ≡ ok ((add gap 4 false).0, s'))
    × Stores 1 s' (add gap 4 false).1
add_equal_example = add_equal 52 4 3 1 4 false gap_store gap gap_stored gap-IsFresh (omega arith)

complete_equal_example :
    (s' : Store) × (Loops.complete 3 1 gap_store ≡ ok ((complete gap).0, s'))
    × Stores 1 s' (complete gap).1
complete_equal_example = complete_equal 3 1 gap_store gap gap_stored (omega arith) (omega arith)

missing_equal_example : Loops.missing 7 3 1 gap_store ≡ ok (missing gap, gap_store)
missing_equal_example =
    missing_equal 7 3 1 gap_store gap gap_stored (omega arith) (omega arith) (omega arith)

destroy-IsFreed_example :
    (s' : Store) × (destroy 3 1 gap_store ≡ ok (tt, s')) × IsFreed 1 (2 ∷ 3 ∷ []) gap_store s'
destroy-IsFreed_example =
    destroy-IsFreed 3 1 gap_store (2 ∷ 3 ∷ []) gap.seq gap-IsRanges (omega arith)

-- A new sequencer at 1.
abbrev new_store : Store
new_store = record {
  memory = record {
    live = λ a. a == 1;
    obj = λ a. 0;
    next = λ a. 1;
    prev = λ a. 1;
    num_members = λ a. 0;
  };
  items = λ p. none;
  max_seq_no = 0;
  expected_last_seq_no = u32_max;
}

new-IsRanges : IsRanges 1 new_store [] []
new-IsRanges = record {
  ring = record { chain = (refl, refl); distinct = (refl, tt); alive = (refl, tt) };
  held = tt;
  separate = λ a b in_a. cc;
  counted = refl;
}

add_no_range_example :
    (s' : Store) × (Loops.add null 2 1 1 0 false new_store ≡ ok (true, s'))
    × (Loops.check 1 1 7 s' ≡ fault)
add_no_range_example =
    add_no_range 2 1 1 0 false 7 new_store new-IsRanges (omega arith) refl refl (omega arith)
