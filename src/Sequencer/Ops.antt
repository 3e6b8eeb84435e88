-- ===== src/Sequencer/Ops.antt =====
-- src/sequencer.c, function by function. The linked list of ranges is the list of its items in order:
-- a loop over elements is a recursion that keeps the items it has passed, nearest first, so that
-- LinkedListPrev and LinkedListNext are the nearest items on either side. `malloc` of a range is
-- taken to succeed. The functions that change the list return the new one.
use ucp.Common.{
  ℕ, zero, suc, ◌+◌, Bool, true, false, not, ◌&&◌, Option, none, some, List, [], ◌∷◌, ltb, leb,
  ◌==◌, if◌then◌else◌, rev_append,
}
use ucp.Common.Words.{u32_max, succ32, pred32}

pub record Item : Type 0 where
  pub first_seq_no : ℕ
  pub last_seq_no : ℕ

pub record Sequencer : Type 0 where
  pub seq : List Item
  pub max_seq_no : ℕ
  pub expected_last_seq_no : ℕ

-- sequencer_init: `memory` says whether `malloc` succeeds.
unfoldable pub init : Bool → Option Sequencer
init memory =
    if memory
    then some (record { seq = []; max_seq_no = 0; expected_last_seq_no = u32_max })
    else none

-- create_sequencer_range
abbrev pub create_range : ℕ → ℕ → Item
create_range first_seq last_seq = record { first_seq_no = first_seq; last_seq_no = last_seq }

-- sequencer_check
unfoldable pub check : List Item → ℕ → Bool
check [] seq_no = false
check (item ∷ items) seq_no =
    let later = check items seq_no in
    if leb item.first_seq_no seq_no && leb seq_no item.last_seq_no then true else later

-- An item that has been extended at its end, merged with the next one if they meet.
unfoldable pub merge_next : Item → List Item → List Item
merge_next item [] = item ∷ []
merge_next item (next ∷ after) =
    if pred32 next.first_seq_no == item.last_seq_no
    then record item { last_seq_no = next.last_seq_no } ∷ after
    else item ∷ next ∷ after

-- An item that has been extended at its start, merged with the previous one if they meet.
unfoldable pub merge_prev : List Item → Item → List Item → List Item
merge_prev [] item after = item ∷ after
merge_prev (prev ∷ before) item after =
    if succ32 prev.last_seq_no == item.first_seq_no
    then rev_append before (record item { first_seq_no = prev.first_seq_no } ∷ after)
    else rev_append before (prev ∷ item ∷ after)

-- Whether the number lies behind the item and in front of the next one, if there is one.
abbrev pub fits_between : Item → List Item → ℕ → Bool
fits_between item [] seq_no = ltb item.last_seq_no seq_no
fits_between item (next ∷ after) seq_no =
    ltb item.last_seq_no seq_no && ltb seq_no next.first_seq_no

-- The loop of sequencer_add.
unfoldable pub add_loop : List Item → List Item → ℕ → Bool × List Item
add_loop before [] seq_no = (false, rev_append before [])
add_loop before (item ∷ after) seq_no =
    let further = add_loop (item ∷ before) after seq_no in
    if succ32 item.last_seq_no == seq_no
    then (true, rev_append before (merge_next (record item { last_seq_no = seq_no }) after))
    else (if pred32 item.first_seq_no == seq_no
        then (true, merge_prev before (record item { first_seq_no = seq_no }) after)
        else (if fits_between item after seq_no
            then (true, rev_append before (item ∷ create_range seq_no seq_no ∷ after))
            else further))

-- The first statement of sequencer_add: what is known of the largest number.
unfoldable pub note_max : Sequencer → ℕ → Bool → Sequencer
note_max s seq_no is_last =
    if is_last
    then record s { expected_last_seq_no = seq_no; max_seq_no = seq_no }
    else (if ltb s.max_seq_no seq_no then record s { max_seq_no = seq_no } else s)

-- The rest of sequencer_add, on the list.
unfoldable pub add_item : List Item → ℕ → Bool × List Item
add_item [] seq_no = (true, create_range seq_no seq_no ∷ [])
add_item (item ∷ items) seq_no =
    if check (item ∷ items) seq_no then (false, item ∷ items) else add_loop [] (item ∷ items) seq_no

-- sequencer_add
unfoldable pub add : Sequencer → ℕ → Bool → Bool × Sequencer
add s seq_no is_last =
    let (added, items) = add_item s.seq seq_no in
    (added, record (note_max s seq_no is_last) { seq = items })

-- The loop of sequencer_complete: behind a merge it goes on with the item after the merged one.
unfoldable pub merge_pass : List Item → List Item
merge_pass [] = []
merge_pass (item ∷ []) = item ∷ []
merge_pass (item ∷ next ∷ after) =
    let merged = record item { last_seq_no = next.last_seq_no } ∷ merge_pass after in
    let kept = item ∷ merge_pass (next ∷ after) in
    if succ32 item.last_seq_no == next.first_seq_no then merged else kept

-- The last test of sequencer_complete.
abbrev pub spans : List Item → ℕ → Bool
spans (item ∷ []) expected = item.first_seq_no == 0 && item.last_seq_no == expected
spans items expected = false

-- sequencer_complete
unfoldable pub complete : Sequencer → Bool × Sequencer
complete s =
    let items = merge_pass s.seq in (spans items s.expected_last_seq_no, record s { seq = items })

-- The loop of sequencer_iterate_missing_segments, `rounds` before its end.
unfoldable pub missing_from : List Item → (rounds req_seq_no : ℕ) → List ℕ
missing_from items zero req_seq_no = []
missing_from items (suc rounds) req_seq_no =
    let later = missing_from items rounds (req_seq_no + 1) in
    if not (check items req_seq_no) then req_seq_no ∷ later else later

-- sequencer_iterate_missing_segments returns at once on an empty list.
unfoldable pub missing_in : List Item → ℕ → List ℕ
missing_in [] max_seq_no = []
missing_in (item ∷ items) max_seq_no = missing_from (item ∷ items) max_seq_no 0

-- sequencer_iterate_missing_segments: the arguments of the calls of `callback`, in order.
unfoldable pub missing : Sequencer → List ℕ
missing s = missing_in s.seq s.max_seq_no
