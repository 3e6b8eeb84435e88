-- ===== src/Sequencer/Growth.antt =====
-- How far the functions that change the sequencer make it grow.
use ucp.Common.{
  ℕ, suc, ◌+◌, ◌<◌, ◌≤◌, ◌≡◌, arith, Bool, true, false, List, [], ◌∷◌, rev_append, ltb, ◌==◌,
  length, Bool-cases, inl, inr,
}
use ucp.Common.Words.{succ32, pred32}
use ucp.Sequencer.Ops.{
  Item, Sequencer, check, merge_next, merge_prev, fits_between, add_loop, note_max, add_item, add,
}

length-rev_append : (xs ys : List Item) → length (rev_append xs ys) ≡ length xs + length ys
length-rev_append [] ys = omega arith
length-rev_append (x ∷ xs) ys = omega (arith, length-rev_append xs (x ∷ ys))

merge_next_longest : (i : Item) (js : List Item) → length (merge_next i js) ≤ suc (length js)
unfolding merge_next
merge_next_longest i [] = omega arith
merge_next_longest i (j ∷ js) = elim (Bool-cases (pred32 j.first_seq_no == i.last_seq_no)) [
  | inl meet ↦ rw meet (omega arith)
  | inr apart ↦ rw apart (omega arith)
]

merge_prev_longest :
    (before : List Item) (i : Item) (js : List Item)
    → length (merge_prev before i js) ≤ length before + suc (length js)
unfolding merge_prev
merge_prev_longest [] i js = omega arith
merge_prev_longest (k ∷ before) i js = elim (Bool-cases (succ32 k.last_seq_no == i.first_seq_no)) [
  | inl meet ↦ rw (meet, length-rev_append) (omega arith)
  | inr apart ↦ rw (apart, length-rev_append) (omega arith)
]

add_loop_longest :
    (before items : List Item) (n : ℕ)
    → length (add_loop before items n).1 ≤ suc (length before + length items)
unfolding add_loop
add_loop_longest before [] n = rw length-rev_append (omega arith)
add_loop_longest before (i ∷ js) n =
    let i' : Item = record i { last_seq_no = n } in
    let i'' : Item = record i { first_seq_no = n } in
    elim (Bool-cases (succ32 i.last_seq_no == n)) [
      | inl behind ↦
          rw (behind, length-rev_append) (let l = merge_next_longest i' js in omega arith)
      | inr not_behind ↦ elim (Bool-cases (pred32 i.first_seq_no == n)) [
        | inl in_front ↦
            rw (not_behind, in_front) (let l = merge_prev_longest before i'' js in omega arith)
        | inr not_in_front ↦ elim (Bool-cases (fits_between i js n)) [
          | inl fits ↦ rw (not_behind, not_in_front, fits, length-rev_append) (omega arith)
          | inr further ↦
              rw (not_behind, not_in_front, further)
                (let l = add_loop_longest (i ∷ before) js n in omega arith)
        ]
      ]
    ]

add_item_longest : (is : List Item) (n : ℕ) → length (add_item is n).1 ≤ suc (length is)
unfolding add_item
add_item_longest [] n = omega arith
add_item_longest (i ∷ is) n = elim (Bool-cases (check (i ∷ is) n)) [
  | inl known ↦ rw known (omega arith)
  | inr new ↦ rw new (let l = add_loop_longest [] (i ∷ is) n in omega arith)
]

pub add_longest :
    (l : Sequencer) (n : ℕ) (is_last : Bool) → length (add l n is_last).1.seq ≤ suc (length l.seq)
unfolding add
add_longest l n is_last = add_item_longest l.seq n

-- The largest number stays below a bound on all numbers.
pub max_below :
    (l : Sequencer) (n : ℕ) (is_last : Bool) (bound : ℕ)
    → l.max_seq_no < bound
    → n < bound
    → (add l n is_last).1.max_seq_no < bound
unfolding add note_max
max_below l n true bound old new = new
max_below l n false bound old new = elim (Bool-cases (ltb l.max_seq_no n)) [
  | inl larger ↦ rw larger new
  | inr known ↦ rw known old
]
