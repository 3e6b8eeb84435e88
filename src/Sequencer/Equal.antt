-- ===== src/Sequencer/Equal.antt =====
-- The functions that change the sequencer do in the store what they do on the list of ranges.
use ucp.Common.{
  ℕ, ◌<◌, ◌≡◌, refl, ◌∙◌, Bool, true, false, List, [], ◌∷◌, ltb, length, ok, if◌then◌else◌,
  Bool-cases, inl, inr,
}
use ucp.LinkedList.Memory.{Ptr}
use ucp.LinkedList.Ops as LL
use ucp.Sequencer.Ops as Ops
use ucp.Sequencer.Ops.{Item, Sequencer}
use ucp.Sequencer.Store.{Store, Prog, ◌>>=◌, pure, on_list, create_range}
use ucp.Sequencer.Loops.{check, add_loop, note_max, add}
use ucp.Sequencer.Stored.{IsRanges}
use ucp.Sequencer.Reading.{first_at, empty_at, check_lem}
use ucp.Sequencer.Merging.{Leaves}
use ucp.Sequencer.Inserting.{IsFresh, appended_at}
use ucp.Sequencer.Adding.{add_loop_lem}

-- The store holds the sequencer.
abbrev pub Stores : Ptr → Store → Sequencer → Type 0
Stores seq s l =
    (xs : List Ptr) × IsRanges seq s xs l.seq
    × (s.max_seq_no ≡ l.max_seq_no)
    × (s.expected_last_seq_no ≡ l.expected_last_seq_no)

-- What follows note_max in sequencer_add.
abbrev add_rest : Ptr → Ptr → ℕ → Ptr → ℕ → Prog Bool
add_rest f z fuel seq n = check fuel seq n >>= λ known.
    if known
    then pure false
    else (on_list (LL.is_empty seq) >>= λ empty.
        if empty
        then (create_range f n n >>= λ range_at.
            on_list (LL.append z seq range_at) >>= λ added. pure true)
        else (on_list (LL.first seq) >>= λ elem. add_loop f z fuel seq elem n))

add_rest_lem :
    (f z : Ptr) (fuel : ℕ) (seq : Ptr) (n : ℕ) (s : Store) (xs : List Ptr) (is : List Item)
    → IsRanges seq s xs is
    → IsFresh s f z
    → length is < fuel
    → Leaves seq s (add_rest f z fuel seq n s) (Ops.add_item is n).0 (Ops.add_item is n).1
unfolding Ops.add_item
add_rest_lem f z fuel seq n s [] [] h fresh enough =
    let known : check fuel seq n s ≡ ok (false, s) =
      check_lem fuel seq s [] [] n h enough ∙ unfold Ops.check in refl in
    rw (known, empty_at seq s [] h.ring) (appended_at seq s f z fresh n [] [] h)
add_rest_lem f z fuel seq n s [] (i ∷ is) h fresh enough = absurd h.held
add_rest_lem f z fuel seq n s (x ∷ xs) [] h fresh enough = absurd h.held
add_rest_lem f z fuel seq n s (x ∷ xs) (i ∷ is) h fresh enough =
    let known = check_lem fuel seq s (x ∷ xs) (i ∷ is) n h enough in
    elim (Bool-cases (Ops.check (i ∷ is) n)) [
      | inl inside ↦ (s, x ∷ xs, rw (known, inside), rw inside h, refl, refl)
      | inr outside ↦
          rw (known, outside, empty_at seq s (x ∷ xs) h.ring, first_at seq s (x ∷ xs) h.ring)
            (add_loop_lem seq s f z fresh n fuel [] [] (x ∷ xs) (i ∷ is) h refl enough)
    ]

-- The store with the numbers of a sequencer.
abbrev pub numbered_as : Store → Sequencer → Store
numbered_as s l = record s {
  max_seq_no = l.max_seq_no;
  expected_last_seq_no = l.expected_last_seq_no;
}

pub note_max_lem :
    (s : Store) (l : Sequencer) (n : ℕ) (is_last : Bool)
    → s.max_seq_no ≡ l.max_seq_no
    → s.expected_last_seq_no ≡ l.expected_last_seq_no
    → note_max n is_last s ≡ ok (tt, numbered_as s (Ops.note_max l n is_last))
unfolding note_max Ops.note_max
note_max_lem s l n true max expected = refl
note_max_lem s l n false max expected = elim (Bool-cases (ltb l.max_seq_no n)) [
  | inl larger ↦ rw (max, expected, larger)
  | inr known ↦ rw (max, expected, known)
]

-- On a store that holds a sequencer, with unused addresses from `malloc` and one round more than there
-- are ranges, sequencer_add on the linked list returns what it returns on the list of ranges, and
-- leaves a store that holds the sequencer that it leaves there.
pub add_equal :
    (f z : Ptr) (fuel : ℕ) (seq : Ptr) (n : ℕ) (is_last : Bool) (s : Store) (l : Sequencer)
    → Stores seq s l
    → IsFresh s f z
    → length l.seq < fuel
    → (s' : Store) × (add f z fuel seq n is_last s ≡ ok ((Ops.add l n is_last).0, s'))
      × Stores seq s' (Ops.add l n is_last).1
unfolding add Ops.add
add_equal f z fuel seq n is_last s l (xs, h, max, expected) fresh enough =
    let s₁ : Store = numbered_as s (Ops.note_max l n is_last) in
    let h₁ : IsRanges seq s₁ xs l.seq = record {
      ring = h.ring;
      held = h.held;
      separate = h.separate;
      counted = h.counted;
    } in
    let fresh₁ : IsFresh s₁ f z = record {
      range_address = fresh.range_address;
      no_range = fresh.no_range;
      elem_address = fresh.elem_address;
      no_elem = fresh.no_elem;
    } in
    let (s', xs', run, ranges, max', expected') =
      add_rest_lem f z fuel seq n s₁ xs l.seq h₁ fresh₁ enough in
    (s', rw (note_max_lem s l n is_last max expected) run, (xs', ranges, max', expected'))
