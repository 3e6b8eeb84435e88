-- ===== src/Sequencer/Merging.antt =====
-- A merge of two ranges in the store, and the merge with the next range in sequencer_add.
use ucp.Common.{
  ◌≡◌, refl, true, List, [], ◌∷◌, ◌++◌, append_assoc, ◌==◌, Run, ok, Bool-cases, inl, inr,
}
use ucp.Common.Words.{pred32}
use ucp.LinkedList.Memory.{Ptr, Memory}
use ucp.LinkedList.Ops as LL
use ucp.Sequencer.Ops as Ops
use ucp.Sequencer.Ops.{Item}
use ucp.Sequencer.Store.{Store, free_item}
use ucp.Sequencer.Loops.{merge_next}
use ucp.Sequencer.Stored.{range_of, IsRanges, Held-append, length-Held}
use ucp.Sequencer.Changing.{IsAround, IsAround-IsRanges, IsAround-of, set_at, changed, removed}
use ucp.Sequencer.Reading.{is_address, object_at, next_at}

-- A run that ends with a result and a store with the ranges `is`; the two numbers stay.
abbrev pub Leaves : {A : Type 0} → Ptr → Store → Run (A × Store) → A → List Item → Type 0
Leaves seq s run a is =
    (s' : Store) × (xs : List Ptr) × (run ≡ ok (a, s'))
    × IsRanges seq s' xs is
    × (s'.max_seq_no ≡ s.max_seq_no)
    × (s'.expected_last_seq_no ≡ s.expected_last_seq_no)

-- The list around the next element.
pub IsAround-next :
    (seq : Ptr) (s : Store) (xs : List Ptr) (is : List Item) (x : Ptr) (i : Item) (y : Ptr)
    (j : Item) (ys : List Ptr) (js : List Item)
    → IsAround seq s xs is x i (y ∷ ys) (j ∷ js)
    → IsAround seq s (xs ++ x ∷ []) (is ++ i ∷ []) y j ys js
IsAround-next seq s xs is x i y j ys js h = record {
  ring = rw (append_assoc xs (x ∷ []) (y ∷ ys)) h.ring;
  front = Held-append (range_of s) xs is (x ∷ []) (i ∷ []) h.front (h.here, tt);
  here = h.back.0;
  back = h.back.1;
  separate = rw (append_assoc xs (x ∷ []) (y ∷ ys)) h.separate;
  counted = rw (append_assoc xs (x ∷ []) (y ∷ ys)) h.counted;
}

-- The range of `x` is set, and the next element `y` and its range go.
pub absorbed_next :
    (seq : Ptr) (s : Store) (xs : List Ptr) (is : List Item) (x : Ptr) (i i' : Item) (y : Ptr)
    (j : Item) (ys : List Ptr) (js : List Item)
    → IsAround seq s xs is x i (y ∷ ys) (j ∷ js)
    → (m' : Memory) × (s' : Store) × (LL.unlink seq y s.memory ≡ ok (tt, m'))
      × (free_item (s.memory.obj y) (record (set_at (s.memory.obj x) i' s) { memory = m' })
          ≡ ok (tt, s'))
      × IsAround seq s' xs is x i' ys js
      × (s'.max_seq_no ≡ s.max_seq_no)
      × (s'.expected_last_seq_no ≡ s.expected_last_seq_no)
absorbed_next seq s xs is x i i' y j ys js h =
    let s₁ : Store = set_at (s.memory.obj x) i' s in
    let h₁ : IsAround seq s₁ (xs ++ x ∷ []) (is ++ i' ∷ []) y j ys js =
      IsAround-next seq s₁ xs is x i' y j ys js (changed seq s xs is x i (y ∷ ys) (j ∷ js) h i') in
    let (m', s', run, freed, left, _, max, expected) =
      removed seq s₁ (xs ++ x ∷ []) (is ++ i' ∷ []) y j ys js h₁ in
    let left' : IsRanges seq s' (xs ++ x ∷ ys) (is ++ i' ∷ js) =
      rw (← append_assoc xs (x ∷ []) ys, ← append_assoc is (i' ∷ []) js) left in
    (
      m',
      s',
      run,
      freed,
      IsAround-of seq s' xs is x i' ys js left' (length-Held (range_of s) xs is h.front),
      max,
      expected,
    )

-- In the store as on the list.
pub merge_next_lem :
    (seq : Ptr) (s : Store) (xs : List Ptr) (is : List Item) (x : Ptr) (i : Item) (ys : List Ptr)
    (js : List Item)
    → IsAround seq s xs is x i ys js
    → Leaves seq s (merge_next seq x (s.memory.obj x) s) true (is ++ Ops.merge_next i js)
unfolding merge_next Ops.merge_next
merge_next_lem seq s xs is x i [] [] h = (
  s,
  xs ++ x ∷ [],
  rw (next_at seq s xs x [] h.ring),
  IsAround-IsRanges seq s xs is x i [] [] h,
  refl,
  refl,
)
merge_next_lem seq s xs is x i [] (j ∷ js) h = absurd h.back
merge_next_lem seq s xs is x i (y ∷ ys) [] h = absurd h.back
merge_next_lem seq s xs is x i (y ∷ ys) (j ∷ js) h =
    let h_y = IsAround-next seq s xs is x i y j ys js h in
    let y_ring = h_y.ring in
    let i' : Item = record i { last_seq_no = j.last_seq_no } in
    let (m', s', run, freed, around, max, expected) =
      absorbed_next seq s xs is x i i' y j ys js h in
    elim (Bool-cases (pred32 j.first_seq_no == i.last_seq_no)) [
      | inl meet ↦ (
        s',
        xs ++ x ∷ ys,
        rw (
          next_at seq s xs x (y ∷ ys) h.ring,
          is_address seq s (xs ++ x ∷ []) y ys y_ring,
          object_at seq s (xs ++ x ∷ []) y ys y_ring,
          h_y.here,
          h.here,
          meet,
          h.here,
          run,
          freed,
        ),
        rw meet (IsAround-IsRanges seq s' xs is x i' ys js around),
        max,
        expected,
      )
      | inr apart ↦ (
        s,
        xs ++ x ∷ y ∷ ys,
        rw (
          next_at seq s xs x (y ∷ ys) h.ring,
          is_address seq s (xs ++ x ∷ []) y ys y_ring,
          object_at seq s (xs ++ x ∷ []) y ys y_ring,
          h_y.here,
          h.here,
          apart,
        ),
        rw apart (IsAround-IsRanges seq s xs is x i (y ∷ ys) (j ∷ js) h),
        refl,
        refl,
      )
    ]
