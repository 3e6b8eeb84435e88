-- ===== src/Sequencer/Previous.antt =====
-- The merge with the previous range in the store.
use ucp.Common.{
  ◌≡◌, refl, sym, true, List, [], ◌∷◌, ◌++◌, append_assoc, rev_append, ◌==◌, length, ok,
  if◌then◌else◌, Bool-cases, inl, inr,
}
use mathlib.Core.Path.{subst}
use ucp.Common.Words.{succ32}
use ucp.LinkedList.Memory.{Ptr}
use ucp.LinkedList.Ops as LL
use ucp.LinkedList.Ring.{last_of-snoc}
use ucp.Sequencer.Ops as Ops
use ucp.Sequencer.Ops.{Item}
use ucp.Sequencer.Store.{Store, on_list}
use ucp.Sequencer.Loops.{merge_prev}
use ucp.Sequencer.Stored.{range_of, Held-last, Held-split, length-Held, rev_append_split}
use ucp.Sequencer.Changing.{IsAround, IsAround-IsRanges, set_at, changed, removed}
use ucp.Sequencer.Reading.{is_address, object_at, prev_at}
use ucp.Sequencer.Merging.{Leaves}

-- The list around the previous one.
IsAround-prev :
    (seq : Ptr) (s : Store) (xs : List Ptr) (is : List Item) (w : Ptr) (k : Item) (x : Ptr)
    (i : Item) (ys : List Ptr) (js : List Item)
    → length xs ≡ length is
    → IsAround seq s (xs ++ w ∷ []) (is ++ k ∷ []) x i ys js
    → IsAround seq s xs is w k (x ∷ ys) (i ∷ js)
IsAround-prev seq s xs is w k x i ys js same h =
    let (front, (here, _)) = Held-split (range_of s) xs is (w ∷ []) (k ∷ []) same h.front in
    record {
      ring = rw (← append_assoc xs (w ∷ []) (x ∷ ys)) h.ring;
      front = front;
      here = here;
      back = (h.here, h.back);
      separate = rw (← append_assoc xs (w ∷ []) (x ∷ ys)) h.separate;
      counted = rw (← append_assoc xs (w ∷ []) (x ∷ ys)) h.counted;
    }

merge_prev_at :
    (seq : Ptr) (s : Store) (xs : List Ptr) (is : List Item) (w : Ptr) (k : Item) (x : Ptr)
    (i : Item) (ys : List Ptr) (js : List Item)
    → length xs ≡ length is
    → IsAround seq s (xs ++ w ∷ []) (is ++ k ∷ []) x i ys js
    → Leaves seq s (merge_prev seq x (s.memory.obj x) s) true (
        if succ32 k.last_seq_no == i.first_seq_no
        then is ++ record i { first_seq_no = k.first_seq_no } ∷ js
        else is ++ k ∷ i ∷ js)
unfolding merge_prev
merge_prev_at seq s xs is w k x i ys js same h =
    let h_w = IsAround-prev seq s xs is w k x i ys js same h in
    let w_ring = h_w.ring in
    let i' : Item = record i { first_seq_no = k.first_seq_no } in
    let s₁ : Store = set_at (s.memory.obj x) i' s in
    let h₁ =
      IsAround-prev seq s₁ xs is w k x i' ys js same
        (changed seq s (xs ++ w ∷ []) (is ++ k ∷ []) x i ys js h i') in
    let (m', s', run, freed, left, _, max, expected) =
      removed seq s₁ xs is w k (x ∷ ys) (i' ∷ js) h₁ in
    let at_prev : on_list (LL.prev seq x) s ≡ ok (w, s) =
      rw last_of-snoc at (prev_at seq s (xs ++ w ∷ []) x ys h.ring) in
    elim (Bool-cases (succ32 k.last_seq_no == i.first_seq_no)) [
      | inl meet ↦ (
        s',
        xs ++ x ∷ ys,
        rw (
          at_prev,
          is_address seq s xs w (x ∷ ys) w_ring,
          object_at seq s xs w (x ∷ ys) w_ring,
          h_w.here,
          h.here,
          meet,
          h.here,
          run,
          freed,
        ),
        rw meet left,
        max,
        expected,
      )
      | inr apart ↦ (
        s,
        xs ++ w ∷ x ∷ ys,
        rw (
          at_prev,
          is_address seq s xs w (x ∷ ys) w_ring,
          object_at seq s xs w (x ∷ ys) w_ring,
          h_w.here,
          h.here,
          apart,
        ),
        rw apart (IsAround-IsRanges seq s xs is w k (x ∷ ys) (i ∷ js) h_w),
        refl,
        refl,
      )
    ]

-- What merge_prev makes of the ranges in front, nearest first.
merge_prev_cases :
    (before : List Item) (k i : Item) (js : List Item)
    → Ops.merge_prev (k ∷ before) i js ≡ (
        if succ32 k.last_seq_no == i.first_seq_no
        then rev_append before [] ++ record i { first_seq_no = k.first_seq_no } ∷ js
        else rev_append before [] ++ k ∷ i ∷ js)
unfolding Ops.merge_prev
merge_prev_cases before k i js = rw (
  rev_append_split before (record i { first_seq_no = k.first_seq_no } ∷ js),
  rev_append_split before (k ∷ i ∷ js),
)

merge_prev_more :
    (seq : Ptr) (s : Store) (xs : List Ptr) (k : Item) (before : List Item) (x : Ptr) (i : Item)
    (ys : List Ptr) (js : List Item)
    → IsAround seq s xs (rev_append (k ∷ before) []) x i ys js
    → Leaves seq s (merge_prev seq x (s.memory.obj x) s) true (Ops.merge_prev (k ∷ before) i js)
merge_prev_more seq s xs k before x i ys js h =
    let is : List Item = rev_append before [] in
    let h₁ : IsAround seq s xs (is ++ k ∷ []) x i ys js =
      subst (λ (is : List Item). IsAround seq s xs is x i ys js) (rev_append_split before (k ∷ []))
        h in
    let (zs, w, split, front, _) = Held-last (range_of s) xs is k h₁.front in
    let h₂ : IsAround seq s (zs ++ w ∷ []) (is ++ k ∷ []) x i ys js =
      subst (λ (xs : List Ptr). IsAround seq s xs (is ++ k ∷ []) x i ys js) split h₁ in
    subst (Leaves seq s (merge_prev seq x (s.memory.obj x) s) true)
      (sym (merge_prev_cases before k i js))
      (merge_prev_at seq s zs is w k x i ys js (length-Held (range_of s) zs is front) h₂)

pub merge_prev_lem :
    (seq : Ptr) (s : Store) (xs : List Ptr) (before : List Item) (x : Ptr) (i : Item)
    (ys : List Ptr) (js : List Item)
    → IsAround seq s xs (rev_append before []) x i ys js
    → Leaves seq s (merge_prev seq x (s.memory.obj x) s) true (Ops.merge_prev before i js)
unfolding merge_prev Ops.merge_prev
merge_prev_lem seq s [] [] x i ys js h = (
  s,
  x ∷ ys,
  rw (prev_at seq s [] x ys h.ring),
  IsAround-IsRanges seq s [] [] x i ys js h,
  refl,
  refl,
)
merge_prev_lem seq s (w ∷ xs) [] x i ys js h = absurd h.front
merge_prev_lem seq s xs (k ∷ before) x i ys js h = merge_prev_more seq s xs k before x i ys js h
