-- ===== src/Sequencer/Completing.antt =====
-- The loop of sequencer_complete in the store.
use mathlib.Core.Path.{subst}
use ucp.Common.{
  ℕ, zero, suc, ◌<◌, ◌≡◌, refl, ◌∙◌, arith, true, false, List, [], ◌∷◌, ◌++◌, append_assoc,
  append-nil, ◌==◌, length, length-append, ok, Bool-cases, inl, inr,
}
use ucp.Common.Words.{succ32}
use ucp.LinkedList.Memory.{Ptr, null}
use ucp.LinkedList.Ring.{head_of}
use ucp.Sequencer.Ops as Ops
use ucp.Sequencer.Ops.{Item, Sequencer}
use ucp.Sequencer.Store.{Store}
use ucp.Sequencer.Loops.{merge_adjacent, merge_loop}
use ucp.Sequencer.Stored.{range_of, IsRanges, Held-split}
use ucp.Sequencer.Changing.{IsAround, IsAround-of, IsAround-IsRanges}
use ucp.Sequencer.Reading.{is_address, object_at, next_at}
use ucp.Sequencer.Merging.{Leaves, IsAround-next, absorbed_next}

adjacent_last :
    (seq : Ptr) (s : Store) (xs : List Ptr) (is : List Item) (x : Ptr) (i : Item)
    → IsAround seq s xs is x i [] []
    → merge_adjacent seq x s ≡ ok (tt, s)
unfolding merge_adjacent
adjacent_last seq s xs is x i h = rw (object_at seq s xs x [] h.ring, next_at seq s xs x [] h.ring)

module _ (seq : Ptr) (s : Store) (xs : List Ptr) (is : List Item) (x : Ptr) (i : Item) (y : Ptr)
    (j : Item) (ys : List Ptr) (js : List Item)
    (h : IsAround seq s xs is x i (y ∷ ys) (j ∷ js)) where
  adjacent_apart :
      (succ32 i.last_seq_no == j.first_seq_no) ≡ false → merge_adjacent seq x s ≡ ok (tt, s)
  unfolding merge_adjacent
  adjacent_apart apart =
      let h_y = IsAround-next seq s xs is x i y j ys js h in
      let y_ring = h_y.ring in
      rw (
        object_at seq s xs x (y ∷ ys) h.ring,
        next_at seq s xs x (y ∷ ys) h.ring,
        is_address seq s (xs ++ x ∷ []) y ys y_ring,
        object_at seq s (xs ++ x ∷ []) y ys y_ring,
        h.here,
        h_y.here,
        apart,
      )

  adjacent_meet :
      (succ32 i.last_seq_no == j.first_seq_no) ≡ true
      → (s' : Store) × (merge_adjacent seq x s ≡ ok (tt, s'))
        × IsAround seq s' xs is x (record i { last_seq_no = j.last_seq_no }) ys js
        × (s'.max_seq_no ≡ s.max_seq_no)
        × (s'.expected_last_seq_no ≡ s.expected_last_seq_no)
  unfolding merge_adjacent
  adjacent_meet meet =
      let h_y = IsAround-next seq s xs is x i y j ys js h in
      let y_ring = h_y.ring in
      let i' : Item = record i { last_seq_no = j.last_seq_no } in
      let (m', s', run, freed, around, max, expected) =
        absorbed_next seq s xs is x i i' y j ys js h in
      (
        s',
        rw (
          object_at seq s xs x (y ∷ ys) h.ring,
          next_at seq s xs x (y ∷ ys) h.ring,
          is_address seq s (xs ++ x ∷ []) y ys y_ring,
          object_at seq s (xs ++ x ∷ []) y ys y_ring,
          h.here,
          h_y.here,
          meet,
          h.here,
          run,
          freed,
        ),
        around,
        max,
        expected,
      )

one_further :
    (seq : Ptr) (s : Store) (xs : List Ptr) (is : List Item) (y : Ptr) (j : Item) (ys : List Ptr)
    (js : List Item)
    → IsRanges seq s (xs ++ y ∷ ys) (is ++ j ∷ js)
    → IsRanges seq s ((xs ++ y ∷ []) ++ ys) ((is ++ j ∷ []) ++ js)
one_further seq s xs is y j ys js h =
    rw (append_assoc xs (y ∷ []) ys, append_assoc is (j ∷ []) js) h

longer_by_one :
    (xs : List Ptr) (is : List Item) (y : Ptr) (j : Item)
    → length xs ≡ length is
    → length (xs ++ y ∷ []) ≡ length (is ++ j ∷ [])
longer_by_one xs is y j same = omega (arith, length-append xs (y ∷ []), length-append is (j ∷ []))

pub merge_loop_lem :
    (k : ℕ) (seq : Ptr) (s : Store) (xs : List Ptr) (is : List Item) (ys : List Ptr)
    (js : List Item)
    → IsRanges seq s (xs ++ ys) (is ++ js)
    → length xs ≡ length is
    → length js < k
    → Leaves seq s (merge_loop k seq (head_of ys null) s) tt (is ++ Ops.merge_pass js)
unfolding merge_loop Ops.merge_pass
merge_loop_lem zero seq s xs is ys js h same enough = absurd (omega arith)
merge_loop_lem (suc k) seq s xs is [] [] h same enough = (s, xs ++ [], refl, h, refl, refl)
merge_loop_lem (suc k) seq s xs is [] (j ∷ js) h same enough =
    let (_, clash) = Held-split (range_of s) xs is [] (j ∷ js) same h.held in absurd clash
merge_loop_lem (suc k) seq s xs is (y ∷ ys) [] h same enough =
    let (_, clash) = Held-split (range_of s) xs is (y ∷ ys) [] same h.held in absurd clash
merge_loop_lem (suc k) seq s xs is (y ∷ []) (j ∷ []) h same enough =
    let around = IsAround-of seq s xs is y j [] [] h same in
    let rest : Leaves seq s (merge_loop k seq null s) tt (is ++ j ∷ []) = rw append-nil at (
      merge_loop_lem k seq s (xs ++ y ∷ []) (is ++ j ∷ []) [] []
        (one_further seq s xs is y j [] [] h) (longer_by_one xs is y j same) (omega arith)) in
    rw
      (
        is_address seq s xs y [] around.ring,
        adjacent_last seq s xs is y j around,
        next_at seq s xs y [] around.ring,
      )
      rest
merge_loop_lem (suc k) seq s xs is (y ∷ []) (j ∷ j' ∷ js) h same enough =
    let around = IsAround-of seq s xs is y j [] (j' ∷ js) h same in absurd around.back
merge_loop_lem (suc k) seq s xs is (y ∷ y' ∷ ys) (j ∷ []) h same enough =
    let around = IsAround-of seq s xs is y j (y' ∷ ys) [] h same in absurd around.back
merge_loop_lem (suc k) seq s xs is (y ∷ y' ∷ ys) (j ∷ j' ∷ js) h same enough =
    let around = IsAround-of seq s xs is y j (y' ∷ ys) (j' ∷ js) h same in
    let i : Item = record j { last_seq_no = j'.last_seq_no } in
    elim (Bool-cases (succ32 j.last_seq_no == j'.first_seq_no)) [
      | inl meet ↦
          let (s₁, merged, around₁, max, expected) =
            adjacent_meet seq s xs is y j y' j' ys js around meet in
          let (s', zs, run, ranges, max', expected') =
            merge_loop_lem k seq s₁ (xs ++ y ∷ []) (is ++ i ∷ []) ys js
              (one_further seq s₁ xs is y i ys js
                (IsAround-IsRanges seq s₁ xs is y i ys js around₁))
              (longer_by_one xs is y i same) (omega arith) in
          (
            s',
            zs,
            rw
                (
                  is_address seq s xs y (y' ∷ ys) around.ring,
                  merged,
                  next_at seq s₁ xs y ys around₁.ring,
                )
                run,
            rw meet
                (subst (IsRanges seq s' zs) (append_assoc is (i ∷ []) (Ops.merge_pass js)) ranges),
            max' ∙ max,
            expected' ∙ expected,
          )
      | inr apart ↦
          let (s', zs, run, ranges, max', expected') =
            merge_loop_lem k seq s (xs ++ y ∷ []) (is ++ j ∷ []) (y' ∷ ys) (j' ∷ js)
              (one_further seq s xs is y j (y' ∷ ys) (j' ∷ js) h) (longer_by_one xs is y j same)
              (omega arith) in
          (
            s',
            zs,
            rw
                (
                  is_address seq s xs y (y' ∷ ys) around.ring,
                  adjacent_apart seq s xs is y j y' j' ys js around apart,
                  next_at seq s xs y (y' ∷ ys) around.ring,
                )
                run,
            rw apart (
                subst (IsRanges seq s' zs) (append_assoc is (j ∷ []) (Ops.merge_pass (j' ∷ js)))
                  ranges),
            max',
            expected',
          )
    ]
