-- ===== src/Sequencer/Adding.antt =====
-- The loop of sequencer_add in the store.
use mathlib.Core.Path.{subst}
use ucp.Common.{
  ℕ, zero, suc, ◌<◌, ◌≡◌, refl, sym, arith, Bool, true, List, [], ◌∷◌, ◌++◌, append_assoc,
  append-nil, rev_append, ◌==◌, length, length-append, Bool-cases, inl, inr,
}
use ucp.Common.Words.{succ32, pred32}
use ucp.LinkedList.Memory.{Ptr, null}
use ucp.LinkedList.Ops as LL
use ucp.LinkedList.Ring.{head_of}
use ucp.Sequencer.Ops as Ops
use ucp.Sequencer.Ops.{Item}
use ucp.Sequencer.Store.{Store, Prog, ◌>>=◌, on_list}
use ucp.Sequencer.Loops.{insert_between, merge_next, add_loop}
use ucp.Sequencer.Stored.{range_of, IsRanges, Held-split, rev_append_split}
use ucp.Sequencer.Changing.{IsAround-of, set_at, changed}
use ucp.Sequencer.Reading.{is_address, object_at, next_at}
use ucp.Sequencer.Merging.{Leaves, merge_next_lem}
use ucp.Sequencer.Previous.{merge_prev_lem}
use ucp.Sequencer.Inserting.{IsFresh, insert_between_fits, insert_between_past}

-- One element further.
pub passed-IsRanges :
    (seq : Ptr) (s : Store) (xs : List Ptr) (before : List Item) (y : Ptr) (j : Item)
    (ys : List Ptr) (js : List Item)
    → IsRanges seq s (xs ++ y ∷ ys) (rev_append before [] ++ j ∷ js)
    → IsRanges seq s ((xs ++ y ∷ []) ++ ys) (rev_append (j ∷ before) [] ++ js)
passed-IsRanges seq s xs before y j ys js h =
    rw
      (
        append_assoc xs (y ∷ []) ys,
        rev_append_split before (j ∷ []),
        append_assoc (rev_append before []) (j ∷ []) js,
      )
      h

passed_length :
    (xs : List Ptr) (before : List Item) (y : Ptr) (j : Item)
    → length xs ≡ length (rev_append before [])
    → length (xs ++ y ∷ []) ≡ length (rev_append (j ∷ before) [])
passed_length xs before y j same =
    rw (rev_append_split before (j ∷ []))
      (omega (arith, length-append xs (y ∷ []), length-append (rev_append before []) (j ∷ [])))

module _ (seq : Ptr) (s : Store) (f z : Ptr) (fresh : IsFresh s f z) (n : ℕ) where
  -- The next round.
  abbrev rest_of : Ptr → ℕ → Prog Bool
  rest_of y k = on_list (LL.next seq y) >>= λ next_elem. add_loop f z k seq next_elem n

  -- The loop with the ranges of `before`, nearest first, behind it.
  pub add_loop_lem :
      (k : ℕ) (xs : List Ptr) (before : List Item) (ys : List Ptr) (js : List Item)
      → IsRanges seq s (xs ++ ys) (rev_append before [] ++ js)
      → length xs ≡ length (rev_append before [])
      → length js < k
      → Leaves seq s
          (add_loop f z k seq (head_of ys null) n s)
          (Ops.add_loop before js n).0
          (Ops.add_loop before js n).1
  unfolding add_loop Ops.add_loop
  add_loop_lem zero xs before ys js h same enough = absurd (omega arith)
  add_loop_lem (suc k) xs before [] [] h same enough =
      (s, xs, refl, rw (append-nil, append-nil) at h, refl, refl)
  add_loop_lem (suc k) xs before [] (j ∷ js) h same enough =
      let (_, clash) = Held-split (range_of s) xs (rev_append before []) [] (j ∷ js) same h.held in
      absurd clash
  add_loop_lem (suc k) xs before (y ∷ ys) [] h same enough =
      let (_, clash) = Held-split (range_of s) xs (rev_append before []) (y ∷ ys) [] same h.held in
      absurd clash
  add_loop_lem (suc k) xs before (y ∷ ys) (j ∷ js) h same enough =
      let front : List Item = rev_append before [] in
      let around = IsAround-of seq s xs front y j ys js h same in
      let ring = around.ring in
      let j_end : Item = record j { last_seq_no = n } in
      let j_start : Item = record j { first_seq_no = n } in
      elim (Bool-cases (succ32 j.last_seq_no == n)) [
        | inl next ↦
            rw
              (
                is_address seq s xs y ys ring,
                object_at seq s xs y ys ring,
                around.here,
                next,
                around.here,
              )
              (subst
                (Leaves seq s (merge_next seq y (s.memory.obj y) (set_at (s.memory.obj y) j_end s))
                  true)
                (sym (rev_append_split before (Ops.merge_next j_end js)))
                (merge_next_lem seq (set_at (s.memory.obj y) j_end s) xs front y j_end ys js
                  (changed seq s xs front y j ys js around j_end)))
        | inr not_next ↦ elim (Bool-cases (pred32 j.first_seq_no == n)) [
          | inl prev ↦
              rw
                (
                  is_address seq s xs y ys ring,
                  object_at seq s xs y ys ring,
                  around.here,
                  not_next,
                  prev,
                  around.here,
                )
                (merge_prev_lem seq (set_at (s.memory.obj y) j_start s) xs before y j_start ys js
                  (changed seq s xs front y j ys js around j_start))
          | inr not_prev ↦ elim (Bool-cases (Ops.fits_between j js n)) [
            | inl fits ↦
                rw
                  (
                    is_address seq s xs y ys ring,
                    object_at seq s xs y ys ring,
                    around.here,
                    not_next,
                    not_prev,
                    fits,
                  )
                  (subst (Leaves seq s (insert_between f z seq y j n (rest_of y k) s) true)
                    (sym (rev_append_split before (j ∷ Ops.create_range n n ∷ js)))
                    (insert_between_fits seq s f z fresh n (rest_of y k) xs front y j ys js around
                      fits))
            | inr past ↦
                rw
                  (
                    is_address seq s xs y ys ring,
                    object_at seq s xs y ys ring,
                    around.here,
                    not_next,
                    not_prev,
                    past,
                    insert_between_past seq s f z fresh n (rest_of y k) xs front y j ys js around
                        past,
                    next_at seq s xs y ys ring,
                  )
                  (add_loop_lem k (xs ++ y ∷ []) (j ∷ before) ys js
                    (passed-IsRanges seq s xs before y j ys js h) (passed_length xs before y j same)
                    (omega arith))
          ]
        ]
      ]
