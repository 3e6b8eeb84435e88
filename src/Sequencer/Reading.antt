-- ===== src/Sequencer/Reading.antt =====
-- The steps of a loop over the ranges in the store, and the loops that only read.
use ucp.Common.{
  ℕ, zero, suc, ◌<◌, ◌≡◌, refl, arith, true, false, ◌&&◌, some, List, [], ◌∷◌, ◌++◌, append_assoc,
  leb, ◌==◌, length, ok, Bool-cases, inl, inr,
}
use ucp.LinkedList.Memory.{Ptr, null, valid, get_obj}
use ucp.LinkedList.Ops as LL
use ucp.LinkedList.Ring.{IsRing, head_of, last_of, has-head_of_part}
use ucp.LinkedList.Frame.{valid_of_has}
use ucp.LinkedList.Walk.{first_last_lem, next_prev_lem, is_empty-is_nil, is_nil}
use ucp.Sequencer.Ops as Ops
use ucp.Sequencer.Ops.{Item}
use ucp.Sequencer.Store.{Store, on_list}
use ucp.Sequencer.Loops.{get_range, check_loop, check}
use ucp.Sequencer.Stored.{range_of, Held, IsRanges}

-- At the element `x`.
module _ (seq : Ptr) (s : Store) (xs : List Ptr) (x : Ptr) (ys : List Ptr)
    (ring : IsRing s.memory seq (xs ++ x ∷ ys)) where
  pub is_valid : valid s.memory x ≡ true
  is_valid =
      valid_of_has s.memory x (seq ∷ xs ++ x ∷ ys) ring.alive (has-head_of_part seq xs (x ∷ ys))

  pub is_address : (x == null) ≡ false
  is_address = let v = is_valid in ground arith

  pub object_at : on_list (get_obj x) s ≡ ok (s.memory.obj x, s)
  object_at = rw is_valid

  pub range_at : (i : Item) → range_of s x ≡ some i → get_range x s ≡ ok (i, s)
  range_at i here = rw (is_valid, here)

  pub next_at : on_list (LL.next seq x) s ≡ ok (head_of ys null, s)
  next_at = rw ((next_prev_lem s.memory seq xs x ys ring).0)

  pub prev_at : on_list (LL.prev seq x) s ≡ ok (last_of null xs, s)
  prev_at = rw ((next_prev_lem s.memory seq xs x ys ring).1)

module _ (seq : Ptr) (s : Store) (xs : List Ptr) (ring : IsRing s.memory seq xs) where
  pub first_at : on_list (LL.first seq) s ≡ ok (head_of xs null, s)
  first_at = rw ((first_last_lem s.memory seq xs ring).0)

  pub empty_at : on_list (LL.is_empty seq) s ≡ ok (is_nil xs, s)
  empty_at = rw (is_empty-is_nil s.memory seq xs ring)

check_loop_lem :
    (k : ℕ) (seq : Ptr) (s : Store) (xs ys : List Ptr) (js : List Item) (seq_no : ℕ)
    → IsRing s.memory seq (xs ++ ys)
    → Held (range_of s) ys js
    → length js < k
    → check_loop k seq (head_of ys null) seq_no s ≡ ok (Ops.check js seq_no, s)
unfolding check_loop Ops.check
check_loop_lem zero seq s xs ys js n ring held enough = absurd (omega arith)
check_loop_lem (suc k) seq s xs [] [] n ring held enough = refl
check_loop_lem (suc k) seq s xs [] (j ∷ js) n ring held enough = absurd held
check_loop_lem (suc k) seq s xs (y ∷ ys) [] n ring held enough = absurd held
check_loop_lem (suc k) seq s xs (y ∷ ys) (j ∷ js) n ring (here, held) enough =
    let ring' : IsRing s.memory seq ((xs ++ y ∷ []) ++ ys) =
      rw (append_assoc xs (y ∷ []) ys) ring in
    let rest = check_loop_lem k seq s (xs ++ y ∷ []) ys js n ring' held (omega arith) in
    elim (Bool-cases (leb j.first_seq_no n && leb n j.last_seq_no)) [
      | inl inside ↦ rw (is_address seq s xs y ys ring, range_at seq s xs y ys ring j here, inside)
      | inr outside ↦ rw (
        is_address seq s xs y ys ring,
        range_at seq s xs y ys ring j here,
        outside,
        next_at seq s xs y ys ring,
        rest,
      )
    ]

-- sequencer_check does on the store what it does on the list of ranges, and changes nothing.
pub check_lem :
    (fuel : ℕ) (seq : Ptr) (s : Store) (xs : List Ptr) (is : List Item) (seq_no : ℕ)
    → IsRanges seq s xs is
    → length is < fuel
    → check fuel seq seq_no s ≡ ok (Ops.check is seq_no, s)
unfolding check
check_lem fuel seq s xs is n h enough =
    rw (first_at seq s xs h.ring, check_loop_lem fuel seq s [] xs is n h.ring h.held enough)
