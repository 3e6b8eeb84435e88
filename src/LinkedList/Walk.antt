-- ===== src/LinkedList/Walk.antt =====
-- Reading a list: the tests and steps of a traversal, and the search for an object.
use ucp.Common.{
  ℕ, zero, suc, ◌<◌, ◌≡◌, refl, ap, ◌∙◌, Bool, true, false, ◌&&◌, List, [], ◌∷◌, ◌++◌, append_assoc,
  arith, ◌==◌, if◌then◌else◌, ok, length, inl, inr, Bool-cases,
}
use ucp.LinkedList.Memory.{Ptr, null, Memory, valid}
use ucp.LinkedList.Ops.{is_empty, first, last, next, prev, find_loop, find}
use ucp.LinkedList.Ring.{
  has, IsRing, last_of, head_of, Chain-ends, has-append, has-last_of, has-head_of_part, ne_of_has,
}
use ucp.LinkedList.Remove.{IsRing-neighbours}
use ucp.LinkedList.Unlink.{is_empty_lem, next_lem, prev_lem, first_lem, last_lem}
use ucp.LinkedList.Frame.{valid_of_has}

abbrev pub is_nil : List Ptr → Bool
is_nil [] = true
is_nil (x ∷ xs) = false

-- The anchor points at itself exactly when there is no element.
pub alone-is_nil :
    (m : Memory) (l : Ptr) (xs : List Ptr)
    → IsRing m l xs
    → (m.next l == l && m.prev l == l) ≡ is_nil xs
alone-is_nil m l [] ring = let (e, f) = ring.chain in ground arith
alone-is_nil m l (x ∷ xs) ring =
    let (e, _, _) = ring.chain in let (out, _) = ring.distinct in ground arith

module _ (m : Memory) (l : Ptr) (xs : List Ptr) (ring : IsRing m l xs) where
  pub is_empty-is_nil : is_empty l m ≡ ok (is_nil xs, m)
  is_empty-is_nil =
      is_empty_lem m l null ring.alive.0 ∙ ap (λ (b : Bool). ok (b, m)) (alone-is_nil m l xs ring)

-- A walk along a list goes through its elements in order: LinkedListFirst gives the first element,
-- LinkedListLast the last, NULL if there is none, and neither changes the memory.
pub first_last_lem :
    (m : Memory) (l : Ptr) (xs : List Ptr)
    → IsRing m l xs
    → (first l m ≡ ok (head_of xs null, m)) × (last l m ≡ ok (last_of null xs, m))
first_last_lem m l [] ring =
    let alone : (m.next l == l && m.prev l == l) ≡ true = alone-is_nil m l [] ring in
    (first_lem m l null ring.alive.0 ∙ rw alone, last_lem m l null ring.alive.0 ∙ rw alone)
first_last_lem m l (x ∷ xs) ring =
    let full : (m.next l == l && m.prev l == l) ≡ false = alone-is_nil m l (x ∷ xs) ring in
    let (after, before) = Chain-ends m.next m.prev l (x ∷ xs) l ring.chain in
    (
      first_lem m l null ring.alive.0 ∙ rw (full, after),
      last_lem m l null ring.alive.0 ∙ rw (full, before),
    )

head_or_null :
    (l : Ptr) (ys : List Ptr)
    → has l ys ≡ false
    → (if head_of ys l == l then null else head_of ys l) ≡ head_of ys null
head_or_null l [] out = ground arith
head_or_null l (y ∷ ys) out = ground arith

last_or_null :
    (l : Ptr) (xs : List Ptr)
    → has l xs ≡ false
    → (if last_of l xs == l then null else last_of l xs) ≡ last_of null xs
last_or_null l [] out = ground arith
last_or_null l (x ∷ xs) out =
    ground (arith, has-last_of x xs, ne_of_has l (last_of x xs) (x ∷ xs) out)

-- At an element of the list LinkedListNext gives the one behind it and LinkedListPrev the one in
-- front of it, NULL at either end of the list, and neither changes the memory.
pub next_prev_lem :
    (m : Memory) (l : Ptr) (xs : List Ptr) (x : Ptr) (ys : List Ptr)
    → IsRing m l (xs ++ x ∷ ys)
    → (next l x m ≡ ok (head_of ys null, m)) × (prev l x m ≡ ok (last_of null xs, m))
next_prev_lem m l xs x ys ring =
    let (before, after) = IsRing-neighbours m l xs x ys ring in
    let vx : valid m x ≡ true =
      valid_of_has m x (l ∷ xs ++ x ∷ ys) ring.alive (has-head_of_part l xs (x ∷ ys)) in
    let (out, _) = ring.distinct in
    let out_xs : has l xs ≡ false = ground (arith, has-append l xs (x ∷ ys)) in
    let out_ys : has l ys ≡ false = ground (arith, has-append l xs (x ∷ ys)) in
    (
      next_lem m l x ring.alive.0 vx
          ∙ rw after (ap (λ (a : Ptr). ok (a, m)) (head_or_null l ys out_ys)),
      prev_lem m l x ring.alive.0 vx
          ∙ rw before (ap (λ (a : Ptr). ok (a, m)) (last_or_null l xs out_xs)),
    )

-- The first element that holds the object, or NULL.
abbrev pub first_holding : Memory → Ptr → List Ptr → Ptr
first_holding m obj [] = null
first_holding m obj (x ∷ xs) = if m.obj x == obj then x else first_holding m obj xs

find_loop_lem :
    (k : ℕ) (m : Memory) (l obj : Ptr) (xs ys : List Ptr)
    → IsRing m l (xs ++ ys)
    → length ys < k
    → find_loop k l obj (head_of ys null) m ≡ ok (first_holding m obj ys, m)
unfolding find_loop
find_loop_lem zero m l obj xs ys ring enough = absurd (omega arith)
find_loop_lem (suc k) m l obj xs [] ring enough = refl
find_loop_lem (suc k) m l obj xs (x ∷ ys) ring enough =
    let vx : valid m x ≡ true =
      valid_of_has m x (l ∷ xs ++ x ∷ ys) ring.alive (has-head_of_part l xs (x ∷ ys)) in
    let x_address : (x == null) ≡ false = ground arith in
    let (step, _) = next_prev_lem m l xs x ys ring in
    let ring' : IsRing m l ((xs ++ x ∷ []) ++ ys) = rw (append_assoc xs (x ∷ []) ys) ring in
    let rest : find_loop k l obj (head_of ys null) m ≡ ok (first_holding m obj ys, m) =
      find_loop_lem k m l obj (xs ++ x ∷ []) ys ring' (omega arith) in
    elim (Bool-cases (m.obj x == obj)) [
      | inl found ↦ rw (x_address, vx, found)
      | inr other ↦ rw (x_address, vx, other) (rw step rest)
    ]

-- LinkedListFind, with one round more than the list has elements, gives the first element that holds
-- the object, NULL if none does, and does not change the memory.
pub find_lem :
    (fuel : ℕ) (m : Memory) (l obj : Ptr) (xs : List Ptr)
    → IsRing m l xs
    → length xs < fuel
    → find fuel l obj m ≡ ok (first_holding m obj xs, m)
unfolding find
find_lem fuel m l obj [] ring enough = rw (is_empty-is_nil m l [] ring)
find_lem fuel m l obj (x ∷ xs) ring enough =
    rw (is_empty-is_nil m l (x ∷ xs) ring, (first_last_lem m l (x ∷ xs) ring).0)
      (find_loop_lem fuel m l obj [] (x ∷ xs) ring enough)
