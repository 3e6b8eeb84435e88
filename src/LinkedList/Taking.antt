-- ===== src/LinkedList/Taking.antt =====
-- Unlinking one element, unlinking them all, and initialising.
use ucp.Common.{
  ℕ, zero, suc, ◌%◌, ◌<◌, ◌≡◌, ◌≢◌, refl, ap, ◌∙◌, true, false, ◌&&◌, List, [], ◌∷◌, ◌++◌, arith,
  ◌==◌, ok, length, inl, inr, Bool-cases,
}
use ucp.Common.Words.{pred32, u32_mod}
use ucp.LinkedList.Memory.{Ptr, null, Memory, valid, update, Returns, Returns-mono}
use ucp.LinkedList.Ops.{unlink, unlink_loop, unlink_all, init}
use ucp.LinkedList.Ring.{
  has, IsRing, last_of, head_of, has-head_of_part, has-head_of_behind, has-last_of_part, ne_of_has,
}
use ucp.LinkedList.Remove.{IsRing-neighbours, Removed-IsRing, Distinct-remove}
use ucp.LinkedList.Unlink.{unlinked, unlinked-Removed, unlink_full}
use ucp.LinkedList.Frame.{SameOutside, valid_of_has, Removed-SameOutside}
use ucp.LinkedList.Walk.{alone-is_nil, first_last_lem, next_prev_lem}

-- The list at `l` has lost the elements `gone` and has now the elements `zs`; the elements that are
-- gone are free, every object is where it was, and the rest of the memory is untouched.
pub record Shrunk (m m' : Memory) (l : Ptr) (gone zs all : List Ptr) : Type 0 where
  pub ring : IsRing m' l zs
  pub freed : (a : Ptr) → has a gone ≡ true → m'.live a ≡ false
  pub held : (a : Ptr) → m'.obj a ≡ m.obj a
  pub same : SameOutside (l ∷ all) m m'

not_alone :
    (m : Memory) (l : Ptr) (xs : List Ptr) (x : Ptr) (ys : List Ptr)
    → IsRing m l (xs ++ x ∷ ys)
    → (m.next l == l && m.prev l == l) ≡ false
not_alone m l [] x ys ring = alone-is_nil m l (x ∷ ys) ring
not_alone m l (w ∷ xs) x ys ring = alone-is_nil m l (w ∷ xs ++ x ∷ ys) ring

module _ (m : Memory) (l : Ptr) (xs : List Ptr) (x : Ptr) (ys : List Ptr)
    (ring : IsRing m l (xs ++ x ∷ ys)) where
  -- the memory that `unlink` leaves
  unlink-unlinked : unlink l x m ≡ ok (tt, unlinked m l x)
  unlink-unlinked =
      let (before, after) = IsRing-neighbours m l xs x ys ring in
      let everywhere : List Ptr = l ∷ xs ++ x ∷ ys in
      let (_, gone) = Distinct-remove (l ∷ xs) ys x ring.distinct in
      let live_at = λ (a : Ptr). valid_of_has m a everywhere ring.alive in
      let at_prev : has (m.prev x) everywhere ≡ true =
        ap (λ (a : Ptr). has a everywhere) before ∙ has-last_of_part l xs (x ∷ ys) in
      let at_next : has (m.next x) everywhere ≡ true =
        ap (λ (a : Ptr). has a everywhere) after ∙ has-head_of_behind l xs x ys in
      let to_prev : x ≢ m.prev x =
        rw before (ne_of_has x (last_of l xs) (l ∷ xs ++ ys) gone (has-last_of_part l xs ys)) in
      let to_next : x ≢ m.next x =
        rw after (ne_of_has x (head_of ys l) (l ∷ xs ++ ys) gone (has-head_of_part l xs ys)) in
      unlink_full m l x ring.alive.0 (not_alone m l xs x ys ring)
        (live_at x (has-head_of_part l xs (x ∷ ys))) (live_at (m.prev x) at_prev)
        (live_at (m.next x) at_next) to_prev to_next

  unlinked-Shrunk : Shrunk m (unlinked m l x) l (x ∷ []) (xs ++ ys) (xs ++ x ∷ ys)
  unlinked-Shrunk = record {
    ring = Removed-IsRing m (unlinked m l x) l xs x ys ring (unlinked-Removed m l x);
    freed = λ a gone. ground arith;
    held = λ a. refl;
    same = Removed-SameOutside m (unlinked m l x) l xs x ys ring (unlinked-Removed m l x);
  }

  -- LinkedListUnlink at an element `x` of the list takes just that element out and frees it; the
  -- count is one less modulo 2^32, no object has changed, and nothing outside the list has changed.
  pub unlink-Shrunk : Returns (unlink l x m) (λ _ m'.
      Shrunk m m' l (x ∷ []) (xs ++ ys) (xs ++ x ∷ ys)
      × (m'.num_members l ≡ pred32 (m.num_members l)))
  unlink-Shrunk = rw unlink-unlinked (unlinked-Shrunk, ground arith)

Shrunk-trans :
    (m m' m'' : Memory) (l x : Ptr) (ys : List Ptr)
    → has x (l ∷ ys) ≡ false
    → Shrunk m m' l (x ∷ []) ys (x ∷ ys)
    → Shrunk m' m'' l ys [] ys
    → Shrunk m m'' l (x ∷ ys) [] (x ∷ ys)
Shrunk-trans m m' m'' l x ys out one rest = record {
  ring = rest.ring;
  freed = λ a gone. elim (Bool-cases (has a ys)) [
    | inl later ↦ rest.freed a later
    | inr now ↦ ground (arith, one.freed a, rest.same a)
  ];
  held = λ a. rest.held a ∙ one.held a;
  same = λ a far. record {
    live = ground (arith, one.same a, rest.same a);
    obj = ground (arith, one.same a, rest.same a);
    next = ground (arith, one.same a, rest.same a);
    prev = ground (arith, one.same a, rest.same a);
    num_members = ground (arith, one.same a, rest.same a);
  };
}

abbrev pub Emptied : Memory → Ptr → List Ptr → Unit {0} → Memory → Type 0
Emptied m l xs _ m' = Shrunk m m' l xs [] xs × (m'.num_members l ≡ 0)

unlink_loop-Shrunk :
    (k : ℕ) (m : Memory) (l : Ptr) (xs : List Ptr)
    → IsRing m l xs
    → m.num_members l ≡ length xs % u32_mod
    → length xs < k
    → Returns (unlink_loop k l (head_of xs null) m) (Emptied m l xs)
unfolding unlink_loop
unlink_loop-Shrunk zero m l xs ring counted enough = absurd (omega arith)
unlink_loop-Shrunk (suc k) m l [] ring counted enough = (
  record {
    ring = ring;
    freed = λ a h. cc;
    held = λ a. refl;
    same =
        λ a far. record { live = refl; obj = refl; next = refl; prev = refl; num_members = refl };
  },
  counted,
)
unlink_loop-Shrunk (suc k) m l (x ∷ ys) ring counted enough =
    let x_address : (x == null) ≡ false = ground arith in
    let (step, _) = next_prev_lem m l [] x ys ring in
    let m' : Memory = unlinked m l x in
    let one : Shrunk m m' l (x ∷ []) ys (x ∷ ys) = unlinked-Shrunk m l [] x ys ring in
    let left : m'.num_members l ≡ length ys % u32_mod = ground arith in
    let out : has x (l ∷ ys) ≡ false = (Distinct-remove (l ∷ []) ys x ring.distinct).1 in
    rw (x_address, step, unlink-unlinked m l [] x ys ring)
      (Returns-mono (unlink_loop k l (head_of ys null) m')
        (unlink_loop-Shrunk k m' l ys one.ring left (omega arith))
        λ done m'' (rest, none_left). (Shrunk-trans m m' m'' l x ys out one rest, none_left))

-- LinkedListUnlinkAll, with one round more than the list has elements, empties a list whose count is
-- right: every element is freed, the count is 0, no object has changed, and nothing outside the list
-- has changed.
pub unlink_all-Shrunk :
    (fuel : ℕ) (m : Memory) (l : Ptr) (xs : List Ptr)
    → IsRing m l xs
    → m.num_members l ≡ length xs % u32_mod
    → length xs < fuel
    → Returns (unlink_all fuel l m) (Emptied m l xs)
unfolding unlink_all
unlink_all-Shrunk fuel m l xs ring counted enough =
    rw ((first_last_lem m l xs ring).0) (unlink_loop-Shrunk fuel m l xs ring counted enough)

abbrev anchored : Memory → Ptr → Memory
anchored m l = record m {
  obj = update m.obj l null;
  prev = update m.prev l l;
  next = update m.next l l;
}

init-anchored : (m : Memory) (l : Ptr) → valid m l ≡ true → init l m ≡ ok (true, anchored m l)
unfolding init
init-anchored m l vl = ground arith

-- LinkedListInit at an allocated anchor makes an empty list of it and returns TRUE; it leaves
-- `num_members` as it was, whatever that is, and nothing but the anchor changes.
pub init-IsRing :
    (m : Memory) (l : Ptr)
    → valid m l ≡ true
    → Returns (init l m) (λ done m'.
      (done ≡ true)
      × IsRing m' l []
      × (m'.num_members l ≡ m.num_members l)
      × SameOutside (l ∷ []) m m')
init-IsRing m l vl = rw (init-anchored m l vl) (
  refl,
  record { chain = (ground arith, ground arith); distinct = (refl, tt); alive = (vl, tt) },
  refl,
  λ a far. record {
    live = refl;
    obj = ground arith;
    next = ground arith;
    prev = ground arith;
    num_members = refl;
  },
)
