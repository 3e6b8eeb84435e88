-- ===== src/LinkedList/Adding.antt =====
-- The functions that add an element, as operations on the list of elements.
use ucp.Common.{
  ◌≡◌, ◌≢◌, refl, sym, ap, ◌∙◌, Bool, true, false, List, [], ◌∷◌, ◌++◌, append-nil, append_assoc,
  arith,
}
use ucp.Common.Words.{succ32}
use ucp.LinkedList.Memory.{Ptr, null, Memory, update, valid, Returns, Returns-mono}
use ucp.LinkedList.Ops.{append, prepend, insert_after, insert_before}
use ucp.LinkedList.Ring.{
  has, IsRing, last_of, head_of, Chain-ends, last_of-snoc, has-last_of, has-last_of_part,
  has-head_of_part, has-head_of_behind, ne_of_has,
}
use ucp.LinkedList.Insert.{Inserted, Inserted-IsRing}
use ucp.LinkedList.Remove.{IsRing-neighbours}
use ucp.LinkedList.Link.{
  Links, append-Links, prepend-Links, insert_after-Links, insert_before-Links,
}
use ucp.LinkedList.Frame.{SameOutside, not-has_of_dead, valid_of_has, Inserted-SameOutside}

-- The list at `l` has gone from the elements `xs` to `zs` by the new element `z` with object `o`; the
-- other elements keep their objects, and the rest of the memory is untouched.
pub record Grown (m m' : Memory) (l : Ptr) (xs zs : List Ptr) (z o : Ptr) : Type 0 where
  pub ring : IsRing m' l zs
  pub held : (a : Ptr) → m'.obj a ≡ update m.obj z o a
  pub counted : m'.num_members l ≡ succ32 (m.num_members l)
  pub same : SameOutside (z ∷ l ∷ xs) m m'

-- `z` is what `malloc` returns: not NULL, and not allocated before.
module _ (m : Memory) (l z o : Ptr) (xs ys : List Ptr) (ring : IsRing m l (xs ++ ys))
    (some_address : z ≢ null) (unused : m.live z ≡ false) where
  apart : has z (l ∷ xs ++ ys) ≡ false
  apart = not-has_of_dead m z (l ∷ xs ++ ys) unused ring.alive

  Links-Grown :
      {u v : Ptr} (done : Bool) (m' : Memory)
      → u ≡ last_of l xs
      → v ≡ head_of ys l
      → Links m l u v z o done m'
      → (done ≡ true) × Grown m m' l (xs ++ ys) (xs ++ z ∷ ys) z o
  Links-Grown done m' eu ev (yes_done, ins) =
      let ins' : Inserted m m' l (last_of l xs) (head_of ys l) z o = rw (← eu, ← ev) ins in
      (
        yes_done,
        record {
          ring = Inserted-IsRing m m' l xs ys z o ring some_address apart ins';
          held = ins.obj;
          counted = ground (arith, ins.num_members l);
          same = Inserted-SameOutside m m' l xs ys z o ins';
        },
      )

-- What a successful addition to the list at `l` returns.
abbrev pub Adds : Memory → (l : Ptr) (xs zs : List Ptr) (z o : Ptr) → Bool → Memory → Type 0
Adds m l xs zs z o done m' = (done ≡ true) × Grown m m' l xs zs z o

module _ (m : Memory) (l z o : Ptr) (xs : List Ptr) (ring : IsRing m l xs) (some_address : z ≢ null)
    (unused : m.live z ≡ false) where
  new : has z (l ∷ xs) ≡ false
  new = not-has_of_dead m z (l ∷ xs) unused ring.alive

  -- On a list with the elements `xs`, LinkedListAppend with an unused address `z` from `malloc`
  -- returns TRUE; the list then has the elements `xs` followed by `z`, `z` holds the object, the
  -- count is one more modulo 2^32, and nothing outside the list and `z` has changed.
  pub append-Grown : Returns (append z l o m) (Adds m l xs (xs ++ z ∷ []) z o)
  append-Grown =
      let (_, before) = Chain-ends m.next m.prev l xs l ring.chain in
      let ring' : IsRing m l (xs ++ []) = rw append-nil ring in
      let in_list : has (m.prev l) (l ∷ xs) ≡ true =
        ap (λ (a : Ptr). has a (l ∷ xs)) before ∙ has-last_of l xs in
      let linked : Returns (append z l o m) (Links m l (m.prev l) l z o) =
        append-Links m l z o ring.alive.0 some_address (ground (arith, new))
          (valid_of_has m (m.prev l) (l ∷ xs) ring.alive in_list)
          (ne_of_has z (m.prev l) (l ∷ xs) new in_list) in
      Returns-mono (append z l o m) linked λ done m' links.
        rw append-nil at
          (Links-Grown m l z o xs [] ring' some_address unused done m' before refl links)

  -- On a list with the elements `xs`, LinkedListPrepend with an unused address `z` from `malloc`
  -- returns TRUE; the list then has the element `z` followed by `xs`, `z` holds the object, the
  -- count is one more modulo 2^32, and nothing outside the list and `z` has changed.
  pub prepend-Grown : Returns (prepend z l o m) (Adds m l xs (z ∷ xs) z o)
  prepend-Grown =
      let (after, _) = Chain-ends m.next m.prev l xs l ring.chain in
      let in_list : has (m.next l) (l ∷ xs) ≡ true =
        ap (λ (a : Ptr). has a (l ∷ xs)) after ∙ has-head_of_part l [] xs in
      let linked : Returns (prepend z l o m) (Links m l l (m.next l) z o) =
        prepend-Links m l z o ring.alive.0 some_address (ground (arith, new))
          (valid_of_has m (m.next l) (l ∷ xs) ring.alive in_list)
          (ne_of_has z (m.next l) (l ∷ xs) new in_list) in
      Returns-mono (prepend z l o m) linked
        λ done m' links. Links-Grown m l z o [] xs ring some_address unused done m' refl after links

module _ (m : Memory) (l z o : Ptr) (xs : List Ptr) (e : Ptr) (ys : List Ptr)
    (ring : IsRing m l (xs ++ e ∷ ys)) (some_address : z ≢ null) (unused : m.live z ≡ false) where
  outside : has z (l ∷ xs ++ e ∷ ys) ≡ false
  outside = not-has_of_dead m z (l ∷ xs ++ e ∷ ys) unused ring.alive

  live_at : (a : Ptr) → has a (l ∷ xs ++ e ∷ ys) ≡ true → valid m a ≡ true
  live_at a = valid_of_has m a (l ∷ xs ++ e ∷ ys) ring.alive

  e_inside : has e (l ∷ xs ++ e ∷ ys) ≡ true
  e_inside = has-head_of_part l xs (e ∷ ys)

  -- LinkedListInsertAfter at an element `e` of the list, with an unused address `z` from `malloc`,
  -- returns TRUE and puts `z` directly behind `e`; `z` holds the object, the count is one more
  -- modulo 2^32, and nothing outside the list and `z` has changed.
  pub insert_after-Grown :
      Returns (insert_after z l o e m) (Adds m l (xs ++ e ∷ ys) (xs ++ e ∷ z ∷ ys) z o)
  insert_after-Grown =
      let front : List Ptr = xs ++ e ∷ [] in
      let ring' : IsRing m l (front ++ ys) = rw (append_assoc xs (e ∷ []) ys) ring in
      let (before, after) = IsRing-neighbours m l xs e ys ring in
      let in_list : has (m.next e) (l ∷ xs ++ e ∷ ys) ≡ true =
        ap (λ (a : Ptr). has a (l ∷ xs ++ e ∷ ys)) after ∙ has-head_of_behind l xs e ys in
      let linked : Returns (insert_after z l o e m) (Links m l e (m.next e) z o) =
        insert_after-Links m l z o ring.alive.0 some_address (ground (arith, outside)) e
          (live_at e e_inside) (live_at (m.next e) in_list)
          (ne_of_has z e (l ∷ xs ++ e ∷ ys) outside e_inside)
          (ne_of_has z _ (l ∷ xs ++ e ∷ ys) outside in_list) in
      Returns-mono (insert_after z l o e m) linked λ done m' links.
        rw (append_assoc xs (e ∷ []) ys, append_assoc xs (e ∷ []) (z ∷ ys)) at
          (Links-Grown m l z o front ys ring' some_address unused done m'
            (sym (last_of-snoc l xs e)) after links)

  -- LinkedListInsertBefore at an element `e` of the list, with an unused address `z` from `malloc`,
  -- returns TRUE and puts `z` directly in front of `e`; `z` holds the object, the count is one more
  -- modulo 2^32, and nothing outside the list and `z` has changed.
  pub insert_before-Grown :
      Returns (insert_before z l o e m) (Adds m l (xs ++ e ∷ ys) (xs ++ z ∷ e ∷ ys) z o)
  insert_before-Grown =
      let (before, after) = IsRing-neighbours m l xs e ys ring in
      let in_list : has (m.prev e) (l ∷ xs ++ e ∷ ys) ≡ true =
        ap (λ (a : Ptr). has a (l ∷ xs ++ e ∷ ys)) before ∙ has-last_of_part l xs (e ∷ ys) in
      let linked : Returns (insert_before z l o e m) (Links m l (m.prev e) e z o) =
        insert_before-Links m l z o ring.alive.0 some_address (ground (arith, outside)) e
          (live_at e e_inside) (live_at (m.prev e) in_list)
          (ne_of_has z e (l ∷ xs ++ e ∷ ys) outside e_inside)
          (ne_of_has z _ (l ∷ xs ++ e ∷ ys) outside in_list) in
      Returns-mono (insert_before z l o e m) linked λ done m' links.
        Links-Grown m l z o xs (e ∷ ys) ring some_address unused done m' before refl links
