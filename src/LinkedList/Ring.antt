-- ===== src/LinkedList/Ring.antt =====
-- The shape of a linked list in memory: a ring through the anchor, read forwards and backwards.
use ucp.Common.{◌≡◌, ◌≢◌, refl, ap, Bool, true, false, ◌||◌, List, [], ◌∷◌, ◌++◌, All, arith, ◌==◌}
use ucp.LinkedList.Memory.{Ptr, Memory, valid}

abbrev pub has : Ptr → List Ptr → Bool
has a [] = false
has a (x ∷ xs) = (a == x) || has a xs

abbrev pub Distinct : List Ptr → Type 0
Distinct [] = Unit {0}
Distinct (x ∷ xs) = (has x xs ≡ false) × Distinct xs

-- From `u` the `next` pointers lead through `xs` to `v`, and the `prev` pointers lead back.
abbrev pub Chain : (next prev : Ptr → Ptr) → Ptr → List Ptr → Ptr → Type 0
Chain next prev u [] v = (next u ≡ v) × (prev v ≡ u)
Chain next prev u (x ∷ xs) v = (next u ≡ x) × (prev x ≡ u) × Chain next prev x xs v

-- The elements of the list at `l` are `xs`, in order.
pub record IsRing (m : Memory) (l : Ptr) (xs : List Ptr) : Type 0 where
  pub chain : Chain m.next m.prev l xs l
  pub distinct : Distinct (l ∷ xs)
  pub alive : All (λ a. valid m a ≡ true) (l ∷ xs)

-- The last element, or the anchor; the first element, or the anchor.
abbrev pub last_of : Ptr → List Ptr → Ptr
last_of u [] = u
last_of u (x ∷ xs) = last_of x xs

abbrev pub head_of : List Ptr → Ptr → Ptr
head_of [] v = v
head_of (x ∷ xs) v = x

pub has-append : (a : Ptr) (xs ys : List Ptr) → has a (xs ++ ys) ≡ (has a xs || has a ys)
has-append a [] ys = refl
has-append a (x ∷ xs) ys = ground (arith, has-append a xs ys)

-- A chain is unaffected where the pointers that it is made of stay.
pub Chain-frame :
    (n p n' p' : Ptr → Ptr) (u : Ptr) (xs : List Ptr) (v : Ptr)
    → ((a : Ptr) → has a (u ∷ xs) ≡ true → n' a ≡ n a)
    → ((a : Ptr) → has a (xs ++ v ∷ []) ≡ true → p' a ≡ p a)
    → Chain n p u xs v
    → Chain n' p' u xs v
Chain-frame n p n' p' u [] v sn sp (e, f) = ground (arith, sn u, sp v)
Chain-frame n p n' p' u (x ∷ xs) v sn sp (e, f, c) = (
  ground (arith, sn u),
  ground (arith, sp x),
  Chain-frame n p n' p' x xs v (λ a h. sn a (ground arith)) (λ a h. sp a (ground arith)) c,
)

-- A chain through `x` is one chain to `x` and one from it.
pub Chain-split :
    (n p : Ptr → Ptr) (u : Ptr) (xs : List Ptr) (x : Ptr) (ys : List Ptr) (v : Ptr)
    → Chain n p u (xs ++ x ∷ ys) v
    → Chain n p u xs x × Chain n p x ys v
Chain-split n p u [] x ys v (e, f, c) = ((e, f), c)
Chain-split n p u (w ∷ xs) x ys v (e, f, c) =
    let (before, after) = Chain-split n p w xs x ys v c in ((e, f, before), after)

pub Chain-join :
    (n p : Ptr → Ptr) (u : Ptr) (xs : List Ptr) (x : Ptr) (ys : List Ptr) (v : Ptr)
    → Chain n p u xs x
    → Chain n p x ys v
    → Chain n p u (xs ++ x ∷ ys) v
Chain-join n p u [] x ys v (e, f) c = (e, f, c)
Chain-join n p u (w ∷ xs) x ys v (e, f, b) c = (e, f, Chain-join n p w xs x ys v b c)

-- Both ends of a chain.
pub Chain-ends :
    (n p : Ptr → Ptr) (u : Ptr) (xs : List Ptr) (v : Ptr)
    → Chain n p u xs v
    → (n u ≡ head_of xs v) × (p v ≡ last_of u xs)
Chain-ends n p u [] v c = c
Chain-ends n p u (x ∷ xs) v (e, f, c) = (e, (Chain-ends n p x xs v c).1)

pub Distinct-split :
    (xs ys : List Ptr)
    → Distinct (xs ++ ys)
    → Distinct xs × Distinct ys × ((a : Ptr) → has a xs ≡ true → has a ys ≡ false)
Distinct-split [] ys d = (tt, d, λ a h. cc)
Distinct-split (x ∷ xs) ys (fresh, d) =
    let (dx, dy, apart) = Distinct-split xs ys d in
    (
      (ground (arith, has-append x xs ys), dx),
      dy,
      λ a h. ground (arith, has-append x xs ys, apart a),
    )

pub Distinct-join :
    (xs ys : List Ptr)
    → Distinct xs
    → Distinct ys
    → ((a : Ptr) → has a xs ≡ true → has a ys ≡ false)
    → Distinct (xs ++ ys)
Distinct-join [] ys dx dy apart = dy
Distinct-join (x ∷ xs) ys (fresh, dx) dy apart = (
  ground (arith, has-append x xs ys, apart x),
  Distinct-join xs ys dx dy (λ a h. apart a (ground arith)),
)

pub last_of-snoc : (u : Ptr) (xs : List Ptr) (e : Ptr) → last_of u (xs ++ e ∷ []) ≡ e
last_of-snoc u [] e = refl
last_of-snoc u (x ∷ xs) e = last_of-snoc x xs e

-- The ends of a list are among its addresses.
pub has-last_of : (x : Ptr) (xs : List Ptr) → has (last_of x xs) (x ∷ xs) ≡ true
has-last_of x [] = ground arith
has-last_of x (y ∷ xs) = ground (arith, has-last_of y xs)

pub has-last_of_part : (l : Ptr) (xs ys : List Ptr) → has (last_of l xs) (l ∷ xs ++ ys) ≡ true
has-last_of_part l [] ys = ground arith
has-last_of_part l (x ∷ xs) ys = ground (arith, has-last_of_part x xs ys)

pub has-head_of_part : (l : Ptr) (xs ys : List Ptr) → has (head_of ys l) (l ∷ xs ++ ys) ≡ true
has-head_of_part l xs [] = ground arith
has-head_of_part l xs (y ∷ ys) = ground (arith, has-append y xs (y ∷ ys))

pub ne_of_has : (z a : Ptr) (xs : List Ptr) → has z xs ≡ false → has a xs ≡ true → z ≢ a
ne_of_has z a xs out inside e = let same : has z xs ≡ has a xs = ap (λ (t : Ptr). has t xs) e in cc

pub has-head_of_behind :
    (l : Ptr) (xs : List Ptr) (e : Ptr) (ys : List Ptr)
    → has (head_of ys l) (l ∷ xs ++ e ∷ ys) ≡ true
has-head_of_behind l xs e [] = ground arith
has-head_of_behind l xs e (y ∷ ys) = ground (arith, has-append y xs (e ∷ y ∷ ys))
