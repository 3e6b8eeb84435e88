-- ===== src/LinkedList/Remove.antt =====
-- Unlinking an element from a ring, as a change of pointers.
use ucp.Common.{◌≡◌, true, false, List, [], ◌∷◌, ◌++◌, All, arith, ◌==◌, if◌then◌else◌}
use ucp.Common.Words.{pred32}
use ucp.LinkedList.Memory.{Ptr, Memory, update, valid}
use ucp.LinkedList.Ring.{
  has, Distinct, Chain, IsRing, last_of, head_of, has-append, Chain-frame, Chain-split, Chain-ends,
  has-last_of,
}
use ucp.LinkedList.Insert.{has-head_of}

-- `x` has been taken out of the list at `l` and given back: its neighbours point at each other.
pub record Removed (m m' : Memory) (l x : Ptr) : Type 0 where
  pub next : (a : Ptr) → m'.next a ≡ (if a == m.prev x then m.next x else m.next a)
  pub prev : (a : Ptr) → m'.prev a ≡ (if a == m.next x then m.prev x else m.prev a)
  pub obj : (a : Ptr) → m'.obj a ≡ m.obj a
  pub live : (a : Ptr) → m'.live a ≡ update m.live x false a
  pub num_members :
      (a : Ptr) → m'.num_members a ≡ update m.num_members l (pred32 (m.num_members l)) a

module _ (n p n' p' : Ptr → Ptr) (v x : Ptr) where
  Chain-remove :
      (u : Ptr) (xs ys : List Ptr)
      → ((a : Ptr) → n' a ≡ (if a == last_of u xs then head_of ys v else n a))
      → ((a : Ptr) → p' a ≡ (if a == head_of ys v then last_of u xs else p a))
      → Distinct (u ∷ xs ++ x ∷ ys)
      → has v (xs ++ x ∷ ys) ≡ false
      → Chain n p u (xs ++ x ∷ ys) v
      → Chain n' p' u (xs ++ ys) v
  Chain-remove u [] [] hn hp d out c = (ground (arith, hn u), ground (arith, hp v))
  Chain-remove u [] (y ∷ ys) hn hp (du, (dx, (dy, dys))) out (e, f, (e', f', c)) = (
    ground (arith, hn u),
    ground (arith, hp y),
    Chain-frame n p n' p' y ys v (λ a h. ground (arith, hn a))
        (λ a h. ground (arith, hp a, has-append a ys (v ∷ []))) c,
  )
  Chain-remove u (w ∷ xs) ys hn hp (du, d) out (e, f, c) = (
    ground (arith, hn u, has-last_of w xs, has-append u xs (x ∷ ys)),
    ground (arith, hp w, has-head_of w ys v, has-append w xs (x ∷ ys), d.0),
    Chain-remove w xs ys hn hp d (ground arith) c,
  )

pub Distinct-remove :
    (xs ys : List Ptr) (x : Ptr)
    → Distinct (xs ++ x ∷ ys)
    → Distinct (xs ++ ys) × (has x (xs ++ ys) ≡ false)
Distinct-remove [] ys x (out, d) = (d, out)
Distinct-remove (w ∷ xs) ys x (out, d) =
    let (rest, gone) = Distinct-remove xs ys x d in
    (
      (ground (arith, has-append w xs ys, has-append w xs (x ∷ ys)), rest),
      ground (arith, has-append w xs (x ∷ ys)),
    )

All-remove :
    (m m' : Memory) (x : Ptr) (xs ys : List Ptr)
    → ((a : Ptr) → m'.live a ≡ update m.live x false a)
    → has x (xs ++ ys) ≡ false
    → All (λ a. valid m a ≡ true) (xs ++ x ∷ ys)
    → All (λ a. valid m' a ≡ true) (xs ++ ys)
All-remove m m' x [] [] h out all = tt
All-remove m m' x [] (y ∷ ys) h out (vx, (vy, all)) =
    (ground (arith, h y), All-remove m m' x [] ys h (ground arith) (vx, all))
All-remove m m' x (w ∷ xs) ys h out (v, all) =
    (ground (arith, h w), All-remove m m' x xs ys h (ground arith) all)

-- An element of a ring points at its neighbours.
pub IsRing-neighbours :
    (m : Memory) (l : Ptr) (xs : List Ptr) (x : Ptr) (ys : List Ptr)
    → IsRing m l (xs ++ x ∷ ys)
    → (m.prev x ≡ last_of l xs) × (m.next x ≡ head_of ys l)
IsRing-neighbours m l xs x ys ring =
    let (before, after) = Chain-split m.next m.prev l xs x ys l ring.chain in
    ((Chain-ends m.next m.prev l xs x before).1, (Chain-ends m.next m.prev x ys l after).0)

-- The ring after the change lacks just that element.
pub Removed-IsRing :
    (m m' : Memory) (l : Ptr) (xs : List Ptr) (x : Ptr) (ys : List Ptr)
    → IsRing m l (xs ++ x ∷ ys)
    → Removed m m' l x
    → IsRing m' l (xs ++ ys)
Removed-IsRing m m' l xs x ys ring rem =
    let (before, after) = IsRing-neighbours m l xs x ys ring in
    let (rest, gone) = Distinct-remove (l ∷ xs) ys x ring.distinct in
    record {
      chain =
          Chain-remove m.next m.prev m'.next m'.prev l x l xs ys
            (λ a. rw (before, after) at (rem.next a)) (λ a. rw (before, after) at (rem.prev a))
            ring.distinct ring.distinct.0 ring.chain;
      distinct = rest;
      alive = All-remove m m' x (l ∷ xs) ys rem.live gone ring.alive;
    }
