-- ===== src/LinkedList/Insert.antt =====
-- Linking a new element into a ring, as a change of pointers, whatever the order of the writes.
use ucp.Common.{◌≡◌, ◌≢◌, true, false, List, [], ◌∷◌, ◌++◌, All, arith, ◌==◌, if◌then◌else◌}
use ucp.Common.Words.{succ32}
use ucp.LinkedList.Memory.{Ptr, null, Memory, update, valid}
use ucp.LinkedList.Ring.{
  has, Distinct, Chain, IsRing, last_of, head_of, has-append, has-last_of, Chain-frame,
}

-- `z`, which holds `o`, has been linked in between `u` and `v` in the list at `l`.
pub record Inserted (m m' : Memory) (l u v z o : Ptr) : Type 0 where
  pub next : (a : Ptr) → m'.next a ≡ (if a == z then v else (if a == u then z else m.next a))
  pub prev : (a : Ptr) → m'.prev a ≡ (if a == z then u else (if a == v then z else m.prev a))
  pub obj : (a : Ptr) → m'.obj a ≡ update m.obj z o a
  pub live : (a : Ptr) → m'.live a ≡ update m.live z true a
  pub num_members :
      (a : Ptr) → m'.num_members a ≡ update m.num_members l (succ32 (m.num_members l)) a

pub has-head_of : (a : Ptr) (ys : List Ptr) (v : Ptr) → a ≢ v → has a ys ≡ false → a ≢ head_of ys v
has-head_of a [] v ne out = ne
has-head_of a (y ∷ ys) v ne out = ground arith

module _ (n p n' p' : Ptr → Ptr) (v z : Ptr) where
  Chain-insert :
      (u : Ptr) (xs ys : List Ptr)
      → ((a : Ptr)
          → n' a ≡ (if a == z then head_of ys v else (if a == last_of u xs then z else n a)))
      → ((a : Ptr)
          → p' a ≡ (if a == z then last_of u xs else (if a == head_of ys v then z else p a)))
      → Distinct (u ∷ xs ++ ys)
      → has v (xs ++ ys) ≡ false
      → has z (u ∷ xs ++ ys) ≡ false
      → z ≢ v
      → Chain n p u (xs ++ ys) v
      → Chain n' p' u (xs ++ z ∷ ys) v
  Chain-insert u [] [] hn hp d out new ne c =
      (ground (arith, hn u), ground (arith, hp z), (ground (arith, hn z), ground (arith, hp v)))
  Chain-insert u [] (y ∷ ys) hn hp (du, (dy, dys)) out new ne (e, f, c) = (
    ground (arith, hn u),
    ground (arith, hp z),
    (
      ground (arith, hn z),
      ground (arith, hp y),
      Chain-frame n p n' p' y ys v (λ a h. ground (arith, hn a))
          (λ a h. ground (arith, hp a, has-append a ys (v ∷ []))) c,
    ),
  )
  Chain-insert u (x ∷ xs) ys hn hp (du, d) out new ne (e, f, c) = (
    ground (arith, hn u, has-last_of x xs, has-append u xs ys),
    ground (arith, hp x, has-head_of x ys v, has-append x xs ys, d.0),
    Chain-insert x xs ys hn hp d (ground arith) (ground arith) ne c,
  )

All-valid :
    (m m' : Memory) (z : Ptr) (xs : List Ptr)
    → ((a : Ptr) → m'.live a ≡ update m.live z true a)
    → All (λ a. valid m a ≡ true) xs
    → All (λ a. valid m' a ≡ true) xs
All-valid m m' z [] h all = tt
All-valid m m' z (x ∷ xs) h (v, all) = (ground (arith, h x), All-valid m m' z xs h all)

pub All-insert {κ} :
    (P : Ptr → Type κ) (xs ys : List Ptr) (z : Ptr) → P z → All P (xs ++ ys) → All P (xs ++ z ∷ ys)
All-insert P [] ys z pz all = (pz, all)
All-insert P (x ∷ xs) ys z pz (px, all) = (px, All-insert P xs ys z pz all)

Distinct-insert :
    (xs ys : List Ptr) (z : Ptr)
    → has z (xs ++ ys) ≡ false
    → Distinct (xs ++ ys)
    → Distinct (xs ++ z ∷ ys)
Distinct-insert [] ys z new d = (new, d)
Distinct-insert (x ∷ xs) ys z new (out, d) = (
  ground (arith, has-append x xs ys, has-append x xs (z ∷ ys)),
  Distinct-insert xs ys z (ground arith) d,
)

-- The ring after the change has the new element at its place.
pub Inserted-IsRing :
    (m m' : Memory) (l : Ptr) (xs ys : List Ptr) (z o : Ptr)
    → IsRing m l (xs ++ ys)
    → z ≢ null
    → has z (l ∷ xs ++ ys) ≡ false
    → Inserted m m' l (last_of l xs) (head_of ys l) z o
    → IsRing m' l (xs ++ z ∷ ys)
Inserted-IsRing m m' l xs ys z o ring some_address new ins = record {
  chain =
      Chain-insert m.next m.prev m'.next m'.prev l z l xs ys ins.next ins.prev ring.distinct
        ring.distinct.0 new (ground arith) ring.chain;
  distinct = Distinct-insert (l ∷ xs) ys z new ring.distinct;
  alive =
      All-insert (λ a. valid m' a ≡ true) (l ∷ xs) ys z (ground (arith, ins.live z))
        (All-valid m m' z (l ∷ xs ++ ys) ins.live ring.alive);
}
