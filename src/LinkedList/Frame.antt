-- ===== src/LinkedList/Frame.antt =====
-- What a change to one list leaves alone, and what follows for the other lists of the memory.
use ucp.Common.{◌≡◌, ◌≢◌, refl, ap, true, false, List, [], ◌∷◌, ◌++◌, map, All, arith}
use ucp.LinkedList.Memory.{Ptr, Memory, valid}
use ucp.LinkedList.Ring.{has, IsRing, last_of, head_of, Chain-frame, has-append, has-last_of}
use ucp.LinkedList.Insert.{Inserted, has-head_of}
use ucp.LinkedList.Remove.{Removed, IsRing-neighbours}

-- All that is stored for the address `a` is the same in both memories.
pub record SameAt (m m' : Memory) (a : Ptr) : Type 0 where
  pub live : m'.live a ≡ m.live a
  pub obj : m'.obj a ≡ m.obj a
  pub next : m'.next a ≡ m.next a
  pub prev : m'.prev a ≡ m.prev a
  pub num_members : m'.num_members a ≡ m.num_members a

abbrev pub SameOutside : List Ptr → Memory → Memory → Type 0
SameOutside zs m m' = (a : Ptr) → has a zs ≡ false → SameAt m m' a

abbrev pub Disjoint : List Ptr → List Ptr → Type 0
Disjoint xs ys = (a : Ptr) → has a xs ≡ true → has a ys ≡ false

module _ (m m' : Memory) (zs : List Ptr) (same : SameOutside zs m m') where
  All-elsewhere :
      (ys : List Ptr)
      → Disjoint ys zs
      → All (λ a. valid m a ≡ true) ys
      → All (λ a. valid m' a ≡ true) ys
  All-elsewhere [] apart all = tt
  All-elsewhere (y ∷ ys) apart (v, all) = (
    ground (arith, same y (apart y (ground arith))),
    All-elsewhere ys (λ a h. apart a (ground arith)) all,
  )

  pub contents_elsewhere : (ys : List Ptr) → Disjoint ys zs → map m'.obj ys ≡ map m.obj ys
  contents_elsewhere [] apart = refl
  contents_elsewhere (y ∷ ys) apart =
      rw ((same y (apart y (ground arith))).obj) (
        ap (λ (os : List Ptr). m.obj y ∷ os)
          (contents_elsewhere ys (λ a h. apart a (ground arith))))

  -- A list that shares no element with what changed is the same list.
  pub IsRing-elsewhere :
      (k : Ptr) (ys : List Ptr) → Disjoint (k ∷ ys) zs → IsRing m k ys → IsRing m' k ys
  IsRing-elsewhere k ys apart ring = record {
    chain =
        Chain-frame m.next m.prev m'.next m'.prev k ys k (λ a h. (same a (apart a h)).next)
          (λ a h. (same a (apart a (ground (arith, has-append a ys (k ∷ []))))).prev) ring.chain;
    distinct = ring.distinct;
    alive = All-elsewhere (k ∷ ys) apart ring.alive;
  }

-- An address that is not allocated is in no list.
pub not-has_of_dead :
    (m : Memory) (z : Ptr) (xs : List Ptr)
    → m.live z ≡ false
    → All (λ a. valid m a ≡ true) xs
    → has z xs ≡ false
not-has_of_dead m z [] dead all = refl
not-has_of_dead m z (x ∷ xs) dead (v, all) = ground (arith, not-has_of_dead m z xs dead all)

pub valid_of_has :
    (m : Memory) (a : Ptr) (xs : List Ptr)
    → All (λ x. valid m x ≡ true) xs
    → has a xs ≡ true
    → valid m a ≡ true
valid_of_has m a [] all h = cc
valid_of_has m a (x ∷ xs) (v, all) h = ground (arith, valid_of_has m a xs all)

-- Outside of a list its last element and its first one are other addresses.
pub ends_inside :
    (a l : Ptr) (xs ys : List Ptr)
    → has a (l ∷ xs ++ ys) ≡ false
    → (a ≢ last_of l xs) × (a ≢ head_of ys l)
ends_inside a l xs ys out = (
  ground (arith, has-last_of l xs, has-append a xs ys),
  ground (arith, has-head_of a ys l, has-append a xs ys),
)

pub Inserted-SameOutside :
    (m m' : Memory) (l : Ptr) (xs ys : List Ptr) (z o : Ptr)
    → Inserted m m' l (last_of l xs) (head_of ys l) z o
    → SameOutside (z ∷ l ∷ xs ++ ys) m m'
Inserted-SameOutside m m' l xs ys z o ins a out =
    let (lo, hi) = ends_inside a l xs ys (ground arith) in
    record {
      live = ground (arith, ins.live a);
      obj = ground (arith, ins.obj a);
      next = ground (arith, ins.next a);
      prev = ground (arith, ins.prev a);
      num_members = ground (arith, ins.num_members a);
    }

pub Removed-SameOutside :
    (m m' : Memory) (l : Ptr) (xs : List Ptr) (x : Ptr) (ys : List Ptr)
    → IsRing m l (xs ++ x ∷ ys)
    → Removed m m' l x
    → SameOutside (l ∷ xs ++ x ∷ ys) m m'
Removed-SameOutside m m' l xs x ys ring rem a out =
    let (before, after) = IsRing-neighbours m l xs x ys ring in
    let (lo, _) = ends_inside a l xs (x ∷ ys) out in
    let (_, hi) = ends_inside a l (xs ++ x ∷ []) ys (
      ground (
        arith,
        has-append a xs (x ∷ ys),
        has-append a (xs ++ x ∷ []) ys,
        has-append a xs (x ∷ []),
      )) in
    record {
      live = ground (arith, rem.live a, has-append a xs (x ∷ ys));
      obj = rem.obj a;
      next = ground (arith, rem.next a);
      prev = ground (arith, rem.prev a);
      num_members = ground (arith, rem.num_members a);
    }
