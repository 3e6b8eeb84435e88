-- ===== src/LinkedList/Pair.antt =====
-- Two lists in one memory: a change to one of them leaves the other as it is.
use ucp.Common.{
  ◌≡◌, ◌≢◌, ap, ◌∙◌, true, false, Bool, Bool-cases, inl, inr, List, [], ◌∷◌, ◌++◌, arith, ok,
}
use ucp.LinkedList.Memory.{Ptr, null, Memory, update, Returns-cases}
use ucp.LinkedList.Ops.{append, unlink}
use ucp.LinkedList.Ring.{has, IsRing, has-append, ne_of_has}
use ucp.LinkedList.Frame.{Disjoint, IsRing-elsewhere, not-has_of_dead}
use ucp.LinkedList.Adding.{append-Grown}
use ucp.LinkedList.Taking.{unlink-Shrunk}

-- The list at `a` has the elements `xs` and the list at `b` the elements `ys`; they share none.
pub record AreRings (m : Memory) (a : Ptr) (xs : List Ptr) (b : Ptr) (ys : List Ptr) : Type 0 where
  pub ring : IsRing m a xs
  pub other_ring : IsRing m b ys
  pub apart : Disjoint (a ∷ xs) (b ∷ ys)

Disjoint-flip : (xs ys : List Ptr) → Disjoint xs ys → Disjoint ys xs
Disjoint-flip xs ys apart p inside = elim (Bool-cases (has p xs)) [
  | inl both ↦ ground (arith, apart p both)
  | inr outside ↦ outside
]

pub AreRings-flip :
    (m : Memory) (a : Ptr) (xs : List Ptr) (b : Ptr) (ys : List Ptr)
    → AreRings m a xs b ys
    → AreRings m b ys a xs
AreRings-flip m a xs b ys two = record {
  ring = two.other_ring;
  other_ring = two.ring;
  apart = Disjoint-flip (a ∷ xs) (b ∷ ys) two.apart;
}

-- LinkedListUnlink on the first of two lists.
pub unlink-AreRings :
    (m : Memory) (a : Ptr) (xs : List Ptr) (x : Ptr) (ys : List Ptr) (b : Ptr) (zs : List Ptr)
    → AreRings m a (xs ++ x ∷ ys) b zs
    → (m' : Memory) × (unlink a x m ≡ ok (tt, m'))
      × AreRings m' a (xs ++ ys) b zs
      × ((p : Ptr) → m'.obj p ≡ m.obj p)
unlink-AreRings m a xs x ys b zs two =
    let (done, m', run, (shrunk, counted)) =
      Returns-cases (unlink a x m) (unlink-Shrunk m a xs x ys two.ring) in
    (
      m',
      run,
      record {
        ring = shrunk.ring;
        other_ring =
            IsRing-elsewhere m m' (a ∷ xs ++ x ∷ ys) shrunk.same b zs
              (Disjoint-flip (a ∷ xs ++ x ∷ ys) (b ∷ zs) two.apart) two.other_ring;
        apart =
            λ p inside. two.apart p (ground (arith, has-append p xs ys, has-append p xs (x ∷ ys)));
      },
      shrunk.held,
    )

snoc_inside :
    (p z a : Ptr) (xs : List Ptr) → has p (a ∷ xs ++ z ∷ []) ≡ true → has p (a ∷ xs) ≡ false → p ≡ z
snoc_inside p z a xs inside new = ground (arith, has-append p xs (z ∷ []))

-- LinkedListAppend on the first of two lists, with an unused address from `malloc`.
pub append-AreRings :
    (m : Memory) (a : Ptr) (xs : List Ptr) (b : Ptr) (zs : List Ptr) (z o : Ptr)
    → AreRings m a xs b zs
    → z ≢ null
    → m.live z ≡ false
    → (m' : Memory) × (append z a o m ≡ ok (true, m'))
      × AreRings m' a (xs ++ z ∷ []) b zs
      × ((p : Ptr) → m'.obj p ≡ update m.obj z o p)
append-AreRings m a xs b zs z o two found unused =
    let (done, m', run, (added, grown)) =
      Returns-cases (append z a o m) (append-Grown m a z o xs two.ring found unused) in
    let elsewhere : has z (b ∷ zs) ≡ false =
      not-has_of_dead m z (b ∷ zs) unused two.other_ring.alive in
    (
      m',
      run ∙ ap (λ (t : Bool). ok (t, m')) added,
      record {
        ring = grown.ring;
        other_ring =
            IsRing-elsewhere m m' (z ∷ a ∷ xs) grown.same b zs
              (λ p inside. ground (
                arith,
                Disjoint-flip (a ∷ xs) (b ∷ zs) two.apart p inside,
                ne_of_has z p (b ∷ zs) elsewhere inside,
              ))
              two.other_ring;
        apart = λ p inside. elim (Bool-cases (has p (a ∷ xs))) [
          | inl old ↦ two.apart p old
          | inr new ↦
              let is_z : p ≡ z = snoc_inside p z a xs inside new in
              ap (λ (q : Ptr). has q (b ∷ zs)) is_z ∙ elsewhere
        ];
      },
      grown.held,
    )
