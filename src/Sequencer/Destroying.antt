-- ===== src/Sequencer/Destroying.antt =====
-- sequencer_destroy in the store.
use ucp.Common.{
  ℕ, zero, suc, ◌<◌, ◌≡◌, refl, sym, arith, true, false, Option, none, List, [], ◌∷◌, ◌++◌,
  append_assoc, map, ◌==◌, length, ok, if◌then◌else◌, Bool-cases, inl, inr,
}
use ucp.LinkedList.Memory.{Ptr, null, Memory, update, valid, Returns-cases}
use ucp.LinkedList.Ops as LL
use ucp.LinkedList.Ring.{has, IsRing, head_of, Distinct, ne_of_has}
use ucp.LinkedList.Taking.{Emptied, unlink_all-Shrunk}
use ucp.Sequencer.Ops.{Item}
use ucp.Sequencer.Store.{Store}
use ucp.Sequencer.Loops.{free_loop, destroy}
use ucp.Sequencer.Stored.{range_of, Held, Held-frame, Separate, IsRanges, length-Held}
use ucp.Sequencer.Reading.{is_address, object_at, next_at, first_at}

-- The ranges without those at some addresses.
abbrev without : List Ptr → (Ptr → Option Item) → Ptr → Option Item
without [] items = items
without (p ∷ ps) items = without ps (update items p none)

without_lem :
    (ps : List Ptr) (items : Ptr → Option Item) (p : Ptr)
    → without ps items p ≡ (if has p ps then none else items p)
without_lem [] items p = refl
without_lem (q ∷ ps) items p =
    let rest = without_lem ps (update items q none) p in
    elim (Bool-cases (has p ps)) [ inl inside ↦ ground arith | inr outside ↦ ground arith ]

objects_apart :
    (obj : Ptr → Ptr) (p : Ptr) (xs : List Ptr)
    → ((a : Ptr) → has a xs ≡ true → (obj a == p) ≡ false)
    → has p (map obj xs) ≡ false
objects_apart obj p [] apart = refl
objects_apart obj p (x ∷ xs) apart =
    ground
      (arith, apart x (ground arith), objects_apart obj p xs (λ a inside. apart a (ground arith)))

-- Other elements of the list hold other objects than its first one.
later_object :
    (obj : Ptr → Ptr) (x : Ptr) (xs : List Ptr)
    → Separate obj (x ∷ xs)
    → has x xs ≡ false
    → (a : Ptr) → has a xs ≡ true
    → (obj a == obj x) ≡ false
later_object obj x xs separate out a inside = elim (Bool-cases (obj a == obj x)) [
  | inl same ↦
      let e : a ≡ x = separate a x (ground arith) (ground arith) (ground arith) in
      absurd (ne_of_has x a xs out inside (sym e))
  | inr other ↦ other
]

free_loop_lem :
    (k : ℕ) (seq : Ptr) (s : Store) (xs ys : List Ptr) (js : List Item)
    → IsRing s.memory seq (xs ++ ys)
    → Held (range_of s) ys js
    → Separate s.memory.obj ys
    → Distinct ys
    → length js < k
    → free_loop k seq (head_of ys null) s
      ≡ ok (tt, record s { items = without (map s.memory.obj ys) s.items })
unfolding free_loop
free_loop_lem zero seq s xs ys js ring held separate distinct enough = absurd (omega arith)
free_loop_lem (suc k) seq s xs [] [] ring held separate distinct enough = refl
free_loop_lem (suc k) seq s xs [] (j ∷ js) ring held separate distinct enough = absurd held
free_loop_lem (suc k) seq s xs (y ∷ ys) [] ring held separate distinct enough = absurd held
free_loop_lem (suc k) seq s xs (y ∷ ys) (j ∷ js) ring (here, held) separate (out, distinct) enough =
    let s' : Store = record s { items = update s.items (s.memory.obj y) none } in
    let other = later_object s.memory.obj y ys separate out in
    let ring' : IsRing s.memory seq ((xs ++ y ∷ []) ++ ys) =
      rw (append_assoc xs (y ∷ []) ys) ring in
    let held' : Held (range_of s') ys js =
      Held-frame (range_of s) (range_of s') ys js (λ a inside. rw (other a inside)) held in
    let rest =
      free_loop_lem k seq s' (xs ++ y ∷ []) ys js ring' held'
        (λ a b in_a in_b same. separate a b (ground arith) (ground arith) same) distinct
        (omega arith) in
    rw
      (
        is_address seq s xs y ys ring,
        object_at seq s xs y ys ring,
        here,
        next_at seq s' xs y ys ring,
      )
      rest

-- What is left of the store when the sequencer at `seq` with the elements `xs` is freed: `xs`, their
-- ranges and the sequencer are free, and all else is allocated as it was.
pub record IsFreed (seq : Ptr) (xs : List Ptr) (s s' : Store) : Type 0 where
  pub elements :
      (a : Ptr) → s'.memory.live a ≡ (if has a (seq ∷ xs) then false else s.memory.live a)
  pub ranges : (p : Ptr) → s'.items p ≡ (if has p (map s.memory.obj xs) then none else s.items p)

Emptied-live :
    (m m' : Memory) (seq : Ptr) (xs : List Ptr)
    → Emptied m seq xs tt m'
    → (a : Ptr) → update m'.live seq false a ≡ (if has a (seq ∷ xs) then false else m.live a)
Emptied-live m m' seq xs (shrunk, _) a = elim (Bool-cases (a == seq)) [
  | inl anchor ↦ rw (anchor)
  | inr other ↦ elim (Bool-cases (has a xs)) [
    | inl inside ↦ rw (other, inside) (shrunk.freed a inside)
    | inr outside ↦ rw (other, outside) ((shrunk.same a (ground arith)).live)
  ]
]

-- On a store that holds a sequencer in the elements `xs`, with one round more than there are ranges,
-- sequencer_destroy comes to its end without a fault, so that nothing is freed twice or read after it
-- has been freed; then the elements, their ranges and the sequencer are free, and nothing else is.
pub destroy-IsFreed :
    (fuel : ℕ) (seq : Ptr) (s : Store) (xs : List Ptr) (is : List Item)
    → IsRanges seq s xs is
    → length is < fuel
    → (s' : Store) × (destroy fuel seq s ≡ ok (tt, s')) × IsFreed seq xs s s'
unfolding destroy
destroy-IsFreed fuel seq s xs is h enough =
    let same = length-Held (range_of s) xs is h.held in
    let (_, m', run, emptied) =
      Returns-cases (LL.unlink_all fuel seq s.memory)
        (unlink_all-Shrunk fuel s.memory seq xs h.ring h.counted (omega arith)) in
    let at_anchor : valid m' seq ≡ true = emptied.0.ring.alive.0 in
    let looped =
      free_loop_lem fuel seq s [] xs is h.ring h.held h.separate h.ring.distinct.1 enough in
    (
      record s {
        memory = record m' { live = update m'.live seq false };
        items = without (map s.memory.obj xs) s.items;
      },
      rw (first_at seq s xs h.ring, looped, run, at_anchor),
      record {
        elements = Emptied-live s.memory m' seq xs emptied;
        ranges = without_lem (map s.memory.obj xs) s.items;
      },
    )
