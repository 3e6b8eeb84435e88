-- ===== src/Server/Fifo.antt =====
-- The queue as a list: what is pushed comes out in the same order.
use ucp.Common.{
  ◌≡◌, ◌≢◌, refl, sym, ap, ◌∙◌, arith, true, false, ◌||◌, Option, none, some, List, [], ◌∷◌, ◌++◌,
  map, ok, ◌==◌, Bool-cases, inl, inr, ==→eq, ne→==,
}
use ucp.LinkedList.Memory.{Ptr, null, update, valid, Returns-cases}
use ucp.LinkedList.Ops.{append, unlink}
use ucp.LinkedList.Ring.{has, IsRing, ne_of_has}
use ucp.LinkedList.Frame.{not-has_of_dead}
use ucp.LinkedList.Adding.{append-Grown}
use ucp.LinkedList.Walk.{first_last_lem}
use ucp.LinkedList.Taking.{unlink-Shrunk}
use ucp.Server.Queue.{QueueItem, Store, allocated, push, pop}

-- The elements hold the items, each in a place of its own.
abbrev pub Stored : (Ptr → Ptr) → (Ptr → Option QueueItem) → List Ptr → List QueueItem → Type 0
Stored obj items [] [] = Unit {0}
Stored obj items [] (i ∷ is) = ⊥
Stored obj items (x ∷ xs) [] = ⊥
Stored obj items (x ∷ xs) (i ∷ is) =
    (items (obj x) ≡ some i) × (has (obj x) (map obj xs) ≡ false) × Stored obj items xs is

-- The queue at `l` has the items `is`, oldest first.
pub record IsQueue (s : Store) (l : Ptr) (is : List QueueItem) : Type 0 where
  pub elems : List Ptr
  pub ring : IsRing s.memory l elems
  pub stored : Stored s.memory.obj s.items elems is

map_same :
    (f g : Ptr → Ptr) (xs : List Ptr)
    → ((a : Ptr) → has a xs ≡ true → f a ≡ g a)
    → map f xs ≡ map g xs
map_same f g [] same = refl
map_same f g (x ∷ xs) same =
    rw (same x (ground arith), map_same f g xs (λ a h. same a (ground arith)))

Stored-frame :
    (obj obj' : Ptr → Ptr) (items items' : Ptr → Option QueueItem) (xs : List Ptr)
    (is : List QueueItem)
    → ((a : Ptr) → has a xs ≡ true → obj' a ≡ obj a)
    → ((p : Ptr) → has p (map obj xs) ≡ true → items' p ≡ items p)
    → Stored obj items xs is
    → Stored obj' items' xs is
Stored-frame obj obj' items items' [] [] held kept stored = tt
Stored-frame obj obj' items items' [] (i ∷ is) held kept stored = absurd stored
Stored-frame obj obj' items items' (x ∷ xs) [] held kept stored = absurd stored
Stored-frame obj obj' items items' (x ∷ xs) (i ∷ is) held kept (here, alone, later) =
    let same : obj' x ≡ obj x = held x (ground arith) in
    let others : map obj' xs ≡ map obj xs = map_same obj' obj xs (λ a h. held a (ground arith)) in
    (
      rw same (kept (obj x) (ground arith) ∙ here),
      rw (same, others) alone,
      Stored-frame obj obj' items items' xs is (λ a h. held a (ground arith))
          (λ p h. kept p (ground arith)) later,
    )

-- A place without an item is not in use.
unused_place :
    (obj : Ptr → Ptr) (items : Ptr → Option QueueItem) (xs : List Ptr) (is : List QueueItem)
    (p : Ptr)
    → Stored obj items xs is
    → items p ≡ none
    → has p (map obj xs) ≡ false
unused_place obj items [] [] p stored unused = refl
unused_place obj items [] (i ∷ is) p stored unused = absurd stored
unused_place obj items (x ∷ xs) [] p stored unused = absurd stored
unused_place obj items (x ∷ xs) (i ∷ is) p (here, alone, later) unused =
    let rest : has p (map obj xs) ≡ false = unused_place obj items xs is p later unused in
    elim (Bool-cases (p == obj x)) [
      | inl same ↦
          let clash : some i ≡ none = sym (ap items (==→eq p (obj x) same) ∙ here) ∙ unused in
          ground arith
      | inr apart ↦ rw apart rest
    ]

has-map_snoc :
    (obj : Ptr → Ptr) (xs : List Ptr) (z p : Ptr)
    → has p (map obj (xs ++ z ∷ [])) ≡ (has p (map obj xs) || p == obj z)
has-map_snoc obj [] z p = ground arith
has-map_snoc obj (x ∷ xs) z p = ground (arith, has-map_snoc obj xs z p)

Stored-snoc :
    (obj : Ptr → Ptr) (items : Ptr → Option QueueItem) (xs : List Ptr) (is : List QueueItem)
    (z : Ptr) (i : QueueItem)
    → Stored obj items xs is
    → items (obj z) ≡ some i
    → has (obj z) (map obj xs) ≡ false
    → Stored obj items (xs ++ z ∷ []) (is ++ i ∷ [])
Stored-snoc obj items [] [] z i stored here apart = (here, refl, tt)
Stored-snoc obj items [] (j ∷ is) z i stored here apart = absurd stored
Stored-snoc obj items (x ∷ xs) [] z i stored here apart = absurd stored
Stored-snoc obj items (x ∷ xs) (j ∷ is) z i (first_here, alone, later) here apart = (
  first_here,
  ground (arith, has-map_snoc obj xs z (obj x)),
  Stored-snoc obj items xs is z i later here (ground arith),
)

-- What sequencing_queue_pop gives, and what it leaves.
abbrev pub oldest : List QueueItem → Option QueueItem
oldest [] = none
oldest (i ∷ is) = some i

abbrev pub without_oldest : List QueueItem → List QueueItem
without_oldest [] = []
without_oldest (i ∷ is) = is

module _ (s : Store) (l : Ptr) where
  pop-Stored :
      (elems : List Ptr) (is : List QueueItem)
      → IsRing s.memory l elems
      → Stored s.memory.obj s.items elems is
      → (s' : Store) × (pop l s ≡ ok (oldest is, s')) × IsQueue s' l (without_oldest is)
  unfolding pop
  pop-Stored [] [] ring stored =
      (s, rw (first_last_lem s.memory l [] ring).0, record { elems = []; ring = ring; stored = tt })
  pop-Stored [] (i ∷ is) ring stored = absurd stored
  pop-Stored (x ∷ xs) [] ring stored = absurd stored
  pop-Stored (x ∷ xs) (i ∷ is) ring (here, alone, later) =
      let found : valid s.memory x ≡ true = ring.alive.1.0 in
      let x_address : (x == null) ≡ false = ground arith in
      let x_live : s.memory.live x ≡ true = ground arith in
      let (done, m', run, (shrunk, counted)) =
        Returns-cases (unlink l x s.memory) (unlink-Shrunk s.memory l [] x xs ring) in
      let got : allocated (s.items (s.memory.obj x)) ≡ ok i = ap allocated here in
      let s' : Store = record { memory = m'; items = update s.items (s.memory.obj x) none } in
      (
        s',
        rw ((first_last_lem s.memory l (x ∷ xs) ring).0, x_address, x_live, got, run),
        record {
          elems = xs;
          ring = shrunk.ring;
          stored =
              Stored-frame s.memory.obj m'.obj s.items s'.items xs is (λ a h. shrunk.held a)
                (λ p h. ground (arith, ne_of_has (s.memory.obj x) p (map s.memory.obj xs) alone h))
                later;
        },
      )

-- On a queue, sequencing_queue_pop returns the oldest item and leaves the others, in their order; it
-- returns nothing when the queue is empty, which it leaves empty.
pub pop-IsQueue :
    (s : Store) (l : Ptr) (is : List QueueItem)
    → IsQueue s l is
    → (s' : Store) × (pop l s ≡ ok (oldest is, s')) × IsQueue s' l (without_oldest is)
pop-IsQueue s l is q = pop-Stored s l q.elems is q.ring q.stored

-- On a queue with the items `is`, and with unused places from `malloc` for the new item and for its
-- element, sequencing_queue_push leaves the queue with the new item behind the others.
pub push-IsQueue :
    (s : Store) (l : Ptr) (is : List QueueItem) (item_at elem_at : Ptr) (i : QueueItem)
    → IsQueue s l is
    → item_at ≢ null
    → s.items item_at ≡ none
    → elem_at ≢ null
    → s.memory.live elem_at ≡ false
    → (s' : Store) × (push item_at elem_at l i.seq_no i.flag i.is_last s ≡ ok s')
      × IsQueue s' l (is ++ i ∷ [])
unfolding push
push-IsQueue s l is item_at elem_at i q item_found item_new elem_found elem_new =
    let (done, m', run, (added, grown)) =
      Returns-cases (append elem_at l item_at s.memory)
        (append-Grown s.memory l elem_at item_at q.elems q.ring elem_found elem_new) in
    let s' : Store = record { memory = m'; items = update s.items item_at (some i) } in
    let item_address : (item_at == null) ≡ false = ne→== item_at null item_found in
    let elem_apart : has elem_at (l ∷ q.elems) ≡ false =
      not-has_of_dead s.memory elem_at (l ∷ q.elems) elem_new q.ring.alive in
    let item_apart : has item_at (map s.memory.obj q.elems) ≡ false =
      unused_place s.memory.obj s.items q.elems is item_at q.stored item_new in
    let old_held : (a : Ptr) → has a q.elems ≡ true → m'.obj a ≡ s.memory.obj a = λ a h.
      ground (arith, grown.held a, ne_of_has elem_at a (l ∷ q.elems) elem_apart (ground arith)) in
    let new_held : m'.obj elem_at ≡ item_at = ground (arith, grown.held elem_at) in
    let objects : map m'.obj q.elems ≡ map s.memory.obj q.elems =
      map_same m'.obj s.memory.obj q.elems old_held in
    (
      s',
      rw (item_address, run),
      record {
        elems = q.elems ++ elem_at ∷ [];
        ring = grown.ring;
        stored =
            Stored-snoc m'.obj s'.items q.elems is elem_at i
              (Stored-frame s.memory.obj m'.obj s.items s'.items q.elems is old_held
                (λ p h. ground (arith, ne_of_has item_at p (map s.memory.obj q.elems) item_apart h))
                q.stored)
              (rw new_held (ground arith)) (rw (new_held, objects) item_apart);
      },
    )
