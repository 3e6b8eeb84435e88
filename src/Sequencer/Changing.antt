-- ===== src/Sequencer/Changing.antt =====
-- The three changes of a list of ranges in the store: a range is changed, taken out, or put in.
use ucp.Common.{
  suc, ◌%◌, ◌≡◌, refl, sym, ap, ◌∙◌, arith, true, false, none, some, List, ◌∷◌, ◌++◌, ◌==◌, length,
  length-append, ok, Bool-cases, inl, inr,
}
use ucp.Common.Words.{u32_mod}
use ucp.LinkedList.Memory.{Ptr, Memory, update, Returns-cases}
use ucp.LinkedList.Ops as LL
use ucp.LinkedList.Ring.{has, has-append, IsRing, ne_of_has}
use ucp.LinkedList.Remove.{Distinct-remove}
use ucp.LinkedList.Taking.{unlink-Shrunk}
use ucp.LinkedList.Adding.{Grown}
use ucp.LinkedList.Frame.{not-has_of_dead}
use ucp.Sequencer.Ops.{Item}
use ucp.Sequencer.Store.{Store, set_item, free_item}
use ucp.Sequencer.Stored.{
  range_of, Held, Separate, IsRanges, Held-frame, Held-append, Held-split, Held-some,
}

-- A list of ranges around one of its elements.
pub record IsAround (seq : Ptr) (s : Store) (xs : List Ptr) (is : List Item) (x : Ptr) (i : Item)
    (ys : List Ptr) (js : List Item) : Type 0 where
  pub ring : IsRing s.memory seq (xs ++ x ∷ ys)
  pub front : Held (range_of s) xs is
  pub here : range_of s x ≡ some i
  pub back : Held (range_of s) ys js
  pub separate : Separate s.memory.obj (xs ++ x ∷ ys)
  pub counted : s.memory.num_members seq ≡ length (xs ++ x ∷ ys) % u32_mod

abbrev pub set_at : Ptr → Item → Store → Store
set_at p i s = record s { items = update s.items p (some i) }

pub IsAround-of :
    (seq : Ptr) (s : Store) (xs : List Ptr) (is : List Item) (x : Ptr) (i : Item) (ys : List Ptr)
    (js : List Item)
    → IsRanges seq s (xs ++ x ∷ ys) (is ++ i ∷ js)
    → length xs ≡ length is
    → IsAround seq s xs is x i ys js
IsAround-of seq s xs is x i ys js h same =
    let (front, (here, back)) = Held-split (range_of s) xs is (x ∷ ys) (i ∷ js) same h.held in
    record {
      ring = h.ring;
      front = front;
      here = here;
      back = back;
      separate = h.separate;
      counted = h.counted;
    }

module _ (seq : Ptr) (s : Store) (xs : List Ptr) (is : List Item) (x : Ptr) (i : Item)
    (ys : List Ptr) (js : List Item) (h : IsAround seq s xs is x i ys js) where
  pub IsAround-IsRanges : IsRanges seq s (xs ++ x ∷ ys) (is ++ i ∷ js)
  IsAround-IsRanges = record {
    ring = h.ring;
    held = Held-append (range_of s) xs is (x ∷ ys) (i ∷ js) h.front (h.here, h.back);
    separate = h.separate;
    counted = h.counted;
  }

  -- The other elements.
  alone : has x (xs ++ ys) ≡ false
  alone = let (_, gone) = Distinct-remove (seq ∷ xs) ys x h.ring.distinct in ground arith

  within : (a : Ptr) → has a (xs ++ ys) ≡ true → has a (xs ++ x ∷ ys) ≡ true
  within a inside = ground (arith, has-append a xs ys, has-append a xs (x ∷ ys))

  at_x : has x (xs ++ x ∷ ys) ≡ true
  at_x = ground (arith, has-append x xs (x ∷ ys))

  -- They hold other objects.
  other_object : (a : Ptr) → has a (xs ++ ys) ≡ true → (s.memory.obj a == s.memory.obj x) ≡ false
  other_object a inside = elim (Bool-cases (s.memory.obj a == s.memory.obj x)) [
    | inl same ↦
        let e : a ≡ x = h.separate a x (within a inside) at_x (ground arith) in
        absurd (ne_of_has x a (xs ++ ys) alone inside (sym e))
    | inr other ↦ other
  ]

  in_front : (a : Ptr) → has a xs ≡ true → has a (xs ++ ys) ≡ true
  in_front a inside = ground (arith, has-append a xs ys)

  behind : (a : Ptr) → has a ys ≡ true → has a (xs ++ ys) ≡ true
  behind a inside = ground (arith, has-append a xs ys)

  -- The range of `x` is set.
  pub set_item_at :
      (i' : Item) → set_item (s.memory.obj x) i' s ≡ ok (tt, set_at (s.memory.obj x) i' s)
  set_item_at i' = rw h.here

  pub changed : (i' : Item) → IsAround seq (set_at (s.memory.obj x) i' s) xs is x i' ys js
  changed i' =
      let s' : Store = set_at (s.memory.obj x) i' s in
      record {
        ring = h.ring;
        front =
            Held-frame (range_of s) (range_of s') xs is
              (λ a inside. rw (other_object a (in_front a inside))) h.front;
        here = ground arith;
        back =
            Held-frame (range_of s) (range_of s') ys js
              (λ a inside. rw (other_object a (behind a inside))) h.back;
        separate = h.separate;
        counted = h.counted;
      }

  -- The element `x` is taken out, and its range is freed.
  pub removed :
      (m' : Memory) × (s' : Store) × (LL.unlink seq x s.memory ≡ ok (tt, m'))
      × (free_item (s.memory.obj x) (record s { memory = m' }) ≡ ok (tt, s'))
      × IsRanges seq s' (xs ++ ys) (is ++ js)
      × ((a : Ptr) → s'.memory.obj a ≡ s.memory.obj a)
      × (s'.max_seq_no ≡ s.max_seq_no)
      × (s'.expected_last_seq_no ≡ s.expected_last_seq_no)
  removed =
      let (_, m', run, (shrunk, count)) =
        Returns-cases (LL.unlink seq x s.memory) (unlink-Shrunk s.memory seq xs x ys h.ring) in
      let s' : Store = record s { memory = m'; items = update s.items (s.memory.obj x) none } in
      let fewer : length (xs ++ x ∷ ys) ≡ suc (length (xs ++ ys)) =
        omega (arith, length-append xs (x ∷ ys), length-append xs ys) in
      (
        m',
        s',
        run,
        rw h.here,
        record {
          ring = shrunk.ring;
          held =
              Held-append (range_of s') xs is ys js
                (Held-frame (range_of s) (range_of s') xs is
                  (λ a inside. rw (shrunk.held a, other_object a (in_front a inside))) h.front)
                (Held-frame (range_of s) (range_of s') ys js
                  (λ a inside. rw (shrunk.held a, other_object a (behind a inside))) h.back);
          separate = λ a b in_a in_b same.
              h.separate a b (within a in_a) (within b in_b)
                (sym (shrunk.held a) ∙ same ∙ shrunk.held b);
          counted = count ∙ rw (h.counted, fewer) (ground arith);
        },
        shrunk.held,
        refl,
        refl,
      )

-- A new element `z` with a new range at `f`.
module _ (seq : Ptr) (s : Store) (xs : List Ptr) (is : List Item) (z f : Ptr) (i : Item)
    (ys : List Ptr) (js : List Item) (h : IsRanges seq s (xs ++ ys) (is ++ js))
    (front : Held (range_of s) xs is) (back : Held (range_of s) ys js) (unused : s.items f ≡ none)
    (dead : s.memory.live z ≡ false) where
  in_use : (a : Ptr) → has a (xs ++ ys) ≡ true → (s.memory.obj a == f) ≡ false
  in_use a inside = elim (Bool-cases (s.memory.obj a == f)) [
    | inl same ↦
        let e : s.memory.obj a ≡ f = ground arith in
        absurd
          (Held-some (range_of s) (xs ++ ys) (is ++ js) a h.held inside (ap s.items e ∙ unused))
    | inr other ↦ other
  ]

  z_new : has z (xs ++ ys) ≡ false
  z_new = let out = not-has_of_dead s.memory z (seq ∷ xs ++ ys) dead h.ring.alive in ground arith

  old : (a : Ptr) → has a (xs ++ ys) ≡ true → (a == z) ≡ false
  old a inside = let apart = ne_of_has z a (xs ++ ys) z_new inside in ground arith

  old_or_z : (a : Ptr) → has a (xs ++ z ∷ ys) ≡ true → (a == z) ≡ false → has a (xs ++ ys) ≡ true
  old_or_z a inside other = ground (arith, has-append a xs ys, has-append a xs (z ∷ ys))

  pub inserted :
      (m' : Memory)
      → Grown s.memory m' seq (xs ++ ys) (xs ++ z ∷ ys) z f
      → IsRanges seq
          (record s { memory = m'; items = update s.items f (some i) })
          (xs ++ z ∷ ys)
          (is ++ i ∷ js)
  inserted m' grown =
      let s' : Store = record s { memory = m'; items = update s.items f (some i) } in
      let obj_z : m'.obj z ≡ f = grown.held z ∙ ground arith in
      let obj_old = λ (a : Ptr) (inside : has a (xs ++ ys) ≡ true).
        (let e : m'.obj a ≡ s.memory.obj a = grown.held a ∙ rw (old a inside) in e) in
      let still_held = λ (a : Ptr) (inside : has a (xs ++ ys) ≡ true).
        (let e : range_of s' a ≡ range_of s a = rw (obj_old a inside, in_use a inside) in e) in
      let more : length (xs ++ z ∷ ys) ≡ suc (length (xs ++ ys)) =
        omega (arith, length-append xs (z ∷ ys), length-append xs ys) in
      record {
        ring = grown.ring;
        held =
            Held-append (range_of s') xs is (z ∷ ys) (i ∷ js)
              (Held-frame (range_of s) (range_of s') xs is
                (λ a inside. still_held a (ground (arith, has-append a xs ys))) front)
              (
                rw obj_z (ground arith),
                Held-frame (range_of s) (range_of s') ys js
                    (λ a inside. still_held a (ground (arith, has-append a xs ys))) back,
              );
        separate = λ a b in_a in_b same. elim (Bool-cases (a == z)) [
          | inl new_a ↦ elim (Bool-cases (b == z)) [
            | inl new_b ↦ ground arith
            | inr old_b ↦
                let e : a ≡ z = ground arith in
                let in_b' : has b (xs ++ ys) ≡ true = old_or_z b in_b old_b in
                let clash : s.memory.obj b ≡ f =
                  sym (obj_old b in_b') ∙ sym same ∙ ap m'.obj e ∙ obj_z in
                absurd (ground (arith, in_use b in_b'))
          ]
          | inr old_a ↦
              let in_a' : has a (xs ++ ys) ≡ true = old_or_z a in_a old_a in
              elim (Bool-cases (b == z)) [
                | inl new_b ↦
                    let e : b ≡ z = ground arith in
                    let clash : s.memory.obj a ≡ f =
                      sym (obj_old a in_a') ∙ same ∙ ap m'.obj e ∙ obj_z in
                    absurd (ground (arith, in_use a in_a'))
                | inr old_b ↦
                    let in_b' : has b (xs ++ ys) ≡ true = old_or_z b in_b old_b in
                    h.separate a b in_a' in_b' (sym (obj_old a in_a') ∙ same ∙ obj_old b in_b')
              ]
        ];
        counted = grown.counted ∙ rw (h.counted, more) (ground arith);
      }
