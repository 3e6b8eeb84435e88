-- ===== src/Sequencer/Inserting.antt =====
-- A new range in the store: the insertions of sequencer_add.
use mathlib.Core.Path.{subst}
use ucp.Common.{
  ℕ, ◌≡◌, ◌≢◌, refl, arith, Bool, true, false, none, List, [], ◌∷◌, ◌++◌, append_assoc, append-nil,
  ◌==◌,
}
use ucp.LinkedList.Memory.{Ptr, null, Returns-cases}
use ucp.LinkedList.Ops as LL
use ucp.LinkedList.Adding.{append-Grown, insert_before-Grown}
use ucp.Sequencer.Ops as Ops
use ucp.Sequencer.Ops.{Item}
use ucp.Sequencer.Store.{Store, Prog, ◌>>=◌, pure, on_list, create_range}
use ucp.Sequencer.Loops.{insert_between}
use ucp.Sequencer.Stored.{IsRanges}
use ucp.Sequencer.Changing.{IsAround, IsAround-IsRanges, set_at, inserted}
use ucp.Sequencer.Reading.{is_address, range_at, next_at}
use ucp.Sequencer.Merging.{Leaves, IsAround-next}

-- `f` and `z` are what `malloc` returns for a range and for an element: not NULL, and not in use.
pub record IsFresh (s : Store) (f z : Ptr) : Type 0 where
  pub range_address : f ≢ null
  pub no_range : s.items f ≡ none
  pub elem_address : z ≢ null
  pub no_elem : s.memory.live z ≡ false

module _ (seq : Ptr) (s : Store) (f z : Ptr) (fresh : IsFresh s f z) (n : ℕ) where
  abbrev new_range : Item
  new_range = Ops.create_range n n

  -- A range and an element for it, at the end of the list.
  pub appended_at :
      (xs : List Ptr) (is : List Item)
      → IsRanges seq s xs is
      → Leaves seq s
          ((create_range f n n >>= λ range_at.
              on_list (LL.append z seq range_at) >>= λ added. pure true)
            s)
          true
          (is ++ new_range ∷ [])
  unfolding create_range
  appended_at xs is h =
      let s₁ : Store = set_at f new_range s in
      let created : (f == null) ≡ false = ground (arith, fresh.range_address) in
      let (done, m', run, (_, grown)) =
        Returns-cases (LL.append z seq f s.memory)
          (append-Grown s.memory seq z f xs h.ring fresh.elem_address fresh.no_elem) in
      let h' : IsRanges seq s (xs ++ []) (is ++ []) = rw (append-nil, append-nil) h in
      (
        record s₁ { memory = m' },
        xs ++ z ∷ [],
        rw (created, run),
        inserted seq s xs is z f new_range [] [] h' h.held tt fresh.no_range fresh.no_elem m'
            (rw append-nil grown),
        refl,
        refl,
      )

  -- In front of an element.
  inserted_at :
      (xs : List Ptr) (is : List Item) (y : Ptr) (j : Item) (ys : List Ptr) (js : List Item)
      → IsAround seq s xs is y j ys js
      → Leaves seq s
          ((create_range f n n >>= λ range_at.
              on_list (LL.insert_before z seq range_at y) >>= λ added. pure true)
            s)
          true
          (is ++ new_range ∷ j ∷ js)
  unfolding create_range
  inserted_at xs is y j ys js h =
      let s₁ : Store = set_at f new_range s in
      let created : (f == null) ≡ false = ground (arith, fresh.range_address) in
      let (done, m', run, (_, grown)) =
        Returns-cases (LL.insert_before z seq f y s.memory)
          (insert_before-Grown s.memory seq z f xs y ys h.ring fresh.elem_address fresh.no_elem) in
      (
        record s₁ { memory = m' },
        xs ++ z ∷ y ∷ ys,
        rw (created, run),
        inserted seq s xs is z f new_range (y ∷ ys) (j ∷ js)
            (IsAround-IsRanges seq s xs is y j ys js h) h.front (h.here, h.back) fresh.no_range
            fresh.no_elem m' grown,
        refl,
        refl,
      )

  pub insert_between_fits :
      (rest : Prog Bool) (xs : List Ptr) (is : List Item) (x : Ptr) (i : Item) (ys : List Ptr)
      (js : List Item)
      → IsAround seq s xs is x i ys js
      → Ops.fits_between i js n ≡ true
      → Leaves seq s (insert_between f z seq x i n rest s) true (is ++ i ∷ new_range ∷ js)
  unfolding insert_between
  insert_between_fits rest xs is x i [] [] h fits =
      rw (next_at seq s xs x [] h.ring, fits)
        (subst
          (Leaves seq s
            ((create_range f n n >>= λ range_at.
                on_list (LL.append z seq range_at) >>= λ added. pure true)
              s)
            true)
          (append_assoc is (i ∷ []) (new_range ∷ []))
          (appended_at (xs ++ x ∷ []) (is ++ i ∷ []) (IsAround-IsRanges seq s xs is x i [] [] h)))
  insert_between_fits rest xs is x i [] (j ∷ js) h fits = absurd h.back
  insert_between_fits rest xs is x i (y ∷ ys) [] h fits = absurd h.back
  insert_between_fits rest xs is x i (y ∷ ys) (j ∷ js) h fits =
      let h_y = IsAround-next seq s xs is x i y j ys js h in
      let y_ring = h_y.ring in
      rw
        (
          next_at seq s xs x (y ∷ ys) h.ring,
          is_address seq s (xs ++ x ∷ []) y ys y_ring,
          range_at seq s (xs ++ x ∷ []) y ys y_ring j h_y.here,
          fits,
        )
        (subst
          (Leaves seq s
            ((create_range f n n >>= λ range_at.
                on_list (LL.insert_before z seq range_at y) >>= λ added. pure true)
              s)
            true)
          (append_assoc is (i ∷ []) (new_range ∷ j ∷ js))
          (inserted_at (xs ++ x ∷ []) (is ++ i ∷ []) y j ys js h_y))

  pub insert_between_past :
      (rest : Prog Bool) (xs : List Ptr) (is : List Item) (x : Ptr) (i : Item) (ys : List Ptr)
      (js : List Item)
      → IsAround seq s xs is x i ys js
      → Ops.fits_between i js n ≡ false
      → insert_between f z seq x i n rest s ≡ rest s
  unfolding insert_between
  insert_between_past rest xs is x i [] [] h past = rw (next_at seq s xs x [] h.ring, past)
  insert_between_past rest xs is x i [] (j ∷ js) h past = absurd h.back
  insert_between_past rest xs is x i (y ∷ ys) [] h past = absurd h.back
  insert_between_past rest xs is x i (y ∷ ys) (j ∷ js) h past =
      let h_y = IsAround-next seq s xs is x i y j ys js h in
      let y_ring = h_y.ring in
      rw (
        next_at seq s xs x (y ∷ ys) h.ring,
        is_address seq s (xs ++ x ∷ []) y ys y_ring,
        range_at seq s (xs ++ x ∷ []) y ys y_ring j h_y.here,
        past,
      )
