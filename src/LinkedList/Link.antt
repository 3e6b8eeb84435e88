-- ===== src/LinkedList/Link.antt =====
-- The functions that add an element: each links the new element in between two neighbours.
use ucp.Common.{◌≡◌, ◌≢◌, refl, Bool, true, false, ◌&&◌, ok, arith, ◌==◌, inl, inr, Bool-cases}
use ucp.Common.Words.{succ32}
use ucp.LinkedList.Memory.{Ptr, null, Memory, update, valid, Returns}
use ucp.LinkedList.Ops.{is_empty, append, prepend, insert_after, insert_before}
use ucp.LinkedList.Insert.{Inserted}

-- The memory after the writes, the later ones outermost.
abbrev linked : Memory → (l u v z o : Ptr) → Memory
linked m l u v z o = record m {
  live = update m.live z true;
  obj = update m.obj z o;
  next = update (update m.next z v) u z;
  prev = update (update m.prev z u) v z;
  num_members = update m.num_members l (succ32 (m.num_members l));
}

-- In an empty list the anchor's pointers are written first.
abbrev linked_alone : Memory → (l z o : Ptr) → Memory
linked_alone m l z o = record m {
  live = update m.live z true;
  obj = update m.obj z o;
  next = update (update m.next l z) z l;
  prev = update (update m.prev l z) z l;
  num_members = update m.num_members l (succ32 (m.num_members l));
}

linked-Inserted :
    (m : Memory) (l u v z o : Ptr) → z ≢ u → z ≢ v → Inserted m (linked m l u v z o) l u v z o
linked-Inserted m l u v z o zu zv = record {
  next = λ a. ground arith;
  prev = λ a. ground arith;
  obj = λ a. refl;
  live = λ a. refl;
  num_members = λ a. refl;
}

linked_alone-Inserted :
    (m : Memory) (l z o : Ptr) → z ≢ l → Inserted m (linked_alone m l z o) l l l z o
linked_alone-Inserted m l z o zl = record {
  next = λ a. ground arith;
  prev = λ a. ground arith;
  obj = λ a. refl;
  live = λ a. refl;
  num_members = λ a. refl;
}

-- What a successful insertion returns.
abbrev pub Links : Memory → (l u v z o : Ptr) → Bool → Memory → Type 0
Links m l u v z o done m' = (done ≡ true) × Inserted m m' l u v z o

module _ (m : Memory) (l z o : Ptr) (vl : valid m l ≡ true) (nz : z ≢ null) (zl : z ≢ l) where
  append_alone :
      (m.next l == l && m.prev l == l) ≡ true → append z l o m ≡ ok (true, linked_alone m l z o)
  unfolding append is_empty
  append_alone alone = ground arith

  append_full :
      (m.next l == l && m.prev l == l) ≡ false
      → valid m (m.prev l) ≡ true
      → z ≢ m.prev l
      → append z l o m ≡ ok (true, linked m l (m.prev l) l z o)
  unfolding append is_empty
  append_full full vp zp = ground arith

  pub append-Links :
      valid m (m.prev l) ≡ true
      → z ≢ m.prev l
      → Returns (append z l o m) (Links m l (m.prev l) l z o)
  append-Links vp zp = elim (Bool-cases (m.next l == l && m.prev l == l)) [
    | inl alone ↦
        let only : m.prev l ≡ l = ground arith in
        rw (append_alone alone, only) (refl, linked_alone-Inserted m l z o zl)
    | inr full ↦ rw (append_full full vp zp) (refl, linked-Inserted m l (m.prev l) l z o zp zl)
  ]

  prepend_alone :
      (m.next l == l && m.prev l == l) ≡ true → prepend z l o m ≡ ok (true, linked_alone m l z o)
  unfolding prepend is_empty
  prepend_alone alone = ground arith

  prepend_full :
      (m.next l == l && m.prev l == l) ≡ false
      → valid m (m.next l) ≡ true
      → z ≢ m.next l
      → prepend z l o m ≡ ok (true, linked m l l (m.next l) z o)
  unfolding prepend is_empty
  prepend_full full vn zn = ground arith

  pub prepend-Links :
      valid m (m.next l) ≡ true
      → z ≢ m.next l
      → Returns (prepend z l o m) (Links m l l (m.next l) z o)
  prepend-Links vn zn = elim (Bool-cases (m.next l == l && m.prev l == l)) [
    | inl alone ↦
        let only : m.next l ≡ l = ground arith in
        rw (prepend_alone alone, only) (refl, linked_alone-Inserted m l z o zl)
    | inr full ↦ rw (prepend_full full vn zn) (refl, linked-Inserted m l l (m.next l) z o zl zn)
  ]

  insert_after-linked :
      (e : Ptr)
      → valid m e ≡ true
      → valid m (m.next e) ≡ true
      → z ≢ e
      → z ≢ m.next e
      → insert_after z l o e m ≡ ok (true, linked m l e (m.next e) z o)
  unfolding insert_after
  insert_after-linked e ve vn ze zn = ground arith

  pub insert_after-Links :
      (e : Ptr)
      → valid m e ≡ true
      → valid m (m.next e) ≡ true
      → z ≢ e
      → z ≢ m.next e
      → Returns (insert_after z l o e m) (Links m l e (m.next e) z o)
  insert_after-Links e ve vn ze zn =
      rw (insert_after-linked e ve vn ze zn) (refl, linked-Inserted m l e (m.next e) z o ze zn)

  insert_before-linked :
      (e : Ptr)
      → valid m e ≡ true
      → valid m (m.prev e) ≡ true
      → z ≢ e
      → z ≢ m.prev e
      → insert_before z l o e m ≡ ok (true, linked m l (m.prev e) e z o)
  unfolding insert_before
  insert_before-linked e ve vp ze zp = ground arith

  pub insert_before-Links :
      (e : Ptr)
      → valid m e ≡ true
      → valid m (m.prev e) ≡ true
      → z ≢ e
      → z ≢ m.prev e
      → Returns (insert_before z l o e m) (Links m l (m.prev e) e z o)
  insert_before-Links e ve vp ze zp =
      rw (insert_before-linked e ve vp ze zp) (refl, linked-Inserted m l (m.prev e) e z o zp ze)
