-- ===== src/Client/Moved.antt =====
-- A packet that leaves the in-flight window, dropped or moved behind those that wait.
use ucp.Common.{
  ℕ, ◌≡◌, ◌≢◌, refl, ap, ◌∙◌, arith, true, false, Option, none, some, List, [], ◌∷◌, ◌++◌, ok, ◌==◌,
  Bool-cases, inl, inr, ==-refl, All,
}
use ucp.Packet.Types.{Packet}
use ucp.LinkedList.Memory.{Ptr, null, Memory, update, valid}
use ucp.LinkedList.Ops.{append, unlink}
use ucp.LinkedList.Ring.{has, has-append, ne_of_has}
use ucp.LinkedList.Frame.{not-has_of_dead, valid_of_has}
use ucp.LinkedList.Pair.{AreRings, AreRings-flip, append-AreRings, unlink-AreRings}
use ucp.Client.Windows.{Client}
use ucp.Client.Held.{
  Held, IsClient, Held-frame, Held-append, has_seq, numbered, without, elem_of, IsFound,
  Held-IsFound,
}

abbrev pub listed : Option Packet → List Packet
listed none = []
listed (some p) = p ∷ []

-- A number that no packet of the window has.
pub absent :
    (n : ℕ) (obj : Ptr → Ptr) (packets : Ptr → Option Packet) (xs : List Ptr) (ps : List Packet)
    → Held obj packets xs ps
    → numbered n ps ≡ none
    → (elem_of n xs ps ≡ null) × (without n ps ≡ ps)
absent n obj packets [] [] held missing = (refl, refl)
absent n obj packets [] (p ∷ ps) held missing = absurd held
absent n obj packets (x ∷ xs) [] held missing = absurd held
absent n obj packets (x ∷ xs) (p ∷ ps) (here, held) missing = elim (Bool-cases (has_seq n p)) [
  | inl this ↦ absurd (ground arith)
  | inr other ↦
      let (e, f) = absent n obj packets xs ps held (rw other at missing) in
      rw other (e, ap (λ (qs : List Packet). p ∷ qs) f)
]

-- What malloc gives for a new element is none of the elements in use.
pub new_element :
    (m : Memory) (z o : Ptr) (xs : List Ptr) (a : Ptr)
    → m.live z ≡ false
    → All (λ x. valid m x ≡ true) xs
    → has a xs ≡ true
    → update m.obj z o a ≡ m.obj a
new_element m z o xs a dead alive inside =
    let other : z ≢ a = ne_of_has z a xs (not-has_of_dead m z xs dead alive) inside in ground arith

module _ (c : Client) (pending in_flight : Ptr) (ps qs : List Packet)
    (h : IsClient c pending in_flight ps qs) (n : ℕ) (p : Packet)
    (found : numbered n qs ≡ some p) where
  place : IsFound n p c.memory.obj c.packets h.flying qs
  place = Held-IsFound n p c.memory.obj c.packets h.flying qs h.flying_held found

  abbrev at : Ptr
  at = elem_of n h.flying qs

  split_rings : AreRings c.memory in_flight (place.before ++ at ∷ place.after) pending h.waiting
  split_rings =
      rw place.split at (AreRings-flip c.memory pending h.waiting in_flight h.flying h.rings)

  inside : has at (place.before ++ at ∷ place.after) ≡ true
  inside = ground (arith, has-append at place.before (at ∷ place.after))

  at_live : valid c.memory at ≡ true
  at_live =
      valid_of_has c.memory at (place.before ++ at ∷ place.after) split_rings.ring.alive.1 inside

  pub at_address : (at == null) ≡ false
  at_address = ground (arith, at_live)

  pub at_alive : c.memory.live at ≡ true
  at_alive = ground (arith, at_live)

  pub dropped :
      (m' : Memory) × (unlink in_flight at c.memory ≡ ok (tt, m'))
      × IsClient (record c { memory = m' }) pending in_flight ps (without n qs)
  dropped =
      let (m', run, two, same) =
        unlink-AreRings c.memory in_flight place.before at place.after pending h.waiting
          split_rings in
      (
        m',
        run,
        record {
          waiting = h.waiting;
          flying = place.before ++ place.after;
          rings = AreRings-flip m' in_flight (place.before ++ place.after) pending h.waiting two;
          waiting_held =
              Held-frame c.memory.obj m'.obj c.packets c.packets h.waiting ps (λ a i. same a)
                (λ a r e. e) h.waiting_held;
          flying_held =
              Held-frame c.memory.obj m'.obj c.packets c.packets (place.before ++ place.after)
                (without n qs) (λ a i. same a) (λ a r e. e) place.others;
          null_unused = h.null_unused;
        },
      )

  -- The packet is put at the end of the window at `pending`, with the new element `z`.
  pub moved :
      (z : Ptr)
      → z ≢ null
      → c.memory.live z ≡ false
      → (m1 m' : Memory) × (append z pending (c.memory.obj at) c.memory ≡ ok (true, m1))
        × (unlink in_flight at m1 ≡ ok (tt, m'))
        × IsClient (record c { memory = m' }) pending in_flight (ps ++ p ∷ []) (without n qs)
  moved z found_address unused =
      let ys : List Ptr = place.before ++ at ∷ place.after in
      let (m1, added, two1, obj1) =
        append-AreRings c.memory pending h.waiting in_flight ys z (c.memory.obj at)
          (AreRings-flip c.memory in_flight ys pending h.waiting split_rings) found_address
          unused in
      let (m', run, two, same) =
        unlink-AreRings m1 in_flight place.before at place.after pending (h.waiting ++ z ∷ [])
          (AreRings-flip m1 pending (h.waiting ++ z ∷ []) in_flight ys two1) in
      let obj' : (a : Ptr) → m'.obj a ≡ update c.memory.obj z (c.memory.obj at) a =
        λ a. same a ∙ obj1 a in
      let old_waiting : (a : Ptr) → has a h.waiting ≡ true → m'.obj a ≡ c.memory.obj a = λ a i.
        obj' a
        ∙ new_element c.memory z (c.memory.obj at) h.waiting a unused h.rings.ring.alive.1 i in
      let old_flying : (a : Ptr)
          → has a (place.before ++ place.after) ≡ true
          → m'.obj a ≡ c.memory.obj a =
        λ a i.
          obj' a
          ∙ new_element c.memory z (c.memory.obj at) ys a unused split_rings.ring.alive.1 (
              ground (
                arith,
                has-append a place.before place.after,
                has-append a place.before (at ∷ place.after),
              )) in
      let new_held : m'.obj z ≡ c.memory.obj at = obj' z ∙ rw (==-refl z) in
      (
        m1,
        m',
        added,
        run,
        record {
          waiting = h.waiting ++ z ∷ [];
          flying = place.before ++ place.after;
          rings =
              AreRings-flip m' in_flight (place.before ++ place.after) pending (h.waiting ++ z ∷ [])
                two;
          waiting_held =
              Held-append m'.obj c.packets h.waiting ps (z ∷ []) (p ∷ [])
                (Held-frame c.memory.obj m'.obj c.packets c.packets h.waiting ps old_waiting
                  (λ a r e. e) h.waiting_held)
                (ap c.packets new_held ∙ place.here, tt);
          flying_held =
              Held-frame c.memory.obj m'.obj c.packets c.packets (place.before ++ place.after)
                (without n qs) old_flying (λ a r e. e) place.others;
          null_unused = h.null_unused;
        },
      )
