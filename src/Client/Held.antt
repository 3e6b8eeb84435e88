-- ===== src/Client/Held.antt =====
-- A window as a list of packets: the elements of its linked list hold them, in order.
use ucp.Common.{
  ℕ, suc, length, ◌≡◌, refl, ap, ◌∙◌, arith, Bool, true, Option, none, some, List, [], ◌∷◌, ◌++◌,
  ◌==◌, if◌then◌else◌, Bool-cases, inl, inr,
}
use ucp.Packet.Types.{Packet}
use ucp.LinkedList.Memory.{Ptr, null}
use ucp.LinkedList.Ring.{has}
use ucp.LinkedList.Pair.{AreRings}
use ucp.Client.Windows.{Client}

abbrev pub Held : (Ptr → Ptr) → (Ptr → Option Packet) → List Ptr → List Packet → Type 0
Held obj packets [] [] = Unit {0}
Held obj packets [] (p ∷ ps) = ⊥
Held obj packets (x ∷ xs) [] = ⊥
Held obj packets (x ∷ xs) (p ∷ ps) = (packets (obj x) ≡ some p) × Held obj packets xs ps

-- The packets of the windows at `pending` and `in_flight`, in order.
pub record IsClient (c : Client) (pending in_flight : Ptr) (ps qs : List Packet) : Type 0 where
  pub waiting : List Ptr
  pub flying : List Ptr
  pub rings : AreRings c.memory pending waiting in_flight flying
  pub waiting_held : Held c.memory.obj c.packets waiting ps
  pub flying_held : Held c.memory.obj c.packets flying qs
  pub null_unused : c.packets null ≡ none

pub Held-frame :
    (obj obj' : Ptr → Ptr) (packets packets' : Ptr → Option Packet) (xs : List Ptr)
    (ps : List Packet)
    → ((a : Ptr) → has a xs ≡ true → obj' a ≡ obj a)
    → ((a : Ptr) (p : Packet) → packets a ≡ some p → packets' a ≡ some p)
    → Held obj packets xs ps
    → Held obj' packets' xs ps
Held-frame obj obj' packets packets' [] [] same kept held = tt
Held-frame obj obj' packets packets' [] (p ∷ ps) same kept held = held
Held-frame obj obj' packets packets' (x ∷ xs) [] same kept held = held
Held-frame obj obj' packets packets' (x ∷ xs) (p ∷ ps) same kept (here, held) = (
  ap packets' (same x (ground arith)) ∙ kept (obj x) p here,
  Held-frame obj obj' packets packets' xs ps (λ a h. same a (ground arith)) kept held,
)

pub length-Held :
    (obj : Ptr → Ptr) (packets : Ptr → Option Packet) (xs : List Ptr) (ps : List Packet)
    → Held obj packets xs ps
    → length xs ≡ length ps
length-Held obj packets [] [] held = refl
length-Held obj packets [] (p ∷ ps) held = absurd held
length-Held obj packets (x ∷ xs) [] held = absurd held
length-Held obj packets (x ∷ xs) (p ∷ ps) (here, held) = ap suc (length-Held obj packets xs ps held)

pub Held-append :
    (obj : Ptr → Ptr) (packets : Ptr → Option Packet) (xs : List Ptr) (ps : List Packet)
    (ys : List Ptr) (qs : List Packet)
    → Held obj packets xs ps
    → Held obj packets ys qs
    → Held obj packets (xs ++ ys) (ps ++ qs)
Held-append obj packets [] [] ys qs held held' = held'
Held-append obj packets [] (p ∷ ps) ys qs held held' = absurd held
Held-append obj packets (x ∷ xs) [] ys qs held held' = absurd held
Held-append obj packets (x ∷ xs) (p ∷ ps) ys qs (here, held) held' =
    (here, Held-append obj packets xs ps ys qs held held')

-- The first packet with a number, and the others.
abbrev pub has_seq : ℕ → Packet → Bool
has_seq n p = p.data_packet.seq_no == n

abbrev pub numbered : ℕ → List Packet → Option Packet
numbered n [] = none
numbered n (p ∷ ps) = if has_seq n p then some p else numbered n ps

abbrev pub without : ℕ → List Packet → List Packet
without n [] = []
without n (p ∷ ps) = if has_seq n p then ps else p ∷ without n ps

-- The element that holds it, or NULL.
abbrev pub elem_of : ℕ → List Ptr → List Packet → Ptr
elem_of n [] ps = null
elem_of n (x ∷ xs) [] = null
elem_of n (x ∷ xs) (p ∷ ps) = if has_seq n p then x else elem_of n xs ps

-- The elements around the one that holds the packet `p`, and what is held without it.
pub record IsFound (n : ℕ) (p : Packet) (obj : Ptr → Ptr) (packets : Ptr → Option Packet)
    (xs : List Ptr) (ps : List Packet) : Type 0 where
  pub before : List Ptr
  pub after : List Ptr
  pub split : xs ≡ before ++ elem_of n xs ps ∷ after
  pub here : packets (obj (elem_of n xs ps)) ≡ some p
  pub others : Held obj packets (before ++ after) (without n ps)

pub Held-IsFound :
    (n : ℕ) (p : Packet) (obj : Ptr → Ptr) (packets : Ptr → Option Packet) (xs : List Ptr)
    (ps : List Packet)
    → Held obj packets xs ps
    → numbered n ps ≡ some p
    → IsFound n p obj packets xs ps
Held-IsFound n p obj packets [] [] held found = cc
Held-IsFound n p obj packets [] (q ∷ ps) held found = absurd held
Held-IsFound n p obj packets (x ∷ xs) [] held found = absurd held
Held-IsFound n p obj packets (x ∷ xs) (q ∷ ps) (here, held) found =
    elim (Bool-cases (has_seq n q)) [
      | inl this ↦ record {
        before = [];
        after = xs;
        split = rw this;
        here = rw this (here ∙ rw this at found);
        others = rw this held;
      }
      | inr other ↦
          let rest : IsFound n p obj packets xs ps =
            Held-IsFound n p obj packets xs ps held (rw other at found) in
          record {
            before = x ∷ rest.before;
            after = rest.after;
            split = rw other (ap (λ (ys : List Ptr). x ∷ ys) rest.split);
            here = rw other rest.here;
            others = rw other (here, rest.others);
          }
    ]
