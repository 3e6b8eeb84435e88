-- ===== src/Sequencer/Missing.antt =====
-- sequencer_iterate_missing_segments: exactly the numbers that are not recorded are asked for.
use ucp.Common.{
  ℕ, zero, suc, ◌+◌, ◌≤◌, ◌≡◌, refl, ap, arith, Bool, true, false, not, ◌&&◌, ◌||◌, List, [], ◌∷◌,
  ltb, leb, ◌==◌, Bool-cases, inl, inr,
}
use native.Mathlib.Nat.{le_refl}
use ucp.Sequencer.Ops.{Sequencer, Item, check, missing_from, missing_in, missing}

abbrev pub contains : ℕ → List ℕ → Bool
contains n [] = false
contains n (x ∷ xs) = (n == x) || contains n xs

-- In increasing order, from `low` on.
abbrev pub Ascending : ℕ → List ℕ → Type 0
Ascending low [] = Unit {0}
Ascending low (x ∷ xs) = (low ≤ x) × Ascending (x + 1) xs

abbrev pub is_empty : List Item → Bool
is_empty [] = true
is_empty (item ∷ items) = false

check_same : (items : List Item) (m k : ℕ) → (m == k) ≡ true → check items m ≡ check items k
check_same items m k e = let same : m ≡ k = ground arith in ap (check items) same

missing_from-contains :
    (items : List Item) (rounds start m : ℕ)
    → contains m (missing_from items rounds start)
      ≡ (leb start m && ltb m (start + rounds) && not (check items m))
unfolding missing_from
missing_from-contains items zero start m = ground arith
missing_from-contains items (suc rounds) start m =
    ground (arith, missing_from-contains items rounds (start + 1) m, check_same items m start)

missing_from-Ascending :
    (items : List Item) (rounds start low : ℕ)
    → low ≤ start
    → Ascending low (missing_from items rounds start)
unfolding missing_from
missing_from-Ascending items zero start low h = tt
missing_from-Ascending items (suc rounds) start low h = elim (Bool-cases (check items start)) [
  | inl known ↦ rw known (missing_from-Ascending items rounds (start + 1) low (omega arith))
  | inr gap ↦ rw gap (h, missing_from-Ascending items rounds (start + 1) (start + 1) (le_refl _))
]

missing_in-contains :
    (items : List Item) (max_seq_no m : ℕ)
    → contains m (missing_in items max_seq_no)
      ≡ (not (is_empty items) && ltb m max_seq_no && not (check items m))
unfolding missing_in
missing_in-contains [] max_seq_no m = refl
missing_in-contains (item ∷ items) max_seq_no m =
    ground (arith, missing_from-contains (item ∷ items) max_seq_no 0 m)

missing_in-Ascending :
    (items : List Item) (max_seq_no : ℕ) → Ascending 0 (missing_in items max_seq_no)
unfolding missing_in
missing_in-Ascending [] max_seq_no = tt
missing_in-Ascending (item ∷ items) max_seq_no =
    missing_from-Ascending (item ∷ items) max_seq_no 0 0 (le_refl _)

-- sequencer_iterate_missing_segments calls back with exactly the numbers below the largest one that
-- are not recorded, none at all while nothing is recorded, each once and in increasing order.
pub missing_lem :
    (s : Sequencer)
    → Ascending 0 (missing s)
      × ((m : ℕ)
          → contains m (missing s)
            ≡ (not (is_empty s.seq) && ltb m s.max_seq_no && not (check s.seq m)))
unfolding missing
missing_lem s = (missing_in-Ascending s.seq s.max_seq_no, missing_in-contains s.seq s.max_seq_no)
