-- ===== src/Sequencer/Complete.antt =====
-- sequencer_complete: merging keeps what is recorded, the answer is right, and it comes after as many
-- calls as there are ranges.
use ucp.Common.{
  ℕ, zero, suc, ◌+◌, ◌/◌, ◌<◌, ◌≤◌, ◌≡◌, refl, sym, ◌∙◌, arith, Bool, true, false, List, [], ◌∷◌,
  leb, ◌==◌, if◌then◌else◌, Bool-cases, inl, inr, length, ◌⊎◌,
}
use native.Mathlib.Nat.{le_refl}
use ucp.Common.Words.{u32_max, succ32}
use ucp.Sequencer.Ops.{Sequencer, Item, check, merge_pass, spans, complete}
use ucp.Sequencer.Ranges.{Ranges, check_below}

-- The two ways that the pass takes at an item.
module _ (item next : Item) (after : List Item) where
  merge_pass_touch :
      (succ32 item.last_seq_no == next.first_seq_no) ≡ true
      → merge_pass (item ∷ next ∷ after)
        ≡ record item { last_seq_no = next.last_seq_no } ∷ merge_pass after
  unfolding merge_pass
  merge_pass_touch touch = rw touch

  merge_pass_apart :
      (succ32 item.last_seq_no == next.first_seq_no) ≡ false
      → merge_pass (item ∷ next ∷ after) ≡ item ∷ merge_pass (next ∷ after)
  unfolding merge_pass
  merge_pass_apart apart = rw apart

merge_pass-check :
    (low : ℕ) (items : List Item) (m : ℕ)
    → Ranges low items
    → check (merge_pass items) m ≡ check items m
unfolding merge_pass check
merge_pass-check low [] m r = refl
merge_pass-check low (item ∷ []) m r = refl
merge_pass-check low (item ∷ next ∷ after) m (a, b, c, (a', b', c', r)) =
    elim (Bool-cases (succ32 item.last_seq_no == next.first_seq_no)) [
      | inl touch ↦
          rw (merge_pass_touch item next after touch)
            (ground (arith, merge_pass-check (next.last_seq_no + 1) after m r))
      | inr apart ↦
          rw (merge_pass_apart item next after apart) (
            ground
              (arith, merge_pass-check (item.last_seq_no + 1) (next ∷ after) m (a', b', c', r)))
    ]

merge_pass-Ranges : (low : ℕ) (items : List Item) → Ranges low items → Ranges low (merge_pass items)
unfolding merge_pass
merge_pass-Ranges low [] r = r
merge_pass-Ranges low (item ∷ []) r = r
merge_pass-Ranges low (item ∷ next ∷ after) (a, b, c, (a', b', c', r)) =
    elim (Bool-cases (succ32 item.last_seq_no == next.first_seq_no)) [
      | inl touch ↦
          rw (merge_pass_touch item next after touch)
            (a, omega arith, c', merge_pass-Ranges (next.last_seq_no + 1) after r)
      | inr apart ↦
          rw (merge_pass_apart item next after apart)
            (a, b, c, merge_pass-Ranges (item.last_seq_no + 1) (next ∷ after) (a', b', c', r))
    ]

-- sequencer_complete keeps a list well formed, whatever it answers; it records the same numbers
-- afterwards, and the largest and the expected number stay.
pub complete_keeps :
    (s : Sequencer)
    → Ranges 0 s.seq
    → Ranges 0 (complete s).1.seq
      × ((m : ℕ) → check (complete s).1.seq m ≡ check s.seq m)
      × ((complete s).1.max_seq_no ≡ s.max_seq_no)
      × ((complete s).1.expected_last_seq_no ≡ s.expected_last_seq_no)
unfolding complete
complete_keeps s r = (merge_pass-Ranges 0 s.seq r, λ m. merge_pass-check 0 s.seq m r, refl, refl)

spans-check :
    (items : List Item) (expected m : ℕ)
    → spans items expected ≡ true
    → check items m ≡ leb m expected
unfolding check
spans-check [] expected m h = cc
spans-check (item ∷ []) expected m h = ground arith
spans-check (item ∷ next ∷ items) expected m h = cc

-- If sequencer_complete returns TRUE on a well-formed list, exactly the numbers up to the expected
-- last one are recorded.
pub complete_sound :
    (s : Sequencer) (m : ℕ)
    → Ranges 0 s.seq
    → (complete s).0 ≡ true
    → check s.seq m ≡ leb m s.expected_last_seq_no
unfolding complete
complete_sound s m r done =
    sym (merge_pass-check 0 s.seq m r)
    ∙ spans-check (merge_pass s.seq) s.expected_last_seq_no m done

-- The ranges follow one another without a gap from `low` to `last`.
abbrev Contiguous : ℕ → List Item → ℕ → Type 0
Contiguous low [] last = low ≡ last + 1
Contiguous low (item ∷ items) last =
    (item.first_seq_no ≡ low)
    × (low ≤ item.last_seq_no)
    × (item.last_seq_no < u32_max)
    × Contiguous (item.last_seq_no + 1) items last

Contiguous-of_check :
    (low : ℕ) (items : List Item) (last : ℕ)
    → Ranges low items
    → low ≤ last + 1
    → ((m : ℕ) → low ≤ m → check items m ≡ leb m last)
    → Contiguous low items last
unfolding check
Contiguous-of_check low [] last r h all = ground (arith, all low (le_refl _))
Contiguous-of_check low (item ∷ items) last (a, b, c, r) h all =
    let first_in : item.first_seq_no ≡ low = ground (
      arith,
      check_below (item.last_seq_no + 1) items low r,
      all low (le_refl _),
      all item.first_seq_no,
    ) in
    let last_in : item.last_seq_no ≤ last = ground (arith, all item.last_seq_no) in
    (
      first_in,
      omega arith,
      c,
      Contiguous-of_check (item.last_seq_no + 1) items last r (omega arith)
          (λ m above. ground (arith, all m)),
    )

merge_pass-Contiguous :
    (low : ℕ) (items : List Item) (last : ℕ)
    → Contiguous low items last
    → Contiguous low (merge_pass items) last
unfolding merge_pass
merge_pass-Contiguous low [] last c = c
merge_pass-Contiguous low (item ∷ []) last c = c
merge_pass-Contiguous low (item ∷ next ∷ after) last (a, b, c, (a', b', c', r)) =
    let touch : (succ32 item.last_seq_no == next.first_seq_no) ≡ true = ground arith in
    rw (merge_pass_touch item next after touch)
      (a, omega arith, c', merge_pass-Contiguous (next.last_seq_no + 1) after last r)

-- A pass over several contiguous ranges shortens the list.
length-merge_pass :
    (low : ℕ) (items : List Item) (last : ℕ)
    → Contiguous low items last
    → length (merge_pass items) ≤ (length items + 1) / 2
unfolding merge_pass
length-merge_pass low [] last c = omega arith
length-merge_pass low (item ∷ []) last c = omega arith
length-merge_pass low (item ∷ next ∷ after) last (a, b, c, (a', b', c', r)) =
    let touch : (succ32 item.last_seq_no == next.first_seq_no) ≡ true = ground arith in
    rw (merge_pass_touch item next after touch)
      (omega (arith, length-merge_pass (next.last_seq_no + 1) after last r))

-- The loop `while (!sequencer_complete(sequencer))` with nothing arriving in between, on fuel.
unfoldable pub complete_loop : ℕ → Sequencer → Bool
complete_loop zero s = false
complete_loop (suc fuel) s =
    let again = complete_loop fuel (complete s).1 in if (complete s).0 then true else again

spans_single :
    (items : List Item) (last : ℕ)
    → Contiguous 0 items last
    → (spans items last ≡ true) ⊎ (2 ≤ length items)
spans_single [] last c = absurd (omega arith)
spans_single (item ∷ []) last c = inl (ground arith)
spans_single (item ∷ next ∷ items) last c = inr (omega arith)

complete_loop-Contiguous :
    (fuel : ℕ) (s : Sequencer)
    → Contiguous 0 s.seq s.expected_last_seq_no
    → length s.seq < fuel
    → complete_loop fuel s ≡ true
unfolding complete_loop complete
complete_loop-Contiguous zero s c enough = absurd (omega arith)
complete_loop-Contiguous (suc fuel) s c enough =
    let merged : Contiguous 0 (merge_pass s.seq) s.expected_last_seq_no =
      merge_pass-Contiguous 0 s.seq s.expected_last_seq_no c in
    elim (spans_single (merge_pass s.seq) s.expected_last_seq_no merged) [
      | inl done ↦ rw done
      | inr several ↦
          let rest : complete_loop fuel (record s { seq = merge_pass s.seq }) ≡ true =
            complete_loop-Contiguous fuel (record s { seq = merge_pass s.seq }) merged
              (omega (arith, length-merge_pass 0 s.seq s.expected_last_seq_no c)) in
          ground arith
    ]

-- When exactly the numbers up to the expected last one are recorded, however many ranges they form,
-- sequencer_complete answers TRUE after at most one call more than there are ranges.
pub complete_eventually :
    (fuel : ℕ) (s : Sequencer)
    → Ranges 0 s.seq
    → ((m : ℕ) → check s.seq m ≡ leb m s.expected_last_seq_no)
    → length s.seq < fuel
    → complete_loop fuel s ≡ true
complete_eventually fuel s r all enough =
    complete_loop-Contiguous fuel s
      (Contiguous-of_check 0 s.seq s.expected_last_seq_no r (omega arith) (λ m _. all m)) enough
