-- ===== src/Sequencer/InOrder.antt =====
-- A transfer whose packets arrive in order.
use ucp.Common.{
  ℕ, zero, suc, ◌+◌, ◌<◌, ◌≤◌, ◌≡◌, refl, ap, ◌∙◌, arith, true, false, [], ◌∷◌, leb, some,
}
use ucp.Common.Words.{u32_max}
use ucp.Sequencer.Ops.{
  Sequencer, create_range, check, merge_next, merge_pass, add_loop, note_max, add_item, add,
  complete, init, missing, missing_in, missing_from,
}

-- The numbers 0 to `n - 1` are added in order, none of them flagged as the last one.
unfoldable pub add_below : ℕ → Sequencer → Sequencer
add_below zero s = s
add_below (suc n) s = (add (add_below n s) n false).1

abbrev start : Sequencer
start = record { seq = []; max_seq_no = 0; expected_last_seq_no = u32_max }

-- One range, as far as the packets have come.
abbrev so_far : ℕ → Sequencer
so_far n = record start { seq = create_range 0 n ∷ []; max_seq_no = n }

add_next : (n : ℕ) → n + 1 < u32_max → (add (so_far n) (n + 1) false).1 ≡ so_far (n + 1)
unfolding add note_max add_item add_loop check merge_next
add_next n h = ground arith

add_below-so_far : (n : ℕ) → n < u32_max → add_below (suc n) start ≡ so_far n
unfolding add_below
add_below-so_far zero h = unfold add note_max add_item in refl
add_below-so_far (suc n) h =
    let next : suc n ≡ n + 1 = omega arith in
    ap (λ (s : Sequencer). (add s (suc n) false).1) (add_below-so_far n (omega arith))
    ∙ rw next (add_next n (omega arith))

none_missing :
    (n rounds low : ℕ) → low + rounds ≤ n + 1 → missing_from (create_range 0 n ∷ []) rounds low ≡ []
unfolding missing_from check
none_missing n zero low h = refl
none_missing n (suc rounds) low h = ground (arith, none_missing n rounds (low + 1))

-- From a new sequencer, when the numbers 0 to `n` have come in order and `n + 1` comes with the flag
-- of the last one, sequencer_complete answers TRUE.
pub in_order_completes :
    (n : ℕ) (s : Sequencer)
    → init true ≡ some s
    → n + 1 < u32_max
    → (complete (add (add_below (suc n) s) (n + 1) true).1).0 ≡ true
unfolding init complete add note_max add_item add_loop check merge_next merge_pass
in_order_completes n s made small =
    let new : s ≡ start = ground arith in rw (new, add_below-so_far n (omega arith)) (ground arith)

-- When the numbers 0 to `n` have come in order and none is flagged as the last one, the sequencer
-- records exactly these, asks for none, and is not complete.
pub in_order_unflagged :
    (n m : ℕ) (s : Sequencer)
    → init true ≡ some s
    → n < u32_max
    → (check (add_below (suc n) s).seq m ≡ leb m n)
      × (missing (add_below (suc n) s) ≡ [])
      × ((complete (add_below (suc n) s)).0 ≡ false)
unfolding init complete merge_pass check missing missing_in
in_order_unflagged n m s made small =
    let new : s ≡ start = ground arith in
    rw (new, add_below-so_far n small)
      (ground arith, none_missing n n 0 (omega arith), ground arith)
