-- ===== src/Sequencer/Ranges.antt =====
-- Well-formed lists of ranges: nonempty, in order, without overlap, below UINT32_MAX.
use ucp.Common.{ℕ, ◌+◌, ◌≤◌, ◌<◌, List, [], ◌∷◌, Bool, false, ltb, ◌≡◌, refl, arith}
use ucp.Common.Words.{u32_max}
use ucp.Sequencer.Ops.{Item, check}

-- All ranges lie at `low` and above.
abbrev pub Ranges : ℕ → List Item → Type 0
Ranges low [] = Unit {0}
Ranges low (item ∷ items) =
    (low ≤ item.first_seq_no)
    × (item.first_seq_no ≤ item.last_seq_no)
    × (item.last_seq_no < u32_max)
    × Ranges (item.last_seq_no + 1) items

-- Whether the number lies in front of the first range, and does not touch it.
abbrev pub precedes : List Item → ℕ → Bool
precedes [] seq_no = false
precedes (item ∷ items) seq_no = ltb (seq_no + 1) item.first_seq_no

pub Ranges-weaken :
    (low low' : ℕ) (items : List Item) → low' ≤ low → Ranges low items → Ranges low' items
Ranges-weaken low low' [] h r = tt
Ranges-weaken low low' (item ∷ items) h (a, b, c, r) = (omega arith, b, c, r)

-- No range reaches below the bound.
pub check_below :
    (low : ℕ) (items : List Item) (n : ℕ) → Ranges low items → n < low → check items n ≡ false
unfolding check
check_below low [] n r h = refl
check_below low (item ∷ items) n (a, b, c, r) h =
    ground (arith, check_below (item.last_seq_no + 1) items n r)
