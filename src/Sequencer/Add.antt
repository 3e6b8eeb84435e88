-- ===== src/Sequencer/Add.antt =====
-- sequencer_add: which numbers it records, and that it keeps the list well formed.
use ucp.Common.{
  ℕ, ◌+◌, ◌≤◌, ◌<◌, ◌≡◌, ◌≢◌, refl, ◌∙◌, arith, Bool, true, false, not, ◌&&◌, ◌||◌, List, [], ◌∷◌,
  ◌==◌, if◌then◌else◌, rev_append, Bool-cases, inl, inr,
}
use ucp.Common.Words.{u32_max, succ32, pred32}
use ucp.Sequencer.Ops.{
  Item, create_range, check, merge_next, merge_prev, fits_between, add_loop, add_item,
}
use ucp.Sequencer.Ranges.{Ranges, precedes, check_below}

-- The insertion without the items passed: the merge with the previous item never takes place.
insertion : List Item → ℕ → Bool × List Item
insertion [] n = (false, [])
insertion (item ∷ after) n =
    let further = insertion after n in
    if succ32 item.last_seq_no == n
    then (true, merge_next (record item { last_seq_no = n }) after)
    else (if pred32 item.first_seq_no == n
        then (true, record item { first_seq_no = n } ∷ after)
        else (if fits_between item after n
            then (true, item ∷ create_range n n ∷ after)
            else (further.0, item ∷ further.1)))

-- The nearest item passed does not end right in front of `n`.
abbrev Passed : List Item → ℕ → Type 0
Passed [] n = Unit {0}
Passed (prev ∷ before) n = (succ32 prev.last_seq_no == n) ≡ false

add_loop-insertion :
    (before items : List Item) (n : ℕ)
    → Passed before n
    → add_loop before items n ≡ ((insertion items n).0, rev_append before (insertion items n).1)
unfolding add_loop insertion merge_prev
add_loop-insertion before [] n passed = refl
add_loop-insertion [] (item ∷ after) n passed =
    ground (arith, add_loop-insertion (item ∷ []) after n)
add_loop-insertion (prev ∷ before) (item ∷ after) n passed =
    ground (arith, add_loop-insertion (item ∷ prev ∷ before) after n)

-- In front of the first range nothing is inserted.
insertion_before :
    (items : List Item) (n low : ℕ)
    → Ranges low items
    → n + 1 < low
    → insertion items n ≡ (false, items)
unfolding insertion
insertion_before [] n low r h = refl
insertion_before (item ∷ items) n low (a, b, c, r) h =
    ground (arith, insertion_before items n (item.last_seq_no + 1) r)

-- The list `after` records exactly what `before` does, and `n`.
abbrev Records : List Item → ℕ → List Item → Type 0
Records items n items' = (m : ℕ) → check items' m ≡ (check items m || m == n)

module _ (item : Item) (n low : ℕ) (small : n < u32_max) where
  merge_next-Records :
      (after : List Item)
      → Ranges low (item ∷ after)
      → check (item ∷ after) n ≡ false
      → (succ32 item.last_seq_no == n) ≡ true
      → Records (item ∷ after) n (merge_next (record item { last_seq_no = n }) after)
  unfolding merge_next check
  merge_next-Records [] (a, b, c, r) out touch = λ m. ground arith
  merge_next-Records (next ∷ after) (a, b, c, r) out touch = λ m. ground arith

  merge_next-Ranges :
      (after : List Item)
      → Ranges low (item ∷ after)
      → check (item ∷ after) n ≡ false
      → (succ32 item.last_seq_no == n) ≡ true
      → Ranges low (merge_next (record item { last_seq_no = n }) after)
  unfolding merge_next check
  merge_next-Ranges [] (a, b, c, r) out touch = ground arith
  merge_next-Ranges (next ∷ after) (a, b, c, r) out touch = ground arith

  extend_front-Records :
      (after : List Item)
      → Ranges low (item ∷ after)
      → (pred32 item.first_seq_no == n) ≡ true
      → Records (item ∷ after) n (record item { first_seq_no = n } ∷ after)
  unfolding check
  extend_front-Records after (a, b, c, r) touch = λ m. ground arith

  between-Records :
      (after : List Item)
      → Ranges low (item ∷ after)
      → Records (item ∷ after) n (item ∷ create_range n n ∷ after)
  unfolding check
  between-Records after r = λ m. ground arith

  between-Ranges :
      (after : List Item)
      → Ranges low (item ∷ after)
      → fits_between item after n ≡ true
      → Ranges low (item ∷ create_range n n ∷ after)
  between-Ranges [] (a, b, c, r) fits = ground arith
  between-Ranges (next ∷ after) (a, b, c, r) fits = ground arith

-- An insertion that is not in front of the first range succeeds.
record Inserts (low : ℕ) (items : List Item) (n : ℕ) (result : Bool × List Item) : Type 0 where
  done : result.0 ≡ true
  recorded : Records items n result.1
  ranges : Ranges low result.1

Records-cons :
    (item : Item) (items : List Item) (n : ℕ) (items' : List Item)
    → Records items n items'
    → Records (item ∷ items) n (item ∷ items')
unfolding check
Records-cons item items n items' h = λ m. ground (arith, h m)

-- The three ways to insert at an item, with the fourth, to go on, left to `rest`.
insertion_step :
    (n low : ℕ) (item : Item) (after : List Item)
    → n < u32_max
    → Ranges low (item ∷ after)
    → check (item ∷ after) n ≡ false
    → low ≤ n
    → (succ32 item.last_seq_no ≢ n
        → pred32 item.first_seq_no ≢ n
        → fits_between item after n ≡ false
        → Inserts low (item ∷ after) n ((insertion after n).0, item ∷ (insertion after n).1))
    → Inserts low (item ∷ after) n (insertion (item ∷ after) n)
unfolding insertion
insertion_step n low item after small r out above rest =
    elim (Bool-cases (succ32 item.last_seq_no == n)) [
      | inl touch ↦ rw touch (record {
        done = refl;
        recorded = merge_next-Records item n low small after r out touch;
        ranges = merge_next-Ranges item n low small after r out touch;
      })
      | inr apart ↦ elim (Bool-cases (pred32 item.first_seq_no == n)) [
        | inl touch ↦
            rw (apart, touch)
              (record {
                done = refl;
                recorded = extend_front-Records item n low small after r touch;
                ranges = ground arith;
              })
        | inr apart' ↦ elim (Bool-cases (fits_between item after n)) [
          | inl fits ↦
              rw (apart, apart', fits)
                (record {
                  done = refl;
                  recorded = between-Records item n low small after r;
                  ranges = between-Ranges item n low small after r fits;
                })
          | inr crowded ↦ rw (apart, apart', crowded) (rest (ground arith) (ground arith) crowded)
        ]
      ]
    ]

insertion-Inserts :
    (n low : ℕ) (item : Item) (after : List Item)
    → n < u32_max
    → Ranges low (item ∷ after)
    → check (item ∷ after) n ≡ false
    → item.first_seq_no ≤ n + 1
    → low ≤ n
    → Inserts low (item ∷ after) n (insertion (item ∷ after) n)
insertion-Inserts n low item [] small r out near above =
    insertion_step n low item [] small r out above
      λ apart apart' crowded. absurd (unfold check in ground arith)
insertion-Inserts n low item (next ∷ after) small (a, b, c, r) out near above =
    insertion_step n low item (next ∷ after) small (a, b, c, r) out above
      λ apart apart' crowded.
        let behind : item.last_seq_no < n = unfold check in ground arith in
        let out' : check (next ∷ after) n ≡ false = unfold check in ground arith in
        let one =
          insertion-Inserts n (item.last_seq_no + 1) next after small r out' (ground arith)
            (ground arith) in
        record {
          done = one.done;
          recorded = Records-cons item (next ∷ after) n _ one.recorded;
          ranges = (a, b, c, one.ranges);
        }

-- What sequencer_add does to the list, in all cases.
pub record Adds (items : List Item) (n : ℕ) (result : Bool × List Item) : Type 0 where
  pub done : result.0 ≡ (not (check items n) && not (precedes items n))
  pub recorded : (m : ℕ) → check result.1 m ≡ (check items m || result.0 && m == n)
  pub ranges : Ranges 0 result.1

pub add_item-Adds :
    (items : List Item) (n : ℕ) → n < u32_max → Ranges 0 items → Adds items n (add_item items n)
unfolding add_item
add_item-Adds [] n small r =
    unfold check in record { done = refl; recorded = λ m. ground arith; ranges = ground arith }
add_item-Adds (item ∷ after) n small r = elim (Bool-cases (check (item ∷ after) n)) [
  | inl known ↦ rw known (record { done = rw known; recorded = λ m. ground arith; ranges = r })
  | inr new ↦ elim (Bool-cases (precedes (item ∷ after) n)) [
    | inl early ↦
        let (_, b, c, rest) = r in
        let skipped : insertion (item ∷ after) n ≡ (false, item ∷ after) =
          insertion_before (item ∷ after) n item.first_seq_no (omega arith, b, c, rest)
            (ground arith) in
        rw (new, add_loop-insertion [] (item ∷ after) n tt, skipped)
          (record { done = rw early (ground arith); recorded = λ m. ground arith; ranges = r })
    | inr late ↦
        let one = insertion-Inserts n 0 item after small r new (ground arith) (omega arith) in
        rw (new, add_loop-insertion [] (item ∷ after) n tt)
          (record {
            done = one.done ∙ rw (new, late);
            recorded = λ m. ground (arith, one.recorded m, one.done);
            ranges = one.ranges;
          })
  ]
]

pub add_item_early :
    (items : List Item) (n : ℕ)
    → Ranges 0 items
    → precedes items n ≡ true
    → (add_item items n ≡ (false, items)) × (check items n ≡ false)
unfolding add_item
add_item_early [] n r early = cc
add_item_early (item ∷ after) n (a, b, c, r) early =
    let ranges : Ranges item.first_seq_no (item ∷ after) = (omega arith, b, c, r) in
    let out : check (item ∷ after) n ≡ false =
      check_below item.first_seq_no (item ∷ after) n ranges (ground arith) in
    let skipped : insertion (item ∷ after) n ≡ (false, item ∷ after) =
      insertion_before (item ∷ after) n item.first_seq_no ranges (ground arith) in
    (rw (out, add_loop-insertion [] (item ∷ after) n tt, skipped), out)
