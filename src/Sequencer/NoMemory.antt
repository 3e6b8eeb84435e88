-- ===== src/Sequencer/NoMemory.antt =====
-- sequencer_add when create_sequencer_range gets no memory.
use ucp.Common.{
  ℕ, zero, suc, ◌<◌, ◌≡◌, ◌≢◌, refl, ◌∙◌, arith, Bool, true, false, none, [], ◌∷◌, ok, fault,
}
use ucp.LinkedList.Memory.{Ptr, null, Returns-cases}
use ucp.LinkedList.Ops as LL
use ucp.LinkedList.Ring.{IsRing}
use ucp.LinkedList.Adding.{append-Grown}
use ucp.Sequencer.Ops as Ops
use ucp.Sequencer.Ops.{Sequencer}
use ucp.Sequencer.Store.{Store, create_range}
use ucp.Sequencer.Loops.{check_loop, check, add}
use ucp.Sequencer.Stored.{IsRanges}
use ucp.Sequencer.Reading.{is_address, object_at, first_at, empty_at, check_lem}
use ucp.Sequencer.Equal.{numbered_as, note_max_lem}

-- An element that holds NULL.
check_faults :
    (fuel : ℕ) (seq z : Ptr) (n : ℕ) (s : Store)
    → IsRing s.memory seq (z ∷ [])
    → s.memory.obj z ≡ null
    → s.items null ≡ none
    → 0 < fuel
    → check fuel seq n s ≡ fault
unfolding check check_loop
check_faults zero seq z n s ring at_null nothing enough = absurd (omega arith)
check_faults (suc k) seq z n s ring at_null nothing enough = rw (
  first_at seq s (z ∷ []) ring,
  is_address seq s [] z [] ring,
  object_at seq s [] z [] ring,
  at_null,
  nothing,
)

-- When `malloc` gives an element but no range, sequencer_add on an empty list returns TRUE all the
-- same; the list then has an element without a range, and sequencer_check reads through NULL on every
-- number.
pub add_no_range :
    (z : Ptr) (fuel : ℕ) (seq : Ptr) (n : ℕ) (is_last : Bool) (asked : ℕ) (s : Store)
    → IsRanges seq s [] []
    → z ≢ null
    → s.memory.live z ≡ false
    → s.items null ≡ none
    → 0 < fuel
    → (s' : Store) × (add null z fuel seq n is_last s ≡ ok (true, s'))
      × (check fuel seq asked s' ≡ fault)
unfolding add create_range
add_no_range z fuel seq n is_last asked s h address unused nothing enough =
    let l : Sequencer = record {
      seq = [];
      max_seq_no = s.max_seq_no;
      expected_last_seq_no = s.expected_last_seq_no;
    } in
    let s₁ : Store = numbered_as s (Ops.note_max l n is_last) in
    let h₁ : IsRanges seq s₁ [] [] = record {
      ring = h.ring;
      held = h.held;
      separate = h.separate;
      counted = h.counted;
    } in
    let known : check fuel seq n s₁ ≡ ok (false, s₁) =
      check_lem fuel seq s₁ [] [] n h₁ enough ∙ unfold Ops.check in refl in
    let (done, m', run, (_, grown)) =
      Returns-cases (LL.append z seq null s.memory)
        (append-Grown s.memory seq z null [] h.ring address unused) in
    let at_null : m'.obj z ≡ null = grown.held z ∙ ground arith in
    (
      record s₁ { memory = m' },
      rw (note_max_lem s l n is_last refl refl, known, empty_at seq s₁ [] h₁.ring, run),
      check_faults fuel seq z asked (record s₁ { memory = m' }) grown.ring at_null nothing enough,
    )
