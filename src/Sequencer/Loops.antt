-- ===== src/Sequencer/Loops.antt =====
-- src/sequencer.c, function by function, on the linked list in memory. The addresses that `malloc`
-- returns are arguments, `fresh_item` for a range and `fresh_elem` for an element; the loops run on
-- fuel, and running out is a fault.
use ucp.Common.{
  ℕ, zero, suc, Bool, true, false, not, ◌&&◌, List, [], ◌∷◌, ok, fault, ltb, leb, ◌==◌,
  if◌then◌else◌,
}
use ucp.Common.Words.{u32_max, succ32, pred32}
use ucp.LinkedList.Memory.{
  Ptr, null, get_obj, set_obj, set_next, set_prev, set_num_members, malloc, free,
}
use ucp.LinkedList.Ops as LL
use ucp.Sequencer.Ops.{Item}
use ucp.Sequencer.Store.{
  Prog, pure, ◌>>=◌, ◌>>◌, on_list, get_item, set_item, free_item, set_numbers, create_range,
}

-- The range that an element holds.
abbrev pub get_range : Ptr → Prog Item
get_range elem = on_list (get_obj elem) >>= get_item

-- sequencer_init: `fresh` is what `malloc` returns; the memory is cleared.
unfoldable pub init : (fresh : Ptr) → Prog Ptr
init fresh = if fresh == null then pure null else (do
  on_list (malloc fresh)
  on_list (set_obj fresh null)
  on_list (set_next fresh null)
  on_list (set_prev fresh null)
  on_list (set_num_members fresh 0)
  started ← on_list (LL.init fresh)
  set_numbers 0 u32_max
  pure fresh)

-- The loop of sequencer_check.
unfoldable pub check_loop : ℕ → (seq elem : Ptr) → ℕ → Prog Bool
check_loop zero seq elem seq_no = λ _. fault
check_loop (suc k) seq elem seq_no = if elem == null then pure false else do
  item ← get_range elem
  if leb item.first_seq_no seq_no && leb seq_no item.last_seq_no
      then pure true
      else (do next_elem ← on_list (LL.next seq elem); check_loop k seq next_elem seq_no)

-- sequencer_check
unfoldable pub check : ℕ → Ptr → ℕ → Prog Bool
check fuel seq seq_no = do elem ← on_list (LL.first seq); check_loop fuel seq elem seq_no

-- sequencer_add: the range at `item_at` has been extended at its end; it is merged with the next one.
unfoldable pub merge_next : (seq elem item_at : Ptr) → Prog Bool
merge_next seq elem item_at = do
  next_elem ← on_list (LL.next seq elem)
  if next_elem == null then pure true else (do
    next_item_at ← on_list (get_obj next_elem)
    next_item ← get_item next_item_at
    item ← get_item item_at
    if pred32 next_item.first_seq_no == item.last_seq_no
        then (do
          set_item item_at (record item { last_seq_no = next_item.last_seq_no })
          on_list (LL.unlink seq next_elem)
          free_item next_item_at
          pure true)
        else pure true)

-- sequencer_add: the range at `item_at` has been extended at its start; it is merged with the previous one.
unfoldable pub merge_prev : (seq elem item_at : Ptr) → Prog Bool
merge_prev seq elem item_at = do
  prev_elem ← on_list (LL.prev seq elem)
  if prev_elem == null then pure true else (do
    prev_item_at ← on_list (get_obj prev_elem)
    prev_item ← get_item prev_item_at
    item ← get_item item_at
    if succ32 prev_item.last_seq_no == item.first_seq_no
        then (do
          set_item item_at (record item { first_seq_no = prev_item.first_seq_no })
          on_list (LL.unlink seq prev_elem)
          free_item prev_item_at
          pure true)
        else pure true)

-- sequencer_add: a range of its own, behind the one of an element and in front of the next one; `rest`
-- is the next round of the loop.
unfoldable pub insert_between :
    (fresh_item fresh_elem seq elem : Ptr) → Item → ℕ → (rest : Prog Bool) → Prog Bool
insert_between fresh_item fresh_elem seq elem item seq_no rest = do
  next_elem ← on_list (LL.next seq elem)
  if next_elem == null
      then (if ltb item.last_seq_no seq_no
          then (do
            range_at ← create_range fresh_item seq_no seq_no
            added ← on_list (LL.append fresh_elem seq range_at)
            pure true)
          else rest)
      else (do
        next_item ← get_range next_elem
        if ltb item.last_seq_no seq_no && ltb seq_no next_item.first_seq_no
            then (do
              range_at ← create_range fresh_item seq_no seq_no
              added ← on_list (LL.insert_before fresh_elem seq range_at next_elem)
              pure true)
            else rest)

-- The loop of sequencer_add.
unfoldable pub add_loop : (fresh_item fresh_elem : Ptr) → ℕ → (seq elem : Ptr) → ℕ → Prog Bool
add_loop fresh_item fresh_elem zero seq elem seq_no = λ _. fault
add_loop fresh_item fresh_elem (suc k) seq elem seq_no =
    let rest : Prog Bool = on_list (LL.next seq elem) >>= λ next_elem.
    add_loop fresh_item fresh_elem k seq next_elem seq_no in
    if elem == null then pure false else (do
      item_at ← on_list (get_obj elem)
      item ← get_item item_at
      if succ32 item.last_seq_no == seq_no
          then (do
            set_item item_at (record item { last_seq_no = seq_no })
            merge_next seq elem item_at)
          else (if pred32 item.first_seq_no == seq_no
              then (do
                set_item item_at (record item { first_seq_no = seq_no })
                merge_prev seq elem item_at)
              else insert_between fresh_item fresh_elem seq elem item seq_no rest))

-- The first statement of sequencer_add.
unfoldable pub note_max : ℕ → Bool → Prog (Unit {0})
note_max seq_no is_last s =
    if is_last
    then pure tt (record s { expected_last_seq_no = seq_no; max_seq_no = seq_no })
    else (if ltb s.max_seq_no seq_no then pure tt (record s { max_seq_no = seq_no }) else pure tt s)

-- sequencer_add
unfoldable pub add : (fresh_item fresh_elem : Ptr) → ℕ → Ptr → ℕ → Bool → Prog Bool
add fresh_item fresh_elem fuel seq seq_no is_last = do
  note_max seq_no is_last
  known ← check fuel seq seq_no
  if known then pure false else (do
    empty ← on_list (LL.is_empty seq)
    if empty
        then (do
          range_at ← create_range fresh_item seq_no seq_no
          added ← on_list (LL.append fresh_elem seq range_at)
          pure true)
        else (do
          elem ← on_list (LL.first seq)
          add_loop fresh_item fresh_elem fuel seq elem seq_no))

-- sequencer_complete: the range of an element is merged with the next one if they meet.
unfoldable pub merge_adjacent : (seq elem : Ptr) → Prog (Unit {0})
merge_adjacent seq elem = do
  item_at ← on_list (get_obj elem)
  next_elem ← on_list (LL.next seq elem)
  if next_elem == null then pure tt else (do
    next_item_at ← on_list (get_obj next_elem)
    item ← get_item item_at
    next_item ← get_item next_item_at
    if succ32 item.last_seq_no == next_item.first_seq_no
        then (do
          set_item item_at (record item { last_seq_no = next_item.last_seq_no })
          on_list (LL.unlink seq next_elem)
          free_item next_item_at)
        else pure tt)

-- The loop of sequencer_complete.
unfoldable pub merge_loop : ℕ → (seq elem : Ptr) → Prog (Unit {0})
merge_loop zero seq elem = λ _. fault
merge_loop (suc k) seq elem = if elem == null then pure tt else do
  merge_adjacent seq elem
  next_elem ← on_list (LL.next seq elem)
  merge_loop k seq next_elem

-- The last test of sequencer_complete.
abbrev pub is_spanning : Item → Prog Bool
is_spanning item s = ok (item.first_seq_no == 0 && item.last_seq_no == s.expected_last_seq_no, s)

-- sequencer_complete
unfoldable pub complete : ℕ → Ptr → Prog Bool
complete fuel seq = do
  empty ← on_list (LL.is_empty seq)
  if empty then pure false else (do
    elem ← on_list (LL.first seq)
    merge_loop fuel seq elem
    count ← on_list (LL.length seq)
    if count == 1
        then (do elem ← on_list (LL.first seq); item ← get_range elem; is_spanning item)
        else pure false)

-- The loop of sequencer_iterate_missing_segments: the arguments of the calls of `callback`. The
-- number of a round is below `max_seq_no`, so that its successor is no larger than UINT32_MAX.
unfoldable pub missing_loop : (rounds fuel : ℕ) → Ptr → ℕ → Prog (List ℕ)
missing_loop zero fuel seq req_seq_no s = fault
missing_loop (suc k) fuel seq req_seq_no s =
    let round : Prog (List ℕ) = (do
      here ← check fuel seq req_seq_no
      later ← missing_loop k fuel seq (succ32 req_seq_no)
      pure (if not here then req_seq_no ∷ later else later)) in
    if ltb req_seq_no s.max_seq_no then round s else pure [] s

-- sequencer_iterate_missing_segments
unfoldable pub missing : ℕ → ℕ → Ptr → Prog (List ℕ)
missing rounds fuel seq = do
  empty ← on_list (LL.is_empty seq)
  if empty then pure [] else missing_loop rounds fuel seq 0

-- The loop of sequencer_destroy.
unfoldable pub free_loop : ℕ → (seq elem : Ptr) → Prog (Unit {0})
free_loop zero seq elem = λ _. fault
free_loop (suc k) seq elem = if elem == null then pure tt else do
  item_at ← on_list (get_obj elem)
  free_item item_at
  next_elem ← on_list (LL.next seq elem)
  free_loop k seq next_elem

-- sequencer_destroy, which frees the sequencer with the list's anchor in it.
unfoldable pub destroy : ℕ → Ptr → Prog (Unit {0})
destroy fuel seq = do
  elem ← on_list (LL.first seq)
  free_loop fuel seq elem
  on_list (LL.unlink_all fuel seq)
  on_list (free seq)
