-- ===== src/LinkedList/Ops.antt =====
-- src/linked_list.c, function by function. The address that `malloc` returns is an argument, `fresh`,
-- of the functions that allocate; the loops run on fuel, and running out is a fault.
use ucp.Common.{ℕ, zero, suc, Bool, true, false, ◌&&◌, fault, ◌==◌, if◌then◌else◌}
use ucp.Common.Words.{succ32, pred32}
use ucp.LinkedList.Memory.{
  Ptr, null, Cmd, pure, ◌>>=◌, ◌>>◌, get_obj, get_next, get_prev, get_num_members, set_obj,
  set_next, set_prev, set_num_members, malloc, free,
}

-- LinkedListLength
unfoldable pub length : Ptr → Cmd ℕ
length list = get_num_members list

-- LinkedListEmpty
unfoldable pub is_empty : Ptr → Cmd Bool
is_empty list = do next ← get_next list; prev ← get_prev list; pure (next == list && prev == list)

-- LinkedListAppend: the result of `malloc` is not checked.
unfoldable pub append : (fresh : Ptr) → Ptr → Ptr → Cmd Bool
append fresh list obj = if list == null then pure false else do
  malloc fresh
  set_obj fresh obj
  empty ← is_empty list
  if empty
      then (do set_next list fresh; set_prev list fresh; set_next fresh list; set_prev fresh list)
      else (do
        set_next fresh list
        last ← get_prev list
        set_prev fresh last
        last ← get_prev list
        set_next last fresh
        set_prev list fresh)
  count ← get_num_members list
  set_num_members list (succ32 count)
  pure true

-- LinkedListPrepend: the result of `malloc` is not checked.
unfoldable pub prepend : (fresh : Ptr) → Ptr → Ptr → Cmd Bool
prepend fresh list obj = if list == null then pure false else do
  malloc fresh
  set_obj fresh obj
  empty ← is_empty list
  if empty
      then (do set_next list fresh; set_prev list fresh; set_next fresh list; set_prev fresh list)
      else (do
        first ← get_next list
        set_next fresh first
        set_prev fresh list
        first ← get_next list
        set_prev first fresh
        set_next list fresh)
  count ← get_num_members list
  set_num_members list (succ32 count)
  pure true

-- LinkedListUnlink
unfoldable pub unlink : Ptr → Ptr → Cmd (Unit {0})
unlink list elem = do
  empty ← is_empty list
  if empty then pure tt else (do
    prev ← get_prev elem
    next ← get_next elem
    set_next prev next
    next ← get_next elem
    prev ← get_prev elem
    set_prev next prev
    count ← get_num_members list
    set_num_members list (pred32 count)
    free elem)

-- LinkedListInsertAfter
unfoldable pub insert_after : (fresh : Ptr) → Ptr → Ptr → Ptr → Cmd Bool
insert_after fresh list obj elem = if elem == null then append fresh list obj else do
  malloc fresh
  if fresh == null then pure false else (do
    set_obj fresh obj
    next ← get_next elem
    set_next fresh next
    set_prev fresh elem
    next ← get_next elem
    set_prev next fresh
    set_next elem fresh
    count ← get_num_members list
    set_num_members list (succ32 count)
    pure true)

-- LinkedListInsertBefore
unfoldable pub insert_before : (fresh : Ptr) → Ptr → Ptr → Ptr → Cmd Bool
insert_before fresh list obj elem = if elem == null then prepend fresh list obj else do
  malloc fresh
  if fresh == null then pure false else (do
    set_obj fresh obj
    set_next fresh elem
    prev ← get_prev elem
    set_prev fresh prev
    prev ← get_prev elem
    set_next prev fresh
    set_prev elem fresh
    count ← get_num_members list
    set_num_members list (succ32 count)
    pure true)

-- LinkedListFirst
unfoldable pub first : Ptr → Cmd Ptr
first list = do empty ← is_empty list; if empty then pure null else get_next list

-- LinkedListLast
unfoldable pub last : Ptr → Cmd Ptr
last list = do empty ← is_empty list; if empty then pure null else get_prev list

-- LinkedListNext
unfoldable pub next : Ptr → Ptr → Cmd Ptr
next list elem = do after ← get_next elem; if after == list then pure null else get_next elem

-- LinkedListPrev
unfoldable pub prev : Ptr → Ptr → Cmd Ptr
prev list elem = do before ← get_prev elem; if before == list then pure null else get_prev elem

-- The loop of LinkedListUnlinkAll.
unfoldable pub unlink_loop : ℕ → Ptr → Ptr → Cmd (Unit {0})
unlink_loop zero list elem = λ _. fault
unlink_loop (suc k) list elem =
    if elem == null
    then pure tt
    else do next_elem ← next list elem; unlink list elem; unlink_loop k list next_elem

-- LinkedListUnlinkAll
unfoldable pub unlink_all : ℕ → Ptr → Cmd (Unit {0})
unlink_all fuel list = do elem ← first list; unlink_loop fuel list elem

-- The loop of LinkedListFind.
unfoldable pub find_loop : ℕ → Ptr → Ptr → Ptr → Cmd Ptr
find_loop zero list obj elem = λ _. fault
find_loop (suc k) list obj elem = if elem == null then pure null else do
  held ← get_obj elem
  if held == obj then pure elem else (do elem' ← next list elem; find_loop k list obj elem')

-- LinkedListFind
unfoldable pub find : ℕ → Ptr → Ptr → Cmd Ptr
find fuel list obj = do
  empty ← is_empty list
  if empty then pure null else (do elem ← first list; find_loop fuel list obj elem)

-- LinkedListInit: `num_members` is not set.
unfoldable pub init : Ptr → Cmd Bool
init list = do set_obj list null; set_prev list list; set_next list list; pure true
