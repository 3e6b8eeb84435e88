-- ===== src/LinkedList/OutOfMemory.antt =====
-- What the functions that allocate do when `malloc` returns NULL.
use ucp.Common.{◌≡◌, ◌≢◌, arith, false, ok, fault}
use ucp.LinkedList.Memory.{Ptr, null, Memory}
use ucp.LinkedList.Ops.{append, prepend, insert_after, insert_before}

-- When `malloc` returns NULL, LinkedListAppend and LinkedListPrepend on a list that is not NULL write
-- through NULL, while LinkedListInsertAfter and LinkedListInsertBefore at an element return FALSE and
-- change nothing.
pub out_of_memory :
    (m : Memory) (l obj elem : Ptr)
    → l ≢ null
    → elem ≢ null
    → (append null l obj m ≡ fault)
      × (prepend null l obj m ≡ fault)
      × (insert_after null l obj elem m ≡ ok (false, m))
      × (insert_before null l obj elem m ≡ ok (false, m))
unfolding append prepend insert_after insert_before
out_of_memory m l obj elem list at_element =
    (ground arith, ground arith, ground arith, ground arith)
