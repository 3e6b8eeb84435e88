-- ===== src/Server/Queue.antt =====
-- src/ucp_server.c: the queue of sequence numbers from the receiving to the sequencing thread. It is a
-- linked list whose objects are allocated items. Both functions hold one mutex from their first to
-- their last statement, so that each is one step.
use ucp.Common.{ℕ, Bool, Option, none, some, Run, ok, fault, ◌==◌, if◌then◌else◌}
use ucp.Common
use ucp.LinkedList.Memory.{Ptr, null, Memory, update, get_obj}
use ucp.LinkedList.Ops.{append, first, unlink}

-- sequencing_queue_item_t
pub record QueueItem : Type 0 where
  pub seq_no : ℕ
  pub flag : ℕ
  pub is_last : Bool

-- The memory of the lists, and the items that are allocated.
pub record Store : Type 0 where
  pub memory : Memory
  pub items : Ptr → Option QueueItem

-- The fields of the item at `p` are set.
abbrev pub set_item : Ptr → QueueItem → Store → Run Store
set_item p item s =
    if p == null then fault else ok (record s { items = update s.items p (some item) })

-- `*item`
abbrev pub allocated : Option QueueItem → Run QueueItem
allocated none = fault
allocated (some item) = ok item

abbrev pub get_item : Ptr → Store → Run QueueItem
get_item p s = allocated (s.items p)

infixl 5 ◌>>=◌
abbrev ◌>>=◌ : {A B : Type 0} → Run A → (A → Run B) → Run B
r >>= f = Common.◌>>=◌ r f

-- sequencing_queue_push: `malloc` returns `item_at` for the item, unchecked, and `elem_at` for the
-- element that LinkedListAppend makes.
unfoldable pub push : (item_at elem_at : Ptr) → Ptr → ℕ → ℕ → Bool → Store → Run Store
push item_at elem_at queue seq_no flag is_last s = do
  s ← set_item item_at (record { seq_no = seq_no; flag = flag; is_last = is_last }) s
  (added, m) ← append elem_at queue item_at s.memory
  ok (record s { memory = m })

-- sequencing_queue_pop: the item, or nothing where it returns 0 and leaves its arguments alone.
unfoldable pub pop : Ptr → Store → Run (Option QueueItem × Store)
pop queue s = do
  (elem, m) ← first queue s.memory
  if elem == null then ok (none, record s { memory = m }) else (do
    (item_at, m) ← get_obj elem m
    item ← get_item item_at s
    (done, m) ← unlink queue elem m
    ok (some item, record { memory = m; items = update s.items item_at none }))
