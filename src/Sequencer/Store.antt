-- ===== src/Sequencer/Store.antt =====
-- The memory of src/sequencer.c: the linked list of ranges, the ranges that are allocated, and the two
-- numbers of `sequencer_t`. The list's anchor is at the address of the sequencer.
use ucp.Common.{ℕ, Bool, Option, none, some, Run, ok, fault, ◌==◌, if◌then◌else◌}
use ucp.Common
use ucp.LinkedList.Memory.{Ptr, null, Memory, Cmd, update}
use ucp.Sequencer.Ops.{Item}

pub record Store : Type 0 where
  pub memory : Memory
  pub items : Ptr → Option Item
  pub max_seq_no : ℕ
  pub expected_last_seq_no : ℕ

-- A program reads and writes the store, and may fault.
abbrev pub Prog : Type 0 → Type 0
Prog A = Store → Run (A × Store)

abbrev pub pure : {A : Type 0} → A → Prog A
pure a s = ok (a, s)

infixl 5 ◌>>=◌ ◌>>◌
abbrev pub ◌>>=◌ : {A B : Type 0} → Prog A → (A → Prog B) → Prog B
◌>>=◌ c f s = Common.◌>>=◌ (c s) λ (a, s'). f a s'

abbrev pub ◌>>◌ : {B : Type 0} → Prog (Unit {0}) → Prog B → Prog B
c >> k = c >>= λ _. k

-- A command on the lists.
abbrev pub on_list : {A : Type 0} → Cmd A → Prog A
on_list c s = Common.◌>>=◌ (c s.memory) λ (a, m). ok (a, record s { memory = m })

-- `*item`
abbrev pub found : Option Item → Store → Run (Item × Store)
found none s = fault
found (some item) s = ok (item, s)

abbrev pub get_item : Ptr → Prog Item
get_item p s = found (s.items p) s

-- The fields of an allocated item are set.
abbrev pub set_item : Ptr → Item → Prog (Unit {0})
set_item p item = get_item p >>= λ old s. ok (tt, record s { items = update s.items p (some item) })

-- `free(item)`, which does nothing on NULL.
abbrev pub freed : Option Item → Ptr → Prog (Unit {0})
freed none p s = if p == null then ok (tt, s) else fault
freed (some item) p s = ok (tt, record s { items = update s.items p none })

abbrev pub free_item : Ptr → Prog (Unit {0})
free_item p s = freed (s.items p) p s

-- The numbers of the sequencer are set.
abbrev pub set_numbers : (max_seq_no expected_last_seq_no : ℕ) → Prog (Unit {0})
set_numbers max_seq_no expected_last_seq_no s =
    ok (tt, record s { max_seq_no = max_seq_no; expected_last_seq_no = expected_last_seq_no })

-- create_sequencer_range: `fresh` is what `malloc` returns.
unfoldable pub create_range : (fresh : Ptr) → ℕ → ℕ → Prog Ptr
create_range fresh first_seq last_seq s =
    if fresh == null
    then ok (null, s)
    else ok (
      fresh,
      record s {
        items =
            update s.items fresh
              (some (record { first_seq_no = first_seq; last_seq_no = last_seq }));
      },
    )
