-- ===== src/Sequencer/Starting.antt =====
-- sequencer_init in the store.
use ucp.Common.{◌≡◌, ◌≢◌, refl, arith, some, true, [], ok}
use ucp.Common.Words.{u32_max}
use ucp.LinkedList.Memory.{Ptr, null, Memory, update}
use ucp.LinkedList.Ops as LL
use ucp.LinkedList.Ring.{IsRing}
use ucp.Sequencer.Ops as Ops
use ucp.Sequencer.Ops.{Sequencer}
use ucp.Sequencer.Store.{Store}
use ucp.Sequencer.Loops.{init}
use ucp.Sequencer.Stored.{IsRanges}
use ucp.Sequencer.Equal.{Stores}

-- The memory with an empty list at `fresh`.
abbrev cleared : Ptr → Memory → Memory
cleared fresh m = record {
  live = update m.live fresh true;
  obj = update (update m.obj fresh null) fresh null;
  next = update (update m.next fresh null) fresh fresh;
  prev = update (update m.prev fresh null) fresh fresh;
  num_members = update m.num_members fresh 0;
}

cleared-IsRing : (fresh : Ptr) (m : Memory) → fresh ≢ null → IsRing (cleared fresh m) fresh []
cleared-IsRing fresh m address = record {
  chain = (ground arith, ground arith);
  distinct = (refl, tt);
  alive = (ground (arith, address), tt);
}

empty-IsRanges :
    (seq : Ptr) (s : Store)
    → IsRing s.memory seq []
    → s.memory.num_members seq ≡ 0
    → IsRanges seq s [] []
empty-IsRanges seq s ring counted = record {
  ring = ring;
  held = tt;
  separate = λ a b in_a. cc;
  counted = counted;
}

-- sequencer_init at an address from `malloc` that is not NULL returns it, and leaves a store that
-- holds the new sequencer of the list of ranges.
pub init_equal :
    (fresh : Ptr) (s : Store) (l : Sequencer)
    → fresh ≢ null
    → Ops.init true ≡ some l
    → (s' : Store) × (init fresh s ≡ ok (fresh, s')) × Stores fresh s' l
unfolding init Ops.init LL.init
init_equal fresh s l address made =
    let new : l ≡ record { seq = []; max_seq_no = 0; expected_last_seq_no = u32_max } =
      ground arith in
    let s' : Store = record s {
      memory = cleared fresh s.memory;
      max_seq_no = 0;
      expected_last_seq_no = u32_max;
    } in
    (
      s',
      ground (arith, address),
      rw new (
        [],
        empty-IsRanges fresh s' (cleared-IsRing fresh s.memory address) (ground arith),
        refl,
        refl,
      ),
    )
