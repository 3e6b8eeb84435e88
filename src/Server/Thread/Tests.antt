-- ===== src/Server/Thread/Tests.antt =====
-- The sequencing thread at three polls.
use ucp.Common.{◌≡◌, refl, arith, true, false, not, List, [], ◌∷◌, none, some, ok}
use ucp.Common.Words.{u32_max}
use ucp.LinkedList.Ops as LL
use ucp.Packet.Types.{flag_ack, flag_nack}
use ucp.Sequencer.Ops as Ops
use ucp.Sequencer.Ops.{Sequencer}
use ucp.Sequencer.Store.{Store, create_range}
use ucp.Sequencer.Loops as Loops
use ucp.Server.Sequencing.{sequencing, serve}
use ucp.Server.Thread.{Poll, serve_poll, sequencing_thread}
use ucp.Server.Thread.Equal.{Behind, AllFresh, popped_of}
use ucp.Server.Thread.End.{sequencing_thread_equal}

-- Nothing is allocated.
abbrev nothing : Store
nothing = record {
  memory = record {
    live = λ a. false;
    obj = λ a. 0;
    next = λ a. 0;
    prev = λ a. 0;
    num_members = λ a. 0;
  };
  items = λ p. none;
  max_seq_no = 7;
  expected_last_seq_no = 7;
}

abbrev start : Sequencer
start = record { seq = []; max_seq_no = 0; expected_last_seq_no = u32_max }

-- An empty queue, the number 0, and the number 1 with the flag that counts as that of the last packet.
abbrev polls : List Poll
polls =
    record { popped = none; fresh_item = 0; fresh_elem = 0 }
    ∷ record {
      popped = some (record { seq_no = 0; flag = flag_ack; is_last = false });
      fresh_item = 50;
      fresh_elem = 2;
    }
    ∷ record {
      popped = some (record { seq_no = 1; flag = flag_nack; is_last = false });
      fresh_item = 51;
      fresh_elem = 3;
    }
    ∷ []

polls_end : (sequencing start (popped_of polls)).1 ≡ true
unfolding sequencing serve Ops.complete Ops.merge_pass Ops.add Ops.add_item Ops.note_max
    Ops.add_loop Ops.check Ops.merge_next
polls_end = refl

polls_fresh : Behind (Loops.init 1 nothing) (λ s₁. AllFresh 5 5 1 s₁ polls)
unfolding Loops.init Loops.complete Loops.add Loops.note_max Loops.check Loops.check_loop
    Loops.add_loop Loops.merge_next Loops.merge_loop Loops.merge_adjacent Loops.missing
    Loops.missing_loop create_range serve_poll LL.init LL.is_empty LL.first LL.next LL.append
    LL.length
polls_fresh = (
  tt,
  (
    record {
      range_address = omega arith;
      no_range = refl;
      elem_address = omega arith;
      no_elem = refl;
    },
    (
      record {
        range_address = omega arith;
        no_range = refl;
        elem_address = omega arith;
        no_elem = refl;
      },
      tt,
    ),
  ),
)

sequencing_thread_equal_example :
    (s' : Store) × (sequencing_thread 1 5 5 polls nothing
      ≡ ok (sequencing start (popped_of polls), s'))
    × (s'.memory.live 1 ≡ not (sequencing start (popped_of polls)).1)
unfolding Ops.init
sequencing_thread_equal_example =
    sequencing_thread_equal 1 5 5 polls nothing start (omega arith) refl polls_fresh
      (tt, (omega arith, (omega arith, tt))) (omega arith) (omega arith) (omega arith) (omega arith)
