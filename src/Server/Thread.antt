-- ===== src/Server/Thread.antt =====
-- src/ucp_server.c: sequencing_thread as a whole, with the sequencer's linked list in memory. What the
-- calls of sequencing_queue_pop and of `malloc` return is an argument.
pub mod Equal
pub mod End
mod Tests
use ucp.Common.{
  ℕ, Bool, true, false, List, [], ◌∷◌, ◌++◌, map, Option, none, some, ◌==◌, if◌then◌else◌, Run, ok,
}
use ucp.LinkedList.Memory.{Ptr}
use ucp.Packet.Types.{CtrlPacket, flag_nack, flag_fin, flag_data_end}
use ucp.Sequencer.Store.{Store, Prog, pure, ◌>>=◌, ◌>>◌}
use ucp.Sequencer.Loops.{init, add, complete, missing, destroy}
use ucp.Server.Queue.{QueueItem}
use ucp.Server.Sequencing.{ctrl}

-- What a call of sequencing_queue_pop returns, and what `malloc` returns in the same round for a range
-- and for an element.
pub record Poll : Type 0 where
  pub popped : Option QueueItem
  pub fresh_item : Ptr
  pub fresh_elem : Ptr

-- The body of the loop, with what sequencing_queue_pop returns.
unfoldable pub serve_poll :
    (rounds fuel : ℕ) → Ptr → Poll → Option QueueItem → Prog (List CtrlPacket)
serve_poll rounds fuel seq poll none = pure []
serve_poll rounds fuel seq poll (some item) = do
  added ← add poll.fresh_item poll.fresh_elem fuel seq item.seq_no (item.flag == flag_data_end)
  asked ← missing rounds fuel seq
  pure (ctrl item.seq_no item.flag ∷ map (λ n. ctrl n flag_nack) asked)

-- The packet sent behind the loop.
abbrev pub send_last : Prog (List CtrlPacket × Bool)
send_last s = ok ((ctrl s.expected_last_seq_no flag_fin ∷ [], true), s)

-- The loop and send_fin: what is sent, and whether the loop has ended by the last of the polls.
unfoldable pub thread_loop : (rounds fuel : ℕ) → Ptr → List Poll → Prog (List CtrlPacket × Bool)
thread_loop rounds fuel seq [] = do
  done ← complete fuel seq
  if done then send_last else pure ([], false)
thread_loop rounds fuel seq (poll ∷ polls) = do
  done ← complete fuel seq
  if done then send_last else (do
    sent ← serve_poll rounds fuel seq poll poll.popped
    (later, ended) ← thread_loop rounds fuel seq polls
    pure (sent ++ later, ended))

-- sequencing_thread, without the cancelling of the receiving thread at its end.
unfoldable pub sequencing_thread :
    (fresh : Ptr) (rounds fuel : ℕ) → List Poll → Prog (List CtrlPacket × Bool)
sequencing_thread fresh rounds fuel polls = do
  seq ← init fresh
  (sent, ended) ← thread_loop rounds fuel seq polls
  if ended then (do destroy fuel seq; pure (sent, true)) else pure (sent, false)
