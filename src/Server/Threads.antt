-- ===== src/Server/Threads.antt =====
-- src/ucp_server.c: the receiving and the sequencing thread side by side. They share the queue alone,
-- under a mutex, so that the body of either loop is one step; the queue is the list of its items, which
-- Server/Fifo relates to the linked list.
use ucp.Common.{ℕ, ◌≡◌, Bool, true, false, Option, none, some, List, [], ◌∷◌, ◌++◌, All, ok}
use ucp.Packet.Types.{CtrlPacket, flag_fin}
use ucp.Files.Saving.{Holds}
use ucp.Sequencer.Ops.{Sequencer, complete}
use ucp.Server.Queue.{QueueItem}
use ucp.Server.Sequencing.{ctrl, serve}
use ucp.Server.Receiving.{Receiver, receive, Write, writes_of, file_of, acks_saved, item_saved}

pub record System : Type 0 where
  pub receiver : Receiver
  pub queue : List QueueItem
  pub sequencer : Sequencer
  pub sent : List CtrlPacket
  pub ended : Bool

abbrev pub pushed : Option QueueItem → List QueueItem
pushed none = []
pushed (some item) = item ∷ []

-- The steps of the two threads: a datagram, an item that is served, an empty poll, and the end, which
-- cancels the receiving thread.
pub data Step (s : System) : System → Type 0 where
  datagram :
      (accepted : ℕ) (flushed : Bool) (bytes : List ℕ) (item : Option QueueItem) (r : Receiver)
      → s.receiver.returned ≡ false
      → receive accepted flushed bytes s.receiver ≡ ok (item, r)
      → Step s (record s { receiver = r; queue = s.queue ++ pushed item })
  served :
      (item : QueueItem) (rest : List QueueItem)
      → s.ended ≡ false
      → (complete s.sequencer).0 ≡ false
      → s.queue ≡ item ∷ rest
      → Step s (record s {
        queue = rest;
        sequencer = (serve (complete s.sequencer).1 (some item)).1;
        sent = s.sent ++ (serve (complete s.sequencer).1 (some item)).0;
      })
  idle :
      s.ended ≡ false
      → (complete s.sequencer).0 ≡ false
      → s.queue ≡ []
      → Step s (record s { sequencer = (complete s.sequencer).1 })
  finished :
      s.ended ≡ false
      → (complete s.sequencer).0 ≡ true
      → Step s (record s {
        receiver = record (s.receiver) { returned = true };
        sequencer = (complete s.sequencer).1;
        sent = s.sent ++ ctrl (complete s.sequencer).1.expected_last_seq_no flag_fin ∷ [];
        ended = true;
      })

-- The writes to the file in a step: those of the packet that the receiving thread has decoded last.
abbrev pub writes_in : {s t : System} → Step s t → List Write
writes_in (datagram accepted flushed bytes item r running run) =
    writes_of accepted flushed r.rcv_pkt
writes_in (served item rest going waiting here) = []
writes_in (idle going waiting none_left) = []
writes_in (finished going done) = []

-- Runs from a state, with the writes to the file, in order.
pub data Reach (s : System) : List Write → System → Type 0 where
  here : Reach s [] s
  later :
      {ws ws' : List Write} {t u : System}
      → Reach s ws t
      → (step : Step t u) → ws' ≡ ws ++ writes_in step
      → Reach s ws' u

-- What holds behind the writes `ws` to a file that started with `content`.
pub record IsConsistent (content : List ℕ) (ws : List Write) (s : System) : Type 0 where
  pub file : Holds s.receiver.handle (file_of content ws)
  pub queued : All (λ item. item_saved ws (some item) ≡ true) s.queue
  pub answered : All (λ c. acks_saved ws c.flag c.seq_no ≡ true) s.sent
