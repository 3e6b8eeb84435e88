-- ===== src/Server/Tests.antt =====
-- The theorems about the server at small queues, and at one packet that arrives.
use ucp.Common.{
  ℕ, ◌≡◌, refl, sym, arith, true, false, ◌||◌, none, some, List, [], ◌∷◌, ◌++◌, append-nil, length,
  ok, ◌==◌, if◌then◌else◌,
}
use ucp.Common.Words.{u32_max}
use ucp.Packet.Types.{Packet, blank, zeros, length-zeros, udp_packet_size, udp_packet_data_size}
use ucp.Packet.Made.{data_packet_of, data_packet_of-IsData}
use ucp.Packet.Wire.{IsData, data_wire}
use ucp.Files.Stream.{Stream, overwrite}
use ucp.Files.Saving.{payload, Holds}
use ucp.Sequencer.Ops.{Sequencer, init, complete, merge_pass}
use ucp.Client.Windows.{Client, on_ctrl}
use ucp.Server.Queue.{QueueItem, Store, push, pop}
use ucp.Server.Fifo.{IsQueue, push-IsQueue, pop-IsQueue}
use ucp.Server.Sequencing.{serve, sequencing, never_ends}
use ucp.Tcp.Server.{TcpServer, Event}
use ucp.Tcp.Server as Tcp
use ucp.Server.Answering.{on_event, answer_delivered}
use ucp.Server.Control.{ctrl_buf_size, send_ctrl_packet}
use ucp.Server.Receiving.{Receiver, receive, is_saved, file_of}
use ucp.Server.Threads.{System, Step, datagram, served, here, later, writes_in}
use ucp.Server.Acknowledged.{IsStart, acked, acknowledged_saved}
use ucp.Server.Delivered.{receive-data_wire}

abbrev zeroth : QueueItem
zeroth = record { seq_no = 0; flag = 1; is_last = false }

abbrev last_one : QueueItem
last_one = record { seq_no = 1; flag = 1; is_last = true }

-- The queue at 1 with one element at 2, whose item lies at 10.
abbrev store : Store
store = record {
  memory = record {
    live = λ a. a == 1 || a == 2;
    obj = λ a. if a == 2 then 10 else 0;
    next = λ a. if a == 1 then 2 else 1;
    prev = λ a. if a == 1 then 2 else 1;
    num_members = λ a. if a == 1 then 1 else 0;
  };
  items = λ p. if p == 10 then some zeroth else none;
}

store-IsQueue : IsQueue store 1 (zeroth ∷ [])
store-IsQueue = record {
  elems = 2 ∷ [];
  ring = record {
    chain = (refl, refl, (refl, refl));
    distinct = (refl, (refl, tt));
    alive = (refl, (refl, tt));
  };
  stored = (refl, refl, tt);
}

push-IsQueue_example :
    (s' : Store) × (push 11 3 1 1 1 true store ≡ ok s') × IsQueue s' 1 (zeroth ∷ last_one ∷ [])
push-IsQueue_example =
    push-IsQueue store 1 (zeroth ∷ []) 11 3 last_one store-IsQueue (omega arith) refl (omega arith)
      refl

pop-IsQueue_example : (s' : Store) × (pop 1 store ≡ ok (some zeroth, s')) × IsQueue s' 1 []
pop-IsQueue_example = pop-IsQueue store 1 (zeroth ∷ []) store-IsQueue

abbrev fresh : Sequencer
fresh = record { seq = []; max_seq_no = 0; expected_last_seq_no = u32_max }

fresh-init : init true ≡ some fresh
unfolding init
fresh-init = refl

never_ends_example : (sequencing fresh (some zeroth ∷ none ∷ some last_one ∷ [])).1 ≡ false
never_ends_example =
    never_ends fresh (some zeroth ∷ none ∷ some last_one ∷ []) fresh-init (refl, (refl, (refl, tt)))

abbrev chunk : List ℕ
chunk = 1 ∷ 2 ∷ 3 ∷ []

abbrev packet : Packet
packet = data_packet_of 7 0 chunk

packet-IsData : IsData packet
packet-IsData = data_packet_of-IsData 7 0 chunk (omega arith) (omega arith)

abbrev file : Stream
file = record { content = 0 ∷ 0 ∷ 0 ∷ []; pos = 3; eof = false }

abbrev receiver : Receiver
receiver = record {
  recv_buffer = zeros udp_packet_size;
  rcv_pkt = blank 0;
  handle = record { fp = some file; last_seq_no = 0; part_size = 3 };
  returned = false;
}

abbrev ack_7 : QueueItem
ack_7 = record { seq_no = 7; flag = 1; is_last = false }

receive-data_wire_example :
    (r' : Receiver) × (receive 3 true (data_wire packet) receiver ≡ ok (some ack_7, r'))
    × Holds r'.handle (overwrite 0 (payload packet) (0 ∷ 0 ∷ 0 ∷ []))
    × (r'.returned ≡ false)
    × (length r'.recv_buffer ≡ udp_packet_size)
receive-data_wire_example =
    receive-data_wire packet receiver file 3 packet-IsData (length-zeros udp_packet_size)
      (length-zeros udp_packet_data_size) refl (omega arith)

arrived :
    (r' : Receiver) × (receive 3 true (data_wire packet) receiver ≡ ok (some ack_7, r'))
    × Holds r'.handle (overwrite 0 (payload packet) (0 ∷ 0 ∷ 0 ∷ []))
    × (r'.returned ≡ false)
    × (length r'.recv_buffer ≡ udp_packet_size)
arrived =
    receive-data_wire packet receiver file 3 packet-IsData (length-zeros udp_packet_size)
      (length-zeros udp_packet_data_size) refl (omega arith)

abbrev system : System
system = record { receiver = receiver; queue = []; sequencer = fresh; sent = []; ended = false }

system-IsStart : IsStart (0 ∷ 0 ∷ 0 ∷ []) system
system-IsStart = record { file = (file, refl, refl); no_items = refl; none_sent = refl }

abbrev behind : System
behind = record system { receiver = arrived.0; queue = ack_7 ∷ [] }

first_step : Step system behind
first_step = datagram 3 true (data_wire packet) (some ack_7) arrived.0 refl arrived.1

waiting : (complete fresh).0 ≡ false
unfolding complete merge_pass
waiting = refl

abbrev acknowledged : System
acknowledged = record behind {
  queue = [];
  sequencer = (serve (complete fresh).1 (some ack_7)).1;
  sent = (serve (complete fresh).1 (some ack_7)).0;
}

ack_sent : acked 7 acknowledged.sent ≡ true
unfolding serve
ack_sent = refl

acknowledged_saved_example :
    (is_saved 7 ([] ++ writes_in first_step) ≡ true)
    × Holds acknowledged.receiver.handle (file_of (0 ∷ 0 ∷ 0 ∷ []) ([] ++ writes_in first_step))
acknowledged_saved_example =
    acknowledged_saved {s = system} {t = acknowledged} 7 system-IsStart
      (later (later here first_step refl) (served ack_7 [] refl waiting refl)
        (sym (append-nil ([] ++ writes_in first_step))))
      ack_sent

-- A client with empty windows at 1 and 2.
abbrev client : Client
client = record {
  memory = record {
    live = λ a. a == 1 || a == 2;
    obj = λ a. 0;
    next = λ a. a;
    prev = λ a. a;
    num_members = λ a. 0;
  };
  packets = λ a. none;
  handle = receiver.handle;
  packet_count = 0;
  done = false;
}

abbrev tcp_server : TcpServer
tcp_server = record { sd = 3; max_sd = 4; server_fd_set = λ a. a == 3 || a == 4; endpoints = [] }

answer_delivered_example :
    (sent : List ℕ) × (event : Event) × (send_ctrl_packet true 7 1 (zeros ctrl_buf_size) ≡ ok sent)
    × (Tcp.receive (some (sent ++ 9 ∷ [])) 4 tcp_server ≡ ok (event ∷ [], tcp_server))
    × (on_event 1 2 4 2 (blank 0) event client ≡ on_ctrl 1 2 4 2 1 7 client)
answer_delivered_example =
    answer_delivered 1 2 4 2 7 1 4 (blank 0) (zeros ctrl_buf_size) (9 ∷ []) tcp_server client
      (omega arith) (omega arith) (length-zeros ctrl_buf_size) (omega arith)
