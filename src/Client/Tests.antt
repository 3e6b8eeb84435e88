-- ===== src/Client/Tests.antt =====
-- The client's theorems at windows with one packet.
use ucp.Common.{
  ℕ, ◌≡◌, refl, arith, true, false, ◌||◌, none, some, List, [], ◌∷◌, ◌++◌, length, drop, ok, fault,
  Run, read_at, read_at_ok, length-append, ◌>>=◌, ◌==◌, if◌then◌else◌,
}
use ucp.Packet.Types.{Packet, zeros, length-zeros, udp_packet_size}
use ucp.Packet.Made.{data_packet_of, data_packet_of-IsData}
use ucp.Packet.Wire.{data_wire}
use ucp.Files.Stream.{Stream}
use ucp.LinkedList.Ring.{has}
use ucp.Client.Windows.{
  Client, take_first, get_next_packet, send_packet, on_ctrl, find_packet, find_loop,
}
use ucp.Client.Held.{IsClient}
use ucp.Client.Loop.{Turn, block_loop, answer_all, fresh_answers, fresh_turns}
use ucp.Client.Protocol.{Windows, protocol}
use ucp.Client.Fitting.{IsFitting}
use ucp.Client.Refined.{Implements, block_loop-protocol}
use ucp.LinkedList.Ops as LL
use ucp.Packet.RoundTrip.{encode-data_wire}
use ucp.LinkedList.Memory.{Ptr}
use ucp.Client.Kept.{has_number, block_loop-present}
use ucp.Client.Sent.{Chosen, get_next_packet-IsClient}
use ucp.Client.Answered.{on_ctrl-IsClient}
use ucp.Client.Exchange.{send_packet-IsClient}

-- No packet waits at 1, and the packet at 50 is in flight at 2.
abbrev chunk : List ℕ
chunk = 1 ∷ 2 ∷ 3 ∷ []

abbrev sent : Packet
sent = data_packet_of 7 0 chunk

abbrev at_end : Stream
at_end = record { content = chunk; pos = 3; eof = true }

abbrev client : Client
client = record {
  memory = record {
    live = λ a. a == 1 || a == 2 || a == 3;
    obj = λ a. if a == 3 then 50 else 0;
    next = λ a. if a == 2 then 3 else (if a == 3 then 2 else a);
    prev = λ a. if a == 2 then 3 else (if a == 3 then 2 else a);
    num_members = λ a. if a == 2 then 1 else 0;
  };
  packets = λ a. if a == 50 then some sent else none;
  handle = record { fp = some at_end; last_seq_no = 8; part_size = 3 };
  packet_count = 1;
  done = false;
}

apart : (p : ℕ) → has p (1 ∷ []) ≡ true → has p (2 ∷ 3 ∷ []) ≡ false
apart p inside = ground arith

client-IsClient : IsClient client 1 2 [] (sent ∷ [])
client-IsClient = record {
  waiting = [];
  flying = 3 ∷ [];
  rings = record {
    ring = record { chain = (refl, refl); distinct = (refl, tt); alive = (refl, tt) };
    other_ring = record {
      chain = (refl, refl, (refl, refl));
      distinct = (refl, (refl, tt));
      alive = (refl, (refl, tt));
    };
    apart = apart;
  };
  waiting_held = tt;
  flying_held = (refl, tt);
  null_unused = refl;
}

get_next_packet-IsClient_example : Chosen client 1 2 60 at_end none [] (sent ∷ [])
get_next_packet-IsClient_example =
    get_next_packet-IsClient client 1 2 60 at_end refl (omega arith) refl [] (sent ∷ [])
      client-IsClient

on_ctrl-IsClient_example :
    (c' : Client) × (on_ctrl 1 2 4 2 2 7 client ≡ ok c')
    × IsClient c' 1 2 (sent ∷ []) []
    × (c'.done ≡ false)
    × (c'.handle ≡ client.handle)
on_ctrl-IsClient_example =
    on_ctrl-IsClient client 1 2 4 2 7 [] (sent ∷ []) client-IsClient (omega arith) refl
      (omega arith) 2

fresh_buf : length (zeros udp_packet_size) ≡ udp_packet_size
fresh_buf = length-zeros udp_packet_size

send_packet-IsClient_example :
    (c' : Client) × (send_packet 2 4 (zeros udp_packet_size) 50 client
      ≡ ok (data_wire sent, data_wire sent ++ drop 15 (zeros udp_packet_size), c'))
    × (length (data_wire sent ++ drop 15 (zeros udp_packet_size)) ≡ udp_packet_size)
    × IsClient c' 1 2 [] (sent ∷ sent ∷ [])
    × (c'.handle ≡ client.handle)
    × (c'.done ≡ false)
send_packet-IsClient_example =
    send_packet-IsClient client 1 2 4 50 [] (sent ∷ []) sent (zeros udp_packet_size) client-IsClient
      refl (data_packet_of-IsData 7 0 chunk (omega arith) (omega arith)) fresh_buf (omega arith)
      refl

-- The packet waits instead; it is sent, and a NACK moves it back.
abbrev waiting_client : Client
waiting_client = record client {
  memory = record {
    live = λ a. a == 1 || a == 2 || a == 3;
    obj = λ a. if a == 3 then 50 else 0;
    next = λ a. if a == 1 then 3 else (if a == 3 then 1 else a);
    prev = λ a. if a == 1 then 3 else (if a == 3 then 1 else a);
    num_members = λ a. if a == 1 then 1 else 0;
  };
}

waiting_apart : (p : ℕ) → has p (1 ∷ 3 ∷ []) ≡ true → has p (2 ∷ []) ≡ false
waiting_apart p inside = ground arith

waiting_client-IsClient : IsClient waiting_client 1 2 (sent ∷ []) []
waiting_client-IsClient = record {
  waiting = 3 ∷ [];
  flying = [];
  rings = record {
    ring = record {
      chain = (refl, refl, (refl, refl));
      distinct = (refl, (refl, tt));
      alive = (refl, (refl, tt));
    };
    other_ring = record { chain = (refl, refl); distinct = (refl, tt); alive = (refl, tt) };
    apart = waiting_apart;
  };
  waiting_held = (refl, tt);
  flying_held = tt;
  null_unused = refl;
}

abbrev turns : List Turn
turns =
    record {
      packet_at = 60;
      elem_at = 4;
      answers = record { flag = 2; seq_no = 7; elem_at = 5 } ∷ [];
    }
    ∷ []

abbrev windows : Windows
windows = record {
  waiting = sent ∷ [];
  flying = [];
  handle = client.handle;
  file = at_end;
  done = false;
}

client-Implements : Implements 1 2 3 waiting_client windows
client-Implements = record {
  windows = waiting_client-IsClient;
  same_handle = refl;
  same_done = refl;
}

windows-IsFitting : IsFitting windows
windows-IsFitting = record {
  waiting_fit = (data_packet_of-IsData 7 0 chunk (omega arith) (omega arith), tt);
  flying_fit = tt;
  is_open = refl;
  small = omega arith;
}

abbrev state_of : Run (Ptr × Client) → Client
state_of (ok (packet, c)) = c
state_of fault = client

abbrev chosen : Client
chosen = state_of (take_first 1 waiting_client)

first_round : get_next_packet 1 2 60 waiting_client ≡ ok (50, chosen)
unfolding get_next_packet take_first LL.is_empty LL.first LL.unlink
first_round = refl

abbrev wide : List ℕ
wide = zeros udp_packet_size

-- The encoder's result need not be computed.
abbrev flown : Run Client
flown = LL.append 4 2 50 chosen.memory >>= λ (added, m). ok (record chosen { memory = m })

abbrev client_of : Run Client → Client
client_of (ok c) = c
client_of fault = client

first_read : read_at 0 15 (data_wire sent ++ drop 15 wide) ≡ ok (data_wire sent)
first_read =
    let both = length-append (data_wire sent) (drop 15 wide) in
    read_at_ok 0 15 (data_wire sent ++ drop 15 wide) (omega (arith, both))

first_sent :
    send_packet 2 4 wide 50 chosen
    ≡ ok (data_wire sent, data_wire sent ++ drop 15 wide, client_of flown)
unfolding send_packet take_first LL.first LL.unlink LL.append LL.is_empty
first_sent = rw (
  encode-data_wire sent wide udp_packet_size
      (data_packet_of-IsData 7 0 chunk (omega arith) (omega arith)) (omega arith) fresh_buf,
  first_read,
)

fresh : fresh_turns 1 2 3 turns wide waiting_client ≡ true
unfolding fresh_turns fresh_answers answer_all on_ctrl find_packet find_loop take_first LL.first
    LL.next LL.unlink LL.append LL.is_empty
fresh = rw (first_round, first_sent)

block_loop-protocol_example :
    (c' : Client) × (block_loop 1 2 3 turns wide waiting_client ≡ ok (data_wire sent ∷ [], c'))
    × Implements 1 2 3 c' (protocol turns windows).1
block_loop-protocol_example =
    block_loop-protocol 1 2 3 turns wide waiting_client windows client-Implements windows-IsFitting
      fresh_buf fresh (omega arith)

block_loop-present_example :
    (c' : Client) × (ps qs : List Packet) × (block_loop 1 2 3 turns wide waiting_client
      ≡ ok (data_wire sent ∷ [], c'))
    × IsClient c' 1 2 ps qs
    × ((has_number 7 ps || has_number 7 qs) ≡ true)
block_loop-present_example =
    block_loop-present 1 2 3 7 turns wide waiting_client windows client-Implements windows-IsFitting
      fresh_buf fresh (omega arith) refl refl
