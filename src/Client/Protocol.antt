-- ===== src/Client/Protocol.antt =====
-- What the loop of block_thread does, on the two windows as lists of packets.
use ucp.Common.{Bool, true, Option, none, some, List, [], ◌∷◌, ◌++◌, ◌==◌, if◌then◌else◌}
use ucp.Packet.Types.{Packet, flag_fin, udp_packet_data_size}
use ucp.Files.Stream.{Stream, fread}
use ucp.Files.Ops as File
use ucp.Client.Choosing.{file_packet, handle_after, choice}
use ucp.Client.Answered.{answer_waiting, answer_flying}
use ucp.Client.Loop.{Answer, Turn}

-- The packets that wait and those in flight, in order, and the file, which is open at `file`.
pub record Windows : Type 0 where
  pub waiting : List Packet
  pub flying : List Packet
  pub handle : File.Handle
  pub file : Stream
  pub done : Bool

abbrev pub file_after : List Packet → Stream → Stream
file_after (p ∷ ps) fp = fp
file_after [] fp = (fread udp_packet_data_size fp).1

-- The next packet: the first that waits, or else the next of the file, or else the first in flight.
abbrev pub next_packet : Windows → Option Packet × Windows
next_packet w =
    let (next, ps, qs) = choice w.waiting (file_packet w.handle w.file) w.flying in
    (
      next,
      record w {
        waiting = ps;
        flying = qs;
        handle = handle_after w.waiting w.handle w.file;
        file = file_after w.waiting w.file;
      },
    )

abbrev pub fly : Packet → Windows → Windows
fly p w = record w { flying = w.flying ++ p ∷ [] }

abbrev pub answered : Answer → Windows → Windows
answered a w = record w {
  waiting = answer_waiting a.flag a.seq_no w.waiting w.flying;
  flying = answer_flying a.flag a.seq_no w.flying;
  done = if a.flag == flag_fin then true else w.done;
}

abbrev pub answered_all : List Answer → Windows → Windows
answered_all [] w = w
answered_all (a ∷ answers) w = answered_all answers (answered a w)

-- The packets that a round and those after it send, and what is left.
abbrev pub protocol_round :
    List Answer
    → (Windows → List Packet × Windows)
    → Option Packet
    → Windows
    → List Packet × Windows
protocol_round answers rest none w = ([], w)
protocol_round answers rest (some p) w =
    let w' : Windows = answered_all answers (fly p w) in
    let (later, w'') = rest w' in if w'.done then (p ∷ [], w') else (p ∷ later, w'')

-- The packets that the loop sends, and what it leaves.
abbrev pub protocol : List Turn → Windows → List Packet × Windows
protocol [] w = ([], w)
protocol (turn ∷ turns) w =
    let (next, w') = next_packet w in
    protocol_round turn.answers (λ w''. protocol turns w'') next w'
