-- ===== src/Client/Sent.antt =====
-- get_next_packet as an operation on the two windows and the file.
use ucp.Common.{
  ◌≡◌, ◌≢◌, refl, arith, true, not, Option, none, some, List, [], ◌∷◌, ok, ◌==◌, ne→==, ==-refl,
}
use ucp.Common.Words.{succ32}
use ucp.Packet.Types.{Packet}
use ucp.Files.Stream.{Stream}
use ucp.Files.Ops as File
use ucp.LinkedList.Memory.{Ptr, null, update}
use ucp.LinkedList.Walk.{is_empty-is_nil}
use ucp.LinkedList.Pair.{AreRings, AreRings-flip}
use ucp.Client.Windows.{Client, get_next_packet}
use ucp.Client.Held.{Held, IsClient, Held-frame}
use ucp.Client.Choosing.{
  file_packet, handle_behind, choice, handle_after, Points, Points-some, take_first-AreRings,
  file_next,
}

-- What get_next_packet returns with the windows `ps` and `qs`, where the file has `from_file` next.
abbrev pub Chosen :
    Client
    → (pending in_flight at : Ptr) → Stream
    → Option Packet
    → List Packet
    → List Packet
    → Type 0
Chosen c pending in_flight at fp from_file ps qs =
    let (sent, ps', qs') = choice ps from_file qs in
    (a : Ptr) × (c' : Client) × (get_next_packet pending in_flight at c ≡ ok (a, c'))
    × Points c' a sent
    × IsClient c' pending in_flight ps' qs'
    × (c'.handle ≡ handle_after ps c.handle fp)
    × (c'.done ≡ c.done)

-- The file of the client is open at `fp`; `at` is what `malloc` returns for a packet: not NULL, and
-- not in use.
module _ (c : Client) (pending in_flight at : Ptr) (fp : Stream) (is_open : c.handle.fp ≡ some fp)
    (some_address : at ≢ null) (unused : c.packets at ≡ none) where
  allocates : not (at == null) ≡ true
  allocates = rw (ne→== at null some_address)

  from_malloc :
      (null_unused : c.packets null ≡ none) (p : Packet) → update c.packets at (some p) null ≡ none
  from_malloc null_unused p = ground (arith, ne→== at null some_address)

  kept :
      (p : Packet) (a : Ptr) (q : Packet)
      → c.packets a ≡ some q
      → update c.packets at (some p) a ≡ some q
  kept p a q here = ground (arith, unused)

  read_next :
      (from_file : Option Packet)
      → file_packet c.handle fp ≡ from_file
      → File.get_next_packet true c.handle ≡ ok (from_file, handle_behind c.handle fp)
  read_next from_file next = rw (file_next c.handle fp is_open, next)

  none_waiting :
      (ys : List Ptr) (qs : List Packet) (from_file : Option Packet)
      → file_packet c.handle fp ≡ from_file
      → AreRings c.memory pending [] in_flight ys
      → Held c.memory.obj c.packets ys qs
      → c.packets null ≡ none
      → Chosen c pending in_flight at fp from_file [] qs
  unfolding get_next_packet
  none_waiting ys qs (some p) next two held null_unused =
      let c' : Client = record c {
        handle = handle_behind c.handle fp;
        packets = update c.packets at (some p);
        packet_count = succ32 c.packet_count;
      } in
      let here : c'.packets at ≡ some p = rw (==-refl at) in
      (
        at,
        c',
        rw (is_empty-is_nil c.memory pending [] two.ring, allocates, read_next (some p) next),
        Points-some c' at p (from_malloc null_unused p) here,
        record {
          waiting = [];
          flying = ys;
          rings = two;
          waiting_held = tt;
          flying_held =
              Held-frame c.memory.obj c.memory.obj c.packets c'.packets ys qs (λ a h. refl) (kept p)
                held;
          null_unused = from_malloc null_unused p;
        },
        refl,
        refl,
      )
  none_waiting [] [] none next two held null_unused =
      let c' : Client = record c { handle = handle_behind c.handle fp } in
      (
        null,
        c',
        rw (
          is_empty-is_nil c.memory pending [] two.ring,
          allocates,
          read_next none next,
          is_empty-is_nil c.memory in_flight [] two.other_ring,
        ),
        refl,
        record {
          waiting = [];
          flying = [];
          rings = two;
          waiting_held = tt;
          flying_held = tt;
          null_unused = null_unused;
        },
        refl,
        refl,
      )
  none_waiting [] (q ∷ qs) none next two held null_unused = absurd held
  none_waiting (y ∷ ys) [] none next two held null_unused = absurd held
  none_waiting (y ∷ ys) (q ∷ qs) none next two (here, held) null_unused =
      let at_end : Client = record c { handle = handle_behind c.handle fp } in
      let (m', run, two', same) =
        take_first-AreRings at_end in_flight y ys pending []
          (AreRings-flip c.memory pending [] in_flight (y ∷ ys) two) in
      let c' : Client = record at_end { memory = m' } in
      (
        c.memory.obj y,
        c',
        rw
            (
              is_empty-is_nil c.memory pending [] two.ring,
              allocates,
              read_next none next,
              is_empty-is_nil c.memory in_flight (y ∷ ys) two.other_ring,
            )
            run,
        Points-some c' (c.memory.obj y) q null_unused here,
        record {
          waiting = [];
          flying = ys;
          rings = AreRings-flip m' in_flight ys pending [] two';
          waiting_held = tt;
          flying_held =
              Held-frame c.memory.obj m'.obj c.packets c.packets ys qs (λ a h. same a) (λ a r e. e)
                held;
          null_unused = null_unused;
        },
        refl,
        refl,
      )

  chosen :
      (xs ys : List Ptr) (ps qs : List Packet)
      → AreRings c.memory pending xs in_flight ys
      → Held c.memory.obj c.packets xs ps
      → Held c.memory.obj c.packets ys qs
      → c.packets null ≡ none
      → Chosen c pending in_flight at fp (file_packet c.handle fp) ps qs
  unfolding get_next_packet
  chosen [] ys [] qs two held held' null_unused =
      none_waiting ys qs (file_packet c.handle fp) refl two held' null_unused
  chosen [] ys (p ∷ ps) qs two held held' null_unused = absurd held
  chosen (x ∷ xs) ys [] qs two held held' null_unused = absurd held
  chosen (x ∷ xs) ys (p ∷ ps) qs two (here, held) held' null_unused =
      let (m', run, two', same) = take_first-AreRings c pending x xs in_flight ys two in
      let c' : Client = record c { memory = m' } in
      (
        c.memory.obj x,
        c',
        rw (is_empty-is_nil c.memory pending (x ∷ xs) two.ring, run),
        Points-some c' (c.memory.obj x) p null_unused here,
        record {
          waiting = xs;
          flying = ys;
          rings = two';
          waiting_held =
              Held-frame c.memory.obj m'.obj c.packets c.packets xs ps (λ a h. same a) (λ a r e. e)
                held;
          flying_held =
              Held-frame c.memory.obj m'.obj c.packets c.packets ys qs (λ a h. same a) (λ a r e. e)
                held';
          null_unused = null_unused;
        },
        refl,
        refl,
      )

  -- With the packets `ps` waiting and `qs` in flight, an open file and memory for a packet,
  -- get_next_packet gives the first packet that waits; or else the next packet of the file; or else
  -- the first in flight; or else NULL. A packet that was in a window leaves it, nothing else changes
  -- in the windows, and the file is read exactly when no packet waits.
  pub get_next_packet-IsClient :
      (ps qs : List Packet)
      → IsClient c pending in_flight ps qs
      → Chosen c pending in_flight at fp (file_packet c.handle fp) ps qs
  get_next_packet-IsClient ps qs h =
      chosen h.waiting h.flying ps qs h.rings h.waiting_held h.flying_held h.null_unused
