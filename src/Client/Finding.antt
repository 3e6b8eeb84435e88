-- ===== src/Client/Finding.antt =====
-- The search of find_packet.
use ucp.Common.{
  ℕ, zero, suc, ◌<◌, ◌≡◌, ap, arith, true, false, List, [], ◌∷◌, All, length, ok, ◌==◌, Bool-cases,
  inl, inr, ==-refl,
}
use ucp.Packet.Types.{Packet}
use ucp.LinkedList.Memory.{Ptr, valid}
use ucp.LinkedList.Ring.{has, IsRing, Chain, head_of, Chain-ends}
use ucp.Client.Windows.{Client, find_loop, find_packet, allocated}
use ucp.Client.Held.{Held, has_seq, elem_of}

module _ (c : Client) (l n : ℕ) where
  find_loop-elem_of :
      (k u : ℕ) (xs : List Ptr) (ps : List Packet)
      → Chain c.memory.next c.memory.prev u xs l
      → has l xs ≡ false
      → All (λ a. valid c.memory a ≡ true) xs
      → Held c.memory.obj c.packets xs ps
      → length xs < k
      → find_loop k l n (head_of xs l) c ≡ ok (elem_of n xs ps)
  unfolding find_loop
  find_loop-elem_of zero u xs ps chain apart alive held enough = absurd (omega arith)
  find_loop-elem_of (suc k) u [] [] chain apart alive held enough = rw (==-refl l)
  find_loop-elem_of (suc k) u [] (p ∷ ps) chain apart alive held enough = absurd held
  find_loop-elem_of (suc k) u (x ∷ xs) [] chain apart alive held enough = absurd held
  find_loop-elem_of (suc k) u (x ∷ xs) (p ∷ ps) (_, _, chain) apart (live, alive) (here, held)
        enough =
      let inner : (x == l) ≡ false = ground arith in
      let got : allocated (c.packets (c.memory.obj x)) ≡ ok p = ap allocated here in
      let after : c.memory.next x ≡ head_of xs l =
        (Chain-ends c.memory.next c.memory.prev x xs l chain).0 in
      let rest : find_loop k l n (head_of xs l) c ≡ ok (elem_of n xs ps) =
        find_loop-elem_of k x xs ps chain (ground arith) alive held (omega arith) in
      rw (inner, live, got)
        (elim (Bool-cases (has_seq n p)) [
          | inl this ↦ rw this
          | inr other ↦ rw (other, after) rest
        ])

  -- On a window with the packets `ps`, find_packet gives the element with the first packet that has
  -- the number, or NULL, in one round more than the window has packets.
  pub find_packet-elem_of :
      (fuel : ℕ) (xs : List Ptr) (ps : List Packet)
      → IsRing c.memory l xs
      → Held c.memory.obj c.packets xs ps
      → length xs < fuel
      → find_packet fuel l n c ≡ ok (elem_of n xs ps)
  unfolding find_packet
  find_packet-elem_of fuel xs ps ring held enough =
      let start : c.memory.next l ≡ head_of xs l =
        (Chain-ends c.memory.next c.memory.prev l xs l ring.chain).0 in
      rw (ring.alive.0, start)
        (find_loop-elem_of fuel l xs ps ring.chain ring.distinct.0 ring.alive.1 held enough)
