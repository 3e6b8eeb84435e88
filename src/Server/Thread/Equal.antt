-- ===== src/Server/Thread/Equal.antt =====
-- The sequencing thread in memory sends what it sends on the list of ranges.
use mathlib.Core.Path.{subst}
use ucp.Common.{
  ℕ, suc, ◌+◌, ◌<◌, ◌≤◌, ◌≡◌, refl, arith, Bool, List, [], ◌∷◌, map, Option, none, some, All, ◌==◌,
  Bool-cases, inl, inr, length, Run, ok, fault,
}
use ucp.Common.Words.{u32_mod}
use ucp.LinkedList.Memory.{Ptr}
use ucp.Packet.Types.{CtrlPacket, flag_data_end}
use ucp.Sequencer.Ops as Ops
use ucp.Sequencer.Ops.{Sequencer}
use ucp.Sequencer.Store.{Store}
use ucp.Sequencer.Loops.{complete}
use ucp.Sequencer.Inserting.{IsFresh}
use ucp.Sequencer.Equal.{Stores, add_equal}
use ucp.Sequencer.Whole.{merge_pass_longest, complete_equal}
use ucp.Sequencer.Asking.{missing_equal}
use ucp.Sequencer.Growth.{add_longest, max_below}
use ucp.Server.Queue.{QueueItem}
use ucp.Server.Sequencing as Lists
use ucp.Server.Sequencing.{ctrl}
use ucp.Server.Thread.{Poll, serve_poll, thread_loop}

-- What holds of the store behind a run, if it returns.
abbrev pub Behind : {A : Type 0} → Run (A × Store) → (Store → Type 0) → Type 0
Behind (ok (a, s)) P = P s
Behind fault P = Unit {0}

-- What `malloc` returns for an item is not in use.
abbrev pub Unused : Store → Poll → Option QueueItem → Type 0
Unused s poll none = Unit {0}
Unused s poll (some item) = IsFresh s poll.fresh_item poll.fresh_elem

-- The addresses that `malloc` returns are not in use at that time.
abbrev pub AllFresh : (rounds fuel : ℕ) → Ptr → Store → List Poll → Type 0
AllFresh rounds fuel seq s [] = Unit {0}
AllFresh rounds fuel seq s (poll ∷ polls) = Behind (complete fuel seq s) λ s₁.
    (Unused s₁ poll poll.popped
      × Behind (serve_poll rounds fuel seq poll poll.popped s₁)
          λ s₂. AllFresh rounds fuel seq s₂ polls)

-- The numbers of the items are below a bound.
abbrev pub IsBelow : ℕ → Option QueueItem → Type 0
IsBelow bound none = Unit {0}
IsBelow bound (some item) = item.seq_no < bound

abbrev pub popped_of : List Poll → List (Option QueueItem)
popped_of polls = map (λ poll. poll.popped) polls

module _ (rounds fuel : ℕ) (seq : Ptr) (few : fuel ≤ u32_mod) (fits : rounds ≤ u32_mod) where
  serve_poll_lem :
      (s : Store) (l : Sequencer) (poll : Poll) (popped : Option QueueItem)
      → Stores seq s l
      → Unused s poll popped
      → suc (length l.seq) < fuel
      → l.max_seq_no < rounds
      → IsBelow rounds popped
      → (s' : Store) × (serve_poll rounds fuel seq poll popped s
          ≡ ok ((Lists.serve l popped).0, s'))
        × Stores seq s' (Lists.serve l popped).1
        × (length (Lists.serve l popped).1.seq ≤ suc (length l.seq))
        × ((Lists.serve l popped).1.max_seq_no < rounds)
  unfolding serve_poll Lists.serve
  serve_poll_lem s l poll none stores fresh enough below small =
      (s, refl, stores, omega arith, below)
  serve_poll_lem s l poll (some item) stores fresh enough below small =
      let is_last : Bool = item.flag == flag_data_end in
      let (s', run, stores') =
        add_equal poll.fresh_item poll.fresh_elem fuel seq item.seq_no is_last s l stores fresh
          (omega arith) in
      let l' : Sequencer = (Ops.add l item.seq_no is_last).1 in
      let longest = add_longest l item.seq_no is_last in
      let below' = max_below l item.seq_no is_last rounds below small in
      let asked = missing_equal rounds fuel seq s' l' stores' (omega arith) below' (omega arith) in
      (s', rw (run, asked) refl, stores', longest, below')

  fresh_behind :
      (s : Store) (poll : Poll) (polls : List Poll) (done : Bool) (s₁ : Store)
      → complete fuel seq s ≡ ok (done, s₁)
      → AllFresh rounds fuel seq s (poll ∷ polls)
      → Unused s₁ poll poll.popped
        × Behind
            (serve_poll rounds fuel seq poll poll.popped s₁)
            (λ s₂. AllFresh rounds fuel seq s₂ polls)
  fresh_behind s poll polls done s₁ run fresh = rw run at fresh

  pub thread_loop_lem :
      (s : Store) (l : Sequencer) (polls : List Poll)
      → Stores seq s l
      → AllFresh rounds fuel seq s polls
      → length l.seq + length polls < fuel
      → l.max_seq_no < rounds
      → All (λ poll. IsBelow rounds poll.popped) polls
      → (s' : Store) × (l' : Sequencer) × (thread_loop rounds fuel seq polls s
          ≡ ok (Lists.sequencing l (popped_of polls), s'))
        × Stores seq s' l'
        × (length l'.seq < fuel)
  unfolding thread_loop Lists.sequencing Ops.complete
  thread_loop_lem s l [] stores fresh enough below small =
      let (s₁, run, stores₁) = complete_equal fuel seq s l stores (omega arith) (omega arith) in
      let shorter = merge_pass_longest l.seq in
      let (_, _, _, expected) = stores₁ in
      elim (Bool-cases (Ops.complete l).0) [
        | inl done ↦ (s₁, (Ops.complete l).1, rw (run, done, expected) refl, stores₁, omega arith)
        | inr waiting ↦ (s₁, (Ops.complete l).1, rw (run, waiting) refl, stores₁, omega arith)
      ]
  thread_loop_lem s l (poll ∷ polls) stores fresh enough below (small, smaller) =
      let (s₁, run, stores₁) = complete_equal fuel seq s l stores (omega arith) (omega arith) in
      let shorter = merge_pass_longest l.seq in
      let l₁ : Sequencer = (Ops.complete l).1 in
      let (_, _, _, expected) = stores₁ in
      let (unused, fresh₁) = fresh_behind s poll polls (Ops.complete l).0 s₁ run fresh in
      let (s₂, served, stores₂, longest, below₂) =
        serve_poll_lem s₁ l₁ poll poll.popped stores₁ unused (omega arith) below small in
      let l₂ : Sequencer = (Lists.serve l₁ poll.popped).1 in
      let fresh₂ : AllFresh rounds fuel seq s₂ polls =
        subst
          (λ (r : Run (List CtrlPacket × Store)).
            Behind r (λ s₂. AllFresh rounds fuel seq s₂ polls))
          served fresh₁ in
      let (s', l', rest, stores', fewer) =
        thread_loop_lem s₂ l₂ polls stores₂ fresh₂ (omega arith) below₂ smaller in
      elim (Bool-cases (Ops.complete l).0) [
        | inl done ↦ (s₁, l₁, rw (run, done, expected) refl, stores₁, omega arith)
        | inr waiting ↦ (s', l', rw (run, waiting, served, rest) refl, stores', fewer)
      ]
