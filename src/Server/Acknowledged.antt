-- ===== src/Server/Acknowledged.antt =====
-- What the two threads guarantee together: an acknowledged packet has been written whole.
use ucp.Common.{
  ℕ, ◌≡◌, refl, arith, Bool, true, false, ◌&&◌, ◌||◌, Option, none, some, List, [], ◌∷◌, ◌++◌, take,
  append-nil, map, All, All-append, ok, ◌==◌, Bool-cases, inl, inr,
}
use mathlib.Core.Path.{subst}
use ucp.Packet.Types.{CtrlPacket, flag_ack, flag_nack}
use ucp.Files.Stream.{overwrite}
use ucp.Files.Saving.{payload, Holds}
use ucp.Sequencer.Ops.{complete}
use ucp.Server.Queue.{QueueItem}
use ucp.Server.Sequencing.{ctrl, serve}
use ucp.Server.Receiving.{
  Receiver, receive, Write, file_of, writes_of, is_saved, acks_saved, item_saved, receive_lem,
}
use ucp.Server.Threads.{
  System, pushed, Step, datagram, served, idle, finished, writes_in, Reach, here, later,
  IsConsistent,
}

is_saved-append :
    (n : ℕ) (ws vs : List Write) → is_saved n (ws ++ vs) ≡ (is_saved n ws || is_saved n vs)
is_saved-append n [] vs = refl
is_saved-append n (w ∷ ws) vs = ground (arith, is_saved-append n ws vs)

file_of-append :
    (content : List ℕ) (ws vs : List Write)
    → file_of content (ws ++ vs) ≡ file_of (file_of content ws) vs
file_of-append content [] vs = refl
file_of-append content (w ∷ ws) vs =
    file_of-append
      (overwrite w.packet.data_packet.offset (take w.accepted (payload w.packet)) content) ws vs

module _ {A : Type 0} where
  All-mono : (P Q : A → Type 0) (xs : List A) → ((x : A) → P x → Q x) → All P xs → All Q xs
  All-mono P Q [] f h = tt
  All-mono P Q (x ∷ xs) f (h, hs) = (f x h, All-mono P Q xs f hs)

-- More writes, before or behind.
module _ (ws vs : List Write) (flag n : ℕ) where
  acks_more : acks_saved ws flag n ≡ true → acks_saved (ws ++ vs) flag n ≡ true
  acks_more h = ground (arith, is_saved-append n ws vs)

  acks_new : acks_saved vs flag n ≡ true → acks_saved (ws ++ vs) flag n ≡ true
  acks_new h = ground (arith, is_saved-append n ws vs)

abbrev QueueSaved : List Write → List QueueItem → Type 0
QueueSaved ws = All (λ item. item_saved ws (some item) ≡ true)

abbrev AnswersSaved : List Write → List CtrlPacket → Type 0
AnswersSaved ws = All (λ c. acks_saved ws c.flag c.seq_no ≡ true)

pushed_saved :
    (ws vs : List Write) (item : Option QueueItem)
    → item_saved vs item ≡ true
    → QueueSaved (ws ++ vs) (pushed item)
pushed_saved ws vs none h = tt
pushed_saved ws vs (some item) h = (acks_new ws vs item.flag item.seq_no h, tt)

nacks_saved : (ws : List Write) (ns : List ℕ) → AnswersSaved ws (map (λ n. ctrl n flag_nack) ns)
nacks_saved ws [] = tt
nacks_saved ws (n ∷ ns) = (refl, nacks_saved ws ns)

module _ (content : List ℕ) (ws : List Write) where
  datagram-IsConsistent :
      (s : System) (accepted : ℕ) (flushed : Bool) (bytes : List ℕ) (item : Option QueueItem)
      (r : Receiver)
      → IsConsistent content ws s
      → receive accepted flushed bytes s.receiver ≡ ok (item, r)
      → IsConsistent content
          (ws ++ writes_of accepted flushed r.rcv_pkt)
          (record s { receiver = r; queue = s.queue ++ pushed item })
  datagram-IsConsistent s accepted flushed bytes item r h run =
      let vs : List Write = writes_of accepted flushed r.rcv_pkt in
      let (new, file) =
        receive_lem accepted flushed bytes (file_of content ws) s.receiver (item, r) h.file run in
      record {
        file = rw (file_of-append content ws vs) file;
        queued =
            All-append (λ i. item_saved (ws ++ vs) (some i) ≡ true) s.queue (pushed item)
              (All-mono (λ i. item_saved ws (some i) ≡ true)
                (λ i. item_saved (ws ++ vs) (some i) ≡ true) s.queue
                (λ i k. acks_more ws vs i.flag i.seq_no k) h.queued)
              (pushed_saved ws vs item new);
        answered =
            All-mono (λ c. acks_saved ws c.flag c.seq_no ≡ true)
              (λ c. acks_saved (ws ++ vs) c.flag c.seq_no ≡ true) s.sent
              (λ c k. acks_more ws vs c.flag c.seq_no k) h.answered;
      }

  served-IsConsistent :
      (s : System) (item : QueueItem) (rest : List QueueItem)
      → IsConsistent content ws s
      → s.queue ≡ item ∷ rest
      → IsConsistent content ws (record s {
        queue = rest;
        sequencer = (serve (complete s.sequencer).1 (some item)).1;
        sent = s.sent ++ (serve (complete s.sequencer).1 (some item)).0;
      })
  unfolding serve
  served-IsConsistent s item rest h e =
      let (first, others) = rw e at h.queued in
      record {
        file = h.file;
        queued = others;
        answered =
            All-append (λ c. acks_saved ws c.flag c.seq_no ≡ true) s.sent _ h.answered
              (first, nacks_saved ws _);
      }

  Step-IsConsistent :
      {s t : System} (step : Step s t)
      → IsConsistent content ws s
      → IsConsistent content (ws ++ writes_in step) t
  Step-IsConsistent {s} (datagram accepted flushed bytes item r running run) h =
      datagram-IsConsistent s accepted flushed bytes item r h run
  Step-IsConsistent {s} (served item rest going waiting e) h =
      rw append-nil (served-IsConsistent s item rest h e)
  Step-IsConsistent {s} (idle going waiting none_left) h =
      rw append-nil (record { file = h.file; queued = h.queued; answered = h.answered })
  Step-IsConsistent {s} (finished going done) h = rw append-nil (record {
    file = h.file;
    queued = h.queued;
    answered =
        All-append (λ c. acks_saved ws c.flag c.seq_no ≡ true) s.sent _ h.answered (refl, tt);
  })

-- The threads start with an empty queue, and the receiving thread with an open file.
pub record IsStart (content : List ℕ) (s : System) : Type 0 where
  pub file : Holds s.receiver.handle content
  pub no_items : s.queue ≡ []
  pub none_sent : s.sent ≡ []

Reach-IsConsistent :
    {content : List ℕ} {s : System} {ws : List Write} {t : System}
    → IsStart content s
    → Reach s ws t
    → IsConsistent content ws t
Reach-IsConsistent {s} st here = record {
  file = st.file;
  queued = rw st.no_items tt;
  answered = rw st.none_sent tt;
}
Reach-IsConsistent {content} st (later {ws} r step e) =
    rw e (Step-IsConsistent content ws step (Reach-IsConsistent st r))

-- Whether an ACK of a number is among the control packets.
abbrev pub acked : ℕ → List CtrlPacket → Bool
acked n [] = false
acked n (c ∷ cs) = c.flag == flag_ack && c.seq_no == n || acked n cs

acked_saved :
    (ws : List Write) (n : ℕ) (cs : List CtrlPacket)
    → AnswersSaved ws cs
    → acked n cs ≡ true
    → is_saved n ws ≡ true
acked_saved ws n [] all h = cc
acked_saved ws n (c ∷ cs) (one, all) h = elim (Bool-cases (c.flag == flag_ack && c.seq_no == n)) [
  | inl this ↦
      let ack : (c.flag == flag_ack) ≡ true = ground arith in
      let number : c.seq_no ≡ n = ground arith in
      subst (λ (k : ℕ). is_saved k ws ≡ true) number (rw ack at one)
  | inr other ↦ acked_saved ws n cs all (rw other at h)
]

-- However the two threads interleave, and whatever becomes of each write, when the server has sent an
-- ACK of a number, a packet with that number has been written whole, all its bytes accepted and
-- flushed; and the file is what the accepted bytes of all the writes, one after the other at their
-- offsets, make of its first content, also behind a write that failed.
pub acknowledged_saved :
    {content : List ℕ} {ws : List Write} {s t : System} (n : ℕ)
    → IsStart content s
    → Reach s ws t
    → acked n t.sent ≡ true
    → (is_saved n ws ≡ true) × Holds t.receiver.handle (file_of content ws)
acknowledged_saved {content} {ws} {t} n st r h =
    let all : IsConsistent content ws t = Reach-IsConsistent st r in
    (acked_saved ws n t.sent all.answered h, all.file)
