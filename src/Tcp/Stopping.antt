-- ===== src/Tcp/Stopping.antt =====
-- tcp_server_stop: which descriptors it closes.
use ucp.Common.{
  ℕ, zero, suc, ◌+◌, ◌-◌, ◌≤◌, ◌<◌, ◌≡◌, arith, true, false, List, [], ◌∷◌, ◌++◌, ltb, ◌==◌, ok,
  returned_parts,
}
use ucp.Tcp.Server.{TcpServer, Event, closed, close_child_socket, stop_loop, stop}

-- `closed` for each descriptor from `lo + n` down to `lo`.
abbrev pub descending : ℕ → ℕ → List Event
descending lo zero = closed lo ∷ []
descending lo (suc n) = closed (lo + suc n) ∷ descending lo n

stop_lem :
    (s : TcpServer) (k n : ℕ) → s.max_sd ≡ s.sd + n → n < k → stop k s ≡ ok (descending s.sd n)
unfolding stop stop_loop close_child_socket
stop_lem s zero n h enough = absurd (omega arith)
stop_lem s (suc k) zero h enough = let over : ltb s.sd s.max_sd ≡ false = ground arith in rw over
stop_lem s (suc k) (suc n) h enough =
    let more : ltb s.sd s.max_sd ≡ true = ground arith in
    let here : (s.max_sd == s.max_sd) ≡ true = ground arith in
    let s₁ : TcpServer = (close_child_socket s.max_sd s).1 in
    let lower : s₁.max_sd ≡ s.sd + n = ground arith in
    let ((events, s'), e, run) =
      returned_parts (λ (events, s'). ok (events ++ closed s'.sd ∷ [])) (stop_loop k s₁)
        (stop_lem s₁ k n lower (omega arith)) in
    rw (more, run) (cc (h))

-- With one round more than `max_sd` is above the server's own descriptor, tcp_server_stop returns, and
-- closes each descriptor from `max_sd` down to the server's own once, in this order, whether or not it
-- is one of the server's connections.
pub stop_closes :
    (s : TcpServer) (k : ℕ)
    → s.sd ≤ s.max_sd
    → s.max_sd - s.sd < k
    → stop k s ≡ ok (descending s.sd (s.max_sd - s.sd))
stop_closes s k h enough = stop_lem s k (s.max_sd - s.sd) (omega arith) enough
