-- ===== src/Tcp/Ticking.antt =====
-- tcp_server_tick: which events come out of it, in which order, and what is left in the set.
use ucp.Common.{
  ℕ, zero, suc, ◌+◌, ◌≤◌, ◌<◌, ◌≡◌, ◌≢◌, refl, ap, ◌∙◌, arith, Bool, true, false, Option, none,
  some, List, [], ◌++◌, ltb, leb, ◌==◌, if◌then◌else◌, ◌&&◌, length, ok, Bool-cases, inl, inr,
}
use ucp.Tcp.Server.{fd_setsize, segment_size, TcpServer, Connection, serve, tick_loop, tick}
use ucp.Tcp.Valid.{IsServing, IsNew, IsAccepted, accept-IsAccepted, accept_events, is_new}
use ucp.Tcp.Rounds.{expected, is_gone, IsReadable, IsTicked, loop_lem}

-- The connection that a call of tcp_server_tick accepts: none where the server's descriptor is not ready.
abbrev pub incoming : (ℕ → Bool) → Connection → TcpServer → Option ℕ
incoming ready connection s = if ready s.sd then connection.new_sd else none

-- The round for the server's own descriptor.
own_round :
    (s : TcpServer) (ready : ℕ → Bool) (reads : ℕ → Option (List ℕ)) (connection : Connection)
    → IsServing s
    → IsNew connection s
    → (s₁ : TcpServer) × ((if ready s.sd then serve connection reads s.sd s else ok ([], s))
        ≡ ok (accept_events (incoming ready connection s), s₁))
      × IsAccepted (incoming ready connection s) s s₁
unfolding serve
own_round s ready reads connection h new = elim (Bool-cases (ready s.sd)) [
  | inr off ↦ (
    s,
    rw off,
    rw off (record { serving = h; same_sd = refl; grown = λ a. refl; old = λ a inside. refl }),
  )
  | inl on ↦
      let (s₁, run, done) = accept-IsAccepted s connection h new in
      let own : (s.sd == s.sd) ≡ true = ground arith in (s₁, rw (on, own, run), rw on done)
]

-- The descriptor set after a call of tcp_server_tick.
abbrev pub set_after : (ℕ → Bool) → (ℕ → List ℕ) → Connection → TcpServer → ℕ → Bool
set_after ready reads connection s a =
    if ltb s.sd a && is_gone ready reads a
    then false
    else (if is_new (incoming ready connection s) a then true else s.server_fd_set a)

set_after_lem :
    (s s₁ s' : TcpServer) (ready : ℕ → Bool) (reads : ℕ → List ℕ) (connection : Connection)
    → IsAccepted (incoming ready connection s) s s₁
    → IsTicked ready reads (s.sd + 1) s₁ s'
    → (a : ℕ) → a ≢ s.sd
    → s'.server_fd_set a ≡ set_after ready reads connection s a
set_after_lem s s₁ s' ready reads connection done ticked a apart = elim (Bool-cases (ltb s.sd a)) [
  | inl above ↦
      ticked.after a (ground arith)
      ∙ rw above (ap (λ inside. if is_gone ready reads a then false else inside) (done.grown a))
  | inr below ↦ ticked.before a (ground arith) ∙ rw below (done.grown a)
]

-- A call of tcp_server_tick of a well-formed server, after `select` has found the descriptors `ready`,
-- all of the set, where each can be read (the at most 1024 bytes in `reads`, none where the peer has
-- closed), a connection that waits gets a descriptor outside the set and below FD_SETSIZE, and memory
-- is left: with two rounds more than FD_SETSIZE it returns, accepts the connection if the server's own
-- descriptor is ready, then reports one event for each ready descriptor above it, in ascending order
-- (`closed` for no bytes, else the padded bytes with their endpoint and length), takes the closed ones
-- out of the set, adds the new one, changes no other, and keeps the server well formed. A descriptor
-- below the server's own has no event.
pub tick_lem :
    (s : TcpServer) (ready : ℕ → Bool) (reads : ℕ → List ℕ) (connection : Connection) (k n : ℕ)
    → IsServing s
    → IsNew connection s
    → ((a : ℕ) → ready a ≡ true → s.server_fd_set a ≡ true)
    → ((a : ℕ) → ready a ≡ true → length (reads a) ≤ segment_size)
    → fd_setsize ≤ n
    → n + 1 < k
    → (s' : TcpServer) × (tick k true ready connection (λ a. some (reads a)) s
        ≡ ok (
          accept_events (incoming ready connection s)
              ++ expected s.endpoints ready reads (s.sd + 1) n,
          s',
        ))
      × IsServing s'
      × ((a : ℕ) → a ≢ s.sd → s'.server_fd_set a ≡ set_after ready reads connection s a)
unfolding tick tick_loop
tick_lem s ready reads connection zero n h new subset fits enough fuel = absurd (omega arith)
tick_lem s ready reads connection (suc k) n h new subset fits enough fuel =
    let (s₁, first, done) = own_round s ready (λ a. some (reads a)) connection h new in
    let readable : (a : ℕ) → s.sd + 1 ≤ a → ready a ≡ true → IsReadable s.endpoints reads s₁ a =
      λ a above live. record {
        inside = done.grown a ∙ ground (arith, subset a live);
        same = done.old a (subset a live);
        fits = fits a live;
      } in
    let (s', run, ticked) =
      loop_lem s₁ s.endpoints ready reads connection k n (s.sd + 1) done.serving
        (omega (arith, done.same_sd)) readable (omega (arith, done.serving.limited))
        (omega arith) in
    let within : leb s.sd s.max_sd ≡ true = ground arith in
    (
      s',
      rw (within, first, run),
      ticked.serving,
      set_after_lem s s₁ s' ready reads connection done ticked,
    )
