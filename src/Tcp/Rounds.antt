-- ===== src/Tcp/Rounds.antt =====
-- The rounds of tcp_server_tick for the descriptors above the server's own.
use ucp.Common.{
  ℕ, zero, suc, ◌+◌, ◌≤◌, ◌<◌, ◌≡◌, ◌≢◌, refl, ap, ◌∙◌, arith, Bool, true, false, some, List, [],
  ◌∷◌, leb, ◌==◌, if◌then◌else◌, length, ok, Bool-cases, inl, inr,
}
use ucp.Tcp.Server.{
  segment_size, Endpoint, TcpServer, Event, Connection, close_child_socket, get_endpoint, serve,
  tick_loop,
}
use ucp.Tcp.Valid.{
  IsServing, close_child_socket-IsServing, receive_event, receive_state, receive-receive_event,
}

-- One event for each descriptor that is ready, of the `n` descriptors from `d` on.
abbrev pub expected : List Endpoint → (ℕ → Bool) → (ℕ → List ℕ) → ℕ → ℕ → List Event
expected endpoints ready reads d zero = []
expected endpoints ready reads d (suc n) =
    let later = expected endpoints ready reads (d + 1) n in
    if ready d then receive_event endpoints (reads d) d ∷ later else later

-- The descriptors whose peer has closed the connection.
abbrev pub is_gone : (ℕ → Bool) → (ℕ → List ℕ) → ℕ → Bool
is_gone ready reads a = if ready a then length (reads a) == 0 else false

-- What the loop needs of a descriptor that is ready.
pub record IsReadable (endpoints : List Endpoint) (reads : ℕ → List ℕ) (s : TcpServer) (a : ℕ)
    : Type 0 where
  pub inside : s.server_fd_set a ≡ true
  pub same : get_endpoint s.endpoints a ≡ get_endpoint endpoints a
  pub fits : length (reads a) ≤ segment_size

pub record IsTicked (ready : ℕ → Bool) (reads : ℕ → List ℕ) (d : ℕ) (s s' : TcpServer)
    : Type 0 where
  pub serving : IsServing s'
  pub same_sd : s'.sd ≡ s.sd
  pub before : (a : ℕ) → a < d → s'.server_fd_set a ≡ s.server_fd_set a
  pub after :
      (a : ℕ)
      → d ≤ a
      → s'.server_fd_set a ≡ (if is_gone ready reads a then false else s.server_fd_set a)

expected-[] :
    (endpoints : List Endpoint) (ready : ℕ → Bool) (reads : ℕ → List ℕ) (d n : ℕ)
    → ((a : ℕ) → d ≤ a → ready a ≡ false)
    → expected endpoints ready reads d n ≡ []
expected-[] endpoints ready reads d zero idle = refl
expected-[] endpoints ready reads d (suc n) idle =
    let later = expected-[] endpoints ready reads (d + 1) n (λ a h. idle a (omega arith)) in
    rw (idle d (omega arith), later)

-- One round of the loop for a connection.
serve_lem :
    (s : TcpServer) (endpoints : List Endpoint) (reads : ℕ → List ℕ) (connection : Connection)
    (d : ℕ)
    → s.sd < d
    → IsReadable endpoints reads s d
    → serve connection (λ a. some (reads a)) d s
      ≡ ok (receive_event endpoints (reads d) d ∷ [], receive_state (reads d) d s)
unfolding serve
serve_lem s endpoints reads connection d above h =
    let other : (d == s.sd) ≡ false = ground arith in
    rw (other, receive-receive_event s (reads d) d h.fits, h.same)

-- One round changes no other descriptor.
record IsServed (ready : ℕ → Bool) (reads : ℕ → List ℕ) (d : ℕ) (s s' : TcpServer) : Type 0 where
  serving : IsServing s'
  same_sd : s'.sd ≡ s.sd
  same_endpoints : s'.endpoints ≡ s.endpoints
  lowered : s'.max_sd ≤ s.max_sd
  own : s'.server_fd_set d ≡ (if is_gone ready reads d then false else s.server_fd_set d)
  others : (a : ℕ) → a ≢ d → s'.server_fd_set a ≡ s.server_fd_set a

receive_state_lem :
    (s : TcpServer) (ready : ℕ → Bool) (reads : ℕ → List ℕ) (d : ℕ)
    → IsServing s
    → s.sd < d
    → ready d ≡ true
    → IsServed ready reads d s (receive_state (reads d) d s)
unfolding close_child_socket
receive_state_lem s ready reads d h above on = elim (Bool-cases (length (reads d) == 0)) [
  | inl gone ↦ rw gone (record {
    serving = close_child_socket-IsServing s d h (λ e. omega arith);
    same_sd = refl;
    same_endpoints = refl;
    lowered = ground arith;
    own = ground arith;
    others = λ a apart. ground arith;
  })
  | inr some_bytes ↦ rw some_bytes (record {
    serving = h;
    same_sd = refl;
    same_endpoints = refl;
    lowered = omega arith;
    own = rw (on, some_bytes);
    others = λ a apart. refl;
  })
]

-- A round for a descriptor that is not ready.
unserved :
    (s : TcpServer) (ready : ℕ → Bool) (reads : ℕ → List ℕ) (d : ℕ)
    → IsServing s
    → ready d ≡ false
    → IsServed ready reads d s s
unserved s ready reads d h off = record {
  serving = h;
  same_sd = refl;
  same_endpoints = refl;
  lowered = omega arith;
  own = rw off;
  others = λ a apart. refl;
}

IsServed-IsReadable :
    (s s₁ : TcpServer) (endpoints : List Endpoint) (ready : ℕ → Bool) (reads : ℕ → List ℕ) (d a : ℕ)
    → IsServed ready reads d s s₁
    → d < a
    → IsReadable endpoints reads s a
    → IsReadable endpoints reads s₁ a
IsServed-IsReadable s s₁ endpoints ready reads d a one above h = record {
  inside = one.others a (λ e. omega arith) ∙ h.inside;
  same = ap (λ list. get_endpoint list a) one.same_endpoints ∙ h.same;
  fits = h.fits;
}

-- What the rounds before and after make together.
IsTicked-IsServed :
    (s s₁ s' : TcpServer) (ready : ℕ → Bool) (reads : ℕ → List ℕ) (d : ℕ)
    → IsServed ready reads d s s₁
    → IsTicked ready reads (d + 1) s₁ s'
    → IsTicked ready reads d s s'
IsTicked-IsServed s s₁ s' ready reads d one rest = record {
  serving = rest.serving;
  same_sd = rest.same_sd ∙ one.same_sd;
  before = λ a below. rest.before a (omega arith) ∙ one.others a (λ e. omega arith);
  after = λ a above. elim (Bool-cases (a == d)) [
    | inl here ↦ let e : a ≡ d = ground arith in rw e (rest.before d (omega arith) ∙ one.own)
    | inr there ↦
        rest.after a (ground arith)
        ∙ ap (λ inside. if is_gone ready reads a then false else inside)
            (one.others a (ground arith))
  ];
}

-- The loop stops behind the largest descriptor, and none there is ready.
loop_done :
    (s : TcpServer) (endpoints : List Endpoint) (ready : ℕ → Bool) (reads : ℕ → List ℕ)
    (connection : Connection) (k n d : ℕ)
    → IsServing s
    → s.max_sd < d
    → ((a : ℕ) → d ≤ a → ready a ≡ true → IsReadable endpoints reads s a)
    → (s' : TcpServer) × (tick_loop (suc k) ready connection (λ a. some (reads a)) d s
        ≡ ok (expected endpoints ready reads d n, s'))
      × IsTicked ready reads d s s'
unfolding tick_loop
loop_done s endpoints ready reads connection k n d h behind readable =
    let over : leb d s.max_sd ≡ false = ground arith in
    let idle : (a : ℕ) → d ≤ a → ready a ≡ false = λ a above. elim (Bool-cases (ready a)) [
      | inl on ↦ absurd (omega (arith, h.capped a (readable a above on).inside))
      | inr off ↦ off
    ] in
    (
      s,
      rw (over, expected-[] endpoints ready reads d n idle),
      record {
        serving = h;
        same_sd = refl;
        before = λ a below. refl;
        after = λ a above. rw (idle a above);
      },
    )

-- The loop above the server's own descriptor.
pub loop_lem :
    (s : TcpServer) (endpoints : List Endpoint) (ready : ℕ → Bool) (reads : ℕ → List ℕ)
    (connection : Connection) (k n d : ℕ)
    → IsServing s
    → s.sd < d
    → ((a : ℕ) → d ≤ a → ready a ≡ true → IsReadable endpoints reads s a)
    → s.max_sd < d + n
    → n < k
    → (s' : TcpServer) × (tick_loop k ready connection (λ a. some (reads a)) d s
        ≡ ok (expected endpoints ready reads d n, s'))
      × IsTicked ready reads d s s'
unfolding tick_loop
loop_lem s endpoints ready reads connection zero n d h above readable far enough =
    absurd (omega arith)
loop_lem s endpoints ready reads connection (suc k) zero d h above readable far enough =
    loop_done s endpoints ready reads connection k 0 d h (omega arith) readable
loop_lem s endpoints ready reads connection (suc k) (suc n) d h above readable far enough =
    elim (Bool-cases (leb d s.max_sd)) [
      | inr past ↦
          loop_done s endpoints ready reads connection k (suc n) d h (ground arith) readable
      | inl within ↦ elim (Bool-cases (ready d)) [
        | inl on ↦
            let own = readable d (omega arith) on in
            let one = receive_state_lem s ready reads d h above on in
            let s₁ : TcpServer = receive_state (reads d) d s in
            let (s', run, ticked) =
              loop_lem s₁ endpoints ready reads connection k n (d + 1) one.serving
                (omega (arith, one.same_sd))
                (λ a higher live.
                  IsServed-IsReadable s s₁ endpoints ready reads d a one (omega arith)
                    (readable a (omega arith) live))
                (omega (arith, one.lowered)) (omega arith) in
            (
              s',
              rw (within, on, serve_lem s endpoints reads connection d above own, run),
              IsTicked-IsServed s s₁ s' ready reads d one ticked,
            )
        | inr off ↦
            let (s', run, ticked) =
              loop_lem s endpoints ready reads connection k n (d + 1) h (omega arith)
                (λ a higher live. readable a (omega arith) live) (omega arith) (omega arith) in
            (
              s',
              rw (within, off, run),
              IsTicked-IsServed s s s' ready reads d (unserved s ready reads d h off) ticked,
            )
      ]
    ]
