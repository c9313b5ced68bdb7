-- ===== src/Server/Accepting.antt =====
-- Which connection goes to which loop.
use light_agent_gateway.Common.{
  ℕ, zero, suc, ◌+◌, ◌%◌, ◌≡◌, ◌<◌, refl, sym, ◌∙◌, subst, true, some, List, [], ◌∷◌, ◌++◌,
  append-nil, append_assoc, length, ltb, if◌then◌else◌, arith, All, Bool-cases, by_if, inl, inr,
}
use light_agent_gateway.Http.World.{Events}
use light_agent_gateway.Server.{
  EventLoopThreadPool, get_next_loop, Fcntl, set_socket_non_blocking, non_blocking, Accept,
  connection, accept_failed, Server, max_fds, again, take_connection, accept_events, hand_new_conn,
  left_loop, close_fd, queue_new_event,
}
use light_agent_gateway.Server.Turns.{InTurn, get_next_loop-InTurn}

-- The descriptors that a script of `accept` yields, up to the first that is not positive.
abbrev pub taken : List Accept → List ℕ
taken [] = []
taken (accept_failed ∷ es) = []
taken (connection zero f ∷ es) = []
taken (connection (suc n) f ∷ es) = suc n ∷ taken es

abbrev pub NonBlocking : Accept → Type 0
NonBlocking (connection fd f) = non_blocking (set_socket_non_blocking f) ≡ true
NonBlocking accept_failed = Unit

-- The loops in turn, from turn `i` on, each with its descriptor.
abbrev pub turns : ℕ → ℕ → List ℕ → List (ℕ × ℕ)
turns n i [] = []
turns n i (fd ∷ fds) = (suc (i % n), fd) ∷ turns n (suc i) fds

abbrev pub in_range : List (ℕ × ℕ) → List (ℕ × ℕ)
in_range [] = []
in_range ((loop, fd) ∷ ds) = if ltb fd max_fds then (loop, fd) ∷ in_range ds else in_range ds

abbrev pub out_of_range : List ℕ → List ℕ
out_of_range [] = []
out_of_range (fd ∷ fds) = if ltb fd max_fds then out_of_range fds else fd ∷ out_of_range fds

-- `fds` were taken from turn `i` on, between `s` and `t`, and dealt with.
pub record Dealt (n i : ℕ) (fds : List ℕ) (s t : Server) : Type 0 where
  pub in_turn : InTurn n (i + length fds) t.pool
  pub queued : t.queued ≡ s.queued ++ in_range (turns n i fds)
  pub closed : t.closed ≡ s.closed ++ out_of_range fds
  pub accepted : t.accepted ≡ s.accepted ++ fds
  pub last_events : t.last_events ≡ s.last_events
  pub registered : t.registered ≡ s.registered

pub Dealt-nothing : (n i : ℕ) (s : Server) → InTurn n i s.pool → Dealt n i [] s s
Dealt-nothing n i s t = record {
  in_turn = subst (λ j. InTurn n j s.pool) (omega arith) t;
  queued = sym (append-nil s.queued);
  closed = sym (append-nil s.closed);
  accepted = sym (append-nil s.accepted);
  last_events = refl;
  registered = refl;
}

-- The channel's own mask does not matter.
pub Dealt-events :
    {n i : ℕ} {fds : List ℕ} (e e' : Events) (s t : Server)
    → Dealt n i fds (record s { events = e }) t
    → Dealt n i fds s (record t { events = e' })
Dealt-events e e' s t d = record {
  in_turn = d.in_turn;
  queued = d.queued;
  closed = d.closed;
  accepted = d.accepted;
  last_events = d.last_events;
  registered = d.registered;
}

-- What one turn does with a descriptor, where it can be made non-blocking.
abbrev after_turn : EventLoopThreadPool → ℕ → ℕ → Server → Server
after_turn q loop fd s =
    let s' = record s { pool = q; accepted = s.accepted ++ fd ∷ [] } in
    if ltb fd max_fds then queue_new_event loop fd s' else close_fd fd s'

take_connection_lem :
    (fd loop : ℕ) (f : Fcntl) (s : Server) (q : EventLoopThreadPool)
    → get_next_loop s.pool ≡ some (loop, q)
    → non_blocking (set_socket_non_blocking f) ≡ true
    → take_connection fd f s ≡ again (after_turn q loop fd s)
unfolding take_connection
take_connection_lem fd loop f s q e b = rw (take_connection, e, b) (ground arith)

pool-after_turn :
    (n i fd : ℕ) (s : Server) (q : EventLoopThreadPool)
    → InTurn n (suc i) q
    → InTurn n (suc i) (after_turn q (suc (i % n)) fd s).pool
pool-after_turn n i fd s q t =
    by_if (λ (s' : Server). InTurn n (suc i) s'.pool) (ltb fd max_fds) _ _ (λ e. t) (λ e. t)

after_turn_lem :
    (n i fd : ℕ) (s : Server) (q : EventLoopThreadPool) (fds : List ℕ) (t : Server)
    → Dealt n (suc i) fds (after_turn q (suc (i % n)) fd s) t
    → Dealt n i (fd ∷ fds) s t
after_turn_lem n i fd s q fds t d = elim (Bool-cases (ltb fd max_fds)) [
  | inl small ↦ record {
    in_turn = subst (λ j. InTurn n j t.pool) (omega arith) d.in_turn;
    queued =
        d.queued
        ∙ rw small
            (append_assoc s.queued ((suc (i % n), fd) ∷ []) (in_range (turns n (suc i) fds)));
    closed = d.closed ∙ ground (arith, small);
    accepted = d.accepted ∙ rw small (append_assoc s.accepted (fd ∷ []) fds);
    last_events = d.last_events ∙ ground (arith, small);
    registered = d.registered ∙ ground (arith, small);
  }
  | inr large ↦ record {
    in_turn = subst (λ j. InTurn n j t.pool) (omega arith) d.in_turn;
    queued = d.queued ∙ ground (arith, large);
    closed = d.closed ∙ rw large (append_assoc s.closed (fd ∷ []) (out_of_range fds));
    accepted = d.accepted ∙ rw large (append_assoc s.accepted (fd ∷ []) fds);
    last_events = d.last_events ∙ ground (arith, large);
    registered = d.registered ∙ ground (arith, large);
  }
]

-- Connections that are handed over or closed.
abbrev pub Connects : Accept → Type 0
Connects (connection fd f) = (0 < fd) × (non_blocking (set_socket_non_blocking f) ≡ true)
Connects accept_failed = ⊥

events-after_turn :
    (q : EventLoopThreadPool) (loop fd : ℕ) (s : Server)
    → (after_turn q loop fd s).events ≡ s.events
events-after_turn q loop fd s = ground arith

-- Behind them, `accept` is called again.
pub hand_new_conn-append :
    (n i : ℕ) (pre post : List Accept) (s : Server)
    → InTurn n i s.pool
    → All Connects pre
    → (t : Server) × (hand_new_conn (pre ++ post) s ≡ hand_new_conn post t)
      × (t.events ≡ s.events)
      × Dealt n i (taken pre) s t
unfolding hand_new_conn
hand_new_conn-append n i [] post s p a = (s, refl, refl, Dealt-nothing n i s p)
hand_new_conn-append n i (accept_failed ∷ es) post s p (a, rest) = absurd a
hand_new_conn-append n i (connection zero f ∷ es) post s p ((l, b), a) = absurd (omega (arith, l))
hand_new_conn-append n i (connection (suc m) f ∷ es) post s p ((l, b), a) =
    let (q, e, turn) = get_next_loop-InTurn n i s.pool p in
    let next = after_turn q (suc (i % n)) (suc m) s in
    let (t, h, r, d) =
      hand_new_conn-append n (suc i) es post next (pool-after_turn n i (suc m) s q turn) a in
    (
      t,
      rw (hand_new_conn, take_connection_lem (suc m) (suc (i % n)) f s q e b) h,
      r ∙ events-after_turn q (suc (i % n)) (suc m) s,
      after_turn_lem n i (suc m) s q (taken es) t d,
    )

pub hand_new_conn-Dealt :
    (n i : ℕ) (es : List Accept) (s : Server)
    → InTurn n i s.pool
    → All NonBlocking es
    → (t : Server) × (hand_new_conn es s ≡ some t)
      × (t.events ≡ accept_events)
      × Dealt n i (taken es) s t
unfolding hand_new_conn
hand_new_conn-Dealt n i [] s p a =
    (left_loop s, refl, refl, Dealt-events s.events accept_events s s (Dealt-nothing n i s p))
hand_new_conn-Dealt n i (accept_failed ∷ es) s p a =
    (left_loop s, refl, refl, Dealt-events s.events accept_events s s (Dealt-nothing n i s p))
hand_new_conn-Dealt n i (connection zero f ∷ es) s p a =
    (left_loop s, refl, refl, Dealt-events s.events accept_events s s (Dealt-nothing n i s p))
hand_new_conn-Dealt n i (connection (suc m) f ∷ es) s p (b, a) =
    let (q, e, turn) = get_next_loop-InTurn n i s.pool p in
    let next = after_turn q (suc (i % n)) (suc m) s in
    let (t, h, r, d) =
      hand_new_conn-Dealt n (suc i) es next (pool-after_turn n i (suc m) s q turn) a in
    (
      t,
      rw (hand_new_conn, take_connection_lem (suc m) (suc (i % n)) f s q e b) h,
      r,
      after_turn_lem n i (suc m) s q (taken es) t d,
    )
