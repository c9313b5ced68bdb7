-- ===== src/Epoll/Idle.antt =====
-- Connections on which nothing happens: the timer that `newEvent` sets, and `handleExpired`.
use light_agent_gateway.Common.{
  ℕ, ◌≡◌, ◌≢◌, ◌≤◌, ◌<◌, ◌⊎◌, refl, ap, ◌∙◌, Bool, true, false, not, some, List, [], ◌∷◌, ◌==◌,
  if◌then◌else◌, ltb, All, arith, Bool-cases, Option-cases, inl, inr, by_if,
}
use light_agent_gateway.Io.{Socket}
use light_agent_gateway.Timer.{
  TimeVal, TimerNode, milliseconds, expiry, new_node, push, destroyed, expire, add_timer,
}
use light_agent_gateway.Timer.Order.{NotBefore, IsOrdered, push-IsOrdered}
use light_agent_gateway.Timer.Expiry.{Over, expire-cons}
use light_agent_gateway.Http.Connection.{
  Polled, handle_close, epoll_del, new_event, epoll_add, start_timer, default_expired_time,
}
use light_agent_gateway.Epoll.{Epoll, put, close_all, handle_expired, new_polled, add_connection}
use light_agent_gateway.Epoll.Isolation.{is_among}

handle_close-twice :
    (ok : Bool) (p : Polled) → handle_close ok (handle_close ok p) ≡ handle_close ok p
unfolding handle_close epoll_del
handle_close-twice true p = refl
handle_close-twice false p = refl

closed_among :
    (ok among : Bool) (p : Polled)
    → (if among then handle_close ok (handle_close ok p) else handle_close ok p) ≡ handle_close ok p
closed_among ok true p = handle_close-twice ok p
closed_among ok false p = refl

put_there :
    (e : Epoll) (fd i : ℕ) (p : Polled)
    → (fd == i) ≡ false
    → (put e i p).connections fd ≡ e.connections fd
put_there e fd i p f = ground (arith, f)

-- However often a descriptor stands among those that are closed, its connection is closed once.
close_all-connection :
    (ok : ℕ → Bool) (fd : ℕ) (fds : List ℕ) (e : Epoll) (p : Polled)
    → e.connections fd ≡ some p
    → (close_all ok fds e).connections fd
      ≡ some (if is_among fd fds then handle_close (ok fd) p else p)
unfolding close_all
close_all-connection ok fd [] e p h = h
close_all-connection ok fd (i ∷ fds) e p h = elim (Bool-cases (fd == i)) [
  | inl same ↦
      let i_fd : i ≡ fd = ground (arith, same) in
      let p' = handle_close (ok i) p in
      rw (same, close_all, ap e.connections i_fd ∙ h)
        (close_all-connection ok fd fds (put e i p') p' (ground (arith, same))
          ∙ ap
              (λ k. some (
                if is_among fd fds
                then handle_close (ok fd) (handle_close (ok k) p)
                else handle_close (ok k) p))
              i_fd
          ∙ ap some (closed_among (ok fd) (is_among fd fds) p))
  | inr other ↦ elim (Option-cases (e.connections i)) [
    | inl n ↦ rw (other, close_all, n) (close_all-connection ok fd fds e p h)
    | inr (q, s) ↦
        let q' = handle_close (ok i) q in
        rw (other, close_all, s)
          (close_all-connection ok fd fds (put e i q') p (put_there e fd i q' other ∙ h))
  ]
]

-- A node that still holds the connection, and whose time is over.
Overdue : ℕ → TimeVal → List TimerNode → Type 0
Overdue fd now [] = ⊥
Overdue fd now (n ∷ ns) =
    ((n.http_data ≡ some fd) × (n.expired_time ≤ milliseconds now)) ⊎ Overdue fd now ns

not-Overdue :
    {t : ℕ} (fd : ℕ) (now : TimeVal) (ns : List TimerNode)
    → milliseconds now < t
    → NotBefore t ns
    → Overdue fd now ns
    → ⊥
unfolding Overdue
not-Overdue fd now [] h k o = elim o [ ]
not-Overdue fd now (n ∷ ns) h k (inl o) = omega (arith, o.1, k.0, h)
not-Overdue fd now (n ∷ ns) h k (inr o) = not-Overdue fd now ns h k.1 o

expire-Overdue :
    (fd : ℕ) (now : TimeVal) (ns : List TimerNode)
    → IsOrdered ns
    → Overdue fd now ns
    → is_among fd (expire ns now).0 ≡ true
unfolding Overdue destroyed
expire-Overdue fd now [] h o = elim o [ ]
expire-Overdue fd now (n ∷ ns) h o = elim (expire-cons n ns now) [
  | inl (_, e) ↦ rw e (elim o [
    | inl (d, _) ↦ ground (arith, d)
    | inr r ↦ ground (arith, expire-Overdue fd now ns h.1 r)
  ])
  | inr (l, e) ↦ elim o [
    | inl (_, t) ↦ absurd (omega (arith, l, t))
    | inr r ↦ absurd (not-Overdue fd now ns l h.0 r)
  ]
]

-- No node that holds the connection is deleted or over.
abbrev pub Early : ℕ → TimeVal → TimerNode → Type 0
Early fd now n = n.http_data ≡ some fd → (n.deleted ≡ false) × (milliseconds now < n.expired_time)

destroyed_other :
    (fd : ℕ) (n : TimerNode) (closed : List ℕ)
    → n.http_data ≢ some fd
    → is_among fd closed ≡ false
    → is_among fd (destroyed n closed) ≡ false
unfolding destroyed
destroyed_other fd n closed d h = elim (Option-cases n.http_data) [
  | inl e ↦ rw e h
  | inr (c, e) ↦ elim (Bool-cases (fd == c)) [
    | inl s ↦ absurd (d (e ∙ ap some (ground (arith, s))))
    | inr f ↦ rw e (ground (arith, f, h))
  ]
]

Early-other :
    (fd : ℕ) (now : TimeVal) (n : TimerNode) → Early fd now n → Over now n → n.http_data ≢ some fd
Early-other fd now n a o d = ground (arith, a d, o)

pub expire-Early :
    (fd : ℕ) (now : TimeVal) (ns : List TimerNode)
    → All (Early fd now) ns
    → is_among fd (expire ns now).0 ≡ false
unfolding expire
expire-Early fd now [] a = refl
expire-Early fd now (n ∷ ns) a = elim (expire-cons n ns now) [
  | inl (o, e) ↦ rw e (
      destroyed_other fd n (expire ns now).0 (Early-other fd now n a.0 o)
        (expire-Early fd now ns a.1))
  | inr (l, e) ↦ rw e refl
]

push-Overdue :
    (fd : ℕ) (now : TimeVal) (node : TimerNode) (ns : List TimerNode)
    → (node.http_data ≡ some fd) × (node.expired_time ≤ milliseconds now)
    → Overdue fd now (push node ns)
unfolding Overdue push
push-Overdue fd now node [] o = inl o
push-Overdue fd now node (n ∷ ns) o =
    by_if (Overdue fd now) (ltb node.expired_time n.expired_time) _ _ (λ _. inl o)
      (λ _. inr (push-Overdue fd now node ns o))

pub push-Early :
    (fd : ℕ) (now : TimeVal) (node : TimerNode) (ns : List TimerNode)
    → Early fd now node
    → All (Early fd now) ns
    → All (Early fd now) (push node ns)
unfolding push
push-Early fd now node [] o a = (o, tt)
push-Early fd now node (n ∷ ns) o a =
    by_if (All (Early fd now)) (ltb node.expired_time n.expired_time) _ _ (λ _. (o, a))
      (λ _. (a.0, push-Early fd now node ns o a.1))

-- The queue's nodes hold other connections.
abbrev pub NoneHolds : ℕ → List TimerNode → Type 0
NoneHolds fd = All (λ n. n.http_data ≢ some fd)

NoneHolds-Early :
    (fd : ℕ) (now : TimeVal) (ns : List TimerNode) → NoneHolds fd ns → All (Early fd now) ns
NoneHolds-Early fd now [] a = tt
NoneHolds-Early fd now (n ∷ ns) a = (λ d. absurd (a.0 d), NoneHolds-Early fd now ns a.1)

-- The node of a new connection goes exactly when its time is over.
expire-new :
    (fd id timeout : ℕ) (now later : TimeVal) (ns : List TimerNode)
    → IsOrdered ns
    → NoneHolds fd ns
    → is_among fd (expire (push (new_node id (some fd) timeout now) ns) later).0
      ≡ not (ltb (milliseconds later) (expiry now timeout))
unfolding new_node
expire-new fd id timeout now later ns h a =
    let node = new_node id (some fd) timeout now in
    elim (Bool-cases (ltb (milliseconds later) (expiry now timeout))) [
      | inl e ↦ rw e (
          expire-Early fd later (push node ns) (
            push-Early fd later node ns (λ _. (refl, ground (arith, e)))
              (NoneHolds-Early fd later ns a)))
      | inr e ↦ rw e (
          expire-Overdue fd later (push node ns) (push-IsOrdered node ns h)
            (push-Overdue fd later node ns (refl, ground (arith, e))))
    ]

swapped : (b : Bool) (p q : Polled) → (if not b then q else p) ≡ (if b then p else q)
swapped true p q = refl
swapped false p q = refl

-- A connection is added, no node of the queue, which is in order, holds its descriptor, and the next that
-- its loop does is `handleExpired`. If the clock, in milliseconds modulo 10,000 seconds, is then below what it was
-- at the adding plus 2000, the connection is as `newEvent` left it; otherwise `handleClose` has run on it, whether
-- or not `epoll_ctl` succeeds for it or for the others.
pub idle_closes :
    (ok : ℕ → Bool) (now later : TimeVal) (fd : ℕ) (socket : Socket) (e : Epoll)
    → IsOrdered e.timers
    → NoneHolds fd e.timers
    → let p = new_event true now (new_polled fd socket e) in
      (handle_expired ok later (add_connection true now fd socket e)).connections fd
      ≡ some (
          if ltb (milliseconds later) (expiry now default_expired_time)
          then p
          else handle_close (ok fd) p)
unfolding handle_expired add_connection new_event epoll_add start_timer add_timer
idle_closes ok now later fd socket e h a =
    let e' = add_connection true now fd socket e in
    let p = new_event true now (new_polled fd socket e) in
    let (closed, left) = expire e'.timers later in
    close_all-connection ok fd closed (record e' { timers = left }) p (ground arith)
    ∙ ap (λ b. some (if b then handle_close (ok fd) p else p))
        (expire-new fd e.next_timer default_expired_time now later e.timers h a)
    ∙ ap some (
        swapped (ltb (milliseconds later) (expiry now default_expired_time)) p
          (handle_close (ok fd) p))
