-- ===== src/Timer/Expiry.antt =====
-- `handleExpiredEvent` of Timer.cpp and the clock's wrap.
use light_agent_gateway.Common.{
  ℕ, ◌+◌, ◌^◌, ◌≤◌, ◌<◌, ◌≡◌, ◌⊎◌, refl, true, none, some, List, [], ◌∷◌, ◌++◌, ltb, All, arith,
  Bool-cases, inl, inr, ap,
}
use light_agent_gateway.Timer.{
  TimeVal, TimerNode, milliseconds, new_node, is_valid, destroyed, expire,
}
use light_agent_gateway.Timer.Order.{NotBefore, IsOrdered}

-- The nodes that the loop takes off, in front of those that it leaves.
abbrev pub Over : TimeVal → TimerNode → Type 0
Over now n = (n.deleted ≡ true) ⊎ (n.expired_time ≤ milliseconds now)

abbrev pub requests : List TimerNode → List ℕ
requests [] = []
requests (n ∷ ns) = elim n.http_data [ none ↦ requests ns | some c ↦ c ∷ requests ns ]

pub record Expired (ns : List TimerNode) (now : TimeVal) (closed : List ℕ) (left : List TimerNode)
    : Type 0 where
  pub popped : List TimerNode
  pub splits : ns ≡ popped ++ left
  pub are_over : All (Over now) popped
  pub closes : closed ≡ requests popped
  pub none_over : All (λ n. milliseconds now < n.expired_time) left

none_over_of :
    {t : ℕ} (now : TimeVal) (ns : List TimerNode)
    → milliseconds now < t
    → NotBefore t ns
    → All (λ n. milliseconds now < n.expired_time) ns
none_over_of now [] h k = tt
none_over_of now (n ∷ ns) h k = (omega arith, none_over_of now ns h k.1)

module _ (n : TimerNode) (ns : List TimerNode) (now : TimeVal) where
  take_off :
      {closed : List ℕ} {left : List TimerNode}
      → Over now n
      → Expired ns now closed left
      → Expired (n ∷ ns) now (destroyed n closed) left
  unfolding destroyed
  take_off h e = record {
    popped = n ∷ e.popped;
    splits = ap (◌∷◌ n) e.splits;
    are_over = (h, e.are_over);
    closes = ground arith;
    none_over = e.none_over;
  }

  stop :
      milliseconds now < n.expired_time
      → NotBefore n.expired_time ns
      → Expired (n ∷ ns) now [] (n ∷ ns)
  stop h k = record {
    popped = [];
    splits = refl;
    are_over = tt;
    closes = refl;
    none_over = (h, none_over_of now ns h k);
  }

  -- The two ways through the loop's body.
  pub expire-cons :
      (Over now n × (expire (n ∷ ns) now ≡ (destroyed n (expire ns now).0, (expire ns now).1)))
      ⊎ ((milliseconds now < n.expired_time) × (expire (n ∷ ns) now ≡ ([], n ∷ ns)))
  unfolding expire
  expire-cons = elim (Bool-cases n.deleted) [
    | inl e ↦ inl (inl e, ground arith)
    | inr e ↦ elim (Bool-cases (ltb (milliseconds now) n.expired_time)) [
      | inl later ↦ inr (ground arith, ground arith)
      | inr past ↦ inl (inr (ground arith), ground arith)
    ]
  ]

-- From an ordered queue, `handleExpiredEvent` takes off a first part, in which every node is marked as
-- deleted or has a time that is over, and closes exactly the connections that those nodes still
-- hold, in order; every node that it leaves has a time still to come.
pub expire-Expired :
    (ns : List TimerNode) (now : TimeVal)
    → IsOrdered ns
    → Expired ns now (expire ns now).0 (expire ns now).1
expire-Expired [] now h =
    unfold expire in
    record { popped = []; splits = refl; are_over = tt; closes = refl; none_over = tt }
expire-Expired (n ∷ ns) now h = elim (expire-cons n ns now) [
  | inl (o, e) ↦ rw e (take_off n ns now o (expire-Expired ns now h.1))
  | inr (later, e) ↦ rw e (stop n ns now later h.0)
]

-- A timer set when the clock's milliseconds plus the timeout reach 10,000,000 never runs out: the
-- clock is read modulo 10,000 seconds, so at every time at all the node still counts as valid, and
-- while no one detaches it `handleExpiredEvent` leaves it where it is the queue's first, with all
-- that stand behind it.
pub never_expires :
    (id connection timeout : ℕ) (now later : TimeVal) (ns : List TimerNode)
    → 10_000_000 ≤ milliseconds now + timeout
    → milliseconds now + timeout < 2 ^ 64
    → later.tv_usec < 1_000_000
    → let node : TimerNode = new_node id (some connection) timeout now in
      (is_valid node later ≡ (true, node)) × (expire (node ∷ ns) later ≡ ([], node ∷ ns))
unfolding new_node is_valid expire
never_expires id connection timeout now later ns h k u = (ground arith, ground arith)
