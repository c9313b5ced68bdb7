-- ===== src/Timer/Order.antt =====
-- The timer queue over any sequence of operations: its order and its nodes' numbers.
use light_agent_gateway.Common.{
  ℕ, suc, ◌≤◌, ◌<◌, some, List, [], ◌∷◌, ltb, All, arith, Bool-cases, inl, inr,
}
use light_agent_gateway.Timer.{
  TimeVal, TimerNode, TimerManager, new_node, push, add_timer, clear_linked, expire,
  handle_expired_event,
}

abbrev pub NotBefore : ℕ → List TimerNode → Type 0
NotBefore t = All (λ n. t ≤ n.expired_time)

abbrev pub IsOrdered : List TimerNode → Type 0
IsOrdered [] = Unit
IsOrdered (n ∷ ns) = NotBefore n.expired_time ns × IsOrdered ns

NotBefore-trans : {s t : ℕ} (ns : List TimerNode) → s ≤ t → NotBefore t ns → NotBefore s ns
NotBefore-trans [] h k = tt
NotBefore-trans (n ∷ ns) h k = (omega arith, NotBefore-trans ns h k.1)

push-NotBefore :
    {t : ℕ} (node : TimerNode) (ns : List TimerNode)
    → t ≤ node.expired_time
    → NotBefore t ns
    → NotBefore t (push node ns)
unfolding push
push-NotBefore node [] h k = (h, tt)
push-NotBefore node (n ∷ ns) h k = ground (arith, push-NotBefore node ns h k.1)

pub push-IsOrdered :
    (node : TimerNode) (ns : List TimerNode) → IsOrdered ns → IsOrdered (push node ns)
unfolding push
push-IsOrdered node [] h = (tt, tt)
push-IsOrdered node (n ∷ ns) h = elim (Bool-cases (ltb node.expired_time n.expired_time)) [
  | inl e ↦ rw e ((ground arith, NotBefore-trans ns (ground arith) h.0), (h.0, h.1))
  | inr e ↦ rw e (push-NotBefore node ns (ground arith) h.0, push-IsOrdered node ns h.1)
]

clear_linked-NotBefore :
    (t id : ℕ) (ns : List TimerNode) → NotBefore t ns → NotBefore t (clear_linked id ns)
unfolding clear_linked
clear_linked-NotBefore t id [] h = tt
clear_linked-NotBefore t id (n ∷ ns) h = ground (arith, clear_linked-NotBefore t id ns h.1)

clear_linked-IsOrdered :
    (id : ℕ) (ns : List TimerNode) → IsOrdered ns → IsOrdered (clear_linked id ns)
unfolding clear_linked
clear_linked-IsOrdered id [] h = tt
clear_linked-IsOrdered id (n ∷ ns) h =
    ground
      (arith, clear_linked-NotBefore n.expired_time id ns h.0, clear_linked-IsOrdered id ns h.1)

expire-IsOrdered :
    (ns : List TimerNode) (now : TimeVal) → IsOrdered ns → IsOrdered (expire ns now).1
unfolding expire
expire-IsOrdered [] now h = tt
expire-IsOrdered (n ∷ ns) now h = ground (arith, expire-IsOrdered ns now h.1)

pub data Operation : Type 0 where
  adds : ℕ → ℕ → TimeVal → Operation
  clears : ℕ → Operation
  expires : TimeVal → Operation

abbrev pub perform : TimerManager → Operation → TimerManager
perform m (adds connection timeout now) = (add_timer m connection timeout now).0
perform m (clears id) = record m { queue = clear_linked id m.queue }
perform m (expires now) = (handle_expired_event m now).1

abbrev pub run : TimerManager → List Operation → TimerManager
run m [] = m
run m (o ∷ os) = run (perform m o) os

abbrev pub IsValid : TimerManager → Type 0
IsValid m = IsOrdered m.queue × All (λ n. n.id < m.next_id) m.queue

abbrev Below : ℕ → List TimerNode → Type 0
Below b = All (λ n. n.id < b)

push-Below :
    (b : ℕ) (node : TimerNode) (ns : List TimerNode)
    → node.id < b
    → Below b ns
    → Below b (push node ns)
unfolding push
push-Below b node [] h k = (h, tt)
push-Below b node (n ∷ ns) h k = ground (arith, push-Below b node ns h k.1)

Below-weaken : (b : ℕ) (ns : List TimerNode) → Below b ns → Below (suc b) ns
Below-weaken b [] k = tt
Below-weaken b (n ∷ ns) k = (omega arith, Below-weaken b ns k.1)

clear_linked-Below : (b id : ℕ) (ns : List TimerNode) → Below b ns → Below b (clear_linked id ns)
unfolding clear_linked
clear_linked-Below b id [] k = tt
clear_linked-Below b id (n ∷ ns) k = ground (arith, clear_linked-Below b id ns k.1)

expire-Below :
    (b : ℕ) (ns : List TimerNode) (now : TimeVal) → Below b ns → Below b (expire ns now).1
unfolding expire
expire-Below b [] now k = tt
expire-Below b (n ∷ ns) now k = ground (arith, expire-Below b ns now k.1)

perform-IsValid : (m : TimerManager) (o : Operation) → IsValid m → IsValid (perform m o)
unfolding add_timer handle_expired_event
perform-IsValid m (adds c t now) v =
    let node : TimerNode = new_node m.next_id (some c) t now in
    (
      push-IsOrdered node m.queue v.0,
      push-Below (suc m.next_id) node m.queue (omega arith) (Below-weaken m.next_id m.queue v.1),
    )
perform-IsValid m (clears id) v =
    (clear_linked-IsOrdered id m.queue v.0, clear_linked-Below m.next_id id m.queue v.1)
perform-IsValid m (expires now) v =
    (expire-IsOrdered m.queue now v.0, expire-Below m.next_id m.queue now v.1)

-- Whatever timers are added, detached and expired, in any order and at any clock readings, the queue
-- stays ordered by time and the number of every node in it lies below the next one.
pub run-IsValid : (os : List Operation) (m : TimerManager) → IsValid m → IsValid (run m os)
run-IsValid [] m v = v
run-IsValid (o ∷ os) m v = run-IsValid os (perform m o) (perform-IsValid m o v)
