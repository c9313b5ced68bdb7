-- ===== src/Timer.antt =====
-- Timer.h and Timer.cpp: the timers of the connections. A node has a number in place of its address,
-- and a connection is named by its descriptor. The clock's time is an argument.
pub mod Order
pub mod Expiry
mod Tests
use light_agent_gateway.Common.{
  ℕ, suc, ◌+◌, ◌*◌, ◌/◌, ◌%◌, ◌^◌, Bool, true, false, Option, none, some, List, [], ◌∷◌, ◌++◌, ◌==◌,
  ltb, if◌then◌else◌,
}

-- `struct timeval`.
pub record TimeVal : Type 0 where
  pub tv_sec : ℕ
  pub tv_usec : ℕ

pub record TimerNode : Type 0 where
  pub id : ℕ
  pub deleted : Bool
  pub expired_time : ℕ
  pub http_data : Option ℕ

-- The priority queue in the order in which it hands out its nodes: the least time first. Of nodes with
-- one time, whose order the library leaves open, the older comes first.
pub record TimerManager : Type 0 where
  pub queue : List TimerNode
  pub next_id : ℕ

abbrev pub milliseconds : TimeVal → ℕ
milliseconds now = now.tv_sec % 10000 * 1000 + now.tv_usec / 1000

-- The expression of the constructor and of `update`, stored in a `size_t`.
abbrev pub expiry : TimeVal → ℕ → ℕ
expiry now timeout = (milliseconds now + timeout) % 2 ^ 64

unfoldable pub new_node : ℕ → Option ℕ → ℕ → TimeVal → TimerNode
new_node id request timeout now = record {
  id = id;
  deleted = false;
  expired_time = expiry now timeout;
  http_data = request;
}

pub update : TimerNode → ℕ → TimeVal → TimerNode
update node timeout now = record node { expired_time = expiry now timeout }

-- The answer, and the node, which is marked when its time is over.
pub is_valid : TimerNode → TimeVal → Bool × TimerNode
is_valid node now =
    if ltb (milliseconds now) node.expired_time
    then (true, node)
    else (false, record node { deleted = true })

unfoldable pub clear_req : TimerNode → TimerNode
clear_req node = record node { http_data = none; deleted = true }

-- `push`.
unfoldable pub push : TimerNode → List TimerNode → List TimerNode
push node [] = node ∷ []
push node (n ∷ ns) =
    if ltb node.expired_time n.expired_time then node ∷ n ∷ ns else n ∷ push node ns

-- The manager with the new node, and its number, which `linkTimer` stores in the connection.
unfoldable pub add_timer : TimerManager → ℕ → ℕ → TimeVal → TimerManager × ℕ
unfolding new_node push
add_timer m connection timeout now = (
  record {
    queue = push (new_node m.next_id (some connection) timeout now) m.queue;
    next_id = suc m.next_id;
  },
  m.next_id,
)

-- `clearReq` on the node that a connection's weak pointer names, if it is still there.
unfoldable pub clear_linked : ℕ → List TimerNode → List TimerNode
unfolding clear_req
clear_linked id [] = []
clear_linked id (n ∷ ns) = (if n.id == id then clear_req n else n) ∷ clear_linked id ns

-- `~TimerNode`: the connection that `handleClose` is called on.
unfoldable pub destroyed : TimerNode → List ℕ → List ℕ
destroyed node closed = elim node.http_data [ none ↦ closed | some c ↦ c ∷ closed ]

-- The loop of `handleExpiredEvent`: the connections closed, in order, and the nodes left. A node that
-- is looked at and kept is unchanged, since `isValid` marks only the nodes that are then popped.
unfoldable pub expire : List TimerNode → TimeVal → List ℕ × List TimerNode
unfolding is_valid destroyed
expire [] now = ([], [])
expire (n ∷ ns) now =
    let (closed, left) = expire ns now in
    if n.deleted
    then (destroyed n closed, left)
    else (let (valid, n') = is_valid n now in
        if valid then ([], n' ∷ ns) else (destroyed n' closed, left))

pub handle_expired_event : TimerManager → TimeVal → List ℕ × TimerManager
unfolding expire
handle_expired_event m now =
    let (closed, left) = expire m.queue now in (closed, record m { queue = left })
