-- ===== src/Server.antt =====
-- Server.h/.cpp and EventLoopThreadPool.h/.cpp: accepting connections and handing each to the event
-- loop of a thread, with `setSocketNonBlocking` of Util.cpp. What `accept` and `fcntl` return is a
-- script. Loop 0 is the base loop; every loop that a thread starts gets the next number.
pub mod Listening
pub mod Turns
pub mod Accepting
pub mod Serving
pub mod Stalling
mod Tests
use light_agent_gateway.Common.{
  ℕ, zero, suc, ◌+◌, ◌-◌, ◌*◌, ◌/◌, ◌%◌, Bool, true, false, ◌&&◌, ◌||◌, not, Option, none, some,
  List, [], ◌∷◌, ◌++◌, ◌==◌, ltb, leb, if◌then◌else◌, length, get_elem?,
}
use light_agent_gateway.Common.Decimal.{ℤ, pos, negsuc}
use light_agent_gateway.Http.World.{Events, no_events}
use light_agent_gateway.Http.Connection.{events_eq, read_events}

pub record EventLoopThreadPool : Type 0 where
  pub started : Bool
  pub num_threads : ℕ
  pub next : ℕ
  pub loops : List ℕ

abbrev pub fresh_pool : ℕ → EventLoopThreadPool
fresh_pool n = record { started = false; num_threads = n; next = 0; loops = [] }

-- The constructor; `none` is `abort`.
unfoldable pub new_pool : ℤ → Option EventLoopThreadPool
new_pool (pos zero) = none
new_pool (pos (suc n)) = some (fresh_pool (suc n))
new_pool (negsuc n) = none

unfoldable pub start_threads : ℕ → EventLoopThreadPool → EventLoopThreadPool
start_threads zero p = p
start_threads (suc n) p =
    start_threads n (record p { loops = p.loops ++ suc (length p.loops) ∷ [] })

unfoldable pub start_pool : EventLoopThreadPool → EventLoopThreadPool
unfolding start_threads
start_pool p = start_threads p.num_threads (record p { started = true })

abbrev pub turn_to : EventLoopThreadPool → Option ℕ → Option (ℕ × EventLoopThreadPool)
turn_to p (some loop) = some (loop, record p { next = (p.next + 1) % p.num_threads })
turn_to p none = none

-- `getNextLoop`; `none` is a read outside `loops_`.
unfoldable pub get_next_loop : EventLoopThreadPool → Option (ℕ × EventLoopThreadPool)
get_next_loop p = elim p.loops [ [] ↦ some (0, p) | l ∷ ls ↦ turn_to p (get_elem? p.loops p.next) ]

-- What the two calls of `fcntl` on a descriptor return: its flags (`none` for -1), and whether they
-- could be set.
pub record Fcntl : Type 0 where
  pub flags : Option ℕ
  pub is_set : Bool

abbrev pub o_nonblock : ℕ
o_nonblock = 2048

-- `setSocketNonBlocking`: the flags that it leaves, or `none` for -1.
unfoldable pub set_socket_non_blocking : Fcntl → Option ℕ
set_socket_non_blocking f = elim f.flags [
  | none ↦ none
  | some flag ↦
      (let flag' = if (flag / o_nonblock) % 2 == 1 then flag else flag + o_nonblock in
        if f.is_set then some flag' else none)
]

-- One call of `accept`.
pub data Accept : Type 0 where
  connection : (fd : ℕ) → Fcntl → Accept
  accept_failed : Accept

-- The accept channel's masks, here and in the poller, and what was done with descriptors: `queued`
-- has those handed to a loop, to be registered there by `newEvent`.
pub record Server : Type 0 where
  pub pool : EventLoopThreadPool
  pub started : Bool
  pub events : Events
  pub last_events : Events
  pub registered : Option Events
  pub has_channel : Bool
  pub accepted : List ℕ
  pub queued : List (ℕ × ℕ)
  pub closed : List ℕ

abbrev pub max_fds : ℕ
max_fds = 100000

-- One round of the loop in `handNewConn`: on to the next call of `accept`, out of the function, or a
-- read outside `loops_`.
pub data Turn : Type 0 where
  again returns : Server → Turn
  outside : Turn

abbrev pub non_blocking : Option ℕ → Bool
non_blocking (some flag) = true
non_blocking none = false

abbrev pub close_fd : ℕ → Server → Server
close_fd fd s = record s { closed = s.closed ++ fd ∷ [] }

abbrev pub queue_new_event : ℕ → ℕ → Server → Server
queue_new_event loop fd s = record s { queued = s.queued ++ (loop, fd) ∷ [] }

-- The body of that loop, for a positive descriptor.
unfoldable pub take_connection : ℕ → Fcntl → Server → Turn
take_connection fd f s = elim (get_next_loop s.pool) [
  | none ↦ outside
  | some (loop, pool) ↦
      (let s' = record s { pool = pool; accepted = s.accepted ++ fd ∷ [] } in
        if leb max_fds fd
        then again (close_fd fd s')
        else if non_blocking (set_socket_non_blocking f)
        then again (queue_new_event loop fd s')
        else returns s')
]

abbrev pub accept_events : Events
accept_events = read_events

-- The line behind the loop.
abbrev pub left_loop : Server → Server
left_loop s = record s { events = accept_events }

unfoldable pub hand_new_conn : List Accept → Server → Option Server
hand_new_conn [] s = some (left_loop s)
hand_new_conn (accept_failed ∷ es) s = some (left_loop s)
hand_new_conn (connection zero f ∷ es) s = some (left_loop s)
hand_new_conn (connection (suc n) f ∷ es) s = elim (take_connection (suc n) f s) [
  | again s' ↦ hand_new_conn es s'
  | returns s' ↦ some s'
  | outside ↦ none
]

-- `handThisConn`: `updatePoller` without a timeout; `ok` tells whether `epoll_ctl` succeeds.
unfoldable pub hand_this_conn : Bool → Server → Server
hand_this_conn ok s =
    if events_eq s.last_events s.events
    then s
    else if ok
    then record s { last_events = s.events; registered = some s.events }
    else record s { last_events = s.events; has_channel = false }

-- `Channel::handleEvents` of the accept channel, which has a read handler and a connection handler.
unfoldable pub handle_events : Bool → Events → List Accept → Server → Option Server
handle_events ok rev es s0 =
    let s = record s0 { events = no_events } in
    let reads =
      if rev.epollin || (rev.epollpri || rev.epollrdhup) then hand_new_conn es s else some s in
    if rev.epollhup && not rev.epollin
    then some s
    else if rev.epollerr
    then some s
    else (elim reads [ none ↦ none | some s' ↦ some (hand_this_conn ok s') ])

-- One report of the accept channel by the poller, with what the system calls return.
pub record Report : Type 0 where
  pub revents : Events
  pub mod_ok : Bool
  pub accepts : List Accept

unfoldable pub serve : List Report → Server → Option Server
serve [] s = some s
serve (r ∷ rs) s = elim (handle_events r.mod_ok r.revents r.accepts s) [
  | none ↦ none
  | some s' ↦ serve rs s'
]
