-- ===== src/Epoll.antt =====
-- Epoll.h/.cpp over all the descriptors of one loop: `poll` with `getEventsRequest`, what
-- `EventLoop::loop` does with the active channels, and `handleExpired`. Http.Connection has what the
-- handlers do to one connection. The descriptors are below `MAXFDS`, as `handNewConn` sees to.
pub mod Handlers
pub mod Consistency
pub mod Isolation
pub mod Idle
pub mod Timeliness
pub mod Delivery
mod Tests
use light_agent_gateway.Common.{
  ℕ, Bool, true, false, Option, none, some, List, [], ◌∷◌, ◌==◌, if◌then◌else◌,
}
use light_agent_gateway.Gateway.{Counters}
use light_agent_gateway.Io.{Socket}
use light_agent_gateway.Timer.{TimeVal, TimerNode, expire}
use light_agent_gateway.Http.{
  HttpData, h_connected, method_get, http_11, parse_uri_state, h_start, Run, done, undefined,
  exhausted,
}
use light_agent_gateway.Http.World.{Events, no_events, World}
use light_agent_gateway.Http.Analysis.{Host}
use light_agent_gateway.Http.Connection.{
  Polled, with_events, handle_close, new_event, handle_events,
}

-- `connections` are the objects behind `fd2chan_` and `fd2http_`; the rest is shared by them.
pub record Epoll : Type 0 where
  pub connections : ℕ → Option Polled
  pub timers : List TimerNode
  pub next_timer : ℕ
  pub counters : Counters

-- What the kernel keeps of a one-shot mask that it has reported: nothing more is reported for it until
-- `epoll_ctl` sets a mask.
abbrev pub unarmed : Events → Events
unarmed m = record no_events { epollet = m.epollet; epolloneshot = m.epolloneshot }

abbrev pub disarmed : Option Events → Option Events
disarmed none = none
disarmed (some m) = some (if m.epolloneshot then unarmed m else m)

abbrev pub disarm : Polled → Polled
disarm p = record p { registered = disarmed p.registered }

pub record EpollEvent : Type 0 where
  pub fd : ℕ
  pub revents : Events

abbrev pub put : Epoll → ℕ → Polled → Epoll
put e fd p = record e { connections = λ i. if i == fd then some p else e.connections i }

-- A connection as its handlers see it, and what they leave.
abbrev pub enter : Epoll → Polled → Polled
enter e p = record p {
  world = record (p.world) { timers = e.timers; counters = e.counters };
  next_timer = e.next_timer;
}

abbrev pub leave : Epoll → ℕ → Polled → Epoll
leave e fd p = record (put e fd p) {
  timers = p.world.timers;
  next_timer = p.next_timer;
  counters = p.world.counters;
}

-- `fd2chan_[fd]`.
abbrev pub channel_of : Option Polled → Option Polled
channel_of none = none
channel_of (some p) = if p.has_channel then some p else none

-- The active channels, in the kernel's order; those without a channel are only logged.
unfoldable pub get_events_request : List EpollEvent → Epoll → List EpollEvent × Epoll
get_events_request [] e = ([], e)
get_events_request (v ∷ vs) e = elim (channel_of (e.connections v.fd)) [
  | none ↦ get_events_request vs e
  | some p ↦
      (let (active, e') = get_events_request vs (put e v.fd (with_events p no_events)) in
        (v ∷ active, e'))
]

abbrev pub first_active :
    List EpollEvent → Epoll → Option (List EpollEvent × Epoll) → Option (List EpollEvent × Epoll)
first_active [] e later = later
first_active (v ∷ vs) e later = some (v ∷ vs, e)

-- `epoll_wait` on the masks of the descriptors that it reports.
unfoldable pub reported : List EpollEvent → Epoll → Epoll
reported [] e = e
reported (v ∷ vs) e = elim (e.connections v.fd) [
  | none ↦ reported vs e
  | some p ↦ reported vs (put e v.fd (disarm p))
]

-- The loop of `poll`, over what `epoll_wait` reports; `none` where it reports nothing more.
unfoldable pub poll : List (List EpollEvent) → Epoll → Option (List EpollEvent × Epoll)
poll [] e = none
poll (vs ∷ waits) e =
    let (active, e') = get_events_request vs (reported vs e) in
    let later = poll waits e' in first_active active e' later

-- The calls of `handleEvents`, one after the other.
unfoldable pub handle_active : ℕ → Host → (ℕ → Bool) → TimeVal → List EpollEvent → Epoll → Run Epoll
handle_active fuel host ok now [] e = done e
handle_active fuel host ok now (v ∷ vs) e = elim (e.connections v.fd) [
  | none ↦ handle_active fuel host ok now vs e
  | some p ↦ elim (handle_events fuel host (ok v.fd) now v.revents (enter e p)) [
    | done q ↦ handle_active fuel host ok now vs (leave e v.fd q)
    | undefined ↦ undefined
    | exhausted ↦ exhausted
  ]
]

unfoldable pub close_all : (ℕ → Bool) → List ℕ → Epoll → Epoll
close_all ok [] e = e
close_all ok (fd ∷ fds) e = elim (e.connections fd) [
  | none ↦ close_all ok fds e
  | some p ↦ close_all ok fds (put e fd (handle_close (ok fd) p))
]

-- `handleExpired`: the nodes that go close their connections.
unfoldable pub handle_expired : (ℕ → Bool) → TimeVal → Epoll → Epoll
handle_expired ok now e =
    let (closed, left) = expire e.timers now in close_all ok closed (record e { timers = left })

-- `HttpData::HttpData`.
abbrev pub new_http_data : ℕ → HttpData
new_http_data fd = record {
  fd = fd;
  in_buffer = [];
  out_buffer = [];
  error = false;
  connection_state = h_connected;
  method = method_get;
  http_version = http_11;
  file_name = [];
  path = [];
  now_read_pos = 0;
  state = parse_uri_state;
  h_state = h_start;
  keep_alive = false;
  headers = [];
  timer = none;
}

abbrev pub new_polled : ℕ → Socket → Epoll → Polled
new_polled fd socket e = record {
  world = record {
    http = new_http_data fd;
    socket = socket;
    events = no_events;
    timers = e.timers;
    counters = e.counters;
  };
  registered = none;
  last_events = no_events;
  has_channel = false;
  has_http = false;
  next_timer = e.next_timer;
}

-- The functor `newEvent` of a connection that was handed over.
unfoldable pub add_connection : Bool → TimeVal → ℕ → Socket → Epoll → Epoll
add_connection ok now fd socket e = leave e fd (new_event ok now (new_polled fd socket e))

-- What a loop's thread does: a functor, a round over what one `poll` returned, or `handleExpired`.
-- `ok` tells for which descriptors `epoll_ctl` succeeds.
pub data Operation : Type 0 where
  adds : (ok : Bool) (now : TimeVal) (fd : ℕ) → Socket → Operation
  rounds : (ok : ℕ → Bool) (now : TimeVal) → List (List EpollEvent) → Operation
  expires : (ok : ℕ → Bool) (now : TimeVal) → Operation

abbrev pub dispatch :
    ℕ → Host → (ℕ → Bool) → TimeVal → Option (List EpollEvent × Epoll) → Epoll → Run Epoll
dispatch fuel host ok now none e = done e
dispatch fuel host ok now (some (active, e')) e = handle_active fuel host ok now active e'

unfoldable pub operate : ℕ → Host → Operation → Epoll → Run Epoll
operate fuel host (adds ok now fd socket) e = done (add_connection ok now fd socket e)
operate fuel host (rounds ok now waits) e = dispatch fuel host ok now (poll waits e) e
operate fuel host (expires ok now) e = done (handle_expired ok now e)

unfoldable pub operate_all : ℕ → Host → List Operation → Epoll → Run Epoll
operate_all fuel host [] e = done e
operate_all fuel host (o ∷ os) e = elim (operate fuel host o e) [
  | done e' ↦ operate_all fuel host os e'
  | undefined ↦ undefined
  | exhausted ↦ exhausted
]
