-- ===== src/Http/Connection.antt =====
-- The connection between its handlers and the poller: `handleConn`, `handleClose` and `newEvent` of
-- HttpData.cpp, `handleEvents` of Channel.h, and `epoll_add`, `epoll_mod` and `epoll_del` of
-- Epoll.cpp. Whether `epoll_ctl` succeeds is an argument; it sets the kernel's mask where it does.
pub mod Polling
pub mod Closing
pub mod Cycle
pub mod Output
pub mod Refusals
use light_agent_gateway.Common.{
  ℕ, ◌+◌, ◌*◌, ◌/◌, Bool, true, false, ◌&&◌, ◌||◌, not, Option, none, some, List, if◌then◌else◌,
  ltb,
}
use light_agent_gateway.Timer.{TimeVal, TimerManager, add_timer}
use light_agent_gateway.Http.{
  HttpData, ConnectionState, h_connected, h_disconnecting, h_disconnected, Run, done, undefined,
  exhausted,
}
use light_agent_gateway.Http.World.{Events, no_events, World, separate_timer, handle_write}
use light_agent_gateway.Http.Analysis.{Host}
use light_agent_gateway.Http.Serving.{handle_read}

-- A connection with what the poller holds of its descriptor: the kernel's mask, the channel's
-- `lastEvents_`, and whether the tables `fd2chan_` and `fd2http_` point to it. `next_timer` is the
-- number of the next timer node.
pub record Polled : Type 0 where
  pub world : World
  pub registered : Option Events
  pub last_events : Events
  pub has_channel : Bool
  pub has_http : Bool
  pub next_timer : ℕ

abbrev pub default_event : Events
default_event = record no_events { epollin = true; epollet = true; epolloneshot = true }

abbrev pub default_expired_time : ℕ
default_expired_time = 2000

abbrev pub default_keep_alive_time : ℕ
default_keep_alive_time = 5 * 60 * 1000

abbrev pub same : Bool → Bool → Bool
same true b = b
same false b = not b

-- `EqualAndUpdateLastEvents`, the comparison.
abbrev pub events_eq : Events → Events → Bool
events_eq a b =
    same a.epollin b.epollin
    && (same a.epollout b.epollout
        && (same a.epollet b.epollet
            && (same a.epolloneshot b.epolloneshot
                && (same a.epollpri b.epollpri
                    && (same a.epollrdhup b.epollrdhup
                        && (same a.epollerr b.epollerr && same a.epollhup b.epollhup))))))

-- `Epoll::add_timer`, for a channel whose holder is alive, where the timeout is positive.
unfoldable pub start_timer : TimeVal → ℕ → Polled → Polled
start_timer now timeout p =
    if ltb 0 timeout
    then (let (m, id) =
          add_timer (record { queue = p.world.timers; next_id = p.next_timer }) p.world.http.fd
            timeout now in
        record p {
          world = record (p.world) {
            http = record (p.world.http) { timer = some id };
            timers = m.queue;
          };
          next_timer = m.next_id;
        })
    else p

unfoldable pub epoll_add : Bool → TimeVal → ℕ → Polled → Polled
unfolding start_timer
epoll_add ok now timeout p0 =
    let p = record (start_timer now timeout p0) {
      has_http = if ltb 0 timeout then true else p0.has_http;
      last_events = p0.world.events;
    } in
    if ok
    then record p { has_channel = true; registered = some p.world.events }
    else record p { has_channel = false }

unfoldable pub epoll_mod : Bool → TimeVal → ℕ → Polled → Polled
unfolding start_timer
epoll_mod ok now timeout p0 =
    let p = start_timer now timeout p0 in
    if events_eq p.last_events p.world.events
    then p
    else if ok
    then record p { last_events = p.world.events; registered = some p.world.events }
    else record p { last_events = p.world.events; has_channel = false }

unfoldable pub epoll_del : Bool → Polled → Polled
epoll_del ok p = record p {
  registered = if ok then none else p.registered;
  has_channel = false;
  has_http = false;
}

-- `handleClose`, with `removeFromPoller`.
unfoldable pub handle_close : Bool → Polled → Polled
unfolding epoll_del
handle_close ok p = epoll_del ok (record p {
  world = record (p.world) { http = record (p.world.http) { connection_state = h_disconnected } };
})

unfoldable pub new_event : Bool → TimeVal → Polled → Polled
unfolding epoll_add
new_event ok now p =
    epoll_add ok now default_expired_time
      (record p { world = record (p.world) { events = default_event } })

abbrev pub with_events : Polled → Events → Polled
with_events p e = record p { world = record (p.world) { events = e } }

abbrev pub is_connected : ConnectionState → Bool
is_connected h_connected = true
is_connected _ = false

abbrev pub is_disconnecting : ConnectionState → Bool
is_disconnecting h_disconnecting = true
is_disconnecting _ = false

-- Writing goes before reading, and the mask is edge-triggered.
abbrev pub one_way : Events → Events
one_way e =
    if e.epollin && e.epollout
    then record no_events { epollout = true; epollet = true }
    else record e { epollet = true }

abbrev pub read_events : Events
read_events = record no_events { epollin = true; epollet = true }

abbrev pub half : ℕ → ℕ
half n = n / 2

-- `handleClose` is run at once, in the loop's own thread.
unfoldable pub handle_conn : Bool → TimeVal → Polled → Polled
unfolding epoll_mod handle_close
handle_conn ok now p0 =
    let p = record p0 { world = separate_timer p0.world } in
    let e = p.world.events in
    let h = p.world.http in
    if not h.error && is_connected h.connection_state
    then (if not (events_eq e no_events)
        then epoll_mod ok now
            (if h.keep_alive then default_keep_alive_time else default_expired_time)
            (with_events p (one_way e))
        else if h.keep_alive
        then epoll_mod ok now default_keep_alive_time (with_events p read_events)
        else epoll_mod ok now (half default_keep_alive_time) (with_events p read_events))
    else if not h.error && (is_disconnecting h.connection_state && e.epollout)
    then with_events p (record no_events { epollout = true; epollet = true })
    else handle_close ok p

abbrev pub on_world : Run World → Polled → Run Polled
on_world (done w) p = done (record p { world = w })
on_world undefined p = undefined
on_world exhausted p = exhausted

abbrev pub finish_events : Bool → TimeVal → Events → Run Polled → Run Polled
finish_events ok now rev (done p) =
    let p' = if rev.epollout then record p { world = handle_write p.world } else p in
    done (handle_conn ok now p')
finish_events ok now rev undefined = undefined
finish_events ok now rev exhausted = exhausted

-- `Channel::handleEvents` of a connection, which has no error handler. That a one-shot mask is disarmed is
-- the kernel's part, when it reports it (`reported` of Epoll).
unfoldable pub handle_events : ℕ → Host → Bool → TimeVal → Events → Polled → Run Polled
unfolding handle_conn
handle_events fuel host ok now rev p0 =
    let p = with_events p0 no_events in
    let reads : Run Polled =
      if rev.epollin || (rev.epollpri || rev.epollrdhup)
      then on_world (handle_read fuel host p.world) p
      else done p in
    if rev.epollhup && not rev.epollin
    then done p
    else if rev.epollerr
    then done p
    else finish_events ok now rev reads
