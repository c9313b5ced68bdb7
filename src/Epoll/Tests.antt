-- ===== src/Epoll/Tests.antt =====
-- A loop with two connections.
use light_agent_gateway.Common.{
  ℕ, ◌≡◌, true, false, none, List, [], ◌∷◌, ◌==◌, not, some, if◌then◌else◌, ltb, arith,
}
use light_agent_gateway.Gateway.{Counters}
use light_agent_gateway.Io.{Socket, received, read_again}
use light_agent_gateway.Timer.{TimeVal, milliseconds, expiry}
use light_agent_gateway.Http.World.{no_events}
use light_agent_gateway.Http.Analysis.{Host}
use light_agent_gateway.Epoll.{
  Epoll, EpollEvent, Operation, adds, rounds, expires, operate_all, handle_expired, add_connection,
  new_polled,
}
use light_agent_gateway.Epoll.Handlers.{OnDone}
use light_agent_gateway.Epoll.Consistency.{empty_epoll, IsWatched, connections-IsWatched}
use light_agent_gateway.Http.Connection.{handle_close, new_event, default_expired_time}
use light_agent_gateway.Epoll.Idle.{idle_closes}

abbrev host : Host
host = record {
  environment = record { getenv = λ name. none; current_path = []; uptime = 0 };
  stat = λ name. none;
  open_file = λ name. false;
  mmap = λ name size. none;
}

abbrev now : TimeVal
now = record { tv_sec = 12; tv_usec = 0 }

abbrev counters : Counters
counters = record { api_requests = 0; chat_requests = 0 }

abbrev socket : Socket
socket = record { reads = received (b'G' ∷ b'E' ∷ []) ∷ read_again ∷ []; writes = []; sent = [] }

abbrev readable : ℕ → EpollEvent
readable i = record { fd = i; revents = record no_events { epollin = true } }

-- `epoll_ctl` fails for descriptor 8 in the first round.
abbrev operations : List Operation
operations =
    adds true now 7 socket
    ∷ adds true now 8 socket
    ∷ rounds (λ i. not (i == 8)) now ((readable 9 ∷ []) ∷ (readable 8 ∷ readable 7 ∷ []) ∷ [])
    ∷ expires (λ i. true) now
    ∷ []

connections-IsWatched_example :
    OnDone (λ e. IsWatched (e.connections 7)) (operate_all 3 host operations (empty_epoll counters))
connections-IsWatched_example = connections-IsWatched 3 host operations counters 7

-- Another connection, whose timer runs out first.
abbrev with_other : Epoll
with_other = record (empty_epoll counters) {
  timers = record { id = 0; deleted = false; expired_time = 12_500; http_data = some 8 } ∷ [];
  next_timer = 1;
}

idle_closes_example :
    let p = new_event true now (new_polled 7 socket with_other) in
    (handle_expired
        (λ i. true)
        (record { tv_sec = 14; tv_usec = 1 })
        (add_connection true now 7 socket with_other)).connections
      7
    ≡ some (
        if ltb
          (milliseconds (record { tv_sec = 14; tv_usec = 1 }))
          (expiry now default_expired_time)
        then p
        else handle_close true p)
idle_closes_example =
    idle_closes (λ i. true) now (record { tv_sec = 14; tv_usec = 1 }) 7 socket with_other (tt, tt)
      ((λ d. ground (arith, d)), tt)
