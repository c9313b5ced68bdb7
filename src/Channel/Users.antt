-- ===== src/Channel/Users.antt =====
-- The channels of connections and of the server, with the handlers that their constructors set.
use light_agent_gateway.Common.{
  ℕ, ◌≡◌, ap, Bool, ◌&&◌, ◌||◌, not, Option, none, some, List, if◌then◌else◌, arith,
}
use light_agent_gateway.Timer.{TimeVal}
use light_agent_gateway.Http.{Run, done, undefined, exhausted}
use light_agent_gateway.Http.World.{Events, no_events, handle_write}
use light_agent_gateway.Http.Analysis.{Host}
use light_agent_gateway.Http.Serving.{handle_read}
use light_agent_gateway.Http.Connection.{Polled, with_events, on_world, handle_conn, finish_events}
use light_agent_gateway.Http.Connection
use light_agent_gateway.Server.{Server, Accept, hand_new_conn, hand_this_conn}
use light_agent_gateway.Server
use light_agent_gateway.Channel.{
  Handlers, no_handlers, set_read_handler, set_write_handler, set_conn_handler, call_handler,
  handle_events,
}

-- Set in the constructor of `HttpData`.
abbrev pub connection_handlers : ℕ → Host → Bool → TimeVal → Handlers Polled
connection_handlers fuel host ok now =
    set_conn_handler (λ p. done (handle_conn ok now p))
      (set_write_handler (λ p. done (record p { world = handle_write p.world }))
        (set_read_handler (λ p. on_world (handle_read fuel host p.world) p) no_handlers))

finish_events_lem :
    (ok : Bool) (now : TimeVal) (rev : Events) (r : Run Polled)
    → finish_events ok now rev r
      ≡ call_handler (some (λ p. done (handle_conn ok now p))) (
          if rev.epollout
          then call_handler (some (λ p. done (record p { world = handle_write p.world }))) r
          else r)
finish_events_lem ok now rev (done p) = ground arith
finish_events_lem ok now rev undefined = ground arith
finish_events_lem ok now rev exhausted = ground arith

-- An event on a connection calls the handlers of `HttpData` as an event on any channel calls its own.
pub handle_events-connection :
    (fuel : ℕ) (host : Host) (ok : Bool) (now : TimeVal) (rev : Events) (p : Polled)
    → Connection.handle_events fuel host ok now rev p
      ≡ handle_events (λ e q. with_events q e) (connection_handlers fuel host ok now) rev p
unfolding Connection.handle_events handle_events
handle_events-connection fuel host ok now rev p0 =
    let p = with_events p0 no_events in
    ap (λ r. if rev.epollhup && not rev.epollin then done p else if rev.epollerr then done p else r)
      (finish_events_lem ok now rev (
        if rev.epollin || (rev.epollpri || rev.epollrdhup)
        then on_world (handle_read fuel host p.world) p
        else done p))

-- A read outside `loops_` is undefined.
abbrev pub run_of : {A : Type 0} → Option A → Run A
run_of none = undefined
run_of (some a) = done a

-- Set in `Server::start`.
abbrev pub accept_handlers : Bool → List Accept → Handlers Server
accept_handlers ok es =
    set_conn_handler (λ s. done (hand_this_conn ok s))
      (set_read_handler (λ s. run_of (hand_new_conn es s)) no_handlers)

-- An event on the channel that accepts connections calls the handlers of `Server` likewise.
pub handle_events-accept :
    (ok : Bool) (rev : Events) (es : List Accept) (s : Server)
    → run_of (Server.handle_events ok rev es s)
      ≡ handle_events (λ e t. record t { events = e }) (accept_handlers ok es) rev s
unfolding Server.handle_events handle_events
handle_events-accept ok rev es s0 = elim (hand_new_conn es (record s0 { events = no_events })) [
  | none ↦ ground arith
  | some s ↦ ground arith
]
