-- ===== src/Channel.antt =====
-- Channel.h and Channel.cpp: the handlers of a channel, and which of them an event calls. The handlers
-- work on a state that holds the channel's mask; `set_events` changes it there.
pub mod Users
use light_agent_gateway.Common.{
  Bool, true, false, ◌&&◌, ◌||◌, not, Option, none, some, if◌then◌else◌,
}
use light_agent_gateway.Http.{Run, done, undefined, exhausted}
use light_agent_gateway.Http.World.{Events, no_events}

pub record Handlers (S : Type 0) : Type 0 where
  pub read_handler : Option (S → Run S)
  pub write_handler : Option (S → Run S)
  pub error_handler : Option (S → Run S)
  pub conn_handler : Option (S → Run S)

-- A new channel has no handlers.
abbrev pub no_handlers : {S : Type 0} → Handlers S
no_handlers = record {
  read_handler = none;
  write_handler = none;
  error_handler = none;
  conn_handler = none;
}

abbrev pub set_read_handler : {S : Type 0} → (S → Run S) → Handlers S → Handlers S
set_read_handler f h = record h { read_handler = some f }

abbrev pub set_write_handler : {S : Type 0} → (S → Run S) → Handlers S → Handlers S
set_write_handler f h = record h { write_handler = some f }

abbrev pub set_conn_handler : {S : Type 0} → (S → Run S) → Handlers S → Handlers S
set_conn_handler f h = record h { conn_handler = some f }

-- `handleRead`, `handleWrite` and `handleConn`: a handler that is not set does nothing.
abbrev pub call_handler : {S : Type 0} → Option (S → Run S) → Run S → Run S
call_handler none r = r
call_handler (some f) (done s) = f s
call_handler (some f) undefined = undefined
call_handler (some f) exhausted = exhausted

abbrev pub forget : {S : Type 0} → (Events → S → S) → Run S → Run S
forget set_events (done s) = done (set_events no_events s)
forget set_events undefined = undefined
forget set_events exhausted = exhausted

unfoldable pub handle_events : {S : Type 0} → (Events → S → S) → Handlers S → Events → S → Run S
handle_events set_events h rev s0 =
    let s = set_events no_events s0 in
    let reads =
      if rev.epollin || (rev.epollpri || rev.epollrdhup)
      then call_handler h.read_handler (done s)
      else done s in
    let writes = if rev.epollout then call_handler h.write_handler reads else reads in
    if rev.epollhup && not rev.epollin
    then done (set_events no_events s)
    else if rev.epollerr
    then forget set_events (call_handler h.error_handler (done s))
    else call_handler h.conn_handler writes
