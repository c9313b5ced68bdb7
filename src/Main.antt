-- ===== src/Main.antt =====
-- Main.cpp: the options of the command line, and the start of the server. What `getopt` finds and what
-- `atoi` makes of a text and what the system calls return are arguments.
pub mod Options
mod Tests
use light_agent_gateway.Common.{
  ℕ, zero, suc, Bool, true, false, ◌&&◌, not, Option, none, some, List, [], ◌∷◌, ◌==◌, leb,
  if◌then◌else◌, length,
}
use light_agent_gateway.Common.Bytes.{Bytes, codes}
use light_agent_gateway.Common.Decimal.{ℤ, pos}
use light_agent_gateway.Server.{Fcntl, Server}
use light_agent_gateway.Server.Listening.{SocketCalls, new_server, start}

-- What `getopt` returns for "t:l:p:", with its argument; `unknown` is '?'.
pub data Opt : Type 0 where
  threads_opt log_opt port_opt : (optarg : Bytes) → Opt
  unknown : Opt

pub record Settings : Type 0 where
  pub thread_num : ℤ
  pub port : ℤ
  pub log_path : Bytes

abbrev pub default_settings : Settings
default_settings = record { thread_num = pos 4; port = pos 80; log_path = codes "./WebServer.log" }

abbrev pub starts_with_slash : Bytes → Bool
starts_with_slash [] = false
starts_with_slash (c ∷ s) = c == b'/'

-- A path of a log file that is taken.
abbrev pub is_log_path : Bytes → Bool
is_log_path path = leb 2 (length path) && starts_with_slash path

-- One round of the loop; `none` is `abort`.
unfoldable pub take_opt : (Bytes → ℤ) → Opt → Settings → Option Settings
take_opt atoi (threads_opt arg) s = some (record s { thread_num = atoi arg })
take_opt atoi (log_opt arg) s = if is_log_path arg then some (record s { log_path = arg }) else none
take_opt atoi (port_opt arg) s = some (record s { port = atoi arg })
take_opt atoi unknown s = some s

unfoldable pub take_opts : (Bytes → ℤ) → List Opt → Settings → Option Settings
unfolding take_opt
take_opts atoi [] s = some s
take_opts atoi (o ∷ os) s = elim (take_opt atoi o s) [
  | none ↦ none
  | some s' ↦ take_opts atoi os s'
]

-- What the calls in the constructors of `EventLoop` and `Epoll` come to: without the descriptor of either,
-- they abort. Where `epoll_ctl` fails for the eventfd, they go on.
pub record LoopCalls : Type 0 where
  pub epoll_create : Bool
  pub eventfd : Bool

abbrev pub makes_loop : LoopCalls → Bool
makes_loop c = c.epoll_create && c.eventfd

-- Whether `pthread_create` succeeds, and the calls in the thread's `EventLoop`.
pub record ThreadCalls : Type 0 where
  pub created : Bool
  pub loop : LoopCalls

-- A run of `main` up to its loop: it gets there, with the log's path and the server; it aborts; or it waits
-- for ever, in `startLoop`, for a loop that no thread makes.
pub data Startup : Type 0 where
  starts : Bytes → Server → Startup
  aborts waits : Startup

-- The threads of the pool, started one after the other, from number `i` on.
unfoldable pub start_loops : (ℕ → ThreadCalls) → ℕ → ℕ → Startup → Startup
start_loops threads i zero r = r
start_loops threads i (suc n) r =
    let rest = start_loops threads (suc i) n r in
    if not (threads i).created then waits else if makes_loop (threads i).loop then rest else aborts

abbrev pub serve_with : (ℕ → ThreadCalls) → Bool → Bytes → Option Server → Startup
serve_with threads ok path none = aborts
serve_with threads ok path (some server) =
    start_loops threads 0 server.pool.num_threads (starts path (start ok server))

abbrev pub run_with :
    LoopCalls → SocketCalls → Fcntl → (ℕ → ThreadCalls) → Bool → Option Settings → Startup
run_with main_loop calls f threads ok none = aborts
run_with main_loop calls f threads ok (some s) =
    if makes_loop main_loop
    then serve_with threads ok s.log_path (new_server calls f s.thread_num s.port)
    else aborts

-- `main` up to the loop.
unfoldable pub main :
    (Bytes → ℤ) → List Opt → LoopCalls → SocketCalls → Fcntl → (ℕ → ThreadCalls) → Bool → Startup
unfolding take_opts start_loops
main atoi os main_loop calls f threads ok =
    run_with main_loop calls f threads ok (take_opts atoi os default_settings)
