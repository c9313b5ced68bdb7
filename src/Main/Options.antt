-- ===== src/Main/Options.antt =====
-- Which command lines start the server.
use light_agent_gateway.Common.{
  ℕ, Bool, true, false, ◌&&◌, Option, none, some, List, [], ◌∷◌, ltb, zero, suc,
}
use light_agent_gateway.Common.Bytes.{Bytes, codes}
use light_agent_gateway.Common.Decimal.{ℤ, pos, negsuc}
use light_agent_gateway.Server.{Fcntl, Server, set_socket_non_blocking, non_blocking}
use light_agent_gateway.Server.Listening.{SocketCalls, all_succeed}
use light_agent_gateway.Main.{
  Opt, threads_opt, log_opt, port_opt, Settings, is_log_path, makes_loop, ThreadCalls, Startup,
  starts, aborts, waits,
}

-- The last argument of each option, or what was there before.
abbrev pub last_threads : List Opt → Option Bytes → Option Bytes
last_threads [] arg = arg
last_threads (threads_opt a ∷ os) arg = last_threads os (some a)
last_threads (_ ∷ os) arg = last_threads os arg

abbrev pub last_port : List Opt → Option Bytes → Option Bytes
last_port [] arg = arg
last_port (port_opt a ∷ os) arg = last_port os (some a)
last_port (_ ∷ os) arg = last_port os arg

abbrev pub last_log : List Opt → Bytes → Bytes
last_log [] path = path
last_log (log_opt a ∷ os) path = last_log os a
last_log (_ ∷ os) path = last_log os path

abbrev pub log_paths_taken : List Opt → Bool
log_paths_taken [] = true
log_paths_taken (log_opt a ∷ os) = is_log_path a && log_paths_taken os
log_paths_taken (_ ∷ os) = log_paths_taken os

abbrev pub number : (Bytes → ℤ) → ℤ → Option Bytes → ℤ
number atoi default none = default
number atoi default (some arg) = atoi arg

abbrev pub settled : (Bytes → ℤ) → List Opt → Option Bytes → Option Bytes → Bytes → Settings
settled atoi os t p path = record {
  thread_num = number atoi (pos 4) (last_threads os t);
  port = number atoi (pos 80) (last_port os p);
  log_path = last_log os path;
}

abbrev pub is_positive : ℤ → Bool
is_positive (pos n) = ltb 0 n
is_positive (negsuc n) = false

abbrev pub count_of : ℤ → ℕ
count_of (pos n) = n
count_of (negsuc n) = 0

abbrev pub chosen : (Bytes → ℤ) → List Opt → Settings
chosen atoi os = settled atoi os none none (codes "./WebServer.log")

abbrev pub can_start : Settings → SocketCalls → Fcntl → Bool
can_start s calls f =
    is_positive s.thread_num
    && (all_succeed calls s.port && non_blocking (set_socket_non_blocking f))

-- What a run of `main` that gets to its loop has.
abbrev pub started_by : Startup → Option (Bytes × Server)
started_by (starts path s) = some (path, s)
started_by aborts = none
started_by waits = none

-- Of the `n` threads from number `i` on, each is created and makes its loop.
abbrev pub all_ready : (ℕ → ThreadCalls) → ℕ → ℕ → Bool
all_ready threads i zero = true
all_ready threads i (suc n) =
    (threads i).created && (makes_loop (threads i).loop && all_ready threads (suc i) n)
