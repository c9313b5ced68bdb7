-- ===== src/Main/Tests.antt =====
-- A command line with repeated options.
use light_agent_gateway.Common.{ℕ, ltb, true, none, some, List, [], ◌∷◌}
use light_agent_gateway.Common.Bytes.{Bytes, codes}
use light_agent_gateway.Common.Decimal.{ℤ, pos, stoi}
use light_agent_gateway.Server.{Fcntl}
use light_agent_gateway.Server.Listening.{SocketCalls}
use light_agent_gateway.Main.{Opt, threads_opt, log_opt, port_opt, unknown, LoopCalls, ThreadCalls}

abbrev atoi : Bytes → ℤ
atoi s = elim (stoi s) [ none ↦ pos 0 | some n ↦ n ]

abbrev options : List Opt
options =
    threads_opt (codes "2")
    ∷ unknown
    ∷ log_opt (codes "/tmp/gateway.log")
    ∷ threads_opt (codes "3")
    ∷ port_opt (codes "8080")
    ∷ []

abbrev calls : SocketCalls
calls = record { socket = some 3; set_option = true; binds = true; listens = true }

abbrev works : Fcntl
works = record { flags = some 2; is_set = true }

abbrev loop_made : LoopCalls
loop_made = record { epoll_create = true; eventfd = true }

-- Threads 3 and above could not be created.
abbrev threads : ℕ → ThreadCalls
threads i = record { created = ltb i 3; loop = loop_made }
