-- ===== src/Timer/Tests.antt =====
-- Concrete timers.
use light_agent_gateway.Common.{ℕ, ◌+◌, false, some, List, [], ◌∷◌, arith}
use light_agent_gateway.Timer.{TimeVal, TimerNode, expire}
use light_agent_gateway.Timer.Order.{Operation, adds, clears, expires}
use light_agent_gateway.Timer.Expiry.{Expired, expire-Expired}

abbrev at : ℕ → TimeVal
at s = record { tv_sec = s; tv_usec = 0 }

abbrev node : ℕ → ℕ → TimerNode
node id t = record { id = id; deleted = false; expired_time = t; http_data = some (id + 10) }

abbrev operations : List Operation
operations =
    adds 8 2000 (at 5) ∷ adds 9 500 (at 5) ∷ clears 0 ∷ expires (at 6) ∷ adds 7 300 (at 6) ∷ []

expire-Expired_example :
    Expired
      (node 0 1000 ∷ node 1 7000 ∷ [])
      (at 5)
      (expire (node 0 1000 ∷ node 1 7000 ∷ []) (at 5)).0
      (expire (node 0 1000 ∷ node 1 7000 ∷ []) (at 5)).1
expire-Expired_example = expire-Expired (node 0 1000 ∷ node 1 7000 ∷ []) (at 5) (ground arith)
