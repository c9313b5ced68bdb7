-- ===== src/Startup/Tests.antt =====
-- Concrete schedules.
use light_agent_gateway.Common.{◌≡◌, ◌≢◌, ◌⊎◌, refl, true, List, [], ◌∷◌}
use light_agent_gateway.Startup.{
  Startup, asserted, returned, constructed, of_starter, of_child, stray, Turn, run,
}
use light_agent_gateway.Startup.Schedules.{start_loop_safe}
use light_agent_gateway.Startup.Fair.{start_loop_returns}

-- The calling thread sleeps at the latch, wakes for no reason, sleeps again, and then waits for the loop.
abbrev schedule : List Turn
schedule =
    of_child ∷ of_starter ∷ of_starter ∷ stray ∷ of_starter ∷ of_child ∷ of_child ∷ of_starter
    ∷ of_starter ∷ of_child ∷ of_starter ∷ of_starter ∷ []

start_loop_safe_example :
    let s : Startup = run true schedule constructed in
    (s.starter ≢ asserted)
    × ((s.starter ≢ returned) ⊎ ((true ≡ true) × (s.has_tid ≡ true) × (s.has_loop ≡ true)))
start_loop_safe_example = start_loop_safe true schedule

start_loop_returns_example : (run true schedule constructed).starter ≡ returned
start_loop_returns_example = start_loop_returns schedule refl
