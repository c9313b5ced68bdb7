-- ===== src/Teardown/Tests.antt =====
-- Concrete orders of the destroying thread and the loop's.
use light_agent_gateway.Common.{◌≡◌, ◌≢◌, refl, not, true, false, arith}
use light_agent_gateway.Loop.{
  polling, dispatching, stopped, new_loop, set_quit, wake_for, wakeup, start_loop, poll,
  handle_read, handle_wakeup, swap_functors, finish_calls, loop_again,
}
use light_agent_gateway.Loop.System.{
  init, begin, poll_wakeup, poll_others, arrives, read_wakeup, swap, finish, test_quit,
}
use light_agent_gateway.Teardown.{
  before, quitting, joining, behind, Teardown, published, destroy, wake_loop, end_thread, join,
  turn, destroys, wakes, ends, joins, Reach, here, next, Alone, IsDangling,
}
use light_agent_gateway.Teardown.Order.{joined_behind}
use light_agent_gateway.Teardown.Joining.{join_returns, quit_dangles}
use light_agent_gateway.Teardown.Lost.{quit_lost}

-- The loop sleeps, with `quit_` set and the eventfd written.
abbrev told : Teardown
told = record published {
  system = record init {
    loop = record new_loop { pc = polling; looping = true; quit = true; counter = 1; edge = true };
  };
  destroyer = joining;
  exiting = true;
}

Reach-told : Reach published told
unfolding start_loop destroy set_quit wake_loop wake_for wakeup loop_again
Reach-told =
    next
      (next (next (next here (turn (begin refl) refl refl)) (turn (test_quit refl) refl refl))
        (destroys refl refl))
      (wakes 0 refl refl refl)

abbrev over : Teardown
over = record told {
  system = record init { loop = record new_loop { pc = stopped; quit = true } };
  destroyer = behind;
  has_loop = false;
  ended = true;
  joined = true;
}

Reach-over : Reach published over
unfolding poll handle_wakeup handle_read swap_functors finish_calls loop_again end_thread join
Reach-over =
    next
      (next
        (next
          (next
            (next
              (next (next Reach-told (turn (poll_wakeup refl refl (omega arith)) refl refl))
                (turn (read_wakeup refl) refl refl))
              (turn (swap refl) refl refl))
            (turn (finish refl) refl refl))
          (turn (test_quit refl) refl refl))
        (ends refl refl))
      (joins refl refl)

joined_behind_example :
    (over.destroyer ≡ behind
      → (over.system.loop.pc ≡ stopped) × (over.ended ≡ true) × (over.joined ≡ true))
    × (over.has_loop ≡ not over.ended)
    × (over.destroyer ≡ before → over.has_loop ≡ true)
joined_behind_example = joined_behind Reach-over

join_returns_example : (e : Teardown) × Alone told e × (e.destroyer ≡ behind) × (e.joined ≡ true)
join_returns_example = join_returns Reach-told refl (λ e. ground (arith, e)) refl (λ _. refl)

-- The loop handles events of other channels, with `quit_` set.
abbrev busy : Teardown
busy = record published {
  system = record init {
    loop = record new_loop {
      pc = dispatching false;
      looping = true;
      quit = true;
      event_handling = true;
    };
    wakers = 1;
  };
  destroyer = quitting;
  exiting = true;
}

Reach-busy : Reach published busy
unfolding start_loop destroy set_quit poll loop_again
Reach-busy =
    next
      (next
        (next (next (next here (turn (begin refl) refl refl)) (turn (test_quit refl) refl refl))
          (turn arrives refl refl))
        (turn (poll_others refl refl) refl refl))
      (destroys refl refl)

busy_dangles : (e : Teardown) × Reach busy e × IsDangling e
busy_dangles =
    quit_dangles Reach-busy refl refl (λ e. ground (arith, e)) (λ e. ground (arith, e)) refl

published_lost :
    (e : Teardown) × Reach published e × ((f : Teardown) → Reach e f → f.destroyer ≢ behind)
published_lost = quit_lost published refl refl refl refl
