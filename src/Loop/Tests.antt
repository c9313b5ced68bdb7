-- ===== src/Loop/Tests.antt =====
-- Concrete interleavings of a loop with two other threads.
use light_agent_gateway.Common.{List, true, inr, ◌≡◌, inl, refl, false, [], ◌∷◌, ◌++◌}
use light_agent_gateway.Loop.{new_loop, push_functor, wake_for, start_loop, loop_again}
use light_agent_gateway.Loop.System.{
  System, init, push_outside, begin, test_quit, Reach, here, next,
}
use light_agent_gateway.Loop.Order.{called_in_order, left_of}
use light_agent_gateway.Http.{done}
use light_agent_gateway.Http.World.{Events, no_events}
use light_agent_gateway.Loop.Watching.{
  Watching, Happening, writes, reports, all_happen, all_moved, new_watching, IsWatched,
  all_happen-IsWatched,
}

-- Functor 7 is queued before the loop begins, and functor 8 while it sleeps; the second thread to
-- write to the eventfd has not yet done so.
abbrev pushed : System
unfolding push_functor start_loop loop_again
pushed = record {
  loop = push_functor 8 (loop_again (start_loop (push_functor 7 new_loop)));
  wakers = 2;
  ready = false;
  queued = 7 ∷ 8 ∷ [];
  called = [];
}

abbrev woken : System
unfolding push_functor start_loop loop_again wake_for
woken = record pushed { loop = wake_for false (wake_for false pushed.loop); wakers = 0 }

Reach-pushed : Reach init pushed
unfolding push_functor start_loop loop_again
Reach-pushed =
    next (next (next (next here (push_outside 7)) (begin refl)) (test_quit refl)) (push_outside 8)

called_in_order_example :
    pushed.queued ≡ pushed.called ++ (left_of pushed.loop.pc ++ pushed.loop.pending_functors)
called_in_order_example = called_in_order Reach-pushed

abbrev input : Events
input = record no_events { epollin = true }

abbrev error : Events
error = record no_events { epollerr = true }

-- Two writes, of which only the first is read, and then an error.
abbrev happenings : List Happening
happenings = writes ∷ reports false input ∷ writes ∷ reports true error ∷ []

all_happen-IsWatched_example :
    (w : Watching) × (all_happen happenings (new_watching true) ≡ done w)
    × (w.loop ≡ all_moved happenings new_loop)
    × IsWatched w
all_happen-IsWatched_example =
    all_happen-IsWatched happenings (tt, (inl refl, (tt, (inr (inr refl), tt))))
