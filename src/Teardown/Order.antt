-- ===== src/Teardown/Order.antt =====
-- The members are destroyed behind the thread.
use light_agent_gateway.Common.{
  ◌≡◌, ◌≢◌, refl, ap, ◌∙◌, inl, inr, Bool-cases, true, false, not, arith,
}
use light_agent_gateway.Loop.{
  Pc, created, polling, dispatching, calling, testing, stopped, EventLoop, wakeup, push_functor,
  wake_for, queue_in_loop, set_quit, quit_from, start_loop, poll, handle_read, handle_wakeup,
  swap_functors, finish_calls, loop_again,
}
use light_agent_gateway.Loop
use light_agent_gateway.Loop.System.{
  System, init, push_outside, quit_outside, wake_outside, queue_inside, quit_inside, begin,
  poll_wakeup, poll_others, arrives, read_wakeup, swap, call, finish, test_quit, Runs, resting,
  running, is_own,
}
use light_agent_gateway.Teardown.{
  before, behind, Teardown, published, is_quit, destroy, wake_loop, end_thread, join, Step, turn,
  destroys, skips, wakes, ends, joins, Reach, here, next,
}

-- Without `quit`, the loop is not told to stop, and does not stop.
pub record IsLooping (s : System) : Type 0 where
  pub no_quit : s.loop.quit ≡ false
  pub goes_on : s.loop.pc ≢ stopped

pub Step-IsLooping :
    {s t : System} (step : Loop.System.Step s t) → is_quit step ≡ false → IsLooping s → IsLooping t
unfolding wakeup push_functor wake_for queue_in_loop set_quit quit_from start_loop poll handle_read
    handle_wakeup swap_functors finish_calls loop_again
Step-IsLooping (push_outside f) q i = ground arith
Step-IsLooping quit_outside q i = ground arith
Step-IsLooping (wake_outside n e) q i = ground arith
Step-IsLooping (queue_inside f m) q i = ground arith
Step-IsLooping (quit_inside m) q i = ground arith
Step-IsLooping (begin e) q i = ground arith
Step-IsLooping (poll_wakeup e w c) q i = ground arith
Step-IsLooping (poll_others e y) q i = ground arith
Step-IsLooping arrives q i = ground arith
Step-IsLooping (read_wakeup e) q i = ground arith
Step-IsLooping (swap e) q i = ground arith
Step-IsLooping (call f left e) q i = ground arith
Step-IsLooping (finish e) q i = ground arith
Step-IsLooping (test_quit e) q i = ground arith

record Inv (d : Teardown) : Type 0 where
  looping : d.destroyer ≡ before → IsLooping d.system
  published_until_end : d.has_loop ≡ not d.ended
  at_end : d.ended ≡ true → d.system.loop.pc ≡ stopped
  over : d.destroyer ≡ behind → (d.ended ≡ true) × (d.joined ≡ true)

Step-Inv : {d e : Teardown} → Inv d → Step d e → Inv e
unfolding destroy wake_loop end_thread join set_quit
Step-Inv i (turn step q l) = record {
  looping = λ b. Step-IsLooping step q (i.looping b);
  published_until_end = i.published_until_end;
  at_end = λ e. ground (arith, e, l);
  over = i.over;
}
Step-Inv i (destroys b l) = record {
  looping = λ c. ground (arith, c);
  published_until_end = i.published_until_end;
  at_end = i.at_end;
  over = λ c. ground (arith, c);
}
Step-Inv i (skips b l) =
    absurd ((i.looping b).goes_on (i.at_end (ground (arith, l, i.published_until_end))))
Step-Inv i (wakes n q w l) = record {
  looping = λ c. ground (arith, c);
  published_until_end = i.published_until_end;
  at_end = λ e. ground (arith, e, l);
  over = λ c. ground (arith, c);
}
Step-Inv i (ends p l) = record {
  looping = λ b. absurd ((i.looping b).goes_on p);
  published_until_end = refl;
  at_end = λ _. p;
  over = λ b. ground (arith, i.over b, l);
}
Step-Inv i (joins j l) = record {
  looping = λ b. ground (arith, b);
  published_until_end = i.published_until_end;
  at_end = i.at_end;
  over = λ _. (l, refl);
}

published-Inv : Inv published
published-Inv = record {
  looping = λ _. record { no_quit = refl; goes_on = λ e. ground (arith, e) };
  published_until_end = refl;
  at_end = λ e. ground (arith, e);
  over = λ e. ground (arith, e);
}

Reach-Inv : {d : Teardown} → Reach published d → Inv d
Reach-Inv here = published-Inv
Reach-Inv (next r step) = Step-Inv (Reach-Inv r) step

-- In whatever order the destroying thread, the loop's thread and any others take their steps: where
-- `~EventLoopThread` is over, and the members are to be destroyed, the loop has stopped, its thread has
-- returned from `threadFunc` and has been joined; and `loop_` is set exactly as long as the thread has not
-- returned, so that the destructor never takes the way on which it neither quits nor joins.
pub joined_behind :
    {d : Teardown}
    → Reach published d
    → (d.destroyer ≡ behind → (d.system.loop.pc ≡ stopped) × (d.ended ≡ true) × (d.joined ≡ true))
      × (d.has_loop ≡ not d.ended)
      × (d.destroyer ≡ before → d.has_loop ≡ true)
joined_behind {d} r =
    let i = Reach-Inv r in
    (
      λ b. (i.at_end (i.over b).0, (i.over b).0, (i.over b).1),
      i.published_until_end,
      λ b. elim (Bool-cases d.ended) [
        | inl e ↦ absurd ((i.looping b).goes_on (i.at_end e))
        | inr e ↦ i.published_until_end ∙ ap not e
      ],
    )
