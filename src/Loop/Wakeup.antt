-- ===== src/Loop/Wakeup.antt =====
-- The eventfd against the loop's sleep in `epoll_wait`.
use light_agent_gateway.Common.{
  ◌≡◌, ◌≢◌, ◌<◌, ◌⊎◌, inl, inr, refl, ap, Bool, true, false, [], arith,
}
use light_agent_gateway.Loop.{
  Pc, created, polling, dispatching, calling, testing, EventLoop, wakeup, push_functor, wake_for,
  queue_in_loop, set_quit, quit_from, start_loop, poll, handle_read, handle_wakeup, swap_functors,
  finish_calls, loop_again,
}
use light_agent_gateway.Loop.System.{
  System, init, Step, push_outside, quit_outside, wake_outside, queue_inside, quit_inside, begin,
  poll_wakeup, poll_others, arrives, read_wakeup, swap, call, finish, test_quit, Reach, here, next,
}

abbrev reads_first : Pc → Bool
reads_first (dispatching wake) = wake
reads_first _ = false

-- Where a functor that is queued without a wakeup would wait: before `loop`, and from
-- `doPendingFunctors` to the sleep.
abbrev is_behind_swap : Pc → Bool
is_behind_swap (calling left) = true
is_behind_swap created = true
is_behind_swap testing = true
is_behind_swap polling = true
is_behind_swap _ = false

abbrev is_calling : Pc → Bool
is_calling (calling left) = true
is_calling _ = false

abbrev is_polling : Pc → Bool
is_polling polling = true
is_polling _ = false

-- A wakeup is under way: `epoll_wait` has the eventfd to report, or a thread has still to write.
abbrev pub IsReady : EventLoop → Type 0
IsReady l = (l.edge ≡ true) × (0 < l.counter)

abbrev pub Woken : System → Type 0
Woken s = IsReady s.loop ⊎ (0 < s.wakers)

record Inv (s : System) : Type 0 where
  counted : 0 < s.loop.counter → (s.loop.edge ≡ true) ⊎ (reads_first s.loop.pc ≡ true)
  flagged : is_calling s.loop.pc ≡ true → s.loop.calling_pending_functors ≡ true
  unread : is_behind_swap s.loop.pc ≡ true → s.loop.pending_functors ≢ [] → Woken s
  quitting : is_polling s.loop.pc ≡ true → s.loop.quit ≡ true → Woken s

Step-Inv : {s t : System} → Inv s → Step s t → Inv t
unfolding wakeup push_functor wake_for queue_in_loop set_quit quit_from start_loop poll handle_read
    handle_wakeup swap_functors finish_calls loop_again
Step-Inv i (push_outside f) = ground arith
Step-Inv i quit_outside = ground arith
Step-Inv i (wake_outside n e) = ground arith
Step-Inv i (queue_inside f m) = ground arith
Step-Inv i (quit_inside m) = ground arith
Step-Inv i (begin e) = ground arith
Step-Inv i (poll_wakeup e w c) = ground arith
Step-Inv i (poll_others e y) = ground arith
Step-Inv i arrives = record {
  counted = i.counted;
  flagged = i.flagged;
  unread = i.unread;
  quitting = i.quitting;
}
Step-Inv i (read_wakeup e) = ground arith
Step-Inv i (swap e) = ground arith
Step-Inv i (call f left e) = ground arith
Step-Inv i (finish e) = ground arith
Step-Inv i (test_quit e) = ground arith

init-Inv : Inv init
init-Inv = record {
  counted = λ c. ground arith;
  flagged = λ c. ground arith;
  unread = λ _ n. absurd (n refl);
  quitting = λ p. ground arith;
}

Reach-Inv : {s : System} → Reach init s → Inv s
Reach-Inv here = init-Inv
Reach-Inv (next r step) = Step-Inv (Reach-Inv r) step

pub no_lost_wakeup :
    {s : System}
    → Reach init s
    → s.loop.pc ≡ polling
    → (s.loop.pending_functors ≢ []) ⊎ (s.loop.quit ≡ true)
    → Woken s
no_lost_wakeup r p (inl some_pending) = (Reach-Inv r).unread (ap is_behind_swap p) some_pending
no_lost_wakeup r p (inr quits) = (Reach-Inv r).quitting (ap is_polling p) quits
