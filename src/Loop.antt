-- ===== src/Loop.antt =====
-- EventLoop.h and EventLoop.cpp: the loop of one thread, the functors that any thread queues for it,
-- and the eventfd by which it is woken. A functor is a number.
pub mod System
pub mod Wakeup
pub mod Order
pub mod Drain
pub mod Quit
pub mod Watching
mod Tests
use light_agent_gateway.Common.{
  ℕ, zero, suc, ◌+◌, ◌-◌, ◌^◌, Bool, true, false, Option, none, some, ◌&&◌, ◌||◌, not, List, [],
  ◌∷◌, ◌++◌, ltb, if◌then◌else◌,
}

-- Where the loop's thread stands: before `loop`, in `epoll_wait`, among the active channels (the
-- wakeup channel is still to be handled, or not), in `doPendingFunctors` with the functors that it
-- has still to call, in `handleExpired` or at the loop's test, or behind the loop.
pub data Pc : Type 0 where
  created polling : Pc
  dispatching : (wake : Bool) → Pc
  calling : (left : List ℕ) → Pc
  testing stopped : Pc

-- The members, with the eventfd: its counter, and whether the kernel has an edge of it to report.
pub record EventLoop : Type 0 where
  pub pc : Pc
  pub looping : Bool
  pub quit : Bool
  pub event_handling : Bool
  pub calling_pending_functors : Bool
  pub pending_functors : List ℕ
  pub counter : ℕ
  pub edge : Bool

abbrev pub new_loop : EventLoop
new_loop = record {
  pc = created;
  looping = false;
  quit = false;
  event_handling = false;
  calling_pending_functors = false;
  pending_functors = [];
  counter = 0;
  edge = false;
}

-- An eventfd counts to 2 ^ 64 - 2; a write that would take it further is refused (EAGAIN), and then
-- `wakeup` only logs. Every write that is accepted is an edge.
abbrev pub max_counter : ℕ
max_counter = 2 ^ 64 - 2

unfoldable pub wakeup : EventLoop → EventLoop
wakeup l =
    if ltb l.counter max_counter then record l { counter = suc l.counter; edge = true } else l

-- A read takes the whole counter.
unfoldable pub handle_read : EventLoop → EventLoop
handle_read l = record l { counter = 0 }

-- `queueInLoop` has two parts: under the mutex, and behind it.
unfoldable pub push_functor : ℕ → EventLoop → EventLoop
push_functor f l = record l { pending_functors = l.pending_functors ++ f ∷ [] }

unfoldable pub wake_for : Bool → EventLoop → EventLoop
unfolding wakeup
wake_for in_loop_thread l = if not in_loop_thread || l.calling_pending_functors then wakeup l else l

unfoldable pub queue_in_loop : Bool → ℕ → EventLoop → EventLoop
unfolding push_functor wake_for
queue_in_loop in_loop_thread f l = wake_for in_loop_thread (push_functor f l)

-- In the loop's own thread the functor is called at once; it is the first component.
unfoldable pub run_in_loop : Bool → ℕ → EventLoop → Option ℕ × EventLoop
unfolding queue_in_loop
run_in_loop in_loop_thread f l =
    if in_loop_thread then (some f, l) else (none, queue_in_loop false f l)

-- `quit` has two parts likewise.
unfoldable pub set_quit : EventLoop → EventLoop
set_quit l = record l { quit = true }

unfoldable pub quit_from : Bool → EventLoop → EventLoop
unfolding set_quit wakeup
quit_from in_loop_thread l = if in_loop_thread then set_quit l else wakeup (set_quit l)

-- `loop` up to its test of `quit_`, which it has just cleared.
unfoldable pub start_loop : EventLoop → EventLoop
start_loop l = record l { pc = testing; looping = true; quit = false }

-- `poll` returns with active channels, the wakeup channel among them or not.
unfoldable pub poll : Bool → EventLoop → EventLoop
poll wake l = record l {
  pc = dispatching wake;
  event_handling = true;
  edge = if wake then false else l.edge;
}

-- The handlers of the wakeup channel: `handleRead`, and `handleConn`, which finds the mask unchanged
-- (Watching has both with the masks).
unfoldable pub handle_wakeup : EventLoop → EventLoop
unfolding handle_read
handle_wakeup l = record (handle_read l) { pc = dispatching false }

-- The head of `doPendingFunctors`, under the mutex.
unfoldable pub swap_functors : EventLoop → EventLoop
swap_functors l = record l {
  pc = calling l.pending_functors;
  event_handling = false;
  calling_pending_functors = true;
  pending_functors = [];
}

unfoldable pub finish_calls : EventLoop → EventLoop
finish_calls l = record l { pc = testing; calling_pending_functors = false }

-- The loop's test.
unfoldable pub loop_again : EventLoop → EventLoop
loop_again l =
    if l.quit then record l { pc = stopped; looping = false } else record l { pc = polling }
