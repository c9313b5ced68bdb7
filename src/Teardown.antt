-- ===== src/Teardown.antt =====
-- The end of an event loop's thread: `~EventLoopThread` and the end of `threadFunc` in
-- EventLoopThread.cpp, with `EventLoop::quit`, and `join` and `~Thread` of base/Thread.cpp. The thread
-- that destroys the object, the loop's thread and any others are interleaved in any order.
pub mod Order
pub mod Joining
pub mod Lost
mod Tests
use light_agent_gateway.Common.{ℕ, suc, ◌≡◌, Bool, true, false}
use light_agent_gateway.Loop.{stopped, set_quit, wake_for}
use light_agent_gateway.Loop
use light_agent_gateway.Loop.System.{
  System, push_outside, quit_outside, wake_outside, queue_inside, quit_inside, begin, poll_wakeup,
  poll_others, arrives, read_wakeup, swap, call, finish, test_quit, is_own,
}

-- Where the destroying thread stands: before `~EventLoopThread`; in `quit`, with `quit_` set and the
-- eventfd still to be written; in `pthread_join`; and behind the destructor, when the members are
-- destroyed.
pub data Destroyer : Type 0 where
  before quitting joining behind : Destroyer

-- `loop` is the loop with its threads, `has_loop` whether `loop_` is set, and `ended` whether the
-- loop's thread has returned from `threadFunc`.
pub record Teardown : Type 0 where
  pub system : System
  pub destroyer : Destroyer
  pub has_loop : Bool
  pub ended : Bool
  pub exiting : Bool
  pub joined : Bool

-- What `startLoop` leaves, when the loop is published; the thread may be before `loop.loop()`.
abbrev pub published : Teardown
published = record {
  system = Loop.System.init;
  destroyer = before;
  has_loop = true;
  ended = false;
  exiting = false;
  joined = false;
}

-- `quit` is called in `~EventLoopThread` only.
abbrev pub is_quit : {s t : System} → Loop.System.Step s t → Bool
is_quit quit_outside = true
is_quit (quit_inside m) = true
is_quit _ = false

-- The destructor up to `quit_ = true`.
unfoldable pub destroy : Teardown → Teardown
destroy d = record d {
  system = record (d.system) { loop = set_quit d.system.loop; wakers = suc d.system.wakers };
  destroyer = quitting;
  exiting = true;
}

-- The other part of `quit`, of the `suc n` writes to the eventfd that are due.
unfoldable pub wake_loop : ℕ → Teardown → Teardown
wake_loop n d = record d {
  system = record (d.system) { loop = wake_for false d.system.loop; wakers = n };
  destroyer = joining;
}

-- Behind `loop.loop()`: `loop_` is cleared, and the thread ends with its `EventLoop`.
unfoldable pub end_thread : Teardown → Teardown
end_thread d = record d { has_loop = false; ended = true }

-- `Thread::join` returns; `~Thread` finds the thread joined and does not detach it.
unfoldable pub join : Teardown → Teardown
join d = record d { destroyer = behind; joined = true }

-- No thread uses the loop when it has been destroyed.
pub data Step (d : Teardown) : Teardown → Type 0 where
  turn :
      {s : System} (step : Loop.System.Step d.system s)
      → is_quit step ≡ false
      → d.ended ≡ false
      → Step d (record d { system = s })
  destroys : d.destroyer ≡ before → d.has_loop ≡ true → Step d (destroy d)
  skips :
      d.destroyer ≡ before
      → d.has_loop ≡ false
      → Step d (record d { destroyer = behind; exiting = true })
  wakes :
      (n : ℕ)
      → d.destroyer ≡ quitting
      → d.system.wakers ≡ suc n
      → d.ended ≡ false
      → Step d (wake_loop n d)
  ends : d.system.loop.pc ≡ stopped → d.ended ≡ false → Step d (end_thread d)
  joins : d.destroyer ≡ joining → d.ended ≡ true → Step d (join d)

pub data Reach (d : Teardown) : Teardown → Type 0 where
  here : Reach d d
  next : {e f : Teardown} → Reach d e → Step e f → Reach d f

-- The steps of the loop's thread by itself, and the return of `join`.
abbrev pub is_own_step : {d e : Teardown} → Step d e → Bool
is_own_step (turn step q l) = is_own step
is_own_step (ends p l) = true
is_own_step (joins j l) = true
is_own_step _ = false

-- The loop's thread runs and is waited for, while no other thread does anything.
pub data Alone (d : Teardown) : Teardown → Type 0 where
  resting : Alone d d
  running : {e f : Teardown} → Alone d e → (step : Step e f) → is_own_step step ≡ true → Alone d f

-- `quit` has set `quit_` and has still to write to the eventfd, while the loop has been destroyed with
-- the stack of its thread.
abbrev pub IsDangling : Teardown → Type 0
IsDangling d = (d.destroyer ≡ quitting) × (d.ended ≡ true)
