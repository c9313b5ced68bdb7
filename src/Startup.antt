-- ===== src/Startup.antt =====
-- The start of an event loop in a thread of its own: `startLoop` and `threadFunc` of
-- EventLoopThread.cpp, `start` and `runInThread` of base/Thread.cpp, and base/CountDownLatch.cpp. The
-- thread that calls `startLoop` and the one that it creates take turns in any order; what a mutex
-- guards is one turn, and a condition may wake its waiter for no reason.
pub mod Schedules
pub mod Fair
mod Tests
use light_agent_gateway.Common.{ℕ, ◌-◌, Bool, true, false, List, [], ◌∷◌, ◌==◌, ltb, if◌then◌else◌}

-- Where the calling thread stands: before `thread_.start()`; about to look at the latch's count, or
-- asleep until it is zero; about to look at `loop_`, or asleep until it is set; behind `startLoop`; or
-- stopped by `assert(tid_ > 0)`.
pub data Starter : Type 0 where
  calling at_latch asleep_at_latch at_loop asleep_at_loop returned asserted : Starter

-- The new thread: not created; before it stores its `tid`, before `countDown`, before `threadFunc`
-- publishes the loop, and in `loop.loop()`.
pub data Child : Type 0 where
  absent created counting publishing looping : Child

pub record Startup : Type 0 where
  pub starter : Starter
  pub child : Child
  pub started : Bool
  pub count : ℕ
  pub has_tid : Bool
  pub has_loop : Bool

abbrev pub constructed : Startup
constructed = record {
  starter = calling;
  child = absent;
  started = false;
  count = 1;
  has_tid = false;
  has_loop = false;
}

-- `Thread::start` up to the latch, and past it where `pthread_create` fails.
unfoldable pub start_thread : Bool → Startup → Startup
start_thread ok s =
    if ok
    then record s { starter = at_latch; child = created; started = true }
    else record s { starter = at_loop; started = false }

-- `CountDownLatch::wait`, one test of the loop, and the assertion behind it.
unfoldable pub wait_latch : Startup → Startup
wait_latch s =
    if ltb 0 s.count
    then record s { starter = asleep_at_latch }
    else if s.has_tid
    then record s { starter = at_loop }
    else record s { starter = asserted }

-- The loop of `startLoop`, one test.
unfoldable pub wait_loop : Startup → Startup
wait_loop s =
    if s.has_loop then record s { starter = returned } else record s { starter = asleep_at_loop }

abbrev pub wake_latch : Starter → Starter
wake_latch asleep_at_latch = at_latch
wake_latch p = p

abbrev pub wake_loop : Starter → Starter
wake_loop asleep_at_loop = at_loop
wake_loop p = p

-- `countDown`, which is called once for a count of 1.
unfoldable pub count_down : Startup → Startup
count_down s =
    let count = s.count - 1 in
    record s { count = count; starter = if count == 0 then wake_latch s.starter else s.starter }

-- The head of `threadFunc`, under the mutex.
unfoldable pub publish : Startup → Startup
publish s = record s { has_loop = true; starter = wake_loop s.starter }

unfoldable pub starter_turn : Bool → Startup → Startup
starter_turn ok s = elim s.starter [
  | calling ↦ start_thread ok s
  | at_latch ↦ wait_latch s
  | at_loop ↦ wait_loop s
  | _ ↦ s
]

unfoldable pub child_turn : Startup → Startup
child_turn s = elim s.child [
  | absent ↦ s
  | created ↦ record s { has_tid = true; child = counting }
  | counting ↦ record (count_down s) { child = publishing }
  | publishing ↦ record (publish s) { child = looping }
  | looping ↦ s
]

-- A wakeup for no reason.
unfoldable pub stray_wakeup : Startup → Startup
stray_wakeup s = record s { starter = wake_loop (wake_latch s.starter) }

pub data Turn : Type 0 where
  of_starter of_child stray : Turn

abbrev pub take_turn : Bool → Turn → Startup → Startup
take_turn ok of_starter s = starter_turn ok s
take_turn ok of_child s = child_turn s
take_turn ok stray s = stray_wakeup s

unfoldable pub run : Bool → List Turn → Startup → Startup
run ok [] s = s
run ok (t ∷ ts) s = run ok ts (take_turn ok t s)
