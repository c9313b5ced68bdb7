-- ===== src/Loop/System.antt =====
-- The loop's thread and the others, interleaved in any order, one access to the shared members at a
-- time.
use light_agent_gateway.Common.{ℕ, suc, ◌≡◌, ◌<◌, Bool, true, false, List, [], ◌∷◌, ◌++◌}
use light_agent_gateway.Loop.{
  Pc, created, polling, dispatching, calling, testing, EventLoop, new_loop, push_functor, wake_for,
  queue_in_loop, set_quit, quit_from, start_loop, poll, handle_wakeup, swap_functors, finish_calls,
  loop_again,
}

-- `wakers` counts the other threads that have queued a functor, or called `quit`, and have still to
-- write to the eventfd. `ready` tells whether the kernel has another descriptor to report. `queued` and `called` are the history.
pub record System : Type 0 where
  pub loop : EventLoop
  pub wakers : ℕ
  pub ready : Bool
  pub queued : List ℕ
  pub called : List ℕ

abbrev pub init : System
init = record { loop = new_loop; wakers = 0; ready = false; queued = []; called = [] }

abbrev pub on_loop : System → EventLoop → System
on_loop s l = record s { loop = l }

-- The handlers of channels and the functors may queue functors in their own loop's thread;
-- `handleExpired` queues none.
abbrev pub may_queue : Pc → Bool
may_queue (dispatching wake) = true
may_queue (calling left) = true
may_queue _ = false

-- `epoll_wait` reports the eventfd on an edge, where the counter is still positive, and other descriptors
-- when something has arrived on them; with nothing to report it does not return.
pub data Step (s : System) : System → Type 0 where
  push_outside :
      (f : ℕ)
      → Step s (record s {
        loop = push_functor f s.loop;
        wakers = suc s.wakers;
        queued = s.queued ++ f ∷ [];
      })
  quit_outside : Step s (record s { loop = set_quit s.loop; wakers = suc s.wakers })
  wake_outside :
      (n : ℕ) → s.wakers ≡ suc n → Step s (record s { loop = wake_for false s.loop; wakers = n })
  queue_inside :
      (f : ℕ)
      → may_queue s.loop.pc ≡ true
      → Step s (record s { loop = queue_in_loop true f s.loop; queued = s.queued ++ f ∷ [] })
  quit_inside : may_queue s.loop.pc ≡ true → Step s (on_loop s (quit_from true s.loop))
  begin : s.loop.pc ≡ created → Step s (on_loop s (start_loop s.loop))
  poll_wakeup :
      s.loop.pc ≡ polling
      → s.loop.edge ≡ true
      → 0 < s.loop.counter
      → Step s (on_loop s (poll true s.loop))
  poll_others :
      s.loop.pc ≡ polling
      → s.ready ≡ true
      → Step s (record s { loop = poll false s.loop; ready = false })
  arrives : Step s (record s { ready = true })
  read_wakeup : s.loop.pc ≡ dispatching true → Step s (on_loop s (handle_wakeup s.loop))
  swap : s.loop.pc ≡ dispatching false → Step s (on_loop s (swap_functors s.loop))
  call :
      (f : ℕ) (left : List ℕ)
      → s.loop.pc ≡ calling (f ∷ left)
      → Step s
          (record s { loop = record (s.loop) { pc = calling left }; called = s.called ++ f ∷ [] })
  finish : s.loop.pc ≡ calling [] → Step s (on_loop s (finish_calls s.loop))
  test_quit : s.loop.pc ≡ testing → Step s (on_loop s (loop_again s.loop))

pub data Reach (s : System) : System → Type 0 where
  here : Reach s s
  next : {t u : System} → Reach s t → Step t u → Reach s u

-- The steps of the loop's thread itself.
abbrev pub is_own : {s t : System} → Step s t → Bool
is_own (push_outside f) = false
is_own quit_outside = false
is_own (wake_outside n e) = false
is_own (queue_inside f m) = false
is_own (quit_inside m) = false
is_own arrives = false
is_own _ = true

-- The loop's thread runs by itself: no functor is queued, `quit` is not called, and nothing arrives on another
-- descriptor.
pub data Runs (s : System) : System → Type 0 where
  resting : Runs s s
  running : {t u : System} → Runs s t → (step : Step t u) → is_own step ≡ true → Runs s u

pub Runs-trans : {s t u : System} → Runs s t → Runs t u → Runs s u
Runs-trans r resting = r
Runs-trans r (running q step o) = running (Runs-trans r q) step o
