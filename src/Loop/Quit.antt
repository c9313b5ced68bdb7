-- ===== src/Loop/Quit.antt =====
-- From `quit` to the end of `EventLoop::loop`, wherever the loop's thread stands.
use light_agent_gateway.Common.{ℕ, ◌≡◌, ◌≢◌, inl, inr, refl, ap, ◌∙◌, true, false, List, arith}
use light_agent_gateway.Loop.{
  Pc, created, polling, dispatching, calling, testing, stopped, poll, handle_read, handle_wakeup,
  swap_functors, finish_calls, loop_again,
}
use light_agent_gateway.Loop.System.{
  System, init, on_loop, poll_wakeup, read_wakeup, swap, finish, test_quit, Reach, Runs, resting,
  running, Runs-trans,
}
use light_agent_gateway.Loop.Wakeup.{no_lost_wakeup}
use light_agent_gateway.Loop.Drain.{call_all, Runs-call_all, loop-call_all}

-- The loop's thread gets behind the loop by itself.
pub record Stops (s : System) : Type 0 where
  pub end : System
  pub reached : Runs s end
  pub at_end : end.loop.pc ≡ stopped

after : {s t : System} → Runs s t → Stops t → Stops s
after r k = record { end = k.end; reached = Runs-trans r k.reached; at_end = k.at_end }

loop_again-stops : (s : System) → s.loop.quit ≡ true → (loop_again s.loop).pc ≡ stopped
unfolding loop_again
loop_again-stops s q = rw q refl

from_testing : (s : System) → s.loop.pc ≡ testing → s.loop.quit ≡ true → Stops s
from_testing s e q = record {
  end = on_loop s (loop_again s.loop);
  reached = running resting (test_quit e) refl;
  at_end = loop_again-stops s q;
}

from_calling : (fs : List ℕ) (s : System) → s.loop.pc ≡ calling fs → s.loop.quit ≡ true → Stops s
unfolding finish_calls
from_calling fs s e q =
    let t = call_all fs s in
    let l = loop-call_all fs s e in
    after (running (Runs-call_all fs s e) (finish (ap (λ k. k.pc) l)) refl)
      (from_testing (on_loop t (finish_calls t.loop)) refl (ap (λ k. k.quit) l ∙ q))

from_dispatched : (s : System) → s.loop.pc ≡ dispatching false → s.loop.quit ≡ true → Stops s
unfolding swap_functors
from_dispatched s e q =
    after (running resting (swap e) refl)
      (from_calling s.loop.pending_functors (on_loop s (swap_functors s.loop)) refl q)

from_wakeup : (s : System) → s.loop.pc ≡ dispatching true → s.loop.quit ≡ true → Stops s
unfolding handle_wakeup handle_read
from_wakeup s e q =
    after (running resting (read_wakeup e) refl)
      (from_dispatched (on_loop s (handle_wakeup s.loop)) refl q)

from_polling :
    (s : System) → Reach init s → s.loop.pc ≡ polling → s.loop.quit ≡ true → s.wakers ≡ 0 → Stops s
unfolding poll
from_polling s r e q w = elim (no_lost_wakeup r e (inr q)) [
  | inl (edge, counter) ↦
      after (running resting (poll_wakeup e edge counter) refl)
        (from_wakeup (on_loop s (poll true s.loop)) refl q)
  | inr wakers ↦ absurd (omega (arith, w, wakers))
]

stops_at :
    (pc : Pc) (s : System)
    → s.loop.pc ≡ pc
    → pc ≢ created
    → Reach init s
    → s.loop.quit ≡ true
    → (pc ≡ polling → s.wakers ≡ 0)
    → Stops s
stops_at created s e b r q w = absurd (b refl)
stops_at polling s e b r q w = from_polling s r e q (w refl)
stops_at (dispatching true) s e b r q w = from_wakeup s e q
stops_at (dispatching false) s e b r q w = from_dispatched s e q
stops_at (calling fs) s e b r q w = from_calling fs s e q
stops_at testing s e b r q w = from_testing s e q
stops_at stopped s e b r q w = record { end = s; reached = resting; at_end = e }

-- In every state that the threads reach in which the loop has begun, `quit` is set and, where the loop is
-- to sleep, no other thread has still to write to the eventfd: the loop's thread gets behind the loop by
-- its own steps, wherever it stands, asleep, among the channels or among the functors.
pub quit_stops :
    {s : System}
    → Reach init s
    → s.loop.pc ≢ created
    → s.loop.quit ≡ true
    → (s.loop.pc ≡ polling → s.wakers ≡ 0)
    → Stops s
quit_stops {s} r b q w = stops_at s.loop.pc s refl b r q w
