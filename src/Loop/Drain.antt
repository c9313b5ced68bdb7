-- ===== src/Loop/Drain.antt =====
-- One round of `EventLoop::loop`, while the other threads do nothing.
use light_agent_gateway.Common.{ℕ, ◌≡◌, refl, ap, true, List, [], ◌∷◌, ◌++◌}
use light_agent_gateway.Loop.{calling, poll, handle_wakeup, swap_functors, finish_calls, loop_again}
use light_agent_gateway.Loop.System.{System, on_loop, call, Runs, resting, running, Runs-trans}

-- `doPendingFunctors`, behind the mutex: functors that queue none.
unfoldable pub call_all : List ℕ → System → System
call_all [] s = s
call_all (f ∷ left) s =
    call_all left
      (record s { loop = record (s.loop) { pc = calling left }; called = s.called ++ f ∷ [] })

unfoldable pub do_pending_functors : System → System
unfolding swap_functors finish_calls
do_pending_functors s =
    let swapped = on_loop s (swap_functors s.loop) in
    let all_called = call_all s.loop.pending_functors swapped in
    on_loop all_called (finish_calls all_called.loop)

-- One round of the loop in which the wakeup channel alone is active.
unfoldable pub round : System → System
unfolding do_pending_functors poll handle_wakeup loop_again
round s =
    let read = on_loop s (handle_wakeup (poll true s.loop)) in
    let done = do_pending_functors read in on_loop done (loop_again done.loop)

pub Runs-call_all : (fs : List ℕ) (s : System) → s.loop.pc ≡ calling fs → Runs s (call_all fs s)
unfolding call_all
Runs-call_all [] s e = resting
Runs-call_all (f ∷ left) s e =
    Runs-trans (running resting (call f left e) refl) (Runs-call_all left _ refl)

pub loop-call_all :
    (fs : List ℕ) (s : System)
    → s.loop.pc ≡ calling fs
    → (call_all fs s).loop ≡ record (s.loop) { pc = calling [] }
unfolding call_all
loop-call_all [] s e = ap (λ p. record (s.loop) { pc = p }) e
loop-call_all (f ∷ left) s e = loop-call_all left _ refl
