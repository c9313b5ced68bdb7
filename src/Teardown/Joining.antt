-- ===== src/Teardown/Joining.antt =====
-- How `quit` and the end of the loop's thread meet.
use light_agent_gateway.Common.{◌≡◌, ◌≢◌, refl, true, false, arith, inl, inr, Bool-cases}
use light_agent_gateway.Loop
use light_agent_gateway.Loop.{
  created, polling, stopped, EventLoop, set_quit, wake_for, wakeup, start_loop,
}
use light_agent_gateway.Loop.System.{
  System, init, push_outside, quit_outside, wake_outside, queue_inside, quit_inside, begin,
  poll_wakeup, poll_others, arrives, read_wakeup, swap, call, finish, test_quit, Runs, is_own,
}
use light_agent_gateway.Loop.Quit.{quit_stops}
use light_agent_gateway.Teardown
use light_agent_gateway.Teardown.{
  quitting, joining, behind, Teardown, published, is_quit, destroy, wake_loop, end_thread, join,
  turn, destroys, skips, wakes, ends, joins, Reach, here, next, Alone, IsDangling,
}

is_own-not_quit :
    {s t : System} (step : Loop.System.Step s t) → is_own step ≡ true → is_quit step ≡ false
is_own-not_quit (push_outside f) o = ground arith
is_own-not_quit quit_outside o = ground arith
is_own-not_quit (wake_outside n e) o = ground arith
is_own-not_quit (queue_inside f m) o = ground arith
is_own-not_quit (quit_inside m) o = ground arith
is_own-not_quit (begin e) o = refl
is_own-not_quit (poll_wakeup e w c) o = refl
is_own-not_quit (poll_others e y) o = refl
is_own-not_quit arrives o = refl
is_own-not_quit (read_wakeup e) o = refl
is_own-not_quit (swap e) o = refl
is_own-not_quit (call f left e) o = refl
is_own-not_quit (finish e) o = refl
is_own-not_quit (test_quit e) o = refl

-- The loop's own steps, as steps of the whole.
Runs-Alone :
    (d : Teardown) {s : System}
    → Runs d.system s
    → d.ended ≡ false
    → Alone d (record d { system = s })
Runs-Alone d Loop.System.resting l = Teardown.resting
Runs-Alone d (Loop.System.running r step o) l =
    Teardown.running (Runs-Alone d r l) (turn step (is_own-not_quit step o) l) o

Alone-Reach : {d e : Teardown} → Alone d e → Reach d e
Alone-Reach Teardown.resting = here
Alone-Reach (Teardown.running a step o) = next (Alone-Reach a) step

-- Each step is one of the loop with its threads, or leaves them alone.
Reach-system : {d : Teardown} → Reach published d → Loop.System.Reach init d.system
unfolding destroy wake_loop end_thread join
Reach-system here = Loop.System.here
Reach-system (next r (turn step q l)) = Loop.System.next (Reach-system r) step
Reach-system (next r (destroys b l)) = Loop.System.next (Reach-system r) quit_outside
Reach-system (next r (skips b l)) = Reach-system r
Reach-system (next r (wakes n q w l)) = Loop.System.next (Reach-system r) (wake_outside n w)
Reach-system (next r (ends p l)) = Reach-system r
Reach-system (next r (joins j l)) = Reach-system r

-- In every state that is reached in which `~EventLoopThread` waits in `join`, the loop has begun, `quit_` is
-- set, and the loop's thread is not to sleep while a write to the eventfd is still due: with no step but those
-- of the loop's thread itself, with nothing arriving on any other descriptor and no functor queued, that
-- thread ends, and `join` returns to the destructor.
pub join_returns :
    {d : Teardown}
    → Reach published d
    → d.destroyer ≡ joining
    → d.system.loop.pc ≢ created
    → d.system.loop.quit ≡ true
    → (d.system.loop.pc ≡ polling → d.system.wakers ≡ 0)
    → (e : Teardown) × Alone d e × (e.destroyer ≡ behind) × (e.joined ≡ true)
unfolding end_thread join
join_returns {d} r j b q w = elim (Bool-cases d.ended) [
  | inl e ↦ (join d, Teardown.running Teardown.resting (joins j e) refl, refl, refl)
  | inr e ↦
      let k = quit_stops (Reach-system r) b q w in
      let stopped_at : Teardown = record d { system = k.end } in
      (
        join (end_thread stopped_at),
        Teardown.running (Teardown.running (Runs-Alone d k.reached e) (ends k.at_end e) refl)
            (joins j refl) refl,
        refl,
        refl,
      )
]

-- In every state that is reached in which `quit` has set `quit_` and has still to write to the eventfd,
-- and the loop's thread, which has begun and not ended, is anywhere but at the head of its loop: by its
-- own steps the thread can end first, and `quit` then writes to the eventfd of a loop that has been
-- destroyed with the thread's stack.
pub quit_dangles :
    {d : Teardown}
    → Reach published d
    → d.destroyer ≡ quitting
    → d.ended ≡ false
    → d.system.loop.pc ≢ created
    → d.system.loop.pc ≢ polling
    → d.system.loop.quit ≡ true
    → (e : Teardown) × Reach d e × IsDangling e
unfolding end_thread
quit_dangles {d} r j e b p q =
    let k = quit_stops (Reach-system r) b q (λ x. absurd (p x)) in
    let stopped_at : Teardown = record d { system = k.end } in
    (
      end_thread stopped_at,
      next (Alone-Reach (Runs-Alone d k.reached e)) (ends k.at_end e),
      (j, refl),
    )
