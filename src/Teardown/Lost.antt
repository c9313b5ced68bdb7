-- ===== src/Teardown/Lost.antt =====
-- A destructor that comes before the loop begins.
use light_agent_gateway.Common.{◌≡◌, ◌≢◌, ◌⊎◌, inl, inr, refl, true, false, arith}
use light_agent_gateway.Loop
use light_agent_gateway.Loop.{
  created, polling, stopped, EventLoop, set_quit, wake_for, wakeup, start_loop,
}
use light_agent_gateway.Loop.System.{
  System, init, push_outside, quit_outside, wake_outside, queue_inside, quit_inside, begin,
  poll_wakeup, poll_others, arrives, read_wakeup, swap, call, finish, test_quit, Runs, resting,
  running, is_own,
}
use light_agent_gateway.Teardown.{
  before, quitting, joining, behind, Teardown, destroy, wake_loop, Step, turn, destroys, skips,
  wakes, ends, joins, Reach, here, next,
}
use light_agent_gateway.Teardown.Order.{IsLooping, Step-IsLooping}

-- The destructor waits, and nobody tells the loop to stop.
record IsLost (d : Teardown) : Type 0 where
  waits : (d.destroyer ≡ quitting) ⊎ (d.destroyer ≡ joining)
  looping : IsLooping d.system
  goes_on : d.ended ≡ false

Step-IsLost : {d e : Teardown} → IsLost d → Step d e → IsLost e
unfolding wake_loop
Step-IsLost i (turn step q l) = record {
  waits = i.waits;
  looping = Step-IsLooping step q i.looping;
  goes_on = l;
}
Step-IsLost i (destroys b l) = ground (arith, i.waits)
Step-IsLost i (skips b l) = ground (arith, i.waits)
Step-IsLost {d} i (wakes n q w l) =
    let woken : System = record (d.system) { loop = wake_for false d.system.loop; wakers = n } in
    let step : Loop.System.Step d.system woken = wake_outside n w in
    record { waits = inr refl; looping = Step-IsLooping step refl i.looping; goes_on = l }
Step-IsLost i (ends p l) = absurd (i.looping.goes_on p)
Step-IsLost i (joins j l) = ground (arith, l, i.goes_on)

Reach-IsLost : {d e : Teardown} → IsLost d → Reach d e → IsLost e
Reach-IsLost i here = i
Reach-IsLost i (next r step) = Step-IsLost (Reach-IsLost i r) step

lost-waits : (d : Teardown) → IsLost d → d.destroyer ≢ behind
lost-waits d i e = ground (arith, i.waits, e)

-- In every state in which the loop is published and has not begun, `~EventLoopThread` may begin and set
-- `quit_`, and then `loop` begin, which clears it: whatever any thread does from there on, also when the
-- eventfd is written, the destructor is never over.
pub quit_lost :
    (d : Teardown)
    → d.destroyer ≡ before
    → d.has_loop ≡ true
    → d.ended ≡ false
    → d.system.loop.pc ≡ created
    → (e : Teardown) × Reach d e × ((f : Teardown) → Reach e f → f.destroyer ≢ behind)
unfolding destroy set_quit start_loop
quit_lost d b h l p =
    let q = destroy d in
    let e : Teardown = record q {
      system = record (q.system) { loop = start_loop q.system.loop };
    } in
    (
      e,
      next (next here (destroys b h)) (turn (begin p) refl l),
      λ f r. lost-waits f (
          Reach-IsLost
            (record {
              waits = inl refl;
              looping = record { no_quit = refl; goes_on = λ x. ground (arith, x) };
              goes_on = l;
            })
            r),
    )
