-- ===== src/Loop/Order.antt =====
-- The order in which the loop calls its functors.
use light_agent_gateway.Common.{
  ℕ, ◌≡◌, refl, sym, ap, ◌∙◌, Bool, true, false, List, [], ◌∷◌, ◌++◌, append-nil, append_assoc,
  if◌then◌else◌, arith,
}
use light_agent_gateway.Loop.{
  Pc, calling, testing, EventLoop, wakeup, push_functor, wake_for, queue_in_loop, set_quit,
  quit_from, run_in_loop, start_loop, poll, handle_wakeup, handle_read, swap_functors, finish_calls,
  loop_again,
}
use light_agent_gateway.Loop.System.{
  System, init, Step, push_outside, quit_outside, wake_outside, queue_inside, quit_inside, begin,
  poll_wakeup, poll_others, arrives, read_wakeup, swap, call, finish, test_quit, Reach, here, next,
}

-- The functors that `doPendingFunctors` has still to call.
abbrev pub left_of : Pc → List ℕ
left_of (calling left) = left
left_of _ = []

abbrev pub waiting : EventLoop → List ℕ
waiting l = left_of l.pc ++ l.pending_functors

abbrev InOrder : System → Type 0
InOrder s = s.queued ≡ s.called ++ waiting s.loop

waiting-wake_for : (here : Bool) (l : EventLoop) → waiting (wake_for here l) ≡ waiting l
unfolding wake_for wakeup
waiting-wake_for h l = ground arith

waiting-push_functor : (f : ℕ) (l : EventLoop) → waiting (push_functor f l) ≡ waiting l ++ f ∷ []
unfolding push_functor
waiting-push_functor f l = sym (append_assoc (left_of l.pc) l.pending_functors (f ∷ []))

-- Called at once, a functor does not wait; queued, it waits behind the others.
waiting-run_in_loop :
    (here : Bool) (f : ℕ) (l : EventLoop)
    → waiting (run_in_loop here f l).1 ≡ (if here then waiting l else waiting l ++ f ∷ [])
unfolding run_in_loop queue_in_loop
waiting-run_in_loop true f l = refl
waiting-run_in_loop false f l = waiting-wake_for false (push_functor f l) ∙ waiting-push_functor f l

waiting-loop_again : (l : EventLoop) → l.pc ≡ testing → waiting (loop_again l) ≡ waiting l
unfolding loop_again
waiting-loop_again l e = ground arith

-- What waits, where the loop stands at `pc`.
pub waiting_at :
    (s : System) {pc : Pc}
    → InOrder s
    → s.loop.pc ≡ pc
    → s.queued ≡ s.called ++ (left_of pc ++ s.loop.pending_functors)
waiting_at s i e = i ∙ ap (λ p. s.called ++ (left_of p ++ s.loop.pending_functors)) e

queue-InOrder :
    (called : List ℕ) (f : ℕ) (queued old new : List ℕ)
    → queued ≡ called ++ old
    → new ≡ old ++ f ∷ []
    → queued ++ f ∷ [] ≡ called ++ new
queue-InOrder called f queued old new q n =
    ap (λ z. z ++ f ∷ []) q ∙ append_assoc called old (f ∷ []) ∙ ap (λ z. called ++ z) (sym n)

Step-InOrder : {s t : System} → InOrder s → Step s t → InOrder t
unfolding queue_in_loop set_quit quit_from start_loop poll handle_read handle_wakeup swap_functors
    finish_calls loop_again
Step-InOrder {s} i (push_outside f) =
    queue-InOrder s.called f s.queued (waiting s.loop) _ i (waiting-push_functor f s.loop)
Step-InOrder i quit_outside = i
Step-InOrder {s} i (wake_outside n e) =
    i ∙ ap (λ w. s.called ++ w) (sym (waiting-wake_for false s.loop))
Step-InOrder {s} i (queue_inside f m) =
    queue-InOrder s.called f s.queued (waiting s.loop) _ i
      (waiting-wake_for true (push_functor f s.loop) ∙ waiting-push_functor f s.loop)
Step-InOrder i (quit_inside m) = i
Step-InOrder i (begin e) = ground arith
Step-InOrder i (poll_wakeup e w c) = ground arith
Step-InOrder i (poll_others e y) = ground arith
Step-InOrder i arrives = i
Step-InOrder i (read_wakeup e) = ground arith
Step-InOrder {s} i (swap e) =
    waiting_at s i e ∙ ap (λ z. s.called ++ z) (sym (append-nil s.loop.pending_functors))
Step-InOrder {s} i (call f left e) =
    waiting_at s i e ∙ sym (append_assoc s.called (f ∷ []) (left ++ s.loop.pending_functors))
Step-InOrder i (finish e) = ground arith
Step-InOrder {s} i (test_quit e) = i ∙ ap (λ w. s.called ++ w) (sym (waiting-loop_again s.loop e))

-- In every state that the loop's thread and any number of other threads reach, in whatever order
-- their steps come, the functors that were queued, in the order in which they were queued, are those
-- that were called, in the order of the calls, then those that `doPendingFunctors` has swapped out and
-- has still to call, then those that are pending. So each is called at most once, none is lost, and
-- none overtakes another, also where functors queue functors.
pub called_in_order :
    {s : System}
    → Reach init s
    → s.queued ≡ s.called ++ (left_of s.loop.pc ++ s.loop.pending_functors)
called_in_order here = refl
called_in_order (next r step) = Step-InOrder (called_in_order r) step
