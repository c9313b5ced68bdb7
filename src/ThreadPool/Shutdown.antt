-- ===== src/ThreadPool/Shutdown.antt =====
-- A second call of `threadpool_destroy`.
use light_agent_gateway.Common.{
  ◌≡◌, ◌≢◌, refl, ◌∙◌, true, false, Option, none, some, List, [], ◌∷◌, arith,
}
use light_agent_gateway.ThreadPool.{
  ThreadPool, ShutDownOption, threadpool_add, threadpool_thread, threadpool_destroy,
}
use light_agent_gateway.ThreadPool.Hands.{pull}
use light_agent_gateway.ThreadPool.History.{
  History, Op, add, work, call, destroy, step, run, performed,
}

module _ {A : Type 0} where
  -- The pool is as it was, and no task has been accepted or taken.
  pub record Standstill (p : ThreadPool A) (accepted : List A) (taken : List (Option A))
      (z : History A) : Type 0 where
    pub same_pool : z.pool ≡ p
    pub none_accepted : z.accepted ≡ accepted
    pub none_taken : z.taken ≡ taken

  performed-Standstill :
      (y : History A) (o : Option (Option A × List (Option A)))
      → Standstill y.pool y.accepted y.taken (performed y o)
  performed-Standstill y none = record { same_pool = refl; none_accepted = refl; none_taken = refl }
  performed-Standstill y (some (t, others)) = record {
    same_pool = refl;
    none_accepted = refl;
    none_taken = refl;
  }

  -- Where the mutex is held for good, each further step waits for it, or calls a task taken before.
  step-Standstill :
      (x : Op A) (y : History A)
      → y.pool.locked ≡ true
      → Standstill y.pool y.accepted y.taken (step x y)
  unfolding step threadpool_add threadpool_thread threadpool_destroy
  step-Standstill (add t) y l = ground (arith, l)
  step-Standstill work y l = ground (arith, l)
  step-Standstill (call k) y l = performed-Standstill y (pull k y.in_hand)
  step-Standstill (destroy o) y l = ground (arith, l)

  run-Standstill :
      (os : List (Op A)) (y : History A)
      → y.pool.locked ≡ true
      → Standstill y.pool y.accepted y.taken (run os y)
  unfolding run
  run-Standstill [] y l = record { same_pool = refl; none_accepted = refl; none_taken = refl }
  run-Standstill (x ∷ xs) y l =
      let s = step-Standstill x y l in
      let r = run-Standstill xs (step x y) (ground (arith, s.same_pool, l)) in
      record {
        same_pool = r.same_pool ∙ s.same_pool;
        none_accepted = r.none_accepted ∙ s.none_accepted;
        none_taken = r.none_taken ∙ s.none_taken;
      }

  -- Where the pool is shut down already and its mutex is free, `threadpool_destroy` returns with the mutex
  -- still held; and whatever is called after that, additions, critical sections of workers, calls of
  -- tasks taken before and further shutdowns, in any order and number, the pool stays as it is with
  -- its mutex held: no task is accepted and none is taken any more, also none of those that wait.
  pub threadpool_destroy-deadlocks :
      (o : ShutDownOption) (os : List (Op A)) (y : History A)
      → y.pool.locked ≡ false
      → y.pool.shutdown ≢ 0
      → Standstill (record (y.pool) { locked = true }) y.accepted y.taken (run (destroy o ∷ os) y)
  unfolding run step threadpool_destroy
  threadpool_destroy-deadlocks o os y l s =
      let y' : History A = record y { pool = record (y.pool) { locked = true } } in
      let e : step (destroy o) y ≡ y' = ground (arith, l, s) in rw e (run-Standstill os y' refl)
