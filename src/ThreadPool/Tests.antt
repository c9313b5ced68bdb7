-- ===== src/ThreadPool/Tests.antt =====
-- Concrete pools, with numbers for tasks.
use light_agent_gateway.Common.{
  ℕ, ◌≡◌, refl, true, false, none, some, List, [], ◌∷◌, ◌++◌, map, arith,
}
use light_agent_gateway.ThreadPool.{
  ThreadPool, finishes, graceful_shutdown, immediate_shutdown, threadpool_create, threadpool_thread,
}
use light_agent_gateway.ThreadPool.History.{
  Op, add, work, call, destroy, History, run, fresh, Conserves, created-Conserves,
  graceful_shutdown-drained,
}
use mathlib.Core.List.{Permᴰ}
use light_agent_gateway.ThreadPool.Shutdown.{Standstill, threadpool_destroy-deadlocks}

abbrev zeroed : ThreadPool ℕ
zeroed = record {
  locked = false;
  destroyed = false;
  thread_count = 0;
  queue = λ i. none;
  queue_size = 0;
  head = 0;
  tail = 0;
  count = 0;
  shutdown = 0;
  started = 0;
}

abbrev calls : List (Op ℕ)
calls =
    add 5
    ∷ add 6
    ∷ add 7
    ∷ work
    ∷ add 8
    ∷ destroy graceful_shutdown
    ∷ work
    ∷ call 1
    ∷ work
    ∷ call 0
    ∷ add 9
    ∷ []

created-Conserves_example :
    Conserves (run calls (fresh (threadpool_create (λ i. true) 2 2 zeroed).1))
created-Conserves_example = created-Conserves (λ i. true) 2 2 zeroed calls

abbrev shut : ThreadPool ℕ
shut = record zeroed { queue_size = 2; shutdown = 2; started = 1 }

-- The second task has been called, and the first is in the hand of a worker.
abbrev drained : History ℕ
drained = record {
  pool = shut;
  accepted = 4 ∷ 5 ∷ [];
  taken = some 4 ∷ some 5 ∷ [];
  in_hand = some 4 ∷ [];
  called = some 5 ∷ [];
}

drained-Conserves : Conserves drained
drained-Conserves = record {
  waiting = [];
  queued = record {
    head_bound = omega arith;
    count_bound = omega arith;
    tail_place = refl;
    holds = refl;
  };
  shutdown_known = omega arith;
  in_order = refl;
  once = Permᴰ.swap refl refl;
}

shut-finishes : threadpool_thread shut ≡ finishes (record shut { started = 0 })
unfolding threadpool_thread
shut-finishes = refl

graceful_shutdown-drained_example :
    (drained.taken ≡ map some drained.accepted)
    × Permᴰ (drained.called ++ drained.in_hand) (map some drained.accepted)
graceful_shutdown-drained_example =
    graceful_shutdown-drained drained (record shut { started = 0 }) drained-Conserves refl
      shut-finishes

threadpool_destroy-deadlocks_example :
    Standstill
      (record shut { locked = true })
      drained.accepted
      drained.taken
      (run
        (destroy immediate_shutdown ∷ add 9 ∷ work ∷ call 0 ∷ destroy graceful_shutdown ∷ [])
        drained)
threadpool_destroy-deadlocks_example =
    threadpool_destroy-deadlocks immediate_shutdown
      (add 9 ∷ work ∷ call 0 ∷ destroy graceful_shutdown ∷ []) drained refl (λ e. ground (arith, e))
