-- ===== src/ThreadPool/History.antt =====
-- Callers and workers taking turns: any sequence of additions, critical sections of workers, calls of the
-- tasks that they have taken, and shutdowns.
use light_agent_gateway.Common.{
  ℕ, zero, suc, ◌+◌, ◌-◌, ◌≤◌, ◌<◌, ◌≡◌, ◌≢◌, refl, sym, ap, ◌∙◌, Bool, true, false, Option, some,
  List, [], ◌∷◌, ◌++◌, by_if, arith, map, append-nil, append_assoc, none, subst,
}
use light_agent_gateway.ThreadPool.Hands.{pull, Pulled, pull-Pulled}
use mathlib.Core.List.{Permᴰ}
use mathlib.Core.List.Permᴰ
use light_agent_gateway.Common.Decimal.{ℤ, pos}
use light_agent_gateway.ThreadPool.{
  ThreadPool, Outcome, returned, ShutDownOption, threadpool_add, code, graceful_shutdown,
  create_threads, is_refused, emptied, threadpool_create, threadpool_thread, Turn, sleeps, finishes,
  takes, stuck, threadpool_destroy, Destroying, ended, joining, with_task, without_task,
}
use light_agent_gateway.ThreadPool.Ring.{slots_from}
use light_agent_gateway.ThreadPool.Order.{Queued, map-snoc, with_task-Queued, without_task-Queued}

-- What callers and workers do to a pool whose pthread calls succeed: each critical section is one step,
-- and so is the call of a task that a worker has taken, which comes later and in any order.
pub data Op (A : Type 0) : Type 0 where
  add : A → Op A
  work : Op A
  call : ℕ → Op A
  destroy : ShutDownOption → Op A

-- The pool, the tasks whose `threadpool_add` returned 0, those that workers have taken off the ring, in
-- order, those of them that a worker holds and has not called yet, and those that have been called.
pub record History (A : Type 0) : Type 0 where
  pub pool : ThreadPool A
  pub accepted : List A
  pub taken : List (Option A)
  pub in_hand : List (Option A)
  pub called : List (Option A)

code_bound : (o : ShutDownOption) → code o ≤ 2
code_bound o = ground arith

accepted_size : (threads size : ℕ) → is_refused threads size ≡ false → 0 < size
accepted_size threads size e = ground arith

module _ {A : Type 0} where
  abbrev added : A → History A → Outcome A → History A
  added t y (returned (pos zero) p) = record y { pool = p; accepted = y.accepted ++ t ∷ [] }
  added t y (returned _ p) = record y { pool = p }
  added t y _ = y

  abbrev worked : History A → Turn A → History A
  worked y (sleeps p) = record y { pool = p }
  worked y (finishes p) = record y { pool = p }
  worked y (takes t p) = record y {
    pool = p;
    taken = y.taken ++ t ∷ [];
    in_hand = y.in_hand ++ t ∷ [];
  }
  worked y stuck = y

  abbrev ruined : History A → Destroying A → History A
  ruined y (ended (returned _ p)) = record y { pool = p }
  ruined y (ended _) = y
  ruined y (joining p) = record y { pool = p }

  abbrev pub performed : History A → Option (Option A × List (Option A)) → History A
  performed y none = y
  performed y (some (t, others)) = record y { in_hand = others; called = y.called ++ t ∷ [] }

  unfoldable pub step : Op A → History A → History A
  step (add t) y = added t y (threadpool_add true true true t y.pool)
  step work y = worked y (threadpool_thread y.pool)
  step (call k) y = performed y (pull k y.in_hand)
  step (destroy option) y = ruined y (threadpool_destroy true true true option y.pool)

  unfoldable pub run : List (Op A) → History A → History A
  unfolding step
  run [] y = y
  run (o ∷ os) y = run os (step o y)

  -- The tasks that have been accepted are those taken, in their order, and then those in the ring; and
  -- those taken are those called and those in a worker's hand.
  pub record Conserves (y : History A) : Type 0 where
    pub waiting : List A
    pub queued : Queued y.pool waiting
    pub shutdown_known : y.pool.shutdown ≤ 2
    pub in_order : map some y.accepted ≡ y.taken ++ map some waiting
    pub once : Permᴰ (y.called ++ y.in_hand) y.taken

  unlocked-Queued :
      (p : ThreadPool A) (ts : List A) → Queued p ts → Queued (record p { locked = false }) ts
  unlocked-Queued p ts q = ground arith

  kept :
      (y : History A) (l : Bool) (s n : ℕ)
      → s ≤ 2
      → Conserves y
      → Conserves (record y { pool = record (y.pool) { locked = l; shutdown = s; started = n } })
  kept y l s n b c = record {
    waiting = c.waiting;
    queued = ground arith;
    shutdown_known = b;
    in_order = c.in_order;
    once = c.once;
  }

  entered :
      (y : History A) (t : A)
      → Conserves y
      → y.pool.count ≢ y.pool.queue_size
      → Conserves (record y {
        pool = record (with_task y.pool t) { locked = false };
        accepted = y.accepted ++ t ∷ [];
      })
  entered y t c n = record {
    waiting = c.waiting ++ t ∷ [];
    queued =
        unlocked-Queued (with_task y.pool t) _ (with_task-Queued y.pool c.waiting t c.queued n);
    shutdown_known = c.shutdown_known;
    in_order =
        sym (map-snoc y.accepted t)
        ∙ (ap (λ l. l ++ some t ∷ []) c.in_order
            ∙ (append_assoc y.taken (map some c.waiting) (some t ∷ [])
                ∙ ap (λ l. y.taken ++ l) (map-snoc c.waiting t)));
    once = c.once;
  }

  left :
      (y : History A)
      → Conserves y
      → y.pool.count ≢ 0
      → Conserves (record y {
        pool = without_task y.pool;
        taken = y.taken ++ y.pool.queue y.pool.head ∷ [];
        in_hand = y.in_hand ++ y.pool.queue y.pool.head ∷ [];
      })
  left y c n =
      let (t, rest, e, f, q) = without_task-Queued y.pool c.waiting c.queued n in
      record {
        waiting = rest;
        queued = q;
        shutdown_known = c.shutdown_known;
        in_order =
            c.in_order
            ∙ (ap (λ l. y.taken ++ map some l) e
                ∙ (sym (append_assoc y.taken (some t ∷ []) (map some rest))
                    ∙ ap (λ x. (y.taken ++ x ∷ []) ++ map some rest) (sym f)));
        once =
            subst (λ l. Permᴰ l (y.taken ++ y.pool.queue y.pool.head ∷ []))
              (append_assoc y.called y.in_hand (y.pool.queue y.pool.head ∷ []))
              (Permᴰ.append_right (y.pool.queue y.pool.head ∷ []) c.once);
      }

  called_one :
      (y : History A) (p : Option (Option A × List (Option A)))
      → Pulled y.in_hand p
      → Conserves y
      → Conserves (performed y p)
  called_one y none f c = c
  called_one y (some (t, others)) f c = record {
    waiting = c.waiting;
    queued = c.queued;
    shutdown_known = c.shutdown_known;
    in_order = c.in_order;
    once =
        subst (λ l. Permᴰ l y.taken) (sym (append_assoc y.called (t ∷ []) others))
          (Permᴰ.trans (Permᴰ.append_left y.called f) c.once);
  }

  step-Conserves : (o : Op A) (y : History A) → Conserves y → Conserves (step o y)
  unfolding step threadpool_add threadpool_thread threadpool_destroy
  step-Conserves (add t) y c =
      ground (arith, entered y t c, kept y false y.pool.shutdown y.pool.started c.shutdown_known c)
  step-Conserves work y c = ground (
    arith,
    left y c,
    kept y y.pool.locked y.pool.shutdown (y.pool.started - 1) c.shutdown_known c,
  )
  step-Conserves (call k) y c = called_one y (pull k y.in_hand) (pull-Pulled k y.in_hand) c
  step-Conserves (destroy option) y c = ground (
    arith,
    kept y true y.pool.shutdown y.pool.started c.shutdown_known c,
    kept y false (code option) y.pool.started (code_bound option) c,
  )

  pub run-Conserves : (os : List (Op A)) (y : History A) → Conserves y → Conserves (run os y)
  unfolding run
  run-Conserves [] y c = c
  run-Conserves (o ∷ os) y c = run-Conserves os (step o y) (step-Conserves o y c)

  abbrev pub fresh : ThreadPool A → History A
  fresh p = record { pool = p; accepted = []; taken = []; in_hand = []; called = [] }

  empty-Conserves :
      (p : ThreadPool A)
      → 0 < p.queue_size
      → p.head ≡ 0
      → p.tail ≡ 0
      → p.count ≡ 0
      → p.shutdown ≡ 0
      → Conserves (fresh p)
  empty-Conserves p l h t c s = record {
    waiting = [];
    queued = record {
      head_bound = omega (arith, l, h);
      count_bound = omega (arith, c);
      tail_place = ground arith;
      holds = rw c refl;
    };
    shutdown_known = omega (arith, s);
    in_order = refl;
    once = Permᴰ.nil;
  }

  create_threads-Conserves :
      (created : ℕ → Bool) (n : ℕ) (p : ThreadPool A)
      → 0 < p.queue_size
      → p.head ≡ 0
      → p.tail ≡ 0
      → p.count ≡ 0
      → p.shutdown ≡ 0
      → Conserves (fresh (create_threads created n p).1)
  unfolding create_threads
  create_threads-Conserves created zero p l h t c s = empty-Conserves p l h t c s
  create_threads-Conserves created (suc n) p l h t c s =
      by_if (λ (r : ℤ × ThreadPool A). Conserves (fresh r.1)) (created p.thread_count) _ _
        (λ e.
          create_threads-Conserves created n
            (record p { thread_count = p.thread_count + 1; started = p.started + 1 }) l h t c s)
        (λ e. empty-Conserves p l h t c s)

  -- In a pool that `threadpool_create` has set up, whatever sequence of additions, critical sections of
  -- workers, calls of the tasks that they hold and shutdowns follows, the tasks whose
  -- `threadpool_add` returned 0 are those that workers have taken, in the same order, followed by those
  -- that the ring still holds; and those taken are, each exactly once, those that have been called and
  -- those that a worker holds and has not called yet. So none is lost or called twice, none is
  -- overtaken in the ring, and no empty slot is called.
  pub created-Conserves :
      (created : ℕ → Bool) (threads size : ℕ) (p : ThreadPool A) (os : List (Op A))
      → Conserves (run os (fresh (threadpool_create created threads size p).1))
  unfolding threadpool_create
  created-Conserves created threads size p os = run-Conserves os _ (
      by_if (λ (r : ℤ × ThreadPool A). Conserves (fresh r.1)) (is_refused threads size) _ _
        (λ e. create_threads-Conserves created 4 (emptied p 1024) (omega arith) refl refl refl refl)
        (λ e.
          create_threads-Conserves created threads (emptied p size) (accepted_size threads size e)
            refl refl refl refl))

  drained_ring :
      (slots : ℕ → Option A) (size h c : ℕ) (ts : List A)
      → c ≡ 0
      → slots_from slots size h c ≡ map some ts
      → map some ts ≡ []
  drained_ring slots size h zero ts c e = sym e
  drained_ring slots size h (suc n) ts c e = absurd (omega (arith, c))

  -- When a worker leaves its loop in a pool that is shut down gracefully, every task that has been
  -- accepted has been taken, in order, and has been called exactly once or is held by another worker, which
  -- has still to call it; when no worker holds one, all have been called.
  pub graceful_shutdown-drained :
      (y : History A) (p : ThreadPool A)
      → Conserves y
      → y.pool.shutdown ≡ code graceful_shutdown
      → threadpool_thread y.pool ≡ finishes p
      → (y.taken ≡ map some y.accepted) × Permᴰ (y.called ++ y.in_hand) (map some y.accepted)
  unfolding threadpool_thread
  graceful_shutdown-drained y p c s e =
      let all_taken : y.taken ≡ map some y.accepted = sym (
        c.in_order
        ∙ (ap (λ l. y.taken ++ l)
              (drained_ring y.pool.queue y.pool.queue_size y.pool.head y.pool.count c.waiting
                (ground arith) c.queued.holds)
            ∙ append-nil y.taken)) in
      (all_taken, subst (Permᴰ (y.called ++ y.in_hand)) all_taken c.once)
