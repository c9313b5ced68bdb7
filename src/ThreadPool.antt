-- ===== src/ThreadPool.antt =====
-- ThreadPool.h and ThreadPool.cpp: the pool's queue of tasks, a ring in a vector, and its shutdown.
-- What the pthread calls return is an argument; a mutex that is held makes the next lock wait for
-- ever. A vector is a function of the index, used below `queue_size` only.
pub mod Ring
pub mod Order
pub mod Hands
pub mod History
pub mod Shutdown
mod Tests
use light_agent_gateway.Common.{
  ℕ, zero, suc, ◌+◌, ◌-◌, ◌%◌, Bool, true, false, ◌&&◌, ◌||◌, not, Option, none, some, ◌==◌, ltb,
  if◌then◌else◌,
}
use light_agent_gateway.Common.Decimal.{ℤ, pos, negsuc}

abbrev pub threadpool_lock_failure : ℤ
threadpool_lock_failure = negsuc 1

abbrev pub threadpool_queue_full : ℤ
threadpool_queue_full = negsuc 2

abbrev pub threadpool_shutdown : ℤ
threadpool_shutdown = negsuc 3

abbrev pub threadpool_thread_failure : ℤ
threadpool_thread_failure = negsuc 4

abbrev pub max_threads : ℕ
max_threads = 1024

abbrev pub max_queue : ℕ
max_queue = 65535

pub data ShutDownOption : Type 0 where
  immediate_shutdown graceful_shutdown : ShutDownOption

abbrev pub code : ShutDownOption → ℕ
code immediate_shutdown = 1
code graceful_shutdown = 2

-- The static members. A task stands for `fun` and `args`; a slot that holds none has been emptied.
pub record ThreadPool (A : Type 0) : Type 0 where
  pub locked : Bool
  pub destroyed : Bool
  pub thread_count : ℕ
  pub queue : ℕ → Option A
  pub queue_size : ℕ
  pub head : ℕ
  pub tail : ℕ
  pub count : ℕ
  pub shutdown : ℕ
  pub started : ℕ

-- What a call comes to: it returns, waits for ever on the mutex, or divides by zero.
pub data Outcome (A : Type 0) : Type 0 where
  returned : ℤ → ThreadPool A → Outcome A
  blocked : Outcome A
  undefined : Outcome A

-- The arguments are not negative here; zero and a number above the bound select the defaults.
abbrev pub is_refused : ℕ → ℕ → Bool
is_refused threads size = threads == 0 || ltb max_threads threads || size == 0 || ltb max_queue size

-- A worker's critical section: it waits for a signal, leaves its loop, or takes a task, which it calls
-- later, with the mutex free. An emptied slot would be called as a null function.
pub data Turn (A : Type 0) : Type 0 where
  sleeps : ThreadPool A → Turn A
  finishes : ThreadPool A → Turn A
  takes : Option A → ThreadPool A → Turn A
  stuck : Turn A

-- `threadpool_destroy` up to the joins: what it returns, or the pool whose threads are joined.
pub data Destroying (A : Type 0) : Type 0 where
  ended : Outcome A → Destroying A
  joining : ThreadPool A → Destroying A

module _ {A : Type 0} where
  abbrev pub set : (ℕ → Option A) → ℕ → Option A → ℕ → Option A
  set slots i x j = if j == i then x else slots j

  -- The loop over the threads still to create; `created` says whether `pthread_create` succeeds.
  unfoldable pub create_threads : (ℕ → Bool) → ℕ → ThreadPool A → ℤ × ThreadPool A
  create_threads created zero p = (pos 0, p)
  create_threads created (suc n) p =
      let rest =
        create_threads created n
          (record p { thread_count = p.thread_count + 1; started = p.started + 1 }) in
      if created p.thread_count then rest else (negsuc 0, p)

  -- `resize` keeps the slots that there were, and new slots hold no task.
  abbrev resized : (ℕ → Option A) → ℕ → ℕ → Option A
  resized slots old j = if ltb j old then slots j else none

  abbrev pub emptied : ThreadPool A → ℕ → ThreadPool A
  emptied p size = record p {
    thread_count = 0;
    queue = resized p.queue p.queue_size;
    queue_size = size;
    head = 0;
    tail = 0;
    count = 0;
    shutdown = 0;
    started = 0;
  }

  unfoldable pub threadpool_create : (ℕ → Bool) → ℕ → ℕ → ThreadPool A → ℤ × ThreadPool A
  unfolding create_threads
  threadpool_create created threads size p =
      if is_refused threads size
      then create_threads created 4 (emptied p 1024)
      else create_threads created threads (emptied p size)

  -- The end of a critical section.
  abbrev pub unlock : Bool → ℤ → ThreadPool A → Outcome A
  unlock true err p = returned err (record p { locked = false })
  unlock false err p = returned threadpool_lock_failure p

  abbrev pub with_task : ThreadPool A → A → ThreadPool A
  with_task p task = record p {
    queue = set p.queue p.tail (some task);
    tail = (p.tail + 1) % p.queue_size;
    count = suc p.count;
  }

  -- Whether the lock, the signal and the unlock succeed comes first.
  unfoldable pub threadpool_add : Bool → Bool → Bool → A → ThreadPool A → Outcome A
  threadpool_add lock_ok signal_ok unlock_ok task p0 =
      if not lock_ok
      then returned threadpool_lock_failure p0
      else if p0.locked
      then blocked
      else let p = record p0 { locked = true } in
        if p.queue_size == 0
        then undefined
        else if p.count == p.queue_size
        then unlock unlock_ok threadpool_queue_full p
        else if not (p.shutdown == 0)
        then unlock unlock_ok threadpool_shutdown p
        else if signal_ok
        then unlock unlock_ok (pos 0) (with_task p task)
        else unlock unlock_ok threadpool_lock_failure (with_task p task)

  abbrev pub without_task : ThreadPool A → ThreadPool A
  without_task p = record p {
    queue = set p.queue p.head none;
    head = (p.head + 1) % p.queue_size;
    count = p.count - 1;
  }

  unfoldable pub threadpool_thread : ThreadPool A → Turn A
  threadpool_thread p =
      if p.locked
      then stuck
      else if p.count == 0 && p.shutdown == 0
      then sleeps p
      else if p.shutdown == 1 || (p.shutdown == 2 && p.count == 0)
      then finishes (record p { started = p.started - 1 })
      else takes (p.queue p.head) (without_task p)

  unfoldable pub threadpool_destroy :
      Bool → Bool → Bool → ShutDownOption → ThreadPool A → Destroying A
  threadpool_destroy lock_ok broadcast_ok unlock_ok option p0 =
      if not lock_ok
      then ended (returned threadpool_lock_failure p0)
      else if p0.locked
      then ended blocked
      else let p = record p0 { locked = true } in
        if not (p.shutdown == 0)
        then ended (returned threadpool_shutdown p)
        else let q = record p { shutdown = code option } in
          if not broadcast_ok || not unlock_ok
          then ended (returned threadpool_lock_failure q)
          else joining (record q { locked = false })

  -- The mutex is held when it is destroyed, and no lock is taken on it any more.
  unfoldable pub threadpool_free : ThreadPool A → Outcome A
  threadpool_free p =
      if ltb 0 p.started
      then returned (negsuc 0) p
      else if p.locked
      then blocked
      else returned (pos 0) (record p { locked = true; destroyed = true })

  abbrev freed : Outcome A → Outcome A
  freed (returned _ p) = returned (pos 0) p
  freed blocked = blocked
  freed undefined = undefined

  -- `threadpool_destroy` behind the joins, which all succeeded or not.
  unfoldable pub destroy_joined : Bool → ThreadPool A → Outcome A
  unfolding threadpool_free
  destroy_joined joined p =
      if joined then freed (threadpool_free p) else returned threadpool_thread_failure p
