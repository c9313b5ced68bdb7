-- ===== src/Startup/Schedules.antt =====
-- What holds whatever the order of the turns.
use light_agent_gateway.Common.{
  ◌≡◌, ◌≢◌, ◌⊎◌, refl, Bool, true, false, List, [], ◌∷◌, if◌then◌else◌, arith,
}
use light_agent_gateway.Startup.{
  Starter, calling, at_latch, asleep_at_latch, at_loop, asleep_at_loop, returned, asserted, Child,
  absent, created, counting, publishing, looping, Startup, constructed, start_thread, wait_latch,
  wait_loop, count_down, publish, starter_turn, child_turn, stray_wakeup, Turn, of_starter,
  of_child, stray, take_turn, run,
}

-- What the child has done by where it stands, and what the starter may be waiting for.
abbrev pub has_counted : Child → Bool
has_counted publishing = true
has_counted looping = true
has_counted _ = false

abbrev pub has_stored : Child → Bool
has_stored counting = true
has_stored c = has_counted c

abbrev pub has_published : Child → Bool
has_published looping = true
has_published _ = false

-- Whether the starter can stand there, where the child stands at `c` and `ok` tells whether it is or
-- will be created.
abbrev pub can_stand : Bool → Child → Starter → Bool
can_stand ok absent calling = true
can_stand false absent at_loop = true
can_stand false absent asleep_at_loop = true
can_stand true created at_latch = true
can_stand true created asleep_at_latch = true
can_stand true counting at_latch = true
can_stand true counting asleep_at_latch = true
can_stand true publishing at_latch = true
can_stand true publishing at_loop = true
can_stand true publishing asleep_at_loop = true
can_stand true looping at_latch = true
can_stand true looping at_loop = true
can_stand true looping returned = true
can_stand _ _ _ = false

pub record Inv (ok : Bool) (s : Startup) : Type 0 where
  pub stored : s.has_tid ≡ has_stored s.child
  pub counted : s.count ≡ (if has_counted s.child then 0 else 1)
  pub published : s.has_loop ≡ has_published s.child
  pub stands : can_stand ok s.child s.starter ≡ true

pub constructed-Inv : (ok : Bool) → Inv ok constructed
constructed-Inv ok = record {
  stored = refl;
  counted = refl;
  published = refl;
  stands = ground arith;
}

starter_turn-Inv : (ok : Bool) (s : Startup) → Inv ok s → Inv ok (starter_turn ok s)
unfolding starter_turn start_thread wait_latch wait_loop
starter_turn-Inv ok s i = ground arith

child_turn-Inv : (ok : Bool) (s : Startup) → Inv ok s → Inv ok (child_turn s)
unfolding child_turn count_down publish
child_turn-Inv ok s i = ground arith

stray_wakeup-Inv : (ok : Bool) (s : Startup) → Inv ok s → Inv ok (stray_wakeup s)
unfolding stray_wakeup
stray_wakeup-Inv ok s i = ground arith

pub take_turn-Inv : (ok : Bool) (t : Turn) (s : Startup) → Inv ok s → Inv ok (take_turn ok t s)
take_turn-Inv ok of_starter s i = starter_turn-Inv ok s i
take_turn-Inv ok of_child s i = child_turn-Inv ok s i
take_turn-Inv ok stray s i = stray_wakeup-Inv ok s i

run-Inv : (ok : Bool) (ts : List Turn) (s : Startup) → Inv ok s → Inv ok (run ok ts s)
unfolding run
run-Inv ok [] s i = i
run-Inv ok (t ∷ ts) s i = run-Inv ok ts (take_turn ok t s) (take_turn-Inv ok t s i)

starter_lem :
    (ok : Bool) (s : Startup)
    → Inv ok s
    → (s.starter ≢ asserted)
      × ((s.starter ≢ returned) ⊎ ((ok ≡ true) × (s.has_tid ≡ true) × (s.has_loop ≡ true)))
starter_lem ok s i = (λ e. ground arith, ground arith)

-- In whatever order the calling thread and the new one take their turns, and however often a condition
-- wakes its waiter for no reason: the assertion in `Thread::start` that the new thread has stored its
-- `tid` does not fail; and `startLoop` has not returned, or the thread was created, has stored its
-- `tid` and has published its loop. So `startLoop` never returns a null pointer, and where
-- `pthread_create` fails it never returns.
pub start_loop_safe :
    (ok : Bool) (ts : List Turn)
    → let s : Startup = run ok ts constructed in
      (s.starter ≢ asserted)
      × ((s.starter ≢ returned) ⊎ ((ok ≡ true) × (s.has_tid ≡ true) × (s.has_loop ≡ true)))
start_loop_safe ok ts =
    starter_lem ok (run ok ts constructed) (run-Inv ok ts constructed (constructed-Inv ok))
