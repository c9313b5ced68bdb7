-- ===== src/Startup/Fair.antt =====
-- Schedules under which `startLoop` returns.
use light_agent_gateway.Common.{
  ℕ, zero, suc, ◌+◌, ◌≡◌, ◌≤◌, refl, subst, Bool, true, false, List, [], ◌∷◌, if◌then◌else◌, arith,
  inl, inr, Bool-cases,
}
use light_agent_gateway.Startup.{
  Starter, at_loop, returned, Child, absent, created, counting, publishing, looping, Startup,
  constructed, start_thread, wait_latch, wait_loop, count_down, publish, starter_turn, child_turn,
  stray_wakeup, Turn, of_starter, of_child, stray, take_turn, run,
}
use light_agent_gateway.Startup.Schedules.{Inv, constructed-Inv, take_turn-Inv}

abbrev same_turn : Turn → Turn → Bool
same_turn of_starter of_starter = true
same_turn of_child of_child = true
same_turn stray stray = true
same_turn _ _ = false

-- Whether `ts` are among the turns, in that order, with any others between them.
abbrev pub contains : List Turn → List Turn → Bool
contains [] us = true
contains (t ∷ ts) [] = false
contains (t ∷ ts) (u ∷ us) =
    let later = contains (t ∷ ts) us in
    let both = contains ts us in if same_turn t u then both else later

-- The last `n` turns that are needed.
abbrev due : ℕ → Turn
due zero = of_starter
due (suc zero) = of_starter
due (suc (suc (suc (suc (suc n))))) = of_starter
due _ = of_child

abbrev pub todo : ℕ → List Turn
todo zero = []
todo (suc n) = due n ∷ todo n

-- How far the two have come, of six steps.
abbrev rank_of : Child → Starter → ℕ
rank_of absent p = 0
rank_of created p = 1
rank_of counting p = 2
rank_of publishing p = 3
rank_of looping at_loop = 5
rank_of looping returned = 6
rank_of looping p = 4

abbrev rank : Startup → ℕ
rank s = rank_of s.child s.starter

rank-starter_turn : (s : Startup) → Inv true s → rank s ≤ rank (starter_turn true s)
unfolding starter_turn start_thread wait_latch wait_loop
rank-starter_turn s i = ground arith

rank-child_turn : (s : Startup) → Inv true s → rank s ≤ rank (child_turn s)
unfolding child_turn count_down publish
rank-child_turn s i = ground arith

rank-stray_wakeup : (s : Startup) → Inv true s → rank s ≤ rank (stray_wakeup s)
unfolding stray_wakeup
rank-stray_wakeup s i = ground arith

rank-due :
    (n : ℕ) (s : Startup)
    → Inv true s
    → 6 ≤ rank s + suc n
    → 6 ≤ rank (take_turn true (due n) s) + n
unfolding starter_turn start_thread wait_latch wait_loop child_turn count_down publish
rank-due zero s i l = ground arith
rank-due (suc zero) s i l = ground arith
rank-due (suc (suc zero)) s i l = ground arith
rank-due (suc (suc (suc zero))) s i l = ground arith
rank-due (suc (suc (suc (suc zero)))) s i l = ground arith
rank-due (suc (suc (suc (suc (suc zero))))) s i l = ground arith
rank-due (suc (suc (suc (suc (suc (suc n)))))) s i l = omega arith

rank-take_turn : (t : Turn) (s : Startup) → Inv true s → rank s ≤ rank (take_turn true t s)
rank-take_turn of_starter s i = rank-starter_turn s i
rank-take_turn of_child s i = rank-child_turn s i
rank-take_turn stray s i = rank-stray_wakeup s i

same_turn_lem : (t u : Turn) → same_turn t u ≡ true → t ≡ u
same_turn_lem t u e = ground arith

rank-run :
    (n : ℕ) (us : List Turn) (s : Startup)
    → Inv true s
    → 6 ≤ rank s + n
    → contains (todo n) us ≡ true
    → 6 ≤ rank (run true us s)
unfolding run
rank-run zero [] s i l c = omega (arith, l)
rank-run (suc n) [] s i l c = ground arith
rank-run zero (u ∷ us) s i l c =
    rank-run zero us (take_turn true u s) (take_turn-Inv true u s i)
      (omega (arith, l, rank-take_turn u s i)) refl
rank-run (suc n) (u ∷ us) s i l c = elim (Bool-cases (same_turn (due n) u)) [
  | inl e ↦
      rank-run n us (take_turn true u s) (take_turn-Inv true u s i)
        (subst (λ t. 6 ≤ rank (take_turn true t s) + n) (same_turn_lem (due n) u e)
          (rank-due n s i l))
        (ground (arith, c, e))
  | inr e ↦
      rank-run (suc n) us (take_turn true u s) (take_turn-Inv true u s i)
        (omega (arith, l, rank-take_turn u s i)) (ground (arith, c, e))
]

rank_lem : (s : Startup) → 6 ≤ rank s → s.starter ≡ returned
rank_lem s l = ground arith

-- Where `pthread_create` succeeds, `startLoop` returns under every schedule in which, from any moment
-- on, there come a turn of the calling thread, three of the new thread and two of the calling thread,
-- in that order, with any other turns, also wakeups for no reason, before, between and behind them. So
-- neither the latch nor the condition misses a wakeup.
pub start_loop_returns :
    (us : List Turn) → contains (todo 6) us ≡ true → (run true us constructed).starter ≡ returned
start_loop_returns us c =
    rank_lem (run true us constructed)
      (rank-run 6 us constructed (constructed-Inv true) (omega arith) c)
