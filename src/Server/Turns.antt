-- ===== src/Server/Turns.antt =====
-- The pool's loops, in turn.
use light_agent_gateway.Common.{
  ℕ, zero, suc, ◌+◌, ◌%◌, ◌≡◌, ◌<◌, refl, sym, ap, ◌∙◌, some, List, [], ◌∷◌, ◌++◌, append-nil,
  append_assoc, length, length-append, get_elem?, arith, true,
}
use native.Mathlib.Nat.{mod-lt, mod-add-mod, zero-mod}
use light_agent_gateway.Server.{
  EventLoopThreadPool, fresh_pool, start_threads, start_pool, get_next_loop,
}

-- The loops that `n` threads start, where `k` have been started.
abbrev numbers : ℕ → ℕ → List ℕ
numbers zero k = []
numbers (suc n) k = suc k ∷ numbers n (suc k)

get_elem?-numbers : (n k j : ℕ) → j < n → get_elem? (numbers n k) j ≡ some (suc (k + j))
get_elem?-numbers zero k j l = absurd (omega (arith, l))
get_elem?-numbers (suc n) k zero l = ap some (omega arith)
get_elem?-numbers (suc n) k (suc j) l =
    get_elem?-numbers n (suc k) j (omega (arith, l)) ∙ ap some (omega arith)

loops-start_threads :
    (n : ℕ) (p : EventLoopThreadPool)
    → start_threads n p ≡ record p { loops = p.loops ++ numbers n (length p.loops) }
unfolding start_threads
loops-start_threads zero p = ap (λ ls. record p { loops = ls }) (sym (append-nil p.loops))
loops-start_threads (suc n) p =
    let k = length p.loops in
    let started = p.loops ++ suc k ∷ [] in
    loops-start_threads n (record p { loops = started })
    ∙ ap (λ ls. record p { loops = ls })
        (ap (λ m. started ++ numbers n m) (length-append p.loops (suc k ∷ []) ∙ omega arith)
          ∙ append_assoc p.loops (suc k ∷ []) (numbers n (suc k)))

-- A pool of `n` started threads, of which `i` were asked for in turn.
pub record InTurn (n i : ℕ) (p : EventLoopThreadPool) : Type 0 where
  pub some_threads : 0 < n
  pub all_threads : p.num_threads ≡ n
  pub all_loops : p.loops ≡ numbers n 0
  pub turn : p.next ≡ i % n

pub start_pool-InTurn : (n : ℕ) → InTurn (suc n) 0 (start_pool (fresh_pool (suc n)))
unfolding start_pool
start_pool-InTurn n =
    let e = loops-start_threads (suc n) (record (fresh_pool (suc n)) { started = true }) in
    record {
      some_threads = omega arith;
      all_threads = ap (λ p. p.num_threads) e;
      all_loops = ap (λ p. p.loops) e;
      turn = ap (λ p. p.next) e ∙ sym (zero-mod (suc n));
    }

loop_in_turn : (n i : ℕ) → get_elem? (numbers (suc n) 0) (i % suc n) ≡ some (suc (i % suc n))
loop_in_turn n i =
    get_elem?-numbers (suc n) 0 (i % suc n) (mod-lt i (omega arith))
    ∙ ap (λ m. some (suc m)) (omega arith)

pub get_next_loop-InTurn :
    (n i : ℕ) (p : EventLoopThreadPool)
    → InTurn n i p
    → (q : EventLoopThreadPool) × (get_next_loop p ≡ some (suc (i % n), q)) × InTurn n (suc i) q
unfolding get_next_loop
get_next_loop-InTurn zero i p t = absurd (omega (arith, t.some_threads))
get_next_loop-InTurn (suc n) i p t =
    let q = record p { next = (p.next + 1) % p.num_threads } in
    (
      q,
      rw (t.all_loops, t.turn, loop_in_turn n i) refl,
      record {
        some_threads = t.some_threads;
        all_threads = t.all_threads;
        all_loops = t.all_loops;
        turn =
            rw (t.all_threads, t.turn)
              (mod-add-mod i (suc n) 1 ∙ ap (λ m. m % suc n) (omega arith));
      },
    )
