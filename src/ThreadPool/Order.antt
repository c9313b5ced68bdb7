-- ===== src/ThreadPool/Order.antt =====
-- The pool's ring against a queue that is a list: what putting a task in and taking one out do.
use light_agent_gateway.Common.{
  ℕ, zero, suc, ◌+◌, ◌-◌, ◌≤◌, ◌<◌, ◌≡◌, ◌≢◌, refl, ap, ◌∙◌, Option, none, some, List, [], ◌∷◌,
  ◌++◌, arith, map,
}
use light_agent_gateway.ThreadPool.{ThreadPool, with_task, without_task, set}
use light_agent_gateway.ThreadPool.Ring.{
  wrap, wrap_next, slots_from, slots_from-set, slots_from-append,
}

pred_suc : (c : ℕ) → suc c - 1 ≡ c
pred_suc c = omega arith

module _ {A : Type 0} where
  -- The pool's ring is sound and holds the tasks of the list, the oldest first.
  pub record Queued (p : ThreadPool A) (ts : List A) : Type 0 where
    pub head_bound : p.head < p.queue_size
    pub count_bound : p.count ≤ p.queue_size
    pub tail_place : p.tail ≡ wrap p.queue_size (p.head + p.count)
    pub holds : slots_from p.queue p.queue_size p.head p.count ≡ map some ts

  pub map-snoc : (ts : List A) (t : A) → map some ts ++ some t ∷ [] ≡ map some (ts ++ t ∷ [])
  map-snoc [] t = refl
  map-snoc (x ∷ ts) t = ap (λ l. some x ∷ l) (map-snoc ts t)

  abbrev head_or : Option A → List (Option A) → Option A
  head_or x [] = x
  head_or x (y ∷ ys) = y

  abbrev tail_of : List (Option A) → List (Option A)
  tail_of [] = []
  tail_of (y ∷ ys) = ys

  pub with_task-Queued :
      (p : ThreadPool A) (ts : List A) (t : A)
      → Queued p ts
      → p.count ≢ p.queue_size
      → Queued (with_task p t) (ts ++ t ∷ [])
  with_task-Queued p ts t q c = record {
    head_bound = q.head_bound;
    count_bound = omega (arith, q.count_bound, c);
    tail_place = wrap_next p.queue_size p.tail (ground arith) ∙ ground arith;
    holds =
        ap (λ i. slots_from (set p.queue i (some t)) p.queue_size p.head (suc p.count)) q.tail_place
        ∙ (slots_from-append p.queue p.queue_size p.head p.count (some t) q.head_bound
              (omega (arith, q.count_bound, c))
            ∙ (ap (λ l. l ++ some t ∷ []) q.holds ∙ map-snoc ts t));
  }

  uncons :
      (slots : ℕ → Option A) (size h c : ℕ) (ts : List A)
      → c ≢ 0
      → slots_from slots size h c ≡ map some ts
      → (t : A) × (rest : List A) × (ts ≡ t ∷ rest)
        × (slots h ≡ some t)
        × (slots_from slots size (wrap size (h + 1)) (c - 1) ≡ map some rest)
  uncons slots size h zero ts n e = absurd (n refl)
  uncons slots size h (suc c) [] n e = ground (arith, e)
  uncons slots size h (suc c) (t ∷ ts) n e =
      (t, ts, refl, ap (head_or none) e, rw (pred_suc c) (ap tail_of e))

  -- The slot at `head` is emptied, and the others are as they were.
  emptied_rest :
      (slots : ℕ → Option A) (size h c : ℕ)
      → h < size
      → c ≢ 0
      → c ≤ size
      → slots_from (set slots h none) size (wrap size (h + 1)) (c - 1)
        ≡ slots_from slots size (wrap size (h + 1)) (c - 1)
  emptied_rest slots size h c l n b =
      slots_from-set slots size (wrap size (h + 1)) (c - 1) h none (ground arith) (omega (arith, b))
        (λ k m e. ground arith)

  pub without_task-Queued :
      (p : ThreadPool A) (ts : List A)
      → Queued p ts
      → p.count ≢ 0
      → (t : A) × (rest : List A) × (ts ≡ t ∷ rest)
        × (p.queue p.head ≡ some t)
        × Queued (without_task p) rest
  without_task-Queued p ts q c =
      let (t, rest, e, f, g) = uncons p.queue p.queue_size p.head p.count ts c q.holds in
      (
        t,
        rest,
        e,
        f,
        record {
          head_bound = rw (wrap_next p.queue_size p.head q.head_bound) (ground arith);
          count_bound = omega (arith, q.count_bound);
          tail_place = rw (wrap_next p.queue_size p.head q.head_bound) (ground arith);
          holds =
              rw (wrap_next p.queue_size p.head q.head_bound)
                (emptied_rest p.queue p.queue_size p.head p.count q.head_bound c q.count_bound ∙ g);
        },
      )
