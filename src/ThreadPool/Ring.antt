-- ===== src/ThreadPool/Ring.antt =====
-- The ring of ThreadPool.cpp as a list: the tasks from `head` on, `count` of them.
use light_agent_gateway.Common.{
  ℕ, zero, suc, ◌+◌, ◌-◌, ◌%◌, ◌≤◌, ◌<◌, ◌≡◌, ◌≢◌, ◌⊎◌, inl, inr, refl, ap, ap₂, ◌∙◌, Option, List,
  [], ◌∷◌, ◌++◌, ltb, if◌then◌else◌, arith,
}
use native.Mathlib.Nat.{mod-eq_of_lt, mod_self}
use light_agent_gateway.ThreadPool.{set}

-- The slot behind `i` in a ring of `size`, as a sum below twice the size.
abbrev pub wrap : ℕ → ℕ → ℕ
wrap size i = if ltb i size then i else i - size

compare_size : (i size : ℕ) → i ≤ size → (i < size) ⊎ (i ≡ size)
compare_size i size l = ground arith

pub wrap_next : (size i : ℕ) → i < size → (i + 1) % size ≡ wrap size (i + 1)
wrap_next size i l = elim (compare_size (i + 1) size (omega (arith, l))) [
  | inl m ↦ mod-eq_of_lt m ∙ ground (arith, m)
  | inr e ↦ rw e (mod_self size ∙ ground arith)
]

pub wrap_step :
    (size h k : ℕ) → h < size → k < size → wrap size (h + suc k) ≡ wrap size (wrap size (h + 1) + k)
wrap_step size h k l m = ground arith

module _ {A : Type 0} where
  abbrev pub slots_from : (ℕ → Option A) → ℕ → ℕ → ℕ → List (Option A)
  slots_from slots size h zero = []
  slots_from slots size h (suc n) = slots h ∷ slots_from slots size (wrap size (h + 1)) n

  -- A slot outside the part that is read may hold anything.
  pub slots_from-set :
      (slots : ℕ → Option A) (size h n i : ℕ) (x : Option A)
      → h < size
      → n ≤ size
      → ((k : ℕ) → k < n → wrap size (h + k) ≢ i)
      → slots_from (set slots i x) size h n ≡ slots_from slots size h n
  slots_from-set slots size h zero i x l b d = refl
  slots_from-set slots size h (suc n) i x l b d =
      ap₂ (λ a rest. a ∷ rest) (ground (arith, d 0))
        (slots_from-set slots size (wrap size (h + 1)) n i x (ground arith) (omega (arith, b))
          (λ k m e. d (suc k) (omega (arith, m)) (wrap_step size h k l (omega (arith, m, b)) ∙ e)))

  pub slots_from-append :
      (slots : ℕ → Option A) (size h n : ℕ) (x : Option A)
      → h < size
      → n < size
      → slots_from (set slots (wrap size (h + n)) x) size h (suc n)
        ≡ slots_from slots size h n ++ x ∷ []
  slots_from-append slots size h zero x l m = ground arith
  slots_from-append slots size h (suc n) x l m =
      ap₂ (λ a rest. a ∷ rest) (ground arith)
        (ap (λ j. slots_from (set slots j x) size (wrap size (h + 1)) (suc n))
            (wrap_step size h n l (omega (arith, m)))
          ∙ slots_from-append slots size (wrap size (h + 1)) n x (ground arith) (omega (arith, m)))
