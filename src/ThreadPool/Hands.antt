-- ===== src/ThreadPool/Hands.antt =====
-- The tasks that workers hold: taking one of them out.
use light_agent_gateway.Common.{ℕ, zero, suc, refl, Option, none, some, List, [], ◌∷◌}
use mathlib.Core.List.{Permᴰ}
use mathlib.Core.List.Permᴰ

module _ {A : Type 0} where
  -- An element put back in front of what is left.
  abbrev behind : A → Option (A × List A) → Option (A × List A)
  behind x none = none
  behind x (some (y, ys)) = some (y, x ∷ ys)

  -- The k-th of a list, and the others.
  pub pull : ℕ → List A → Option (A × List A)
  pull k [] = none
  pull zero (x ∷ xs) = some (x, xs)
  pull (suc k) (x ∷ xs) = behind x (pull k xs)

  abbrev pub Pulled : List A → Option (A × List A) → Type 0
  Pulled xs none = Unit
  Pulled xs (some (y, ys)) = Permᴰ (y ∷ ys) xs

  behind-Pulled :
      (x : A) (xs : List A) (o : Option (A × List A)) → Pulled xs o → Pulled (x ∷ xs) (behind x o)
  behind-Pulled x xs none p = tt
  behind-Pulled x xs (some (y, ys)) p = Permᴰ.trans (Permᴰ.swap refl refl) (Permᴰ.cons refl p)

  -- Taking one out loses and repeats none.
  pub pull-Pulled : (k : ℕ) (xs : List A) → Pulled xs (pull k xs)
  unfolding pull
  pull-Pulled k [] = tt
  pull-Pulled zero (x ∷ xs) = Permᴰ.refl (x ∷ xs)
  pull-Pulled (suc k) (x ∷ xs) = behind-Pulled x xs (pull k xs) (pull-Pulled k xs)
