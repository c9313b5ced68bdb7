-- ===== src/Logging/Convert.antt =====
-- `convert` of LogStream.cpp against the decimal numeral.
use light_agent_gateway.Common.{
  ℕ, zero, suc, ◌+◌, ◌-◌, ◌/◌, ◌%◌, ◌<◌, ◌≡◌, refl, ap, ◌∙◌, some, [], ◌∷◌, ◌++◌, ltb, get_elem?,
  arith, Bool-cases, inl, inr,
}
use light_agent_gateway.Common.Bytes.{Bytes, codes}
use light_agent_gateway.Common.Decimal.{ℤ, pos, negsuc, to_string, digits_onto}
use light_agent_gateway.Logging.{
  digits, low_digits, digit_of, tenth, is_zero, reverse_onto, magnitude, convert,
}

-- The numeral of an integer.
abbrev pub numeral : ℤ → Bytes
numeral (pos n) = to_string n
numeral (negsuc n) = b'-' ∷ to_string (n + 1)

up : (r : ℕ) → r < 10 → get_elem? digits (9 + r) ≡ some (b'0' + r)
unfolding codes
up zero l = refl
up (suc zero) l = refl
up (suc (suc zero)) l = refl
up (suc (suc (suc zero))) l = refl
up (suc (suc (suc (suc zero)))) l = refl
up (suc (suc (suc (suc (suc zero))))) l = refl
up (suc (suc (suc (suc (suc (suc zero)))))) l = refl
up (suc (suc (suc (suc (suc (suc (suc zero))))))) l = refl
up (suc (suc (suc (suc (suc (suc (suc (suc zero)))))))) l = refl
up (suc (suc (suc (suc (suc (suc (suc (suc (suc zero))))))))) l = refl
up (suc (suc (suc (suc (suc (suc (suc (suc (suc (suc n)))))))))) l = absurd (omega (arith, l))

down : (r : ℕ) → r < 10 → get_elem? digits (9 - r) ≡ some (b'0' + r)
unfolding codes
down zero l = refl
down (suc zero) l = refl
down (suc (suc zero)) l = refl
down (suc (suc (suc zero))) l = refl
down (suc (suc (suc (suc zero)))) l = refl
down (suc (suc (suc (suc (suc zero))))) l = refl
down (suc (suc (suc (suc (suc (suc zero)))))) l = refl
down (suc (suc (suc (suc (suc (suc (suc zero))))))) l = refl
down (suc (suc (suc (suc (suc (suc (suc (suc zero)))))))) l = refl
down (suc (suc (suc (suc (suc (suc (suc (suc (suc zero))))))))) l = refl
down (suc (suc (suc (suc (suc (suc (suc (suc (suc (suc n)))))))))) l = absurd (omega (arith, l))

digit_of-digit : (i : ℤ) → digit_of i ≡ some (b'0' + magnitude i % 10)
unfolding digit_of
digit_of-digit (pos n) = up (n % 10) (omega arith)
digit_of-digit (negsuc n) = down ((n + 1) % 10) (omega arith)

tenth-magnitude : (i : ℤ) → magnitude (tenth i) ≡ magnitude i / 10
unfolding tenth
tenth-magnitude (pos n) = refl
tenth-magnitude (negsuc n) = ground arith

is_zero_small : (n m : ℕ) → m ≡ n / 10 → is_zero (pos m) ≡ ltb n 10
is_zero_small n zero e = ground arith
is_zero_small n (suc m) e = ground arith

is_zero-tenth : (i : ℤ) → is_zero (tenth i) ≡ ltb (magnitude i) 10
unfolding tenth
is_zero-tenth (pos n) = is_zero_small n (n / 10) refl
is_zero-tenth (negsuc n) = ground arith

-- What the loop writes, last digit first, is the reverse of the numeral.
low_digits-digits_onto :
    (fuel : ℕ) (i : ℤ) (acc : Bytes)
    → magnitude i < fuel
    → (s : Bytes) × (low_digits fuel i ≡ some s)
      × (reverse_onto s acc ≡ digits_onto fuel (magnitude i) acc)
unfolding low_digits digits_onto
low_digits-digits_onto zero i acc l = absurd (omega (arith, l))
low_digits-digits_onto (suc fuel) i acc l = elim (Bool-cases (ltb (magnitude i) 10)) [
  | inl small ↦ (
    (b'0' + magnitude i % 10) ∷ [],
    rw (is_zero-tenth i, small, digit_of-digit i) refl,
    rw small (ground arith),
  )
  | inr large ↦
      let (s, e, f) =
        low_digits-digits_onto fuel (tenth i) ((b'0' + magnitude i % 10) ∷ acc)
          (rw (tenth-magnitude i) (ground arith)) in
      (
        (b'0' + magnitude i % 10) ∷ s,
        rw (is_zero-tenth i, large, digit_of-digit i, e) refl,
        rw large (f ∙ rw (tenth-magnitude i) refl),
      )
]

reverse_onto-append :
    (s t acc : Bytes) → reverse_onto (s ++ t) acc ≡ reverse_onto t (reverse_onto s acc)
reverse_onto-append [] t acc = refl
reverse_onto-append (c ∷ s) t acc = reverse_onto-append s t (c ∷ acc)

-- `convert` writes the decimal numeral of every integer, with a minus sign in front of a negative
-- one: no digit is read outside its table, and the smallest integers need no case of their own.
pub convert-numeral : (v : ℤ) → convert v ≡ some (numeral v)
unfolding convert to_string
convert-numeral (pos n) =
    let (s, e, f) = low_digits-digits_onto (suc n) (pos n) [] (omega arith) in rw (e, f) refl
convert-numeral (negsuc n) =
    let (s, e, f) = low_digits-digits_onto (suc (n + 1)) (negsuc n) [] (omega arith) in
    rw e (ap some (reverse_onto-append s (b'-' ∷ []) [] ∙ ap (λ t. b'-' ∷ t) f))
