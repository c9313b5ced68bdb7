-- ===== src/Common/Decimal.antt =====
-- `std::to_string` of an unsigned number and `std::stoi`, as the standard library documents them.
use Prim.Native.Nat.{ℕ, zero, suc, ◌+◌, ◌-◌, ◌*◌, ◌/◌, ◌%◌, ◌^◌, ◌≤◌, ◌<◌}
use mathlib.Core.Path.{◌≡◌, refl, ◌∙◌}
use mathlib.Core.Bool.{Bool, true, false, ◌&&◌, ◌||◌}
use mathlib.Core.List.{[], ◌∷◌}
use mathlib.Core.Option.{Option, none, some}
use mathlib.Core.Logic.{inl, inr}
use native.Mathlib.Nat.{pow-suc}
use native.Mathlib.Omega.{arith}
use light_agent_gateway.Common.Tests.{ltb, leb, ◌==◌, if◌then◌else◌, Bool-cases}
use light_agent_gateway.Common.Lists.{length}
use light_agent_gateway.Common.Bytes.{Bytes}

-- `negsuc n` is -(n + 1).
pub data ℤ : Type 0 where
  pos : ℕ → ℤ
  negsuc : ℕ → ℤ

-- The digits of `n` in front of `acc`; the fuel is above `n`.
unfoldable pub digits_onto : ℕ → ℕ → Bytes → Bytes
digits_onto zero n acc = acc
digits_onto (suc fuel) n acc =
    let rest = digits_onto fuel (n / 10) ((b'0' + n % 10) ∷ acc) in
    if ltb n 10 then (b'0' + n) ∷ acc else rest

unfoldable pub to_string : ℕ → Bytes
unfolding digits_onto
to_string n = digits_onto (suc n) n []

abbrev pub is_digit : ℕ → Bool
is_digit c = leb b'0' c && leb c b'9'

-- The value of the leading digits behind `acc`.
unfoldable pub digits_value : ℕ → Bytes → ℕ
digits_value acc [] = acc
digits_value acc (c ∷ s) =
    let rest = digits_value (acc * 10 + (c - b'0')) s in if is_digit c then rest else acc

-- `isspace` in the "C" locale.
abbrev is_space : ℕ → Bool
is_space c = c == b' ' || (leb 9 c && leb c 13)

skip_space : Bytes → Bytes
skip_space [] = []
skip_space (c ∷ s) = if is_space c then skip_space s else c ∷ s

-- The digits are converted if there is one and the value fits an `int`.
in_range : Bool → ℕ → Option ℤ
in_range false n = if ltb n (2 ^ 31) then some (pos n) else none
in_range true zero = some (pos 0)
in_range true (suc n) = if ltb n (2 ^ 31) then some (negsuc n) else none

convert_digits : Bool → Bytes → Option ℤ
unfolding in_range digits_value
convert_digits negative [] = none
convert_digits negative (c ∷ s) =
    if is_digit c then in_range negative (digits_value 0 (c ∷ s)) else none

convert_signed : Bytes → Option ℤ
unfolding convert_digits
convert_signed [] = none
convert_signed (c ∷ s) =
    if c == b'-'
    then convert_digits true s
    else if c == b'+'
    then convert_digits false s
    else convert_digits false (c ∷ s)

-- `none` is an exception: no digit, or a value that no `int` holds.
unfoldable pub stoi : Bytes → Option ℤ
unfolding skip_space convert_signed
stoi s = convert_signed (skip_space s)

digits_value-digits_onto :
    (fuel n : ℕ) (acc : Bytes)
    → n < fuel
    → digits_value 0 (digits_onto fuel n acc) ≡ digits_value n acc
unfolding digits_value digits_onto
digits_value-digits_onto zero n acc h = absurd (omega arith)
digits_value-digits_onto (suc fuel) n acc h = elim (Bool-cases (ltb n 10)) [
  | inl small ↦ rw small (ground arith)
  | inr large ↦
      rw large (
        digits_value-digits_onto fuel (n / 10) ((b'0' + n % 10) ∷ acc) (ground arith)
        ∙ ground arith)
]

-- The decimal text of a number begins with a digit.
record StartsWithDigit (s : Bytes) : Type 0 where
  first : ℕ
  others : Bytes
  splits : s ≡ first ∷ others
  digit : is_digit first ≡ true

digits_onto-StartsWithDigit :
    (fuel n : ℕ) (acc : Bytes) → n < fuel → StartsWithDigit (digits_onto fuel n acc)
unfolding digits_onto
digits_onto-StartsWithDigit zero n acc h = absurd (omega arith)
digits_onto-StartsWithDigit (suc fuel) n acc h = elim (Bool-cases (ltb n 10)) [
  | inl small ↦
      rw small (record { first = b'0' + n; others = acc; splits = refl; digit = ground arith })
  | inr large ↦ rw large (digits_onto-StartsWithDigit fuel (n / 10) _ (ground arith))
]

stoi_digits :
    (s : Bytes) (n : ℕ)
    → StartsWithDigit s
    → digits_value 0 s ≡ n
    → n < 2 ^ 31
    → stoi s ≡ some (pos n)
unfolding stoi
stoi_digits s n d e h = rw d.splits (ground (arith, d.digit, d.splits))

-- `stoi` reads back what `to_string` prints of any number that an `int` holds.
pub stoi-to_string : (n : ℕ) → n < 2 ^ 31 → stoi (to_string n) ≡ some (pos n)
unfolding to_string
stoi-to_string n h =
    stoi_digits (digits_onto (suc n) n []) n
      (digits_onto-StartsWithDigit (suc n) n [] (omega arith))
      (digits_value-digits_onto (suc n) n [] (omega arith) ∙ unfold digits_value in refl) h

digits_onto-length :
    (k fuel n : ℕ) (acc : Bytes)
    → n < 10 ^ suc k
    → length (digits_onto fuel n acc) ≤ suc k + length acc
unfolding digits_onto
digits_onto-length k zero n acc h = omega arith
digits_onto-length zero (suc fuel) n acc h = ground arith
digits_onto-length (suc k) (suc fuel) n acc h = elim (Bool-cases (ltb n 10)) [
  | inl small ↦ rw small (omega arith)
  | inr large ↦ rw large (
      let h' : n < 10 ^ suc k * 10 = rw (← pow-suc) h in
      omega (arith, digits_onto-length k fuel (n / 10) ((b'0' + n % 10) ∷ acc) (omega arith)))
]

-- A number below a power of ten has at most that many digits.
pub length-to_string : (k n : ℕ) → n < 10 ^ suc k → length (to_string n) ≤ suc k
unfolding to_string
length-to_string k n h = omega (arith, digits_onto-length k (suc n) n [] h)
