-- ===== src/Common/Bytes.antt =====
-- `std::string` as the list of its bytes, with the searches and comparisons that the source calls.
use Prim.Native.Nat.{ℕ, suc, ◌+◌, ◌≤◌}
use Prim.Native.Char.{code}
use Prim.Native.String.{String}
use mathlib.Core.Path.{◌≡◌, refl}
use mathlib.Core.Logic.{◌↔◌, ◌≢◌, inl, inr}
use mathlib.Core.Bool.{Bool, true, false, ◌&&◌, ◌||◌}
use mathlib.Core.List.{List, [], ◌∷◌, ◌++◌, map}
use mathlib.Core.Option.{Option, none, some}
use native.Mathlib.Omega.{arith}
use light_agent_gateway.Common.Tests.{ltb, leb, ◌==◌, if◌then◌else◌, Option-cases}
use light_agent_gateway.Common.Lists.{length, take, drop, All, take_left, drop_left, length-drop}

abbrev pub Bytes : Type 0
Bytes = List ℕ

-- The bytes of a literal, all of them ASCII.
unfoldable pub codes : String → Bytes
codes String.[] = []
codes (String.◌∷◌ c s) = code c ∷ codes s

unfoldable pub bytes_eq : Bytes → Bytes → Bool
bytes_eq [] [] = true
bytes_eq (x ∷ xs) (y ∷ ys) = x == y && bytes_eq xs ys
bytes_eq _ _ = false

pub bytes_eq_iff : (a b : Bytes) → (bytes_eq a b ≡ true) ↔ (a ≡ b)
unfolding bytes_eq
bytes_eq_iff (x ∷ a) (y ∷ b) = ground (arith, bytes_eq_iff a b)
bytes_eq_iff _ _ = ground arith

-- `std::string::operator<`, byte by byte as unsigned characters.
unfoldable pub bytes_lt : Bytes → Bytes → Bool
bytes_lt [] [] = false
bytes_lt [] (y ∷ ys) = true
bytes_lt (x ∷ xs) [] = false
bytes_lt (x ∷ xs) (y ∷ ys) = ltb x y || (x == y && bytes_lt xs ys)

-- Whether the second string begins with the first.
unfoldable pub is_prefix : Bytes → Bytes → Bool
is_prefix [] s = true
is_prefix (p ∷ ps) [] = false
is_prefix (p ∷ ps) (c ∷ s) = p == c && is_prefix ps s

pub is_prefix-append : (p s : Bytes) → is_prefix p (p ++ s) ≡ true
unfolding is_prefix
is_prefix-append [] s = refl
is_prefix-append (c ∷ p) s = ground (arith, is_prefix-append p s)

abbrev bump : Option ℕ → Option ℕ
bump none = none
bump (some i) = some (suc i)

-- `find` of one character; `none` is `npos`.
unfoldable pub find_byte : ℕ → Bytes → Option ℕ
find_byte b [] = none
find_byte b (c ∷ s) = if c == b then some 0 else bump (find_byte b s)

-- `find` of a string.
unfoldable pub find_sub : Bytes → Bytes → Option ℕ
unfolding is_prefix
find_sub p [] = if is_prefix p [] then some 0 else none
find_sub p (c ∷ s) = if is_prefix p (c ∷ s) then some 0 else bump (find_sub p s)

abbrev offset : ℕ → Option ℕ → Option ℕ
offset k none = none
offset k (some i) = some (k + i)

-- `find` of one character from a position on.
unfoldable pub find_from : ℕ → ℕ → Bytes → Option ℕ
find_from b pos s = offset pos (find_byte b (drop pos s))

-- `substr(pos, count)`.
unfoldable pub substr : Bytes → ℕ → ℕ → Bytes
substr s pos count = take count (drop pos s)

abbrev pub Lacks : ℕ → Bytes → Type 0
Lacks b = All (λ c. c ≢ b)

-- The first occurrence is found behind whatever lacks the character.
pub find_byte-append :
    (b : ℕ) (xs ys : Bytes) → Lacks b xs → find_byte b (xs ++ b ∷ ys) ≡ some (length xs)
unfolding find_byte
find_byte-append b [] ys h = ground arith
find_byte-append b (x ∷ xs) ys h = ground (arith, find_byte-append b xs ys h.1)

pub find_byte-none : (b : ℕ) (xs : Bytes) → Lacks b xs → find_byte b xs ≡ none
unfolding find_byte
find_byte-none b [] h = refl
find_byte-none b (x ∷ xs) h = ground (arith, find_byte-none b xs h.1)

pub find_from-append :
    (b n : ℕ) (pre xs ys : Bytes)
    → n ≡ length pre
    → Lacks b xs
    → find_from b n (pre ++ (xs ++ b ∷ ys)) ≡ some (n + length xs)
unfolding find_from
find_from-append b n pre xs ys e h =
    rw (drop_left n pre (xs ++ b ∷ ys) e, find_byte-append b xs ys h)

pub substr-append :
    (pre part post : Bytes) (from count : ℕ)
    → from ≡ length pre
    → count ≡ length part
    → substr (pre ++ (part ++ post)) from count ≡ part
unfolding substr
substr-append pre part post from count e f =
    rw (drop_left from pre (part ++ post) e) (take_left count part post f)

-- A string at the front is found there.
pub find_sub-front : (p s : Bytes) → find_sub p (p ++ s) ≡ some 0
unfolding find_sub
find_sub-front [] [] = refl
find_sub-front [] (c ∷ s) = refl
find_sub-front (c ∷ p) s = ground (arith, is_prefix-append (c ∷ p) s)

-- A string that occurs is found somewhere.
pub find_sub-append : (p pre post : Bytes) → find_sub p (pre ++ (p ++ post)) ≢ none
unfolding find_sub
find_sub-append [] [] [] = ground arith
find_sub-append [] [] (c ∷ post) = ground arith
find_sub-append (c ∷ p) [] post = ground (arith, is_prefix-append (c ∷ p) post)
find_sub-append p (c ∷ pre) post = elim (Option-cases (find_sub p (pre ++ (p ++ post)))) [
  | inl e ↦ absurd (find_sub-append p pre post e)
  | inr (i, e) ↦ ground arith
]

-- A position that is found lies inside the string.
pub find_byte-lt : (b : ℕ) (s : Bytes) {i : ℕ} → find_byte b s ≡ some i → suc i ≤ length s
unfolding find_byte
find_byte-lt b [] h = ground arith
find_byte-lt b (c ∷ s) h = elim (Option-cases (find_byte b s)) [
  | inl e ↦ ground arith
  | inr (j, e) ↦ ground (arith, find_byte-lt b s e)
]

pub find_from-lt : (b pos : ℕ) (s : Bytes) {i : ℕ} → find_from b pos s ≡ some i → suc i ≤ length s
unfolding find_from
find_from-lt b pos s h = elim (Option-cases (find_byte b (drop pos s))) [
  | inl e ↦ ground arith
  | inr (j, e) ↦ ground (arith, find_byte-lt b (drop pos s) e, length-drop pos s)
]

abbrev lower : ℕ → ℕ
lower c = if leb b'A' c && leb c b'Z' then c + 32 else c

-- `tolower` of each byte, in the "C" locale.
unfoldable pub to_lower_copy : Bytes → Bytes
to_lower_copy value = map lower value
