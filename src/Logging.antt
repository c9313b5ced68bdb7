-- ===== src/Logging.antt =====
-- base/LogStream.h and base/LogStream.cpp: buffers of a fixed size and the stream that formats into
-- one. The bytes behind `cur_` are not looked at, so a buffer is the bytes in front of it.
pub mod Convert
pub mod Stream
pub mod Async
pub mod File
pub mod Logger
mod Tests
use light_agent_gateway.Common.{
  ℕ, zero, suc, ◌+◌, ◌-◌, ◌*◌, ◌/◌, ◌%◌, ◌^◌, Bool, true, false, Option, none, some, List, [], ◌∷◌,
  ◌++◌, ◌==◌, ltb, leb, if◌then◌else◌, length, get_elem?,
}
use light_agent_gateway.Common.Bytes.{Bytes, codes}
use light_agent_gateway.Common.Decimal.{ℤ, pos, negsuc}

abbrev pub k_small_buffer : ℕ
k_small_buffer = 4000

abbrev pub k_large_buffer : ℕ
k_large_buffer = 4000 * 1000

abbrev pub k_max_numeric_size : ℕ
k_max_numeric_size = 32

pub record FixedBuffer : Type 0 where
  pub capacity : ℕ
  pub text : Bytes

abbrev pub avail : FixedBuffer → ℕ
avail b = b.capacity - length b.text

-- `avail > static_cast<int>(len)`: the cast keeps 32 bits, the highest of them as a sign.
abbrev pub exceeds_int : ℕ → ℕ → Bool
exceeds_int avail len = let low = len % 2 ^ 32 in if ltb low (2 ^ 31) then ltb low avail else true

-- Text that does not fit, with a byte to spare, is dropped as a whole. A buffer whose text is longer than its
-- capacity stands for one that `memcpy` has written beyond its end.
unfoldable pub append : FixedBuffer → Bytes → FixedBuffer
append b buf = if exceeds_int (avail b) (length buf) then record b { text = b.text ++ buf } else b

abbrev pub reset : FixedBuffer → FixedBuffer
reset b = record b { text = [] }

abbrev pub digits : Bytes
digits = codes "9876543210123456789"

-- `zero[lsd]`, where `zero` points at the middle of `digits`; `%` takes the sign of the dividend.
unfoldable pub digit_of : ℤ → Option ℕ
digit_of (pos n) = get_elem? digits (9 + n % 10)
digit_of (negsuc n) = get_elem? digits (9 - (n + 1) % 10)

abbrev minus : ℕ → ℤ
minus zero = pos 0
minus (suc n) = negsuc n

-- `i / 10`, towards zero.
unfoldable pub tenth : ℤ → ℤ
tenth (pos n) = pos (n / 10)
tenth (negsuc n) = minus ((n + 1) / 10)

abbrev pub is_zero : ℤ → Bool
is_zero (pos zero) = true
is_zero _ = false

abbrev pub put : Option ℕ → Bytes → Option Bytes
put (some c) s = some (c ∷ s)
put none s = none

abbrev pub and_then : Option Bytes → Option ℕ → Option Bytes
and_then (some s) c = put c s
and_then none c = none

-- The loop of `convert`: the digits from the last one on; `none` is a read outside `digits`, or fuel
-- that ran out.
unfoldable pub low_digits : ℕ → ℤ → Option Bytes
unfolding digit_of tenth
low_digits zero i = none
low_digits (suc fuel) i =
    let rest = low_digits fuel (tenth i) in
    if is_zero (tenth i) then and_then (some []) (digit_of i) else and_then rest (digit_of i)

abbrev pub reverse_onto : Bytes → Bytes → Bytes
reverse_onto [] acc = acc
reverse_onto (c ∷ s) acc = reverse_onto s (c ∷ acc)

abbrev pub signed : ℤ → Bytes → Bytes
signed (pos n) s = s
signed (negsuc n) s = s ++ b'-' ∷ []

abbrev pub magnitude : ℤ → ℕ
magnitude (pos n) = n
magnitude (negsuc n) = n + 1

abbrev reversed : ℤ → Option Bytes → Option Bytes
reversed v none = none
reversed v (some s) = some (reverse_onto (signed v s) [])

-- The fuel is above the magnitude, and each round divides it by ten.
unfoldable pub convert : ℤ → Option Bytes
unfolding low_digits
convert v = reversed v (low_digits (suc (magnitude v)) v)

abbrev formatted : FixedBuffer → Option Bytes → Option FixedBuffer
formatted b none = none
formatted b (some s) = some (record b { text = b.text ++ s })

-- The numeral is written behind the buffer's text, with no further test.
unfoldable pub format_integer : FixedBuffer → ℤ → Option FixedBuffer
unfolding convert
format_integer b v = if leb k_max_numeric_size (avail b) then formatted b (convert v) else some b

-- `operator<<` of `double` and `long double`, where `numeral` is what `snprintf` prints: it writes at
-- most 31 bytes of it, but returns its whole length, by which `cur_` is moved. `none` is a text whose
-- end was not written.
unfoldable pub put_floating : FixedBuffer → Bytes → Option FixedBuffer
put_floating b numeral =
    if leb k_max_numeric_size (avail b)
    then (if ltb (length numeral) k_max_numeric_size
        then some (record b { text = b.text ++ numeral })
        else none)
    else some b

-- The overloads of `operator<<`; the narrower types are converted to these.
pub data Piece : Type 0 where
  bool_piece : Bool → Piece
  char_piece : ℕ → Piece
  c_str_piece : Option Bytes → Piece
  string_piece : Bytes → Piece
  integer_piece : ℤ → Piece
  floating_piece : Bytes → Piece

unfoldable pub put_piece : FixedBuffer → Piece → Option FixedBuffer
unfolding append format_integer put_floating
put_piece b (bool_piece true) = some (append b (codes "1"))
put_piece b (bool_piece false) = some (append b (codes "0"))
put_piece b (char_piece c) = some (append b (c ∷ []))
put_piece b (c_str_piece (some s)) = some (append b s)
put_piece b (c_str_piece none) = some (append b (codes "(null)"))
put_piece b (string_piece s) = some (append b s)
put_piece b (integer_piece v) = format_integer b v
put_piece b (floating_piece numeral) = put_floating b numeral
