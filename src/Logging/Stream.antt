-- ===== src/Logging/Stream.antt =====
-- The stream's buffer and its size.
use light_agent_gateway.Common.{
  ℕ, ◌^◌, ◌<◌, ◌≤◌, ◌≡◌, Option, none, some, length, arith, length-append,
}
use light_agent_gateway.Common.Bytes.{Bytes}
use light_agent_gateway.Common.Decimal.{ℤ, pos, negsuc}
use light_agent_gateway.Logging.{
  FixedBuffer, append, k_max_numeric_size, Piece, c_str_piece, string_piece, integer_piece,
  floating_piece,
}
use light_agent_gateway.Logging.Convert.{numeral}

-- The values of the integer types, of at most 64 bits.
abbrev pub Is64Bit : ℤ → Type 0
Is64Bit (pos n) = n < 2 ^ 64
Is64Bit (negsuc n) = n < 2 ^ 63

abbrev pub Fits : Piece → Type 0
Fits (integer_piece v) = Is64Bit v
Fits (floating_piece numeral) = length numeral < k_max_numeric_size
Fits _ = Unit

-- A text whose length an `int` holds.
abbrev pub IsShort : Piece → Type 0
IsShort (c_str_piece (some s)) = length s < 2 ^ 31
IsShort (string_piece s) = length s < 2 ^ 31
IsShort _ = Unit

abbrev pub Bounded : ℕ → Option FixedBuffer → Type 0
Bounded n none = ⊥
Bounded n (some b) = (length b.text ≤ n) × (b.capacity ≡ n)

-- A text whose length the cast makes negative is copied whatever the buffer's size.
append-overruns :
    (b : FixedBuffer) (s : Bytes)
    → b.capacity < 2 ^ 31
    → 2 ^ 31 ≤ length s
    → length s < 2 ^ 32
    → b.capacity < length (append b s).text
unfolding append
append-overruns b s c m n = ground (arith, c, m, n, length-append b.text s)
