-- ===== src/Logging/Logger.antt =====
-- base/Logging.h and base/Logging.cpp: one statement `LOG << ...`, from the constructor of its `Logger`
-- to the destructor, which hands the line to AsyncLogging. The text of the time is an argument.
pub mod Statements
use light_agent_gateway.Common.{ℕ, Option, none, some, List, [], ◌∷◌, ◌++◌}
use light_agent_gateway.Common.Bytes.{Bytes, codes}
use light_agent_gateway.Common.Decimal.{ℤ}
use light_agent_gateway.Logging.{
  FixedBuffer, k_small_buffer, Piece, c_str_piece, char_piece, string_piece, integer_piece,
  put_piece,
}
use light_agent_gateway.Logging.Async.{AsyncLogging, append_line}

-- The time, the file name and the line of the statement, and what is streamed into it.
pub record Statement : Type 0 where
  pub time : Bytes
  pub base_name : Bytes
  pub line : ℤ
  pub pieces : List Piece

unfoldable pub put_pieces : FixedBuffer → List Piece → Option FixedBuffer
unfolding put_piece
put_pieces b [] = some b
put_pieces b (p ∷ ps) = elim (put_piece b p) [ none ↦ none | some b' ↦ put_pieces b' ps ]

abbrev pub empty_stream : FixedBuffer
empty_stream = record { capacity = k_small_buffer; text = [] }

-- What the destructor streams.
abbrev pub tail_of : Statement → List Piece
tail_of s =
    c_str_piece (some (codes " -- "))
    ∷ string_piece s.base_name
    ∷ char_piece b':'
    ∷ integer_piece s.line
    ∷ char_piece b'\n'
    ∷ []

abbrev pub all_pieces : Statement → List Piece
all_pieces s = c_str_piece (some s.time) ∷ (s.pieces ++ tail_of s)

-- The constructor with `formatTime`, the statement, and the destructor up to `output`.
unfoldable pub log_line : Statement → Option FixedBuffer
unfolding put_pieces
log_line s = put_pieces empty_stream (all_pieces s)

-- `output`, where the logger has been started.
unfoldable pub log : AsyncLogging → Statement → Option AsyncLogging
unfolding log_line append_line
log l s = elim (log_line s) [ none ↦ none | some b ↦ some (append_line l b.text) ]

unfoldable pub log_all : AsyncLogging → List Statement → Option AsyncLogging
unfolding log
log_all l [] = some l
log_all l (s ∷ ss) = elim (log l s) [ none ↦ none | some l' ↦ log_all l' ss ]
