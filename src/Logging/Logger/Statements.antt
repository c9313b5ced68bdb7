-- ===== src/Logging/Logger/Statements.antt =====
-- Statements on their way to the log file.
use light_agent_gateway.Common.{
  ℕ, suc, ◌+◌, ◌<◌, ◌≤◌, ◌≡◌, refl, sym, ap, ◌∙◌, true, false, Option, none, some, List, [], ◌∷◌,
  ◌++◌, length, length-append, append_assoc, append-nil, All, arith,
}
use light_agent_gateway.Common.Bytes.{Bytes, codes}
use light_agent_gateway.Common.Decimal.{ℤ}
use light_agent_gateway.Logging.{
  FixedBuffer, k_small_buffer, k_large_buffer, append, format_integer, put_floating, put_piece,
  Piece, bool_piece, char_piece, c_str_piece, string_piece, integer_piece, floating_piece,
}
use light_agent_gateway.Logging.Convert.{numeral, convert-numeral}
use light_agent_gateway.Logging.Stream.{Fits}
use light_agent_gateway.Logging.Async.{
  AsyncLogging, append_line, thread_round, round_buffers, text_of,
}
use light_agent_gateway.Logging.File.{
  LogFile, write_buffers, Progresses, joined, flushed-write_buffers,
}
use light_agent_gateway.Logging.Async.Delivery.{
  lines_delivered, append_lines, pending, concat, IsValid, IsEmptyBuffer,
}
use light_agent_gateway.Logging.Logger.{
  Statement, put_pieces, empty_stream, all_pieces, log_line, log, log_all,
}

-- The text of a piece.
abbrev pub shown : Piece → Bytes
shown (bool_piece true) = codes "1"
shown (bool_piece false) = codes "0"
shown (char_piece c) = c ∷ []
shown (c_str_piece (some s)) = s
shown (c_str_piece none) = codes "(null)"
shown (string_piece s) = s
shown (integer_piece v) = numeral v
shown (floating_piece s) = s

abbrev pub all_shown : List Piece → Bytes
all_shown [] = []
all_shown (p ∷ ps) = shown p ++ all_shown ps

-- Where the text fits, with room for a number to spare, it is written as it is.
Wrote : FixedBuffer → Bytes → Option FixedBuffer → Type 0
Wrote b s o = o ≡ some (record b { text = b.text ++ s })

append-Wrote :
    (b : FixedBuffer) (s : Bytes)
    → length b.text + length s + 32 ≤ b.capacity
    → Wrote b s (some (append b s))
unfolding append Wrote
append-Wrote b s l = ground arith

format_integer-Wrote :
    (b : FixedBuffer) (v : ℤ)
    → length b.text + length (numeral v) + 32 ≤ b.capacity
    → Wrote b (numeral v) (format_integer b v)
unfolding format_integer Wrote
format_integer-Wrote b v l = rw (convert-numeral v) (ground (arith, l))

put_floating-Wrote :
    (b : FixedBuffer) (s : Bytes)
    → length s < 32
    → length b.text + length s + 32 ≤ b.capacity
    → Wrote b s (put_floating b s)
unfolding put_floating Wrote
put_floating-Wrote b s f l = ground (arith, f, l)

put_piece-Wrote :
    (b : FixedBuffer) (p : Piece)
    → Fits p
    → length b.text + length (shown p) + 32 ≤ b.capacity
    → Wrote b (shown p) (put_piece b p)
unfolding put_piece
put_piece-Wrote b (bool_piece true) f l = append-Wrote b (codes "1") l
put_piece-Wrote b (bool_piece false) f l = append-Wrote b (codes "0") l
put_piece-Wrote b (char_piece c) f l = append-Wrote b (c ∷ []) l
put_piece-Wrote b (c_str_piece (some s)) f l = append-Wrote b s l
put_piece-Wrote b (c_str_piece none) f l = append-Wrote b (codes "(null)") l
put_piece-Wrote b (string_piece s) f l = append-Wrote b s l
put_piece-Wrote b (integer_piece v) f l = format_integer-Wrote b v l
put_piece-Wrote b (floating_piece s) f l = put_floating-Wrote b s f l

put_pieces-Wrote :
    (b : FixedBuffer) (ps : List Piece)
    → All Fits ps
    → length b.text + length (all_shown ps) + 32 ≤ b.capacity
    → Wrote b (all_shown ps) (put_pieces b ps)
unfolding put_pieces Wrote
put_pieces-Wrote b [] f l = ap (λ t. some (record b { text = t })) (sym (append-nil b.text))
put_pieces-Wrote b (p ∷ ps) (f, fs) l =
    let b' = record b { text = b.text ++ shown p } in
    let room = length-append (shown p) (all_shown ps) in
    rw (put_pieces, put_piece-Wrote b p f (omega (arith, l, room)))
      (put_pieces-Wrote b' ps fs (omega (arith, l, room, length-append b.text (shown p)))
        ∙ ap (λ t. some (record b { text = t })) (append_assoc b.text (shown p) (all_shown ps)))

-- The line that a statement stands for.
abbrev pub text_of_statement : Statement → Bytes
text_of_statement s = all_shown (all_pieces s)

-- The numbers are of the types that the stream takes, and the line fits with room for a number.
pub record IsLoggable (s : Statement) : Type 0 where
  pub pieces : All Fits (all_pieces s)
  pub room : length (text_of_statement s) + 32 ≤ k_small_buffer

log-append_line :
    (l : AsyncLogging) (s : Statement)
    → IsLoggable s
    → log l s ≡ some (append_line l (text_of_statement s))
unfolding log log_line Wrote
log-append_line l s i =
    rw (log, put_pieces-Wrote empty_stream (all_pieces s) i.pieces (omega (arith, i.room))) refl

abbrev pub texts : List Statement → List Bytes
texts [] = []
texts (s ∷ ss) = text_of_statement s ∷ texts ss

log_all-append_lines :
    (l : AsyncLogging) (ss : List Statement)
    → All IsLoggable ss
    → log_all l ss ≡ some (append_lines l (texts ss))
unfolding log_all
log_all-append_lines l [] a = refl
log_all-append_lines l (s ∷ ss) (i, a) =
    rw (log_all, log-append_line l s i)
      (log_all-append_lines (append_line l (text_of_statement s)) ss a)

texts-short :
    (ss : List Statement) → All IsLoggable ss → All (λ t. length t < k_large_buffer) (texts ss)
texts-short [] a = tt
texts-short (s ∷ ss) (i, a) = (omega (arith, i.room), texts-short ss a)

length-texts : (ss : List Statement) → length (texts ss) ≡ length ss
length-texts [] = refl
length-texts (s ∷ ss) = ap suc (length-texts ss)

abbrev pub buffer_texts : List FixedBuffer → List Bytes
buffer_texts [] = []
buffer_texts (b ∷ bs) = b.text ∷ buffer_texts bs

joined-buffer_texts : (bs : List FixedBuffer) → joined (buffer_texts bs) ≡ text_of bs
joined-buffer_texts [] = refl
joined-buffer_texts (b ∷ bs) = ap (λ t. b.text ++ t) (joined-buffer_texts bs)

output-thread_round :
    (l : AsyncLogging) (b1 b2 : FixedBuffer)
    → (thread_round l b1 b2).output ≡ text_of (round_buffers l)
unfolding thread_round
output-thread_round l b1 b2 = refl

-- Statements that are logged between two rounds of the logging thread, whose lines fit into a stream
-- with 32 bytes to spare and which are too few for a flood, where each write to the file takes at least
-- one byte and there are as many as bytes: all statements are logged; the next round brings to the
-- file, and flushes, what the file had, what was pending, and then their lines, in order, each of them
-- the time, what was streamed piece by piece (numbers in decimal), " -- ", the file's name, ":", the
-- line's number and a line break; and nothing stays behind in the buffers.
pub statements_delivered :
    (l : AsyncLogging) (b1 b2 : FixedBuffer) (ss : List Statement) (f : LogFile)
    (ks : List (List ℕ))
    → IsValid l
    → IsEmptyBuffer b1
    → IsEmptyBuffer b2
    → All IsLoggable ss
    → length ss + length l.buffers < 25
    → Progresses ks (buffer_texts (round_buffers (append_lines l (texts ss))))
    → (l' : AsyncLogging) × (log_all l ss ≡ some l')
      × ((write_buffers ks f (buffer_texts (round_buffers l'))).flushed
          ≡ f.text ++ (pending l ++ concat (texts ss)))
      × (pending (thread_round l' b1 b2).logging ≡ [])
statements_delivered l b1 b2 ss f ks v e1 e2 a n p =
    let l' = append_lines l (texts ss) in
    let (written, rest) =
      lines_delivered l b1 b2 (texts ss) v e1 e2 (texts-short ss a)
        (omega (arith, n, length-texts ss)) in
    (
      l',
      log_all-append_lines l ss a,
      flushed-write_buffers ks f (buffer_texts (round_buffers l')) p
          ∙ ap (λ t. f.text ++ t)
              (joined-buffer_texts (round_buffers l')
                ∙ sym (output-thread_round l' b1 b2)
                ∙ written),
      rest,
    )
