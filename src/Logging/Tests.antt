-- ===== src/Logging/Tests.antt =====
-- Concrete log lines and numbers.
use light_agent_gateway.Common.{
  List, ℕ, zero, suc, ◌≡◌, refl, true, false, some, [], ◌∷◌, ◌++◌, arith,
}
use light_agent_gateway.Common.Bytes.{codes}
use light_agent_gateway.Common.Decimal.{pos, to_string, digits_onto}
use light_agent_gateway.Logging.{append, FixedBuffer, integer_piece, string_piece, floating_piece}
use light_agent_gateway.Logging.Async.{
  round_buffers, append_line, kept_buffers, AsyncLogging, started, new_buffer, thread_round,
}
use light_agent_gateway.Logging.Async.Running.{
  testing, ended, System, init, start, stop, log, enter, leave, swap, write, Reach, here, next,
}
use light_agent_gateway.Logging.Async.Running.Order.{logged_in_order, Asserted, in_hand}
use light_agent_gateway.Logging.Async.Running.Rounds.{round_writes, Written}
use light_agent_gateway.Logging.Async.Delivery.{pending, IsValid}
use light_agent_gateway.Logging.Logger.{Statement, log_all}
use light_agent_gateway.Logging.Logger.Statements.{
  IsLoggable, buffer_texts, text_of_statement, statements_delivered,
}
use light_agent_gateway.Logging.File.{LogFile, write_buffers}

abbrev small : FixedBuffer
small = record { capacity = 40; text = b'n' ∷ b'=' ∷ [] }

started-IsValid : IsValid started
started-IsValid = record {
  capacity = refl;
  full_size = tt;
  spare = (refl, refl);
  used = λ e. ground (arith, e);
}

abbrev statement : Statement
statement = record {
  time = codes "2026-01-01 00:00:00";
  base_name = codes "Server.cpp";
  line = pos 45;
  pieces =
      string_piece (codes "port ") ∷ integer_piece (pos 80) ∷ floating_piece (codes "0.5") ∷ [];
}

statement-IsLoggable : IsLoggable statement
unfolding codes to_string digits_onto
statement-IsLoggable = record {
  pieces = (tt, (tt, (omega arith, (omega arith, (tt, (tt, (tt, (omega arith, (tt, tt)))))))));
  room = omega arith;
}

abbrev log_file : LogFile
log_file = record { flush_every_n = 1024; count = 3; text = codes "old "; flushed = [] }

-- A write of at most `k` bytes, again and again.
abbrev each : ℕ → ℕ → List ℕ
each k zero = []
each k (suc n) = k ∷ each k n

statements_delivered_example :
    (l : AsyncLogging) × (log_all started (statement ∷ []) ≡ some l)
    × ((write_buffers (each 2 50 ∷ []) log_file (buffer_texts (round_buffers l))).flushed
        ≡ codes "old " ++ (text_of_statement statement ++ []))
    × (pending (thread_round l new_buffer new_buffer).logging ≡ [])
unfolding codes to_string digits_onto append_line append kept_buffers
statements_delivered_example =
    statements_delivered started new_buffer new_buffer (statement ∷ []) log_file (each 2 50 ∷ [])
      started-IsValid (refl, refl) (refl, refl) (statement-IsLoggable, tt) (omega arith)
      (omega arith, omega arith, tt)

-- One line before the first round, one while its text is written, and `stop` after that: the second
-- line stays in the buffer.
abbrev one_round : System
one_round = record init {
  logging = (thread_round (append_line started (codes "a")) new_buffer new_buffer).logging;
  running = true;
  pc = testing new_buffer new_buffer;
  file = codes "a";
  logged = codes "a";
}

Reach-one_round : Reach init one_round
unfolding codes append_line append kept_buffers thread_round
Reach-one_round =
    next
      (next
        (next (next (next here (start refl)) (log (codes "a") (omega arith)))
          (enter new_buffer new_buffer refl refl))
        (swap new_buffer new_buffer refl))
      (write (codes "a") new_buffer new_buffer refl)

abbrev stopped_late : System
stopped_late = record one_round {
  logging = append_line one_round.logging (codes "b");
  running = false;
  pc = ended;
  logged = codes "ab";
}

Reach-stopped_late : Reach init stopped_late
unfolding codes
Reach-stopped_late =
    next (next (next Reach-one_round (log (codes "b") (omega arith))) (stop refl))
      (leave new_buffer new_buffer refl refl)

logged_in_order_example :
    Asserted stopped_late.pc
    × (stopped_late.flooded ≡ false
        → stopped_late.logged
          ≡ stopped_late.file ++ (in_hand stopped_late.pc ++ pending stopped_late.logging))
logged_in_order_example = logged_in_order Reach-stopped_late

abbrev one_more : System
one_more = record one_round {
  logging = append_line one_round.logging (codes "b");
  logged = codes "ab";
}

Reach-one_more : Reach init one_more
unfolding codes
Reach-one_more = next Reach-one_round (log (codes "b") (omega arith))

round_writes_example : (t : System) × Written one_more t
unfolding codes append_line append kept_buffers thread_round
round_writes_example =
    round_writes new_buffer new_buffer Reach-one_more refl refl refl (omega arith)
