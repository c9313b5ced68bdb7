-- ===== src/Logging/Async/Running.antt =====
-- base/AsyncLogging.h/.cpp: start, stop and the loop of the logging thread, one critical section at a
-- time, interleaved with the threads that log.
pub mod Order
pub mod Rounds
use light_agent_gateway.Common.{
  ℕ, ◌<◌, ◌≡◌, refl, sym, ap, ◌∙◌, subst, Bool, true, false, ◌||◌, Option, none, some, List, [],
  ◌∷◌, ◌++◌, length, length-append, take, ltb, if◌then◌else◌, append-nil, append_assoc, All, arith,
  by_if,
}
use light_agent_gateway.Common.Bytes.{Bytes}
use light_agent_gateway.Logging.{FixedBuffer, k_large_buffer}
use light_agent_gateway.Logging.Async.{
  AsyncLogging, started, new_buffer, append_line, kept_buffers, refill, swapped, Round,
  round_buffers, text_of, thread_round,
}
use light_agent_gateway.Logging.Async.Delivery.{
  IsLarge, IsEmptyBuffer, IsValid, pending, append_line-pending, Refilled, refill-Refilled,
  swapped-pending, swapped-IsValid, swapped-IsSpare, swapped-none, thread_round-delivers,
}

-- Where the logging thread stands: before `start`; at the test of `running_`; in the loop before its
-- critical section, the wait for the condition included; behind it, with the text to write and the
-- spare buffers of the next round; and behind the loop.
pub data ThreadPc : Type 0 where
  idle : ThreadPc
  testing : FixedBuffer → FixedBuffer → ThreadPc
  waiting : FixedBuffer → FixedBuffer → ThreadPc
  writing : Bytes → Option (FixedBuffer × FixedBuffer) → ThreadPc
  ended : ThreadPc

-- `file` is what the file was given. `logged` and `flooded` are the history: the lines in the order of
-- `append`, and whether a round has thrown buffers away.
pub record System : Type 0 where
  pub logging : AsyncLogging
  pub running : Bool
  pub pc : ThreadPc
  pub file : Bytes
  pub logged : Bytes
  pub flooded : Bool

abbrev pub init : System
init = record {
  logging = started;
  running = false;
  pc = idle;
  file = [];
  logged = [];
  flooded = false;
}

abbrev pub swap_round : System → FixedBuffer → FixedBuffer → System
swap_round s b1 b2 =
    let round = thread_round s.logging b1 b2 in
    record s {
      logging = round.logging;
      pc = writing round.output round.spares;
      flooded = s.flooded || ltb 25 (length (s.logging.buffers ++ s.logging.current ∷ []));
    }

-- `start` sets `running_` before the thread exists, and returns when the thread runs, so that `stop`
-- comes later.
pub data Step (s : System) : System → Type 0 where
  start : s.pc ≡ idle → Step s (record s { running = true; pc = testing new_buffer new_buffer })
  stop : s.running ≡ true → Step s (record s { running = false })
  log :
      (line : Bytes)
      → length line < k_large_buffer
      → Step s (record s { logging = append_line s.logging line; logged = s.logged ++ line })
  enter :
      (b1 b2 : FixedBuffer)
      → s.pc ≡ testing b1 b2
      → s.running ≡ true
      → Step s (record s { pc = waiting b1 b2 })
  leave :
      (b1 b2 : FixedBuffer)
      → s.pc ≡ testing b1 b2
      → s.running ≡ false
      → Step s (record s { pc = ended })
  swap : (b1 b2 : FixedBuffer) → s.pc ≡ waiting b1 b2 → Step s (swap_round s b1 b2)
  write :
      (output : Bytes) (b1 b2 : FixedBuffer)
      → s.pc ≡ writing output (some (b1, b2))
      → Step s (record s { pc = testing b1 b2; file = s.file ++ output })

pub data Reach (s : System) : System → Type 0 where
  here : Reach s s
  next : {t u : System} → Reach s t → Step t u → Reach s u
