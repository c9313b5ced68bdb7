-- ===== src/Logging/Async.antt =====
-- base/AsyncLogging.cpp: the front end, which fills buffers, and the rounds of the logging thread,
-- which writes them out.
pub mod Delivery
pub mod Running
use light_agent_gateway.Common.{
  ℕ, zero, suc, ◌+◌, ◌-◌, Bool, true, false, Option, none, some, List, [], ◌∷◌, ◌++◌, ◌==◌, ltb,
  if◌then◌else◌, length, take,
}
use light_agent_gateway.Common.Bytes.{Bytes}
use light_agent_gateway.Logging.{FixedBuffer, append, reset, avail, k_large_buffer}

-- What the mutex guards. `current` is never empty outside a critical section.
pub record AsyncLogging : Type 0 where
  pub current : FixedBuffer
  pub next : Option FixedBuffer
  pub buffers : List FixedBuffer

abbrev pub new_buffer : FixedBuffer
new_buffer = record { capacity = k_large_buffer; text = [] }

abbrev pub started : AsyncLogging
started = record { current = new_buffer; next = some new_buffer; buffers = [] }

abbrev pub or_new : Option FixedBuffer → FixedBuffer
or_new none = new_buffer
or_new (some b) = b

-- `AsyncLogging::append`.
unfoldable pub append_line : AsyncLogging → Bytes → AsyncLogging
append_line l logline =
    if ltb (length logline) (avail l.current)
    then record l { current = append l.current logline }
    else record {
      current = append (or_new l.next) logline;
      next = none;
      buffers = l.buffers ++ l.current ∷ [];
    }

abbrev pub text_of : List FixedBuffer → Bytes
text_of [] = []
text_of (b ∷ bs) = b.text ++ text_of bs

-- More than 25 buffers are a flood, of which the first two are kept.
unfoldable pub kept_buffers : List FixedBuffer → List FixedBuffer
kept_buffers bs = if ltb 25 (length bs) then take 2 bs else bs

-- `back` and `pop_back`.
abbrev pub pop_back : List FixedBuffer → Option (FixedBuffer × List FixedBuffer)
pop_back [] = none
pop_back (b ∷ []) = some (b, [])
pop_back (b ∷ c ∷ bs) = elim (pop_back (c ∷ bs)) [
  | none ↦ none
  | some (x, rest) ↦ some (x, b ∷ rest)
]

-- The two spare buffers, for `newBuffer1` and, where it was handed over, `newBuffer2`. `none` stands
-- for `back` of an empty vector.
abbrev pub refill : Option FixedBuffer → List FixedBuffer → Option (FixedBuffer × FixedBuffer)
refill new_buffer2 bs = elim (pop_back bs) [
  | none ↦ none
  | some (x, rest) ↦ elim new_buffer2 [
    | some y ↦ some (reset x, y)
    | none ↦ elim (pop_back rest) [ none ↦ none | some (y, _) ↦ some (reset x, reset y) ]
  ]
]

-- One round of the thread's loop: what the front end is left with, the new spare buffers and the text
-- that goes to the file.
pub record Round : Type 0 where
  pub logging : AsyncLogging
  pub spares : Option (FixedBuffer × FixedBuffer)
  pub output : Bytes

abbrev pub swapped : AsyncLogging → FixedBuffer → FixedBuffer → AsyncLogging × Option FixedBuffer
swapped l new_buffer1 new_buffer2 = elim l.next [
  | none ↦ (record { current = new_buffer1; next = some new_buffer2; buffers = [] }, none)
  | some b ↦ (record { current = new_buffer1; next = some b; buffers = [] }, some new_buffer2)
]

-- The buffers that a round writes.
abbrev pub round_buffers : AsyncLogging → List FixedBuffer
round_buffers l = kept_buffers (l.buffers ++ l.current ∷ [])

unfoldable pub thread_round : AsyncLogging → FixedBuffer → FixedBuffer → Round
unfolding kept_buffers
thread_round l new_buffer1 new_buffer2 =
    let bs = round_buffers l in
    record {
      logging = (swapped l new_buffer1 new_buffer2).0;
      spares = refill (swapped l new_buffer1 new_buffer2).1 (take 2 bs);
      output = text_of bs;
    }
