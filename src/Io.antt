-- ===== src/Io.antt =====
-- Util.cpp: the loops round `read` and `write` on a non-blocking descriptor. What the system calls
-- return is a script: one event for each call.
pub mod Reading
pub mod Writing
pub mod Whole
mod Tests
use light_agent_gateway.Common.{
  ℕ, suc, ◌+◌, ◌-◌, min, Bool, true, false, Option, none, some, List, [], ◌∷◌, ◌++◌, ◌==◌, ltb,
  if◌then◌else◌, length, take, drop,
}
use light_agent_gateway.Common.Bytes.{Bytes}

-- One `read`: its bytes (none of them at the end of the stream), EINTR, EAGAIN, or another error.
pub data ReadEvent : Type 0 where
  received : Bytes → ReadEvent
  read_interrupted read_again read_failed : ReadEvent

-- One `write`: how many bytes the kernel takes, at most those offered, or an error likewise.
pub data WriteEvent : Type 0 where
  accepted : ℕ → WriteEvent
  write_interrupted write_again write_failed : WriteEvent

-- A descriptor: the events to come, and all that was written so far. Where the events end, the
-- descriptor would block.
pub record Socket : Type 0 where
  pub reads : List ReadEvent
  pub writes : List WriteEvent
  pub sent : Bytes

-- The result of `readn`: `sum` is the value returned, `none` for -1.
pub record Read : Type 0 where
  pub sum : Option ℕ
  pub buffer : Bytes
  pub zero_seen : Bool
  pub reads : List ReadEvent

-- `readn(fd, inBuffer, zero)`; `sum` is `readSum`.
unfoldable pub readn_string : List ReadEvent → Bytes → Bool → ℕ → Read
readn_string [] buffer zero_seen sum = record {
  sum = some sum;
  buffer = buffer;
  zero_seen = zero_seen;
  reads = [];
}
readn_string (read_interrupted ∷ es) buffer zero_seen sum = readn_string es buffer zero_seen sum
readn_string (read_again ∷ es) buffer zero_seen sum = record {
  sum = some sum;
  buffer = buffer;
  zero_seen = zero_seen;
  reads = es;
}
readn_string (read_failed ∷ es) buffer zero_seen sum = record {
  sum = none;
  buffer = buffer;
  zero_seen = zero_seen;
  reads = es;
}
readn_string (received [] ∷ es) buffer zero_seen sum = record {
  sum = some sum;
  buffer = buffer;
  zero_seen = true;
  reads = es;
}
readn_string (received (c ∷ chunk) ∷ es) buffer zero_seen sum =
    readn_string es (buffer ++ c ∷ chunk) zero_seen (sum + length (c ∷ chunk))

-- `readn(fd, inBuffer)`: the same loop with no flag.
pub readn_unflagged : List ReadEvent → Bytes → ℕ → Read
readn_unflagged [] buffer sum = record {
  sum = some sum;
  buffer = buffer;
  zero_seen = false;
  reads = [];
}
readn_unflagged (read_interrupted ∷ es) buffer sum = readn_unflagged es buffer sum
readn_unflagged (read_again ∷ es) buffer sum = record {
  sum = some sum;
  buffer = buffer;
  zero_seen = false;
  reads = es;
}
readn_unflagged (read_failed ∷ es) buffer sum = record {
  sum = none;
  buffer = buffer;
  zero_seen = false;
  reads = es;
}
readn_unflagged (received [] ∷ es) buffer sum = record {
  sum = some sum;
  buffer = buffer;
  zero_seen = false;
  reads = es;
}
readn_unflagged (received (c ∷ chunk) ∷ es) buffer sum =
    readn_unflagged es (buffer ++ c ∷ chunk) (sum + length (c ∷ chunk))

-- `readn(fd, buff, n)`: fills `n` bytes. `read` returns at most as many bytes as it is asked for.
-- An interrupted call counts as one that read nothing. `buffer` is what was written to `buff`.
unfoldable pub readn : List ReadEvent → ℕ → Bytes → Read
readn [] nleft got = record { sum = some (length got); buffer = got; zero_seen = false; reads = [] }
readn (e ∷ es) nleft got =
    let interrupted = readn es nleft got in
    let more =
      λ (chunk : Bytes). readn es (nleft - length (take nleft chunk)) (got ++ take nleft chunk) in
    if nleft == 0
    then record { sum = some (length got); buffer = got; zero_seen = false; reads = e ∷ es }
    else elim e [
      | received chunk ↦ elim chunk [
        | [] ↦ record { sum = some (length got); buffer = got; zero_seen = false; reads = es }
        | c ∷ rest ↦ more (c ∷ rest)
      ]
      | read_interrupted ↦ interrupted
      | read_again ↦ record { sum = some (length got); buffer = got; zero_seen = false; reads = es }
      | read_failed ↦ record { sum = none; buffer = got; zero_seen = false; reads = es }
    ]

-- How the loop of `writen` ends: all is written, the descriptor would block, or an error.
pub data WriteEnd : Type 0 where
  finished blocked failed : WriteEnd

pub record Written : Type 0 where
  pub ending : WriteEnd
  pub write_sum : ℕ
  pub socket : Socket

abbrev with_writes : Socket → List WriteEvent → Socket
with_writes s es = record s { writes = es }

-- `s.writes` is taken apart: `es` is what is left of it.
unfoldable pub writen_loop : List WriteEvent → Socket → Bytes → ℕ → Written
writen_loop [] s data_ write_sum =
    if length data_ - write_sum == 0
    then record { ending = finished; write_sum = write_sum; socket = with_writes s [] }
    else record { ending = blocked; write_sum = write_sum; socket = with_writes s [] }
writen_loop (e ∷ es) s data_ write_sum =
    let nleft = length data_ - write_sum in
    let retry = writen_loop es s data_ write_sum in
    let wrote = λ (n : ℕ).
      writen_loop es (record s { sent = s.sent ++ take (min n nleft) (drop write_sum data_) }) data_
        (write_sum + min n nleft) in
    if nleft == 0
    then record { ending = finished; write_sum = write_sum; socket = with_writes s (e ∷ es) }
    else elim e [
      | accepted n ↦ wrote n
      | write_interrupted ↦ retry
      | write_again ↦ record { ending = blocked; write_sum = write_sum; socket = with_writes s es }
      | write_failed ↦ record { ending = failed; write_sum = write_sum; socket = with_writes s es }
    ]

-- `writen(fd, buff, n)`: `none` is -1.
pub writen : Socket → Bytes → Option ℕ × Socket
writen s buff =
    let w = writen_loop s.writes s buff 0 in
    elim w.ending [
      | finished ↦ (some w.write_sum, w.socket)
      | blocked ↦ (some w.write_sum, w.socket)
      | failed ↦ (none, w.socket)
    ]

-- The end of `writen(fd, sbuff)`: on success the bytes that were written leave `sbuff`.
pub settle : Bytes → Written → Option ℕ × Bytes × Socket
settle sbuff w =
    let left = if w.write_sum == length sbuff then [] else drop w.write_sum sbuff in
    elim w.ending [
      | finished ↦ (some w.write_sum, left, w.socket)
      | blocked ↦ (some w.write_sum, left, w.socket)
      | failed ↦ (none, sbuff, w.socket)
    ]

-- `writen(fd, sbuff)`.
pub writen_string : Socket → Bytes → Option ℕ × Bytes × Socket
writen_string s sbuff = settle sbuff (writen_loop s.writes s sbuff 0)
