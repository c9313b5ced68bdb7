-- ===== src/Io/Reading.antt =====
-- The `readn` loops of Util.cpp against the events that they read.
use light_agent_gateway.Common.{
  ℕ, ◌+◌, ◌≡◌, ◌⊎◌, inr, refl, Bool, true, false, ◌||◌, Option, none, some, List, [], ◌∷◌, ◌++◌,
  length, length-append, append_assoc, append-nil, arith, ◌∙◌, ap, ◌≤◌, ◌-◌, take, length-take,
}
use light_agent_gateway.Common.Bytes.{Bytes}
use light_agent_gateway.Io.{
  ReadEvent, received, read_interrupted, read_again, read_failed, Read, readn_string, readn,
}

-- The events of one burst, with the bytes they bring: chunks that are not empty, and interruptions.
pub data Burst : List ReadEvent → Bytes → Type 0 where
  quiet : Burst [] []
  chunk :
      (c : ℕ) (s : Bytes) {es : List ReadEvent} {bytes : Bytes}
      → Burst es bytes
      → Burst (received (c ∷ s) ∷ es) ((c ∷ s) ++ bytes)
  interrupted :
      {es : List ReadEvent} {bytes : Bytes} → Burst es bytes → Burst (read_interrupted ∷ es) bytes

-- The events that end a burst, with the value that `readn` returns after `n` bytes and the flag.
pub data Stop (n : ℕ) : ReadEvent → Option ℕ → Bool → Type 0 where
  at_again : Stop n read_again (some n) false
  at_eof : Stop n (received []) (some n) true
  at_error : Stop n read_failed none false

abbrev pub result : Option ℕ → Bytes → Bool → List ReadEvent → Read
result sum buffer zero_seen reads = record {
  sum = sum;
  buffer = buffer;
  zero_seen = zero_seen;
  reads = reads;
}

readn_string-Burst_onto :
    {es : List ReadEvent} {bytes : Bytes} (e : ReadEvent) (rest : List ReadEvent) (buffer : Bytes)
    (zero_seen : Bool) (sum : ℕ)
    → Burst es bytes
    → readn_string (es ++ e ∷ rest) buffer zero_seen sum
      ≡ readn_string (e ∷ rest) (buffer ++ bytes) zero_seen (sum + length bytes)
unfolding readn_string
readn_string-Burst_onto e rest buffer zero_seen sum quiet =
    rw (append-nil) (ap (readn_string (e ∷ rest) buffer zero_seen) (omega arith))
readn_string-Burst_onto e rest buffer zero_seen sum (chunk c s {es} {bytes} b) =
    readn_string-Burst_onto e rest (buffer ++ c ∷ s) zero_seen (sum + length (c ∷ s)) b
    ∙ rw (append_assoc) (
        ap (readn_string (e ∷ rest) (buffer ++ ((c ∷ s) ++ bytes)) zero_seen)
          (omega (arith, length-append (c ∷ s) bytes)))
readn_string-Burst_onto e rest buffer zero_seen sum (interrupted b) =
    readn_string-Burst_onto e rest buffer zero_seen sum b

readn_string-Stop :
    {e : ReadEvent} {sum : Option ℕ} {eof : Bool} (rest : List ReadEvent) (buffer : Bytes)
    (zero_seen : Bool) (m n : ℕ)
    → m ≡ n
    → Stop n e sum eof
    → readn_string (e ∷ rest) buffer zero_seen m ≡ result sum buffer (eof || zero_seen) rest
unfolding readn_string
readn_string-Stop rest buffer zero_seen m n p at_again = rw p
readn_string-Stop rest buffer zero_seen m n p at_eof = rw p
readn_string-Stop rest buffer zero_seen m n p at_error = refl

-- `readn` into a string appends all the bytes of the burst, in order, and consumes it with the event
-- that ends it; interruptions are retried. It returns the number of bytes at EAGAIN and at the end
-- of the stream, and -1 at an error, where the bytes that had arrived are in the buffer all the
-- same; `zero` is set at the end of the stream only, and else left as it was.
pub readn_string-Burst :
    {es : List ReadEvent} {bytes : Bytes} {e : ReadEvent} {sum : Option ℕ} {eof : Bool}
    (rest : List ReadEvent) (buffer : Bytes) (zero_seen : Bool)
    → Burst es bytes
    → Stop (length bytes) e sum eof
    → readn_string (es ++ e ∷ rest) buffer zero_seen 0
      ≡ result sum (buffer ++ bytes) (eof || zero_seen) rest
readn_string-Burst {es} {bytes} {e} rest buffer zero_seen b stop =
    readn_string-Burst_onto e rest buffer zero_seen 0 b
    ∙ readn_string-Stop rest (buffer ++ bytes) zero_seen (0 + length bytes) (length bytes)
        (omega arith) stop

-- `readn` of `n` bytes never writes past its buffer: what it stores after the bytes already there
-- fits the room left, and the value returned, if there is one, is the number of bytes stored.
pub readn_bounds :
    (es : List ReadEvent) (nleft : ℕ) (got : Bytes)
    → (length (readn es nleft got).buffer ≤ length got + nleft)
      × (((readn es nleft got).sum ≡ none)
          ⊎ ((readn es nleft got).sum ≡ some (length (readn es nleft got).buffer)))
unfolding readn
readn_bounds [] nleft got = (omega arith, inr refl)
readn_bounds (received [] ∷ es) nleft got = ground arith
readn_bounds (received (c ∷ s) ∷ es) nleft got = ground (
  arith,
  readn_bounds es (nleft - length (take nleft (c ∷ s))) (got ++ take nleft (c ∷ s)),
  length-append got (take nleft (c ∷ s)),
  length-take nleft (c ∷ s),
)
readn_bounds (read_interrupted ∷ es) nleft got = ground (arith, readn_bounds es nleft got)
readn_bounds (read_again ∷ es) nleft got = ground arith
readn_bounds (read_failed ∷ es) nleft got = ground arith
