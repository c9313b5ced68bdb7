-- ===== src/Http/Headers/Length.antt =====
-- How much input `parseHeaders` leaves.
use light_agent_gateway.Common.{ℕ, ◌≤◌, ◌≡◌, ◌≢◌, Option, none, some, length, length-drop, arith}
use light_agent_gateway.Common.Bytes.{Bytes}
use light_agent_gateway.Http.{HttpData, HeaderState, done, exhausted}
use light_agent_gateway.Http.Headers.{
  Step, next, refused, out_of_range, scan, initial, parse_headers, conclude, body_from,
}

body_from-shrinks : (str : Bytes) (b : Option ℕ) → length (body_from str b) ≤ length str
body_from-shrinks str none = omega arith
body_from-shrinks str (some b) = ground (arith, length-drop b str)

conclude_keeps :
    (h h' : HttpData) (flag : HeaderState) (st : Step)
    → conclude h st ≡ done (flag, h')
    → (length h'.in_buffer ≤ length h.in_buffer) × (h'.state ≡ h.state)
unfolding conclude
conclude_keeps h h' flag (next z) e = ground (
  arith,
  length-drop z.now_read_line_begin h.in_buffer,
  body_from-shrinks h.in_buffer z.body_start,
)
conclude_keeps h h' flag (refused z) e = ground arith
conclude_keeps h h' flag out_of_range e = ground arith

pub parse_headers_keeps :
    (h h' : HttpData) (flag : HeaderState)
    → parse_headers h ≡ done (flag, h')
    → (length h'.in_buffer ≤ length h.in_buffer) × (h'.state ≡ h.state)
unfolding parse_headers
parse_headers_keeps h h' flag e =
    conclude_keeps h h' flag (scan h.in_buffer h.in_buffer 0 (initial h)) e

conclude-ends : (h : HttpData) (st : Step) → conclude h st ≢ exhausted
unfolding conclude
conclude-ends h (next z) e = ground arith
conclude-ends h (refused z) e = ground arith
conclude-ends h out_of_range e = ground arith

pub parse_headers-ends : (h : HttpData) → parse_headers h ≢ exhausted
unfolding parse_headers
parse_headers-ends h = conclude-ends h (scan h.in_buffer h.in_buffer 0 (initial h))
