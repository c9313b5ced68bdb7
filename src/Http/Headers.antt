-- ===== src/Http/Headers.antt =====
-- `HttpData::parseHeaders`, a state machine over the bytes of the input buffer. `hState_` and
-- the headers outlive a call, the positions do not.
pub mod Fields
pub mod Blocks
pub mod Resume
pub mod Split
pub mod Length
use light_agent_gateway.Common.{
  ℕ, suc, ◌+◌, ◌-◌, Bool, true, false, ◌||◌, ◌&&◌, Option, none, some, List, [], ◌∷◌, ◌==◌, ltb,
  leb, if◌then◌else◌, length, take, drop,
}
use light_agent_gateway.Common.Bytes.{Bytes, substr}
use light_agent_gateway.Http.HeaderMap.{insert}
use light_agent_gateway.Http.{
  HttpData, HeaderState, header_success, header_again, header_error, ParseState, h_start, h_key,
  h_colon, h_spaces_after_colon, h_value, h_cr, h_lf, h_end_cr, h_end_lf, Run, done, undefined,
  exhausted,
}

-- The members and the local variables that the loop changes. A position is `none` for -1, and
-- `body_start` is `none` for `npos`.
pub record Scan : Type 0 where
  pub h_state : ParseState
  pub headers : List (Bytes × Bytes)
  pub key_start : Option ℕ
  pub key_end : Option ℕ
  pub value_start : Option ℕ
  pub value_end : Option ℕ
  pub now_read_line_begin : ℕ
  pub not_finish : Bool
  pub body_start : Option ℕ

-- One round of the loop: go on, return PARSE_HEADER_ERROR, or undefined behaviour.
pub data Step : Type 0 where
  next refused : Scan → Step
  out_of_range : Step

-- `end - start <= 0` for `int`s, the first of them an index.
abbrev not_after : ℕ → Option ℕ → Bool
not_after end none = false
not_after end (some start) = leb end start

-- `i - value_start > 255` for a `size_t` and an `int`: -1 wraps round to one more.
abbrev too_long : ℕ → Option ℕ → Bool
too_long i none = ltb 255 (i + 1)
too_long i (some start) = ltb 255 (i - start)

-- `string(begin() + from, begin() + to)`; `none` unless both ends lie in the buffer, in order.
unfoldable pub range : Bytes → Option ℕ → Option ℕ → Option Bytes
range s none to = none
range s (some from) none = none
range s (some from) (some to) =
    if leb from to && leb to (length s) then some (substr s from (to - from)) else none

abbrev is_newline : ℕ → Bool
is_newline c = c == b'\n' || c == b'\r'

-- The header between the recorded positions goes into the map.
unfoldable pub store : Bytes → Scan → Step
unfolding range
store str z = elim (range str z.key_start z.key_end) [
  | none ↦ out_of_range
  | some key ↦ elim (range str z.value_start z.value_end) [
    | none ↦ out_of_range
    | some value ↦ next (record z { headers = insert key value z.headers })
  ]
]

-- `str[i]` is `c`.
unfoldable pub step_in : ParseState → Bytes → ℕ → ℕ → Scan → Step
unfolding store
step_in h_start str i c z =
    if is_newline c
    then next z
    else next (record z { h_state = h_key; key_start = some i; now_read_line_begin = i })
step_in h_key str i c z =
    if c == b':'
    then (if not_after i z.key_start
        then refused (record z { key_end = some i })
        else next (record z { key_end = some i; h_state = h_colon }))
    else if is_newline c
    then refused z
    else next z
step_in h_colon str i c z =
    if c == b' ' then next (record z { h_state = h_spaces_after_colon }) else refused z
step_in h_spaces_after_colon str i c z = next (record z { h_state = h_value; value_start = some i })
step_in h_value str i c z =
    if c == b'\r'
    then (if not_after i z.value_start
        then refused (record z { h_state = h_cr; value_end = some i })
        else next (record z { h_state = h_cr; value_end = some i }))
    else if too_long i z.value_start
    then refused z
    else next z
step_in h_cr str i c z =
    if c == b'\n'
    then store str (record z { h_state = h_lf; now_read_line_begin = i })
    else refused z
step_in h_lf str i c z =
    if c == b'\r'
    then next (record z { h_state = h_end_cr })
    else next (record z { key_start = some i; h_state = h_key })
step_in h_end_cr str i c z =
    if c == b'\n'
    then next (record z { h_state = h_end_lf; body_start = some (i + 1) })
    else refused z
step_in h_end_lf str i c z = next (record z {
  not_finish = false;
  key_start = some i;
  now_read_line_begin = i;
  body_start = some i;
})

-- The loop from index `i` on; the first argument is the rest of `str` from there.
unfoldable pub scan : Bytes → Bytes → ℕ → Scan → Step
unfolding step_in
scan [] str i z = next z
scan (c ∷ rest) str i z =
    let round : Step = elim (step_in z.h_state str i c z) [
      | next z' ↦ scan rest str (suc i) z'
      | refused z' ↦ refused z'
      | out_of_range ↦ out_of_range
    ] in
    if z.not_finish then round else next z

abbrev pub initial : HttpData → Scan
initial h = record {
  h_state = h.h_state;
  headers = h.headers;
  key_start = none;
  key_end = none;
  value_start = none;
  value_end = none;
  now_read_line_begin = 0;
  not_finish = true;
  body_start = none;
}

abbrev is_end_lf : ParseState → Bool
is_end_lf h_end_lf = true
is_end_lf _ = false

abbrev keep : HttpData → Scan → HttpData
keep h z = record h { h_state = z.h_state; headers = z.headers }

abbrev pub body_from : Bytes → Option ℕ → Bytes
body_from str none = []
body_from str (some b) = if ltb (length str) b then [] else drop b str

-- What follows the loop.
unfoldable pub conclude : HttpData → Step → Run (HeaderState × HttpData)
conclude h out_of_range = undefined
conclude h (refused z) = done (header_error, keep h z)
conclude h (next z) =
    if is_end_lf z.h_state
    then done (header_success, record (keep h z) { in_buffer = body_from h.in_buffer z.body_start })
    else done
        (header_again, record (keep h z) { in_buffer = drop z.now_read_line_begin h.in_buffer })

pub parse_headers : HttpData → Run (HeaderState × HttpData)
unfolding scan conclude
parse_headers h = conclude h (scan h.in_buffer h.in_buffer 0 (initial h))
