-- ===== src/Http/Serving.antt =====
-- `HttpData::handleRead`: read what there is, parse as far as it goes, answer, and start again with
-- what is left of the input. The source calls itself for each further request; the fuel counts those
-- calls.
pub mod Progress
pub mod Stages
pub mod Termination
pub mod Sending
pub mod Exchange
pub mod Parsing
pub mod Posts
pub mod Files
pub mod Asks
pub mod Requests
pub mod Pipeline
pub mod Refusals
mod Tests
use light_agent_gateway.Common.{
  ℕ, zero, suc, ◌+◌, Bool, true, false, ◌&&◌, ◌||◌, not, Option, none, some, List, [], ◌∷◌, ◌++◌,
  ◌==◌, ltb, if◌then◌else◌, length,
}
use light_agent_gateway.Common.Bytes.{Bytes, codes}
use light_agent_gateway.Io.{Socket, Read, readn_string}
use light_agent_gateway.Http.{
  HttpData, HttpMethod, method_get, method_post, method_head, ProcessState, parse_uri_state,
  parse_headers_state, recv_body_state, analysis_state, finish_state, UriState, uri_again,
  uri_error, uri_success, HeaderState, header_success, header_again, header_error, AnalysisState,
  analysis_success, analysis_error, ConnectionState, h_connected, h_disconnecting, h_disconnected,
  Run, done, undefined, exhausted,
}
use light_agent_gateway.Http.RequestLine.{parse_uri}
use light_agent_gateway.Http.Headers.{parse_headers}
use light_agent_gateway.Http.Lookup.{get_content_length}
use light_agent_gateway.Http.World.{World, reset, handle_error, handle_write}
use light_agent_gateway.Http.Analysis.{Host, analysis_request}

abbrev pub is_at_uri : ProcessState → Bool
is_at_uri parse_uri_state = true
is_at_uri _ = false

abbrev is_at_headers : ProcessState → Bool
is_at_headers parse_headers_state = true
is_at_headers _ = false

abbrev is_at_body : ProcessState → Bool
is_at_body recv_body_state = true
is_at_body _ = false

abbrev is_at_analysis : ProcessState → Bool
is_at_analysis analysis_state = true
is_at_analysis _ = false

abbrev pub is_finished : ProcessState → Bool
is_finished finish_state = true
is_finished _ = false

abbrev is_post : HttpMethod → Bool
is_post method_post = true
is_post _ = false

abbrev pub is_disconnecting : ConnectionState → Bool
is_disconnecting h_disconnecting = true
is_disconnecting _ = false

abbrev is_disconnected : ConnectionState → Bool
is_disconnected h_disconnected = true
is_disconnected _ = false

abbrev pub with_state : World → ProcessState → World
with_state w s = record w { http = record (w.http) { state = s } }

abbrev pub with_http : World → HttpData → World
with_http w h = record w { http = h }

-- `error_` is set and the error's page goes out.
abbrev pub fail : World → Bytes → World
fail w short_msg = handle_error (record w { http = record (w.http) { error = true } }) 400 short_msg

abbrev pub analysed : AnalysisState × World → World
analysed (analysis_success, w) = with_state w finish_state
analysed (analysis_error, w) = record w { http = record (w.http) { error = true } }

unfoldable pub stage_analysis : Host → World → World
stage_analysis host w =
    if is_at_analysis w.http.state then analysed (analysis_request host w) else w

unfoldable pub stage_body : Host → World → World
stage_body host w =
    if is_at_body w.http.state
    then elim (get_content_length w.http) [
      | none ↦ fail w (codes "Bad Request: Lack of argument (Content-length)")
      | some n ↦
          if ltb (length w.http.in_buffer) n
          then w
          else stage_analysis host (with_state w analysis_state)
    ]
    else stage_analysis host w

abbrev pub behind_headers : World → World
behind_headers w =
    if is_post w.http.method then with_state w recv_body_state else with_state w analysis_state

abbrev pub headers_parsed : Host → World → Run (HeaderState × HttpData) → Run World
headers_parsed host w (done (header_again, h)) = done (with_http w h)
headers_parsed host w (done (header_error, h)) = done (fail (with_http w h) (codes "Bad Request"))
headers_parsed host w (done (header_success, h)) =
    done (stage_body host (behind_headers (with_http w h)))
headers_parsed host w undefined = undefined
headers_parsed host w exhausted = exhausted

unfoldable pub stage_headers : Host → World → Run World
stage_headers host w =
    if is_at_headers w.http.state
    then headers_parsed host w (parse_headers w.http)
    else done (stage_body host w)

-- The input is dropped before the error's page goes out.
abbrev pub uri_parsed : Host → World → UriState × HttpData → Run World
uri_parsed host w (uri_again, h) = done (with_http w h)
uri_parsed host w (uri_error, h) =
    done (fail (with_http w (record h { in_buffer = [] })) (codes "Bad Request"))
uri_parsed host w (uri_success, h) =
    stage_headers host (with_state (with_http w h) parse_headers_state)

unfoldable pub stage_uri : Host → World → Run World
stage_uri host w =
    if is_at_uri w.http.state then uri_parsed host w (parse_uri w.http) else stage_headers host w

abbrev pub received : World → Read → World
received w r = record w {
  http = record (w.http) { in_buffer = r.buffer };
  socket = record (w.socket) { reads = r.reads };
}

abbrev pub disconnecting : World → World
disconnecting w = record w { http = record (w.http) { connection_state = h_disconnecting } }

-- Behind the call of `readn`. At the end of the stream with nothing read, nothing is parsed.
unfoldable pub parse_input : Host → World → Read → Run World
parse_input host w r =
    if is_disconnecting w.http.connection_state
    then done (record (received w r) { http = record (w.http) { in_buffer = [] } })
    else elim r.sum [
      | none ↦ done (fail (received w r) (codes "Bad Request"))
      | some n ↦
          if r.zero_seen
          then (if n == 0
              then done (disconnecting (received w r))
              else stage_uri host (disconnecting (received w r)))
          else stage_uri host (received w r)
    ]

-- The loop that runs once.
unfoldable pub read_request : Host → World → Run World
read_request host w = parse_input host w (readn_string w.socket.reads w.http.in_buffer false 0)

abbrev pub non_empty : Bytes → Bool
non_empty [] = false
non_empty (c ∷ s) = true

abbrev flush : World → World
flush w = if non_empty w.http.out_buffer then handle_write w else w

abbrev want_in : World → World
want_in w = record w { events = record (w.events) { epollin = true } }

-- Whether there is another request to serve, in the state that `reset` leaves.
abbrev pub more_input : World → Bool
more_input w = non_empty w.http.in_buffer && not (is_disconnecting w.http.connection_state)

-- What follows the parsing: the world, and whether `handleRead` is to be called again.
unfoldable pub respond : World → World × Bool
respond w0 =
    if w0.http.error
    then (w0, false)
    else (let w = flush w0 in
        if not w.http.error && is_finished w.http.state
        then (reset w, more_input (reset w))
        else if not w.http.error && not (is_disconnected w.http.connection_state)
        then (want_in w, false)
        else (w, false))

unfoldable pub handle_read : ℕ → Host → World → Run World
handle_read zero host w = exhausted
handle_read (suc fuel) host w = elim (read_request host w) [
  | done w' ↦
      let again = handle_read fuel host (respond w').0 in
      if (respond w').1 then again else done (respond w').0
  | undefined ↦ undefined
  | exhausted ↦ exhausted
]
