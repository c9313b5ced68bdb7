-- ===== src/Http/Serving/Asks.antt =====
-- `handleRead` on a whole GET or HEAD below api/, from the bytes to the reply.
use light_agent_gateway.Common.{
  ℕ, suc, ◌≡◌, refl, subst, sym, Bool, true, false, Option, none, some, List, [], ◌∷◌, ◌++◌,
  if◌then◌else◌,
}
use light_agent_gateway.Common.Bytes.{Bytes, codes}
use light_agent_gateway.Io.{ReadEvent, read_again}
use light_agent_gateway.Io.Writing.{NoneFails}
use light_agent_gateway.Io.Reading.{Burst}
use light_agent_gateway.Gateway.{Counters, Request, Response, handle}
use light_agent_gateway.Http.{
  HttpMethod, HttpVersion, method_get, method_head, finish_state, analysis_state, done,
}
use light_agent_gateway.Http.World.{World}
use light_agent_gateway.Http.Analysis.{
  Host, analysis_request, analysis_api_request, ask_gateway, answer_api, api_header,
  to_gateway_method,
}
use light_agent_gateway.Http.Analysis.Laws.{api_test, handle-answers}
use light_agent_gateway.Http.Serving.Exchange.{IsAnswer, Exchanged}
use light_agent_gateway.Http.Serving.Parsing.{
  waiting, Field, Head, IsHead, head_text, parsed, handle_read-Exchanged,
}
use light_agent_gateway.Http.Serving.{
  with_state, stage_body, stage_analysis, behind_headers, handle_read, non_empty,
}

-- The two methods that bring no body.
abbrev pub asking : Bool → HttpMethod
asking true = method_head
asking false = method_get

-- The head of a GET or, where `headed`, a HEAD below api/.
abbrev pub ask_head : Bool → Bytes → Option Bytes → HttpVersion → Field → List Field → Head
ask_head headed name query version f fs = record {
  method = asking headed;
  name = codes "api/" ++ name;
  query = query;
  version = version;
  first = f;
  others = fs;
}

-- What the gateway is asked.
abbrev pub question : Bool → Bytes → Request
question headed name = record {
  method = to_gateway_method (asking headed);
  path = b'/' ∷ (codes "api/" ++ name);
  body = [];
}

abbrev pub body_for : Bool → Response → Bytes
body_for headed r = if headed then [] else r.body

abbrev answered : World → Counters → Response → World
answered v k r = record v {
  counters = k;
  http = record (answer_api v.http none r) { state = finish_state };
}

stage_body-ask :
    (headed : Bool) (host : Host) (w : World) (name : Bytes) (query : Option Bytes)
    (version : HttpVersion) (f : Field) (fs : List Field) (rest : Bytes) (later : List ReadEvent)
    (r : Response)
    → (handle host.environment w.counters (question headed name)).1 ≡ some r
    → let v = parsed w (ask_head headed name query version f fs) rest later in
      stage_body host (behind_headers v)
      ≡ answered
          (with_state v analysis_state)
          (handle host.environment w.counters (question headed name)).0
          r
unfolding stage_body stage_analysis analysis_request analysis_api_request ask_gateway codes
    answer_api
stage_body-ask true host w name query version f fs rest later r e =
    rw (analysis_request, api_test name) (rw e refl)
stage_body-ask false host w name query version f fs rest later r e =
    rw (analysis_request, api_test name) (rw e refl)

answered-IsAnswer :
    (headed : Bool) (w : World) (name : Bytes) (query : Option Bytes) (version : HttpVersion)
    (f : Field) (fs : List Field) (rest : Bytes) (later : List ReadEvent) (k : Counters)
    (r : Response)
    → let v =
        with_state (parsed w (ask_head headed name query version f fs) rest later) analysis_state in
      IsAnswer w k (api_header v.http r ++ body_for headed r) rest later (answered v k r)
unfolding answer_api
answered-IsAnswer true w name query version f fs rest later k r = record {
  finished = refl;
  no_error = refl;
  connected = refl;
  same_socket = refl;
  output = refl;
  counted = refl;
  input_left = refl;
}
answered-IsAnswer false w name query version f fs rest later k r = record {
  finished = refl;
  no_error = refl;
  connected = refl;
  same_socket = refl;
  output = refl;
  counted = refl;
  input_left = refl;
}

-- The gateway's reply to the path, with its header and, for GET, its body, and what else the request
-- leaves.
pub record Asked (headed : Bool) (host : Host) (w : World) (name : Bytes) (q : Head) (rest : Bytes)
    (later : List ReadEvent) (w' : World) : Type 0 where
  pub reply : Response
  pub is_reply : (handle host.environment w.counters (question headed name)).1 ≡ some reply
  pub exchanged :
      Exchanged w
        (handle host.environment w.counters (question headed name)).0
        (api_header (with_state (parsed w q rest later) analysis_state).http reply
          ++ body_for headed reply)
        rest
        later
        w'

-- A well-formed GET or HEAD below api/, with at least one field, with or without a query, reaches a
-- connection that waits for a request, in any number of reads, partly before, with anything behind it;
-- and no write fails. Then `handleRead` asks the gateway with its path, less the query, and no body, and
-- sends the reply behind what was to be sent before: the header with the length of the reply's body
-- and, for GET, that body. The counters are the gateway's; what followed the request is left as the
-- input, with which `handleRead` is called again unless it is empty; and the connection waits for the
-- next request.
pub handle_read-Asked :
    (fuel : ℕ) (headed : Bool) (host : Host) (w : World) (name : Bytes) (query : Option Bytes)
    (version : HttpVersion) (f : Field) (fs : List Field) (rest buffered : Bytes)
    {es : List ReadEvent} {bytes : Bytes} (later : List ReadEvent)
    → let q = ask_head headed name query version f fs in
      IsHead q
      → Burst es bytes
      → buffered ++ bytes ≡ head_text q rest
      → NoneFails w.socket.writes
      → (w' : World) × (handle_read (suc fuel) host (waiting w buffered (es ++ read_again ∷ later))
          ≡ (if non_empty rest then handle_read fuel host w' else done w'))
        × Asked headed host w name q rest later w'
handle_read-Asked fuel headed host w name query version f fs rest buffered later p b t n =
    let q = ask_head headed name query version f fs in
    let v = with_state (parsed w q rest later) analysis_state in
    let k = (handle host.environment w.counters (question headed name)).0 in
    let (r, e) =
      handle-answers host.environment w.counters (to_gateway_method (asking headed)) name [] in
    let (w', h, x) = handle_read-Exchanged fuel host w q rest buffered later p b t n (
      subst (IsAnswer w k (api_header v.http r ++ body_for headed r) rest later)
        (sym (stage_body-ask headed host w name query version f fs rest later r e))
        (answered-IsAnswer headed w name query version f fs rest later k r)) in
    (w', h, record { reply = r; is_reply = e; exchanged = x })
