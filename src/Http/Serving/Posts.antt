-- ===== src/Http/Serving/Posts.antt =====
-- `handleRead` on a whole POST below api/, from the bytes to the reply.
use light_agent_gateway.Common.{
  ℕ, ◌≡◌, refl, sym, suc, ◌∙◌, subst, arith, Option, some, List, ◌∷◌, ◌++◌, length, if◌then◌else◌,
}
use light_agent_gateway.Common.Bytes.{Bytes, codes}
use light_agent_gateway.Io.{ReadEvent, read_again}
use light_agent_gateway.Gateway.{Response, handle}
use light_agent_gateway.Io.Writing.{NoneFails}
use light_agent_gateway.Io.Reading.{Burst}
use light_agent_gateway.Http.{
  HttpVersion, method_post, analysis_state, finish_state, AnalysisState, analysis_success,
  analysis_error, done,
}
use light_agent_gateway.Http.HeaderMap.{insert_all}
use light_agent_gateway.Http.Lookup.{get_content_length, content_length_in}
use light_agent_gateway.Http.World.{World}
use light_agent_gateway.Http.Analysis.{Host, analysis_request, api_header}
use light_agent_gateway.Http.Analysis.Laws.{request_of, enough, analysis_request-Answered}
use light_agent_gateway.Http.Serving.Exchange.{IsAnswer, Exchanged}
use light_agent_gateway.Http.Serving.Parsing.{
  waiting, Field, Head, IsHead, fields_of, head_text, parsed, handle_read-Exchanged,
}
use light_agent_gateway.Http.Serving.{
  with_state, stage_body, stage_analysis, behind_headers, analysed, handle_read, non_empty,
}

-- The head of a POST below api/.
abbrev pub post_head : Bytes → Option Bytes → HttpVersion → Field → List Field → Head
post_head name query version f fs = record {
  method = method_post;
  name = codes "api/" ++ name;
  query = query;
  version = version;
  first = f;
  others = fs;
}

-- The connection when the body has arrived.
abbrev pub ready : World → Head → Bytes → List ReadEvent → World
ready w q content later = with_state (parsed w q content later) analysis_state

-- A well-formed POST, whose announced length, with the headers `m` that the connection holds already, is
-- its body's.
pub record IsPost (m : List Field) (q : Head) (body : Bytes) : Type 0 where
  pub head : IsHead q
  pub content_length : content_length_in (insert_all (fields_of q) m) ≡ some (length body)

analysed-success :
    (r : AnalysisState × World) → r.0 ≡ analysis_success → analysed r ≡ with_state r.1 finish_state
analysed-success (analysis_success, w) e = refl
analysed-success (analysis_error, w) e = ground (arith, e)

stage_body-post :
    (host : Host) (w : World) (name : Bytes) (query : Option Bytes) (version : HttpVersion)
    (f : Field) (fs : List Field) (body rest : Bytes) (later : List ReadEvent)
    → let q = post_head name query version f fs in
      content_length_in (insert_all (fields_of q) w.http.headers) ≡ some (length body)
      → stage_body host (behind_headers (parsed w q (body ++ rest) later))
        ≡ analysed (analysis_request host (ready w q (body ++ rest) later))
unfolding stage_body stage_analysis get_content_length codes
stage_body-post host w name query version f fs body rest later c =
    rw (stage_body, c, enough body rest) refl

-- The gateway's reply to the path and the body, with its header, and what else the request leaves.
pub record Served (host : Host) (w : World) (name : Bytes) (q : Head) (body rest : Bytes)
    (later : List ReadEvent) (w' : World) : Type 0 where
  pub reply : Response
  pub is_reply : (handle host.environment w.counters (request_of name body)).1 ≡ some reply
  pub exchanged :
      Exchanged w
        (handle host.environment w.counters (request_of name body)).0
        (api_header (ready w q (body ++ rest) later).http reply ++ reply.body)
        rest
        later
        w'

-- A well-formed POST below api/, with or without a query, reaches a connection that waits for a request,
-- with a content length that is its body's; its first bytes may have been read before, and the others
-- come in any number of reads of any sizes, with anything behind it; and no write fails. Then
-- `handleRead` parses it, asks the gateway with exactly its path, less the query, and its body, and
-- sends the gateway's reply, with its header, behind what was to be sent before: what went out and
-- what still waits are exactly that, in order, whatever the sizes of the writes. The counters are the
-- gateway's; what followed the body is left as the input, with which `handleRead` is called again
-- unless it is empty; and the connection waits for the next request, with no header of this one.
pub handle_read-Served :
    (fuel : ℕ) (host : Host) (w : World) (name : Bytes) (query : Option Bytes)
    (version : HttpVersion) (f : Field) (fs : List Field) (body rest buffered : Bytes)
    {es : List ReadEvent} {bytes : Bytes} (later : List ReadEvent)
    → let q = post_head name query version f fs in
      IsPost w.http.headers q body
      → Burst es bytes
      → buffered ++ bytes ≡ head_text q (body ++ rest)
      → NoneFails w.socket.writes
      → (w' : World) × (handle_read (suc fuel) host (waiting w buffered (es ++ read_again ∷ later))
          ≡ (if non_empty rest then handle_read fuel host w' else done w'))
        × Served host w name q body rest later w'
unfolding get_content_length codes
handle_read-Served fuel host w name query version f fs body rest buffered later p b t n =
    let q = post_head name query version f fs in
    let v = ready w q (body ++ rest) later in
    let a = analysis_request-Answered host v name body rest p.content_length in
    let u =
      stage_body-post host w name query version f fs body rest later p.content_length
      ∙ analysed-success (analysis_request host v) a.succeeds in
    let (w', h, x) =
      handle_read-Exchanged fuel host w q (body ++ rest) buffered later p.head b t n (
        subst (IsAnswer w _ _ rest later) (sym u) (record {
          finished = refl;
          no_error = a.same_error;
          connected = a.same_connection;
          same_socket = a.same_socket;
          output = a.output;
          counted = a.counted;
          input_left = a.input_left;
        })) in
    (w', h, record { reply = a.reply; is_reply = a.is_reply; exchanged = x })
