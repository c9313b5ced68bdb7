-- ===== src/Http/Serving/Parsing.antt =====
-- `handleRead` from the bytes of a request to the point where its headers have been parsed.
use light_agent_gateway.Common.{
  ℕ, suc, if◌then◌else◌, ◌≡◌, refl, ap, ◌∙◌, false, Option, List, ◌∷◌, ◌++◌, All,
}
use light_agent_gateway.Common.Bytes.{Bytes, Lacks}
use light_agent_gateway.Io.{ReadEvent, read_again}
use light_agent_gateway.Io.Reading.{Burst, at_again, readn_string-Burst}
use light_agent_gateway.Http.{
  HttpMethod, HttpVersion, parse_uri_state, parse_headers_state, h_start, h_end_lf, h_connected,
  done,
}
use light_agent_gateway.Http.RequestLine.Target.{request_line, query_text, file_of}
use light_agent_gateway.Http.RequestLine.Laws.{Selects, parse_uri-request_line}
use light_agent_gateway.Http.Headers.Fields.{IsField, block_onto}
use light_agent_gateway.Http.Headers.Blocks.{parse_headers-block}
use light_agent_gateway.Http.HeaderMap.{insert_all}
use light_agent_gateway.Http.World.{World}
use light_agent_gateway.Http.Analysis.{Host}
use light_agent_gateway.Gateway.{Counters}
use light_agent_gateway.Io.Writing.{NoneFails}
use light_agent_gateway.Http.Serving.Exchange.{IsAnswer, Exchanged, respond-Exchanged}
use light_agent_gateway.Http.Serving.{
  stage_uri, stage_headers, stage_body, behind_headers, parse_input, read_request, handle_read,
  respond, non_empty,
}

-- A connection that waits for a request, with `buffer` read already.
abbrev pub waiting : World → Bytes → List ReadEvent → World
waiting w buffer reads = record w {
  http = record (w.http) {
    in_buffer = buffer;
    now_read_pos = 0;
    state = parse_uri_state;
    h_state = h_start;
    error = false;
    connection_state = h_connected;
  };
  socket = record (w.socket) { reads = reads };
}

abbrev pub Field : Type 0
Field = Bytes × Bytes

-- What stands before the body of a request.
pub record Head : Type 0 where
  pub method : HttpMethod
  pub name : Bytes
  pub query : Option Bytes
  pub version : HttpVersion
  pub first : Field
  pub others : List Field

abbrev pub fields_of : Head → List Field
fields_of q = q.first ∷ q.others

abbrev pub line_of : Head → Bytes
line_of q = request_line q.method q.name q.query q.version

-- The bytes of a request, and of what follows its head.
abbrev pub head_text : Head → Bytes → Bytes
head_text q content = line_of q ++ b'\r' ∷ b'\n' ∷ block_onto (fields_of q) content

-- A well-formed head.
pub record IsHead (q : Head) : Type 0 where
  pub no_question_mark : Lacks b'?' q.name
  pub no_space : Lacks b' ' (q.name ++ query_text q.query)
  pub no_return : Lacks b'\r' (line_of q)
  pub selects : Selects q.method (line_of q)
  pub fields : All IsField (fields_of q)

-- The connection when the headers are parsed.
abbrev pub parsed : World → Head → Bytes → List ReadEvent → World
parsed w q content later = record w {
  http = record (w.http) {
    in_buffer = content;
    now_read_pos = 0;
    state = parse_headers_state;
    h_state = h_end_lf;
    error = false;
    connection_state = h_connected;
    method = q.method;
    file_name = file_of q.name q.query;
    http_version = q.version;
    headers = insert_all (fields_of q) w.http.headers;
  };
  socket = record (w.socket) { reads = later };
}

stage_uri-parsed :
    (host : Host) (w : World) (q : Head) (content : Bytes) (later : List ReadEvent)
    → IsHead q
    → stage_uri host (waiting w (head_text q content) later)
      ≡ done (stage_body host (behind_headers (parsed w q content later)))
unfolding stage_uri stage_headers
stage_uri-parsed host w q content later p =
    rw
      (
        stage_uri,
        parse_uri-request_line q.method q.name q.query q.version
            (b'\n' ∷ block_onto (fields_of q) content) (waiting w (head_text q content) later).http
            p.no_question_mark p.no_space p.no_return p.selects,
      )
      (rw
        (parse_headers-block
          (record (parsed w q content later).http { headers = w.http.headers; h_state = h_start })
          q.first q.others content p.fields)
        refl)

-- The first bytes may have been read before; the others come in any number of reads.
pub read_request-Burst :
    (host : Host) (w : World) (text buffered : Bytes) {es : List ReadEvent} {bytes : Bytes}
    (later : List ReadEvent)
    → Burst es bytes
    → buffered ++ bytes ≡ text
    → read_request host (waiting w buffered (es ++ read_again ∷ later))
      ≡ stage_uri host (waiting w text later)
unfolding read_request parse_input
read_request-Burst host w text buffered {es} later b e =
    ap (parse_input host (waiting w buffered (es ++ read_again ∷ later)))
      (readn_string-Burst later buffered false b at_again)
    ∙ ap (λ t. stage_uri host (waiting w t later)) e

pub read_request-parsed :
    (host : Host) (w : World) (q : Head) (content buffered : Bytes) {es : List ReadEvent}
    {bytes : Bytes} (later : List ReadEvent)
    → IsHead q
    → Burst es bytes
    → buffered ++ bytes ≡ head_text q content
    → read_request host (waiting w buffered (es ++ read_again ∷ later))
      ≡ done (stage_body host (behind_headers (parsed w q content later)))
read_request-parsed host w q content buffered later p b e =
    read_request-Burst host w (head_text q content) buffered later b e
    ∙ stage_uri-parsed host w q content later p

-- `handleRead` on a request of which it is known how it is answered.
pub handle_read-Exchanged :
    (fuel : ℕ) (host : Host) (w : World) (q : Head) (content buffered : Bytes) {es : List ReadEvent}
    {bytes : Bytes} (later : List ReadEvent) {counters : Counters} {reply rest : Bytes}
    → IsHead q
    → Burst es bytes
    → buffered ++ bytes ≡ head_text q content
    → NoneFails w.socket.writes
    → IsAnswer w counters reply rest later
        (stage_body host (behind_headers (parsed w q content later)))
    → (w' : World) × (handle_read (suc fuel) host (waiting w buffered (es ++ read_again ∷ later))
        ≡ (if non_empty rest then handle_read fuel host w' else done w'))
      × Exchanged w counters reply rest later w'
unfolding handle_read
handle_read-Exchanged fuel host w q content buffered later p b t n a =
    let u = stage_body host (behind_headers (parsed w q content later)) in
    let (x, more) = respond-Exchanged w u n a in
    (
      (respond u).0,
      rw (handle_read, read_request-parsed host w q content buffered later p b t)
          (ap (λ c. if c then handle_read fuel host (respond u).0 else done (respond u).0) more),
      x,
    )
