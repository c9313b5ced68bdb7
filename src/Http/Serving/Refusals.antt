-- ===== src/Http/Serving/Refusals.antt =====
-- Requests that `handleRead` refuses with a page, from the bytes to what the page leaves.
use light_agent_gateway.Common.{
  ℕ, suc, ◌≡◌, refl, ◌∙◌, true, false, ◌&&◌, Option, none, List, [], ◌∷◌, ◌++◌, length, leb,
}
use light_agent_gateway.Common.Bytes.{Bytes, codes, is_prefix, bytes_eq}
use light_agent_gateway.Gateway.{Counters}
use light_agent_gateway.Io.{ReadEvent, read_again}
use light_agent_gateway.Io.Reading.{Burst}
use light_agent_gateway.Http.{HttpVersion, method_post, recv_body_state, analysis_state, done}
use light_agent_gateway.Http.HeaderMap.{insert_all}
use light_agent_gateway.Http.Lookup.{is_keep_alive_requested, get_content_length, content_length_in}
use light_agent_gateway.Http.World.{World, handle_error}
use light_agent_gateway.Http.Analysis.{Host, analysis_request, serve_file, not_found, kept_alive}
use light_agent_gateway.Http.Serving.Parsing.{
  waiting, Field, Head, IsHead, head_text, parsed, read_request-parsed, read_request-Burst,
}
use light_agent_gateway.Http.Serving.Files.{get_head}
use light_agent_gateway.Http.RequestLine.Laws.{IsMethodless, parse_uri-methodless}
use light_agent_gateway.Http.World.Page.{error_page, TakesPage, handle_error-page}
use light_agent_gateway.Http.Serving.{
  stage_uri, stage_body, stage_analysis, read_request, behind_headers, handle_read, respond, fail,
  analysed, with_state,
}

-- What a refused request leaves behind `handleRead`: an error, and the page behind what went out before.
pub record Refused (sent output : Bytes) (counters : Counters) (err_num : ℕ) (short_msg : Bytes)
    (u : World) : Type 0 where
  pub fails : u.http.error ≡ true
  pub same_output : u.http.out_buffer ≡ output
  pub page : u.socket.sent ≡ sent ++ error_page err_num short_msg
  pub same_counters : u.counters ≡ counters

fail-Refused :
    (w : World) (short_msg : Bytes)
    → TakesPage w.socket.writes 400 short_msg
    → Refused w.socket.sent w.http.out_buffer w.counters 400 short_msg (fail w short_msg)
unfolding handle_error
fail-Refused w short_msg t = record {
  fails = refl;
  same_output = refl;
  page = handle_error-page (record w { http = record (w.http) { error = true } }) 400 short_msg t;
  same_counters = refl;
}

not_found-Refused :
    (w : World)
    → TakesPage w.socket.writes 404 (codes "Not Found!")
    → Refused w.socket.sent w.http.out_buffer w.counters 404
        (codes "Not Found!")
        (analysed (not_found w))
unfolding handle_error
not_found-Refused w t = record {
  fails = refl;
  same_output = refl;
  page = handle_error-page w 404 (codes "Not Found!") t;
  same_counters = refl;
}

-- A POST without a content length, and a GET of a file that is not there, each with the name, the query,
-- the version and the fields; and a line without a method.
pub data Refusal : Type 0 where
  lengthless : Bytes → Option Bytes → HttpVersion → Field → List Field → Refusal
  missing : ℕ → Bytes → Option Bytes → HttpVersion → Field → List Field → Refusal
  garbled : Bytes → Refusal

-- The head of a POST, below api/ or not.
abbrev any_post_head : Bytes → Option Bytes → HttpVersion → Field → List Field → Head
any_post_head name query version f fs = record {
  method = method_post;
  name = name;
  query = query;
  version = version;
  first = f;
  others = fs;
}

abbrev pub text_of : Refusal → Bytes → Bytes
text_of (lengthless name query version f fs) = head_text (any_post_head name query version f fs)
text_of (missing c name query version f fs) = head_text (get_head c name query version f fs)
text_of (garbled line) = λ content. line ++ b'\r' ∷ content

abbrev pub err_num_of : Refusal → ℕ
err_num_of (lengthless name query version f fs) = 400
err_num_of (missing c name query version f fs) = 404
err_num_of (garbled line) = 400

abbrev pub lack_msg : Bytes
lack_msg = codes "Bad Request: Lack of argument (Content-length)"

abbrev pub short_msg_of : Refusal → Bytes
short_msg_of (lengthless name query version f fs) = lack_msg
short_msg_of (missing c name query version f fs) = codes "Not Found!"
short_msg_of (garbled line) = codes "Bad Request"

-- A name that the server looks for in the file system, and does not find.
pub record IsMissing (host : Host) (name : Bytes) : Type 0 where
  pub not_api : (leb 4 (length name) && is_prefix (codes "api/") name) ≡ false
  pub not_hello : bytes_eq name (codes "hello") ≡ false
  pub not_favicon : bytes_eq name (codes "favicon.ico") ≡ false
  pub not_found : host.stat name ≡ none

-- With the headers `m` that the connection holds already.
abbrev pub IsRefusal : Host → List Field → Refusal → Type 0
IsRefusal host m (lengthless name query version f fs) =
    IsHead (any_post_head name query version f fs)
    × (content_length_in (insert_all (f ∷ fs) m) ≡ none)
IsRefusal host m (missing c name query version f fs) =
    IsHead (get_head c name query version f fs) × IsMissing host (c ∷ name)
IsRefusal host m (garbled line) = IsMethodless line

stage_body-lengthless :
    (host : Host) (v : World)
    → content_length_in v.http.headers ≡ none
    → TakesPage v.socket.writes 400 lack_msg
    → Refused v.socket.sent v.http.out_buffer v.counters 400 lack_msg
        (stage_body host (with_state v recv_body_state))
unfolding stage_body get_content_length
stage_body-lengthless host v i t =
    rw (stage_body, i) (fail-Refused (with_state v recv_body_state) _ t)

stage_body-missing :
    (host : Host) (w : World) (c : ℕ) (name : Bytes) (query : Option Bytes) (version : HttpVersion)
    (f : Field) (fs : List Field) (content : Bytes) (later : List ReadEvent)
    → IsMissing host (c ∷ name)
    → TakesPage w.socket.writes 404 (codes "Not Found!")
    → Refused w.socket.sent w.http.out_buffer w.counters 404 (codes "Not Found!") (
        stage_body host
          (behind_headers (parsed w (get_head c name query version f fs) content later)))
unfolding stage_body stage_analysis analysis_request serve_file is_keep_alive_requested
stage_body-missing host w c name query version f fs content later i t =
    let v = parsed w (get_head c name query version f fs) content later in
    rw
      (stage_body, analysis_request, i.not_api, serve_file, i.not_hello, i.not_favicon, i.not_found)
      (not_found-Refused (with_state (record v { http = kept_alive v.http }) analysis_state) t)

stage_uri-garbled :
    (host : Host) (w : World) (line content : Bytes) (later : List ReadEvent)
    → IsMethodless line
    → stage_uri host (waiting w (line ++ b'\r' ∷ content) later)
      ≡ done (fail (waiting w [] later) (codes "Bad Request"))
unfolding stage_uri
stage_uri-garbled host w line content later i =
    let v = waiting w (line ++ b'\r' ∷ content) later in
    rw (stage_uri, parse_uri-methodless line content v.http i) refl

-- The part of `handleRead` up to the reply.
read_request-Refused :
    (host : Host) (w : World) (r : Refusal) (content buffered : Bytes) {es : List ReadEvent}
    {bytes : Bytes} (later : List ReadEvent)
    → IsRefusal host w.http.headers r
    → Burst es bytes
    → buffered ++ bytes ≡ text_of r content
    → TakesPage w.socket.writes (err_num_of r) (short_msg_of r)
    → (u : World) × (read_request host (waiting w buffered (es ++ read_again ∷ later)) ≡ done u)
      × Refused w.socket.sent w.http.out_buffer w.counters (err_num_of r) (short_msg_of r) u
read_request-Refused host w (lengthless name query version f fs) content buffered later i b e t =
    let q = any_post_head name query version f fs in
    (
      _,
      read_request-parsed host w q content buffered later i.0 b e,
      stage_body-lengthless host (parsed w q content later) i.1 t,
    )
read_request-Refused host w (missing c name query version f fs) content buffered later i b e t = (
  _,
  read_request-parsed host w (get_head c name query version f fs) content buffered later i.0 b e,
  stage_body-missing host w c name query version f fs content later i.1 t,
)
read_request-Refused host w (garbled line) content buffered later i b e t = (
  _,
  read_request-Burst host w (line ++ b'\r' ∷ content) buffered later b e
      ∙ stage_uri-garbled host w line content later i,
  fail-Refused (waiting w [] later) (codes "Bad Request") t,
)

pub handle_read-Refused :
    (fuel : ℕ) (host : Host) (w : World) (r : Refusal) (content buffered : Bytes)
    {es : List ReadEvent} {bytes : Bytes} (later : List ReadEvent)
    → IsRefusal host w.http.headers r
    → Burst es bytes
    → buffered ++ bytes ≡ text_of r content
    → TakesPage w.socket.writes (err_num_of r) (short_msg_of r)
    → (u : World) × (handle_read (suc fuel) host (waiting w buffered (es ++ read_again ∷ later))
        ≡ done u)
      × Refused w.socket.sent w.http.out_buffer w.counters (err_num_of r) (short_msg_of r) u
unfolding handle_read respond
handle_read-Refused fuel host w r content buffered later i b e t =
    let (u, h, x) = read_request-Refused host w r content buffered later i b e t in
    (u, rw (handle_read, h) (rw (respond, x.fails) refl), x)
