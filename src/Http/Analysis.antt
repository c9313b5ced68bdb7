-- ===== src/Http/Analysis.antt =====
-- `analysisRequest` and `analysisApiRequest`: the reply to a complete request. The files and the
-- environment are the host's, and an argument.
pub mod Laws
mod Tests
use light_agent_gateway.Common.{
  ℕ, Bool, true, false, ◌&&◌, ◌||◌, not, Option, none, some, [], ◌∷◌, ◌++◌, ltb, leb, if◌then◌else◌,
  length, take, drop,
}
use light_agent_gateway.Common.Bytes.{Bytes, codes, bytes_eq, find_byte, is_prefix}
use light_agent_gateway.Common.Decimal.{to_string}
use light_agent_gateway.Gateway
use light_agent_gateway.Gateway.{Environment, Request, Response, Counters, handle}
use light_agent_gateway.Http.{
  HttpData, HttpMethod, method_get, method_post, method_head, AnalysisState, analysis_success,
  analysis_error,
}
use light_agent_gateway.Http.Lookup.{get_content_length, is_keep_alive_requested}
use light_agent_gateway.Http.Mime.{get_mime}
use light_agent_gateway.Http.Favicon.{favicon}
use light_agent_gateway.Http.World.{World, handle_error}

-- `stat` gives a file's size, `open` says whether it can be read, and `mmap` maps so many bytes of it;
-- each may fail.
pub record Host : Type 0 where
  pub environment : Environment
  pub stat : Bytes → Option ℕ
  pub open_file : Bytes → Bool
  pub mmap : Bytes → ℕ → Option Bytes

abbrev pub to_gateway_method : HttpMethod → Gateway.Method
to_gateway_method method_get = Gateway.get
to_gateway_method method_post = Gateway.post
to_gateway_method method_head = Gateway.head

abbrev is_post : HttpMethod → Bool
is_post method_post = true
is_post _ = false

abbrev is_head : HttpMethod → Bool
is_head method_head = true
is_head _ = false

-- The lines for a connection to be kept, with DEFAULT_KEEP_ALIVE_TIME.
abbrev keep_alive_text : Bytes
keep_alive_text = codes "Connection: Keep-Alive\r\nKeep-Alive: timeout=300000\r\n"

abbrev pub keep_alive_lines : HttpData → Bytes
keep_alive_lines h = if is_keep_alive_requested h then keep_alive_text else []

abbrev pub kept_alive : HttpData → HttpData
kept_alive h = record h { keep_alive = is_keep_alive_requested h || h.keep_alive }

unfoldable pub api_header : HttpData → Response → Bytes
api_header h r =
    codes "HTTP/1.1 "
    ++ (to_string r.status_code
        ++ (b' '
            ∷ (r.reason
                ++ (codes "\r\nContent-Type: "
                    ++ (r.content_type
                        ++ (codes "\r\nContent-Length: "
                            ++ (to_string (length r.body)
                                ++ (codes "\r\nServer: LightAgent Gateway\r\n"
                                    ++ (keep_alive_lines h ++ codes "\r\n")))))))))

-- What is left of the input behind the body, if one was announced.
abbrev behind_body : Option ℕ → Bytes → Bytes
behind_body none s = s
behind_body (some n) s = drop n s

-- The reply is appended, without its body for HEAD, and the request's body is taken off the input.
unfoldable pub answer_api : HttpData → Option ℕ → Response → HttpData
answer_api h content_length r = record (kept_alive h) {
  out_buffer = h.out_buffer ++ (api_header h r ++ (if is_head h.method then [] else r.body));
  in_buffer = behind_body content_length h.in_buffer;
}

abbrev pub replied : World → Option ℕ → Counters × Option Response → AnalysisState × World
replied w content_length (k, none) = (analysis_error, record w { counters = k })
replied w content_length (k, some r) =
    (analysis_success, record w { counters = k; http = answer_api w.http content_length r })

unfoldable pub ask_gateway : Host → World → Option ℕ → Bytes → AnalysisState × World
ask_gateway host w content_length body = replied w content_length (
    handle host.environment w.counters (record {
      method = to_gateway_method w.http.method;
      path = b'/' ∷ w.http.file_name;
      body = body;
    }))

unfoldable pub analysis_api_request : Host → World → AnalysisState × World
analysis_api_request host w =
    if is_post w.http.method
    then elim (get_content_length w.http) [
      | none ↦ (analysis_error, w)
      | some n ↦
          if ltb (length w.http.in_buffer) n
          then (analysis_error, w)
          else ask_gateway host w (some n) (take n w.http.in_buffer)
    ]
    else ask_gateway host w none []

-- The suffix from the first dot on names the type.
abbrev pub file_type : Bytes → Bytes
file_type name = elim (find_byte b'.' name) [
  | none ↦ get_mime (codes "default")
  | some p ↦ get_mime (drop p name)
]

unfoldable pub file_header : HttpData → Bytes → ℕ → Bytes
file_header h type size =
    codes "HTTP/1.1 200 OK\r\n"
    ++ (keep_alive_lines h
        ++ (codes "Content-Type: "
            ++ (type
                ++ (codes "\r\nContent-Length: "
                    ++ (to_string size ++ codes "\r\nServer: LinYa's Web Server\r\n\r\n")))))

abbrev append_out : World → Bytes → World
append_out w text = record w { http = record (w.http) { out_buffer = w.http.out_buffer ++ text } }

abbrev pub not_found : World → AnalysisState × World
not_found w = (analysis_error, handle_error w 404 (codes "Not Found!"))

abbrev clear_out : World → World
clear_out w = record w { http = record (w.http) { out_buffer = [] } }

-- Behind the header of a file of `size` bytes: its bytes, for GET.
unfoldable pub send_file : Host → World → Bytes → ℕ → AnalysisState × World
send_file host w name size =
    if is_head w.http.method
    then (analysis_success, w)
    else if not (host.open_file name)
    then not_found (clear_out w)
    else elim (host.mmap name size) [
      | none ↦ not_found (clear_out w)
      | some bytes ↦ (analysis_success, append_out w bytes)
    ]

abbrev pub hello_reply : Bytes
hello_reply = codes "HTTP/1.1 200 OK\r\nContent-type: text/plain\r\n\r\nHello World"

-- GET and HEAD of anything that is not below "api/". The first lines of the header are built, and the
-- connection is marked to be kept, before the name is looked at.
unfoldable pub serve_file : Host → World → AnalysisState × World
serve_file host w0 =
    let name = w0.http.file_name in
    let w : World = record w0 { http = kept_alive w0.http } in
    if bytes_eq name (codes "hello")
    then (analysis_success, record w { http = record (w.http) { out_buffer = hello_reply } })
    else if bytes_eq name (codes "favicon.ico")
    then (
      analysis_success,
      append_out w (file_header w0.http (codes "image/png") (length favicon) ++ favicon),
    )
    else elim (host.stat name) [
      | none ↦ not_found w
      | some size ↦
          send_file host (append_out w (file_header w0.http (file_type name) size)) name size
    ]

unfoldable pub analysis_request : Host → World → AnalysisState × World
analysis_request host w =
    if leb 4 (length w.http.file_name) && is_prefix (codes "api/") w.http.file_name
    then analysis_api_request host w
    else if is_post w.http.method
    then (analysis_error, w)
    else serve_file host w
