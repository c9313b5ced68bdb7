-- ===== src/Http/Serving/Progress.antt =====
-- How much input the handlers below `handleRead` leave.
use light_agent_gateway.Common.{
  ℕ, ◌+◌, ◌≤◌, ◌≡◌, refl, ◌∙◌, Bool, Option, none, some, List, [], ◌∷◌, ◌++◌, length, length-append,
  length-drop, arith,
}
use light_agent_gateway.Common.Bytes.{Bytes, codes}
use light_agent_gateway.Io.{
  ReadEvent, received, read_interrupted, read_again, read_failed, readn_string,
}
use light_agent_gateway.Io.Writing.{writen-reads, writen_string-reads}
use light_agent_gateway.Http.{HttpData, Run, done, undefined, exhausted}
use light_agent_gateway.Http.World.{World, handle_error, handle_write}
use light_agent_gateway.Http.Analysis.{
  Host, analysis_request, send_file, serve_file, analysis_api_request, ask_gateway, answer_api,
  replied, to_gateway_method,
}
use light_agent_gateway.Gateway.{Counters, Response, handle}

-- The bytes that the events to come will bring.
abbrev pub incoming : List ReadEvent → ℕ
incoming [] = 0
incoming (received chunk ∷ es) = length chunk + incoming es
incoming (_ ∷ es) = incoming es

-- The input not yet taken: in the buffer, and still to come.
abbrev pub pending : World → ℕ
pending w = length w.http.in_buffer + incoming w.socket.reads

pub readn-pending :
    (es : List ReadEvent) (buffer : Bytes) (z : Bool) (n : ℕ)
    → length (readn_string es buffer z n).buffer + incoming (readn_string es buffer z n).reads
      ≤ length buffer + incoming es
unfolding readn_string
readn-pending [] buffer z n = omega arith
readn-pending (received [] ∷ es) buffer z n = omega arith
readn-pending (received (c ∷ s) ∷ es) buffer z n =
    omega (
      arith,
      readn-pending es (buffer ++ c ∷ s) z (n + length (c ∷ s)),
      length-append buffer (c ∷ s),
    )
readn-pending (read_interrupted ∷ es) buffer z n = readn-pending es buffer z n
readn-pending (read_again ∷ es) buffer z n = omega arith
readn-pending (read_failed ∷ es) buffer z n = omega arith

-- What writing leaves alone.
pub handle_error-keeps :
    (w : World) (n : ℕ) (msg : Bytes)
    → ((handle_error w n msg).http ≡ w.http)
      × ((handle_error w n msg).socket.reads ≡ w.socket.reads)
unfolding handle_error
handle_error-keeps w n msg = (refl, writen-reads _ _ ∙ writen-reads _ _)

pub handle_write-keeps :
    (w : World)
    → ((handle_write w).http.in_buffer ≡ w.http.in_buffer)
      × ((handle_write w).http.state ≡ w.http.state)
      × ((handle_write w).http.connection_state ≡ w.http.connection_state)
      × ((handle_write w).socket.reads ≡ w.socket.reads)
unfolding handle_write
handle_write-keeps w = ground (arith, writen_string-reads w.socket w.http.out_buffer)

abbrev pub After : (World → Type 0) → Run World → Type 0
After P (done w) = P w
After P undefined = Unit
After P exhausted = ⊥

-- At most the input that there was, and the same events still to read.
pub record Shrinks (w w' : World) : Type 0 where
  pub shorter : length w'.http.in_buffer ≤ length w.http.in_buffer
  pub reads_same : w'.socket.reads ≡ w.socket.reads

send_file-Shrinks :
    (host : Host) (w : World) (name : Bytes) (size : ℕ) → Shrinks w (send_file host w name size).1
unfolding send_file
send_file-Shrinks host w name size = ground (
  arith,
  handle_error-keeps (record w { http = record (w.http) { out_buffer = [] } }) 404
      (codes "Not Found!"),
)

serve_file-Shrinks : (host : Host) (w : World) → Shrinks w (serve_file host w).1
unfolding serve_file
serve_file-Shrinks host w = grind (arith, handle_error-keeps, send_file-Shrinks)

answer_api-shorter :
    (h : HttpData) (n : Option ℕ) (r : Response)
    → length (answer_api h n r).in_buffer ≤ length h.in_buffer
unfolding answer_api
answer_api-shorter h none r = omega arith
answer_api-shorter h (some n) r = omega (arith, length-drop n h.in_buffer)

replied-Shrinks :
    (w : World) (n : Option ℕ) (r : Counters × Option Response) → Shrinks w (replied w n r).1
replied-Shrinks w n (k, none) = record { shorter = omega arith; reads_same = refl }
replied-Shrinks w n (k, some r) = record {
  shorter = answer_api-shorter w.http n r;
  reads_same = refl;
}

ask_gateway-Shrinks :
    (host : Host) (w : World) (n : Option ℕ) (body : Bytes)
    → Shrinks w (ask_gateway host w n body).1
unfolding ask_gateway
ask_gateway-Shrinks host w n body = replied-Shrinks w n (
    handle host.environment w.counters (record {
      method = to_gateway_method w.http.method;
      path = b'/' ∷ w.http.file_name;
      body = body;
    }))

analysis_api-Shrinks : (host : Host) (w : World) → Shrinks w (analysis_api_request host w).1
unfolding analysis_api_request
analysis_api-Shrinks host w = grind (arith, ask_gateway-Shrinks)

pub analysis_request-Shrinks : (host : Host) (w : World) → Shrinks w (analysis_request host w).1
unfolding analysis_request
analysis_request-Shrinks host w =
    ground (arith, serve_file-Shrinks host w, analysis_api-Shrinks host w)
