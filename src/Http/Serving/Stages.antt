-- ===== src/Http/Serving/Stages.antt =====
-- The stages of `handleRead`, one by one: how much input each leaves.
use light_agent_gateway.Common.{
  suc, ◌≤◌, ◌≡◌, ◌≢◌, ◌⊎◌, inl, inr, refl, ap, true, none, [], if◌then◌else◌, length, arith,
}
use light_agent_gateway.Common.Bytes.{Bytes, codes, find_from}
use light_agent_gateway.Http.{
  HttpData, Run, done, undefined, exhausted, HeaderState, header_success, header_again,
  header_error, ProcessState, parse_uri_state, finish_state, UriState, uri_again, uri_error,
  uri_success, AnalysisState, parse_headers_state, recv_body_state, analysis_state,
  analysis_success, analysis_error,
}
use light_agent_gateway.Http.RequestLine.{parse_uri}
use light_agent_gateway.Http.RequestLine.Progress.{parse_uri_progress, SameElse}
use light_agent_gateway.Http.Headers.{parse_headers}
use light_agent_gateway.Http.Headers.Length.{parse_headers_keeps, parse_headers-ends}
use light_agent_gateway.Http.World.{World}
use light_agent_gateway.Http.Analysis.{Host, analysis_request}
use light_agent_gateway.Http.Serving.{
  stage_analysis, stage_body, stage_headers, is_at_uri, stage_uri, with_state, with_http, fail,
  analysed, behind_headers, headers_parsed, uri_parsed,
}
use light_agent_gateway.Http.Serving.Progress.{
  handle_error-keeps, After, Shrinks, analysis_request-Shrinks,
}

pub fail-Shrinks : (w : World) (msg : Bytes) → Shrinks w (fail w msg)
fail-Shrinks w msg =
    ground
      (arith, handle_error-keeps (record w { http = record (w.http) { error = true } }) 400 msg)

analysed-Shrinks : (w : World) (r : AnalysisState × World) → Shrinks w r.1 → Shrinks w (analysed r)
analysed-Shrinks w (analysis_success, w') s = ground arith
analysed-Shrinks w (analysis_error, w') s = ground arith

stage_analysis-Shrinks : (host : Host) (w : World) → Shrinks w (stage_analysis host w)
unfolding stage_analysis
stage_analysis-Shrinks host w =
    ground (arith, analysed-Shrinks w (analysis_request host w) (analysis_request-Shrinks host w))

stage_body-Shrinks : (host : Host) (w : World) → Shrinks w (stage_body host w)
unfolding stage_body
stage_body-Shrinks host w = ground (
  arith,
  stage_analysis-Shrinks host w,
  stage_analysis-Shrinks host (with_state w analysis_state),
  fail-Shrinks w (codes "Bad Request: Lack of argument (Content-length)"),
)

behind_headers-Shrinks : (host : Host) (w : World) → Shrinks w (stage_body host (behind_headers w))
behind_headers-Shrinks host w = ground (
  arith,
  stage_body-Shrinks host (with_state w recv_body_state),
  stage_body-Shrinks host (with_state w analysis_state),
)

headers_parsed-Shrinks :
    (host : Host) (w : World) (r : Run (HeaderState × HttpData))
    → parse_headers w.http ≡ r
    → After (Shrinks w) (headers_parsed host w r)
headers_parsed-Shrinks host w (done (header_again, h)) e =
    ground (arith, parse_headers_keeps w.http h header_again e)
headers_parsed-Shrinks host w (done (header_error, h)) e = ground (
  arith,
  parse_headers_keeps w.http h header_error e,
  fail-Shrinks (with_http w h) (codes "Bad Request"),
)
headers_parsed-Shrinks host w (done (header_success, h)) e = ground (
  arith,
  parse_headers_keeps w.http h header_success e,
  behind_headers-Shrinks host (with_http w h),
)
headers_parsed-Shrinks host w undefined e = tt
headers_parsed-Shrinks host w exhausted e = absurd (parse_headers-ends w.http e)

stage_headers-Shrinks : (host : Host) (w : World) → After (Shrinks w) (stage_headers host w)
unfolding stage_headers
stage_headers-Shrinks host w =
    ground
      (arith, headers_parsed-Shrinks host w (parse_headers w.http) refl, stage_body-Shrinks host w)

-- At most the input that there was; less, if the request line was still to read and the request is
-- finished.
pub record Advances (w w' : World) : Type 0 where
  pub shrinks : Shrinks w w'
  pub taken :
      w.http.state ≡ parse_uri_state
      → w'.http.state ≡ finish_state
      → suc (length w'.http.in_buffer) ≤ length w.http.in_buffer

pub fail-state : (w : World) (msg : Bytes) → (fail w msg).http.state ≡ w.http.state
fail-state w msg =
    ap (λ h. h.state)
      (handle_error-keeps (record w { http = record (w.http) { error = true } }) 400 msg).0

pub After-map :
    {P Q : World → Type 0} (r : Run World) → ((w : World) → P w → Q w) → After P r → After Q r
After-map (done w) f p = f w p
After-map undefined f p = tt
After-map exhausted f p = p

later :
    (w w1 w' : World)
    → Shrinks w1 w'
    → w1.socket.reads ≡ w.socket.reads
    → suc (length w1.http.in_buffer) ≤ length w.http.in_buffer
    → Advances w w'
later w w1 w' s r l = ground arith

abbrev UriOutcome : HttpData → UriState × HttpData → Type 0
UriOutcome h (flag, h') =
    ((flag ≡ uri_again) × (find_from b'\r' h.now_read_pos h.in_buffer ≡ none) × (h' ≡ h))
    ⊎ ((flag ≢ uri_again) × (suc (length h'.in_buffer) ≤ length h.in_buffer) × SameElse h h')

uri_parsed-Advances :
    (host : Host) (w : World) (r : UriState × HttpData)
    → UriOutcome w.http r
    → w.http.state ≡ parse_uri_state
    → After (Advances w) (uri_parsed host w r)
uri_parsed-Advances host w (uri_again, h) (inl (_, _, e)) s = ground (arith, e, s)
uri_parsed-Advances host w (uri_again, h) (inr (d, _, _)) s = absurd (d refl)
uri_parsed-Advances host w (uri_error, h) (inl (d, _, _)) s = ground (arith, d)
uri_parsed-Advances host w (uri_error, h) (inr (_, l, e)) s = ground (
  arith,
  e.same_state,
  fail-state (with_http w (record h { in_buffer = [] })) (codes "Bad Request"),
  fail-Shrinks (with_http w (record h { in_buffer = [] })) (codes "Bad Request"),
)
uri_parsed-Advances host w (uri_success, h) (inl (d, _, _)) s = ground (arith, d)
uri_parsed-Advances host w (uri_success, h) (inr (_, l, e)) s =
    After-map (stage_headers host (with_state (with_http w h) parse_headers_state))
      (λ w' p. later w (with_state (with_http w h) parse_headers_state) w' p refl l)
      (stage_headers-Shrinks host (with_state (with_http w h) parse_headers_state))

by_state :
    (P : Run World → Type 0) (s : ProcessState) (x y : Run World)
    → (s ≡ parse_uri_state → P x)
    → (s ≢ parse_uri_state → P y)
    → P (if is_at_uri s then x else y)
by_state P parse_uri_state x y p q = p refl
by_state P parse_headers_state x y p q = q (ground arith)
by_state P recv_body_state x y p q = q (ground arith)
by_state P analysis_state x y p q = q (ground arith)
by_state P finish_state x y p q = q (ground arith)

pub stage_uri-Advances : (host : Host) (w : World) → After (Advances w) (stage_uri host w)
unfolding stage_uri
stage_uri-Advances host w =
    by_state (After (Advances w)) w.http.state (uri_parsed host w (parse_uri w.http))
      (stage_headers host w)
      (uri_parsed-Advances host w (parse_uri w.http) (parse_uri_progress w.http))
      (λ d.
        After-map (stage_headers host w) (λ w' p. record { shrinks = p; taken = λ u. absurd (d u) })
          (stage_headers-Shrinks host w))
