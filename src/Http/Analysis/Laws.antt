-- ===== src/Http/Analysis/Laws.antt =====
-- Requests below api/: `analysisApiRequest` together with the gateway.
use light_agent_gateway.Common.{
  ◌≡◌, refl, sym, ap, ◌∙◌, true, false, Option, none, some, [], ◌∷◌, ◌++◌, ltb, leb, ◌&&◌, length,
  take_left, drop_left, length-append, arith, append-nil,
}
use light_agent_gateway.Common.Bytes.{Bytes, codes, is_prefix, is_prefix-append}
use light_agent_gateway.Gateway
use light_agent_gateway.Gateway.{Environment, Request, Response, Counters, handle, starts_with}
use light_agent_gateway.Gateway.Router.{is_some, handle_get_head, handle_counts}
use light_agent_gateway.Http.{
  HttpMethod, method_get, method_post, method_head, AnalysisState, analysis_success,
}
use light_agent_gateway.Http.Lookup.{is_keep_alive_requested, get_content_length}
use light_agent_gateway.Http.World.{World}
use light_agent_gateway.Http.Analysis.{
  Host, api_header, answer_api, replied, ask_gateway, analysis_api_request, analysis_request,
}

some_reply : {A : Type 0} (o : Option A) → is_some o ≡ true → (a : A) × (o ≡ some a)
some_reply none e = ground (arith, e)
some_reply (some a) e = (a, refl)

api_path : (name : Bytes) → b'/' ∷ (codes "api/" ++ name) ≡ codes "/api/" ++ name
unfolding codes
api_path name = refl

starts_with-api :
    (name : Bytes) → starts_with (b'/' ∷ (codes "api/" ++ name)) (codes "/api/") ≡ true
unfolding starts_with
starts_with-api name = rw (api_path name) (is_prefix-append (codes "/api/") name)

-- Below "/api/" the gateway always has a reply.
pub handle-answers :
    (env : Environment) (k : Counters) (method : Gateway.Method) (name body : Bytes)
    → (r : Response) × ((handle env k
          (record { method = method; path = b'/' ∷ (codes "api/" ++ name); body = body })).1
        ≡ some r)
handle-answers env k method name body = some_reply _ (
    (handle_counts env k
      (record { method = method; path = b'/' ∷ (codes "api/" ++ name); body = body })).0
    ∙ starts_with-api name)

pub api_test :
    (name : Bytes)
    → (leb 4 (length (codes "api/" ++ name)) && is_prefix (codes "api/") (codes "api/" ++ name))
      ≡ true
unfolding codes
api_test name = ground (arith, is_prefix-append (codes "api/") name)

pub enough : (body rest : Bytes) → ltb (length (body ++ rest)) (length body) ≡ false
enough body rest = ground (arith, length-append body rest)

abbrev pub posted : World → Bytes → Bytes → World
posted w name input = record w {
  http = record (w.http) {
    method = method_post;
    file_name = codes "api/" ++ name;
    in_buffer = input;
  };
}

abbrev pub request_of : Bytes → Bytes → Request
request_of name body = record {
  method = Gateway.post;
  path = b'/' ∷ (codes "api/" ++ name);
  body = body;
}

-- What a POST below api/ leaves when it is answered.
pub record Answered (host : Host) (w : World) (name body rest : Bytes)
    (result : AnalysisState × World) : Type 0 where
  pub reply : Response
  pub is_reply : (handle host.environment w.counters (request_of name body)).1 ≡ some reply
  pub succeeds : result.0 ≡ analysis_success
  pub input_left : result.1.http.in_buffer ≡ rest
  pub output :
      result.1.http.out_buffer
      ≡ w.http.out_buffer ++ (api_header (posted w name (body ++ rest)).http reply ++ reply.body)
  pub counted : result.1.counters ≡ (handle host.environment w.counters (request_of name body)).0
  pub same_error : result.1.http.error ≡ w.http.error
  pub same_connection : result.1.http.connection_state ≡ w.http.connection_state
  pub same_socket : result.1.socket ≡ w.socket

replied-Answered :
    (host : Host) (w : World) (name body rest : Bytes) (p : Counters × Option Response)
    → handle host.environment w.counters (request_of name body) ≡ p
    → (r : Response) → p.1 ≡ some r
    → Answered host w name body rest (replied (posted w name (body ++ rest)) (some (length body)) p)
unfolding answer_api
replied-Answered host w name body rest (k, none) e r s = ground (arith, s)
replied-Answered host w name body rest (k, some r') e r s = record {
  reply = r';
  is_reply = ap (λ p. p.1) e;
  succeeds = refl;
  input_left = drop_left (length body) body rest refl;
  output = refl;
  counted = sym (ap (λ p. p.0) e);
  same_error = refl;
  same_connection = refl;
  same_socket = refl;
}

-- A POST below api/ whose whole body has arrived, with anything behind it, is always answered: the gateway
-- is asked with exactly the body, its reply goes out behind what was waiting, with its header, and what
-- stands behind the body is left in the input buffer for the next request.
pub analysis_request-Answered :
    (host : Host) (w : World) (name body rest : Bytes)
    → get_content_length (posted w name (body ++ rest)).http ≡ some (length body)
    → Answered host w name body rest (analysis_request host (posted w name (body ++ rest)))
unfolding analysis_request analysis_api_request ask_gateway
analysis_request-Answered host w name body rest c =
    rw (api_test name, c, enough body rest, take_left (length body) body rest refl)
      (let (r, e) = handle-answers host.environment w.counters Gateway.post name body in
        replied-Answered host w name body rest
          (handle host.environment w.counters (request_of name body)) refl r e)

abbrev pub asked : World → HttpMethod → Bytes → World
asked w method name = record w {
  http = record (w.http) { method = method; file_name = codes "api/" ++ name };
}

abbrev pub asked_of : Gateway.Method → Bytes → Request
asked_of method name = record { method = method; path = b'/' ∷ (codes "api/" ++ name); body = [] }

-- The replies to GET and to HEAD: the gateway's reply to the GET, with its header, and with its body for the
-- GET alone.
pub record SameHead (host : Host) (w : World) (name : Bytes) (whole headed : AnalysisState × World)
    : Type 0 where
  pub reply : Response
  pub is_reply : (handle host.environment w.counters (asked_of Gateway.get name)).1 ≡ some reply
  pub both_succeed : (whole.0 ≡ analysis_success) × (headed.0 ≡ analysis_success)
  pub with_body :
      whole.1.http.out_buffer
      ≡ w.http.out_buffer ++ (api_header (asked w method_get name).http reply ++ reply.body)
  pub without_body :
      headed.1.http.out_buffer
      ≡ w.http.out_buffer ++ api_header (asked w method_get name).http reply
  pub counted :
      (whole.1.counters ≡ (handle host.environment w.counters (asked_of Gateway.get name)).0)
      × (headed.1.counters ≡ whole.1.counters)
  pub no_input_taken :
      (whole.1.http.in_buffer ≡ w.http.in_buffer) × (headed.1.http.in_buffer ≡ w.http.in_buffer)

same_header :
    (w : World) (name : Bytes) (r : Response)
    → api_header (asked w method_get name).http r ≡ api_header (asked w method_head name).http r
unfolding api_header is_keep_alive_requested
same_header w name r = refl

replied-SameHead :
    (host : Host) (w : World) (name : Bytes) (p : Counters × Option Response)
    → handle host.environment w.counters (asked_of Gateway.get name) ≡ p
    → (r : Response) → p.1 ≡ some r
    → SameHead host w name
        (replied (asked w method_get name) none p)
        (replied (asked w method_head name) none p)
unfolding answer_api
replied-SameHead host w name (k, none) e r s = ground (arith, s)
replied-SameHead host w name (k, some r') e r s = record {
  reply = r';
  is_reply = ap (λ p. p.1) e;
  both_succeed = (refl, refl);
  with_body = refl;
  without_body =
      ap (λ x. w.http.out_buffer ++ x)
        (append-nil (api_header (asked w method_head name).http r') ∙ sym (same_header w name r'));
  counted = (sym (ap (λ p. p.0) e), refl);
  no_input_taken = (refl, refl);
}

-- For any path below api/, GET and HEAD on the same connection both succeed. The reply to GET is the
-- header of the gateway's reply, with its status and the length of its body, and then that body; the reply to
-- HEAD is the same header, with the length of the body that the GET gets, and nothing else. Both leave
-- the same counters, those of the gateway's reply to the GET, and neither takes input.
pub analysis_request-SameHead :
    (host : Host) (w : World) (name : Bytes)
    → SameHead host w name
        (analysis_request host (asked w method_get name))
        (analysis_request host (asked w method_head name))
unfolding analysis_request analysis_api_request ask_gateway
analysis_request-SameHead host w name =
    let (r, e) = handle-answers host.environment w.counters Gateway.get name [] in
    let p = handle host.environment w.counters (asked_of Gateway.get name) in
    rw
      (
        api_test name,
        sym (handle_get_head host.environment w.counters (b'/' ∷ (codes "api/" ++ name)) []),
      )
      (replied-SameHead host w name p refl r e)
