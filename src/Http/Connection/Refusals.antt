-- ===== src/Http/Connection/Refusals.antt =====
-- Requests that are refused: the page, and the end of the connection.
mod Tests
use light_agent_gateway.Common.{
  ℕ, suc, ◌+◌, ◌≡◌, ◌≤◌, ◌<◌, refl, sym, ap, ◌∙◌, subst, Bool, true, false, ◌&&◌, Option, none,
  some, List, [], ◌∷◌, ◌++◌, length, leb, arith, inl, by_if, append_assoc,
}
use light_agent_gateway.Common.Bytes.{Bytes, codes, is_prefix, bytes_eq}
use light_agent_gateway.Timer.{TimeVal}
use light_agent_gateway.Gateway.{Counters}
use light_agent_gateway.Io.{ReadEvent, read_again, WriteEvent, accepted, Socket, writen}
use light_agent_gateway.Io.Reading.{Burst}
use light_agent_gateway.Io.Whole.{writen-whole}
use light_agent_gateway.Http.{HttpVersion, method_post, analysis_state, done}
use light_agent_gateway.Http.HeaderMap.{insert_all}
use light_agent_gateway.Http.Lookup.{is_keep_alive_requested, get_content_length, content_length_in}
use light_agent_gateway.Http.World.{
  World, Events, no_events, handle_error, error_header, error_body,
}
use light_agent_gateway.Http.Analysis.{Host, analysis_request, serve_file, not_found, kept_alive}
use light_agent_gateway.Http.Serving.Parsing.{
  waiting, Field, Head, IsHead, fields_of, head_text, parsed, read_request-parsed,
}
use light_agent_gateway.Http.World.Page.{error_page, TakesPage}
use light_agent_gateway.Http.Serving.Refusals.{
  Refusal, IsRefusal, text_of, err_num_of, short_msg_of, Refused, handle_read-Refused,
}
use light_agent_gateway.Http.Serving.{
  stage_body, stage_analysis, behind_headers, handle_read, respond, fail, analysed, with_state,
}
use light_agent_gateway.Http.Connection.Closing.{
  Closed, IsOver, handle_conn-Closed, not_open, not_half_closed, half_closed,
}
use light_agent_gateway.Http.Connection.Polling.{separated, is_open}
use light_agent_gateway.Http.Connection.Cycle.{IsInput, with_reads, cycle, separate_timer-Kept}
use light_agent_gateway.Http.Connection.{
  Polled, handle_conn, handle_events, with_events, handle_close, epoll_del,
}

-- What `handleConn` keeps of a connection that it gives up.
record Abandoned (p q : Polled) : Type 0 where
  same_sent : q.world.socket.sent ≡ p.world.socket.sent
  same_output : q.world.http.out_buffer ≡ p.world.http.out_buffer
  same_counters : q.world.counters ≡ p.world.counters

handle_conn-Abandoned :
    (now : TimeVal) (p : Polled) → IsOver p → Abandoned p (handle_conn true now p)
unfolding handle_conn handle_close epoll_del
handle_conn-Abandoned now p o =
    let k = separate_timer-Kept p.world in
    by_if (Abandoned p) (is_open p) _ _ (λ f. absurd (not_open p o f))
      (λ _.
        by_if (Abandoned p) (half_closed p) _ _ (λ f. absurd (not_half_closed p o f))
          (λ _. record {
            same_sent = ap (λ (c : Socket). c.sent) k.same_socket;
            same_output = k.same_output;
            same_counters = k.same_counters;
          }))

-- What one event with a refused request leaves.
pub record Dismissed (p : Polled) (err_num : ℕ) (short_msg : Bytes) (q : Polled) : Type 0 where
  pub page : q.world.socket.sent ≡ p.world.socket.sent ++ error_page err_num short_msg
  pub unsent : q.world.http.out_buffer ≡ p.world.http.out_buffer
  pub same_counters : q.world.counters ≡ p.world.counters
  pub closed : Closed q

-- The kernel reports input on a connection that is open and waits for a request; the input is the head of
-- a well-formed POST without a content length, or of a well-formed GET of a file that is not there, by a
-- name that is not empty, neither below api/ nor "hello" nor "favicon.ico"; or the input is a line with none of the three methods' names and its return, with anything behind it, partly read
-- before; the socket takes the header and the body of the error's page whole; and `epoll_ctl`
-- succeeds. Then `handleEvents` returns; the page, with 400 or 404, went out behind what went out before,
-- and nothing else did; the counters stay; and the connection is closed: disconnected, in neither
-- table, and without a mask in the kernel. The rest of an earlier reply that waited to be sent is still in
-- the output buffer then: the page went out before it, and it is lost.
pub handle_events-Dismissed :
    (fuel : ℕ) (host : Host) (now : TimeVal) (rev : Events) (p : Polled) (r : Refusal)
    (content buffered : Bytes) {es : List ReadEvent} {bytes : Bytes} (later : List ReadEvent)
    → IsInput rev
    → IsRefusal host p.world.http.headers r
    → Burst es bytes
    → buffered ++ bytes ≡ text_of r content
    → TakesPage p.world.socket.writes (err_num_of r) (short_msg_of r)
    → (q : Polled) × (handle_events
          (suc fuel)
          host
          true
          now
          rev
          (with_reads p buffered (es ++ read_again ∷ later))
        ≡ done q)
      × Dismissed p (err_num_of r) (short_msg_of r) q
handle_events-Dismissed fuel host now rev p r content buffered {es} later i rf b e t =
    let start = with_reads p buffered (es ++ read_again ∷ later) in
    let (u, h, x) =
      handle_read-Refused fuel host (with_events p no_events).world r content buffered later rf b e
        t in
    let p' : Polled = record p { world = u } in
    let a = handle_conn-Abandoned now p' (inl x.fails) in
    (
      handle_conn true now p',
      cycle (suc fuel) host now rev start u i h,
      record {
        page = a.same_sent ∙ x.page;
        unsent = a.same_output ∙ x.same_output;
        same_counters = a.same_counters ∙ x.same_counters;
        closed = handle_conn-Closed now p' (inl x.fails);
      },
    )
