-- ===== src/Http/Connection/Cycle.antt =====
-- One event on a connection, from the poller's report to the mask that waits for the next one.
use light_agent_gateway.Common.{
  ℕ, ◌≡◌, refl, sym, ap, ap₂, ◌∙◌, Bool, true, false, not, List, [], ◌∷◌, ◌++◌, arith, by_if, All,
}
use light_agent_gateway.Common.Bytes.{Bytes}
use light_agent_gateway.Timer.{TimeVal}
use light_agent_gateway.Io.{ReadEvent, read_again, Socket}
use light_agent_gateway.Io.Writing.{NoneFails}
use light_agent_gateway.Io.Reading.{Burst}
use light_agent_gateway.Gateway.{Counters}
use light_agent_gateway.Http.{done}
use light_agent_gateway.Http.World.{Events, no_events, separate_timer, World}
use light_agent_gateway.Http.Analysis.{Host}
use light_agent_gateway.Http.Serving.{handle_read, non_empty}
use light_agent_gateway.Http.Serving.Sending.{IsWaiting}
use light_agent_gateway.Http.Serving.Exchange.{AsksToWrite}
use light_agent_gateway.Http.Serving.Parsing.{waiting}
use light_agent_gateway.Http.Serving.Requests.{Request, IsRequest}
use light_agent_gateway.Http.Serving.Pipeline.{
  texts, calls, replies, all_counted, nothing_more, pipelined,
}
use light_agent_gateway.Http.Connection.Polling.{
  InSync, IsOpen, Settled, handle_conn-Settled, separated, is_open, closed, same_start,
}
use light_agent_gateway.Http.Connection.{
  Polled, events_eq, epoll_mod, start_timer, handle_conn, handle_events, with_events, one_way,
  read_events, default_keep_alive_time, half,
}

-- `handleConn` touches neither what was read nor what is to be sent, and it does not stop waiting for
-- the socket to be writable.
pub record Kept (v w : World) : Type 0 where
  pub same_socket : w.socket ≡ v.socket
  pub same_output : w.http.out_buffer ≡ v.http.out_buffer
  pub same_input : w.http.in_buffer ≡ v.http.in_buffer
  pub same_counters : w.counters ≡ v.counters
  pub same_error : w.http.error ≡ v.http.error
  pub same_connection : w.http.connection_state ≡ v.http.connection_state
  pub waits : IsWaiting v → IsWaiting w
  pub asks : v.events.epollout ≡ true → w.events.epollout ≡ true

pub Kept-trans : {u v w : World} → Kept u v → Kept v w → Kept u w
Kept-trans j k = record {
  same_socket = k.same_socket ∙ j.same_socket;
  same_output = k.same_output ∙ j.same_output;
  same_input = k.same_input ∙ j.same_input;
  same_counters = k.same_counters ∙ j.same_counters;
  same_error = k.same_error ∙ j.same_error;
  same_connection = k.same_connection ∙ j.same_connection;
  waits = λ i. k.waits (j.waits i);
  asks = λ e. k.asks (j.asks e);
}

pub separate_timer-Kept : (w : World) → Kept w (separate_timer w)
unfolding separate_timer
separate_timer-Kept w = ground arith

start_timer-Kept :
    (now : TimeVal) (timeout : ℕ) (p : Polled) → Kept p.world (start_timer now timeout p).world
unfolding start_timer
start_timer-Kept now timeout p = ground arith

epoll_mod-Kept :
    (ok : Bool) (now : TimeVal) (timeout : ℕ) (p : Polled)
    → Kept p.world (epoll_mod ok now timeout p).world
unfolding epoll_mod
epoll_mod-Kept ok now timeout p =
    let q = start_timer now timeout p in
    let k = start_timer-Kept now timeout p in
    by_if (λ (r : Polled). Kept p.world r.world) (events_eq q.last_events q.world.events) _ _
      (λ _. k) (λ _. by_if (λ (r : Polled). Kept p.world r.world) ok _ _ (λ _. k) (λ _. k))

with_events-Kept :
    (p : Polled) (e : Events)
    → (p.world.events.epollout ≡ true → e.epollout ≡ true)
    → Kept p.world (with_events p e).world
with_events-Kept p e a = record {
  same_socket = refl;
  same_output = refl;
  same_input = refl;
  same_counters = refl;
  same_error = refl;
  same_connection = refl;
  waits = λ i. record {
    at_uri = i.at_uri;
    at_start = i.at_start;
    nothing_read = i.nothing_read;
    no_headers = i.no_headers;
  };
  asks = a;
}

one_way-asks : (e : Events) → e.epollout ≡ true → (one_way e).epollout ≡ true
one_way-asks e a = ground (arith, a)

no_events_lem :
    (e : Events)
    → not (events_eq e no_events) ≡ false
    → e.epollout ≡ true
    → read_events.epollout ≡ true
no_events_lem e f a = ground (arith, f, a)

pub handle_conn-Kept :
    (ok : Bool) (now : TimeVal) (p : Polled) → IsOpen p → Kept p.world (handle_conn ok now p).world
unfolding handle_conn
handle_conn-Kept ok now p o =
    let q = separated p in
    let modified =
      λ (timeout : ℕ) (e : Events) (a : q.world.events.epollout ≡ true → e.epollout ≡ true).
        Kept-trans (separate_timer-Kept p.world)
          (Kept-trans (with_events-Kept q e a) (epoll_mod-Kept ok now timeout (with_events q e))) in
    by_if (λ (r : Polled). Kept p.world r.world) (is_open p) _ _
      (λ _.
        by_if (λ (r : Polled). Kept p.world r.world) (not (events_eq q.world.events no_events)) _ _
          (λ _. modified _ (one_way q.world.events) (one_way-asks q.world.events))
          (λ f.
            by_if (λ (r : Polled). Kept p.world r.world) q.world.http.keep_alive _ _
              (λ _. modified default_keep_alive_time read_events (no_events_lem q.world.events f))
              (λ _.
                modified (half default_keep_alive_time) read_events
                  (no_events_lem q.world.events f))))
      (λ f. absurd (closed p o f))

-- What one event with requests leaves: the replies sent or waiting to be sent, the connection waiting for the
-- next request, and the kernel waiting, with a timer, for what is needed: for the socket to be writable
-- where output is left.
pub record Cycled (p : Polled) (counters : Counters) (sent : Bytes) (later : List ReadEvent)
    (q : Polled) : Type 0 where
  pub all_sent : q.world.socket.sent ++ q.world.http.out_buffer ≡ sent
  pub counted : q.world.counters ≡ counters
  pub no_input : q.world.http.in_buffer ≡ []
  pub reads_left : q.world.socket.reads ≡ later
  pub waits : IsWaiting q.world
  pub settled : Settled p q
  pub asks : AsksToWrite q.world

-- The mask with which the kernel reports input, and nothing else that is handled.
pub record IsInput (e : Events) : Type 0 where
  pub input : e.epollin ≡ true
  pub no_output : e.epollout ≡ false
  pub no_error : e.epollerr ≡ false

pub cycle :
    (fuel : ℕ) (host : Host) (now : TimeVal) (rev : Events) (p : Polled) (w' : World)
    → IsInput rev
    → handle_read fuel host (with_events p no_events).world ≡ done w'
    → handle_events fuel host true now rev p ≡ done (handle_conn true now (record p { world = w' }))
unfolding handle_events
cycle fuel host now rev p w' i h = rw (i.input, i.no_error, i.no_output, h) (ground arith)

abbrev pub with_reads : Polled → Bytes → List ReadEvent → Polled
with_reads p buffered reads = record p { world = waiting p.world buffered reads }

-- The kernel reports input on a connection that is open, waits for a request and holds no headers; the
-- input is well-formed requests, POSTs, GETs and HEADs below api/ and GETs of files in any order, back
-- to back, the first of them partly read before; the kernel's mask is the one that the channel
-- remembers; and neither `epoll_ctl` nor a write fails. Then `handleEvents` returns; what went out and
-- what waits to be sent are, behind what was to be sent before, the replies that the requests get one by
-- one, in order, and the counters are theirs; no input is left; the connection waits for the next
-- request; the kernel's mask is the channel's, edge-triggered and for one direction, which is writing
-- where output is left; and a new timer is linked to the connection.
pub handle_events-Cycled :
    (fuel : ℕ) (host : Host) (now : TimeVal) (rev : Events) (p : Polled) (r : Request)
    (rs : List Request) (buffered : Bytes) {es : List ReadEvent} {bytes : Bytes}
    (later : List ReadEvent)
    → IsInput rev
    → InSync p
    → All (IsRequest host) (r ∷ rs)
    → Burst es bytes
    → buffered ++ bytes ≡ texts (r ∷ rs) []
    → p.world.http.headers ≡ []
    → NoneFails p.world.socket.writes
    → (q : Polled) × (handle_events
          (calls (r ∷ rs) fuel)
          host
          true
          now
          rev
          (with_reads p buffered (es ++ read_again ∷ nothing_more rs later))
        ≡ done q)
      × Cycled p
          (all_counted host p.world.counters (r ∷ rs))
          (p.world.socket.sent
            ++ (p.world.http.out_buffer ++ replies host p.world.counters (r ∷ rs)))
          later
          q
handle_events-Cycled fuel host now rev p r rs buffered {es} later i s rq b t e n =
    let start = with_reads p buffered (es ++ read_again ∷ nothing_more rs later) in
    let (w', h, x) =
      pipelined fuel host (with_events p no_events).world r rs [] buffered later rq b t e n in
    let p' : Polled = record p { world = w' } in
    let q = handle_conn true now p' in
    let k = handle_conn-Kept true now p' (x.no_error, x.connected) in
    let (watched, one) = handle_conn-Settled now p' s (x.no_error, x.connected) in
    (
      q,
      cycle (calls (r ∷ rs) fuel) host now rev start w' i h,
      record {
        all_sent = ap₂ (λ (c : Socket) o. c.sent ++ o) k.same_socket k.same_output ∙ x.sent;
        counted = k.same_counters ∙ x.counted;
        no_input = k.same_input ∙ x.input_left;
        reads_left = ap (λ (c : Socket). c.reads) k.same_socket ∙ x.reads_left;
        waits = k.waits x.is_waiting;
        settled = (same_start p p' q refl watched, one);
        asks = λ o. k.asks (x.asks (ap non_empty (sym k.same_output) ∙ o));
      },
    )
