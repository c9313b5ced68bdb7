-- ===== src/Http/Serving/Exchange.antt =====
-- What a request that was answered leaves behind.
use light_agent_gateway.Common.{
  ◌≡◌, sym, ap, ap₂, ◌∙◌, subst, Bool, true, false, ◌&&◌, not, List, ◌++◌, arith, by_if,
}
use light_agent_gateway.Common.Bytes.{Bytes}
use light_agent_gateway.Io.{Socket, writen_string, ReadEvent}
use light_agent_gateway.Gateway.{Counters}
use light_agent_gateway.Io.Writing.{NoneFails}
use light_agent_gateway.Http.{h_connected, finish_state}
use light_agent_gateway.Http.World.{World, reset, separate_timer, written, want_out}
use light_agent_gateway.Http.Serving.{respond, flush, non_empty, is_finished}
use light_agent_gateway.Http.Serving.Sending.{
  IsWaiting, flush-Sent, handle_write-connected, respond-finished, respond-Sent,
}

-- What is left to be sent is waited for.
abbrev pub AsksToWrite : World → Type 0
AsksToWrite w = non_empty w.http.out_buffer ≡ true → w.events.epollout ≡ true

pub want_out-AsksToWrite : (w : World) → AsksToWrite (want_out w)
want_out-AsksToWrite w e = ground (arith, e)

flush-AsksToWrite :
    (w : World)
    → w.http.error ≡ false
    → w.http.connection_state ≡ h_connected
    → AsksToWrite (flush w)
flush-AsksToWrite w e c =
    by_if AsksToWrite (non_empty w.http.out_buffer) _ _
      (λ _.
        subst AsksToWrite (sym (handle_write-connected w e c))
          (want_out-AsksToWrite (written w (writen_string w.socket w.http.out_buffer))))
      (λ f t. ground (arith, f, t))

reset-AsksToWrite : (w : World) → AsksToWrite w → AsksToWrite (reset w)
unfolding reset separate_timer
reset-AsksToWrite w a e = ground (arith, a, e)

respond-AsksToWrite :
    (w : World)
    → w.http.error ≡ false
    → w.http.connection_state ≡ h_connected
    → w.http.state ≡ finish_state
    → NoneFails w.socket.writes
    → AsksToWrite (respond w).0
respond-AsksToWrite w e c f n =
    let (s, st) = flush-Sent w e c n in
    subst (λ (x : World × Bool). AsksToWrite x.0)
      (sym
        (respond-finished w e (ap₂ (λ x st. not x && is_finished st) (s.same_error ∙ e) (st ∙ f))))
      (reset-AsksToWrite (flush w) (flush-AsksToWrite w e c))

-- A request has been answered: `reply` stands behind what was to be sent, `rest` behind the request.
pub record IsAnswer (w : World) (counters : Counters) (reply rest : Bytes) (later : List ReadEvent)
    (u : World) : Type 0 where
  pub finished : u.http.state ≡ finish_state
  pub no_error : u.http.error ≡ false
  pub connected : u.http.connection_state ≡ h_connected
  pub same_socket : u.socket ≡ record (w.socket) { reads = later }
  pub output : u.http.out_buffer ≡ w.http.out_buffer ++ reply
  pub counted : u.counters ≡ counters
  pub input_left : u.http.in_buffer ≡ rest

-- What one request leaves behind: `reply` sent, or waiting to be sent, behind what was; nothing but
-- what followed the request; and a connection that waits for the next one.
pub record Exchanged (w : World) (counters : Counters) (reply rest : Bytes) (later : List ReadEvent)
    (w' : World) : Type 0 where
  pub sent : w'.socket.sent ++ w'.http.out_buffer ≡ w.socket.sent ++ (w.http.out_buffer ++ reply)
  pub counted : w'.counters ≡ counters
  pub input_left : w'.http.in_buffer ≡ rest
  pub reads_left : w'.socket.reads ≡ later
  pub is_waiting : IsWaiting w'
  pub no_error : w'.http.error ≡ false
  pub connected : w'.http.connection_state ≡ h_connected
  pub writes_left : NoneFails w'.socket.writes
  pub asks : AsksToWrite w'

pub respond-Exchanged :
    (w u : World) {counters : Counters} {reply rest : Bytes} {later : List ReadEvent}
    → NoneFails w.socket.writes
    → IsAnswer w counters reply rest later u
    → Exchanged w counters reply rest later (respond u).0 × ((respond u).1 ≡ non_empty rest)
respond-Exchanged w u n a =
    let n' = subst (λ (k : Socket). NoneFails k.writes) (sym a.same_socket) n in
    let (s, st, more) = respond-Sent u a.no_error a.connected a.finished n' in
    (
      record {
        sent = s.conserved ∙ ap₂ (λ (k : Socket) o. k.sent ++ o) a.same_socket a.output;
        counted = s.same_counters ∙ a.counted;
        input_left = s.same_input ∙ a.input_left;
        reads_left = s.reads_kept ∙ ap (λ (k : Socket). k.reads) a.same_socket;
        is_waiting = st;
        no_error = s.same_error ∙ a.no_error;
        connected = s.same_connection ∙ a.connected;
        writes_left = s.writes_left n';
        asks = respond-AsksToWrite u a.no_error a.connected a.finished n';
      },
      more ∙ ap non_empty a.input_left,
    )
