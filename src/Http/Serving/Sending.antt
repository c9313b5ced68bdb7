-- ===== src/Http/Serving/Sending.antt =====
-- What `handleRead` does behind a request that was served: `handleWrite` and `reset`.
use light_agent_gateway.Common.{
  ℕ, ◌≡◌, refl, sym, ap, ap₂, ◌∙◌, subst, Bool, true, false, ◌&&◌, not, Option, none, some, [],
  ◌++◌, arith, inl, inr, by_if, if◌then◌else◌,
}
use light_agent_gateway.Common.Bytes.{Bytes}
use light_agent_gateway.Io.{Socket, writen_string}
use light_agent_gateway.Io.Writing.{
  Conserves, writen_string-conserves, NoneFails, writen_string-NoneFails,
  writen_string-NoneFails_left,
}
use light_agent_gateway.Http.{h_connected, parse_uri_state, finish_state, h_start}
use light_agent_gateway.Http.World.{
  Events, World, reset, separate_timer, handle_write, written, want_out,
}
use light_agent_gateway.Http.Serving.{
  respond, flush, non_empty, is_finished, more_input, is_disconnecting,
}

-- The reply is sent or kept, and nothing of what comes next is touched.
pub record Sent (w w' : World) : Type 0 where
  pub conserved : w'.socket.sent ++ w'.http.out_buffer ≡ w.socket.sent ++ w.http.out_buffer
  pub reads_kept : w'.socket.reads ≡ w.socket.reads
  pub same_input : w'.http.in_buffer ≡ w.http.in_buffer
  pub same_error : w'.http.error ≡ w.http.error
  pub same_connection : w'.http.connection_state ≡ w.http.connection_state
  pub same_counters : w'.counters ≡ w.counters
  pub writes_left : NoneFails w.socket.writes → NoneFails w'.socket.writes

-- The connection waits for the first byte of a request, as `reset` leaves it.
pub record IsWaiting (w : World) : Type 0 where
  pub at_uri : w.http.state ≡ parse_uri_state
  pub at_start : w.http.h_state ≡ h_start
  pub nothing_read : w.http.now_read_pos ≡ 0
  pub no_headers : w.http.headers ≡ []

Sent-refl : (w : World) → Sent w w
Sent-refl w = record {
  conserved = refl;
  reads_kept = refl;
  same_input = refl;
  same_error = refl;
  same_connection = refl;
  same_counters = refl;
  writes_left = λ n. n;
}

abbrev sent_on : World → Bytes → Socket → Events → World
sent_on w left s ev = record w {
  http = record (w.http) { out_buffer = left };
  socket = s;
  events = ev;
}

sent_on-Sent :
    (w : World) (left : Bytes) (s : Socket) (ev : Events)
    → s.reads ≡ w.socket.reads
    → s.sent ++ left ≡ w.socket.sent ++ w.http.out_buffer
    → (NoneFails w.socket.writes → NoneFails s.writes)
    → Sent w (sent_on w left s ev)
sent_on-Sent w left s ev r c n = record {
  conserved = c;
  reads_kept = r;
  same_input = refl;
  same_error = refl;
  same_connection = refl;
  same_counters = refl;
  writes_left = n;
}

pub written-Sent :
    (w : World) (r : Option ℕ × Bytes × Socket) (n : ℕ)
    → r.0 ≡ some n
    → Conserves w.socket w.http.out_buffer r
    → (NoneFails w.socket.writes → NoneFails r.2.writes)
    → Sent w (want_out (written w r)) × ((want_out (written w r)).http.state ≡ w.http.state)
written-Sent w (none, left, s) n e c f = ground (arith, e)
written-Sent w (some m, left, s) n e (reads, inl (_, c)) left_none =
    by_if (λ (u : World). Sent w u × (u.http.state ≡ w.http.state)) (non_empty left) _ _
      (λ _. (sent_on-Sent w left s (record (w.events) { epollout = true }) reads c left_none, refl))
      (λ _. (sent_on-Sent w left s w.events reads c left_none, refl))
written-Sent w (some m, left, s) n e (reads, inr (f, _, _)) left_none = ground (arith, f)

pub handle_write-connected :
    (w : World)
    → w.http.error ≡ false
    → w.http.connection_state ≡ h_connected
    → handle_write w ≡ want_out (written w (writen_string w.socket w.http.out_buffer))
unfolding handle_write
handle_write-connected w e c =
    let sent = want_out (written w (writen_string w.socket w.http.out_buffer)) in
    ap (λ b. if b then sent else w) {y = true} (ground (arith, e, c))

pub flush-Sent :
    (w : World)
    → w.http.error ≡ false
    → w.http.connection_state ≡ h_connected
    → NoneFails w.socket.writes
    → Sent w (flush w) × ((flush w).http.state ≡ w.http.state)
flush-Sent w e c n =
    by_if (λ (u : World). Sent w u × (u.http.state ≡ w.http.state)) (non_empty w.http.out_buffer) _
      _
      (λ _.
        let (k, s) = writen_string-NoneFails w.socket w.http.out_buffer n in
        subst (λ (u : World). Sent w u × (u.http.state ≡ w.http.state))
          (sym (handle_write-connected w e c))
          (written-Sent w (writen_string w.socket w.http.out_buffer) k s
            (writen_string-conserves w.socket w.http.out_buffer)
            (writen_string-NoneFails_left w.socket w.http.out_buffer)))
      (λ _. (Sent-refl w, refl))

reset-Sent : (w : World) → Sent w (reset w)
unfolding reset separate_timer
reset-Sent w = ground arith

reset-IsWaiting : (w : World) → IsWaiting (reset w)
unfolding reset separate_timer
reset-IsWaiting w = ground arith

Sent-trans : (u v w : World) → Sent u v → Sent v w → Sent u w
Sent-trans u v w s t = record {
  conserved = t.conserved ∙ s.conserved;
  reads_kept = t.reads_kept ∙ s.reads_kept;
  same_input = t.same_input ∙ s.same_input;
  same_error = t.same_error ∙ s.same_error;
  same_connection = t.same_connection ∙ s.same_connection;
  same_counters = t.same_counters ∙ s.same_counters;
  writes_left = λ n. t.writes_left (s.writes_left n);
}

if_true {ℓ} : {A : Type ℓ} (b : Bool) (x y : A) → b ≡ true → (if b then x else y) ≡ x
if_true b x y e = ground (arith, e)

if_false {ℓ} : {A : Type ℓ} (b : Bool) (x y : A) → b ≡ false → (if b then x else y) ≡ y
if_false b x y e = ground (arith, e)

pub respond-finished :
    (w : World)
    → w.http.error ≡ false
    → (not (flush w).http.error && is_finished (flush w).http.state) ≡ true
    → respond w ≡ (reset (flush w), more_input (reset (flush w)))
unfolding respond
respond-finished w e f = if_false w.http.error _ _ e ∙ if_true _ _ _ f

is_open_again :
    (v : World) → v.http.connection_state ≡ h_connected → more_input v ≡ non_empty v.http.in_buffer
is_open_again v c =
    ap (λ s. non_empty v.http.in_buffer && not (is_disconnecting s)) c ∙ ground arith

-- Behind a served request: the world, and whether there is more input.
pub respond-Sent :
    (w : World)
    → w.http.error ≡ false
    → w.http.connection_state ≡ h_connected
    → w.http.state ≡ finish_state
    → NoneFails w.socket.writes
    → Sent w (respond w).0 × IsWaiting (respond w).0 × ((respond w).1 ≡ non_empty w.http.in_buffer)
respond-Sent w e c f n =
    let (s, st) = flush-Sent w e c n in
    let r = reset-Sent (flush w) in
    let t = Sent-trans w (flush w) (reset (flush w)) s r in
    let g =
      respond-finished w e (ap₂ (λ x st. not x && is_finished st) (s.same_error ∙ e) (st ∙ f)) in
    subst (λ (x : World × Bool). Sent w x.0 × IsWaiting x.0 × (x.1 ≡ non_empty w.http.in_buffer))
      (sym g)
      (
        t,
        reset-IsWaiting (flush w),
        is_open_again (reset (flush w)) (t.same_connection ∙ c) ∙ ap non_empty t.same_input,
      )
