-- ===== src/Http/Connection/Output.antt =====
-- An event on a connection with output left.
use light_agent_gateway.Common.{
  ℕ, zero, suc, ◌≡◌, ◌≤◌, ◌<◌, refl, sym, ap, ap₂, ◌∙◌, subst, Bool, true, false, Option, none,
  some, List, [], ◌∷◌, ◌++◌, length, arith, append-nil,
}
use light_agent_gateway.Common.Bytes.{Bytes}
use light_agent_gateway.Timer.{TimeVal}
use light_agent_gateway.Io.{WriteEvent, accepted, Socket, writen_string}
use light_agent_gateway.Io.Writing.{
  NoneFails, writen_string-conserves, writen_string-NoneFails, writen_string-NoneFails_left,
  writen_string-shrinks, writen_string-left,
}
use light_agent_gateway.Http.{h_connected, done}
use light_agent_gateway.Http.World.{Events, no_events, World, handle_write, written, want_out}
use light_agent_gateway.Http.Analysis.{Host}
use light_agent_gateway.Http.Serving.{non_empty}
use light_agent_gateway.Http.Serving.Sending.{Sent, written-Sent, handle_write-connected}
use light_agent_gateway.Http.Serving.Exchange.{AsksToWrite, want_out-AsksToWrite}
use light_agent_gateway.Http.Connection.Polling.{InSync, IsOpen, handle_conn-Settled}
use light_agent_gateway.Http.Connection.Cycle.{handle_conn-Kept}
use light_agent_gateway.Http.Connection.{Polled, handle_conn, handle_events, with_events}

-- The mask with which the kernel reports that the socket is writable, and nothing else.
pub record IsOutput (e : Events) : Type 0 where
  pub output : e.epollout ≡ true
  pub no_input : e.epollin ≡ false
  pub not_urgent : e.epollpri ≡ false
  pub not_half_closed : e.epollrdhup ≡ false
  pub not_closed : e.epollhup ≡ false
  pub no_error : e.epollerr ≡ false

abbrev pub with_writes : Polled → List WriteEvent → Polled
with_writes p ws = record p {
  world = record (p.world) { socket = record (p.world.socket) { writes = ws } };
}

-- The world behind `handleWrite`.
abbrev wrote : Polled → World
wrote p = handle_write (with_events p no_events).world

handle_events-output :
    (fuel : ℕ) (host : Host) (now : TimeVal) (rev : Events) (p : Polled)
    → IsOutput rev
    → handle_events fuel host true now rev p
      ≡ done (handle_conn true now (record p { world = wrote p }))
unfolding handle_events
handle_events-output fuel host now rev p o =
    rw (o.output, o.no_input, o.not_urgent, o.not_half_closed, o.not_closed, o.no_error) refl

written-left :
    (w : World) (r : Option ℕ × Bytes × Socket) → (want_out (written w r)).http.out_buffer ≡ r.1
written-left w (none, left, s) = ground arith
written-left w (some n, left, s) = ground arith

-- What `handleWrite` has done: bytes went from the buffer to the socket.
record Wrote (w u : World) : Type 0 where
  sent : Sent w u
  left : u.http.out_buffer ≡ (writen_string w.socket w.http.out_buffer).1
  asks : AsksToWrite u

handle_write-Wrote :
    (w : World)
    → w.http.error ≡ false
    → w.http.connection_state ≡ h_connected
    → NoneFails w.socket.writes
    → Wrote w (handle_write w)
handle_write-Wrote w e c n =
    let r = writen_string w.socket w.http.out_buffer in
    let (k, s) = writen_string-NoneFails w.socket w.http.out_buffer n in
    subst (Wrote w) (sym (handle_write-connected w e c)) (record {
      sent =
          (written-Sent w r k s (writen_string-conserves w.socket w.http.out_buffer)
            (writen_string-NoneFails_left w.socket w.http.out_buffer)).0;
      left = written-left w r;
      asks = want_out-AsksToWrite (written w r);
    })

-- Whether the kernel is to report that the socket is writable.
abbrev pub kernel_asks : Polled → Bool
kernel_asks p = elim p.registered [ none ↦ false | some e ↦ e.epollout ]

-- An open connection, of which the kernel is asked to report when the rest of the output can go out.
pub record IsSending (p : Polled) : Type 0 where
  pub open_ : IsOpen p
  pub in_sync : InSync p
  pub asks : non_empty p.world.http.out_buffer ≡ true → kernel_asks p ≡ true

-- A socket that takes at least one byte when it is reported, and does not fail.
pub record IsTaking (ws : List WriteEvent) : Type 0 where
  pub first : ℕ
  pub others : List WriteEvent
  pub takes : ws ≡ accepted (suc first) ∷ others
  pub none_fails : NoneFails ws

abbrev pub output : Polled → Bytes
output p = p.world.http.out_buffer

pub record Shrunk (p q : Polled) : Type 0 where
  pub conserved : q.world.socket.sent ++ output q ≡ p.world.socket.sent ++ output p
  pub no_more : length (output q) ≤ length (output p)
  pub less : 0 < length (output p) → length (output q) < length (output p)
  pub is_sending : IsSending q

-- The connection behind `handleWrite`, and behind the whole event.
abbrev pub written_out : Polled → List WriteEvent → Polled
written_out p ws =
    let v = with_writes p ws in record v { world = handle_write (with_events v no_events).world }

abbrev pub event_out : TimeVal → Polled → List WriteEvent → Polled
event_out now p ws = handle_conn true now (written_out p ws)

pub output_event :
    (host : Host) (now : TimeVal) (rev : Events) (p : Polled) (ws : List WriteEvent)
    → IsOutput rev
    → IsSending p
    → IsTaking ws
    → (handle_events 0 host true now rev (with_writes p ws) ≡ done (event_out now p ws))
      × Shrunk p (event_out now p ws)
      × IsOpen (written_out p ws)
output_event host now rev p ws o i t =
    let v = with_writes p ws in
    let w : World = (with_events v no_events).world in
    let r = handle_write-Wrote w i.open_.0 i.open_.1 t.none_fails in
    let p' : Polled = record v { world = handle_write w } in
    let open' : IsOpen p' = (r.sent.same_error ∙ i.open_.0, r.sent.same_connection ∙ i.open_.1) in
    let k = handle_conn-Kept true now p' open' in
    let (watched, one) = handle_conn-Settled now p' i.in_sync open' in
    let size = ap length (k.same_output ∙ r.left) in
    (
      handle_events-output 0 host now rev v o,
      record {
        conserved =
            ap₂ (λ (c : Socket) x. c.sent ++ x) k.same_socket k.same_output ∙ r.sent.conserved;
        no_more =
            subst (λ n. n ≤ length (output p)) (sym size) (writen_string-left w.socket (output p));
        less = λ l.
            subst (λ n. n < length (output p)) (sym size)
              (writen_string-shrinks w.socket t.first t.others (output p) t.takes t.none_fails l);
        is_sending = record {
          open_ = (k.same_error ∙ open'.0, k.same_connection ∙ open'.1);
          in_sync = watched.in_sync;
          asks = λ e.
              ap (λ m. elim m [ none ↦ false | some x ↦ x.epollout ]) watched.asked
              ∙ k.asks (r.asks (ap non_empty (sym k.same_output) ∙ e));
        };
      },
      open',
    )

pub record Delivered (p q : Polled) : Type 0 where
  pub all_sent : q.world.socket.sent ≡ p.world.socket.sent ++ p.world.http.out_buffer
  pub none_left : q.world.http.out_buffer ≡ []
  pub stays : IsSending q

pub nothing_left : (xs : Bytes) → length xs ≤ 0 → xs ≡ []
nothing_left [] l = refl
nothing_left (x ∷ xs) l = absurd (omega (arith, l))

pub Delivered-refl : (p : Polled) → IsSending p → length (output p) ≤ 0 → Delivered p p
Delivered-refl p i l =
    let e = nothing_left (output p) l in
    record {
      all_sent = sym (append-nil p.world.socket.sent) ∙ ap (λ x. p.world.socket.sent ++ x) (sym e);
      none_left = e;
      stays = i;
    }

pub fewer : (a b n : ℕ) → b ≤ a → (0 < a → b < a) → a ≤ suc n → b ≤ n
fewer zero b n m f l = omega arith
fewer (suc a) b n m f l = omega (arith, f (omega arith))

pub unasked : (p : Polled) → IsSending p → kernel_asks p ≡ false → length (output p) ≤ 0
unasked p i f = go p.world.http.out_buffer i.asks
  where
    go : (xs : Bytes) → (non_empty xs ≡ true → kernel_asks p ≡ true) → length xs ≤ 0
    go [] a = omega arith
    go (x ∷ xs) a = absurd (ground (arith, a refl, f))
