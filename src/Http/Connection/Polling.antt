-- ===== src/Http/Connection/Polling.antt =====
-- `handleConn` and `newEvent` on open connections: the poller's masks and the timer.
use light_agent_gateway.Common.{
  ℕ, suc, ◌≡◌, ◌≢◌, refl, sym, ap, ◌∙◌, Bool, true, false, ◌&&◌, not, some, if◌then◌else◌, ltb,
  arith, by_if, subst,
}
use light_agent_gateway.Timer.{TimeVal, add_timer}
use light_agent_gateway.Http.{h_connected}
use light_agent_gateway.Http.World.{Events, no_events, separate_timer}
use light_agent_gateway.Http.Connection.{
  Polled, default_event, same, events_eq, epoll_mod, epoll_add, start_timer, handle_conn, new_event,
  with_events, one_way, read_events, is_connected, default_keep_alive_time, default_expired_time,
  half,
}

-- The kernel's mask is the one that the channel remembers.
abbrev pub InSync : Polled → Type 0
InSync p = p.registered ≡ some p.last_events

same_sound : (a b : Bool) → same a b ≡ true → a ≡ b
same_sound true b e = sym e
same_sound false false e = refl
same_sound false true e = e

and_split : (a b : Bool) → (a && b) ≡ true → (a ≡ true) × (b ≡ true)
and_split true b e = (refl, e)
and_split false b e = ground (arith, e)

events_eq_sound : (a b : Events) → events_eq a b ≡ true → a ≡ b
events_eq_sound a b e =
    let (e1, f1) = and_split _ _ e in
    let (e2, f2) = and_split _ _ f1 in
    let (e3, f3) = and_split _ _ f2 in
    let (e4, f4) = and_split _ _ f3 in
    let (e5, f5) = and_split _ _ f4 in
    let (e6, f6) = and_split _ _ f5 in
    let (e7, e8) = and_split _ _ f6 in
    λ i. record {
      epollin = same_sound a.epollin b.epollin e1 i;
      epollout = same_sound a.epollout b.epollout e2 i;
      epollet = same_sound a.epollet b.epollet e3 i;
      epolloneshot = same_sound a.epolloneshot b.epolloneshot e4 i;
      epollpri = same_sound a.epollpri b.epollpri e5 i;
      epollrdhup = same_sound a.epollrdhup b.epollrdhup e6 i;
      epollerr = same_sound a.epollerr b.epollerr e7 i;
      epollhup = same_sound a.epollhup b.epollhup e8 i;
    }

-- The kernel waits for what the channel asks for, at the edge, never for both directions, and a timer
-- watches the connection.
pub record Watched (p q : Polled) : Type 0 where
  pub in_sync : InSync q
  pub asked : q.registered ≡ some q.world.events
  pub timer_linked : q.world.http.timer ≡ some p.next_timer
  pub next_number : q.next_timer ≡ suc p.next_timer

-- A timer is linked, and the masks are as they were.
record Started (p q : Polled) : Type 0 where
  same_registered : q.registered ≡ p.registered
  same_last : q.last_events ≡ p.last_events
  same_events : q.world.events ≡ p.world.events
  linked : q.world.http.timer ≡ some p.next_timer
  counted : q.next_timer ≡ suc p.next_timer

start_timer-Started :
    (now : TimeVal) (timeout : ℕ) (p : Polled)
    → ltb 0 timeout ≡ true
    → Started p (start_timer now timeout p)
unfolding start_timer add_timer
start_timer-Started now timeout p t =
    by_if (Started p) (ltb 0 timeout) _ _
      (λ _. record {
        same_registered = refl;
        same_last = refl;
        same_events = refl;
        linked = refl;
        counted = refl;
      })
      (λ f. absurd (ground (arith, t, f)))

updated-Watched :
    (p q : Polled)
    → Started p q
    → InSync p
    → Watched p (
        if events_eq q.last_events q.world.events
        then q
        else record q { last_events = q.world.events; registered = some q.world.events })
updated-Watched p q w s =
    by_if (Watched p) (events_eq q.last_events q.world.events) _ _
      (λ e. record {
        in_sync = w.same_registered ∙ (s ∙ ap some (sym w.same_last));
        asked =
            w.same_registered
            ∙ (s ∙ ap some (sym w.same_last ∙ events_eq_sound q.last_events q.world.events e));
        timer_linked = w.linked;
        next_number = w.counted;
      })
      (λ _. record {
        in_sync = refl;
        asked = refl;
        timer_linked = w.linked;
        next_number = w.counted;
      })

pub epoll_mod-Watched :
    (now : TimeVal) (timeout : ℕ) (p : Polled)
    → InSync p
    → ltb 0 timeout ≡ true
    → Watched p (epoll_mod true now timeout p)
unfolding epoll_mod
epoll_mod-Watched now timeout p s t =
    updated-Watched p (start_timer now timeout p) (start_timer-Started now timeout p t) s

-- The world as `handleConn` finds it behind `seperateTimer`.
abbrev pub separated : Polled → Polled
separated p = record p { world = separate_timer p.world }

separated-InSync : (p : Polled) → InSync p → InSync (separated p)
separated-InSync p s = s

abbrev pub IsOpen : Polled → Type 0
IsOpen p = (p.world.http.error ≡ false) × (p.world.http.connection_state ≡ h_connected)

-- `seperateTimer` leaves alone what `handleConn` tests.
pub separated_same :
    (p : Polled)
    → ((separated p).world.http.error ≡ p.world.http.error)
      × ((separated p).world.http.connection_state ≡ p.world.http.connection_state)
      × ((separated p).world.events ≡ p.world.events)
unfolding separate_timer
separated_same p = ground arith

start_timer-events :
    (now : TimeVal) (timeout : ℕ) (p : Polled)
    → (start_timer now timeout p).world.events ≡ p.world.events
unfolding start_timer
start_timer-events now timeout p =
    by_if (λ (q : Polled). q.world.events ≡ p.world.events) (ltb 0 timeout) _ _ (λ _. refl)
      (λ _. refl)

epoll_mod-events :
    (now : TimeVal) (timeout : ℕ) (p : Polled)
    → (epoll_mod true now timeout p).world.events ≡ p.world.events
unfolding epoll_mod
epoll_mod-events now timeout p =
    let q = start_timer now timeout p in
    by_if (λ (r : Polled). r.world.events ≡ p.world.events) (events_eq q.last_events q.world.events)
      _ _ (λ _. start_timer-events now timeout p) (λ _. start_timer-events now timeout p)

-- The mask is edge-triggered and asks for one direction.
abbrev pub IsOneWay : Events → Type 0
IsOneWay e = (e.epollet ≡ true) × ((e.epollin && e.epollout) ≡ false)

one_way-IsOneWay : (e : Events) → IsOneWay (one_way e)
one_way-IsOneWay e = ground arith

abbrev pub Settled : Polled → Polled → Type 0
Settled p q = Watched p q × IsOneWay q.world.events

pub same_start : (p p' q : Polled) → p'.next_timer ≡ p.next_timer → Watched p' q → Watched p q
same_start p p' q e w = ground (arith, e, w)

abbrev pub is_open : Polled → Bool
is_open p =
    not (separated p).world.http.error && is_connected (separated p).world.http.connection_state

pub closed : (p : Polled) → IsOpen p → is_open p ≢ false
closed p o f = ground (arith, o, f, separated_same p)

keep_alive_time :
    (p : Polled)
    → ltb 0 (
        if (separated p).world.http.keep_alive
        then default_keep_alive_time
        else default_expired_time)
      ≡ true
keep_alive_time p = ground arith

settle_with :
    (now : TimeVal) (timeout : ℕ) (p : Polled) (e : Events)
    → InSync p
    → ltb 0 timeout ≡ true
    → IsOneWay e
    → Settled p (epoll_mod true now timeout (with_events (separated p) e))
settle_with now timeout p e s t o = (
  same_start p (with_events (separated p) e) _ refl
      (epoll_mod-Watched now timeout (with_events (separated p) e) s t),
  subst IsOneWay (sym (epoll_mod-events now timeout (with_events (separated p) e))) o,
)

-- An open connection without an error is always watched behind `handleConn`, whatever its handlers asked
-- for: the kernel's mask is the channel's, edge-triggered, never for reading and writing at once, and
-- a new timer is linked to it. The mask was the channel's before, and `epoll_ctl` succeeds.
pub handle_conn-Settled :
    (now : TimeVal) (p : Polled) → InSync p → IsOpen p → Settled p (handle_conn true now p)
unfolding handle_conn
handle_conn-Settled now p s o =
    by_if (Settled p) (is_open p) _ _
      (λ _.
        by_if (Settled p) (not (events_eq (separated p).world.events no_events)) _ _
          (λ _.
            settle_with now _ p (one_way (separated p).world.events) s (keep_alive_time p)
              (one_way-IsOneWay (separated p).world.events))
          (λ _.
            by_if (Settled p) (separated p).world.http.keep_alive _ _
              (λ _. settle_with now default_keep_alive_time p read_events s refl (refl, refl))
              (λ _.
                settle_with now (half default_keep_alive_time) p read_events s refl (refl, refl))))
      (λ f. absurd (closed p o f))

-- A new connection is watched for its first request: the kernel has the mask of the channel, both
-- tables point to the connection, and a timer is linked to it, where `epoll_ctl` succeeds.
new_event-Watched :
    (now : TimeVal) (p : Polled)
    → Watched p (new_event true now p)
      × ((new_event true now p).has_channel ≡ true)
      × ((new_event true now p).has_http ≡ true)
unfolding new_event epoll_add
new_event-Watched now p =
    let w = start_timer-Started now default_expired_time (with_events p default_event) refl in
    (
      record {
        in_sync = ap some w.same_events;
        asked = refl;
        timer_linked = w.linked;
        next_number = w.counted;
      },
      refl,
      refl,
    )
