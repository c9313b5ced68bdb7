-- ===== src/Epoll/Handlers.antt =====
-- What the handlers of one connection leave in the poller's hands.
use light_agent_gateway.Common.{
  ℕ, ◌≡◌, ◌⊎◌, refl, sym, ap, ◌∙◌, Bool, true, ◌&&◌, ◌||◌, not, Option, none, some, if◌then◌else◌,
  ltb, arith, by_if, Bool-cases, inl, inr,
}
use light_agent_gateway.Timer.{TimeVal}
use light_agent_gateway.Http.{Run, done, undefined, exhausted}
use light_agent_gateway.Http.World.{Events, World, no_events, separate_timer, handle_write}
use light_agent_gateway.Http.Analysis.{Host}
use light_agent_gateway.Http.Serving.{handle_read}
use light_agent_gateway.Epoll.{channel_of, unarmed, disarmed, disarm}
use light_agent_gateway.Http.Connection.{
  Polled, with_events, start_timer, events_eq, epoll_add, epoll_mod, epoll_del, handle_close,
  new_event, handle_conn, handle_events, is_connected, is_disconnecting, default_keep_alive_time,
  default_expired_time, read_events, half, one_way, on_world, finish_events,
}

-- The kernel's mask is the one that the channel remembers, or that is one-shot and has been reported.
abbrev pub Watches : Option Events → Events → Type 0
Watches registered last =
    (registered ≡ some last) ⊎ ((last.epolloneshot ≡ true) × (registered ≡ some (unarmed last)))

-- Where the table points to the channel, the kernel watches it with the mask that it remembers.
abbrev pub Consistent : Polled → Type 0
Consistent p = p.has_channel ≡ true → Watches p.registered p.last_events

-- The poller's part of a connection.
SamePoller : Polled → Polled → Type 0
SamePoller p q =
    (q.has_channel ≡ p.has_channel)
    × (q.registered ≡ p.registered)
    × (q.last_events ≡ p.last_events)

same_Consistent : (p q : Polled) → SamePoller p q → Consistent p → Consistent q
unfolding SamePoller
same_Consistent p q (a, b, c) k h = rw (b, c) (k (sym a ∙ h))

start_timer-SamePoller :
    (now : TimeVal) (timeout : ℕ) (p : Polled) → SamePoller p (start_timer now timeout p)
unfolding start_timer SamePoller
start_timer-SamePoller now timeout p =
    by_if (SamePoller p) (ltb 0 timeout) _ _ (λ e. (refl, refl, refl)) (λ e. (refl, refl, refl))

pub epoll_mod-Consistent :
    (ok : Bool) (now : TimeVal) (timeout : ℕ) (p : Polled)
    → Consistent p
    → Consistent (epoll_mod ok now timeout p)
unfolding epoll_mod
epoll_mod-Consistent ok now timeout p k =
    let p' = start_timer now timeout p in
    by_if Consistent (events_eq p'.last_events p'.world.events) _ _
      (λ e. same_Consistent p p' (start_timer-SamePoller now timeout p) k)
      (λ e. by_if Consistent ok _ _ (λ f h. inl refl) (λ f h. ground (arith, h)))

pub new_event-Consistent :
    (ok : Bool) (now : TimeVal) (p : Polled) → Consistent (new_event ok now p)
unfolding new_event epoll_add start_timer
new_event-Consistent ok now p = by_if Consistent ok _ _ (λ e h. inl refl) (λ e h. ground (arith, h))

pub handle_close-Consistent : (ok : Bool) (p : Polled) → Consistent (handle_close ok p)
unfolding handle_close epoll_del
handle_close-Consistent ok p h = ground (arith, h)

handle_conn-Consistent :
    (ok : Bool) (now : TimeVal) (p : Polled) → Consistent p → Consistent (handle_conn ok now p)
unfolding handle_conn
handle_conn-Consistent ok now p k =
    let q = record p { world = separate_timer p.world } in
    by_if Consistent (not q.world.http.error && is_connected q.world.http.connection_state) _ _
      (λ _.
        by_if Consistent (not (events_eq q.world.events no_events)) _ _
          (λ _.
            epoll_mod-Consistent ok now
              (if q.world.http.keep_alive then default_keep_alive_time else default_expired_time)
              (with_events q (one_way q.world.events)) k)
          (λ _.
            by_if Consistent q.world.http.keep_alive _ _
              (λ _.
                epoll_mod-Consistent ok now default_keep_alive_time (with_events q read_events) k)
              (λ _.
                epoll_mod-Consistent ok now (half default_keep_alive_time)
                  (with_events q read_events) k)))
      (λ _.
        by_if Consistent
          (not q.world.http.error
            && (is_disconnecting q.world.http.connection_state && q.world.events.epollout))
          _ _ (λ _. k) (λ _. handle_close-Consistent ok q))

-- A report may disarm the mask.
pub disarm-Consistent : (p : Polled) → Consistent p → Consistent (disarm p)
disarm-Consistent p k h =
    let m = p.last_events in
    let shot = λ (x : Events) (b : Bool). some (if b then unarmed x else x) in
    elim (k h) [
      | inl e ↦ elim (Bool-cases m.epolloneshot) [
        | inl o ↦ inr (o, ap disarmed e ∙ ap (shot m) o)
        | inr n ↦ inl (ap disarmed e ∙ ap (shot m) n)
      ]
      | inr (o, e) ↦ inr (o, ap disarmed e ∙ ap (shot (unarmed m)) o)
    ]

-- On a run that gives a value.
abbrev pub OnDone {ℓ κ} : {A : Type ℓ} → (A → Type κ) → Run A → Type κ
OnDone P (done a) = P a
OnDone P _ = Unit

on_world-Consistent : (r : Run World) (p : Polled) → Consistent p → OnDone Consistent (on_world r p)
on_world-Consistent (done w) p k = k
on_world-Consistent undefined p k = tt
on_world-Consistent exhausted p k = tt

finish_events-Consistent :
    (ok : Bool) (now : TimeVal) (rev : Events) (r : Run Polled)
    → OnDone Consistent r
    → OnDone Consistent (finish_events ok now rev r)
finish_events-Consistent ok now rev (done p) k =
    handle_conn-Consistent ok now
      (if rev.epollout then record p { world = handle_write p.world } else p)
      (by_if Consistent rev.epollout _ _ (λ _. k) (λ _. k))
finish_events-Consistent ok now rev undefined k = tt
finish_events-Consistent ok now rev exhausted k = tt

pub handle_events-Consistent :
    (fuel : ℕ) (host : Host) (ok : Bool) (now : TimeVal) (rev : Events) (p : Polled)
    → Consistent p
    → OnDone Consistent (handle_events fuel host ok now rev p)
unfolding handle_events
handle_events-Consistent fuel host ok now rev p k =
    let q = with_events p no_events in
    by_if (OnDone Consistent) (rev.epollhup && not rev.epollin) _ _ (λ _. k)
      (λ _.
        by_if (OnDone Consistent) rev.epollerr _ _ (λ _. k)
          (λ _.
            finish_events-Consistent ok now rev
              (if rev.epollin || (rev.epollpri || rev.epollrdhup)
                then on_world (handle_read fuel host q.world) q
                else done q)
              (by_if (OnDone Consistent) (rev.epollin || (rev.epollpri || rev.epollrdhup)) _ _
                (λ _. on_world-Consistent (handle_read fuel host q.world) q k) (λ _. k))))

pub channel_of-cases :
    (o : Option Polled)
    → (channel_of o ≡ none) ⊎ ((p : Polled) × (o ≡ some p) × (channel_of o ≡ some p))
channel_of-cases none = inl refl
channel_of-cases (some p) = elim (Bool-cases p.has_channel) [
  | inl e ↦ inr (p, refl, ap (λ b. if b then some p else none) e)
  | inr e ↦ inl (ap (λ b. if b then some p else none) e)
]

pub Run-cases {ℓ} :
    {A : Type ℓ} (r : Run A) → ((a : A) × (r ≡ done a)) ⊎ ((r ≡ undefined) ⊎ (r ≡ exhausted))
Run-cases (done a) = inl (a, refl)
Run-cases undefined = inr (inl refl)
Run-cases exhausted = inr (inr refl)
