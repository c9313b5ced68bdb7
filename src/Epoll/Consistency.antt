-- ===== src/Epoll/Consistency.antt =====
-- The table of channels against the kernel's masks.
use light_agent_gateway.Common.{
  ℕ, ◌≡◌, ◌⊎◌, inl, inr, subst, Bool, false, Option, none, some, List, [], ◌∷◌, ◌==◌, by_if,
  Bool-cases, Option-cases,
}
use light_agent_gateway.Gateway.{Counters}
use light_agent_gateway.Timer.{TimeVal, expire}
use light_agent_gateway.Http.{Run, done, undefined, exhausted}
use light_agent_gateway.Http.World.{no_events}
use light_agent_gateway.Http.Analysis.{Host}
use light_agent_gateway.Http.Connection.{
  Polled, with_events, handle_close, new_event, handle_events,
}
use light_agent_gateway.Epoll.{
  Epoll, EpollEvent, put, enter, leave, get_events_request, disarm, reported, first_active, poll,
  handle_active, close_all, handle_expired, new_polled, add_connection, Operation, adds, rounds,
  expires, dispatch, operate, operate_all,
}
use light_agent_gateway.Epoll.Handlers.{
  Watches, Consistent, disarm-Consistent, OnDone, channel_of-cases, Run-cases, new_event-Consistent,
  handle_close-Consistent, handle_events-Consistent,
}

abbrev Holds : Option Polled → Type 0
Holds none = Unit
Holds (some p) = Consistent p

abbrev AllConsistent : Epoll → Type 0
AllConsistent e = (fd : ℕ) → Holds (e.connections fd)

put-AllConsistent :
    (e : Epoll) (fd : ℕ) (p : Polled) → AllConsistent e → Consistent p → AllConsistent (put e fd p)
put-AllConsistent e fd p a k i = by_if Holds (i == fd) _ _ (λ _. k) (λ _. a i)

get_events_request-AllConsistent :
    (vs : List EpollEvent) (e : Epoll) → AllConsistent e → AllConsistent (get_events_request vs e).1
unfolding get_events_request
get_events_request-AllConsistent [] e a = a
get_events_request-AllConsistent (v ∷ vs) e a = elim (channel_of-cases (e.connections v.fd)) [
  | inl n ↦ rw (get_events_request, n) (get_events_request-AllConsistent vs e a)
  | inr (p, s, c) ↦
      rw (get_events_request, c)
        (get_events_request-AllConsistent vs (put e v.fd (with_events p no_events))
          (put-AllConsistent e v.fd (with_events p no_events) a (subst Holds s (a v.fd))))
]

reported-AllConsistent :
    (vs : List EpollEvent) (e : Epoll) → AllConsistent e → AllConsistent (reported vs e)
unfolding reported
reported-AllConsistent [] e a = a
reported-AllConsistent (v ∷ vs) e a = elim (Option-cases (e.connections v.fd)) [
  | inl n ↦ rw (reported, n) (reported-AllConsistent vs e a)
  | inr (p, s) ↦
      rw (reported, s)
        (reported-AllConsistent vs (put e v.fd (disarm p))
          (put-AllConsistent e v.fd (disarm p) a (disarm-Consistent p (subst Holds s (a v.fd)))))
]

handle_active-AllConsistent :
    (fuel : ℕ) (host : Host) (ok : ℕ → Bool) (now : TimeVal) (vs : List EpollEvent) (e : Epoll)
    → AllConsistent e
    → OnDone AllConsistent (handle_active fuel host ok now vs e)
unfolding handle_active
handle_active-AllConsistent fuel host ok now [] e a = a
handle_active-AllConsistent fuel host ok now (v ∷ vs) e a =
    elim (Option-cases (e.connections v.fd)) [
      | inl n ↦ rw (handle_active, n) (handle_active-AllConsistent fuel host ok now vs e a)
      | inr (p, s) ↦
          let k =
            handle_events-Consistent fuel host (ok v.fd) now v.revents (enter e p)
              (subst Holds s (a v.fd)) in
          elim (Run-cases (handle_events fuel host (ok v.fd) now v.revents (enter e p))) [
            | inl (q, d) ↦
                rw (handle_active, s, d)
                  (handle_active-AllConsistent fuel host ok now vs (leave e v.fd q)
                    (put-AllConsistent e v.fd q a (subst (OnDone Consistent) d k)))
            | inr (inl u) ↦ rw (handle_active, s, u) tt
            | inr (inr x) ↦ rw (handle_active, s, x) tt
          ]
    ]

close_all-AllConsistent :
    (ok : ℕ → Bool) (fds : List ℕ) (e : Epoll)
    → AllConsistent e
    → AllConsistent (close_all ok fds e)
unfolding close_all
close_all-AllConsistent ok [] e a = a
close_all-AllConsistent ok (fd ∷ fds) e a = elim (Option-cases (e.connections fd)) [
  | inl n ↦ rw (close_all, n) (close_all-AllConsistent ok fds e a)
  | inr (p, s) ↦
      rw (close_all, s)
        (close_all-AllConsistent ok fds (put e fd (handle_close (ok fd) p))
          (put-AllConsistent e fd (handle_close (ok fd) p) a (handle_close-Consistent (ok fd) p)))
]

handle_expired-AllConsistent :
    (ok : ℕ → Bool) (now : TimeVal) (e : Epoll)
    → AllConsistent e
    → AllConsistent (handle_expired ok now e)
unfolding handle_expired
handle_expired-AllConsistent ok now e a =
    close_all-AllConsistent ok (expire e.timers now).0
      (record e { timers = (expire e.timers now).1 }) a

Polls : Option (List EpollEvent × Epoll) → Type 0
Polls none = Unit
Polls (some (active, e)) = AllConsistent e

first_active-Polls :
    (active : List EpollEvent) (e : Epoll) (later : Option (List EpollEvent × Epoll))
    → AllConsistent e
    → Polls later
    → Polls (first_active active e later)
unfolding Polls
first_active-Polls [] e later a l = l
first_active-Polls (v ∷ vs) e later a l = a

poll-Polls : (waits : List (List EpollEvent)) (e : Epoll) → AllConsistent e → Polls (poll waits e)
unfolding poll Polls
poll-Polls [] e a = tt
poll-Polls (vs ∷ waits) e a =
    let b = get_events_request-AllConsistent vs (reported vs e) (reported-AllConsistent vs e a) in
    let (active, e') = get_events_request vs (reported vs e) in
    first_active-Polls active e' (poll waits e') b (poll-Polls waits e' b)

dispatch-AllConsistent :
    (fuel : ℕ) (host : Host) (ok : ℕ → Bool) (now : TimeVal) (o : Option (List EpollEvent × Epoll))
    (e : Epoll)
    → AllConsistent e
    → Polls o
    → OnDone AllConsistent (dispatch fuel host ok now o e)
unfolding Polls
dispatch-AllConsistent fuel host ok now none e a p = a
dispatch-AllConsistent fuel host ok now (some (active, e')) e a p =
    handle_active-AllConsistent fuel host ok now active e' p

operate-AllConsistent :
    (fuel : ℕ) (host : Host) (o : Operation) (e : Epoll)
    → AllConsistent e
    → OnDone AllConsistent (operate fuel host o e)
unfolding operate add_connection
operate-AllConsistent fuel host (adds ok now fd socket) e a =
    put-AllConsistent e fd (new_event ok now (new_polled fd socket e)) a
      (new_event-Consistent ok now (new_polled fd socket e))
operate-AllConsistent fuel host (rounds ok now waits) e a =
    dispatch-AllConsistent fuel host ok now (poll waits e) e a (poll-Polls waits e a)
operate-AllConsistent fuel host (expires ok now) e a = handle_expired-AllConsistent ok now e a

operate_all-AllConsistent :
    (fuel : ℕ) (host : Host) (os : List Operation) (e : Epoll)
    → AllConsistent e
    → OnDone AllConsistent (operate_all fuel host os e)
unfolding operate_all
operate_all-AllConsistent fuel host [] e a = a
operate_all-AllConsistent fuel host (o ∷ os) e a =
    let b = operate-AllConsistent fuel host o e a in
    elim (Run-cases (operate fuel host o e)) [
      | inl (e', d) ↦
          rw (operate_all, d)
            (operate_all-AllConsistent fuel host os e' (subst (OnDone AllConsistent) d b))
      | inr (inl u) ↦ rw (operate_all, u) tt
      | inr (inr x) ↦ rw (operate_all, x) tt
    ]

-- A loop that has no connection yet.
abbrev pub empty_epoll : Counters → Epoll
empty_epoll counters = record {
  connections = λ fd. none;
  timers = [];
  next_timer = 0;
  counters = counters;
}

abbrev pub IsWatched : Option Polled → Type 0
IsWatched none = Unit
IsWatched (some p) = (p.has_channel ≡ false) ⊎ Watches p.registered p.last_events

Holds-IsWatched : (o : Option Polled) → Holds o → IsWatched o
Holds-IsWatched none k = tt
Holds-IsWatched (some p) k = elim (Bool-cases p.has_channel) [ inl e ↦ inr (k e) | inr e ↦ inl e ]

OnDone-map :
    (P Q : Epoll → Type 0) → ((e : Epoll) → P e → Q e) → (r : Run Epoll) → OnDone P r → OnDone Q r
OnDone-map P Q f (done e) p = f e p
OnDone-map P Q f undefined p = tt
OnDone-map P Q f exhausted p = tt

-- Whatever a loop's thread does from its start on, functors that add connections, rounds over what the
-- poller reports with all their handlers, and expiries, and for whichever descriptors `epoll_ctl`
-- fails: as long as the handlers' behaviour is defined, every descriptor whose table entry points to a
-- channel is watched by the kernel with the mask that the channel remembers as its last, unless that
-- mask is one-shot, a report has disarmed it and nothing has set a new one; then the kernel has it
-- disarmed, and the channel still remembers it.
pub connections-IsWatched :
    (fuel : ℕ) (host : Host) (os : List Operation) (counters : Counters) (fd : ℕ)
    → OnDone (λ e. IsWatched (e.connections fd)) (operate_all fuel host os (empty_epoll counters))
connections-IsWatched fuel host os counters fd =
    OnDone-map AllConsistent (λ e. IsWatched (e.connections fd))
      (λ e a. Holds-IsWatched (e.connections fd) (a fd))
      (operate_all fuel host os (empty_epoll counters))
      (operate_all-AllConsistent fuel host os (empty_epoll counters) (λ i. tt))
