-- ===== src/Epoll/Isolation.antt =====
-- Which connections an operation of the loop can change.
use light_agent_gateway.Common.{
  ℕ, ◌≡◌, refl, ◌∙◌, subst, Bool, false, ◌||◌, Option, none, some, List, [], ◌∷◌, ◌++◌, ◌==◌, arith,
  Option-cases, inl, inr,
}
use light_agent_gateway.Timer.{TimeVal, expire}
use light_agent_gateway.Http.World.{no_events}
use light_agent_gateway.Http.Analysis.{Host}
use light_agent_gateway.Http.Connection.{
  Polled, with_events, handle_close, handle_events, new_event,
}
use light_agent_gateway.Epoll.{
  Epoll, EpollEvent, new_polled, put, enter, leave, get_events_request, disarm, reported,
  first_active, poll, handle_active, close_all, handle_expired, add_connection, Operation, adds,
  rounds, expires, dispatch, operate,
}
use light_agent_gateway.Epoll.Handlers.{OnDone, channel_of-cases, Run-cases}

abbrev pub is_among : ℕ → List ℕ → Bool
is_among fd [] = false
is_among fd (i ∷ is) = fd == i || is_among fd is

abbrev pub fds_of : List EpollEvent → List ℕ
fds_of [] = []
fds_of (v ∷ vs) = v.fd ∷ fds_of vs

abbrev pub all_fds : List (List EpollEvent) → List ℕ
all_fds [] = []
all_fds (vs ∷ waits) = fds_of vs ++ all_fds waits

-- The descriptors that an operation names: the one that it adds, those that the kernel reports, or
-- those of the timer nodes that go.
abbrev pub named_by : Operation → Epoll → List ℕ
named_by (adds ok now fd socket) e = fd ∷ []
named_by (rounds ok now waits) e = all_fds waits
named_by (expires ok now) e = (expire e.timers now).0

among_append_left :
    (fd : ℕ) (xs ys : List ℕ) → is_among fd (xs ++ ys) ≡ false → is_among fd xs ≡ false
among_append_left fd [] ys h = refl
among_append_left fd (x ∷ xs) ys h =
    ground (arith, h, among_append_left fd xs ys (ground (arith, h)))

among_append_right :
    (fd : ℕ) (xs ys : List ℕ) → is_among fd (xs ++ ys) ≡ false → is_among fd ys ≡ false
among_append_right fd [] ys h = h
among_append_right fd (x ∷ xs) ys h = among_append_right fd xs ys (ground (arith, h))

other :
    (e : Epoll) (i fd : ℕ) (p : Polled) (is : List ℕ)
    → is_among fd (i ∷ is) ≡ false
    → (put e i p).connections fd ≡ e.connections fd
other e i fd p is h = ground (arith, h)

abbrev Same : ℕ → Epoll → Epoll → Type 0
Same fd e e' = e'.connections fd ≡ e.connections fd

abbrev Others : ℕ → Epoll → List EpollEvent × Epoll → Type 0
Others fd e (active, e') = Same fd e e' × (is_among fd (fds_of active) ≡ false)

get_events_request-Others :
    (fd : ℕ) (vs : List EpollEvent) (e : Epoll)
    → is_among fd (fds_of vs) ≡ false
    → Others fd e (get_events_request vs e)
unfolding get_events_request
get_events_request-Others fd [] e h = (refl, refl)
get_events_request-Others fd (v ∷ vs) e h = elim (channel_of-cases (e.connections v.fd)) [
  | inl n ↦ rw (get_events_request, n) (get_events_request-Others fd vs e (ground (arith, h)))
  | inr (p, _, c) ↦
      let e' = put e v.fd (with_events p no_events) in
      let (same, absent) = get_events_request-Others fd vs e' (ground (arith, h)) in
      rw (get_events_request, c)
        (same ∙ other e v.fd fd (with_events p no_events) (fds_of vs) h, ground (arith, h, absent))
]

reported-Same :
    (fd : ℕ) (vs : List EpollEvent) (e : Epoll)
    → is_among fd (fds_of vs) ≡ false
    → Same fd e (reported vs e)
unfolding reported
reported-Same fd [] e h = refl
reported-Same fd (v ∷ vs) e h = elim (Option-cases (e.connections v.fd)) [
  | inl n ↦ rw (reported, n) (reported-Same fd vs e (ground (arith, h)))
  | inr (p, s) ↦
      rw (reported, s)
        (reported-Same fd vs (put e v.fd (disarm p)) (ground (arith, h))
          ∙ other e v.fd fd (disarm p) (fds_of vs) h)
]

handle_active-Same :
    (fuel : ℕ) (host : Host) (ok : ℕ → Bool) (now : TimeVal) (fd : ℕ) (vs : List EpollEvent)
    (e : Epoll)
    → is_among fd (fds_of vs) ≡ false
    → OnDone (Same fd e) (handle_active fuel host ok now vs e)
unfolding handle_active
handle_active-Same fuel host ok now fd [] e h = refl
handle_active-Same fuel host ok now fd (v ∷ vs) e h = elim (Option-cases (e.connections v.fd)) [
  | inl n ↦ rw (handle_active, n) (handle_active-Same fuel host ok now fd vs e (ground (arith, h)))
  | inr (p, s) ↦ elim (Run-cases (handle_events fuel host (ok v.fd) now v.revents (enter e p))) [
    | inl (q, d) ↦
        rw (handle_active, s, d)
          (subst
            (λ c.
              OnDone (λ e'. e'.connections fd ≡ c)
                (handle_active fuel host ok now vs (leave e v.fd q)))
            (other e v.fd fd q (fds_of vs) h)
            (handle_active-Same fuel host ok now fd vs (leave e v.fd q) (ground (arith, h))))
    | inr (inl u) ↦ rw (handle_active, s, u) tt
    | inr (inr x) ↦ rw (handle_active, s, x) tt
  ]
]

close_all-Same :
    (ok : ℕ → Bool) (fd : ℕ) (fds : List ℕ) (e : Epoll)
    → is_among fd fds ≡ false
    → Same fd e (close_all ok fds e)
unfolding close_all
close_all-Same ok fd [] e h = refl
close_all-Same ok fd (i ∷ fds) e h = elim (Option-cases (e.connections i)) [
  | inl n ↦ rw (close_all, n) (close_all-Same ok fd fds e (ground (arith, h)))
  | inr (p, s) ↦
      rw (close_all, s)
        (close_all-Same ok fd fds (put e i (handle_close (ok i) p)) (ground (arith, h))
          ∙ other e i fd (handle_close (ok i) p) fds h)
]

Polled-Others : ℕ → Epoll → Option (List EpollEvent × Epoll) → Type 0
Polled-Others fd e none = Unit
Polled-Others fd e (some r) = Others fd e r

first_active-Others :
    (fd : ℕ) (e e' : Epoll) (active : List EpollEvent) (later : Option (List EpollEvent × Epoll))
    → Others fd e (active, e')
    → Polled-Others fd e' later
    → Polled-Others fd e (first_active active e' later)
unfolding Polled-Others
first_active-Others fd e e' [] none o l = tt
first_active-Others fd e e' [] (some r) o l = (l.0 ∙ o.0, l.1)
first_active-Others fd e e' (v ∷ vs) later o l = o

poll-Others :
    (fd : ℕ) (waits : List (List EpollEvent)) (e : Epoll)
    → is_among fd (all_fds waits) ≡ false
    → Polled-Others fd e (poll waits e)
unfolding poll Polled-Others
poll-Others fd [] e h = tt
poll-Others fd (vs ∷ waits) e h =
    let e0 = reported vs e in
    let (active, e') = get_events_request vs e0 in
    let here = among_append_left fd (fds_of vs) (all_fds waits) h in
    let (same, absent) = get_events_request-Others fd vs e0 here in
    first_active-Others fd e e' active (poll waits e') (same ∙ reported-Same fd vs e here, absent)
      (poll-Others fd waits e' (among_append_right fd (fds_of vs) (all_fds waits) h))

dispatch-Same :
    (fuel : ℕ) (host : Host) (ok : ℕ → Bool) (now : TimeVal) (fd : ℕ) (e : Epoll)
    (o : Option (List EpollEvent × Epoll))
    → Polled-Others fd e o
    → OnDone (Same fd e) (dispatch fuel host ok now o e)
unfolding Polled-Others
dispatch-Same fuel host ok now fd e none o = refl
dispatch-Same fuel host ok now fd e (some (active, e')) (same, absent) =
    subst (λ c. OnDone (λ e''. e''.connections fd ≡ c) (handle_active fuel host ok now active e'))
      same (handle_active-Same fuel host ok now fd active e' absent)

-- An operation of the loop changes no connection but those that it names: a functor the one that it
-- adds, a round those that the kernel reports, and `handleExpired` those whose timer nodes go. So no
-- handler's work on one descriptor, its errors and closing included, touches another connection's
-- buffers, states or table entries.
pub operate-isolated :
    (fuel : ℕ) (host : Host) (o : Operation) (e : Epoll) (fd : ℕ)
    → is_among fd (named_by o e) ≡ false
    → OnDone (λ e'. e'.connections fd ≡ e.connections fd) (operate fuel host o e)
unfolding operate add_connection handle_expired
operate-isolated fuel host (adds ok now i socket) e fd h =
    other e i fd (new_event ok now (new_polled i socket e)) [] h
operate-isolated fuel host (rounds ok now waits) e fd h =
    dispatch-Same fuel host ok now fd e (poll waits e) (poll-Others fd waits e h)
operate-isolated fuel host (expires ok now) e fd h =
    close_all-Same ok fd (expire e.timers now).0 (record e { timers = (expire e.timers now).1 }) h
