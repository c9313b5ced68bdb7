-- ===== src/Server/Serving.antt =====
-- The server from its start, over any number of reports.
use light_agent_gateway.Common.{
  ℕ, zero, suc, ◌+◌, ◌%◌, ◌≡◌, refl, sym, ap, ap₂, ◌∙◌, subst, Bool, true, false, ◌&&◌, ◌||◌, not,
  some, List, [], ◌∷◌, ◌++◌, append_assoc, length, length-append, if◌then◌else◌, arith, All,
  Bool-cases, inl, inr,
}
use light_agent_gateway.Common.Decimal.{ℤ, pos}
use light_agent_gateway.Http.World.{Events, no_events}
use light_agent_gateway.Http.Connection.{events_eq}
use light_agent_gateway.Server.{
  Accept, Fcntl, fresh_pool, start_pool, Server, accept_events, hand_new_conn, hand_this_conn,
  handle_events, Report, serve,
}
use light_agent_gateway.Server.Turns.{InTurn, start_pool-InTurn}
use light_agent_gateway.Server.Listening.{
  SocketCalls, fresh_server, new_server, new_server_lem, start,
}
use light_agent_gateway.Server.Accepting.{
  taken, NonBlocking, turns, in_range, out_of_range, Dealt, Dealt-nothing, Dealt-events,
  hand_new_conn-Dealt,
}

-- What the poller can report of a listening socket that it watches for input.
abbrev pub is_reported : Events → Bool
is_reported e = e.epollin || (e.epollerr || e.epollhup)

abbrev pub reads : Events → Bool
reads e = e.epollin && not e.epollerr

abbrev pub taken_on : Report → List ℕ
taken_on r = if reads r.revents then taken r.accepts else []

abbrev pub Usual : Report → Type 0
Usual r = (is_reported r.revents ≡ true) × All NonBlocking r.accepts

abbrev pub cleared : Server → Server
cleared s = record s { events = no_events }

handle_events-ignored :
    (ok : Bool) (rev : Events) (es : List Accept) (s : Server)
    → is_reported rev ≡ true
    → reads rev ≡ false
    → handle_events ok rev es s ≡ some (cleared s)
unfolding handle_events
handle_events-ignored ok rev es s p n = ground arith

pub handle_events-read :
    (ok : Bool) (rev : Events) (es : List Accept) (s t : Server)
    → reads rev ≡ true
    → hand_new_conn es (cleared s) ≡ some t
    → handle_events ok rev es s ≡ some (hand_this_conn ok t)
unfolding handle_events
handle_events-read ok rev es s t n e = ground arith

-- The mask is back to what the poller holds, so that there is nothing to tell it.
hand_this_conn-unchanged :
    (ok : Bool) (t : Server)
    → t.events ≡ accept_events
    → t.last_events ≡ accept_events
    → hand_this_conn ok t ≡ t
unfolding hand_this_conn
hand_this_conn-unchanged ok t e l = rw (hand_this_conn, ap₂ events_eq l e) refl

handle_events-Dealt :
    (n i : ℕ) (r : Report) (s : Server)
    → InTurn n i s.pool
    → s.last_events ≡ accept_events
    → Usual r
    → (t : Server) × (handle_events r.mod_ok r.revents r.accepts s ≡ some t)
      × Dealt n i (taken_on r) s t
handle_events-Dealt n i r s p l (reported, nb) = elim (Bool-cases (reads r.revents)) [
  | inr e ↦ (
    cleared s,
    handle_events-ignored r.mod_ok r.revents r.accepts s reported e,
    rw e (Dealt-events s.events no_events s s (Dealt-nothing n i s p)),
  )
  | inl e ↦
      let (t, h, m, d) = hand_new_conn-Dealt n i r.accepts (cleared s) p nb in
      (
        t,
        handle_events-read r.mod_ok r.revents r.accepts s t e h
            ∙ ap some (hand_this_conn-unchanged r.mod_ok t m (d.last_events ∙ l)),
        rw e (Dealt-events no_events t.events s t d),
      )
]

turns-append :
    (n i : ℕ) (xs ys : List ℕ) → turns n i (xs ++ ys) ≡ turns n i xs ++ turns n (i + length xs) ys
turns-append n i [] ys = ap (λ j. turns n j ys) (omega arith)
turns-append n i (x ∷ xs) ys =
    ap (λ ts. (suc (i % n), x) ∷ ts)
      (turns-append n (suc i) xs ys ∙ ap (λ j. turns n (suc i) xs ++ turns n j ys) (omega arith))

in_range-append : (ds es : List (ℕ × ℕ)) → in_range (ds ++ es) ≡ in_range ds ++ in_range es
in_range-append [] es = refl
in_range-append ((loop, fd) ∷ ds) es = rw (in_range-append ds es) (ground arith)

out_of_range-append :
    (xs ys : List ℕ) → out_of_range (xs ++ ys) ≡ out_of_range xs ++ out_of_range ys
out_of_range-append [] ys = refl
out_of_range-append (x ∷ xs) ys = rw (out_of_range-append xs ys) (ground arith)

Dealt-trans :
    (n i : ℕ) (xs ys : List ℕ) (s t u : Server)
    → Dealt n i xs s t
    → Dealt n (i + length xs) ys t u
    → Dealt n i (xs ++ ys) s u
Dealt-trans n i xs ys s t u d e = record {
  in_turn = subst (λ j. InTurn n j u.pool) (omega (arith, length-append xs ys)) e.in_turn;
  queued =
      e.queued
      ∙ ap (λ q. q ++ in_range (turns n (i + length xs) ys)) d.queued
      ∙ append_assoc s.queued (in_range (turns n i xs)) (in_range (turns n (i + length xs) ys))
      ∙ ap (λ q. s.queued ++ q)
          (sym (
            ap in_range (turns-append n i xs ys)
            ∙ in_range-append (turns n i xs) (turns n (i + length xs) ys)));
  closed =
      e.closed
      ∙ ap (λ c. c ++ out_of_range ys) d.closed
      ∙ append_assoc s.closed (out_of_range xs) (out_of_range ys)
      ∙ ap (λ c. s.closed ++ c) (sym (out_of_range-append xs ys));
  accepted = e.accepted ∙ ap (λ c. c ++ ys) d.accepted ∙ append_assoc s.accepted xs ys;
  last_events = e.last_events ∙ d.last_events;
  registered = e.registered ∙ d.registered;
}

-- All descriptors that `accept` yields over a list of reports.
abbrev pub all_taken : List Report → List ℕ
all_taken [] = []
all_taken (r ∷ rs) = taken_on r ++ all_taken rs

serve-Dealt :
    (n i : ℕ) (rs : List Report) (s : Server)
    → InTurn n i s.pool
    → s.last_events ≡ accept_events
    → All Usual rs
    → (t : Server) × (serve rs s ≡ some t) × Dealt n i (all_taken rs) s t
unfolding serve
serve-Dealt n i [] s p l us = (s, refl, Dealt-nothing n i s p)
serve-Dealt n i (r ∷ rs) s p l (u, us) =
    let (t, h, d) = handle_events-Dealt n i r s p l u in
    let (v, k, e) = serve-Dealt n (i + length (taken_on r)) rs t d.in_turn (d.last_events ∙ l) us in
    (v, rw (serve, h) k, Dealt-trans n i (taken_on r) (all_taken rs) s t v d e)

serves_fresh :
    (n : ℕ) (rs : List Report) (s : Server)
    → s ≡ fresh_server (fresh_pool (suc n))
    → All Usual rs
    → (t : Server) × (serve rs (start true s) ≡ some t)
      × Dealt (suc n) 0 (all_taken rs) (start true s) t
unfolding start
serves_fresh n rs s e us =
    serve-Dealt (suc n) 0 rs (start true s)
      (subst (λ p. InTurn (suc n) 0 (start_pool p)) (sym (ap (λ s'. s'.pool) e))
        (start_pool-InTurn n))
      refl us

-- For a server whose constructor succeeded with `n` threads, once `start` has registered its accept
-- channel, and for any reports of that channel by the poller and any results of `accept`, where
-- `setSocketNonBlocking` succeeds on every connection: let `fds` be the descriptors that `accept` gave.
-- No read outside `loops_` happens. The connections are handed to the loops of the `n` threads in
-- turn, the k-th of `fds` (from 0) to loop `k % n + 1`, in order and each once; only those of 100000
-- and more, for which the poller's tables have no room, are not handed over but closed, and they use
-- up their turn. And behind every report the poller watches the channel with the mask that `start` set.
pub serves_in_turn :
    (calls : SocketCalls) (f : Fcntl) (n : ℕ) (port : ℤ) (s : Server) (rs : List Report)
    → new_server calls f (pos n) port ≡ some s
    → All Usual rs
    → (t : Server) × (serve rs (start true s) ≡ some t)
      × (t.queued ≡ in_range (turns n 0 (all_taken rs)))
      × (t.closed ≡ out_of_range (all_taken rs))
      × (t.registered ≡ some accept_events)
unfolding start
serves_in_turn calls f zero port s rs e us =
    absurd (omega (arith, (new_server_lem calls f zero port s e).0))
serves_in_turn calls f (suc n) port s rs e us =
    let fresh = (new_server_lem calls f (suc n) port s e).1 in
    let (t, h, d) = serves_fresh n rs s fresh us in
    (
      t,
      h,
      d.queued ∙ ap (λ s'. s'.queued ++ in_range (turns (suc n) 0 (all_taken rs))) fresh,
      d.closed ∙ ap (λ s'. s'.closed ++ out_of_range (all_taken rs)) fresh,
      d.registered,
    )
