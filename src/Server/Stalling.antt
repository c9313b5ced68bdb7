-- ===== src/Server/Stalling.antt =====
-- A connection that cannot be made non-blocking.
use light_agent_gateway.Common.{
  ℕ, suc, ◌+◌, ◌≡◌, ◌<◌, refl, ap, ap₂, ◌∙◌, true, false, some, List, [], ◌∷◌, ◌++◌, append_assoc,
  length, arith, All,
}
use light_agent_gateway.Http.World.{Events, no_events}
use light_agent_gateway.Http.Connection.{events_eq}
use light_agent_gateway.Server.{
  EventLoopThreadPool, get_next_loop, Fcntl, set_socket_non_blocking, non_blocking, Accept,
  connection, Server, max_fds, returns, take_connection, accept_events, hand_new_conn,
  hand_this_conn, handle_events,
}
use light_agent_gateway.Server.Turns.{InTurn, get_next_loop-InTurn}
use light_agent_gateway.Server.Accepting.{
  taken, Connects, turns, in_range, out_of_range, hand_new_conn-append,
}
use light_agent_gateway.Server.Serving.{reads, cleared, handle_events-read}

take_connection-failed :
    (fd loop : ℕ) (f : Fcntl) (s : Server) (q : EventLoopThreadPool)
    → get_next_loop s.pool ≡ some (loop, q)
    → fd < max_fds
    → non_blocking (set_socket_non_blocking f) ≡ false
    → take_connection fd f s ≡ returns (record s { pool = q; accepted = s.accepted ++ fd ∷ [] })
unfolding take_connection
take_connection-failed fd loop f s q e l b = rw (take_connection, e, b) (ground (arith, l))

hand_new_conn-returns :
    (fd : ℕ) (f : Fcntl) (es : List Accept) (s t : Server)
    → take_connection (suc fd) f s ≡ returns t
    → hand_new_conn (connection (suc fd) f ∷ es) s ≡ some t
unfolding hand_new_conn
hand_new_conn-returns fd f es s t e = rw (hand_new_conn, e) refl

hand_this_conn-none :
    (t : Server)
    → t.events ≡ no_events
    → t.last_events ≡ accept_events
    → (hand_this_conn true t).registered ≡ some no_events
unfolding hand_this_conn
hand_this_conn-none t e l = rw (hand_this_conn, ap₂ events_eq l e) (ap some e)

fields-hand_this_conn :
    (t : Server)
    → ((hand_this_conn true t).accepted ≡ t.accepted)
      × ((hand_this_conn true t).queued ≡ t.queued)
      × ((hand_this_conn true t).closed ≡ t.closed)
unfolding hand_this_conn
fields-hand_this_conn t = ground arith

-- Where a readable accept channel that the poller watches yields connections of which
-- `setSocketNonBlocking` succeeds on those in `pre` and fails on the next, `fd`, below 100000: `fd` was
-- accepted but is neither handed to a loop nor closed; the connections behind it are not accepted; and
-- the poller is told to watch the channel for nothing any more, so that no later connection is
-- reported.
pub handle_events-stalls :
    (n i : ℕ) (rev : Events) (pre post : List Accept) (fd : ℕ) (f : Fcntl) (s : Server)
    → InTurn n i s.pool
    → s.last_events ≡ accept_events
    → reads rev ≡ true
    → All Connects pre
    → suc fd < max_fds
    → non_blocking (set_socket_non_blocking f) ≡ false
    → (t : Server) × (handle_events true rev (pre ++ connection (suc fd) f ∷ post) s ≡ some t)
      × (t.accepted ≡ s.accepted ++ (taken pre ++ suc fd ∷ []))
      × (t.queued ≡ s.queued ++ in_range (turns n i (taken pre)))
      × (t.closed ≡ s.closed ++ out_of_range (taken pre))
      × (t.registered ≡ some no_events)
handle_events-stalls n i rev pre post fd f s p l rd cs small b =
    let (v, h, m, d) =
      hand_new_conn-append n i pre (connection (suc fd) f ∷ post) (cleared s) p cs in
    let (q, e, turn) = get_next_loop-InTurn n (i + length (taken pre)) v.pool d.in_turn in
    let w = record v { pool = q; accepted = v.accepted ++ suc fd ∷ [] } in
    let (same_accepted, same_queued, same_closed) = fields-hand_this_conn w in
    (
      hand_this_conn true w,
      handle_events-read true rev (pre ++ connection (suc fd) f ∷ post) s w rd (
          h
          ∙ hand_new_conn-returns fd f post v w
              (take_connection-failed (suc fd) _ f v q e small b)),
      same_accepted
          ∙ ap (λ a. a ++ suc fd ∷ []) d.accepted
          ∙ append_assoc s.accepted (taken pre) (suc fd ∷ []),
      same_queued ∙ d.queued,
      same_closed ∙ d.closed,
      hand_this_conn-none w m (d.last_events ∙ l),
    )
