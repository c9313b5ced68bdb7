-- ===== src/Epoll/Timeliness.antt =====
-- The timers of a connection that is kept, against a time before which none of them runs out.
use light_agent_gateway.Common.{
  ℕ, ◌+◌, ◌≡◌, ◌≤◌, ◌<◌, ◌==◌, refl, true, not, Option, none, some, List, [], ◌∷◌, ltb, All, arith,
  Option-cases, inl, inr, by_if,
}
use light_agent_gateway.Common.Bytes.{Bytes}
use light_agent_gateway.Io.{Socket, writen_string}
use light_agent_gateway.Timer.{
  TimeVal, TimerNode, milliseconds, expiry, new_node, clear_req, clear_linked, add_timer, expire,
}
use light_agent_gateway.Timer.Expiry.{expire-cons}
use light_agent_gateway.Http.World.{
  Events, World, separate_timer, handle_write, written, want_out, no_events,
}
use light_agent_gateway.Http.Serving.{non_empty}
use light_agent_gateway.Http.Connection.Polling.{IsOpen, separated, is_open, closed}
use light_agent_gateway.Http.Connection.{
  Polled, events_eq, start_timer, epoll_mod, handle_conn, with_events, one_way, read_events,
  default_keep_alive_time, default_expired_time, half,
}
use light_agent_gateway.Epoll.Idle.{Early, push-Early}

-- No timer of the connection runs out before `limit`.
pub record Timely (fd : ℕ) (limit : TimeVal) (w : World) : Type 0 where
  pub same_fd : w.http.fd ≡ fd
  pub early : All (Early fd limit) w.timers

-- A reading of the clock less than two seconds before the limit.
abbrev pub Recent : TimeVal → TimeVal → Type 0
Recent limit now = (milliseconds limit < milliseconds now + 2000) × (now.tv_usec < 1_000_000)

module _ (fd : ℕ) (limit : TimeVal) where
  written-Timely :
      (w : World) (r : Option ℕ × Bytes × Socket)
      → Timely fd limit w
      → Timely fd limit (want_out (written w r))
  written-Timely w (none, left, s) t =
      by_if (Timely fd limit) (non_empty left) _ _
        (λ _. record { same_fd = t.same_fd; early = t.early })
        (λ _. record { same_fd = t.same_fd; early = t.early })
  written-Timely w (some n, left, s) t =
      by_if (Timely fd limit) (non_empty left) _ _
        (λ _. record { same_fd = t.same_fd; early = t.early })
        (λ _. record { same_fd = t.same_fd; early = t.early })

  pub handle_write-Timely : (w : World) → Timely fd limit w → Timely fd limit (handle_write w)
  unfolding handle_write
  handle_write-Timely w t =
      by_if (Timely fd limit) _ _ _
        (λ _. written-Timely w (writen_string w.socket w.http.out_buffer) t) (λ _. t)

  clear_linked-Early :
      (id : ℕ) (ns : List TimerNode)
      → All (Early fd limit) ns
      → All (Early fd limit) (clear_linked id ns)
  unfolding clear_linked clear_req
  clear_linked-Early id [] a = tt
  clear_linked-Early id (n ∷ ns) a = (
    by_if (Early fd limit) (n.id == id) _ _ (λ _ d. ground (arith, d)) (λ _. a.0),
    clear_linked-Early id ns a.1,
  )

  separate_timer-Timely : (w : World) → Timely fd limit w → Timely fd limit (separate_timer w)
  unfolding separate_timer
  separate_timer-Timely w t = elim (Option-cases w.http.timer) [
    | inl n ↦ rw (separate_timer, n) t
    | inr (id, s) ↦
        rw (separate_timer, s)
          (by_if (Timely fd limit) _ _ _
            (λ _. record { same_fd = t.same_fd; early = clear_linked-Early id w.timers t.early })
            (λ _. t))
  ]

  start_timer-Timely :
      (now : TimeVal) (timeout : ℕ) (p : Polled)
      → milliseconds limit < expiry now timeout
      → Timely fd limit p.world
      → Timely fd limit (start_timer now timeout p).world
  unfolding start_timer add_timer new_node
  start_timer-Timely now timeout p l t =
      by_if (λ (q : Polled). Timely fd limit q.world) (ltb 0 timeout) _ _
        (λ _. record {
          same_fd = t.same_fd;
          early =
              push-Early fd limit (new_node p.next_timer (some p.world.http.fd) timeout now)
                p.world.timers (λ _. (refl, l)) t.early;
        })
        (λ _. t)

  epoll_mod-Timely :
      (now : TimeVal) (timeout : ℕ) (p : Polled)
      → milliseconds limit < expiry now timeout
      → Timely fd limit p.world
      → Timely fd limit (epoll_mod true now timeout p).world
  unfolding epoll_mod
  epoll_mod-Timely now timeout p l t =
      let q = start_timer now timeout p in
      let k = start_timer-Timely now timeout p l t in
      by_if (λ (r : Polled). Timely fd limit r.world) (events_eq q.last_events q.world.events) _ _
        (λ _. k) (λ _. k)

  in_time :
      (now : TimeVal) (timeout : ℕ)
      → Recent limit now
      → 2000 ≤ timeout
      → timeout ≤ 300_000
      → milliseconds limit < expiry now timeout
  in_time now timeout r l u = omega (arith, r.0, r.1, l, u)

  pub handle_conn-Timely :
      (now : TimeVal) (p : Polled)
      → Recent limit now
      → IsOpen p
      → Timely fd limit p.world
      → Timely fd limit (handle_conn true now p).world
  unfolding handle_conn
  handle_conn-Timely now p r o t =
      let q = separated p in
      let s = separate_timer-Timely p.world t in
      let modified = λ (timeout : ℕ) (e : Events) (l : 2000 ≤ timeout) (u : timeout ≤ 300_000).
        epoll_mod-Timely now timeout (with_events q e) (in_time now timeout r l u)
          (record { same_fd = s.same_fd; early = s.early }) in
      by_if (λ (k : Polled). Timely fd limit k.world) (is_open p) _ _
        (λ _.
          by_if (λ (k : Polled). Timely fd limit k.world) (not (events_eq q.world.events no_events))
            _ _
            (λ _.
              by_if
                (λ n.
                  Timely fd limit
                    (epoll_mod true now n (with_events q (one_way q.world.events))).world)
                q.world.http.keep_alive _ _
                (λ _.
                  modified default_keep_alive_time (one_way q.world.events) (omega arith)
                    (omega arith))
                (λ _.
                  modified default_expired_time (one_way q.world.events) (omega arith)
                    (omega arith)))
            (λ _.
              by_if (λ (k : Polled). Timely fd limit k.world) q.world.http.keep_alive _ _
                (λ _. modified default_keep_alive_time read_events (omega arith) (omega arith))
                (λ _.
                  modified (half default_keep_alive_time) read_events (omega arith) (omega arith))))
        (λ f. absurd (closed p o f))

  -- What `handleExpired` leaves in the queue.
  pub expire-keeps :
      (later : TimeVal) (ns : List TimerNode)
      → All (Early fd limit) ns
      → All (Early fd limit) (expire ns later).1
  unfolding expire
  expire-keeps later [] a = tt
  expire-keeps later (n ∷ ns) a = elim (expire-cons n ns later) [
    | inl (_, e) ↦ rw e (expire-keeps later ns a.1)
    | inr (_, e) ↦ rw e a
  ]

  pub Early-before :
      (later : TimeVal) (ns : List TimerNode)
      → milliseconds later ≤ milliseconds limit
      → All (Early fd limit) ns
      → All (Early fd later) ns
  Early-before later [] l a = tt
  Early-before later (n ∷ ns) l a =
      (λ d. ((a.0 d).0, omega (arith, l, (a.0 d).1)), Early-before later ns l a.1)
