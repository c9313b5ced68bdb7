-- ===== src/Epoll/Delivery.antt =====
-- From the first write of a reply that the socket did not take whole to its last byte, over whole rounds of
-- the loop.
mod Tests
use light_agent_gateway.Common.{
  ℕ, suc, ◌≡◌, ◌≤◌, refl, sym, subst, ◌∙◌, true, false, List, [], ◌∷◌, ◌++◌, if◌then◌else◌, length,
  arith, All, Bool-cases, inl, inr,
}
use light_agent_gateway.Timer.{TimeVal, milliseconds, expire}
use light_agent_gateway.Io.{WriteEvent}
use light_agent_gateway.Http.{Run, done, undefined, exhausted}
use light_agent_gateway.Http.World.{Events, no_events}
use light_agent_gateway.Http.Analysis.{Host}
use light_agent_gateway.Http.Connection.{Polled, handle_events, handle_close, with_events}
use light_agent_gateway.Http.Connection.Polling.{IsOpen}
use light_agent_gateway.Http.Connection.Output.{
  IsOutput, IsSending, IsTaking, with_writes, kernel_asks, Shrunk, event_out, written_out,
  output_event, Delivered, Delivered-refl, fewer, unasked,
}
use light_agent_gateway.Epoll.Isolation.{is_among}
use light_agent_gateway.Epoll.Idle.{expire-Early}
use light_agent_gateway.Epoll.Timeliness.{
  Timely, Recent, handle_write-Timely, handle_conn-Timely, expire-keeps, Early-before,
}

-- A round of the loop: the clock at `handleEvents`, what the socket takes, and the clock at
-- `handleExpired`.
pub record Round : Type 0 where
  pub now : TimeVal
  pub writes : List WriteEvent
  pub later : TimeVal

abbrev pub with_timers : TimeVal → Polled → Polled
with_timers later p = record p {
  world = record (p.world) { timers = (expire p.world.timers later).1 };
}

-- `handleExpired`, as far as it concerns one connection.
unfoldable pub expire_connection : TimeVal → Polled → Polled
expire_connection later p =
    if is_among p.world.http.fd (expire p.world.timers later).0
    then handle_close true (with_timers later p)
    else with_timers later p

-- The rounds of the loop. The connection is active in a round if the kernel is asked to report that it is
-- writable.
unfoldable pub output_rounds : Host → Events → List Round → Polled → Run Polled
unfolding expire_connection
output_rounds host rev [] p = done p
output_rounds host rev (r ∷ rs) p =
    let reported : Run Polled =
      elim (handle_events 0 host true r.now rev (with_writes p r.writes)) [
        | done q ↦ output_rounds host rev rs (expire_connection r.later q)
        | undefined ↦ undefined
        | exhausted ↦ exhausted
      ] in
    let unreported = output_rounds host rev rs (expire_connection r.later p) in
    if kernel_asks p then reported else unreported

-- In each round the socket takes something, and the clock is at most the limit, and less than two seconds
-- before it.
pub record IsProgress (limit : TimeVal) (r : Round) : Type 0 where
  pub taking : IsTaking r.writes
  pub recent : Recent limit r.now
  pub in_time : milliseconds r.later ≤ milliseconds limit

module _ (limit : TimeVal) where
  expire_connection-Timely :
      (later : TimeVal) (p : Polled)
      → milliseconds later ≤ milliseconds limit
      → Timely p.world.http.fd limit p.world
      → expire_connection later p ≡ with_timers later p
  unfolding expire_connection
  expire_connection-Timely later p l t =
      rw
        (expire-Early p.world.http.fd later p.world.timers
          (Early-before p.world.http.fd limit later p.world.timers l t.early))
        refl

  with_timers-Timely :
      (later : TimeVal) (p : Polled)
      → Timely p.world.http.fd limit p.world
      → Timely p.world.http.fd limit (with_timers later p).world
  with_timers-Timely later p t = record {
    same_fd = refl;
    early = expire-keeps p.world.http.fd limit later p.world.timers t.early;
  }

  event_out-Timely :
      (now : TimeVal) (ws : List WriteEvent) (p : Polled)
      → Recent limit now
      → IsOpen (written_out p ws)
      → Timely p.world.http.fd limit p.world
      → Timely p.world.http.fd limit (event_out now p ws).world
  event_out-Timely now ws p r o t =
      handle_conn-Timely p.world.http.fd limit now (written_out p ws) r o (
        handle_write-Timely p.world.http.fd limit (with_events (with_writes p ws) no_events).world
          (record { same_fd = t.same_fd; early = t.early }))

  own : (fd : ℕ) (p : Polled) → Timely fd limit p.world → Timely p.world.http.fd limit p.world
  own fd p t = subst (λ k. Timely k limit p.world) (sym t.same_fd) t

with_timers-IsSending :
    (later : TimeVal) (p : Polled) → IsSending p → IsSending (with_timers later p)
with_timers-IsSending later p i = record { open_ = i.open_; in_sync = i.in_sync; asks = i.asks }

Delivered-Shrunk :
    {p q r : Polled} (later : TimeVal)
    → Shrunk p q
    → Delivered (with_timers later q) r
    → Delivered p r
Delivered-Shrunk later s d = record {
  all_sent = d.all_sent ∙ s.conserved;
  none_left = d.none_left;
  stays = d.stays;
}

same_Delivered :
    {p r : Polled} (later : TimeVal) → Delivered (with_timers later p) r → Delivered p r
same_Delivered later d = record { all_sent = d.all_sent; none_left = d.none_left; stays = d.stays }

-- On an open connection with output left, for which the kernel is asked to report, neither `epoll_ctl`
-- nor a write fails, and the socket takes at least one byte, in writes of any sizes, each time that it is
-- reported to be writable; and all the rounds of the loop, each with `handleEvents` if the kernel is asked
-- and with `handleExpired`, lie in less than two seconds, before the end of which no timer set for the
-- connection before runs out. Then in as many rounds as there are bytes left, or more, all of the
-- output goes out, behind what went out before, in order, and none is left; and the connection is open
-- still, not closed by any timer, and in step with the kernel's mask.
pub output_rounds-Delivered :
    (limit : TimeVal) (host : Host) (rev : Events) (rs : List Round) (p : Polled)
    → IsOutput rev
    → IsSending p
    → Timely p.world.http.fd limit p.world
    → All (IsProgress limit) rs
    → length p.world.http.out_buffer ≤ length rs
    → (q : Polled) × (output_rounds host rev rs p ≡ done q) × Delivered p q
unfolding output_rounds
output_rounds-Delivered limit host rev [] p o i t a l = (p, refl, Delivered-refl p i l)
output_rounds-Delivered limit host rev (r ∷ rs) p o i t (m, a) l =
    elim (Bool-cases (kernel_asks p)) [
      | inl asks ↦
          let (h, s, opened) = output_event host r.now rev p r.writes o i m.taking in
          let q = event_out r.now p r.writes in
          let u =
            own limit p.world.http.fd q
              (event_out-Timely limit r.now r.writes p m.recent opened t) in
          let (z, g, d) =
            output_rounds-Delivered limit host rev rs (with_timers r.later q) o
              (with_timers-IsSending r.later q s.is_sending) (with_timers-Timely limit r.later q u)
              a (fewer _ _ _ s.no_more s.less l) in
          (
            z,
            rw (asks, h, expire_connection-Timely limit r.later q m.in_time u) g,
            Delivered-Shrunk r.later s d,
          )
      | inr quiet ↦
          let (z, g, d) =
            output_rounds-Delivered limit host rev rs (with_timers r.later p) o
              (with_timers-IsSending r.later p i) (with_timers-Timely limit r.later p t) a
              (omega (arith, unasked p i quiet)) in
          (
            z,
            rw (quiet, expire_connection-Timely limit r.later p m.in_time t) g,
            same_Delivered r.later d,
          )
    ]
