-- ===== src/Http/Connection/Closing.antt =====
-- `handleConn` on connections that are not open.
use light_agent_gateway.Common.{
  ◌≡◌, ◌≢◌, ◌⊎◌, refl, Bool, true, false, ◌&&◌, not, none, arith, by_if,
}
use light_agent_gateway.Timer.{TimeVal}
use light_agent_gateway.Http.{h_disconnecting, h_disconnected}
use light_agent_gateway.Http.World.{separate_timer}
use light_agent_gateway.Http.Connection.{
  Polled, epoll_del, handle_close, handle_conn, is_disconnecting,
}
use light_agent_gateway.Http.Connection.Polling.{separated, separated_same, is_open}

-- The connections that `handleConn` gives up: those with an error, those closed already, and those
-- whose peer has closed and that have nothing left to write.
abbrev pub IsOver : Polled → Type 0
IsOver p =
    (p.world.http.error ≡ true)
    ⊎ (p.world.http.connection_state ≡ h_disconnected)
    ⊎ ((p.world.http.connection_state ≡ h_disconnecting) × (p.world.events.epollout ≡ false))

abbrev pub Closed : Polled → Type 0
Closed q =
    (q.world.http.connection_state ≡ h_disconnected)
    × (q.registered ≡ none)
    × (q.has_channel ≡ false)
    × (q.has_http ≡ false)

abbrev pub half_closed : Polled → Bool
half_closed p =
    not (separated p).world.http.error
    && (is_disconnecting (separated p).world.http.connection_state
        && (separated p).world.events.epollout)

pub not_open : (p : Polled) → IsOver p → is_open p ≢ true
not_open p o f = ground (arith, o, f, separated_same p)

pub not_half_closed : (p : Polled) → IsOver p → half_closed p ≢ true
not_half_closed p o f = ground (arith, o, f, separated_same p)

-- `handleConn` closes such a connection down: it is disconnected, neither table points to it,
-- and the kernel has no mask for it, where `epoll_ctl` succeeds.
pub handle_conn-Closed : (now : TimeVal) (p : Polled) → IsOver p → Closed (handle_conn true now p)
unfolding handle_conn handle_close epoll_del
handle_conn-Closed now p o =
    by_if Closed (is_open p) _ _ (λ f. absurd (not_open p o f))
      (λ _.
        by_if Closed (half_closed p) _ _ (λ f. absurd (not_half_closed p o f))
          (λ _. (refl, refl, refl, refl)))

-- The poller as before, and no timer but those left when the connection's own is taken away.
abbrev pub Unwatched : Polled → Polled → Type 0
Unwatched p q =
    (q.registered ≡ p.registered)
    × (q.world.timers ≡ (separate_timer p.world).timers)
    × (q.next_timer ≡ p.next_timer)
    × (q.world.http.connection_state ≡ h_disconnecting)
    × (q.has_channel ≡ p.has_channel)

separated_disconnecting :
    (p : Polled)
    → p.world.http.connection_state ≡ h_disconnecting
    → (separated p).world.http.connection_state ≡ h_disconnecting
separated_disconnecting p c = ground (arith, c, separated_same p)

-- Where the peer has closed and the reply is not all written, `handleConn` takes the connection's
-- timer away and asks for writing on the channel, but never tells the poller: the kernel's mask is
-- the one from before, no new timer is set, and the connection stays open.
pub handle_conn-Unwatched :
    (ok : Bool) (now : TimeVal) (p : Polled)
    → p.world.http.error ≡ false
    → p.world.http.connection_state ≡ h_disconnecting
    → p.world.events.epollout ≡ true
    → Unwatched p (handle_conn ok now p)
unfolding handle_conn
handle_conn-Unwatched ok now p e c o =
    by_if (Unwatched p) (is_open p) _ _ (λ f. ground (arith, f, c, separated_same p))
      (λ _.
        by_if (Unwatched p) (half_closed p) _ _
          (λ _. (refl, refl, refl, separated_disconnecting p c, refl))
          (λ f. ground (arith, f, e, c, o, separated_same p)))
