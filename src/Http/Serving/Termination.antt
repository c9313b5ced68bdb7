-- ===== src/Http/Serving/Termination.antt =====
-- The recursion of `handleRead` and its measure.
use light_agent_gateway.Common.{
  ℕ, zero, suc, ◌+◌, ◌≤◌, ◌<◌, ◌≡◌, ◌≢◌, refl, Bool, true, false, [], if◌then◌else◌, length, arith,
}
use light_agent_gateway.Common.Bytes.{codes}
use light_agent_gateway.Io.{Read, readn_string}
use light_agent_gateway.Http.{Run, done, undefined, exhausted, finish_state}
use light_agent_gateway.Http.World.{World, reset, separate_timer}
use light_agent_gateway.Http.Analysis.{Host}
use light_agent_gateway.Http.Serving.{
  stage_uri, parse_input, read_request, respond, handle_read, is_at_uri, received, disconnecting,
  fail,
}
use light_agent_gateway.Http.Serving.Progress.{
  incoming, pending, readn-pending, handle_write-keeps, After,
}
use light_agent_gateway.Http.Serving.Stages.{
  Advances, stage_uri-Advances, After-map, fail-Shrinks, fail-state,
}

-- The bytes not yet taken, and one more while a request line has been taken already.
abbrev pub measure : World → ℕ
measure w = pending w + (if is_at_uri w.http.state then 0 else 1)

-- A handler's end: at most the input, and less of the measure for a finished request.
record Falls (m : ℕ) (w' : World) : Type 0 where
  falls : w'.http.error ≡ false → w'.http.state ≡ finish_state → suc (pending w') ≤ m

Advances-Falls : (w w' : World) → Advances w w' → Falls (measure w) w'
Advances-Falls w w' a = ground (arith, a.shrinks.shorter, a.shrinks.reads_same)

-- A handler that stops before the parsing leaves the state as it was.
stopped-Falls :
    (w w' : World) → w'.http.state ≡ w.http.state → pending w' ≤ pending w → Falls (measure w) w'
stopped-Falls w w' e l = ground arith

stage_uri-Falls :
    (host : Host) (w w1 : World)
    → w1.http.state ≡ w.http.state
    → pending w1 ≤ pending w
    → After (Falls (measure w)) (stage_uri host w1)
stage_uri-Falls host w w1 e l =
    After-map (stage_uri host w1) (λ w' a. ground (arith, Advances-Falls w1 w' a))
      (stage_uri-Advances host w1)

parse_input-Falls :
    (host : Host) (w : World) (r : Read)
    → length r.buffer + incoming r.reads ≤ pending w
    → After (Falls (measure w)) (parse_input host w r)
unfolding parse_input
parse_input-Falls host w r l = ground (
  arith,
  stage_uri-Falls host w (disconnecting (received w r)) refl l,
  stage_uri-Falls host w (received w r) refl l,
  stopped-Falls w (disconnecting (received w r)) refl l,
  stopped-Falls w (record (received w r) { http = record (w.http) { in_buffer = [] } }) refl,
  stopped-Falls w (fail (received w r) (codes "Bad Request")),
  fail-Shrinks (received w r) (codes "Bad Request"),
  fail-state (received w r) (codes "Bad Request"),
)

respond-measure :
    (m : ℕ) (w : World) → Falls m w → (respond w).1 ≡ true → suc (measure (respond w).0) ≤ m
unfolding respond reset separate_timer
respond-measure m w f e = ground (arith, handle_write-keeps w)

read_request-Falls : (host : Host) (w : World) → After (Falls (measure w)) (read_request host w)
unfolding read_request
read_request-Falls host w =
    parse_input-Falls host w (readn_string w.socket.reads w.http.in_buffer false 0)
      (ground (arith, readn-pending w.socket.reads w.http.in_buffer false 0))

-- The world that `handleRead` leaves, or the recursive call, by the pair that `respond` gives.
abbrev next : Run World → World × Bool → Run World
next r (w, b) = if b then r else done w

-- One call of `handleRead` behind its parsing.
abbrev turn : ℕ → Host → Run World → Run World
turn fuel host r = elim r [
  | done w' ↦
      let again = handle_read fuel host (respond w').0 in
      if (respond w').1 then again else done (respond w').0
  | undefined ↦ undefined
  | exhausted ↦ exhausted
]

next-ends : (r : Run World) (p : World × Bool) → (p.1 ≡ true → r ≢ exhausted) → next r p ≢ exhausted
next-ends r (w, true) f = f refl
next-ends r (w, false) f = ground arith

turn-ends :
    (fuel m : ℕ) (host : Host) (r : Run World)
    → ((w : World) → measure w < fuel → handle_read fuel host w ≢ exhausted)
    → m < suc fuel
    → After (Falls m) r
    → turn fuel host r ≢ exhausted
turn-ends fuel m host (done w') ih l f =
    next-ends (handle_read fuel host (respond w').0) (respond w')
      (λ e. ih (respond w').0 (omega (arith, respond-measure m w' f e)))
turn-ends fuel m host undefined ih l f = ground arith
turn-ends fuel m host exhausted ih l f = absurd f

-- `handleRead` ends: fuel above the bytes in the input buffer and those still to come from the socket,
-- and one more while a request line has been taken already, is never used up.
pub handle_read-ends :
    (fuel : ℕ) (host : Host) (w : World) → measure w < fuel → handle_read fuel host w ≢ exhausted
unfolding handle_read
handle_read-ends zero host w l = absurd (omega (arith, l))
handle_read-ends (suc fuel) host w l =
    turn-ends fuel (measure w) host (read_request host w) (handle_read-ends fuel host) l
      (read_request-Falls host w)
