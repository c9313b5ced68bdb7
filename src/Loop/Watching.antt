-- ===== src/Loop/Watching.antt =====
-- The wakeup channel of a loop: the constructor of EventLoop.cpp, with `createEventfd`, `addToPoller` and
-- `updatePoller`, and the handlers.
use light_agent_gateway.Common.{
  ◌≡◌, ◌⊎◌, refl, ap, ◌∙◌, by_if, Bool, true, false, ◌&&◌, not, Option, none, some, List, [], ◌∷◌,
  if◌then◌else◌, arith, All,
}
use light_agent_gateway.Http.{Run, done, undefined, exhausted}
use light_agent_gateway.Http.World.{Events, no_events}
use light_agent_gateway.Http.Connection.{events_eq}
use light_agent_gateway.Channel.{
  Handlers, no_handlers, set_read_handler, set_conn_handler, handle_events,
}
use light_agent_gateway.Loop.{EventLoop, new_loop, wakeup}
use light_agent_gateway.Loop

-- The loop with its wakeup channel: the masks, here and in the poller, and whether `fd2chan_` points to it.
pub record Watching : Type 0 where
  pub loop : EventLoop
  pub events : Events
  pub last_events : Events
  pub registered : Option Events
  pub has_channel : Bool

abbrev pub wakeup_events : Events
wakeup_events = record no_events { epollin = true; epollet = true }

abbrev pub set_events : Events → Watching → Watching
set_events e w = record w { events = e }

-- The constructor; `ok` tells whether `epoll_ctl` succeeds. Where there is no eventfd, the program ends.
unfoldable pub new_watching : Bool → Watching
new_watching ok = record {
  loop = new_loop;
  events = wakeup_events;
  last_events = wakeup_events;
  registered = if ok then some wakeup_events else none;
  has_channel = ok;
}

unfoldable pub handle_read : Watching → Watching
unfolding Loop.handle_read
handle_read w = record w { loop = Loop.handle_read w.loop; events = wakeup_events }

-- `updatePoller` without a timeout.
unfoldable pub handle_conn : Bool → Watching → Watching
handle_conn ok w =
    if events_eq w.last_events w.events
    then w
    else if ok
    then record w { last_events = w.events; registered = some w.events }
    else record w { last_events = w.events; has_channel = false }

abbrev pub wakeup_handlers : Bool → Handlers Watching
wakeup_handlers ok =
    set_conn_handler (λ w. done (handle_conn ok w))
      (set_read_handler (λ w. done (handle_read w)) no_handlers)

-- What happens to the eventfd: a thread writes to it, or the poller reports it, with what `epoll_ctl` is
-- to return.
pub data Happening : Type 0 where
  writes : Happening
  reports : (ok : Bool) → Events → Happening

unfoldable pub happens : Happening → Watching → Run Watching
unfolding wakeup
happens writes w = done (record w { loop = wakeup w.loop })
happens (reports ok rev) w = handle_events set_events (wakeup_handlers ok) rev w

abbrev pub and_then : Run Watching → (Watching → Run Watching) → Run Watching
and_then (done w) f = f w
and_then undefined f = undefined
and_then exhausted f = exhausted

unfoldable pub all_happen : List Happening → Watching → Run Watching
all_happen [] w = done w
all_happen (x ∷ xs) w = and_then (happens x w) (all_happen xs)

-- What the kernel reports for the mask: input, or what it reports for every mask.
abbrev pub IsReported : Happening → Type 0
IsReported writes = Unit
IsReported (reports ok rev) = (rev.epollin ≡ true) ⊎ (rev.epollhup ≡ true) ⊎ (rev.epollerr ≡ true)

-- The loop as the model without the channel has it: input is read, and errors are not.
abbrev pub moved : Happening → EventLoop → EventLoop
moved writes l = wakeup l
moved (reports ok rev) l = if rev.epollin && not rev.epollerr then Loop.handle_read l else l

pub all_moved : List Happening → EventLoop → EventLoop
all_moved [] l = l
all_moved (x ∷ xs) l = all_moved xs (moved x l)

-- The kernel and the poller watch for the next write.
pub record IsWatched (w : Watching) : Type 0 where
  pub kernel : w.registered ≡ some wakeup_events
  pub last : w.last_events ≡ wakeup_events
  pub table : w.has_channel ≡ true

record Moved (l : EventLoop) (w : Watching) : Type 0 where
  same_loop : w.loop ≡ l
  watched : IsWatched w

set_events-IsWatched :
    (e : Events) (l : EventLoop) (w : Watching)
    → IsWatched w
    → IsWatched (record w { loop = l; events = e })
set_events-IsWatched e l w s = record { kernel = s.kernel; last = s.last; table = s.table }

-- The mask is the one that the channel remembers, so the poller is left alone.
handle_conn-unchanged :
    (ok : Bool) (w : Watching)
    → w.last_events ≡ wakeup_events
    → w.events ≡ wakeup_events
    → handle_conn ok w ≡ w
unfolding handle_conn
handle_conn-unchanged ok w l e = ground (arith, l, e)

report_of_input :
    (ok : Bool) (rev : Events) (w : Watching)
    → w.last_events ≡ wakeup_events
    → (rev.epollin && not rev.epollerr) ≡ true
    → happens (reports ok rev) w ≡ done (handle_read (set_events no_events w))
unfolding happens handle_events handle_read
report_of_input ok rev w l i =
    ground (arith, i, handle_conn-unchanged ok (handle_read (set_events no_events w)) l refl)

other_report :
    (ok : Bool) (rev : Events) (w : Watching)
    → IsReported (reports ok rev)
    → (rev.epollin && not rev.epollerr) ≡ false
    → happens (reports ok rev) w ≡ done (set_events no_events w)
unfolding happens handle_events handle_read
other_report ok rev w r i = ground (arith, r, i)

happens-Moved :
    (x : Happening) (w : Watching)
    → IsReported x
    → IsWatched w
    → (w' : Watching) × (happens x w ≡ done w') × Moved (moved x w.loop) w'
unfolding happens handle_read
happens-Moved writes w i s = (
  record w { loop = wakeup w.loop },
  refl,
  record { same_loop = refl; watched = set_events-IsWatched w.events (wakeup w.loop) w s },
)
happens-Moved (reports ok rev) w i s =
    by_if (λ l. (w' : Watching) × (happens (reports ok rev) w ≡ done w') × Moved l w')
      (rev.epollin && not rev.epollerr) _ _
      (λ e. (
        _,
        report_of_input ok rev w s.last e,
        record {
          same_loop = refl;
          watched = set_events-IsWatched wakeup_events (Loop.handle_read w.loop) w s;
        },
      ))
      (λ e. (
        _,
        other_report ok rev w i e,
        record { same_loop = refl; watched = set_events-IsWatched no_events w.loop w s },
      ))

all_happen-Moved :
    (xs : List Happening) (w : Watching)
    → All IsReported xs
    → IsWatched w
    → (w' : Watching) × (all_happen xs w ≡ done w') × Moved (all_moved xs w.loop) w'
unfolding all_happen all_moved
all_happen-Moved [] w r s = (w, refl, record { same_loop = refl; watched = s })
all_happen-Moved (x ∷ xs) w (i, r) s =
    let (w', e, m) = happens-Moved x w i s in
    let (w'', f, n) = all_happen-Moved xs w' r m.watched in
    (
      w'',
      ap (λ u. and_then u (all_happen xs)) e ∙ f,
      record { same_loop = n.same_loop ∙ ap (all_moved xs) m.same_loop; watched = n.watched },
    )

-- A loop is made and `epoll_ctl` succeeds; then threads write to its eventfd, and its thread handles
-- reports of the eventfd, in any order, each with the input or with one of the two errors that the kernel reports
-- for every mask. Then the handlers return, and the loop is the one of the model without the channel,
-- in which a report of input without an error takes the counter; and however often the channel
-- was handled, the kernel's mask is still the one for input, edge-triggered, the channel remembers
-- that mask, and the poller's table points to the channel: the next write is reported.
pub all_happen-IsWatched :
    (xs : List Happening)
    → All IsReported xs
    → (w : Watching) × (all_happen xs (new_watching true) ≡ done w)
      × (w.loop ≡ all_moved xs new_loop)
      × IsWatched w
unfolding new_watching
all_happen-IsWatched xs r =
    let (w, e, m) =
      all_happen-Moved xs (new_watching true) r
        (record { kernel = refl; last = refl; table = refl }) in
    (w, e, m.same_loop, m.watched)
