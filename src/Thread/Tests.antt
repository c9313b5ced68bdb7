-- ===== src/Thread/Tests.antt =====
-- A thread that could be created the second time only, and is never joined.
use light_agent_gateway.Common.{◌+◌, ◌≡◌, ◌≤◌, refl, true, false, some, List, [], ◌∷◌}
use light_agent_gateway.Thread.{Thread, new_thread, start, destroy, Call, starts, make_all}
use light_agent_gateway.Thread.Release.{released_once}

abbrev calls : List Call
calls = starts false ∷ starts true ∷ []

abbrev left_running : Thread
left_running = record (new_thread []) {
  started = true;
  created = 1;
  data_news = 2;
  data_deletes = 1;
}

made : make_all calls (new_thread []) ≡ some left_running
unfolding make_all start
made = refl

released_once_example :
    ((destroy left_running).joins + (destroy left_running).detaches
      ≡ (destroy left_running).created)
    × ((destroy left_running).created ≤ 1)
    × ((destroy left_running).data_news
        ≡ (destroy left_running).data_deletes + (destroy left_running).created)
released_once_example = released_once [] calls left_running made
