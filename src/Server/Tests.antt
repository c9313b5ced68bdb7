-- ===== src/Server/Tests.antt =====
-- Concrete servers, with two threads.
use light_agent_gateway.Common.{◌≡◌, refl, true, false, none, some, List, [], ◌∷◌, arith}
use light_agent_gateway.Common.Decimal.{pos}
use light_agent_gateway.Http.World.{Events, no_events}
use light_agent_gateway.Server.{
  fresh_pool, new_pool, Fcntl, set_socket_non_blocking, connection, accept_failed, Server,
  accept_events, Report, serve, handle_events,
}
use light_agent_gateway.Server.Listening.{
  SocketCalls, socket_bind_listen, to_list, fresh_server, new_server, start,
  socket_bind_listen-no_leak,
}
use light_agent_gateway.Server.Turns.{start_pool-InTurn}
use light_agent_gateway.Server.Serving.{serves_in_turn}
use light_agent_gateway.Server.Stalling.{handle_events-stalls}

abbrev calls : SocketCalls
calls = record { socket = some 3; set_option = true; binds = true; listens = true }

abbrev no_bind : SocketCalls
no_bind = record calls { binds = false }

abbrev works : Fcntl
works = record { flags = some 2; is_set = true }

abbrev fails : Fcntl
fails = record { flags = none; is_set = true }

abbrev readable : Events
readable = record no_events { epollin = true }

abbrev reports : List Report
reports =
    record {
      revents = readable;
      mod_ok = true;
      accepts = connection 7 works ∷ connection 8 works ∷ accept_failed ∷ [];
    }
    ∷ record { revents = record no_events { epollerr = true }; mod_ok = true; accepts = [] }
    ∷ record {
      revents = readable;
      mod_ok = true;
      accepts = connection 100000 works ∷ connection 9 works ∷ [];
    }
    ∷ []

abbrev served : Server
served = fresh_server (fresh_pool 2)

socket_bind_listen-no_leak_example :
    ((socket_bind_listen no_bind (pos 8080)).returned ≡ none)
    × ((socket_bind_listen no_bind (pos 8080)).opened
        ≡ to_list (socket_bind_listen no_bind (pos 8080)).returned)
socket_bind_listen-no_leak_example = socket_bind_listen-no_leak no_bind (pos 8080)

new_server_test : new_server calls works (pos 2) (pos 8080) ≡ some served
unfolding new_server new_pool set_socket_non_blocking
new_server_test = refl

serves_in_turn_example :
    (t : Server) × (serve reports (start true served) ≡ some t)
    × (t.queued ≡ (1, 7) ∷ (2, 8) ∷ (2, 9) ∷ [])
    × (t.closed ≡ 100000 ∷ [])
    × (t.registered ≡ some accept_events)
unfolding set_socket_non_blocking
serves_in_turn_example =
    serves_in_turn calls works 2 (pos 8080) served reports new_server_test
      ((refl, (refl, (refl, (tt, tt)))), ((refl, tt), ((refl, (refl, (refl, tt))), tt)))

handle_events-stalls_example :
    (t : Server) × (handle_events true readable
        (connection 7 works ∷ connection 8 fails ∷ connection 9 works ∷ [])
        (start true served)
      ≡ some t)
    × (t.accepted ≡ 7 ∷ 8 ∷ [])
    × (t.queued ≡ (1, 7) ∷ [])
    × (t.closed ≡ [])
    × (t.registered ≡ some no_events)
unfolding start set_socket_non_blocking
handle_events-stalls_example =
    handle_events-stalls 2 0 readable (connection 7 works ∷ []) (connection 9 works ∷ []) 7 fails
      (start true served) (start_pool-InTurn 1) refl refl ((omega arith, refl), tt) (omega arith)
      refl
