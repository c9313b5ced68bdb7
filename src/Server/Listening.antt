-- ===== src/Server/Listening.antt =====
-- The listening socket: `socket_bind_listen` of Util.cpp, and the constructor and `start` of the
-- server. What the system calls return is an argument.
use light_agent_gateway.Common.{
  ℕ, suc, ◌≡◌, ◌<◌, Bool, true, false, ◌&&◌, Option, none, some, List, [], ◌∷◌, leb, if◌then◌else◌,
  arith, zero,
}
use light_agent_gateway.Common.Decimal.{ℤ, pos, negsuc}
use light_agent_gateway.Http.World.{no_events}
use light_agent_gateway.Server.{
  EventLoopThreadPool, fresh_pool, new_pool, start_pool, Fcntl, set_socket_non_blocking,
  non_blocking, Server, accept_events,
}

-- What `socket` returns (`none` for -1), and whether `setsockopt`, `bind` and `listen` succeed.
pub record SocketCalls : Type 0 where
  pub socket : Option ℕ
  pub set_option : Bool
  pub binds : Bool
  pub listens : Bool

-- What the function returns, and the descriptors that it leaves open.
pub record Listening : Type 0 where
  pub returned : Option ℕ
  pub opened : List ℕ

abbrev pub failed_with : List ℕ → Listening
failed_with fds = record { returned = none; opened = fds }

abbrev pub is_port : ℤ → Bool
is_port (pos n) = leb n 65535
is_port (negsuc n) = false

-- `close(listen_fd)`: the descriptor is the last that was opened.
abbrev pub close_last : List ℕ → List ℕ
close_last [] = []
close_last (fd ∷ fds) = fds

unfoldable pub socket_bind_listen : SocketCalls → ℤ → Listening
socket_bind_listen calls port =
    if is_port port
    then (elim calls.socket [
      | none ↦ failed_with []
      | some fd ↦
          (let opened = fd ∷ [] in
            if calls.set_option
            then (if calls.binds
                then (if calls.listens
                    then record { returned = some fd; opened = opened }
                    else failed_with (close_last opened))
                else failed_with (close_last opened))
            else failed_with (close_last opened))
    ])
    else failed_with []

abbrev pub all_succeed : SocketCalls → ℤ → Bool
all_succeed calls port =
    is_port port
    && (non_blocking calls.socket && (calls.set_option && (calls.binds && calls.listens)))

abbrev pub to_list : Option ℕ → List ℕ
to_list none = []
to_list (some fd) = fd ∷ []

abbrev pub fresh_server : EventLoopThreadPool → Server
fresh_server pool = record {
  pool = pool;
  started = false;
  events = no_events;
  last_events = no_events;
  registered = none;
  has_channel = false;
  accepted = [];
  queued = [];
  closed = [];
}

-- The constructor: `none` is `abort`. For a descriptor of -1, `fcntl` fails.
unfoldable pub new_server : SocketCalls → Fcntl → ℤ → ℤ → Option Server
unfolding socket_bind_listen
new_server calls f thread_num port = elim (new_pool thread_num) [
  | none ↦ none
  | some pool ↦ (elim (socket_bind_listen calls port).returned [
    | none ↦ none
    | some fd ↦
        (if non_blocking (set_socket_non_blocking f) then some (fresh_server pool) else none)
  ])
]

pub new_server_lem :
    (calls : SocketCalls) (f : Fcntl) (n : ℕ) (port : ℤ) (s : Server)
    → new_server calls f (pos n) port ≡ some s
    → (0 < n) × (s ≡ fresh_server (fresh_pool n))
unfolding new_server new_pool
new_server_lem calls f zero port s e = ground arith
new_server_lem calls f (suc n) port s e = ground arith

-- `start`, with `addToPoller` for a channel without a timeout.
unfoldable pub start : Bool → Server → Server
unfolding start_pool
start ok s = record s {
  pool = start_pool s.pool;
  started = true;
  events = accept_events;
  last_events = accept_events;
  registered = if ok then some accept_events else s.registered;
  has_channel = ok;
}

-- Whatever the system calls return: `socket_bind_listen` returns a descriptor if and only if the port
-- is from 0 to 65535 and `socket`, `setsockopt`, `bind` and `listen` all succeed, and then it is the
-- one that `socket` gave; and the descriptors that it leaves open are the one that it returns, and none
-- where it returns -1.
pub socket_bind_listen-no_leak :
    (calls : SocketCalls) (port : ℤ)
    → ((socket_bind_listen calls port).returned
        ≡ (if all_succeed calls port then calls.socket else none))
      × ((socket_bind_listen calls port).opened ≡ to_list (socket_bind_listen calls port).returned)
unfolding socket_bind_listen
socket_bind_listen-no_leak calls port = ground arith
