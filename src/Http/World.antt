-- ===== src/Http/World.antt =====
-- What a connection's handlers work on beside its own state: the socket, the channel's events, the
-- timers and the gateway's counters; and the handlers that only write: `reset`, `seperateTimer`,
-- `handleError` and `handleWrite`.
pub mod Fits
pub mod Page
use light_agent_gateway.Common.{
  ℕ, Bool, true, false, ◌&&◌, ◌||◌, not, Option, none, some, List, [], ◌∷◌, ◌++◌, ◌==◌,
  if◌then◌else◌, length,
}
use light_agent_gateway.Common.Bytes.{Bytes, codes}
use light_agent_gateway.Common.Decimal.{to_string}
use light_agent_gateway.Gateway.{Counters}
use light_agent_gateway.Io.{Socket, writen, writen_string}
use light_agent_gateway.Timer.{TimerNode, clear_linked}
use light_agent_gateway.Http.{HttpData, h_disconnected, ConnectionState, parse_uri_state, h_start}

-- The bits of an event mask that the program uses.
pub record Events : Type 0 where
  pub epollin : Bool
  pub epollout : Bool
  pub epollet : Bool
  pub epolloneshot : Bool
  pub epollpri : Bool
  pub epollrdhup : Bool
  pub epollerr : Bool
  pub epollhup : Bool

abbrev pub no_events : Events
no_events = record {
  epollin = false;
  epollout = false;
  epollet = false;
  epolloneshot = false;
  epollpri = false;
  epollrdhup = false;
  epollerr = false;
  epollhup = false;
}

pub record World : Type 0 where
  pub http : HttpData
  pub socket : Socket
  pub events : Events
  pub timers : List TimerNode
  pub counters : Counters

abbrev is_node : ℕ → List TimerNode → Bool
is_node id [] = false
is_node id (n ∷ ns) = n.id == id || is_node id ns

-- `seperateTimer`: the node is marked and forgotten, if it still exists.
unfoldable pub separate_timer : World → World
separate_timer w = elim w.http.timer [
  | none ↦ w
  | some id ↦
      if is_node id w.timers
      then record w { http = record (w.http) { timer = none }; timers = clear_linked id w.timers }
      else w
]

unfoldable pub reset : World → World
unfolding separate_timer
reset w = separate_timer (record w {
  http = record (w.http) {
    file_name = [];
    path = [];
    now_read_pos = 0;
    state = parse_uri_state;
    h_state = h_start;
    headers = [];
  };
})

-- The UTF-8 text of the title.
abbrev pub title : Bytes
title = 229 ∷ 147 ∷ 142 ∷ b'~' ∷ 229 ∷ 135 ∷ 186 ∷ 233 ∷ 148 ∷ 153 ∷ 228 ∷ 186 ∷ 134 ∷ []

unfoldable pub error_body : ℕ → Bytes → Bytes
error_body err_num short_msg =
    codes "<html><title>"
    ++ (title
        ++ (codes "</title><body bgcolor=\"ffffff\">"
            ++ (to_string err_num
                ++ (short_msg ++ codes "<hr><em> LinYa's Web Server</em>\n</body></html>"))))

unfoldable pub error_header : ℕ → Bytes → Bytes
error_header err_num short_msg =
    codes "HTTP/1.1 "
    ++ (to_string err_num
        ++ (short_msg
            ++ (codes "\r\nContent-Type: text/html\r\nConnection: Close\r\nContent-Length: "
                ++ (to_string (length (error_body err_num short_msg))
                    ++ codes "\r\nServer: LinYa's Web Server\r\n\r\n"))))

-- The reply goes straight to the socket, and what `writen` returns is not looked at.
unfoldable pub handle_error : World → ℕ → Bytes → World
handle_error w err_num short_msg =
    let msg : Bytes = b' ' ∷ short_msg in
    let (_, s) = writen w.socket (error_header err_num msg) in
    let (_, s') = writen s (error_body err_num msg) in record w { socket = s' }

abbrev is_disconnected : ConnectionState → Bool
is_disconnected h_disconnected = true
is_disconnected _ = false

abbrev non_empty : Bytes → Bool
non_empty [] = false
non_empty (c ∷ s) = true

-- Behind the call of `writen`: an error clears the events and is remembered.
abbrev pub written : World → Option ℕ × Bytes × Socket → World
written w (none, left, s) = record w {
  http = record (w.http) { out_buffer = left; error = true };
  socket = s;
  events = no_events;
}
written w (some n, left, s) = record w { http = record (w.http) { out_buffer = left }; socket = s }

abbrev pub want_out : World → World
want_out w =
    if non_empty w.http.out_buffer
    then record w { events = record (w.events) { epollout = true } }
    else w

unfoldable pub handle_write : World → World
handle_write w =
    if not w.http.error && not (is_disconnected w.http.connection_state)
    then want_out (written w (writen_string w.socket w.http.out_buffer))
    else w
