-- ===== src/Epoll/Delivery/Tests.antt =====
-- A connection whose socket takes one byte at a time.
use light_agent_gateway.Common.{◌≡◌, List, arith, refl, true, false, none, some, [], ◌∷◌}
use light_agent_gateway.Timer.{TimeVal}
use light_agent_gateway.Http.{
  HttpData, method_get, http_11, h_start, h_connected, parse_uri_state, done,
}
use light_agent_gateway.Io.{WriteEvent, accepted, write_again}
use light_agent_gateway.Http.Analysis.{Host}
use light_agent_gateway.Http.Connection.Output.{IsTaking, IsSending, IsOutput, Delivered}
use light_agent_gateway.Http.World.{Events, no_events}
use light_agent_gateway.Epoll.Timeliness.{Timely}
use light_agent_gateway.Epoll.Delivery.{Round, IsProgress, output_rounds, output_rounds-Delivered}
use light_agent_gateway.Http.Connection.{Polled, default_event}

abbrev host : Host
host = record {
  environment = record { getenv = λ name. none; current_path = []; uptime = 0 };
  stat = λ name. none;
  open_file = λ name. false;
  mmap = λ name size. none;
}

abbrev opened : HttpData
opened = record {
  fd = 5;
  in_buffer = [];
  out_buffer = b'x' ∷ [];
  error = false;
  connection_state = h_connected;
  method = method_get;
  http_version = http_11;
  file_name = [];
  path = [];
  now_read_pos = 0;
  state = parse_uri_state;
  h_state = h_start;
  keep_alive = true;
  headers = [];
  timer = some 2;
}

abbrev polled : HttpData → Events → Polled
polled h e = record {
  world = record {
    http = h;
    socket = record { reads = []; writes = []; sent = [] };
    events = e;
    timers = record { id = 2; deleted = false; expired_time = 13_900; http_data = some 5 } ∷ [];
    counters = record { api_requests = 0; chat_requests = 0 };
  };
  registered = some default_event;
  last_events = default_event;
  has_channel = true;
  has_http = true;
  next_timer = 3;
}

abbrev writing : Events
writing = record no_events { epollout = true }

abbrev now : TimeVal
now = record { tv_sec = 12; tv_usec = 0 }

-- Two bytes are left, and the socket takes one of them at a time.
abbrev sending : Polled
sending = record (polled (record opened { out_buffer = b'x' ∷ b'y' ∷ [] }) no_events) {
  registered = some writing;
  last_events = writing;
}

abbrev one_byte : List WriteEvent
one_byte = accepted 1 ∷ write_again ∷ []

one_byte-IsTaking : IsTaking one_byte
one_byte-IsTaking = record {
  first = 0;
  others = write_again ∷ [];
  takes = refl;
  none_fails = ((λ e. ground (arith, e)), ((λ e. ground (arith, e)), tt));
}

sending-IsSending : IsSending sending
sending-IsSending = record { open_ = (refl, refl); in_sync = refl; asks = λ _. refl }

writing-IsOutput : IsOutput writing
writing-IsOutput = record {
  output = refl;
  no_input = refl;
  not_urgent = refl;
  not_half_closed = refl;
  not_closed = refl;
  no_error = refl;
}

abbrev limit : TimeVal
limit = record { tv_sec = 13; tv_usec = 800_000 }

abbrev at_once : Round
at_once = record { now = now; writes = one_byte; later = now }

-- The second byte goes out a second later.
abbrev late : Round
late = record {
  now = record { tv_sec = 13; tv_usec = 0 };
  writes = one_byte;
  later = record { tv_sec = 13; tv_usec = 100_000 };
}

sending-Timely : Timely 5 limit sending.world
sending-Timely = record { same_fd = refl; early = ((λ d. (refl, omega arith)), tt) }

at_once-IsProgress : IsProgress limit at_once
at_once-IsProgress = record {
  taking = one_byte-IsTaking;
  recent = (omega arith, omega arith);
  in_time = omega arith;
}

late-IsProgress : IsProgress limit late
late-IsProgress = record {
  taking = one_byte-IsTaking;
  recent = (omega arith, omega arith);
  in_time = omega arith;
}

output_rounds-Delivered_example :
    (q : Polled) × (output_rounds host writing (at_once ∷ late ∷ []) sending ≡ done q)
    × Delivered sending q
output_rounds-Delivered_example =
    output_rounds-Delivered limit host writing (at_once ∷ late ∷ []) sending writing-IsOutput
      sending-IsSending sending-Timely (at_once-IsProgress, (late-IsProgress, tt)) (omega arith)
