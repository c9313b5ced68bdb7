-- ===== src/Http/Connection/Refusals/Tests.antt =====
-- A concrete request for a file that is not there, on a connection with a byte of an earlier reply left.
use light_agent_gateway.Common.{◌≡◌, refl, true, false, none, some, [], ◌∷◌, ◌++◌, drop, arith}
use light_agent_gateway.Common.Bytes.{Bytes, codes, is_prefix, bytes_eq}
use light_agent_gateway.Timer.{TimeVal}
use light_agent_gateway.Io.{received, read_again, accepted}
use light_agent_gateway.Io.Reading.{Burst, quiet, chunk}
use light_agent_gateway.Http.{http_11, method_get, h_connected, parse_uri_state, h_start, done}
use light_agent_gateway.Http.Headers.Fields.{field}
use light_agent_gateway.Http.World.{Events, no_events}
use light_agent_gateway.Http.World.Fits.{error_fits}
use light_agent_gateway.Http.Analysis.{Host}
use light_agent_gateway.Http.Serving.Parsing.{Field, IsHead}
use light_agent_gateway.Http.World.Page.{TakesPage}
use light_agent_gateway.Http.Serving.Files.{get_head}
use light_agent_gateway.Http.Serving.Refusals.{Refusal, missing, text_of, IsMissing}
use light_agent_gateway.Http.Connection.{Polled, default_event, handle_events}
use light_agent_gateway.Http.Connection.Cycle.{with_reads}
use light_agent_gateway.Http.Connection.Refusals.{Dismissed, handle_events-Dismissed}

abbrev empty_host : Host
empty_host = record {
  environment = record { getenv = λ name. none; current_path = []; uptime = 0 };
  stat = λ name. none;
  open_file = λ name. false;
  mmap = λ name size. none;
}

abbrev polled : Polled
polled = record {
  world = record {
    http = record {
      fd = 5;
      in_buffer = [];
      out_buffer = b'!' ∷ [];
      error = false;
      connection_state = h_connected;
      method = method_get;
      http_version = http_11;
      file_name = [];
      path = [];
      now_read_pos = 0;
      state = parse_uri_state;
      h_state = h_start;
      keep_alive = true;
      headers = [];
      timer = none;
    };
    socket = record { reads = []; writes = accepted 4096 ∷ accepted 4096 ∷ []; sent = [] };
    events = no_events;
    timers = [];
    counters = record { api_requests = 0; chat_requests = 0 };
  };
  registered = some default_event;
  last_events = default_event;
  has_channel = true;
  has_http = true;
  next_timer = 3;
}

abbrev host_field : Field
host_field = (b'H' ∷ b'o' ∷ [], b'x' ∷ b'y' ∷ [])

abbrev lost : Refusal
lost = missing b'a' (b'b' ∷ []) none http_11 host_field []

lost-IsHead : IsHead (get_head b'a' (b'b' ∷ []) none http_11 host_field [])
unfolding codes
lost-IsHead = record {
  no_question_mark = omega arith;
  no_space = omega arith;
  no_return = omega arith;
  selects = tt;
  fields = (
    field b'H' (b'o' ∷ []) b'x' (b'y' ∷ []) (omega arith) (omega arith) (omega arith) (omega arith)
        (omega arith),
    tt,
  );
}

lost-IsMissing : IsMissing empty_host (b'a' ∷ b'b' ∷ [])
unfolding codes is_prefix bytes_eq
lost-IsMissing = record { not_api = refl; not_hello = refl; not_favicon = refl; not_found = refl }

page_fits : TakesPage polled.world.socket.writes 404 (codes "Not Found!")
unfolding codes
page_fits =
    let (header, body) = error_fits 404 (b' ' ∷ codes "Not Found!") (omega arith) (omega arith) in
    record {
      first = 4096;
      second = 4096;
      others = [];
      takes = refl;
      header_fits = omega (arith, header);
      body_fits = omega (arith, body);
    }

abbrev text : Bytes
text = text_of lost []

text-Burst : Burst (received (b'E' ∷ drop 2 text) ∷ []) (b'E' ∷ drop 2 text)
unfolding codes
text-Burst = chunk b'E' (drop 2 text) quiet

abbrev input : Events
input = record no_events { epollin = true }

abbrev now : TimeVal
now = record { tv_sec = 12; tv_usec = 0 }

handle_events-Dismissed_example :
    (q : Polled) × (handle_events 1 empty_host true now input
        (with_reads polled (b'G' ∷ []) ((received (b'E' ∷ drop 2 text) ∷ []) ++ read_again ∷ []))
      ≡ done q)
    × Dismissed polled 404 (codes "Not Found!") q
unfolding codes
handle_events-Dismissed_example =
    handle_events-Dismissed 0 empty_host now input polled lost [] (b'G' ∷ []) []
      (record { input = refl; no_output = refl; no_error = refl }) (lost-IsHead, lost-IsMissing)
      text-Burst refl page_fits
