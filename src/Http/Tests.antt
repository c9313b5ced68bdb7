-- ===== src/Http/Tests.antt =====
-- Concrete connections for the theorems about HttpData.cpp.
use light_agent_gateway.Common.{◌≡◌, ◌≢◌, false, none, some, [], ◌∷◌, ◌++◌, arith}
use light_agent_gateway.Common.Bytes.{Bytes, codes}
use light_agent_gateway.Io.{received, read_again, accepted}
use light_agent_gateway.Http.{
  HttpData, method_get, http_11, h_start, h_connected, parse_uri_state, uri_success, header_success,
  header_again, done, undefined, exhausted,
}
use light_agent_gateway.Http.World.{World, no_events}
use light_agent_gateway.Http.Analysis.{Host}
use light_agent_gateway.Http.RequestLine.{parse_uri}
use light_agent_gateway.Http.RequestLine.Target.{request_line, file_of}
use light_agent_gateway.Http.RequestLine.Laws.{parse_uri-request_line}
use light_agent_gateway.Http.Headers.{parse_headers}
use light_agent_gateway.Http.Headers.Fields.{IsField, field, block_onto}
use light_agent_gateway.Http.Headers.Blocks.{parse_headers-block, parsed}
use light_agent_gateway.Http.Headers.Resume.{
  parse_headers-split_value, first_call, waiting, resumed,
}
use light_agent_gateway.Http.Serving.{handle_read}
use light_agent_gateway.Http.Serving.Termination.{handle_read-ends}

abbrev opened : HttpData
opened = record {
  fd = 5;
  in_buffer = [];
  out_buffer = [];
  error = false;
  connection_state = h_connected;
  method = method_get;
  http_version = http_11;
  file_name = [];
  path = [];
  now_read_pos = 0;
  state = parse_uri_state;
  h_state = h_start;
  keep_alive = false;
  headers = [];
  timer = none;
}

abbrev host : Host
host = record {
  environment = record { getenv = λ name. none; current_path = []; uptime = 0 };
  stat = λ name. none;
  open_file = λ name. false;
  mmap = λ name size. none;
}

abbrev world : World
world = record {
  http = opened;
  socket = record {
    reads = received (b'G' ∷ b'E' ∷ []) ∷ read_again ∷ [];
    writes = accepted 9 ∷ [];
    sent = [];
  };
  events = no_events;
  timers = [];
  counters = record { api_requests = 0; chat_requests = 0 };
}

handle_read-ends_example : handle_read 3 host world ≢ exhausted
handle_read-ends_example = handle_read-ends 3 host world (omega arith)

abbrev name : Bytes
name = b'a' ∷ b'/' ∷ b'b' ∷ []

parse_uri-request_line_example :
    parse_uri (record opened {
      in_buffer =
          request_line method_get name (some (b'q' ∷ [])) http_11 ++ b'\r' ∷ b'\n' ∷ b'x' ∷ [];
      now_read_pos = 0;
    })
    ≡ (
      uri_success,
      record opened {
        in_buffer = b'\n' ∷ b'x' ∷ [];
        method = method_get;
        file_name = file_of name (some (b'q' ∷ []));
        http_version = http_11;
        now_read_pos = 0;
      },
    )
unfolding codes
parse_uri-request_line_example =
    parse_uri-request_line method_get name (some (b'q' ∷ [])) http_11 (b'\n' ∷ b'x' ∷ []) opened
      (omega arith) (omega arith) (omega arith) tt

host-IsField : IsField (b'H' ∷ b'o' ∷ [], b'x' ∷ b'y' ∷ [])
host-IsField =
    field b'H' (b'o' ∷ []) b'x' (b'y' ∷ []) (omega arith) (omega arith) (omega arith) (omega arith)
      (omega arith)

parse_headers-block_example :
    parse_headers (record opened {
      in_buffer = b'\n' ∷ block_onto ((b'H' ∷ b'o' ∷ [], b'x' ∷ b'y' ∷ []) ∷ []) (b'b' ∷ []);
      h_state = h_start;
    })
    ≡ done (header_success, parsed opened ((b'H' ∷ b'o' ∷ [], b'x' ∷ b'y' ∷ []) ∷ []) (b'b' ∷ []))
parse_headers-block_example =
    parse_headers-block opened (b'H' ∷ b'o' ∷ [], b'x' ∷ b'y' ∷ []) [] (b'b' ∷ [])
      (host-IsField, tt)

parse_headers-split_value_example :
    (parse_headers (first_call opened b'H' (b'o' ∷ []) b'x' (b'y' ∷ []))
      ≡ done (header_again, waiting opened b'H' (b'o' ∷ []) b'x' (b'y' ∷ [])))
    × (parse_headers
          (resumed opened b'H' (b'o' ∷ []) b'x' (b'y' ∷ []) (b'z' ∷ []) (b'\r' ∷ b'\n' ∷ []))
        ≡ undefined)
parse_headers-split_value_example =
    parse_headers-split_value opened b'H' (b'o' ∷ []) b'x' (b'y' ∷ []) (b'z' ∷ [])
      (b'\r' ∷ b'\n' ∷ []) (omega arith) (omega arith) (omega arith) (omega arith) (omega arith)
      (omega arith)
