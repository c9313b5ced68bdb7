-- ===== src/Http/Analysis/Tests.antt =====
-- Concrete requests below api/.
use light_agent_gateway.Common.{◌≡◌, refl, false, none, []}
use light_agent_gateway.Common.Bytes.{Bytes, codes, to_lower_copy}
use light_agent_gateway.Common.Decimal.{to_string}
use light_agent_gateway.Http.{
  HttpData, method_get, method_head, http_11, h_start, h_connected, analysis_state,
}
use light_agent_gateway.Http.HeaderMap.{insert}
use light_agent_gateway.Http.World.{World, no_events}
use light_agent_gateway.Http.Analysis.{Host, analysis_request}
use light_agent_gateway.Http.Analysis.Laws.{asked, SameHead, analysis_request-SameHead}

abbrev length_name : Bytes
length_name = codes "Content-Length"

length_name-lower : to_lower_copy length_name ≡ codes "content-length"
unfolding codes to_lower_copy
length_name-lower = refl

abbrev no_headers : HttpData
no_headers = record {
  fd = 5;
  in_buffer = [];
  out_buffer = [];
  error = false;
  connection_state = h_connected;
  method = method_get;
  http_version = http_11;
  file_name = [];
  path = [];
  now_read_pos = 0;
  state = analysis_state;
  h_state = h_start;
  keep_alive = false;
  headers = [];
  timer = none;
}

abbrev host : Host
host = record {
  environment = record { getenv = λ name. none; current_path = []; uptime = 0 };
  stat = λ name. none;
  open_file = λ name. false;
  mmap = λ name size. none;
}

abbrev world : World
world = record {
  http = record no_headers { headers = insert length_name (to_string 2) [] };
  socket = record { reads = []; writes = []; sent = [] };
  events = no_events;
  timers = [];
  counters = record { api_requests = 0; chat_requests = 0 };
}

analysis_request-SameHead_example :
    SameHead host world
      (codes "health")
      (analysis_request host (asked world method_get (codes "health")))
      (analysis_request host (asked world method_head (codes "health")))
analysis_request-SameHead_example = analysis_request-SameHead host world (codes "health")
