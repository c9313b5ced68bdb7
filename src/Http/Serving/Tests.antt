-- ===== src/Http/Serving/Tests.antt =====
-- Concrete requests, which arrive together: one to the chat route, one for the health route, and one for a
-- file outside the server's directory.
use light_agent_gateway.Common.{
  ◌≡◌, refl, true, false, none, some, List, [], ◌∷◌, ◌++◌, drop, if◌then◌else◌, arith,
}
use light_agent_gateway.Common.Bytes.{Bytes, codes, to_lower_copy, find_sub, is_prefix, bytes_eq}
use light_agent_gateway.Common.Decimal.{to_string, digits_onto}
use light_agent_gateway.Io.{
  ReadEvent, received, read_interrupted, read_again, accepted, write_again,
}
use light_agent_gateway.Io.Writing.{NoneFails}
use light_agent_gateway.Io.Reading.{Burst, quiet, chunk, interrupted}
use light_agent_gateway.Http.{
  http_10, http_11, h_connected, parse_uri_state, h_start, method_get, done,
}
use light_agent_gateway.Http.Headers.Fields.{IsField, field}
use light_agent_gateway.Http.Lookup.{get_content_length, get_content_length-insert}
use light_agent_gateway.Http.World.{World, Events, no_events}
use light_agent_gateway.Http.Analysis.{Host}
use light_agent_gateway.Timer.{TimeVal}
use light_agent_gateway.Http.Connection.{Polled, default_event, handle_events}
use light_agent_gateway.Http.Connection.Cycle.{Cycled, with_reads, handle_events-Cycled}
use light_agent_gateway.Http.Serving.{handle_read, non_empty}
use light_agent_gateway.Http.Serving.Exchange.{Exchanged}
use light_agent_gateway.Http.Serving.Parsing.{waiting, Field, Head, IsHead}
use light_agent_gateway.Http.Serving.Posts.{post_head, IsPost}
use light_agent_gateway.Http.Serving.Files.{get_head, IsFile}
use light_agent_gateway.Http.Serving.Asks.{ask_head}
use light_agent_gateway.Http.Serving.Requests.{Request, post, ask, get_file}
use light_agent_gateway.Http.Serving.Pipeline.{texts, replies, all_counted, nothing_more, pipelined}

abbrev host : Host
host = record {
  environment = record { getenv = λ name. none; current_path = []; uptime = 0 };
  stat = λ name. none;
  open_file = λ name. false;
  mmap = λ name size. none;
}

abbrev world : World
world = record {
  http = record {
    fd = 5;
    in_buffer = [];
    out_buffer = [];
    error = false;
    connection_state = h_connected;
    method = method_get;
    http_version = http_11;
    file_name = [];
    path = [];
    now_read_pos = 0;
    state = parse_uri_state;
    h_state = h_start;
    keep_alive = false;
    headers = [];
    timer = none;
  };
  socket = record { reads = []; writes = accepted 20 ∷ write_again ∷ []; sent = [] };
  events = no_events;
  timers = [];
  counters = record { api_requests = 0; chat_requests = 0 };
}

abbrev chat : Bytes
chat = b'c' ∷ b'h' ∷ b'a' ∷ b't' ∷ []

abbrev length_field : Field
length_field = (codes "Content-Length", to_string 2)

abbrev chat_head : Head
chat_head = post_head chat none http_11 length_field []

abbrev hi : Bytes
hi = b'h' ∷ b'i' ∷ []

length_field-IsField : IsField length_field
unfolding codes to_string digits_onto
length_field-IsField =
    field b'C' (codes "ontent-Length") b'2' [] (omega arith) (omega arith) (omega arith)
      (omega arith) (omega arith)

name-lower : to_lower_copy (codes "Content-Length") ≡ codes "content-length"
unfolding codes to_lower_copy
name-lower = refl

chat-IsPost : IsPost [] chat_head hi
unfolding codes find_sub is_prefix get_content_length
chat-IsPost = record {
  head = record {
    no_question_mark = omega arith;
    no_space = omega arith;
    no_return = omega arith;
    selects = refl;
    fields = (length_field-IsField, tt);
  };
  content_length =
      get_content_length-insert world.http (codes "Content-Length") 2 name-lower tt (omega arith);
}

no_failure : NoneFails world.socket.writes
no_failure = ((λ e. ground (arith, e)), ((λ e. ground (arith, e)), tt))

-- A GET of "//etc/passwd" names the file "/etc/passwd".
abbrev passwd : Bytes
passwd = codes "etc/passwd"

abbrev with_passwd : Host
with_passwd = record host {
  stat = λ name. some 4;
  open_file = λ name. true;
  mmap = λ name size. some (codes "root");
}

abbrev any_field : Field
any_field = (b'H' ∷ b'o' ∷ [], b'x' ∷ b'y' ∷ [])

abbrev passwd_head : Head
passwd_head = get_head b'/' passwd none http_11 any_field []

any_field-IsField : IsField any_field
any_field-IsField =
    field b'H' (b'o' ∷ []) b'x' (b'y' ∷ []) (omega arith) (omega arith) (omega arith) (omega arith)
      (omega arith)

passwd-IsHead : IsHead passwd_head
unfolding codes
passwd-IsHead = record {
  no_question_mark = omega arith;
  no_space = omega arith;
  no_return = omega arith;
  selects = tt;
  fields = (any_field-IsField, tt);
}

passwd-IsFile : IsFile with_passwd (b'/' ∷ passwd) 4 (codes "root")
unfolding codes is_prefix bytes_eq
passwd-IsFile = record {
  not_api = refl;
  not_hello = refl;
  not_favicon = refl;
  found = refl;
  opens = refl;
  mapped = refl;
}

-- A POST, a HEAD and a GET of a file arrive together, with the start of another request.
abbrev health : Bytes
health = codes "health"

health-IsHead : IsHead (ask_head true health (some (b'q' ∷ [])) http_10 any_field [])
unfolding codes find_sub is_prefix
health-IsHead = record {
  no_question_mark = omega arith;
  no_space = omega arith;
  no_return = omega arith;
  selects = (refl, refl);
  fields = (any_field-IsField, tt);
}

abbrev further : List Request
further =
    ask true health (some (b'q' ∷ [])) http_10 any_field []
    ∷ get_file b'/' passwd none http_11 any_field [] 4 (codes "root")
    ∷ []

abbrev chat_request : Request
chat_request = post chat none http_11 length_field [] hi

abbrev three : Bytes
three = texts (chat_request ∷ further) (b'P' ∷ [])

-- Two bytes were read before; the others come in two reads.
abbrev reads : List ReadEvent
reads = received (b'S' ∷ b'T' ∷ []) ∷ read_interrupted ∷ received (b' ' ∷ drop 5 three) ∷ []

reads-Burst : Burst reads (drop 2 three)
unfolding codes to_string digits_onto
reads-Burst = chunk b'S' (b'T' ∷ []) (interrupted (chunk b' ' (drop 5 three) quiet))

two_read : (b'P' ∷ b'O' ∷ []) ++ drop 2 three ≡ three
unfolding codes
two_read = refl

pipelined_example :
    (w : World) × (handle_read 3 with_passwd
        (waiting world (b'P' ∷ b'O' ∷ []) (reads ++ read_again ∷ nothing_more further []))
      ≡ (if non_empty (b'P' ∷ []) then handle_read 0 with_passwd w else done w))
    × Exchanged world
        (all_counted with_passwd world.counters (chat_request ∷ further))
        (replies with_passwd world.counters (chat_request ∷ further))
        (b'P' ∷ [])
        []
        w
pipelined_example =
    pipelined 0 with_passwd world chat_request further (b'P' ∷ []) (b'P' ∷ b'O' ∷ []) []
      (chat-IsPost, (health-IsHead, ((passwd-IsHead, passwd-IsFile), tt))) reads-Burst two_read refl
      no_failure

-- The same requests, without the start of another, at an event of the poller.
abbrev whole : Bytes
whole = texts (chat_request ∷ further) []

abbrev polled : Polled
polled = record {
  world = world;
  registered = some default_event;
  last_events = default_event;
  has_channel = true;
  has_http = true;
  next_timer = 3;
}

abbrev input : Events
input = record no_events { epollin = true }

abbrev now : TimeVal
now = record { tv_sec = 12; tv_usec = 0 }

whole-Burst : Burst (received (b'P' ∷ drop 1 whole) ∷ []) whole
unfolding codes to_string digits_onto
whole-Burst = chunk b'P' (drop 1 whole) quiet

handle_events-Cycled_example :
    (q : Polled) × (handle_events 3 with_passwd true now input (
        with_reads polled []
          ((received (b'P' ∷ drop 1 whole) ∷ []) ++ read_again ∷ nothing_more further []))
      ≡ done q)
    × Cycled polled
        (all_counted with_passwd world.counters (chat_request ∷ further))
        ([] ++ ([] ++ replies with_passwd world.counters (chat_request ∷ further)))
        []
        q
handle_events-Cycled_example =
    handle_events-Cycled 0 with_passwd now input polled chat_request further [] []
      (record { input = refl; no_output = refl; no_error = refl }) refl
      (chat-IsPost, (health-IsHead, ((passwd-IsHead, passwd-IsFile), tt))) whole-Burst refl refl
      no_failure
