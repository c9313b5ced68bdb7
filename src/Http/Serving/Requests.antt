-- ===== src/Http/Serving/Requests.antt =====
-- The requests that `handleRead` answers, and what each of them is answered by itself.
use light_agent_gateway.Common.{
  ℕ, suc, ◌≡◌, refl, sym, ap, ◌∙◌, subst, Bool, false, Option, none, some, List, [], ◌∷◌, ◌++◌,
  if◌then◌else◌,
}
use light_agent_gateway.Common.Bytes.{Bytes}
use light_agent_gateway.Io.{ReadEvent, read_again}
use light_agent_gateway.Io.Writing.{NoneFails}
use light_agent_gateway.Io.Reading.{Burst}
use light_agent_gateway.Gateway.{Counters, Response, handle}
use light_agent_gateway.Http.{
  HttpData, HttpVersion, http_11, method_get, parse_uri_state, h_start, h_connected, done,
}
use light_agent_gateway.Http.HeaderMap.{insert_all}
use light_agent_gateway.Http.Lookup.{is_keep_alive_requested}
use light_agent_gateway.Http.World.{World}
use light_agent_gateway.Http.Analysis.{Host, api_header, file_header, file_type}
use light_agent_gateway.Http.Analysis.Laws.{request_of}
use light_agent_gateway.Http.Serving.Exchange.{Exchanged}
use light_agent_gateway.Http.Serving.Parsing.{
  Field, Head, IsHead, head_text, fields_of, waiting, parsed,
}
use light_agent_gateway.Http.Serving.Posts.{IsPost, post_head, ready, handle_read-Served}
use light_agent_gateway.Http.Serving.Files.{IsFile, get_head, handle_read-FileSent}
use light_agent_gateway.Http.Serving.Asks.{ask_head, question, body_for, handle_read-Asked}
use light_agent_gateway.Http.Serving.{handle_read, non_empty}

-- Each with the path below api/ or the name, the query, the version and the fields: a POST below api/
-- with its body; a GET or, where the Boolean is true, a HEAD below api/; and a GET of a file, with the
-- file's size and bytes.
pub data Request : Type 0 where
  post : Bytes → Option Bytes → HttpVersion → Field → List Field → Bytes → Request
  ask : Bool → Bytes → Option Bytes → HttpVersion → Field → List Field → Request
  get_file : ℕ → Bytes → Option Bytes → HttpVersion → Field → List Field → ℕ → Bytes → Request

-- The bytes of a request, and of what follows it.
abbrev pub text : Request → Bytes → Bytes
text (post name query version f fs body) rest =
    head_text (post_head name query version f fs) (body ++ rest)
text (ask headed name query version f fs) rest =
    head_text (ask_head headed name query version f fs) rest
text (get_file c name query version f fs size file) rest =
    head_text (get_head c name query version f fs) rest

abbrev pub IsRequest : Host → Request → Type 0
IsRequest host (post name query version f fs body) =
    IsPost [] (post_head name query version f fs) body
IsRequest host (ask headed name query version f fs) =
    IsHead (ask_head headed name query version f fs)
IsRequest host (get_file c name query version f fs size file) =
    IsHead (get_head c name query version f fs) × IsFile host (c ∷ name) size file

-- A connection of which only the headers matter.
abbrev pub with_headers : List Field → HttpData
with_headers fields = record {
  fd = 0;
  in_buffer = [];
  out_buffer = [];
  error = false;
  connection_state = h_connected;
  method = method_get;
  http_version = http_11;
  file_name = [];
  path = [];
  now_read_pos = 0;
  state = parse_uri_state;
  h_state = h_start;
  keep_alive = false;
  headers = insert_all fields [];
  timer = none;
}

abbrev pub api_reply : List Field → Bool → Option Response → Bytes
api_reply fields headed none = []
api_reply fields headed (some r) = api_header (with_headers fields) r ++ body_for headed r

-- The reply to one request by itself, which depends on the counters, and the counters after it.
abbrev pub reply_to : Host → Counters → Request → Bytes
reply_to host k (post name query version f fs body) =
    api_reply (f ∷ fs) false (handle host.environment k (request_of name body)).1
reply_to host k (ask headed name query version f fs) =
    api_reply (f ∷ fs) headed (handle host.environment k (question headed name)).1
reply_to host k (get_file c name query version f fs size file) =
    file_header (with_headers (f ∷ fs)) (file_type (c ∷ name)) size ++ file

abbrev pub counted_by : Host → Counters → Request → Counters
counted_by host k (post name query version f fs body) =
    (handle host.environment k (request_of name body)).0
counted_by host k (ask headed name query version f fs) =
    (handle host.environment k (question headed name)).0
counted_by host k (get_file c name query version f fs size file) = k

api_header-parsed :
    (w : World) (q : Head) (content : Bytes) (later : List ReadEvent) (r : Response)
    → w.http.headers ≡ []
    → api_header (parsed w q content later).http r ≡ api_header (with_headers (fields_of q)) r
unfolding api_header is_keep_alive_requested
api_header-parsed w q content later r e =
    ap
      (λ m.
        api_header (record (with_headers (fields_of q)) { headers = insert_all (fields_of q) m }) r)
      e

api_header-ready :
    (w : World) (q : Head) (content : Bytes) (later : List ReadEvent) (r : Response)
    → api_header (ready w q content later).http r ≡ api_header (parsed w q content later).http r
unfolding api_header is_keep_alive_requested
api_header-ready w q content later r = refl

file_header-parsed :
    (w : World) (q : Head) (content : Bytes) (later : List ReadEvent) (type : Bytes) (size : ℕ)
    → w.http.headers ≡ []
    → file_header (parsed w q content later).http type size
      ≡ file_header (with_headers (fields_of q)) type size
unfolding file_header is_keep_alive_requested
file_header-parsed w q content later type size e =
    ap
      (λ m.
        file_header (record (with_headers (fields_of q)) { headers = insert_all (fields_of q) m })
          type size)
      e

pub with_reply :
    {w w' : World} {k : Counters} {reply reply' rest : Bytes} {later : List ReadEvent}
    → reply ≡ reply'
    → Exchanged w k reply rest later w'
    → Exchanged w k reply' rest later w'
with_reply {w} {w'} {k} {reply} {reply'} {rest} {later} e x =
    subst (λ t. Exchanged w k t rest later w') e x

with_api_reply :
    (headed : Bool) (w : World) (q : Head) (content : Bytes) {rest : Bytes} {later : List ReadEvent}
    {k : Counters} {w' : World} (r : Response) (o : Option Response)
    → w.http.headers ≡ []
    → o ≡ some r
    → Exchanged w k (api_header (ready w q content later).http r ++ body_for headed r) rest later w'
    → Exchanged w k (api_reply (fields_of q) headed o) rest later w'
with_api_reply headed w q content {rest} {later} r o e s x =
    with_reply
      (ap (λ t. t ++ body_for headed r)
          (api_header-ready w q content later r ∙ api_header-parsed w q content later r e)
        ∙ ap (api_reply (fields_of q) headed) (sym s))
      x

-- One request, to a connection that waits for it and holds no headers: the reply is that of the
-- request by itself.
pub handle_read-one :
    (fuel : ℕ) (host : Host) (w : World) (r : Request) (rest buffered : Bytes) {es : List ReadEvent}
    {bytes : Bytes} (later : List ReadEvent)
    → IsRequest host r
    → Burst es bytes
    → buffered ++ bytes ≡ text r rest
    → w.http.headers ≡ []
    → NoneFails w.socket.writes
    → (w' : World) × (handle_read (suc fuel) host (waiting w buffered (es ++ read_again ∷ later))
        ≡ (if non_empty rest then handle_read fuel host w' else done w'))
      × Exchanged w (counted_by host w.counters r) (reply_to host w.counters r) rest later w'
handle_read-one fuel host w (post name query version f fs body) rest buffered later p b t e n =
    let q = post_head name query version f fs in
    let (w', h, s) =
      handle_read-Served fuel host w name query version f fs body rest buffered later
        (subst (λ m. IsPost m q body) (sym e) p) b t n in
    (w', h, with_api_reply false w q (body ++ rest) s.reply _ e s.is_reply s.exchanged)
handle_read-one fuel host w (ask headed name query version f fs) rest buffered later p b t e n =
    let q = ask_head headed name query version f fs in
    let (w', h, s) =
      handle_read-Asked fuel headed host w name query version f fs rest buffered later p b t n in
    (w', h, with_api_reply headed w q rest s.reply _ e s.is_reply s.exchanged)
handle_read-one fuel host w (get_file c name query version f fs size file) rest buffered later
      (p, i) b t e n =
    let q = get_head c name query version f fs in
    let (w', h, x) =
      handle_read-FileSent fuel host w c name query version f fs rest buffered later size file p i b
        t n in
    (
      w',
      h,
      with_reply
          (ap (λ x. x ++ file) (file_header-parsed w q rest later (file_type (c ∷ name)) size e)) x,
    )
