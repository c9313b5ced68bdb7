-- ===== src/Http/Serving/Pipeline.antt =====
-- `handleRead` on several requests that arrive together.
use light_agent_gateway.Common.{
  ℕ, suc, ◌≡◌, refl, sym, ap, ◌∙◌, subst, true, false, List, [], ◌∷◌, ◌++◌, if◌then◌else◌,
  append_assoc, append-nil, All, arith,
}
use light_agent_gateway.Common.Bytes.{Bytes, codes}
use light_agent_gateway.Io.{ReadEvent, read_again}
use light_agent_gateway.Io.Writing.{NoneFails}
use light_agent_gateway.Io.Reading.{Burst, quiet}
use light_agent_gateway.Gateway.{Counters}
use light_agent_gateway.Http.{done}
use light_agent_gateway.Http.World.{World}
use light_agent_gateway.Http.Analysis.{Host}
use light_agent_gateway.Http.Serving.Exchange.{Exchanged}
use light_agent_gateway.Http.Serving.Parsing.{waiting}
use light_agent_gateway.Http.Serving.Requests.{
  Request, post, ask, get_file, text, IsRequest, reply_to, counted_by, with_reply, handle_read-one,
}
use light_agent_gateway.Http.Serving.{handle_read, non_empty}

-- The bytes of the requests, and of what follows them.
abbrev pub texts : List Request → Bytes → Bytes
texts [] tail = tail
texts (r ∷ rs) tail = text r (texts rs tail)

-- The calls of `handleRead` for the requests, and `fuel` more.
abbrev pub calls : List Request → ℕ → ℕ
calls [] fuel = fuel
calls (r ∷ rs) fuel = suc (calls rs fuel)

-- The replies to requests that are served one by one, in order.
abbrev pub replies : Host → Counters → List Request → Bytes
replies host k [] = []
replies host k (r ∷ rs) = reply_to host k r ++ replies host (counted_by host k r) rs

abbrev pub all_counted : Host → Counters → List Request → Counters
all_counted host k [] = k
all_counted host k (r ∷ rs) = all_counted host (counted_by host k r) rs

-- Each further request is looked at behind a `read` that has nothing.
abbrev pub nothing_more : List Request → List ReadEvent → List ReadEvent
nothing_more [] later = later
nothing_more (r ∷ rs) later = read_again ∷ nothing_more rs later

text-non_empty : (r : Request) (rest : Bytes) → non_empty (text r rest) ≡ true
unfolding codes
text-non_empty (post name query version f fs body) rest = refl
text-non_empty (ask true name query version f fs) rest = refl
text-non_empty (ask false name query version f fs) rest = refl
text-non_empty (get_file c name query version f fs size file) rest = refl

waiting_lem :
    (w : World) (rest : Bytes) (later : List ReadEvent) {k : Counters} {reply : Bytes} {v : World}
    → Exchanged v k reply rest later w
    → waiting w rest later ≡ w
waiting_lem w rest later x = ground (arith, x)

Exchanged-trans :
    {u v w : World} {k l : Counters} {first second rest rest' : Bytes} {es later : List ReadEvent}
    → Exchanged u k first rest es v
    → Exchanged v l second rest' later w
    → Exchanged u l (first ++ second) rest' later w
Exchanged-trans {u} {v} {w} {k} {l} {first} {second} x y = record {
  sent =
      y.sent
      ∙ (sym (append_assoc v.socket.sent v.http.out_buffer second)
          ∙ ap (λ t. t ++ second) x.sent
          ∙ append_assoc u.socket.sent (u.http.out_buffer ++ first) second
          ∙ ap (λ t. u.socket.sent ++ t) (append_assoc u.http.out_buffer first second));
  counted = y.counted;
  input_left = y.input_left;
  reads_left = y.reads_left;
  is_waiting = y.is_waiting;
  no_error = y.no_error;
  connected = y.connected;
  writes_left = y.writes_left;
  asks = y.asks;
}

-- Well-formed requests, POSTs, GETs and HEADs below api/ and GETs of files in any order, reach a
-- connection that waits for a request and holds no headers, back to back and with anything behind
-- them; the first bytes may have been read before, and the others come in one burst of reads of any
-- sizes; no further bytes arrive while the requests are served, and no write fails. Then `handleRead`
-- serves them all, with one call of itself for each further request: what went out and what still waits
-- are, behind what was to be sent before, exactly the replies that the requests get one by one, in
-- order, each with the counters that the ones before it left. What followed the last request is left as
-- the input, with which `handleRead` is called again unless it is empty, when it returns; and the
-- connection waits for the next request, with no header of the ones before.
pub pipelined :
    (fuel : ℕ) (host : Host) (w : World) (r : Request) (rs : List Request) (tail buffered : Bytes)
    {es : List ReadEvent} {bytes : Bytes} (later : List ReadEvent)
    → All (IsRequest host) (r ∷ rs)
    → Burst es bytes
    → buffered ++ bytes ≡ texts (r ∷ rs) tail
    → w.http.headers ≡ []
    → NoneFails w.socket.writes
    → (w' : World) × (handle_read
          (calls (r ∷ rs) fuel)
          host
          (waiting w buffered (es ++ read_again ∷ nothing_more rs later))
        ≡ (if non_empty tail then handle_read fuel host w' else done w'))
      × Exchanged w
          (all_counted host w.counters (r ∷ rs))
          (replies host w.counters (r ∷ rs))
          tail
          later
          w'
pipelined fuel host w r [] tail buffered later (p, _) b t e n =
    let (w', h, x) = handle_read-one fuel host w r tail buffered later p b t e n in
    (w', h, with_reply (sym (append-nil (reply_to host w.counters r))) x)
pipelined fuel host w r (r' ∷ rs) tail buffered later (p, ps) b t e n =
    let left = texts (r' ∷ rs) tail in
    let quiet_reads = read_again ∷ nothing_more rs later in
    let again = calls (r' ∷ rs) fuel in
    let (v, h, x) = handle_read-one again host w r left buffered quiet_reads p b t e n in
    let (w', g, y) =
      pipelined fuel host v r' rs tail left later ps quiet (append-nil left) x.is_waiting.no_headers
        x.writes_left in
    (
      w',
      h
          ∙ ap (λ b. if b then handle_read again host v else done v)
              (text-non_empty r' (texts rs tail))
          ∙ ap (handle_read again host) (sym (waiting_lem v left quiet_reads x))
          ∙ g,
      Exchanged-trans x (
          subst
            (λ k.
              Exchanged v (all_counted host k (r' ∷ rs)) (replies host k (r' ∷ rs)) tail later w')
            x.counted y),
    )
