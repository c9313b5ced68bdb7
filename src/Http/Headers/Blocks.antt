-- ===== src/Http/Headers/Blocks.antt =====
-- `parseHeaders` on a whole header block, by induction on its fields.
use light_agent_gateway.Common.{
  ℕ, suc, ◌+◌, ◌≤◌, ◌≡◌, ◌≢◌, refl, sym, ap₂, ◌∙◌, true, false, some, List, [], ◌∷◌, ◌++◌, length,
  length-append, append_assoc, drop_left, All, arith,
}
use light_agent_gateway.Common.Bytes.{Bytes, Lacks}
use light_agent_gateway.Http.HeaderMap.{insert_all}
use light_agent_gateway.Http.{HttpData, header_success, h_start, h_lf, h_end_lf, done}
use light_agent_gateway.Http.Headers.{
  Scan, Step, next, scan, initial, conclude, parse_headers, body_from,
}
use light_agent_gateway.Http.Headers.Fields.{
  IsField, field, line_onto, block_onto, line_text, in_key, stored, scan_line, colon_at, value_at,
  return_at,
}

-- The loop ends behind the empty line, with these headers, and the rest of the text is the body.
pub record Ends (str body : Bytes) (m : List (Bytes × Bytes)) (st : Step) : Type 0 where
  pub last : Scan
  pub is_last : st ≡ next last
  pub at_end : last.h_state ≡ h_end_lf
  pub headers_are : last.headers ≡ m
  pub body_is : body_from str last.body_start ≡ body

abbrev pub at_line : Scan → Scan
at_line z = record z { h_state = h_lf; not_finish = true }

body_after :
    (pre body : Bytes) (n : ℕ)
    → n ≡ length pre + 2
    → body_from (pre ++ (b'\r' ∷ b'\n' ∷ body)) (some n) ≡ body
body_after pre body n e = rw (← append_assoc pre (b'\r' ∷ b'\n' ∷ []) body) (
    ground (
      arith,
      length-append pre (b'\r' ∷ b'\n' ∷ []),
      length-append (pre ++ b'\r' ∷ b'\n' ∷ []) body,
      drop_left n (pre ++ b'\r' ∷ b'\n' ∷ []) body,
    ))

pub scan_stopped :
    (rest str : Bytes) (i : ℕ) (z : Scan) → z.not_finish ≡ false → scan rest str i z ≡ next z
unfolding scan
scan_stopped [] str i z h = refl
scan_stopped (c ∷ rest) str i z h = ground arith

scan_empty_line :
    (pre body : Bytes) (z : Scan)
    → Ends
        (pre ++ (b'\r' ∷ b'\n' ∷ body))
        body
        z.headers
        (scan (b'\r' ∷ b'\n' ∷ body) (pre ++ (b'\r' ∷ b'\n' ∷ body)) (length pre) (at_line z))
unfolding scan
scan_empty_line pre [] z = record {
  last = record z {
    h_state = h_end_lf;
    not_finish = true;
    body_start = some (suc (length pre) + 1);
  };
  is_last = refl;
  at_end = refl;
  headers_are = refl;
  body_is = body_after pre [] (suc (length pre) + 1) (omega arith);
}
scan_empty_line pre (b ∷ body) z = record {
  last = record z {
    h_state = h_end_lf;
    not_finish = false;
    key_start = some (suc (suc (length pre)));
    now_read_line_begin = suc (suc (length pre));
    body_start = some (suc (suc (length pre)));
  };
  is_last = scan_stopped body _ _ _ refl;
  at_end = refl;
  headers_are = refl;
  body_is = body_after pre (b ∷ body) (suc (suc (length pre))) (omega arith);
}

pub scan_first :
    (k : ℕ) (rest str : Bytes) (i : ℕ) (z : Scan)
    → k ≢ b'\r'
    → scan (k ∷ rest) str i (at_line z) ≡ scan rest str (suc i) (in_key z i)
unfolding scan
scan_first k rest str i z h = ground arith

-- The text up to the end of a line.
abbrev pub up_to : Bytes → ℕ → Bytes → ℕ → Bytes → Bytes
up_to pre k ks v vs = (pre ++ ((k ∷ ks) ++ b':' ∷ b' ' ∷ [])) ++ ((v ∷ vs) ++ b'\r' ∷ b'\n' ∷ [])

pub up_to-rest :
    (pre : Bytes) (k : ℕ) (ks : Bytes) (v : ℕ) (vs rest : Bytes)
    → pre ++ line_onto (k ∷ ks, v ∷ vs) rest ≡ up_to pre k ks v vs ++ rest
up_to-rest pre k ks v vs rest = simp append_assoc

pub length-up_to :
    (pre : Bytes) (k : ℕ) (ks : Bytes) (v : ℕ) (vs : Bytes)
    → suc (suc (return_at pre ks vs)) ≡ length (up_to pre k ks v vs)
length-up_to pre k ks v vs = omega (
  arith,
  length-append (pre ++ ((k ∷ ks) ++ b':' ∷ b' ' ∷ [])) ((v ∷ vs) ++ b'\r' ∷ b'\n' ∷ []),
  length-append pre ((k ∷ ks) ++ b':' ∷ b' ' ∷ []),
  length-append (k ∷ ks) (b':' ∷ b' ' ∷ []),
  length-append (v ∷ vs) (b'\r' ∷ b'\n' ∷ []),
)

-- One line, and then whatever the rest of the block does.
pub scan_line_then :
    (pre : Bytes) (k : ℕ) (ks : Bytes) (v : ℕ) (vs rest : Bytes) (z : Scan)
    → k ≢ b'\r'
    → Lacks b'\n' ks
    → Lacks b'\r' ks
    → Lacks b':' ks
    → Lacks b'\r' vs
    → length vs ≤ 255
    → scan
        (line_onto (k ∷ ks, v ∷ vs) rest)
        (pre ++ line_onto (k ∷ ks, v ∷ vs) rest)
        (length pre)
        (at_line z)
      ≡ scan rest (up_to pre k ks v vs ++ rest) (length (up_to pre k ks v vs)) (
          stored z
            (length pre)
            (colon_at pre ks)
            (value_at pre ks)
            (return_at pre ks vs)
            (k ∷ ks)
            (v ∷ vs))
unfolding line_text
scan_line_then pre k ks v vs rest z h n r c r' l =
    scan_first k _ _ (length pre) z h
    ∙ scan_line pre k ks v vs rest z n r c r' l
    ∙ ap₂
        (λ text i. scan rest text i (
          stored z (length pre) (colon_at pre ks) (value_at pre ks) (return_at pre ks vs) (k ∷ ks)
            (v ∷ vs)))
        (up_to-rest pre k ks v vs rest) (length-up_to pre k ks v vs)

scan_block :
    (fs : List (Bytes × Bytes)) (pre body : Bytes) (z : Scan)
    → All IsField fs
    → Ends
        (pre ++ block_onto fs body)
        body
        (insert_all fs z.headers)
        (scan (block_onto fs body) (pre ++ block_onto fs body) (length pre) (at_line z))
scan_block [] pre body z h = scan_empty_line pre body z
scan_block ((key, value) ∷ fs) pre body z (field k ks v vs n r c r' l, h) =
    rw
      (
        scan_line_then pre k ks v vs (block_onto fs body) z r.0 n.1 r.1 c.1 r' l,
        up_to-rest pre k ks v vs (block_onto fs body),
      )
      (scan_block fs (up_to pre k ks v vs) body
        (stored z (length pre) (colon_at pre ks) (value_at pre ks) (return_at pre ks vs) (k ∷ ks)
          (v ∷ vs))
        h)

pub scan_newline :
    (rest str : Bytes) (i : ℕ) (z : Scan)
    → z.h_state ≡ h_start
    → z.not_finish ≡ true
    → scan (b'\n' ∷ rest) str i z ≡ scan rest str (suc i) z
unfolding scan
scan_newline rest str i z e f = ground arith

pub scan_start :
    (k : ℕ) (rest str : Bytes) (i : ℕ) (z : Scan)
    → k ≢ b'\r'
    → k ≢ b'\n'
    → z.h_state ≡ h_start
    → z.not_finish ≡ true
    → scan (k ∷ rest) str i z
      ≡ scan rest str (suc i) (in_key (record z { now_read_line_begin = i }) i)
unfolding scan
scan_start k rest str i z r n e f = ground arith

abbrev pub parsed : HttpData → List (Bytes × Bytes) → Bytes → HttpData
parsed h fs body = record h {
  in_buffer = body;
  h_state = h_end_lf;
  headers = insert_all fs h.headers;
}

conclude-Ends :
    (h : HttpData) (body : Bytes) (m : List (Bytes × Bytes)) (st : Step)
    → Ends h.in_buffer body m st
    → conclude h st
      ≡ done (header_success, record h { in_buffer = body; h_state = h_end_lf; headers = m })
unfolding conclude
conclude-Ends h body m st e = rw e.is_last (ground arith)

-- `parseHeaders`, at the start of the headers, given the rest of the request line's break, a block of at
-- least one well-formed field, the empty line and then anything: it succeeds, stores every field in
-- order, a later one over an earlier one of the same key, and leaves exactly what stands behind the
-- empty line in the input buffer. Nothing else of the connection changes but the parser's state.
pub parse_headers-block :
    (h : HttpData) (f : Bytes × Bytes) (fs : List (Bytes × Bytes)) (body : Bytes)
    → All IsField (f ∷ fs)
    → parse_headers (record h { in_buffer = b'\n' ∷ block_onto (f ∷ fs) body; h_state = h_start })
      ≡ done (header_success, parsed h (f ∷ fs) body)
parse_headers-block h (key, value) fs body (field k ks v vs n r c r' l, t) =
    unfold parse_headers in
    conclude-Ends start body (insert_all fields h.headers) _
      (rw (first_byte) (scan_block fields (b'\n' ∷ []) body begun (field k ks v vs n r c r' l, t)))
  where
    fields : List (Bytes × Bytes)
    fields = (k ∷ ks, v ∷ vs) ∷ fs

    text : Bytes
    text = b'\n' ∷ block_onto fields body

    start : HttpData
    start = record h { in_buffer = text; h_state = h_start }

    begun : Scan
    begun = record (initial start) { now_read_line_begin = 1 }

    first_byte :
        scan text text 0 (initial start) ≡ scan (block_onto fields body) text 1 (at_line begun)
    first_byte =
        scan_newline _ text 0 (initial start) refl refl
        ∙ scan_start k _ text 1 (initial start) r.0 n.0 refl refl
        ∙ sym (scan_first k _ text 1 begun r.0)
