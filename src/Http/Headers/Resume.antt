-- ===== src/Http/Headers/Resume.antt =====
-- `parseHeaders` on header blocks that are empty, or that arrive in parts.
use light_agent_gateway.Common.{
  ℕ, suc, ◌+◌, ◌≤◌, ◌≡◌, ◌≢◌, ◌⊎◌, refl, ap, ◌∙◌, true, none, some, [], ◌∷◌, ◌++◌, length,
  length-append, All, arith, All-append,
}
use light_agent_gateway.Common.Bytes.{Bytes, Lacks}
use light_agent_gateway.Http.{HttpData, header_again, h_start, h_value, done, undefined}
use light_agent_gateway.Http.Headers.{
  Scan, next, out_of_range, range, scan, initial, conclude, parse_headers,
}
use light_agent_gateway.Http.Headers.Fields.{in_key, in_value, scan-key, scan_colon}
use light_agent_gateway.Http.Headers.Blocks.{scan_newline, scan_start}

abbrev pub IsBreaks : Bytes → Type 0
IsBreaks = All (λ c. (c ≡ b'\n') ⊎ (c ≡ b'\r'))

scan-IsBreaks :
    (text str : Bytes) (i : ℕ) (z : Scan)
    → IsBreaks text
    → z.h_state ≡ h_start
    → scan text str i z ≡ next z
unfolding scan
scan-IsBreaks [] str i z b e = refl
scan-IsBreaks (c ∷ text) str i z b e = ground (arith, scan-IsBreaks text str (suc i) z b.1 e)

-- A request with no header field never gets past its headers: however many line breaks follow the
-- request line, `parseHeaders` asks for more and changes nothing.
pub parse_headers-no_fields :
    (h : HttpData)
    → h.h_state ≡ h_start
    → IsBreaks h.in_buffer
    → parse_headers h ≡ done (header_again, h)
unfolding parse_headers conclude
parse_headers-no_fields h e b =
    rw (scan-IsBreaks h.in_buffer h.in_buffer 0 (initial h) b e) (ground arith)

scan_last :
    (value str : Bytes) (i start : ℕ) (z : Scan)
    → z.h_state ≡ h_value
    → z.not_finish ≡ true
    → z.value_start ≡ some start
    → Lacks b'\r' value
    → i + length value ≤ start + 256
    → scan value str i z ≡ next z
unfolding scan
scan_last [] str i start z e f s r l = refl
scan_last (v ∷ value) str i start z e f s r l =
    ground (arith, scan_last value str (suc i) start z e f s r.1 (omega arith))

scan-value_none :
    (text rest str : Bytes) (i : ℕ) (z : Scan)
    → z.h_state ≡ h_value
    → z.not_finish ≡ true
    → z.value_start ≡ none
    → Lacks b'\r' text
    → i + length text ≤ 255
    → scan (text ++ rest) str i z ≡ scan rest str (length text + i) z
unfolding scan
scan-value_none [] rest str i z e f s r l = ap (λ j. scan rest str j z) (omega arith)
scan-value_none (c ∷ text) rest str i z e f s r l =
    ground (arith, scan-value_none text rest str (suc i) z e f s r.1 (omega arith))

scan_crlf_none :
    (rest str : Bytes) (i : ℕ) (z : Scan)
    → z.h_state ≡ h_value
    → z.not_finish ≡ true
    → z.value_start ≡ none
    → z.key_start ≡ none
    → scan (b'\r' ∷ b'\n' ∷ rest) str i z ≡ out_of_range
unfolding scan range
scan_crlf_none rest str i z e f s k = ground arith

-- The text of the first line up to some point inside its value.
abbrev pub part : ℕ → Bytes → ℕ → Bytes → Bytes
part k ks v vs = (k ∷ ks) ++ (b':' ∷ b' ' ∷ v ∷ vs)

module _ (h : HttpData) (k : ℕ) (ks : Bytes) (v : ℕ) (vs : Bytes) where
  abbrev pub first_call : HttpData
  first_call = record h { in_buffer = b'\n' ∷ part k ks v vs; h_state = h_start }

  abbrev pub waiting : HttpData
  waiting = record h { in_buffer = part k ks v vs; h_state = h_value }

  scan-part :
      Lacks b'\n' (k ∷ ks)
      → Lacks b'\r' (k ∷ ks)
      → Lacks b':' (k ∷ ks)
      → Lacks b'\r' vs
      → length vs ≤ 255
      → scan (b'\n' ∷ part k ks v vs) (b'\n' ∷ part k ks v vs) 0 (initial first_call)
        ≡ next (
            in_value
              (record (initial first_call) { now_read_line_begin = 1 })
              1
              (length ks + 2)
              (suc (suc (length ks + 2))))
  scan-part n r c r' l =
      let str : Bytes = b'\n' ∷ part k ks v vs in
      let z : Scan = record (initial first_call) { now_read_line_begin = 1 } in
      scan_newline _ str 0 (initial first_call) refl refl
      ∙ scan_start k _ str 1 (initial first_call) r.0 n.0 refl refl
      ∙ scan-key ks _ str 2 (in_key z 1) refl refl n.1 r.1 c.1
      ∙ scan_colon v vs str 1 (length ks + 2) z (omega arith)
      ∙ scan_last vs str _ (suc (suc (length ks + 2)))
          (in_value z 1 (length ks + 2) (suc (suc (length ks + 2)))) refl refl refl r' (omega arith)

  abbrev pub resumed : Bytes → Bytes → HttpData
  resumed vs' rest = record waiting {
    in_buffer = (part k ks v vs ++ vs') ++ (b'\r' ∷ b'\n' ∷ rest);
  }

  part_no_return :
      (vs' : Bytes)
      → Lacks b'\r' (k ∷ ks)
      → Lacks b'\r' (v ∷ vs)
      → Lacks b'\r' vs'
      → Lacks b'\r' (part k ks v vs ++ vs')
  part_no_return vs' r rv r' =
      All-append (λ c. c ≢ b'\r') (part k ks v vs) vs'
        (All-append (λ c. c ≢ b'\r') (k ∷ ks) (b':' ∷ b' ' ∷ v ∷ vs) r
          ((omega arith), ((omega arith), rv)))
        r'

  scan-resumed :
      (vs' rest : Bytes)
      → Lacks b'\r' (k ∷ ks)
      → Lacks b'\r' (v ∷ vs)
      → Lacks b'\r' vs'
      → length (part k ks v vs ++ vs') ≤ 255
      → scan
          (resumed vs' rest).in_buffer
          (resumed vs' rest).in_buffer
          0
          (initial (resumed vs' rest))
        ≡ out_of_range
  scan-resumed vs' rest r rv r' l =
      scan-value_none (part k ks v vs ++ vs') _ _ 0 (initial (resumed vs' rest)) refl refl refl
        (part_no_return vs' r rv r') (omega arith)
      ∙ scan_crlf_none rest _ _ (initial (resumed vs' rest)) refl refl refl refl

  -- The first line of a header block arrives in two parts, cut anywhere inside the value. The first
  -- call asks for more, and keeps the line. The second, given the rest of the line, whatever follows,
  -- reads outside the buffer, since the positions of the key are gone; the line has at most 255 bytes.
  pub parse_headers-split_value :
      (vs' rest : Bytes)
      → Lacks b'\n' (k ∷ ks)
      → Lacks b'\r' (k ∷ ks)
      → Lacks b':' (k ∷ ks)
      → Lacks b'\r' (v ∷ vs)
      → Lacks b'\r' vs'
      → length (part k ks v vs ++ vs') ≤ 255
      → (parse_headers first_call ≡ done (header_again, waiting))
        × (parse_headers (resumed vs' rest) ≡ undefined)
  unfolding parse_headers conclude
  parse_headers-split_value vs' rest n r c rv r' l = (
    ap (conclude first_call) (
        scan-part n r c rv.1 (
          omega (
            arith,
            length-append (part k ks v vs) vs',
            length-append (k ∷ ks) (b':' ∷ b' ' ∷ v ∷ vs),
          ))),
    ap (conclude (resumed vs' rest)) (scan-resumed vs' rest r rv r' l),
  )
