-- ===== src/Http/Headers/Split.antt =====
-- `parseHeaders` where a header block arrives in two parts, cut inside the key of its second line.
use light_agent_gateway.Common.{
  ℕ, suc, ◌≡◌, refl, sym, ap, ◌∙◌, true, [], ◌∷◌, ◌++◌, length, drop, length-append, append_assoc,
  drop_left, arith,
}
use light_agent_gateway.Common.Bytes.{Bytes, Lacks}
use light_agent_gateway.Http.HeaderMap.{insert}
use light_agent_gateway.Http.{HttpData, header_again, header_error, h_start, h_key, done}
use light_agent_gateway.Http.Headers.{Scan, next, refused, scan, initial, conclude, parse_headers}
use light_agent_gateway.Http.Headers.Fields.{
  IsField, field, line_onto, in_key, stored, colon_at, value_at, return_at,
}
use light_agent_gateway.Http.Headers.Blocks.{
  scan_newline, scan_start, scan_first, scan_line_then, up_to, up_to-rest,
}

scan_key_break :
    (rest str : Bytes) (i : ℕ) (z : Scan)
    → z.h_state ≡ h_key
    → z.not_finish ≡ true
    → scan (b'\n' ∷ rest) str i z ≡ refused z
unfolding scan
scan_key_break rest str i z e f = ground arith

scan_key_last :
    (key str : Bytes) (i : ℕ) (z : Scan)
    → z.h_state ≡ h_key
    → z.not_finish ≡ true
    → Lacks b'\n' key
    → Lacks b'\r' key
    → Lacks b':' key
    → scan key str i z ≡ next z
unfolding scan
scan_key_last [] str i z e f n r c = refl
scan_key_last (k ∷ key) str i z e f n r c =
    ground (arith, scan_key_last key str (suc i) z e f n.1 r.1 c.1)

-- What the first call keeps: the break before the second line, and the part of its key.
kept :
    (pre : Bytes) (k : ℕ) (ks : Bytes) (v : ℕ) (vs rest : Bytes) (n : ℕ)
    → n ≡ suc (return_at pre ks vs)
    → drop n (up_to pre k ks v vs ++ rest) ≡ b'\n' ∷ rest
kept pre k ks v vs rest n e = rw split (drop_left n front (b'\n' ∷ rest) (omega (arith, measure)))
  where
    front : Bytes
    front = (pre ++ ((k ∷ ks) ++ b':' ∷ b' ' ∷ [])) ++ ((v ∷ vs) ++ b'\r' ∷ [])

    split : up_to pre k ks v vs ++ rest ≡ front ++ (b'\n' ∷ rest)
    split = simp append_assoc

    measure : suc (return_at pre ks vs) ≡ length front
    measure = omega (
      arith,
      length-append (pre ++ ((k ∷ ks) ++ b':' ∷ b' ' ∷ [])) ((v ∷ vs) ++ b'\r' ∷ []),
      length-append pre ((k ∷ ks) ++ b':' ∷ b' ' ∷ []),
      length-append (k ∷ ks) (b':' ∷ b' ' ∷ []),
      length-append (v ∷ vs) (b'\r' ∷ []),
    )

module _ (h : HttpData) (k : ℕ) (ks : Bytes) (v : ℕ) (vs : Bytes) (k' : ℕ) (ks' : Bytes) where
  text : Bytes
  text = b'\n' ∷ line_onto (k ∷ ks, v ∷ vs) (k' ∷ ks')

  start : HttpData
  start = record h { in_buffer = text; h_state = h_start }

  begun : Scan
  unfolding start
  begun = record (initial start) { now_read_line_begin = 1 }

  -- The second call's state: the first field is stored.
  abbrev pub continued : Bytes → HttpData
  continued more = record h {
    in_buffer = b'\n' ∷ ((k' ∷ ks') ++ more);
    h_state = h_key;
    headers = insert (k ∷ ks) (v ∷ vs) h.headers;
  }

  abbrev line_read : Scan
  line_read =
      stored begun 1 (colon_at (b'\n' ∷ []) ks) (value_at (b'\n' ∷ []) ks)
        (return_at (b'\n' ∷ []) ks vs) (k ∷ ks) (v ∷ vs)

  abbrev key_read : Scan
  key_read = in_key line_read (length (up_to (b'\n' ∷ []) k ks v vs))

  scan_first_part :
      IsField (k ∷ ks, v ∷ vs)
      → Lacks b'\n' (k' ∷ ks')
      → Lacks b'\r' (k' ∷ ks')
      → Lacks b':' (k' ∷ ks')
      → scan text text 0 (initial start) ≡ next key_read
  unfolding text start begun
  scan_first_part (field _ _ _ _ n r c rv l) n' r' c' =
      scan_newline _ text 0 (initial start) refl refl
      ∙ scan_start k _ text 1 (initial start) r.0 n.0 refl refl
      ∙ sym (scan_first k _ text 1 begun r.0)
      ∙ scan_line_then (b'\n' ∷ []) k ks v vs (k' ∷ ks') begun r.0 n.1 r.1 c.1 rv l
      ∙ scan_first k' ks' _ _ line_read r'.0
      ∙ scan_key_last ks' _ _ key_read refl refl n'.1 r'.1 c'.1

  -- The first of two calls is given a well-formed line and a first part of the next line's key; it
  -- stores the field, asks for more, and keeps the break before that key. The second call, with
  -- the rest of the block behind it, whatever it is, refuses the request at that break.
  pub parse_headers-split_key :
      (more : Bytes)
      → IsField (k ∷ ks, v ∷ vs)
      → Lacks b'\n' (k' ∷ ks')
      → Lacks b'\r' (k' ∷ ks')
      → Lacks b':' (k' ∷ ks')
      → (parse_headers (record h {
        in_buffer = b'\n' ∷ line_onto (k ∷ ks, v ∷ vs) (k' ∷ ks');
        h_state = h_start;
      })
          ≡ done (header_again, record (continued []) { in_buffer = b'\n' ∷ k' ∷ ks' }))
        × (parse_headers (continued more) ≡ done (header_error, continued more))
  unfolding parse_headers conclude text start begun
  parse_headers-split_key more f n' r' c' = (
    ap (conclude start) (scan_first_part f n' r' c')
        ∙ ap (λ b. done (header_again, record (continued []) { in_buffer = b })) kept_part,
    ap (conclude (continued more)) (
        scan_key_break ((k' ∷ ks') ++ more) (continued more).in_buffer 0 (initial (continued more))
          refl refl),
  )
    where
      line_end : ℕ
      line_end = suc (return_at (b'\n' ∷ []) ks vs)

      kept_part : drop line_end (b'\n' ∷ line_onto (k ∷ ks, v ∷ vs) (k' ∷ ks')) ≡ b'\n' ∷ k' ∷ ks'
      kept_part =
          ap (drop line_end) (up_to-rest (b'\n' ∷ []) k ks v vs (k' ∷ ks'))
          ∙ kept (b'\n' ∷ []) k ks v vs (k' ∷ ks') line_end refl
