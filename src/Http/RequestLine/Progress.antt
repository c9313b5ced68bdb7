-- ===== src/Http/RequestLine/Progress.antt =====
-- `parseURI`: what it takes off the buffer and what it leaves alone, and which method it picks where
-- a line carries several.
use light_agent_gateway.Common.{
  ℕ, suc, ◌+◌, ◌≤◌, ◌≡◌, ◌≢◌, ◌⊎◌, inl, inr, refl, none, [], ◌∷◌, ◌++◌, ltb, if◌then◌else◌, length,
  drop, length-drop, arith, Option-cases,
}
use light_agent_gateway.Common.Bytes.{
  Bytes, codes, find_sub, find_from, substr, Lacks, find_sub-append, find_from-lt,
}
use light_agent_gateway.Http.{HttpData, method_get, UriState, uri_again}
use light_agent_gateway.Http.RequestLine.{
  select_method, parse_version, target_name, parse_target, parse_request_line, parse_uri,
}
use light_agent_gateway.Http.RequestLine.Laws.{parse_uri-line}

parse_version-method :
    (line : Bytes) (pos : ℕ) (h : HttpData) → (parse_version line pos h).1.method ≡ h.method
unfolding parse_version
parse_version-method line pos h = ground arith

parse_target-method :
    (line : Bytes) (pos : ℕ) (h : HttpData) → (parse_target line pos h).1.method ≡ h.method
unfolding parse_target
parse_target-method line pos h = grind (arith, parse_version-method)

request_line-get :
    (line : Bytes) (h : HttpData)
    → find_sub (codes "GET") line ≢ none
    → (parse_request_line line h).1.method ≡ method_get
unfolding parse_request_line
request_line-get line h g = elim (Option-cases (find_sub (codes "GET") line)) [
  | inl e ↦ absurd (g e)
  | inr (p, e) ↦
      rw (e, parse_request_line) (parse_target-method line p (record h { method = method_get }))
]

-- Any request line with "GET" anywhere in it, in the path, the query or a longer word, is taken for a
-- GET, whatever method stands at its front.
parse_uri-get_anywhere :
    (before after rest : Bytes) (h : HttpData)
    → Lacks b'\r' (before ++ (codes "GET" ++ after))
    → (parse_uri (record h {
      in_buffer = (before ++ (codes "GET" ++ after)) ++ b'\r' ∷ rest;
      now_read_pos = 0;
    })).1.method
      ≡ method_get
parse_uri-get_anywhere before after rest h r =
    rw (parse_uri-line (before ++ (codes "GET" ++ after)) rest h r) (
      request_line-get (before ++ (codes "GET" ++ after)) _
        (find_sub-append (codes "GET") before after))

-- The members that `parseURI` leaves alone.
pub record SameElse (h h' : HttpData) : Type 0 where
  pub same_fd : h'.fd ≡ h.fd
  pub same_out : h'.out_buffer ≡ h.out_buffer
  pub same_error : h'.error ≡ h.error
  pub same_connection : h'.connection_state ≡ h.connection_state
  pub same_path : h'.path ≡ h.path
  pub same_pos : h'.now_read_pos ≡ h.now_read_pos
  pub same_state : h'.state ≡ h.state
  pub same_h_state : h'.h_state ≡ h.h_state
  pub same_keep_alive : h'.keep_alive ≡ h.keep_alive
  pub same_headers : h'.headers ≡ h.headers
  pub same_timer : h'.timer ≡ h.timer

-- The line decides, and the buffer is not touched any more.
record Decided (h : HttpData) (r : UriState × HttpData) : Type 0 where
  else_same : SameElse h r.1
  buffer_same : r.1.in_buffer ≡ h.in_buffer
  decided : r.0 ≢ uri_again

parse_version-Decided :
    (line : Bytes) (pos : ℕ) (h : HttpData) → Decided h (parse_version line pos h)
unfolding parse_version
parse_version-Decided line pos h = ground arith

parse_target-Decided : (line : Bytes) (pos : ℕ) (h : HttpData) → Decided h (parse_target line pos h)
unfolding parse_target
parse_target-Decided line pos h = elim (Option-cases (find_from b'/' pos line)) [
  | inl e ↦ rw (e, parse_target) (ground arith)
  | inr (p, e) ↦ elim (Option-cases (find_from b' ' p line)) [
    | inl e' ↦ rw (e, e', parse_target) (ground arith)
    | inr (q, e') ↦
        rw (e, e', parse_target)
          (ground
            (arith, parse_version-Decided line q (record h { file_name = target_name line p q })))
  ]
]

request_line-Decided : (line : Bytes) (h : HttpData) → Decided h (parse_request_line line h)
unfolding parse_request_line
request_line-Decided line h = elim (Option-cases (select_method line)) [
  | inl e ↦ rw (e, parse_request_line) (ground arith)
  | inr ((p, m), e) ↦
      rw (e, parse_request_line)
        (ground (arith, parse_target-Decided line p (record h { method = m })))
]

-- The connection without the line whose return stands at `p`.
abbrev behind : HttpData → ℕ → HttpData
behind h p = record h {
  in_buffer = if ltb (p + 1) (length h.in_buffer) then drop (p + 1) h.in_buffer else [];
}

consumed :
    (h h0 : HttpData) (r : UriState × HttpData)
    → Decided h0 r
    → SameElse h h0
    → suc (length h0.in_buffer) ≤ length h.in_buffer
    → (r.0 ≢ uri_again) × (suc (length r.1.in_buffer) ≤ length h.in_buffer) × SameElse h r.1
consumed h h0 r d s l = ground arith

-- `parseURI` asks for more exactly when no return is in the buffer from its position on, and then
-- changes nothing. Otherwise, whether it accepts the line or not, it takes at least one byte off the
-- front of the buffer, and changes nothing of the connection but the buffer, the method, the version
-- and the name.
pub parse_uri_progress :
    (h : HttpData)
    → let (flag, h') = parse_uri h in
      ((flag ≡ uri_again) × (find_from b'\r' h.now_read_pos h.in_buffer ≡ none) × (h' ≡ h))
      ⊎ ((flag ≢ uri_again) × (suc (length h'.in_buffer) ≤ length h.in_buffer) × SameElse h h')
unfolding parse_uri
parse_uri_progress h = elim (Option-cases (find_from b'\r' h.now_read_pos h.in_buffer)) [
  | inl e ↦ inl (rw (e, parse_uri) (refl, refl, refl))
  | inr (p, e) ↦ inr (
      rw (e, parse_uri)
        (consumed h _ _ (request_line-Decided (substr h.in_buffer 0 p) (behind h p)) (ground arith)
          (ground (
            arith,
            find_from-lt b'\r' h.now_read_pos h.in_buffer e,
            length-drop (p + 1) h.in_buffer,
          ))))
]
