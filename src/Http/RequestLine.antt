-- ===== src/Http/RequestLine.antt =====
-- `HttpData::parseURI`. Positions are below 2^31, as the source's casts to `int` suppose.
pub mod Target
pub mod Laws
pub mod Progress
use light_agent_gateway.Common.{
  ℕ, ◌+◌, ◌-◌, Bool, true, false, Option, none, some, List, [], ◌∷◌, ltb, leb, if◌then◌else◌,
  length, take, drop,
}
use light_agent_gateway.Common.Bytes.{
  Bytes, codes, bytes_eq, find_byte, find_sub, find_from, substr,
}
use light_agent_gateway.Http.{
  HttpData, HttpMethod, method_get, method_post, method_head, http_10, http_11, UriState, uri_again,
  uri_error, uri_success,
}

-- The position of the method's name and the method: "GET" anywhere in the line wins over "POST", and
-- that over "HEAD".
pub select_method : Bytes → Option (ℕ × HttpMethod)
select_method line = elim (find_sub (codes "GET") line) [
  | some p ↦ some (p, method_get)
  | none ↦ elim (find_sub (codes "POST") line) [
    | some p ↦ some (p, method_post)
    | none ↦ elim (find_sub (codes "HEAD") line) [ some p ↦ some (p, method_head) | none ↦ none ]
  ]
]

-- The part in front of '?'.
pub cut_query : Bytes → Bytes
cut_query name = elim (find_byte b'?' name) [ none ↦ name | some p ↦ substr name 0 p ]

-- The version behind the first '/' from `pos` on.
pub parse_version : Bytes → ℕ → HttpData → UriState × HttpData
parse_version line pos h = elim (find_from b'/' pos line) [
  | none ↦ (uri_error, h)
  | some p ↦
      if leb (length line - p) 3
      then (uri_error, h)
      else if bytes_eq (substr line (p + 1) 3) (codes "1.0")
      then (uri_success, record h { http_version = http_10 })
      else if bytes_eq (substr line (p + 1) 3) (codes "1.1")
      then (uri_success, record h { http_version = http_11 })
      else (uri_error, h)
]

-- The file's name between the '/' at `pos` and the space at `end`.
pub target_name : Bytes → ℕ → ℕ → Bytes
unfolding cut_query
target_name line pos end =
    if ltb 1 (end - pos)
    then cut_query (substr line (pos + 1) (end - pos - 1))
    else codes "index.html"

pub parse_target : Bytes → ℕ → HttpData → UriState × HttpData
unfolding parse_version target_name
parse_target line pos h = elim (find_from b'/' pos line) [
  | none ↦ (uri_success, record h { file_name = codes "index.html"; http_version = http_11 })
  | some p ↦ elim (find_from b' ' p line) [
    | none ↦ (uri_error, h)
    | some q ↦ parse_version line q (record h { file_name = target_name line p q })
  ]
]

pub parse_request_line : Bytes → HttpData → UriState × HttpData
unfolding select_method parse_target
parse_request_line line h = elim (select_method line) [
  | none ↦ (uri_error, h)
  | some (pos, method) ↦ parse_target line pos (record h { method = method })
]

pub parse_uri : HttpData → UriState × HttpData
unfolding parse_request_line
parse_uri h = elim (find_from b'\r' h.now_read_pos h.in_buffer) [
  | none ↦ (uri_again, h)
  | some pos ↦ parse_request_line (substr h.in_buffer 0 pos) (record h {
    in_buffer = if ltb (pos + 1) (length h.in_buffer) then drop (pos + 1) h.in_buffer else [];
  })
]
