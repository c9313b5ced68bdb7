-- ===== src/Http/RequestLine/Laws.antt =====
-- `parseURI` on well-formed request lines, and on lines without a method.
use light_agent_gateway.Common.{
  ℕ, ◌+◌, ◌≡◌, refl, ap, ap₂, subst, ◌∙◌, Option, none, some, [], ◌∷◌, ◌++◌, ltb, if◌then◌else◌,
  length, drop, length-append, append_assoc, drop_left, arith,
}
use light_agent_gateway.Common.Bytes.{
  Bytes, codes, find_sub, find_from, Lacks, find_from-append, substr-append, find_sub-front,
}
use light_agent_gateway.Http.{
  HttpData, HttpMethod, method_get, method_post, method_head, HttpVersion, uri_success, uri_error,
}
use light_agent_gateway.Http.RequestLine.{select_method, parse_request_line, parse_uri}
use light_agent_gateway.Http.RequestLine.Target.{
  method_text, query_text, behind_target, request_line, file_of, parse_target-text,
}

-- The name of the method at the front is the one that is selected, unless the line carries another
-- that the parser looks for first.
abbrev pub Selects : HttpMethod → Bytes → Type 0
Selects method_get text = Unit
Selects method_post text = find_sub (codes "GET") text ≡ none
Selects method_head text =
    (find_sub (codes "GET") text ≡ none) × (find_sub (codes "POST") text ≡ none)

select_method-front :
    (method : HttpMethod) (rest : Bytes)
    → Selects method (method_text method ++ rest)
    → select_method (method_text method ++ rest) ≡ some (0, method)
unfolding select_method
select_method-front method_get rest h = rw (find_sub-front (codes "GET") rest, select_method)
select_method-front method_post rest h = rw (h, find_sub-front (codes "POST") rest, select_method)
select_method-front method_head rest h =
    rw (h.0, h.1, find_sub-front (codes "HEAD") rest, select_method)

head_of_line : (method : HttpMethod) → Lacks b'/' (method_text method ++ b' ' ∷ [])
unfolding codes
head_of_line method_get = omega arith
head_of_line _ = omega arith

parse_request_line-text :
    (method : HttpMethod) (name : Bytes) (query : Option Bytes) (version : HttpVersion)
    (h : HttpData)
    → Lacks b'?' name
    → Lacks b' ' (name ++ query_text query)
    → Selects method (request_line method name query version)
    → parse_request_line (request_line method name query version) h ≡ (
      uri_success,
      record h { method = method; file_name = file_of name query; http_version = version },
    )
unfolding parse_request_line
parse_request_line-text method name query version h q b sel =
    rw (selected, parse_request_line)
      (parse_target-text (method_text method ++ b' ' ∷ []) name query version
        (record h { method = method }) (head_of_line method) q b)
  where
    after : Bytes
    after = b'/' ∷ ((name ++ query_text query) ++ behind_target version)

    regroup : request_line method name query version ≡ method_text method ++ b' ' ∷ after
    regroup = append_assoc (method_text method) (b' ' ∷ []) after

    selected : select_method (request_line method name query version) ≡ some (0, method)
    selected =
        ap select_method regroup
        ∙ select_method-front method (b' ' ∷ after) (subst (Selects method) regroup sel)

rest_of_buffer :
    (line rest : Bytes) (n : ℕ)
    → n ≡ length line
    → (if ltb (n + 1) (length (line ++ b'\r' ∷ rest))
        then drop (n + 1) (line ++ b'\r' ∷ rest)
        else [])
      ≡ rest
rest_of_buffer line [] n e = ground (arith, length-append line (b'\r' ∷ []))
rest_of_buffer line (c ∷ rest) n e = ground (
  arith,
  length-append line (b'\r' ∷ c ∷ rest),
  append_assoc line (b'\r' ∷ []) (c ∷ rest),
  length-append line (b'\r' ∷ []),
  drop_left (n + 1) (line ++ b'\r' ∷ []) (c ∷ rest),
)

-- The lines that `parseURI` meets have no return in them, and what follows the return stays.
pub parse_uri-line :
    (line rest : Bytes) (h : HttpData)
    → Lacks b'\r' line
    → parse_uri (record h { in_buffer = line ++ b'\r' ∷ rest; now_read_pos = 0 })
      ≡ parse_request_line line (record h { in_buffer = rest; now_read_pos = 0 })
unfolding parse_uri
parse_uri-line line rest h r =
    rw (found, parse_uri)
      (ap₂ parse_request_line (substr-append [] line (b'\r' ∷ rest) 0 (length line) refl refl) (
        ap (λ b. record h { in_buffer = b; now_read_pos = 0 })
          (rest_of_buffer line rest (length line) refl)))
  where
    found : find_from b'\r' 0 (line ++ b'\r' ∷ rest) ≡ some (length line)
    found = find_from-append b'\r' 0 [] line rest refl r ∙ ap some (omega arith)

-- `parseURI` reads back a request line: with the buffer at a line that a client writes for any of the
-- three methods, any name with an optional query, and either version, it succeeds with that method,
-- that version and the file's name, the index for an empty target, and leaves in the buffer what
-- stands behind the return. The target has no space and no return, its name no '?', and a line
-- for POST or HEAD carries no name of a method that the parser looks for before.
pub parse_uri-request_line :
    (method : HttpMethod) (name : Bytes) (query : Option Bytes) (version : HttpVersion)
    (rest : Bytes) (h : HttpData)
    → Lacks b'?' name
    → Lacks b' ' (name ++ query_text query)
    → Lacks b'\r' (request_line method name query version)
    → Selects method (request_line method name query version)
    → parse_uri (record h {
      in_buffer = request_line method name query version ++ b'\r' ∷ rest;
      now_read_pos = 0;
    })
      ≡ (
        uri_success,
        record h {
          in_buffer = rest;
          method = method;
          file_name = file_of name query;
          http_version = version;
          now_read_pos = 0;
        },
      )
parse_uri-request_line method name query version rest h q b r sel =
    parse_uri-line (request_line method name query version) rest h r
    ∙ parse_request_line-text method name query version
        (record h { in_buffer = rest; now_read_pos = 0 }) q b sel

-- A line without the name of any method that the server knows.
pub record IsMethodless (line : Bytes) : Type 0 where
  pub no_return : Lacks b'\r' line
  pub no_get : find_sub (codes "GET") line ≡ none
  pub no_post : find_sub (codes "POST") line ≡ none
  pub no_head : find_sub (codes "HEAD") line ≡ none

pub parse_uri-methodless :
    (line rest : Bytes) (h : HttpData)
    → IsMethodless line
    → parse_uri (record h { in_buffer = line ++ b'\r' ∷ rest; now_read_pos = 0 })
      ≡ (uri_error, record h { in_buffer = rest; now_read_pos = 0 })
unfolding parse_request_line select_method
parse_uri-methodless line rest h i =
    parse_uri-line line rest h i.no_return
    ∙ rw (parse_request_line, select_method, i.no_get, i.no_post, i.no_head) refl
