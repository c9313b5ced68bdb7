-- ===== src/Http/RequestLine/Target.antt =====
-- The target and the version of a request line: what `parseURI` makes of them, piece by piece.
use light_agent_gateway.Common.{
  ℕ, suc, ◌+◌, ◌-◌, ◌≡◌, ◌≢◌, refl, sym, ap, ◌∙◌, Option, none, some, [], ◌∷◌, ◌++◌, length,
  length-append, append_assoc, append-nil, take_left, arith,
}
use light_agent_gateway.Common.Bytes.{
  Bytes, codes, bytes_eq_iff, find_from, substr, Lacks, find_byte-append, find_byte-none,
  find_from-append, substr-append,
}
use light_agent_gateway.Http.{
  HttpData, HttpMethod, method_get, method_post, method_head, HttpVersion, http_10, http_11,
  uri_success,
}
use light_agent_gateway.Http.RequestLine.{cut_query, parse_version, target_name, parse_target}

abbrev pub method_text : HttpMethod → Bytes
method_text method_get = codes "GET"
method_text method_post = codes "POST"
method_text method_head = codes "HEAD"

abbrev pub version_text : HttpVersion → Bytes
version_text http_10 = codes "1.0"
version_text http_11 = codes "1.1"

-- The query of a target: nothing, or '?' and any text.
abbrev pub query_text : Option Bytes → Bytes
query_text none = []
query_text (some q) = b'?' ∷ q

abbrev pub behind_target : HttpVersion → Bytes
behind_target version = b' ' ∷ (codes "HTTP" ++ (b'/' ∷ version_text version))

-- The line that a client writes: method, target and version.
abbrev pub request_line : HttpMethod → Bytes → Option Bytes → HttpVersion → Bytes
request_line method name query version =
    (method_text method ++ b' ' ∷ [])
    ++ (b'/' ∷ ((name ++ query_text query) ++ behind_target version))

-- The file a target stands for: an empty target is the index.
abbrev pub file_of : Bytes → Option Bytes → Bytes
file_of [] none = codes "index.html"
file_of name query = name

cut_query-query_text :
    (name : Bytes) (query : Option Bytes)
    → Lacks b'?' name
    → cut_query (name ++ query_text query) ≡ name
unfolding cut_query substr
cut_query-query_text name none h =
    rw (append-nil, find_byte-none b'?' name h, cut_query) (append-nil name)
cut_query-query_text name (some q) h =
    rw (find_byte-append b'?' name q h, cut_query) (take_left (length name) name (b'?' ∷ q) refl)

versions_differ : codes "1.1" ≢ codes "1.0"
unfolding codes
versions_differ e = ground arith

version_at :
    (pre : Bytes) (version : HttpVersion) (n : ℕ)
    → n ≡ length pre
    → find_from b'/' n (pre ++ behind_target version) ≡ some (n + 5)
unfolding codes
version_at pre version n e =
    find_from-append b'/' n pre (b' ' ∷ codes "HTTP") (version_text version) e (omega arith)

version_is :
    (pre : Bytes) (version : HttpVersion) (n : ℕ)
    → n ≡ length pre
    → substr (pre ++ behind_target version) (n + 5 + 1) 3 ≡ version_text version
unfolding codes
version_is pre version n e = rw split (
    substr-append front (version_text version) [] (n + 5 + 1) 3 (omega (arith, measure))
      (three version))
  where
    front : Bytes
    front = pre ++ b' ' ∷ b'H' ∷ b'T' ∷ b'T' ∷ b'P' ∷ b'/' ∷ []

    split : pre ++ behind_target version ≡ front ++ (version_text version ++ [])
    split = simp (append_assoc, append-nil)

    measure : length front ≡ length pre + 6
    measure = length-append pre (b' ' ∷ b'H' ∷ b'T' ∷ b'T' ∷ b'P' ∷ b'/' ∷ [])

    three : (w : HttpVersion) → 3 ≡ length (version_text w)
    three http_10 = refl
    three http_11 = refl

version_length :
    (pre : Bytes) (version : HttpVersion) → length (pre ++ behind_target version) ≡ length pre + 9
unfolding codes
version_length pre http_10 = length-append pre (behind_target http_10)
version_length pre http_11 = length-append pre (behind_target http_11)

parse_version-text :
    (pre : Bytes) (version : HttpVersion) (n : ℕ) (h : HttpData)
    → n ≡ length pre
    → parse_version (pre ++ behind_target version) n h
      ≡ (uri_success, record h { http_version = version })
unfolding parse_version
parse_version-text pre http_10 n h e = ground (
  arith,
  version_at pre http_10 n e,
  version_is pre http_10 n e,
  version_length pre http_10,
  bytes_eq_iff (codes "1.0") (codes "1.0"),
)
parse_version-text pre http_11 n h e = ground (
  arith,
  version_at pre http_11 n e,
  version_is pre http_11 n e,
  version_length pre http_11,
  bytes_eq_iff (codes "1.1") (codes "1.0"),
  bytes_eq_iff (codes "1.1") (codes "1.1"),
  versions_differ,
)

module _ (head : Bytes) (name : Bytes) (query : Option Bytes) (version : HttpVersion) where
  abbrev pub target : Bytes
  target = name ++ query_text query

  abbrev target_line : Bytes
  target_line = head ++ (b'/' ∷ (target ++ behind_target version))

  abbrev space_at : ℕ
  space_at = length head + suc (length target)

  slash_found : Lacks b'/' head → find_from b'/' 0 target_line ≡ some (length head)
  slash_found h = find_from-append b'/' 0 [] head _ refl h ∙ ap some (omega arith)

  space_found : Lacks b' ' target → find_from b' ' (length head) target_line ≡ some space_at
  space_found h = find_from-append b' ' (length head) head (b'/' ∷ target) _ refl ((omega arith), h)

  version_found :
      (h : HttpData)
      → parse_version target_line space_at h ≡ (uri_success, record h { http_version = version })
  version_found h = rw (← append_assoc head (b'/' ∷ target) (behind_target version)) (
      parse_version-text (head ++ b'/' ∷ target) version space_at h
        (sym (length-append head (b'/' ∷ target))))

  target_found :
      substr target_line (length head + 1) (length head + suc (length target) - length head - 1)
      ≡ target
  target_found = rw (← append_assoc head (b'/' ∷ []) (target ++ behind_target version)) (
      substr-append (head ++ b'/' ∷ []) target (behind_target version) (length head + 1) _
        (sym (length-append head (b'/' ∷ []))) (omega arith))

target_name-file_of :
    (head name : Bytes) (query : Option Bytes) (version : HttpVersion)
    → Lacks b'?' name
    → target_name
        (target_line head name query version)
        (length head)
        (space_at head name query version)
      ≡ file_of name query
unfolding target_name
target_name-file_of head [] none version h = ground arith
target_name-file_of head [] (some q) version h =
    ground (arith, target_found head [] (some q) version, cut_query-query_text [] (some q) h)
target_name-file_of head (c ∷ name) query version h = ground (
  arith,
  length-append name (query_text query),
  target_found head (c ∷ name) query version,
  cut_query-query_text (c ∷ name) query h,
)

pub parse_target-text :
    (head name : Bytes) (query : Option Bytes) (version : HttpVersion) (h : HttpData)
    → Lacks b'/' head
    → Lacks b'?' name
    → Lacks b' ' (name ++ query_text query)
    → parse_target (target_line head name query version) 0 h
      ≡ (uri_success, record h { file_name = file_of name query; http_version = version })
unfolding parse_target
parse_target-text head name query version h s q b =
    rw
      (
        slash_found head name query version s,
        space_found head name query version b,
        target_name-file_of head name query version q,
        parse_target,
      )
      (version_found head name query version (record h { file_name = file_of name query }))
