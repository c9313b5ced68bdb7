-- ===== src/Http/Lookup.antt =====
-- The reads of the headers: `getContentLength` and `isKeepAliveRequested`.
use light_agent_gateway.Common.{
  ℕ, ◌<◌, ◌≡◌, ◌^◌, Bool, false, Option, none, some, List, [], ◌∷◌, not, if◌then◌else◌, arith, All,
}
use light_agent_gateway.Common.Bytes.{Bytes, codes, bytes_eq, bytes_eq_iff, to_lower_copy}
use light_agent_gateway.Common.Decimal.{ℤ, pos, negsuc, stoi, to_string, stoi-to_string}
use light_agent_gateway.Http.HeaderMap.{insert}
use light_agent_gateway.Http.{HttpData}

-- The value if it is a number that is not negative; an exception of `stoi` gives `none`.
abbrev length_of : Option ℤ → Option ℕ
length_of none = none
length_of (some (pos n)) = some n
length_of (some (negsuc n)) = none

-- The first key, in the map's order, that is "content-length" in lower case decides.
pub content_length_in : List (Bytes × Bytes) → Option ℕ
content_length_in [] = none
content_length_in ((key, value) ∷ m) =
    if not (bytes_eq (to_lower_copy key) (codes "content-length"))
    then content_length_in m
    else length_of (stoi value)

unfoldable pub get_content_length : HttpData → Option ℕ
unfolding content_length_in
get_content_length h = content_length_in h.headers

pub keep_alive_in : List (Bytes × Bytes) → Bool
keep_alive_in [] = false
keep_alive_in ((key, value) ∷ m) =
    if not (bytes_eq (to_lower_copy key) (codes "connection"))
    then keep_alive_in m
    else bytes_eq (to_lower_copy value) (codes "keep-alive")

unfoldable pub is_keep_alive_requested : HttpData → Bool
unfolding keep_alive_in
is_keep_alive_requested h = keep_alive_in h.headers

abbrev pub IsNamed : Bytes → Bytes × Bytes → Type 0
IsNamed name (key, value) = to_lower_copy key ≡ name

abbrev pub NoneNamed : Bytes → List (Bytes × Bytes) → Type 0
NoneNamed name = All (λ field. ¬ IsNamed name field)

content_length_in-insert :
    (key value : Bytes) (m : List (Bytes × Bytes))
    → to_lower_copy key ≡ codes "content-length"
    → NoneNamed (codes "content-length") m
    → content_length_in (insert key value m) ≡ length_of (stoi value)
unfolding content_length_in insert
content_length_in-insert key value [] e n =
    ground (arith, bytes_eq_iff (to_lower_copy key) (codes "content-length"))
content_length_in-insert key value ((j, w) ∷ m) e n = ground (
  arith,
  content_length_in-insert key value m e n.1,
  bytes_eq_iff (to_lower_copy key) (codes "content-length"),
  bytes_eq_iff (to_lower_copy j) (codes "content-length"),
)

-- A content length that is printed in decimal and stored under any spelling of the header's name is
-- read back, wherever the name stands in the map's order. No other key in the map is a spelling of
-- that name, and the length is one that an `int` holds.
pub get_content_length-insert :
    (h : HttpData) (key : Bytes) (n : ℕ)
    → to_lower_copy key ≡ codes "content-length"
    → NoneNamed (codes "content-length") h.headers
    → n < 2 ^ 31
    → get_content_length (record h { headers = insert key (to_string n) h.headers }) ≡ some n
unfolding get_content_length
get_content_length-insert h key n e none_named l =
    rw (content_length_in-insert key (to_string n) h.headers e none_named, stoi-to_string n l)

keep_alive_in-insert :
    (key value : Bytes) (m : List (Bytes × Bytes))
    → to_lower_copy key ≡ codes "connection"
    → NoneNamed (codes "connection") m
    → keep_alive_in (insert key value m) ≡ bytes_eq (to_lower_copy value) (codes "keep-alive")
unfolding keep_alive_in insert
keep_alive_in-insert key value [] e n =
    ground (arith, bytes_eq_iff (to_lower_copy key) (codes "connection"))
keep_alive_in-insert key value ((j, w) ∷ m) e n = ground (
  arith,
  keep_alive_in-insert key value m e n.1,
  bytes_eq_iff (to_lower_copy key) (codes "connection"),
  bytes_eq_iff (to_lower_copy j) (codes "connection"),
)

-- The connection is to be kept alive exactly when the value stored under a spelling of "connection" is
-- a spelling of "keep-alive"; no other key in the map is a spelling of that name.
is_keep_alive_requested-insert :
    (h : HttpData) (key value : Bytes)
    → to_lower_copy key ≡ codes "connection"
    → NoneNamed (codes "connection") h.headers
    → is_keep_alive_requested (record h { headers = insert key value h.headers })
      ≡ bytes_eq (to_lower_copy value) (codes "keep-alive")
unfolding is_keep_alive_requested
is_keep_alive_requested-insert h key value e n = keep_alive_in-insert key value h.headers e n
