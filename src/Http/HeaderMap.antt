-- ===== src/Http/HeaderMap.antt =====
-- `std::map<string, string>`: pairs in the order of their keys.
use light_agent_gateway.Common.{Option, none, some, List, [], ◌∷◌, ◌≡◌, refl, if◌then◌else◌, arith}
use light_agent_gateway.Common.Bytes.{Bytes, bytes_eq, bytes_lt, bytes_eq_iff}

-- `headers_[key] = value`.
unfoldable pub insert : Bytes → Bytes → List (Bytes × Bytes) → List (Bytes × Bytes)
insert key value [] = (key, value) ∷ []
insert key value ((j, w) ∷ m) =
    if bytes_eq j key
    then (key, value) ∷ m
    else if bytes_lt key j
    then (key, value) ∷ (j, w) ∷ m
    else (j, w) ∷ insert key value m

-- The value stored under a key.
pub lookup : Bytes → List (Bytes × Bytes) → Option Bytes
lookup key [] = none
lookup key ((j, w) ∷ m) = if bytes_eq j key then some w else lookup key m

pub lookup-insert :
    (key key' value : Bytes) (m : List (Bytes × Bytes))
    → lookup key' (insert key value m) ≡ (if bytes_eq key key' then some value else lookup key' m)
unfolding lookup insert
lookup-insert key key' value [] = refl
lookup-insert key key' value ((j, w) ∷ m) = ground (
  arith,
  lookup-insert key key' value m,
  bytes_eq_iff j key,
  bytes_eq_iff j key',
  bytes_eq_iff key key',
)

-- The insertions of a list of fields, in order.
abbrev pub insert_all : List (Bytes × Bytes) → List (Bytes × Bytes) → List (Bytes × Bytes)
insert_all [] m = m
insert_all ((key, value) ∷ fields) m = insert_all fields (insert key value m)
