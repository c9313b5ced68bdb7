-- ===== src/Gateway/Json.antt =====
-- `jsonEscape` of LightAgentGateway.cpp against an independent description: a reader of JSON strings
-- after RFC 8259.
use light_agent_gateway.Common.{
  ℕ, ◌≤◌, ◌<◌, ◌≡◌, ◌≢◌, ◌⊎◌, refl, false, Option, none, some, [], ◌∷◌, ◌++◌, ◌==◌, ltb,
  if◌then◌else◌, arith, All, append_assoc, Bool-cases, inl, inr,
}
use light_agent_gateway.Common.Bytes.{Bytes}
use light_agent_gateway.Gateway.{escape_char, json_escape}

abbrev prepend : ℕ → Option (Bytes × Bytes) → Option (Bytes × Bytes)
prepend c none = none
prepend c (some (s, rest)) = some (c ∷ s, rest)

-- The byte that a two-character escape stands for; `\u` and the escapes that the program never
-- writes are left out, so the reader refuses them.
unescape : ℕ → Option ℕ
unescape c =
    if c == b'\\'
    then some b'\\'
    else if c == b'"'
    then some b'"'
    else if c == b'n'
    then some b'\n'
    else if c == b'r'
    then some b'\r'
    else if c == b't'
    then some b'\t'
    else none

-- What stands after the opening quote: the string's bytes, and the text behind the closing quote.
-- An unescaped control character is refused.
pub read_string : Bytes → Option (Bytes × Bytes)
unfolding unescape
read_string [] = none
read_string (c ∷ []) = if c == b'"' then some ([], []) else none
read_string (c ∷ d ∷ s) =
    let escaped : Option (Bytes × Bytes) = elim (unescape d) [
      | none ↦ none
      | some e ↦ prepend e (read_string s)
    ] in
    let plain = prepend c (read_string (d ∷ s)) in
    if c == b'"'
    then some ([], d ∷ s)
    else if c == b'\\'
    then escaped
    else if ltb c 32
    then none
    else plain

-- `jsonEscape` has a case for it, or it needs none.
abbrev pub IsCovered : ℕ → Type 0
IsCovered c = (32 ≤ c) ⊎ (c ≡ b'\n') ⊎ (c ≡ b'\r') ⊎ (c ≡ b'\t')

-- A control character that `jsonEscape` has no case for.
abbrev pub IsRawControl : ℕ → Type 0
IsRawControl c = (c < 32) × (c ≢ b'\n') × (c ≢ b'\r') × (c ≢ b'\t')

read_string-plain :
    (c : ℕ) (s : Bytes)
    → c ≢ b'"'
    → c ≢ b'\\'
    → (ltb c 32 ≡ false)
    → read_string (c ∷ s) ≡ prepend c (read_string s)
unfolding read_string
read_string-plain c [] p q h = ground arith
read_string-plain c (d ∷ s) p q h = ground arith

read_string-escaped :
    (d e : ℕ) (s : Bytes)
    → unescape d ≡ some e
    → read_string (b'\\' ∷ d ∷ s) ≡ prepend e (read_string s)
unfolding read_string
read_string-escaped d e s h = rw h

-- The two forms of an escaped byte.
data Form (c : ℕ) : Bytes → Type 0 where
  pair : (d : ℕ) → unescape d ≡ some c → Form c (b'\\' ∷ d ∷ [])
  single : c ≢ b'"' → c ≢ b'\\' → ltb c 32 ≡ false → Form c (c ∷ [])

escape_char-Form : (c : ℕ) → IsCovered c → Form c (escape_char c)
unfolding escape_char unescape
escape_char-Form c h = elim (Bool-cases (c == b'\\')) [
  | inl e ↦ rw e (pair b'\\' (ground arith))
  | inr e ↦ rw e (elim (Bool-cases (c == b'"')) [
    | inl e1 ↦ rw e1 (pair b'"' (ground arith))
    | inr e1 ↦ rw e1 (elim (Bool-cases (c == b'\n')) [
      | inl e2 ↦ rw e2 (pair b'n' (ground arith))
      | inr e2 ↦ rw e2 (elim (Bool-cases (c == b'\r')) [
        | inl e3 ↦ rw e3 (pair b'r' (ground arith))
        | inr e3 ↦ rw e3 (elim (Bool-cases (c == b'\t')) [
          | inl e4 ↦ rw e4 (pair b't' (ground arith))
          | inr e4 ↦ rw e4 (single (ground arith) (ground arith) (ground arith))
        ])
      ])
    ])
  ])
]

read_string-Form :
    (c : ℕ) (s : Bytes) {t : Bytes} → Form c t → read_string (t ++ s) ≡ prepend c (read_string s)
read_string-Form c s (pair d h) = read_string-escaped d c s h
read_string-Form c s (single p q h) = read_string-plain c s p q h

read_string-escape_char :
    (c : ℕ) (s : Bytes) → IsCovered c → read_string (escape_char c ++ s) ≡ prepend c (read_string s)
read_string-escape_char c s h = read_string-Form c s (escape_char-Form c h)

read_string-raw : (c : ℕ) (s : Bytes) → IsRawControl c → read_string (escape_char c ++ s) ≡ none
unfolding read_string escape_char
read_string-raw c [] h = ground arith
read_string-raw c (d ∷ s) h = ground arith

-- A JSON reader that is behind the opening quote takes the escaped text and the quote behind it for
-- exactly the original bytes, and stops there, whatever follows; the original has no control
-- character but newline, return and tab.
pub read_string-json_escape :
    (value rest : Bytes)
    → All IsCovered value
    → read_string (json_escape value ++ b'"' ∷ rest) ≡ some (value, rest)
unfolding json_escape
read_string-json_escape [] [] h = unfold read_string in refl
read_string-json_escape [] (c ∷ rest) h = unfold read_string in refl
read_string-json_escape (c ∷ value) rest h =
    rw (append_assoc, read_string-escape_char c _ h.0, read_string-json_escape value rest h.1)

-- Whatever stands around it, a control character other than those three comes out unescaped, and a
-- JSON reader refuses the text.
json_escape_control :
    (before after rest : Bytes) (c : ℕ)
    → All IsCovered before
    → IsRawControl c
    → read_string (json_escape (before ++ c ∷ after) ++ rest) ≡ none
unfolding json_escape
json_escape_control [] after rest c h raw = rw (append_assoc) (read_string-raw c _ raw)
json_escape_control (b ∷ before) after rest c h raw =
    rw (
      append_assoc,
      read_string-escape_char b _ h.0,
      json_escape_control before after rest c h.1 raw,
    )
