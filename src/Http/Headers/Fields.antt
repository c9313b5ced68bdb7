-- ===== src/Http/Headers/Fields.antt =====
-- One field of a header block: the states of `parseHeaders` along its line.
use light_agent_gateway.Common.{
  ℕ, suc, ◌+◌, ◌-◌, ◌≤◌, ◌<◌, ◌≡◌, refl, ap, ◌∙◌, true, some, List, [], ◌∷◌, ◌++◌, length,
  length-append, append_assoc, take_left, drop_left, arith,
}
use light_agent_gateway.Common.Bytes.{Bytes, substr, Lacks}
use light_agent_gateway.Http.HeaderMap.{insert}
use light_agent_gateway.Http.{h_key, h_value, h_lf}
use light_agent_gateway.Http.Headers.{Scan, range, scan}

-- A field that the parser takes: a key of at least one byte with no colon and no line break in it, and
-- a value of 1 to 256 bytes in which no byte but the first is a return.
pub data IsField : Bytes × Bytes → Type 0 where
  field :
      (k : ℕ) (ks : Bytes) (v : ℕ) (vs : Bytes)
      → Lacks b'\n' (k ∷ ks)
      → Lacks b'\r' (k ∷ ks)
      → Lacks b':' (k ∷ ks)
      → Lacks b'\r' vs
      → length vs ≤ 255
      → IsField (k ∷ ks, v ∷ vs)

-- One line of the block with what follows it.
abbrev pub line_onto : Bytes × Bytes → Bytes → Bytes
line_onto (key, value) rest = key ++ (b':' ∷ b' ' ∷ (value ++ (b'\r' ∷ b'\n' ∷ rest)))

-- The block of all fields, its empty line, and what follows.
abbrev pub block_onto : List (Bytes × Bytes) → Bytes → Bytes
block_onto [] rest = b'\r' ∷ b'\n' ∷ rest
block_onto (f ∷ fs) rest = line_onto f (block_onto fs rest)

pub scan-key :
    (key rest str : Bytes) (i : ℕ) (z : Scan)
    → z.h_state ≡ h_key
    → z.not_finish ≡ true
    → Lacks b'\n' key
    → Lacks b'\r' key
    → Lacks b':' key
    → scan (key ++ rest) str i z ≡ scan rest str (length key + i) z
unfolding scan
scan-key [] rest str i z e f n r c = ap (λ j. scan rest str j z) (omega arith)
scan-key (k ∷ key) rest str i z e f n r c =
    ground (arith, scan-key key rest str (suc i) z e f n.1 r.1 c.1)

pub scan-value :
    (value rest str : Bytes) (i start : ℕ) (z : Scan)
    → z.h_state ≡ h_value
    → z.not_finish ≡ true
    → z.value_start ≡ some start
    → Lacks b'\r' value
    → i + length value ≤ start + 256
    → scan (value ++ rest) str i z ≡ scan rest str (length value + i) z
unfolding scan
scan-value [] rest str i start z e f s r l = ap (λ j. scan rest str j z) (omega arith)
scan-value (v ∷ value) rest str i start z e f s r l =
    ground (arith, scan-value value rest str (suc i) start z e f s r.1 (omega arith))

range_of :
    (pre part post : Bytes) (from to : ℕ)
    → from ≡ length pre
    → to ≡ length pre + length part
    → range (pre ++ (part ++ post)) (some from) (some to) ≡ some part
unfolding range substr
range_of pre part post from to p q = ground (
  arith,
  length-append pre (part ++ post),
  length-append part post,
  drop_left from pre (part ++ post) p,
  take_left (to - from) part post (omega arith),
)

-- The states of the scan inside a key and inside a value.
abbrev pub in_key : Scan → ℕ → Scan
in_key z start = record z { h_state = h_key; not_finish = true; key_start = some start }

abbrev pub in_value : Scan → ℕ → ℕ → ℕ → Scan
in_value z start key_end value_start = record z {
  h_state = h_value;
  not_finish = true;
  key_start = some start;
  key_end = some key_end;
  value_start = some value_start;
}

pub scan_colon :
    (v : ℕ) (rest str : Bytes) (start i : ℕ) (z : Scan)
    → start < i
    → scan (b':' ∷ b' ' ∷ v ∷ rest) str i (in_key z start)
      ≡ scan rest str (suc (suc (suc i))) (in_value z start i (suc (suc i)))
unfolding scan
scan_colon v rest str start i z h = ground arith

abbrev pub stored : Scan → ℕ → ℕ → ℕ → ℕ → Bytes → Bytes → Scan
stored z start key_end value_start value_end key value = record z {
  h_state = h_lf;
  not_finish = true;
  key_start = some start;
  key_end = some key_end;
  value_start = some value_start;
  value_end = some value_end;
  now_read_line_begin = suc value_end;
  headers = insert key value z.headers;
}

scan_crlf :
    (key value rest str : Bytes) (start key_end value_start i : ℕ) (z : Scan)
    → value_start < i
    → range str (some start) (some key_end) ≡ some key
    → range str (some value_start) (some i) ≡ some value
    → scan (b'\r' ∷ b'\n' ∷ rest) str i (in_value z start key_end value_start)
      ≡ scan rest str (suc (suc i)) (stored z start key_end value_start i key value)
unfolding scan
scan_crlf key value rest str start key_end value_start i z h k v = ground arith

-- Where the parts of a line behind `pre` stand.
abbrev pub colon_at : Bytes → Bytes → ℕ
colon_at pre ks = length ks + suc (length pre)

abbrev pub value_at : Bytes → Bytes → ℕ
value_at pre ks = suc (suc (colon_at pre ks))

abbrev pub return_at : Bytes → Bytes → Bytes → ℕ
return_at pre ks vs = length vs + suc (value_at pre ks)

module _ (pre : Bytes) (k : ℕ) (ks : Bytes) (v : ℕ) (vs rest : Bytes) where
  unfoldable pub line_text : Bytes
  line_text = pre ++ line_onto (k ∷ ks, v ∷ vs) rest

  range_key : range line_text (some (length pre)) (some (colon_at pre ks)) ≡ some (k ∷ ks)
  unfolding line_text
  range_key = range_of pre (k ∷ ks) _ (length pre) (colon_at pre ks) refl (omega arith)

  before_value : Bytes
  before_value = pre ++ ((k ∷ ks) ++ b':' ∷ b' ' ∷ [])

  line_text-split : line_text ≡ before_value ++ ((v ∷ vs) ++ (b'\r' ∷ b'\n' ∷ rest))
  unfolding line_text before_value
  line_text-split = simp append_assoc

  length-before_value : (value_at pre ks) ≡ length before_value
  unfolding before_value
  length-before_value = omega (
    arith,
    length-append pre ((k ∷ ks) ++ b':' ∷ b' ' ∷ []),
    length-append (k ∷ ks) (b':' ∷ b' ' ∷ []),
  )

  range_value :
      range line_text (some (value_at pre ks)) (some (return_at pre ks vs)) ≡ some (v ∷ vs)
  range_value = rw line_text-split (
      range_of before_value (v ∷ vs) _ (value_at pre ks) (return_at pre ks vs) length-before_value
        (omega (arith, length-before_value)))

  pub scan_line :
      (z : Scan)
      → Lacks b'\n' ks
      → Lacks b'\r' ks
      → Lacks b':' ks
      → Lacks b'\r' vs
      → length vs ≤ 255
      → scan
          (ks ++ (b':' ∷ b' ' ∷ v ∷ (vs ++ (b'\r' ∷ b'\n' ∷ rest))))
          line_text
          (suc (length pre))
          (in_key z (length pre))
        ≡ scan rest line_text (suc (suc (return_at pre ks vs))) (
            stored z
              (length pre)
              (colon_at pre ks)
              (value_at pre ks)
              (return_at pre ks vs)
              (k ∷ ks)
              (v ∷ vs))
  scan_line z n r c r' l =
      scan-key ks _ line_text (suc (length pre)) (in_key z (length pre)) refl refl n r c
      ∙ scan_colon v _ line_text (length pre) (colon_at pre ks) z (omega arith)
      ∙ scan-value vs _ line_text (suc (value_at pre ks)) (value_at pre ks)
          (in_value z (length pre) (colon_at pre ks) (value_at pre ks)) refl refl refl r'
          (omega arith)
      ∙ scan_crlf (k ∷ ks) (v ∷ vs) rest line_text (length pre) (colon_at pre ks) (value_at pre ks)
          (return_at pre ks vs) z (omega arith) range_key range_value
