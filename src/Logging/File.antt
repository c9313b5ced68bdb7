-- ===== src/Logging/File.antt =====
-- `AppendFile::append` of base/FileUtil.cpp and `LogFile::append_unlocked` of base/LogFile.cpp. What
-- `fwrite_unlocked` takes is a script: one number for each call, and nothing where it ends.
use light_agent_gateway.Common.{
  ℕ, ◌+◌, ◌-◌, ◌<◌, ◌≤◌, ◌≡◌, refl, sym, ap, ◌∙◌, List, [], ◌∷◌, ◌++◌, ◌==◌, leb, if◌then◌else◌,
  length, take, drop, min, arith, All, by_if, append_assoc, append-nil, take-append-drop,
  drop-length,
}
use light_agent_gateway.Common.Bytes.{Bytes}
use light_agent_gateway.Io.Writing.{drop-add}

-- The loop of `append` behind `n` bytes of the line.
unfoldable pub append_rest : List ℕ → Bytes → Bytes → ℕ → Bytes
append_rest [] file line n = file
append_rest (k ∷ ks) file line n =
    let x = min k (length line - n) in
    let rest = append_rest ks (file ++ take x (drop n line)) line (n + x) in
    if length line - n == 0 then file else if x == 0 then file else rest

-- The file's text behind `append`: the first write is not looked at before the loop.
unfoldable pub append_file : List ℕ → Bytes → Bytes → Bytes
unfolding append_rest
append_file [] file line = append_rest [] file line 0
append_file (k ∷ ks) file line =
    let n = min k (length line) in append_rest ks (file ++ take n line) line n

pub record LogFile : Type 0 where
  pub flush_every_n : ℕ
  pub count : ℕ
  pub text : Bytes
  pub flushed : Bytes

-- `flushed` is the text that the last flush has handed on.
unfoldable pub append_unlocked : List ℕ → LogFile → Bytes → LogFile
unfolding append_file
append_unlocked ks f line =
    let text = append_file ks f.text line in
    if leb f.flush_every_n (f.count + 1)
    then record f { count = 0; text = text; flushed = text }
    else record f { count = f.count + 1; text = text }

unfoldable pub flush : LogFile → LogFile
flush f = record f { flushed = f.text }

-- The thread's calls of `append`, one for each buffer, and then its call of `flush`; what the writes of
-- each call take is one script.
unfoldable pub write_buffers : List (List ℕ) → LogFile → List Bytes → LogFile
unfolding append_unlocked flush
write_buffers ks f [] = flush f
write_buffers [] f (t ∷ ts) = write_buffers [] (append_unlocked [] f t) ts
write_buffers (k ∷ ks) f (t ∷ ts) = write_buffers ks (append_unlocked k f t) ts

chunk_onto :
    (file line : Bytes) (n x : ℕ)
    → (file ++ take x (drop n line)) ++ drop (n + x) line ≡ file ++ drop n line
chunk_onto file line n x =
    append_assoc file (take x (drop n line)) (drop (n + x) line)
    ∙ ap (λ s. file ++ s)
        (ap (λ s. take x (drop n line) ++ s) (drop-add n x (n + x) line refl)
          ∙ take-append-drop x (drop n line))

none_left : (n : ℕ) (line : Bytes) → n ≡ length line → drop n line ≡ []
none_left n line e = ap (λ k. drop k line) e ∙ drop-length line

append_rest-progress :
    (ks : List ℕ) (file line : Bytes) (n : ℕ)
    → All (λ k. 0 < k) ks
    → n ≤ length line
    → length line ≤ n + length ks
    → append_rest ks file line n ≡ file ++ drop n line
unfolding append_rest
append_rest-progress [] file line n a l m =
    sym (ap (λ s. file ++ s) (none_left n line (omega (arith, l, m))) ∙ append-nil file)
append_rest-progress (k ∷ ks) file line n (p, a) l m =
    by_if (λ r. r ≡ file ++ drop n line) (length line - n == 0) _ _
      (λ e. sym (ap (λ s. file ++ s) (none_left n line (ground (arith, l, e))) ∙ append-nil file))
      (λ e.
        by_if (λ r. r ≡ file ++ drop n line) (min k (length line - n) == 0) _ _
          (λ f. absurd (ground (arith, e, f, p)))
          (λ f.
            append_rest-progress ks (file ++ take (min k (length line - n)) (drop n line)) line
              (n + min k (length line - n)) a (omega (arith, l)) (ground (arith, m, f))
            ∙ chunk_onto file line n (min k (length line - n))))

-- However short the writes are, as long as each takes at least one byte and there is one for every byte
-- of the line, the whole line is appended to the file, once and in order.
pub append_file-whole :
    (ks : List ℕ) (file line : Bytes)
    → All (λ k. 0 < k) ks
    → length line ≤ length ks
    → append_file ks file line ≡ file ++ line
unfolding append_file
append_file-whole [] file line a l =
    append_rest-progress [] file line 0 a (omega arith) (omega (arith, l))
append_file-whole (k ∷ ks) file line (p, a) l =
    append_rest-progress ks (file ++ take (min k (length line)) line) line (min k (length line)) a
      (omega arith) (ground (arith, l, p))
    ∙ (append_assoc file (take (min k (length line)) line) (drop (min k (length line)) line)
        ∙ ap (λ s. file ++ s) (take-append-drop (min k (length line)) line))

-- Each script has a write for every byte of its text, and each write takes at least one.
abbrev pub Progresses : List (List ℕ) → List Bytes → Type 0
Progresses ks [] = Unit
Progresses [] (t ∷ ts) = ⊥
Progresses (k ∷ ks) (t ∷ ts) = All (λ n. 0 < n) k × (length t ≤ length k) × Progresses ks ts

abbrev pub joined : List Bytes → Bytes
joined [] = []
joined (t ∷ ts) = t ++ joined ts

text-append_unlocked :
    (k : List ℕ) (f : LogFile) (t : Bytes)
    → All (λ n. 0 < n) k
    → length t ≤ length k
    → (append_unlocked k f t).text ≡ f.text ++ t
unfolding append_unlocked
text-append_unlocked k f t p l =
    by_if (λ (g : LogFile). g.text ≡ f.text ++ t) (leb f.flush_every_n (f.count + 1)) _ _
      (λ e. append_file-whole k f.text t p l) (λ e. append_file-whole k f.text t p l)

pub flushed-write_buffers :
    (ks : List (List ℕ)) (f : LogFile) (ts : List Bytes)
    → Progresses ks ts
    → (write_buffers ks f ts).flushed ≡ f.text ++ joined ts
unfolding write_buffers flush
flushed-write_buffers ks f [] p = sym (append-nil f.text)
flushed-write_buffers [] f (t ∷ ts) p = absurd p
flushed-write_buffers (k ∷ ks) f (t ∷ ts) (p, l, q) =
    flushed-write_buffers ks (append_unlocked k f t) ts q
    ∙ ap (λ s. s ++ joined ts) (text-append_unlocked k f t p l)
    ∙ append_assoc f.text t (joined ts)
