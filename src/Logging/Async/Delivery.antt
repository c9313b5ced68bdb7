-- ===== src/Logging/Async/Delivery.antt =====
-- AsyncLogging.cpp: the text between the front end and the log file.
use light_agent_gateway.Common.{
  suc, ◌+◌, ◌<◌, ◌≤◌, ◌≡◌, ◌≢◌, refl, sym, ap, ◌∙◌, Option, none, some, List, [], ◌∷◌, ◌++◌, ltb,
  length, take, arith, length-append, append-nil, append_assoc, All, All-append, by_if, ltb→lt,
}
use light_agent_gateway.Common.Bytes.{Bytes}
use light_agent_gateway.Logging.{FixedBuffer, append, avail, k_large_buffer}
use light_agent_gateway.Logging.Async.{
  or_new, swapped, AsyncLogging, append_line, text_of, kept_buffers, refill, thread_round,
}

abbrev pub IsLarge : FixedBuffer → Type 0
IsLarge b = b.capacity ≡ k_large_buffer

abbrev pub IsEmptyBuffer : FixedBuffer → Type 0
IsEmptyBuffer b = (b.capacity ≡ k_large_buffer) × (b.text ≡ [])

abbrev pub IsSpare : Option FixedBuffer → Type 0
IsSpare none = Unit
IsSpare (some b) = IsEmptyBuffer b

-- The front end between two critical sections: the spare buffer is empty, and without one there is a
-- buffer to write.
pub record IsValid (l : AsyncLogging) : Type 0 where
  pub capacity : l.current.capacity ≡ k_large_buffer
  pub full_size : All IsLarge l.buffers
  pub spare : IsSpare l.next
  pub used : l.next ≡ none → l.buffers ≢ []

-- The text handed to the front end and not yet to the file.
abbrev pub pending : AsyncLogging → Bytes
pending l = text_of l.buffers ++ l.current.text

text_of-append : (bs cs : List FixedBuffer) → text_of (bs ++ cs) ≡ text_of bs ++ text_of cs
text_of-append [] cs = refl
text_of-append (b ∷ bs) cs =
    ap (λ t. b.text ++ t) (text_of-append bs cs)
    ∙ sym (append_assoc b.text (text_of bs) (text_of cs))

snoc-not_nil : {A : Type 0} (xs : List A) (x : A) → xs ++ x ∷ [] ≢ []
snoc-not_nil [] x e = ground (arith, e)
snoc-not_nil (y ∷ xs) x e = ground (arith, e)

or_new-IsEmptyBuffer : (o : Option FixedBuffer) → IsSpare o → IsEmptyBuffer (or_new o)
or_new-IsEmptyBuffer none s = (refl, refl)
or_new-IsEmptyBuffer (some b) s = s

append-fits :
    (b : FixedBuffer) (line : Bytes)
    → length line < avail b
    → ((append b line).text ≡ b.text ++ line) × ((append b line).capacity ≡ b.capacity)
unfolding append
append-fits b line l = ground arith

abbrev Appended : AsyncLogging → Bytes → AsyncLogging → Type 0
Appended l line l' =
    (pending l' ≡ pending l ++ line) × IsValid l' × (length l'.buffers ≤ suc (length l.buffers))

same_buffer :
    (l : AsyncLogging) (line : Bytes)
    → IsValid l
    → length line < avail l.current
    → Appended l line (record l { current = append l.current line })
same_buffer l line v s =
    let (t, c) = append-fits l.current line s in
    (
      ap (λ x. text_of l.buffers ++ x) t
          ∙ sym (append_assoc (text_of l.buffers) l.current.text line),
      record { capacity = c ∙ v.capacity; full_size = v.full_size; spare = v.spare; used = v.used },
      omega arith,
    )

next_buffer :
    (l : AsyncLogging) (line : Bytes) (b : FixedBuffer)
    → IsValid l
    → IsEmptyBuffer b
    → length line < k_large_buffer
    → Appended l line
        (record { current = append b line; next = none; buffers = l.buffers ++ l.current ∷ [] })
next_buffer l line b v (c, e) s =
    let (t, k) = append-fits b line (rw (c, e) (omega (arith, s))) in
    (
      ap (λ x. text_of (l.buffers ++ l.current ∷ []) ++ x) (t ∙ ap (λ x. x ++ line) e)
          ∙ ap (λ x. x ++ line)
              (text_of-append l.buffers (l.current ∷ [])
                ∙ ap (λ x. text_of l.buffers ++ x) (append-nil l.current.text)),
      record {
        capacity = k ∙ c;
        full_size = All-append IsLarge l.buffers (l.current ∷ []) v.full_size (v.capacity, tt);
        spare = tt;
        used = λ _. snoc-not_nil l.buffers l.current;
      },
      omega (arith, length-append l.buffers (l.current ∷ [])),
    )

-- A line shorter than a whole buffer is added behind all the text, whichever buffer it goes to, and
-- adds one buffer to write at most.
pub append_line-pending :
    (l : AsyncLogging) (line : Bytes)
    → IsValid l
    → length line < k_large_buffer
    → (pending (append_line l line) ≡ pending l ++ line)
      × IsValid (append_line l line)
      × (length (append_line l line).buffers ≤ suc (length l.buffers))
unfolding append_line
append_line-pending l line v s =
    by_if (Appended l line) (ltb (length line) (avail l.current)) _ _
      (λ e. same_buffer l line v (ltb→lt (length line) (avail l.current) e))
      (λ e. next_buffer l line (or_new l.next) v (or_new-IsEmptyBuffer l.next v.spare) s)

-- The two buffers that the next round starts with.
abbrev pub Refilled : Option (FixedBuffer × FixedBuffer) → Type 0
Refilled none = ⊥
Refilled (some (x, y)) = IsEmptyBuffer x × IsEmptyBuffer y

pub refill-Refilled :
    (bs : List FixedBuffer) (b : FixedBuffer) (o : Option FixedBuffer)
    → All IsLarge bs
    → IsLarge b
    → IsSpare o
    → (o ≡ none → bs ≢ [])
    → Refilled (refill o (take 2 (bs ++ b ∷ [])))
refill-Refilled [] b none a c s u = absurd (u refl refl)
refill-Refilled [] b (some y) a c s u = ((c, refl), s)
refill-Refilled (x ∷ []) b none (d, a) c s u = ((c, refl), (d, refl))
refill-Refilled (x ∷ []) b (some y) (d, a) c s u = ((c, refl), s)
refill-Refilled (x ∷ y ∷ bs) b none (d, (e, a)) c s u = ((e, refl), (d, refl))
refill-Refilled (x ∷ y ∷ bs) b (some z) (d, (e, a)) c s u = ((e, refl), s)

kept_buffers-few :
    (bs : List FixedBuffer) (b : FixedBuffer)
    → length bs < 25
    → kept_buffers (bs ++ b ∷ []) ≡ bs ++ b ∷ []
unfolding kept_buffers
kept_buffers-few bs b n =
    by_if (λ r. r ≡ bs ++ b ∷ []) (ltb 25 (length (bs ++ b ∷ []))) _ _
      (λ e.
        absurd (omega (arith, n, length-append bs (b ∷ []), ltb→lt 25 (length (bs ++ b ∷ [])) e)))
      (λ e. refl)

pub swapped-pending :
    (l : AsyncLogging) (b1 b2 : FixedBuffer) → IsEmptyBuffer b1 → pending (swapped l b1 b2).0 ≡ []
swapped-pending l b1 b2 e = ground (arith, e)

pub swapped-IsValid :
    (l : AsyncLogging) (b1 b2 : FixedBuffer)
    → IsValid l
    → IsEmptyBuffer b1
    → IsEmptyBuffer b2
    → IsValid (swapped l b1 b2).0
swapped-IsValid l b1 b2 v e1 e2 = ground (arith, v, e1, e2)

pub swapped-IsSpare :
    (l : AsyncLogging) (b1 b2 : FixedBuffer) → IsEmptyBuffer b2 → IsSpare (swapped l b1 b2).1
swapped-IsSpare l b1 b2 e = ground (arith, e)

pub swapped-none :
    (l : AsyncLogging) (b1 b2 : FixedBuffer) → (swapped l b1 b2).1 ≡ none → l.next ≡ none
swapped-none l b1 b2 e = ground (arith, e)

-- A round without a flood: all the text goes to the file, in order, none is left pending, and the next
-- round finds the two empty buffers that it asserts.
pub thread_round-delivers :
    (l : AsyncLogging) (b1 b2 : FixedBuffer)
    → IsValid l
    → IsEmptyBuffer b1
    → IsEmptyBuffer b2
    → length l.buffers < 25
    → ((thread_round l b1 b2).output ≡ pending l)
      × (pending (thread_round l b1 b2).logging ≡ [])
      × IsValid (thread_round l b1 b2).logging
      × Refilled (thread_round l b1 b2).spares
unfolding thread_round
thread_round-delivers l b1 b2 v e1 e2 n = rw (kept_buffers-few l.buffers l.current n) (
  text_of-append l.buffers (l.current ∷ [])
      ∙ ap (λ x. text_of l.buffers ++ x) (append-nil l.current.text),
  swapped-pending l b1 b2 e1,
  swapped-IsValid l b1 b2 v e1 e2,
  refill-Refilled l.buffers l.current (swapped l b1 b2).1 v.full_size v.capacity
      (swapped-IsSpare l b1 b2 e2) (λ e. v.used (swapped-none l b1 b2 e)),
)

abbrev pub append_lines : AsyncLogging → List Bytes → AsyncLogging
append_lines l [] = l
append_lines l (line ∷ lines) = append_lines (append_line l line) lines

abbrev pub concat : List Bytes → Bytes
concat [] = []
concat (line ∷ lines) = line ++ concat lines

append_lines-pending :
    (l : AsyncLogging) (lines : List Bytes)
    → IsValid l
    → All (λ line. length line < k_large_buffer) lines
    → (pending (append_lines l lines) ≡ pending l ++ concat lines)
      × IsValid (append_lines l lines)
      × (length (append_lines l lines).buffers ≤ length lines + length l.buffers)
append_lines-pending l [] v a = (sym (append-nil (pending l)), v, omega arith)
append_lines-pending l (line ∷ lines) v (s, a) =
    let (e, w, n) = append_line-pending l line v s in
    let (f, x, m) = append_lines-pending (append_line l line) lines w a in
    (
      f ∙ (ap (λ t. t ++ concat lines) e ∙ append_assoc (pending l) line (concat lines)),
      x,
      omega (arith, n, m),
    )

-- Lines appended between two rounds, each shorter than a buffer and too few for a flood, all reach the
-- file with the next round, in the order in which they were appended, behind what was pending.
pub lines_delivered :
    (l : AsyncLogging) (b1 b2 : FixedBuffer) (lines : List Bytes)
    → IsValid l
    → IsEmptyBuffer b1
    → IsEmptyBuffer b2
    → All (λ line. length line < k_large_buffer) lines
    → length lines + length l.buffers < 25
    → ((thread_round (append_lines l lines) b1 b2).output ≡ pending l ++ concat lines)
      × (pending (thread_round (append_lines l lines) b1 b2).logging ≡ [])
lines_delivered l b1 b2 lines v e1 e2 a n =
    let (e, w, m) = append_lines-pending l lines v a in
    let (f, g, _, _) =
      thread_round-delivers (append_lines l lines) b1 b2 w e1 e2 (omega (arith, n, m)) in
    (f ∙ e, g)
