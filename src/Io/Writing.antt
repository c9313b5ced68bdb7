-- ===== src/Io/Writing.antt =====
-- The `writen` loops of Util.cpp: what has gone out and what is left.
use light_agent_gateway.Common.{
  subst, ℕ, zero, suc, ◌+◌, ◌≡◌, ◌≢◌, All, ◌⊎◌, inr, refl, sym, Option, none, some, List, [], ◌∷◌,
  ◌++◌, length, append_assoc, arith, ap, ◌≤◌, ◌<◌, ◌-◌, min, take, drop, length-drop, drop-length,
  take-append-drop,
}
use light_agent_gateway.Common.Bytes.{Bytes}
use light_agent_gateway.Io.{
  WriteEvent, accepted, write_interrupted, write_again, write_failed, Socket, Written, WriteEnd,
  finished, failed, writen_loop, writen, writen_string, settle,
}

drop-nil {ℓ} : {A : Type ℓ} (n : ℕ) → drop {A = A} n [] ≡ []
drop-nil zero = refl
drop-nil (suc n) = refl

pub drop-add {ℓ} :
    {A : Type ℓ} (m k n : ℕ) (xs : List A) → n ≡ m + k → drop n xs ≡ drop k (drop m xs)
drop-add zero k n xs e = ap (λ j. drop j xs) (omega arith)
drop-add (suc m) k zero xs e = absurd (omega arith)
drop-add (suc m) k (suc n) [] e = sym (drop-nil k)
drop-add (suc m) k (suc n) (x ∷ xs) e = drop-add m k n xs (omega arith)

-- What the loop has done when it stops, from `write_sum` bytes on.
pub record Progress (s : Socket) (buff : Bytes) (write_sum : ℕ) (w : Written) : Type 0 where
  pub grows : write_sum ≤ w.write_sum
  pub bounded : w.write_sum ≤ length buff
  pub conserved : w.socket.sent ++ drop w.write_sum buff ≡ s.sent ++ drop write_sum buff
  pub complete : w.ending ≡ finished → w.write_sum ≡ length buff
  pub reads_kept : w.socket.reads ≡ s.reads

send_chunk :
    (sent buff : Bytes) (m k n : ℕ)
    → n ≡ m + k
    → (sent ++ take k (drop m buff)) ++ drop n buff ≡ sent ++ drop m buff
send_chunk sent buff m k n e =
    rw (append_assoc, drop-add m k n buff e) (ap (◌++◌ sent) (take-append-drop k (drop m buff)))

pub writen_loop-Progress :
    (es : List WriteEvent) (s : Socket) (buff : Bytes) (write_sum : ℕ)
    → write_sum ≤ length buff
    → Progress s buff write_sum (writen_loop es s buff write_sum)
unfolding writen_loop
writen_loop-Progress [] s buff write_sum h = ground arith
writen_loop-Progress (accepted n ∷ es) s buff write_sum h =
    let k : ℕ = min n (length buff - write_sum) in
    let s' : Socket = record s { sent = s.sent ++ take k (drop write_sum buff) } in
    ground (
      arith,
      writen_loop-Progress es s' buff (write_sum + k) (omega arith),
      send_chunk s.sent buff write_sum k (write_sum + k) refl,
    )
writen_loop-Progress (write_interrupted ∷ es) s buff write_sum h =
    ground (arith, writen_loop-Progress es s buff write_sum h)
writen_loop-Progress (_ ∷ es) s buff write_sum h = ground arith

abbrev pub Conserves : Socket → Bytes → Option ℕ × Bytes × Socket → Type 0
Conserves s sbuff (n, left, s') =
    (s'.reads ≡ s.reads)
    × (((n ≡ some (length sbuff - length left)) × (s'.sent ++ left ≡ s.sent ++ sbuff))
        ⊎ ((n ≡ none)
            × (left ≡ sbuff)
            × ((k : ℕ) × (k ≤ length sbuff) × (s'.sent ++ drop k sbuff ≡ s.sent ++ sbuff))))

settle-Conserves :
    (s : Socket) (sbuff : Bytes) (w : Written) (ending : WriteEnd)
    → w.ending ≡ ending
    → Progress s sbuff 0 w
    → Conserves s sbuff (settle sbuff w)
unfolding settle
settle-Conserves s sbuff w failed e p =
    rw (e, settle) (p.reads_kept, inr (refl, refl, (w.write_sum, p.bounded, p.conserved)))
settle-Conserves s sbuff w _ e p =
    rw (e, settle) (ground (arith, length-drop w.write_sum sbuff, drop-length sbuff))

-- `writen` of a string loses and repeats no byte: on success the bytes sent, followed by those left in
-- the string, are the bytes sent before followed by the whole string, and the value returned is the
-- number of bytes that left it. On an error, -1, the string is as it was, although its first `k`
-- bytes have gone out. No byte that was to be read is touched.
pub writen_string-conserves :
    (s : Socket) (sbuff : Bytes) → Conserves s sbuff (writen_string s sbuff)
unfolding writen_string
writen_string-conserves s sbuff =
    let w : Written = writen_loop s.writes s sbuff 0 in
    settle-Conserves s sbuff w w.ending refl (writen_loop-Progress s.writes s sbuff 0 (omega arith))

-- `writen` of a buffer does not read.
pub writen-reads : (s : Socket) (buff : Bytes) → (writen s buff).1.reads ≡ s.reads
unfolding writen
writen-reads s buff = ground (arith, writen_loop-Progress s.writes s buff 0 (omega arith))

-- Nor does `writen` of a string.
pub writen_string-reads : (s : Socket) (sbuff : Bytes) → (writen_string s sbuff).2.reads ≡ s.reads
writen_string-reads s sbuff = (writen_string-conserves s sbuff).0

-- No call fails, so neither does `writen`.
abbrev pub NoneFails : List WriteEvent → Type 0
NoneFails = All (λ e. e ≢ write_failed)

writen_loop-NoneFails :
    (es : List WriteEvent) (s : Socket) (buff : Bytes) (write_sum : ℕ)
    → NoneFails es
    → (writen_loop es s buff write_sum).ending ≢ failed
unfolding writen_loop
writen_loop-NoneFails [] s buff write_sum h = ground arith
writen_loop-NoneFails (accepted n ∷ es) s buff write_sum h =
    let k : ℕ = min n (length buff - write_sum) in
    let s' : Socket = record s { sent = s.sent ++ take k (drop write_sum buff) } in
    ground (arith, writen_loop-NoneFails es s' buff (write_sum + k) h.1)
writen_loop-NoneFails (write_interrupted ∷ es) s buff write_sum h =
    ground (arith, writen_loop-NoneFails es s buff write_sum h.1)
writen_loop-NoneFails (write_again ∷ es) s buff write_sum h = ground arith
writen_loop-NoneFails (write_failed ∷ es) s buff write_sum h = absurd (h.0 refl)

settle-NoneFails :
    (sbuff : Bytes) (w : Written) → w.ending ≢ failed → (n : ℕ) × ((settle sbuff w).0 ≡ some n)
unfolding settle
settle-NoneFails sbuff w h = (w.write_sum, ground (arith, h))

pub writen_string-NoneFails :
    (s : Socket) (sbuff : Bytes)
    → NoneFails s.writes
    → (n : ℕ) × ((writen_string s sbuff).0 ≡ some n)
unfolding writen_string
writen_string-NoneFails s sbuff h =
    settle-NoneFails sbuff (writen_loop s.writes s sbuff 0)
      (writen_loop-NoneFails s.writes s sbuff 0 h)

writen_loop-NoneFails_left :
    (es : List WriteEvent) (s : Socket) (buff : Bytes) (write_sum : ℕ)
    → NoneFails es
    → NoneFails (writen_loop es s buff write_sum).socket.writes
unfolding writen_loop
writen_loop-NoneFails_left [] s buff write_sum h = ground arith
writen_loop-NoneFails_left (accepted n ∷ es) s buff write_sum h =
    let k : ℕ = min n (length buff - write_sum) in
    let s' : Socket = record s { sent = s.sent ++ take k (drop write_sum buff) } in
    ground (arith, writen_loop-NoneFails_left es s' buff (write_sum + k) h.1)
writen_loop-NoneFails_left (write_interrupted ∷ es) s buff write_sum h =
    ground (arith, writen_loop-NoneFails_left es s buff write_sum h.1)
writen_loop-NoneFails_left (write_again ∷ es) s buff write_sum h = ground arith
writen_loop-NoneFails_left (write_failed ∷ es) s buff write_sum h = absurd (h.0 refl)

settle-socket : (sbuff : Bytes) (w : Written) → (settle sbuff w).2 ≡ w.socket
unfolding settle
settle-socket sbuff w = ground arith

-- What is left of the script has no failure either.
pub writen_string-NoneFails_left :
    (s : Socket) (sbuff : Bytes) → NoneFails s.writes → NoneFails (writen_string s sbuff).2.writes
unfolding writen_string
writen_string-NoneFails_left s sbuff h =
    let w : Written = writen_loop s.writes s sbuff 0 in
    subst (λ (k : Socket). NoneFails k.writes) (sym (settle-socket sbuff w))
      (writen_loop-NoneFails_left s.writes s sbuff 0 h)

writen_loop-first :
    (k : ℕ) (es : List WriteEvent) (s : Socket) (buff : Bytes)
    → 0 < length buff
    → 0 < (writen_loop (accepted (suc k) ∷ es) s buff 0).write_sum
unfolding writen_loop
writen_loop-first k es s buff l =
    let n : ℕ = min (suc k) (length buff - 0) in
    let s' : Socket = record s { sent = s.sent ++ take n (drop 0 buff) } in
    ground (arith, writen_loop-Progress es s' buff (0 + n))

settle-shrinks :
    (sbuff : Bytes) (w : Written)
    → w.ending ≢ failed
    → 0 < w.write_sum
    → 0 < length sbuff
    → length (settle sbuff w).1 < length sbuff
unfolding settle
settle-shrinks sbuff w f k l = ground (arith, f, k, l, length-drop w.write_sum sbuff)

-- Where the first call takes a byte and none fails, less is left than there was.
pub writen_string-shrinks :
    (s : Socket) (k : ℕ) (es : List WriteEvent) (sbuff : Bytes)
    → s.writes ≡ accepted (suc k) ∷ es
    → NoneFails s.writes
    → 0 < length sbuff
    → length (writen_string s sbuff).1 < length sbuff
unfolding writen_string
writen_string-shrinks s k es sbuff e n l =
    settle-shrinks sbuff (writen_loop s.writes s sbuff 0)
      (writen_loop-NoneFails s.writes s sbuff 0 n)
      (subst (λ ws. 0 < (writen_loop ws s sbuff 0).write_sum) (sym e)
        (writen_loop-first k es s sbuff l))
      l

-- Never is more left than there was.
pub writen_string-left :
    (s : Socket) (sbuff : Bytes) → length (writen_string s sbuff).1 ≤ length sbuff
unfolding writen_string settle
writen_string-left s sbuff =
    let w : Written = writen_loop s.writes s sbuff 0 in
    ground (arith, length-drop w.write_sum sbuff)
