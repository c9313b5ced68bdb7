-- ===== src/Io/Whole.antt =====
-- A write that the socket takes whole.
use light_agent_gateway.Common.{
  ℕ, zero, suc, ◌+◌, ◌-◌, ◌≡◌, ◌≤◌, ◌<◌, refl, ap, ◌∙◌, List, [], ◌∷◌, ◌++◌, length, arith, take,
  drop, min,
}
use light_agent_gateway.Common.Bytes.{Bytes}
use light_agent_gateway.Io.{WriteEvent, accepted, Socket, finished, Written, writen_loop, writen}

abbrev written_at : List WriteEvent → Socket → ℕ → Written
written_at es s n = record { ending = finished; write_sum = n; socket = record s { writes = es } }

at_end :
    (es : List WriteEvent) (s : Socket) (buff : Bytes) (n : ℕ)
    → n ≡ length buff
    → writen_loop es s buff n ≡ written_at es s n
unfolding writen_loop
at_end [] s buff n e = ground (arith, e)
at_end (w ∷ es) s buff n e = ground (arith, e)

take-all : (xs : Bytes) (n : ℕ) → n ≡ length xs → take n xs ≡ xs
take-all [] zero e = refl
take-all [] (suc n) e = absurd (omega arith)
take-all (x ∷ xs) zero e = absurd (omega arith)
take-all (x ∷ xs) (suc n) e = ap (λ l. x ∷ l) (take-all xs n (omega arith))

step :
    (n : ℕ) (es : List WriteEvent) (s : Socket) (buff : Bytes)
    → 0 < length buff
    → length buff ≤ n
    → writen_loop (accepted n ∷ es) s buff 0
      ≡ written_at es (record s { sent = s.sent ++ buff }) (length buff)
unfolding writen_loop
step n es s buff p l =
    let k : ℕ = min n (length buff - 0) in
    let e : k ≡ length buff = ground (arith, l) in
    let s' : Socket = record s { sent = s.sent ++ take k (drop 0 buff) } in
    ground (arith, p, l, at_end es s' buff (0 + k), take-all buff k e)

writen-socket :
    (s : Socket) (buff : Bytes) → (writen s buff).1 ≡ (writen_loop s.writes s buff 0).socket
unfolding writen
writen-socket s buff = ground arith

pub writen-whole :
    (s : Socket) (buff : Bytes) (n : ℕ) (es : List WriteEvent)
    → s.writes ≡ accepted n ∷ es
    → 0 < length buff
    → length buff ≤ n
    → (writen s buff).1 ≡ record s { writes = es; sent = s.sent ++ buff }
writen-whole s buff n es e p l =
    writen-socket s buff
    ∙ ap (λ w. w.socket) (ap (λ ws. writen_loop ws s buff 0) e ∙ step n es s buff p l)
