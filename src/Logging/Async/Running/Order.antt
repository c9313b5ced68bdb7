-- ===== src/Logging/Async/Running/Order.antt =====
-- The lines between the threads that log and the file, under every interleaving.
use light_agent_gateway.Common.{
  ◌<◌, ◌≡◌, refl, sym, ap, ◌∙◌, subst, false, List, [], ◌∷◌, ◌++◌, length, length-append, take, ltb,
  append-nil, append_assoc, arith,
}
use light_agent_gateway.Common.Bytes.{Bytes}
use light_agent_gateway.Logging.{FixedBuffer, k_large_buffer}
use light_agent_gateway.Logging.Async.{
  AsyncLogging, append_line, kept_buffers, swapped, thread_round,
}
use light_agent_gateway.Logging.Async.Delivery.{
  IsEmptyBuffer, IsValid, pending, append_line-pending, Refilled, refill-Refilled, swapped-pending,
  swapped-IsValid, swapped-IsSpare, swapped-none, thread_round-delivers,
}
use light_agent_gateway.Logging.Async.Running.{
  ThreadPc, testing, waiting, writing, System, init, swap_round, Step, start, stop, log, enter,
  leave, swap, write, Reach, here, next,
}

-- What the thread holds and has not written yet.
abbrev pub in_hand : ThreadPc → Bytes
in_hand (writing output spares) = output
in_hand _ = []

-- The spare buffers of the thread, wherever it stands, are two and empty, as its loop asserts.
abbrev pub Asserted : ThreadPc → Type 0
Asserted (testing b1 b2) = IsEmptyBuffer b1 × IsEmptyBuffer b2
Asserted (waiting b1 b2) = IsEmptyBuffer b1 × IsEmptyBuffer b2
Asserted (writing output spares) = Refilled spares
Asserted _ = Unit

abbrev pub InFile : System → Type 0
InFile s = s.logged ≡ s.file ++ (in_hand s.pc ++ pending s.logging)

pub record Inv (s : System) : Type 0 where
  pub valid : IsValid s.logging
  pub spares : Asserted s.pc
  pub in_file : s.flooded ≡ false → InFile s

pub moved :
    (s : System) {pc : ThreadPc}
    → Inv s
    → s.pc ≡ pc
    → Asserted pc × (s.flooded ≡ false → s.logged ≡ s.file ++ (in_hand pc ++ pending s.logging))
moved s i e = (
  subst Asserted e i.spares,
  λ f. i.in_file f ∙ ap (λ p. s.file ++ (in_hand p ++ pending s.logging)) e,
)

take-kept_buffers : (bs : List FixedBuffer) → take 2 (kept_buffers bs) ≡ take 2 bs
unfolding kept_buffers
take-kept_buffers [] = refl
take-kept_buffers (x ∷ []) = refl
take-kept_buffers (x ∷ y ∷ bs) = ground arith

-- A round, whether buffers are thrown away or not, leaves nothing pending and finds its spares.
pub thread_round-Refilled :
    (l : AsyncLogging) (b1 b2 : FixedBuffer)
    → IsValid l
    → IsEmptyBuffer b1
    → IsEmptyBuffer b2
    → (pending (thread_round l b1 b2).logging ≡ [])
      × IsValid (thread_round l b1 b2).logging
      × Refilled (thread_round l b1 b2).spares
unfolding thread_round
thread_round-Refilled l b1 b2 v e1 e2 = (
  swapped-pending l b1 b2 e1,
  swapped-IsValid l b1 b2 v e1 e2,
  rw (take-kept_buffers (l.buffers ++ l.current ∷ [])) (
      refill-Refilled l.buffers l.current (swapped l b1 b2).1 v.full_size v.capacity
        (swapped-IsSpare l b1 b2 e2) (λ e. v.used (swapped-none l b1 b2 e))),
)

few :
    (l : AsyncLogging)
    → ltb 25 (length (l.buffers ++ l.current ∷ [])) ≡ false
    → length l.buffers < 25
few l e = ground (arith, e, length-append l.buffers (l.current ∷ []))

log-InFile :
    (s : System) (line : Bytes)
    → InFile s
    → IsValid s.logging
    → length line < k_large_buffer
    → InFile (record s { logging = append_line s.logging line; logged = s.logged ++ line })
log-InFile s line i v n =
    let (e, _, _) = append_line-pending s.logging line v n in
    ap (λ z. z ++ line) i
    ∙ append_assoc s.file (in_hand s.pc ++ pending s.logging) line
    ∙ ap (λ z. s.file ++ z)
        (append_assoc (in_hand s.pc) (pending s.logging) line ∙ ap (λ z. in_hand s.pc ++ z) (sym e))

swap-Inv :
    (s : System) (b1 b2 : FixedBuffer) → Inv s → s.pc ≡ waiting b1 b2 → Inv (swap_round s b1 b2)
swap-Inv s b1 b2 i e =
    let ((e1, e2), text) = moved s i e in
    let (p, v, r) = thread_round-Refilled s.logging b1 b2 i.valid e1 e2 in
    record {
      valid = v;
      spares = r;
      in_file = λ f.
          let (o, _, _, _) =
            thread_round-delivers s.logging b1 b2 i.valid e1 e2
              (few s.logging (ground (arith, f))) in
          text (ground (arith, f))
          ∙ ap (λ z. s.file ++ z)
              (sym (
                ap (λ z. (thread_round s.logging b1 b2).output ++ z) p
                ∙ append-nil (thread_round s.logging b1 b2).output
                ∙ o));
    }

Step-Inv : {s t : System} → Inv s → Step s t → Inv t
Step-Inv {s} i (start e) =
    let (_, text) = moved s i e in
    record { valid = i.valid; spares = ((refl, refl), (refl, refl)); in_file = text }
Step-Inv i (stop e) = record { valid = i.valid; spares = i.spares; in_file = i.in_file }
Step-Inv {s} i (log line n) =
    let (_, v, _) = append_line-pending s.logging line i.valid n in
    record {
      valid = v;
      spares = i.spares;
      in_file = λ f. log-InFile s line (i.in_file f) i.valid n;
    }
Step-Inv {s} i (enter b1 b2 e r) =
    let (spare, text) = moved s i e in record { valid = i.valid; spares = spare; in_file = text }
Step-Inv {s} i (leave b1 b2 e r) =
    let (spare, text) = moved s i e in record { valid = i.valid; spares = tt; in_file = text }
Step-Inv {s} i (swap b1 b2 e) = swap-Inv s b1 b2 i e
Step-Inv {s} i (write output b1 b2 e) =
    let (spare, text) = moved s i e in
    record {
      valid = i.valid;
      spares = spare;
      in_file = λ f. text f ∙ sym (append_assoc s.file output (pending s.logging));
    }

init-Inv : Inv init
init-Inv = record {
  valid = record {
    capacity = refl;
    full_size = tt;
    spare = (refl, refl);
    used = λ e. ground (arith, e);
  };
  spares = tt;
  in_file = λ _. refl;
}

pub Reach-Inv : {s : System} → Reach init s → Inv s
Reach-Inv here = init-Inv
Reach-Inv (next r step) = Step-Inv (Reach-Inv r) step

-- In every state that the logging thread and the threads that log reach, in whatever order `start`,
-- `stop`, `append` with lines shorter than a buffer, and the thread's critical sections and writes
-- come: the two spare buffers are empty where the thread's loop asserts it, and `back` is never taken of
-- an empty vector; and as long as no round has found more than 25 buffers, the lines in the order in
-- which they were logged are what is in the file, then what the thread holds to write, then what is in
-- the buffers. So no line is lost, doubled, cut or moved before another while the thread runs; once it
-- has ended, what is left in the buffers is not written.
pub logged_in_order :
    {s : System}
    → Reach init s
    → Asserted s.pc × (s.flooded ≡ false → s.logged ≡ s.file ++ (in_hand s.pc ++ pending s.logging))
logged_in_order r = let i = Reach-Inv r in (i.spares, i.in_file)
