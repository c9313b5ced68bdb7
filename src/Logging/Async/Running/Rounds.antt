-- ===== src/Logging/Async/Running/Rounds.antt =====
-- What one round of the running thread brings to the file.
use light_agent_gateway.Common.{
  ◌<◌, ◌≡◌, refl, sym, ap, ◌∙◌, Bool, true, false, Option, none, some, [], ◌∷◌, ◌++◌, length,
  length-append, ltb, append-nil, arith,
}
use light_agent_gateway.Common.Bytes.{Bytes}
use light_agent_gateway.Logging.{FixedBuffer}
use light_agent_gateway.Logging.Async.{AsyncLogging, thread_round}
use light_agent_gateway.Logging.Async.Delivery.{pending, Refilled}
use light_agent_gateway.Logging.Async.Running.{
  ThreadPc, testing, waiting, writing, System, init, swap_round, enter, swap, write, Reach, here,
  next,
}
use light_agent_gateway.Logging.Async.Running.Order.{moved, thread_round-Refilled, Reach-Inv}

abbrev pub is_testing : ThreadPc → Bool
is_testing (testing b1 b2) = true
is_testing _ = false

-- Where the thread is back at the test, with all that was logged in the file.
pub record Written (s t : System) : Type 0 where
  pub reached : Reach s t
  pub none_logged : t.logged ≡ s.logged
  pub all_logged : t.file ≡ s.logged
  pub at_test : is_testing t.pc ≡ true

not_flooded :
    (l : AsyncLogging)
    → length l.buffers < 25
    → ltb 25 (length (l.buffers ++ l.current ∷ [])) ≡ false
not_flooded l n = ground (arith, n, length-append l.buffers (l.current ∷ []))

write_spares :
    (s t : System) {output : Bytes} (o : Option (FixedBuffer × FixedBuffer))
    → Reach init t
    → Reach s t
    → t.pc ≡ writing output o
    → Refilled o
    → t.flooded ≡ false
    → pending t.logging ≡ []
    → t.logged ≡ s.logged
    → (u : System) × Written s u
write_spares s t none r q e d f p l = absurd d
write_spares s t {output} (some (b1, b2)) r q e d f p l = (
  record t { pc = testing b1 b2; file = t.file ++ output },
  record {
    reached = next q (write output b1 b2 e);
    none_logged = l;
    all_logged = sym (
        sym l
        ∙ ((moved t (Reach-Inv r) e).1 f
            ∙ ap (λ z. t.file ++ (output ++ z)) p
            ∙ ap (λ z. t.file ++ z) (append-nil output)));
    at_test = refl;
  },
)

-- A reachable state in which the thread tests `running_`, which is set, no round has thrown buffers
-- away, and fewer than 25 buffers are full: by steps in which no line is logged, the thread comes back to
-- the test, and the file holds exactly the lines that were logged up to then, in order.
pub round_writes :
    {s : System} (b1 b2 : FixedBuffer)
    → Reach init s
    → s.pc ≡ testing b1 b2
    → s.running ≡ true
    → s.flooded ≡ false
    → length s.logging.buffers < 25
    → (t : System) × Written s t
round_writes {s} b1 b2 r e run f n =
    let i = Reach-Inv r in
    let ((e1, e2), _) = moved s i e in
    let (p, _, d) = thread_round-Refilled s.logging b1 b2 i.valid e1 e2 in
    let w : System = record s { pc = waiting b1 b2 } in
    let t : System = swap_round w b1 b2 in
    write_spares s t (thread_round s.logging b1 b2).spares
      (next (next r (enter b1 b2 e run)) (swap b1 b2 refl))
      (next (next here (enter b1 b2 e run)) (swap b1 b2 refl)) refl d
      (rw (f, not_flooded s.logging n) refl) p refl
