-- ===== src/Thread/Release.antt =====
-- What becomes of the thread's handle and of its data.
use light_agent_gateway.Common.{
  ℕ, ◌+◌, ◌≡◌, ◌≤◌, refl, subst, Bool, true, false, Option, none, some, List, [], ◌∷◌, arith,
}
use light_agent_gateway.Common.Bytes.{Bytes}
use light_agent_gateway.Thread.{
  Thread, new_thread, start, join, destroy, Call, starts, joins, make, make_all,
}

abbrev bit : Bool → ℕ
bit true = 1
bit false = 0

record Inv (t : Thread) : Type 0 where
  created_once : t.created ≡ bit t.started
  joined_once : t.joins ≡ bit t.joined
  joined_started : t.joined ≡ true → t.started ≡ true
  not_detached : t.detaches ≡ 0
  data_kept : t.data_news ≡ t.data_deletes + t.created

abbrev Kept : Option Thread → Type 0
Kept none = Unit
Kept (some t) = Inv t

make-Inv : (c : Call) (t : Thread) → Inv t → Kept (make c t)
unfolding start join
make-Inv (starts ok) t i = ground arith
make-Inv joins t i = ground arith

behind_call :
    (cs : List Call) (o : Option Thread)
    → Kept o
    → ((t : Thread) → Inv t → Kept (make_all cs t))
    → Kept (elim o [ none ↦ none | some t ↦ make_all cs t ])
behind_call cs none k rest = tt
behind_call cs (some t) k rest = rest t k

make_all-Kept : (cs : List Call) (t : Thread) → Inv t → Kept (make_all cs t)
unfolding make_all
make_all-Kept [] t i = i
make_all-Kept (c ∷ cs) t i = behind_call cs (make c t) (make-Inv c t i) (make_all-Kept cs)

new_thread-Inv : (name : Bytes) → Inv (new_thread name)
new_thread-Inv name = record {
  created_once = refl;
  joined_once = refl;
  joined_started = λ e. ground (arith, e);
  not_detached = refl;
  data_kept = refl;
}

destroy-releases :
    (t : Thread)
    → Inv t
    → ((destroy t).joins + (destroy t).detaches ≡ (destroy t).created)
      × ((destroy t).created ≤ 1)
      × ((destroy t).data_news ≡ (destroy t).data_deletes + (destroy t).created)
unfolding destroy
destroy-releases t i = ground (arith, i)

-- Whatever calls of `start` and `join` the owner makes, with `pthread_create` failing or not, as long as
-- no assertion fails: when the object has been destroyed, at most one thread was created; it was either
-- joined or detached, once, and nothing is joined or detached if none was created; and each
-- `ThreadData` has been deleted but the one that the thread was given, and deletes itself.
pub released_once :
    (name : Bytes) (cs : List Call) (t : Thread)
    → make_all cs (new_thread name) ≡ some t
    → ((destroy t).joins + (destroy t).detaches ≡ (destroy t).created)
      × ((destroy t).created ≤ 1)
      × ((destroy t).data_news ≡ (destroy t).data_deletes + (destroy t).created)
released_once name cs t e =
    destroy-releases t (subst Kept e (make_all-Kept cs (new_thread name) (new_thread-Inv name)))
