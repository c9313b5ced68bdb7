-- ===== src/Thread.antt =====
-- The object of base/Thread.h/.cpp as its owner uses it: the constructor, `start`, `join` and the
-- destructor. What runs in the thread is in Startup and Teardown.
pub mod Release
mod Tests
use light_agent_gateway.Common.{
  ℕ, ◌+◌, Bool, true, false, ◌&&◌, ◌||◌, not, Option, none, some, List, [], ◌∷◌, if◌then◌else◌,
}
use light_agent_gateway.Common.Bytes.{Bytes, codes}

-- `created`, `joins` and `detaches` count the calls of pthread_create that succeeded, of pthread_join and of
-- pthread_detach; `data_news` and `data_deletes` what becomes of each `ThreadData`, which the thread, where
-- there is one, deletes itself.
pub record Thread : Type 0 where
  pub started : Bool
  pub joined : Bool
  pub name : Bytes
  pub created : ℕ
  pub joins : ℕ
  pub detaches : ℕ
  pub data_news : ℕ
  pub data_deletes : ℕ

-- `setDefaultName`.
abbrev pub default_name : Bytes → Bytes
default_name [] = codes "Thread"
default_name (c ∷ s) = c ∷ s

abbrev pub new_thread : Bytes → Thread
new_thread name = record {
  started = false;
  joined = false;
  name = default_name name;
  created = 0;
  joins = 0;
  detaches = 0;
  data_news = 0;
  data_deletes = 0;
}

-- `none` is a failed assertion. `ok` tells whether `pthread_create` succeeds.
unfoldable pub start : Bool → Thread → Option Thread
start ok t =
    if t.started
    then none
    else if ok
    then some (record t { started = true; data_news = t.data_news + 1; created = t.created + 1 })
    else some (record t { data_news = t.data_news + 1; data_deletes = t.data_deletes + 1 })

unfoldable pub join : Thread → Option Thread
join t =
    if not t.started || t.joined
    then none
    else some (record t { joined = true; joins = t.joins + 1 })

-- `~Thread`.
unfoldable pub destroy : Thread → Thread
destroy t = if t.started && not t.joined then record t { detaches = t.detaches + 1 } else t

pub data Call : Type 0 where
  starts : Bool → Call
  joins : Call

abbrev pub make : Call → Thread → Option Thread
make (starts ok) t = start ok t
make joins t = join t

-- The calls of the owner, as far as the assertions allow.
unfoldable pub make_all : List Call → Thread → Option Thread
make_all [] t = some t
make_all (c ∷ cs) t = elim (make c t) [ none ↦ none | some t' ↦ make_all cs t' ]
