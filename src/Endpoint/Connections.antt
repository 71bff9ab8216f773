-- ===== src/Endpoint/Connections.antt =====
-- `get_or_connect` of src/iroh/endpoint.rs under concurrent calls for one key of the cache, with
-- `evict_if_closed` and the caching of `InboxProtocolHandler::accept`. A call is a task that takes
-- and gives back locks; each event is what happens under one acquisition of the cache's lock, or
-- between two. Other keys have entries and connect locks of their own.
use rust_ma_core.Common.{
  ℕ, ◌+◌, ◌==◌, Str, Bool, any, Option, none, some, List, [], ◌∷◌, ok, err, Result, if◌then◌else◌,
}

-- Where a call of `get_or_connect` stands. A connection is its handle.
pub data Task : Type 0 where
  start : Task
  looked : Option ℕ → Task
  waiting : Task
  locked : Task
  rechecked : Option ℕ → Task
  connecting : Task
  returned : ℕ → Task
  failed : Task

-- The cache's entry, the closed connections, the holder of the connect lock, and how many fresh
-- connections were made.
pub record Cell : Type 0 where
  pub cached : Option ℕ
  pub closed : List ℕ
  pub holder : Option ℕ
  pub made : ℕ
  pub tasks : ℕ → Task

abbrev pub is_closed : Cell → ℕ → Bool
is_closed s c = any (λ d. d == c) s.closed

abbrev pub set_task : ℕ → Task → (ℕ → Task) → ℕ → Task
set_task i t tasks j = if i == j then t else tasks j

abbrev pub goes : ℕ → Task → Cell → Cell
goes i t s = record s { tasks = set_task i t s.tasks }

abbrev evicted : Cell → Option ℕ → Option ℕ
evicted s none = none
evicted s (some c) = if is_closed s c then none else some c

-- The entry is removed if it is closed now.
unfoldable pub evict_if_closed : Cell → Cell
evict_if_closed s = record s { cached = evicted s s.cached }

abbrev release : Cell → Cell
release s = record s { holder = none }

-- The fast path, after the look into the cache.
unfoldable pub after_look : ℕ → Option ℕ → Cell → Cell
unfolding evict_if_closed
after_look i none s = goes i waiting s
after_look i (some c) s =
    if is_closed s c then goes i waiting (evict_if_closed s) else goes i (returned c) s

-- The same under the connect lock.
unfoldable pub after_recheck : ℕ → Option ℕ → Cell → Cell
unfolding evict_if_closed
after_recheck i none s = goes i connecting s
after_recheck i (some c) s =
    if is_closed s c then goes i connecting (evict_if_closed s) else goes i (returned c) (release s)

-- A fresh connection is cached; the lock is given back on both outcomes.
unfoldable pub after_connect : ℕ → Result Str ℕ → Cell → Cell
after_connect i (ok c) s =
    goes i (returned c) (release (record s { cached = some c; made = s.made + 1 }))
after_connect i (err e) s = goes i failed (release s)

-- `lock().await`: a task whose lock is taken stays where it is.
unfoldable pub acquire : ℕ → Option ℕ → Cell → Cell
acquire i none s = goes i locked (record s { holder = some i })
acquire i (some j) s = s

-- The next action of a task; `connected` is what `connect` would answer.
unfoldable pub act : ℕ → Task → Result Str ℕ → Cell → Cell
unfolding after_look after_recheck after_connect acquire
act i start connected s = goes i (looked s.cached) s
act i (looked found) connected s = after_look i found s
act i waiting connected s = acquire i s.holder s
act i locked connected s = goes i (rechecked s.cached) s
act i (rechecked found) connected s = after_recheck i found s
act i connecting connected s = after_connect i connected s
act i (returned c) connected s = s
act i failed connected s = s

-- What happens to the entry: a task acts, a connection closes, an inbound connection is accepted
-- and later ends.
pub data Event : Type 0 where
  acts : ℕ → Result Str ℕ → Event
  closes accepts : ℕ → Event
  accept_ends : Event

unfoldable pub step : Event → Cell → Cell
unfolding act
step (acts i connected) s = act i (s.tasks i) connected s
step (closes c) s = record s { closed = c ∷ s.closed }
step (accepts c) s = record s { cached = some c }
step accept_ends s = record s { cached = none }

unfoldable pub run : List Event → Cell → Cell
unfolding step
run [] s = s
run (e ∷ rest) s = run rest (step e s)

abbrev pub initial : Cell
initial = record { cached = none; closed = []; holder = none; made = 0; tasks = λ i. start }
