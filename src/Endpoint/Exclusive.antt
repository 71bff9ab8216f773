-- ===== src/Endpoint/Exclusive.antt =====
-- Concurrent calls of `get_or_connect` of src/iroh/endpoint.rs for one key of the cache.
use rust_ma_core.Common.{
  ℕ, ◌==◌, Str, Bool, true, false, all, none, some, List, [], ◌∷◌, ok, err, Result, ◌≡◌, ◌⊎◌,
  and-eq-true, refl, arith, Option-cases,
}
use rust_ma_core.Endpoint.Connections.{
  Task, start, looked, waiting, locked, rechecked, connecting, returned, failed, Cell, is_closed,
  evict_if_closed, after_look, after_recheck, after_connect, acquire, act, Event, acts, closes,
  accepts, accept_ends, step, run, initial,
}

-- The task stands under the connect lock.
abbrev pub is_critical : Task → Bool
is_critical start = false
is_critical (looked found) = false
is_critical waiting = false
is_critical locked = true
is_critical (rechecked found) = true
is_critical connecting = true
is_critical (returned c) = false
is_critical failed = false

-- The task has seen that the cache has no entry.
abbrev pub needs_empty : Task → Bool
needs_empty start = false
needs_empty (looked found) = false
needs_empty waiting = false
needs_empty locked = false
needs_empty (rechecked none) = true
needs_empty (rechecked (some c)) = false
needs_empty connecting = true
needs_empty (returned c) = false
needs_empty failed = false

-- The connection that the task found under the lock.
abbrev pub has_found : ℕ → Task → Bool
has_found d start = false
has_found d (looked found) = false
has_found d waiting = false
has_found d locked = false
has_found d (rechecked none) = false
has_found d (rechecked (some c)) = c == d
has_found d connecting = false
has_found d (returned c) = false
has_found d failed = false

pub record IsExclusive (s : Cell) : Type 0 where
  pub held : (i : ℕ) → is_critical (s.tasks i) ≡ true → s.holder ≡ some i
  pub empty : (i : ℕ) → needs_empty (s.tasks i) ≡ true → s.cached ≡ none
  pub kept : (i c : ℕ) → has_found c (s.tasks i) ≡ true → (s.cached ≡ some c) ⊎ (s.cached ≡ none)

act-IsExclusive :
    (i : ℕ) (t : Task) (connected : Result Str ℕ) (s : Cell)
    → s.tasks i ≡ t
    → IsExclusive s
    → IsExclusive (act i t connected s)
unfolding act after_look after_recheck after_connect acquire evict_if_closed
act-IsExclusive i start connected s e v = record {
  held = λ j h. ground (arith, e, h, v.held j);
  empty = λ j h. ground (arith, e, h, v.empty j);
  kept = λ j c h. ground (arith, e, h, v.kept j c);
}
act-IsExclusive i (looked none) connected s e v = record {
  held = λ j h. ground (arith, e, h, v.held j);
  empty = λ j h. ground (arith, e, h, v.empty j);
  kept = λ j c h. ground (arith, e, h, v.kept j c);
}
act-IsExclusive i (looked (some d)) connected s e v = record {
  held = λ j h. ground (arith, e, h, v.held j);
  empty = λ j h. ground (arith, e, h, v.empty j, Option-cases s.cached);
  kept = λ j c h. ground (arith, e, h, v.kept j c, Option-cases s.cached);
}
act-IsExclusive i waiting connected s e v = record {
  held = λ j h. ground (arith, e, h, v.held j, Option-cases s.holder);
  empty = λ j h. ground (arith, e, h, v.empty j, Option-cases s.holder);
  kept = λ j c h. ground (arith, e, h, v.kept j c, Option-cases s.holder);
}
act-IsExclusive i locked connected s e v = record {
  held = λ j h. ground (arith, e, h, v.held j, v.held i);
  empty = λ j h. ground (arith, e, h, v.empty j, Option-cases s.cached);
  kept = λ j c h. ground (arith, e, h, v.kept j c, Option-cases s.cached);
}
act-IsExclusive i (rechecked none) connected s e v = record {
  held = λ j h. ground (arith, e, h, v.held j, v.held i);
  empty = λ j h. ground (arith, e, h, v.empty j, v.empty i);
  kept = λ j c h. ground (arith, e, h, v.kept j c);
}
act-IsExclusive i (rechecked (some d)) connected s e v = record {
  held = λ j h. ground (arith, e, h, v.held j, v.held i);
  empty = λ j h. ground (arith, e, h, v.empty j, v.kept i d, Option-cases s.cached);
  kept = λ j c h. ground (arith, e, h, v.kept j c, v.kept i d, Option-cases s.cached);
}
act-IsExclusive i connecting (ok d) s e v = record {
  held = λ j h. ground (arith, e, h, v.held j, v.held i);
  empty = λ j h. ground (arith, e, h, v.empty j, v.held j, v.held i);
  kept = λ j c h. ground (arith, e, h, v.kept j c, v.held j, v.held i);
}
act-IsExclusive i connecting (err x) s e v = record {
  held = λ j h. ground (arith, e, h, v.held j, v.held i);
  empty = λ j h. ground (arith, e, h, v.empty j);
  kept = λ j c h. ground (arith, e, h, v.kept j c);
}
act-IsExclusive i (returned c) connected s e v = v
act-IsExclusive i failed connected s e v = v

-- No inbound connection is accepted or ends.
abbrev pub is_own : Event → Bool
is_own (acts i connected) = true
is_own (closes c) = true
is_own (accepts c) = false
is_own accept_ends = false

pub step-IsExclusive :
    (e : Event) (s : Cell) → is_own e ≡ true → IsExclusive s → IsExclusive (step e s)
unfolding step
step-IsExclusive (acts i connected) s h v = act-IsExclusive i (s.tasks i) connected s refl v
step-IsExclusive (closes c) s h v = record { held = v.held; empty = v.empty; kept = v.kept }
step-IsExclusive (accepts c) s h v = cc
step-IsExclusive accept_ends s h v = cc

run-IsExclusive :
    (events : List Event) (s : Cell)
    → all is_own events ≡ true
    → IsExclusive s
    → IsExclusive (run events s)
unfolding run
run-IsExclusive [] s h v = v
run-IsExclusive (e ∷ rest) s h v =
    let (now, later) = and-eq-true (is_own e) (all is_own rest) h in
    run-IsExclusive rest (step e s) later (step-IsExclusive e s now v)

pub initial-IsExclusive : IsExclusive initial
initial-IsExclusive = record { held = λ i h. cc; empty = λ i h. cc; kept = λ i c h. cc }

-- Whatever the interleaving of the calls for one key and however their connections close, two
-- calls are never between taking and giving back the connect lock, so that no two of them connect
-- at once.
pub run-exclusive :
    (events : List Event) (i j : ℕ)
    → all is_own events ≡ true
    → is_critical ((run events initial).tasks i) ≡ true
    → is_critical ((run events initial).tasks j) ≡ true
    → i ≡ j
run-exclusive events i j own at_i at_j =
    let v = run-IsExclusive events initial own initial-IsExclusive in
    ground (arith, v.held i, v.held j, at_i, at_j)

act-live :
    (i : ℕ) (t : Task) (connected : Result Str ℕ) (s : Cell) (c : ℕ)
    → s.tasks i ≡ t
    → IsExclusive s
    → s.cached ≡ some c
    → is_closed s c ≡ false
    → (act i t connected s).cached ≡ some c
unfolding act after_look after_recheck after_connect acquire evict_if_closed
act-live i start connected s c e v h live = h
act-live i (looked none) connected s c e v h live = h
act-live i (looked (some d)) connected s c e v h live = ground (arith, h, live)
act-live i waiting connected s c e v h live = ground (arith, h, Option-cases s.holder)
act-live i locked connected s c e v h live = h
act-live i (rechecked none) connected s c e v h live = h
act-live i (rechecked (some d)) connected s c e v h live = ground (arith, h, live)
act-live i connecting (ok d) s c e v h live = ground (arith, h, e, v.empty i)
act-live i connecting (err x) s c e v h live = h
act-live i (returned d) connected s c e v h live = h
act-live i failed connected s c e v h live = h

-- No step of any call removes or replaces a cached connection that is not closed, after any
-- interleaving of calls and closings: an eviction looks at the entry again, and a fresh connection
-- is cached only where there is no entry.
pub step-live :
    (events : List Event) (i c : ℕ) (connected : Result Str ℕ)
    → all is_own events ≡ true
    → (run events initial).cached ≡ some c
    → is_closed (run events initial) c ≡ false
    → (step (acts i connected) (run events initial)).cached ≡ some c
unfolding step
step-live events i c connected own h live =
    act-live i ((run events initial).tasks i) connected (run events initial) c refl
      (run-IsExclusive events initial own initial-IsExclusive) h live
