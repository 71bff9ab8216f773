-- ===== src/Endpoint/Sharing.antt =====
-- Concurrent calls of `get_or_connect` of src/iroh/endpoint.rs share one connection.
use rust_ma_core.Common.{
  ℕ, ◌==◌, ==_refl, Str, Bool, true, false, all, is_some, none, some, List, [], ◌∷◌, ok, err,
  Result, ◌≡◌, and-eq-true, refl, arith, Option-cases, if◌then◌else◌,
}
use rust_ma_core.Endpoint.Connections.{
  Task, start, looked, waiting, locked, rechecked, connecting, returned, failed, Cell,
  evict_if_closed, after_look, after_recheck, after_connect, acquire, act, Event, acts, closes,
  accepts, accept_ends, step, run, initial,
}
use rust_ma_core.Endpoint.Exclusive.{IsExclusive, step-IsExclusive, initial-IsExclusive}

-- The connection that the task works with.
abbrev mentions : ℕ → Task → Bool
mentions d start = false
mentions d (looked none) = false
mentions d (looked (some c)) = c == d
mentions d waiting = false
mentions d locked = false
mentions d (rechecked none) = false
mentions d (rechecked (some c)) = c == d
mentions d connecting = false
mentions d (returned c) = c == d
mentions d failed = false

record IsShared (s : Cell) : Type 0 where
  open_ones : s.closed ≡ []
  counted : s.made ≡ (if is_some s.cached then 1 else 0)
  same : (i d : ℕ) → mentions d (s.tasks i) ≡ true → s.cached ≡ some d

act-IsShared :
    (i : ℕ) (t : Task) (connected : Result Str ℕ) (s : Cell)
    → s.tasks i ≡ t
    → IsExclusive s
    → IsShared s
    → IsShared (act i t connected s)
unfolding act after_look after_recheck after_connect acquire evict_if_closed
act-IsShared i start connected s e x v = record {
  open_ones = v.open_ones;
  counted = v.counted;
  same = λ j d h. ground (arith, e, h, v.same j d, Option-cases s.cached);
}
act-IsShared i (looked none) connected s e x v = record {
  open_ones = v.open_ones;
  counted = v.counted;
  same = λ j d h. ground (arith, e, h, v.same j d);
}
act-IsShared i (looked (some c)) connected s e x v = record {
  open_ones = ground (arith, v.open_ones);
  counted = ground (arith, v.open_ones, v.counted);
  same = λ j d h. ground (arith, e, h, v.open_ones, v.same j d, v.same i d);
}
act-IsShared i waiting connected s e x v = record {
  open_ones = ground (arith, v.open_ones, Option-cases s.holder);
  counted = ground (arith, v.counted, Option-cases s.holder);
  same = λ j d h. ground (arith, e, h, v.same j d, Option-cases s.holder);
}
act-IsShared i locked connected s e x v = record {
  open_ones = v.open_ones;
  counted = v.counted;
  same = λ j d h. ground (arith, e, h, v.same j d, Option-cases s.cached);
}
act-IsShared i (rechecked none) connected s e x v = record {
  open_ones = v.open_ones;
  counted = v.counted;
  same = λ j d h. ground (arith, e, h, v.same j d);
}
act-IsShared i (rechecked (some c)) connected s e x v = record {
  open_ones = ground (arith, v.open_ones);
  counted = ground (arith, v.open_ones, v.counted);
  same = λ j d h. ground (arith, e, h, v.open_ones, v.same j d, v.same i d);
}
act-IsShared i connecting (ok c) s e x v = record {
  open_ones = v.open_ones;
  counted = ground (arith, e, x.empty i, v.counted);
  same = λ j d h. ground (arith, e, h, x.empty i, v.same j d);
}
act-IsShared i connecting (err y) s e x v = record {
  open_ones = v.open_ones;
  counted = v.counted;
  same = λ j d h. ground (arith, e, h, v.same j d);
}
act-IsShared i (returned c) connected s e x v = v
act-IsShared i failed connected s e x v = v

-- Only calls take steps: no connection closes and none comes in.
abbrev pub is_act : Event → Bool
is_act (acts i connected) = true
is_act (closes c) = false
is_act (accepts c) = false
is_act accept_ends = false

step-IsShared :
    (e : Event) (s : Cell)
    → is_act e ≡ true
    → IsExclusive s
    → IsShared s
    → IsExclusive (step e s) × IsShared (step e s)
unfolding step
step-IsShared (acts i connected) s h x v =
    (step-IsExclusive (acts i connected) s refl x, act-IsShared i (s.tasks i) connected s refl x v)
step-IsShared (closes c) s h x v = cc
step-IsShared (accepts c) s h x v = cc
step-IsShared accept_ends s h x v = cc

run-IsShared :
    (events : List Event) (s : Cell)
    → all is_act events ≡ true
    → IsExclusive s
    → IsShared s
    → IsShared (run events s)
unfolding run
run-IsShared [] s h x v = v
run-IsShared (e ∷ rest) s h x v =
    let (now, later) = and-eq-true (is_act e) (all is_act rest) h in
    let (x', v') = step-IsShared e s now x v in run-IsShared rest (step e s) later x' v'

initial-IsShared : IsShared initial
initial-IsShared = record { open_ones = refl; counted = refl; same = λ i d h. cc }

-- As long as no connection closes and none comes in, all calls for one key that return a connection
-- return the same one, and it is the only one that was made, however the calls are interleaved.
pub run-shared :
    (events : List Event) (i j c d : ℕ)
    → all is_act events ≡ true
    → (run events initial).tasks i ≡ returned c
    → (run events initial).tasks j ≡ returned d
    → (c ≡ d) × ((run events initial).made ≡ 1)
run-shared events i j c d h at_i at_j =
    let v = run-IsShared events initial h initial-IsExclusive initial-IsShared in
    let found_c = v.same i c (rw at_i (==_refl c)) in
    let found_d = v.same j d (rw at_j (==_refl d)) in
    (ground (arith, found_c, found_d), ground (arith, found_c, v.counted))
