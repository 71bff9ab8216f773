-- ===== src/Pinning/Wake.antt =====
-- Which pending cleanups of src/kubo/pinning.rs the worker comes back to.
use rust_ma_core.Common.{
  Bool, true, false, any, All, List, [], ◌∷◌, ◌≡◌, ◌⊎◌, inl, inr, refl, arith, Option-cases,
}
use rust_ma_core.Pinning.{
  Key, Request, Worker, Scheduler, Event, waiting, running, sleeping, schedules, receives, finishes,
  wakes, key_eq, key_of, contains_key, find_request, schedule, receive, finish, wake, step, run,
}
use rust_ma_core.Pinning.Keys.{
  key_eq_iff, contains_key-replace, contains_key-remove, find_request-contains_key, any-append,
  Worker-cases, List-cases,
}

-- The key is in the channel.
abbrev pub queued : Key → Scheduler → Bool
queued key s = any (λ k. key_eq k key) s.channel

-- The worker will send the key.
abbrev pub is_due : Key → Worker → Bool
is_due key waiting = false
is_due key (running k request) = false
is_due key (sleeping k) = key_eq k key

-- The worker has to do with the key.
abbrev pub is_held : Key → Worker → Bool
is_held key waiting = false
is_held key (running k request) = key_eq k key
is_held key (sleeping k) = key_eq k key

-- Every pending request will be received: its key is in the channel, or the worker will send it.
abbrev pub IsCovered : Scheduler → Type 0
IsCovered s =
    (key : Key)
    → contains_key key s.pending ≡ true
    → (queued key s ≡ true) ⊎ (is_due key s.worker ≡ true)

-- A pending request whose key nobody will send.
abbrev pub IsLost : Key → Scheduler → Type 0
IsLost key s =
    (contains_key key s.pending ≡ true) × (queued key s ≡ false) × (is_held key s.worker ≡ false)

-- The worker's own key is not refused by the channel.
abbrev pub IsSent : Event → Type 0
IsSent (schedules sent request) = Unit
IsSent receives = Unit
IsSent (finishes more) = Unit
IsSent (wakes sent) = sent ≡ true

schedule-IsLost :
    (sent : Bool) (request : Request) (key : Key) (s : Scheduler)
    → IsLost key s
    → IsLost key ((schedule sent request s).1)
unfolding schedule
schedule-IsLost sent request key s h = ground (
  arith,
  h,
  contains_key-replace key (key_of request) request s.pending,
  any-append (λ k. key_eq k key) s.channel (key_of request),
  key_eq_iff (key_of request) key,
)

receive-IsLost :
    (key : Key) (s : Scheduler) → IsLost key s → s.worker ≡ waiting → IsLost key (receive s)
unfolding receive
receive-IsLost key s h w = elim (List-cases s.channel) [
  | inl e ↦ ground (arith, h, e)
  | inr (c, rest, e) ↦ ground (
    arith,
    h,
    e,
    w,
    contains_key-remove key c s.pending,
    key_eq_iff c key,
    Option-cases (find_request c s.pending),
  )
]

finish-IsLost :
    (more : Bool) (key : Key) (s : Scheduler) → IsLost key s → IsLost key (finish more s)
unfolding finish contains_key
finish-IsLost more key s h = ground (arith, h, Worker-cases s.worker)

wake-IsLost : (sent : Bool) (key : Key) (s : Scheduler) → IsLost key s → IsLost key (wake sent s)
unfolding wake
wake-IsLost sent key s h = elim (Worker-cases s.worker) [
  | inl e ↦ ground (arith, h, e)
  | inr (inl (k, r, e)) ↦ ground (arith, h, e)
  | inr (inr (k, e)) ↦ ground (arith, h, e, any-append (λ j. key_eq j key) s.channel k)
]

step-IsLost : (event : Event) (key : Key) (s : Scheduler) → IsLost key s → IsLost key (step event s)
unfolding step
step-IsLost (schedules sent request) key s h = schedule-IsLost sent request key s h
step-IsLost receives key s h = elim (Worker-cases s.worker) [
  | inl e ↦ ground (arith, e, receive-IsLost key s h e)
  | inr (inl (k, r, e)) ↦ ground (arith, h, e)
  | inr (inr (k, e)) ↦ ground (arith, h, e)
]
step-IsLost (finishes more) key s h = finish-IsLost more key s h
step-IsLost (wakes sent) key s h = wake-IsLost sent key s h

run-IsLost :
    (events : List Event) (key : Key) (s : Scheduler) → IsLost key s → IsLost key (run events s)
unfolding run
run-IsLost [] key s h = h
run-IsLost (event ∷ rest) key s h = run-IsLost rest key (step event s) (step-IsLost event key s h)

-- If the channel refuses the key of a worker that has slept, and no other copy of the key is in the
-- channel, then the key's request stays pending for ever: after any events it is still there, its
-- key is not in the channel, the worker is not at it, and a new request for the key is accepted
-- without a key being sent.
pub run-wake-IsLost :
    (key : Key) (s : Scheduler) (events : List Event) (sent : Bool) (request : Request)
    → s.worker ≡ sleeping key
    → contains_key key s.pending ≡ true
    → queued key s ≡ false
    → key_of request ≡ key
    → IsLost key (run events (wake false s))
      × ((schedule sent request (run events (wake false s))).0 ≡ true)
      × ((schedule sent request (run events (wake false s))).1.channel
          ≡ (run events (wake false s)).channel)
unfolding wake schedule
run-wake-IsLost key s events sent request asleep pending unsent same =
    let start : IsLost key (wake false s) = ground (arith, asleep, pending, unsent) in
    let lost = run-IsLost events key (wake false s) start in
    (lost, rw (same, lost.0) refl, rw (same, lost.0) refl)

-- The key, if it is pending, is in the channel or due.
abbrev IsCoveredAt : Key → Scheduler → Type 0
IsCoveredAt key s =
    contains_key key s.pending ≡ true → (queued key s ≡ true) ⊎ (is_due key s.worker ≡ true)

schedule-IsCovered :
    (sent : Bool) (request : Request) (key : Key) (s : Scheduler)
    → IsCoveredAt key s
    → IsCoveredAt key ((schedule sent request s).1)
unfolding schedule contains_key
schedule-IsCovered sent request key s h = ground (
  arith,
  h,
  contains_key-replace key (key_of request) request s.pending,
  any-append (λ k. key_eq k key) s.channel (key_of request),
  key_eq_iff (key_of request) key,
)

receive-IsCovered :
    (key : Key) (s : Scheduler)
    → IsCoveredAt key s
    → s.worker ≡ waiting
    → IsCoveredAt key (receive s)
unfolding receive
receive-IsCovered key s h w = elim (List-cases s.channel) [
  | inl e ↦ ground (arith, h, e)
  | inr (c, rest, e) ↦ ground (
    arith,
    h,
    e,
    w,
    contains_key-remove key c s.pending,
    key_eq_iff c key,
    find_request-contains_key c s.pending,
    Option-cases (find_request c s.pending),
  )
]

finish-IsCovered :
    (more : Bool) (key : Key) (s : Scheduler) → IsCoveredAt key s → IsCoveredAt key (finish more s)
unfolding finish contains_key
finish-IsCovered more key s h = elim (Worker-cases s.worker) [
  | inl e ↦ ground (arith, h, e)
  | inr (inl (k, r, e)) ↦ ground (arith, h, e)
  | inr (inr (k, e)) ↦ ground (arith, h, e)
]

wake-IsCovered : (key : Key) (s : Scheduler) → IsCoveredAt key s → IsCoveredAt key (wake true s)
unfolding wake
wake-IsCovered key s h = elim (Worker-cases s.worker) [
  | inl e ↦ ground (arith, h, e)
  | inr (inl (k, r, e)) ↦ ground (arith, h, e)
  | inr (inr (k, e)) ↦ ground (arith, h, e, any-append (λ j. key_eq j key) s.channel k)
]

step-IsCovered :
    (event : Event) (s : Scheduler) → IsSent event → IsCovered s → IsCovered (step event s)
unfolding step
step-IsCovered (schedules sent request) s ok h key = schedule-IsCovered sent request key s (h key)
step-IsCovered receives s ok h key = elim (Worker-cases s.worker) [
  | inl e ↦ ground (arith, e, receive-IsCovered key s (h key) e)
  | inr (inl (k, r, e)) ↦ ground (arith, h key, e)
  | inr (inr (k, e)) ↦ ground (arith, h key, e)
]
step-IsCovered (finishes more) s ok h key = finish-IsCovered more key s (h key)
step-IsCovered (wakes true) s ok h key = wake-IsCovered key s (h key)
step-IsCovered (wakes false) s ok h key = cc

-- As long as the channel takes the keys that the worker sends after its sleep, no pending request is
-- forgotten: after any events the key of each is in the channel or will be sent by the worker.
pub run-IsCovered :
    (events : List Event) (s : Scheduler)
    → All IsSent events
    → IsCovered s
    → IsCovered (run events s)
unfolding run
run-IsCovered [] s sent h = h
run-IsCovered (event ∷ rest) s sent h =
    run-IsCovered rest (step event s) sent.1 (step-IsCovered event s sent.0 h)
