-- ===== src/Pinning.antt =====
-- src/kubo/pinning.rs: the scheduler of pin cleanups and its worker. Whether the bounded channel
-- takes a key is an argument of each `try_send`; the passes over a node's pins stand in Node.
pub mod Keys
pub mod Wake
pub mod Node
pub mod Passes
pub mod Tests
use rust_ma_core.Common.{
  Str, codes, Bool, true, false, not, ◌&&◌, ◌||◌, str_eq, any, is_empty, is_some, retain, map,
  Option, none, some, List, [], ◌∷◌, ◌++◌, Result, ok, err, if◌then◌else◌,
}

unfoldable pub in_flight_pin_name : Str → Str
in_flight_pin_name name = name ++ codes "~new"

unfoldable pub stale_pins : List Str → Str → List Str
stale_pins pins protected_cid = retain (λ cid. not (str_eq cid protected_cid)) pins

pub record Request : Type 0 where
  pub kubo_url : Str
  pub name : Str
  pub protected_cid : Str
  pub cleanup_local : Bool
  pub remote_service : Option Str

pub record Key : Type 0 where
  pub kubo_url : Str
  pub name : Str
  pub cleanup_local : Bool
  pub remote_service : Option Str

-- `PinCleanupKey::from`.
unfoldable pub key_of : Request → Key
key_of request = record {
  kubo_url = request.kubo_url;
  name = request.name;
  cleanup_local = request.cleanup_local;
  remote_service = request.remote_service;
}

abbrev pub bool_eq : Bool → Bool → Bool
bool_eq true b = b
bool_eq false b = not b

abbrev pub option_eq : Option Str → Option Str → Bool
option_eq none none = true
option_eq none (some b) = false
option_eq (some a) none = false
option_eq (some a) (some b) = str_eq a b

unfoldable pub key_eq : Key → Key → Bool
key_eq a b =
    str_eq a.kubo_url b.kubo_url
    && str_eq a.name b.name
    && bool_eq a.cleanup_local b.cleanup_local
    && option_eq a.remote_service b.remote_service

-- The worker between its steps: it waits for a key, runs a cleanup, or sleeps before it wakes
-- itself again for a key.
pub data Worker : Type 0 where
  waiting : Worker
  running : Key → Request → Worker
  sleeping : Key → Worker

-- The pending requests by key, the keys in the channel, the oldest first, and the worker.
pub record Scheduler : Type 0 where
  pub pending : List (Key × Request)
  pub channel : List Key
  pub worker : Worker

unfoldable pub new : Scheduler
new = record { pending = []; channel = []; worker = waiting }

unfoldable pub contains_key : Key → List (Key × Request) → Bool
contains_key key pending = any (λ entry. key_eq entry.0 key) pending

-- `entry.insert(request)` on an occupied entry.
unfoldable pub replace : Key → Request → List (Key × Request) → List (Key × Request)
replace key request pending =
    map (λ entry. if key_eq entry.0 key then (entry.0, request) else entry) pending

-- `pending.remove(&key)`: the value, and the map without it.
unfoldable pub find_request : Key → List (Key × Request) → Option Request
find_request key [] = none
find_request key ((k, request) ∷ rest) =
    let later = find_request key rest in if key_eq k key then some request else later

unfoldable pub remove : Key → List (Key × Request) → List (Key × Request)
remove key pending = retain (λ entry. not (key_eq entry.0 key)) pending

-- `schedule`; `sent` is the outcome of `try_send`.
unfoldable pub schedule : Bool → Request → Scheduler → Bool × Scheduler
unfolding key_of contains_key replace
schedule sent request s =
    let key = key_of request in
    if contains_key key s.pending
    then (true, record s { pending = replace key request s.pending })
    else if sent
    then (true, record s { pending = (key, request) ∷ s.pending; channel = s.channel ++ key ∷ [] })
    else (false, s)

-- The worker takes a key from the channel.
unfoldable pub receive : Scheduler → Scheduler
unfolding find_request remove
receive s = elim s.channel [
  | [] ↦ s
  | key ∷ rest ↦ elim (find_request key s.pending) [
    | none ↦ record s { channel = rest }
    | some request ↦ record {
      pending = remove key s.pending;
      channel = rest;
      worker = running key request;
    }
  ]
]

-- A cleanup ends, with more to do or not.
unfoldable pub finish : Bool → Scheduler → Scheduler
unfolding contains_key
finish more s = elim s.worker [
  | waiting ↦ s
  | sleeping key ↦ s
  | running key request ↦
      if more && not (contains_key key s.pending)
      then record s { pending = (key, request) ∷ s.pending; worker = sleeping key }
      else record s { worker = waiting }
]

-- The sleep is over; `sent` is the outcome of `try_send`.
unfoldable pub wake : Bool → Scheduler → Scheduler
wake sent s = elim s.worker [
  | waiting ↦ s
  | running key request ↦ s
  | sleeping key ↦ record s {
    channel = (if sent then s.channel ++ key ∷ [] else s.channel);
    worker = waiting;
  }
]

pub data Event : Type 0 where
  schedules : Bool → Request → Event
  receives : Event
  finishes wakes : Bool → Event

-- A key is received only by a worker that waits.
unfoldable pub step : Event → Scheduler → Scheduler
unfolding schedule receive finish wake
step (schedules sent request) s = (schedule sent request s).1
step receives s = elim s.worker [ waiting ↦ receive s | running key request ↦ s | sleeping key ↦ s ]
step (finishes more) s = finish more s
step (wakes sent) s = wake sent s

unfoldable pub run : List Event → Scheduler → Scheduler
unfolding step
run [] s = s
run (event ∷ rest) s = run rest (step event s)
