-- ===== src/Pinning/Tests.antt =====
-- The theorems on src/kubo/pinning.rs at a concrete scheduler and a concrete node.
use rust_ma_core.Common.{
  Str, codes, true, false, all, str_eq, Option, some, List, [], ◌∷◌, ◌≡◌, refl, if◌then◌else◌,
}
use rust_ma_core.Pinning.{
  Key, Request, Scheduler, Event, sleeping, schedules, receives, finishes, wakes, new, key_of,
  contains_key, schedule, wake, run, key_eq,
}
use rust_ma_core.Pinning.Node.{Kubo, cleanup_one_batch, pin_rm, remote_pin_rm}
use rust_ma_core.Pinning.Wake.{IsLost, IsCovered, run-wake-IsLost, run-IsCovered}
use rust_ma_core.Pinning.Passes.{spares, all-cleanup_one_batch}

abbrev url : Str
url = codes "http://127.0.0.1:5001"

abbrev request : Request
request = record {
  kubo_url = url;
  name = codes "site";
  protected_cid = codes "bafynew";
  cleanup_local = true;
  remote_service = some (codes "pinata");
}

abbrev key : Key
key = record {
  kubo_url = url;
  name = codes "site";
  cleanup_local = true;
  remote_service = some (codes "pinata");
}

abbrev other_request : Request
other_request = record request { name = codes "blog" }

abbrev other_key : Key
other_key = record key { name = codes "blog" }

-- A batch has to go on; meanwhile another request has filled the channel.
abbrev history : List Event
history = schedules true request ∷ receives ∷ finishes true ∷ schedules true other_request ∷ []

abbrev asleep : Scheduler
asleep = record {
  pending = (other_key, other_request) ∷ (key, request) ∷ [];
  channel = other_key ∷ [];
  worker = sleeping key;
}

reached : run history new ≡ asleep
unfolding run new key_eq
reached = refl

run-wake-IsLost_example :
    IsLost key (run (receives ∷ finishes false ∷ []) (wake false asleep))
    × ((schedule true request (run (receives ∷ finishes false ∷ []) (wake false asleep))).0 ≡ true)
    × ((schedule true request (run (receives ∷ finishes false ∷ []) (wake false asleep))).1.channel
        ≡ (run (receives ∷ finishes false ∷ []) (wake false asleep)).channel)
unfolding key_eq contains_key key_of
run-wake-IsLost_example =
    run-wake-IsLost key asleep (receives ∷ finishes false ∷ []) true request refl refl refl refl

new-IsCovered : IsCovered new
unfolding new contains_key
new-IsCovered k h = cc

run-IsCovered_example :
    IsCovered (run (schedules true request ∷ receives ∷ finishes true ∷ wakes true ∷ []) new)
run-IsCovered_example =
    run-IsCovered (schedules true request ∷ receives ∷ finishes true ∷ wakes true ∷ []) new
      (tt, (tt, (tt, (refl, tt)))) new-IsCovered

abbrev pins : Str → Option (List Str)
pins name =
    if str_eq name (codes "site")
    then some (codes "bafyold" ∷ codes "bafynew" ∷ [])
    else some (codes "bafynew" ∷ [])

abbrev node : Kubo
node = record {
  list_local = pins;
  list_remote = λ service name. some (codes "bafynew" ∷ []);
  rm_works = λ cid. true;
  remote_rm_works = λ service cid name. true;
}

batch_test : cleanup_one_batch node request ≡ (
  pin_rm (codes "bafyold")
      ∷ remote_pin_rm (codes "pinata") (codes "bafynew") (codes "site~new")
      ∷ [],
  true,
)
unfolding cleanup_one_batch
batch_test = refl

all-cleanup_one_batch_example : all (spares request) ((cleanup_one_batch node request).0) ≡ true
all-cleanup_one_batch_example = all-cleanup_one_batch node request
