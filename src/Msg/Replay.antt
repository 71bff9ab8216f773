-- ===== src/Msg/Replay.antt =====
-- `ReplayGuard` of src/msg.rs. An operation returns the guard it leaves, also on an error.
use rust_ma_core.Common.{
  ℕ, ◌-◌, Str, Bool, leb, str_eq, any, retain, [], ◌∷◌, ok, err, if◌then◌else◌,
}
use rust_ma_core.Error.{MaResult, replay_detected}
use rust_ma_core.External.Cids.{CidLib}
use rust_ma_core.Msg.Types.{Reading, Headers, ReplayGuard, default_replay_window_secs}
use rust_ma_core.Msg.Check.{validate}

unfoldable pub new : ℕ → ReplayGuard
new window_secs = record { seen = []; window_secs = window_secs }

-- `ReplayGuard::default()`.
unfoldable pub default_guard : ReplayGuard
unfolding new
default_guard = new default_replay_window_secs

-- `now.saturating_sub(seen_at) <= window_secs`.
unfoldable pub in_window : ℕ → ℕ → Str × ℕ → Bool
in_window window_secs now entry = leb (now - entry.1) window_secs

unfoldable pub prune : ℕ → ReplayGuard → ReplayGuard
unfolding in_window
prune now guard = record guard { seen = retain (in_window guard.window_secs now) guard.seen }

unfoldable pub prune_old : Reading → ReplayGuard → ReplayGuard × MaResult (Unit {0})
unfolding prune
prune_old (ok now) guard = (prune now guard, ok tt)
prune_old (err e) guard = (guard, err e)

-- `seen.contains_key(id)`.
unfoldable pub contains_key : Str → ReplayGuard → Bool
contains_key id guard = any (λ entry. str_eq entry.0 id) guard.seen

-- The insertion of an id that is not there, at the time of the clock.
unfoldable pub insert : Reading → Str → ReplayGuard → ReplayGuard × MaResult (Unit {0})
insert (ok now) id guard = (record guard { seen = (id, now) ∷ guard.seen }, ok tt)
insert (err e) id guard = (guard, err e)

-- What follows a successful `prune_old`.
unfoldable pub insert_new : Reading → Str → ReplayGuard → ReplayGuard × MaResult (Unit {0})
unfolding contains_key insert
insert_new inserted id guard =
    if contains_key id guard then (guard, err replay_detected) else insert inserted id guard

-- The readings are those of the validation, of the pruning and of the insertion.
unfoldable pub check_and_insert :
    CidLib → Reading → Reading → Reading → Headers → ReplayGuard → ReplayGuard × MaResult (Unit {0})
unfolding prune_old insert_new
check_and_insert cids checked pruned inserted headers guard = elim (validate cids checked headers) [
  | err e ↦ (guard, err e)
  | ok u ↦
      let after = prune_old pruned guard in
      elim (after.1) [ err e ↦ (after.0, err e) | ok v ↦ insert_new inserted headers.id (after.0) ]
]
