-- ===== src/Publish/Replication.antt =====
-- src/ipfs/publish.rs: the replication of a published document on a remote pin service, and the
-- scheduling of its cleanup. The outcome of the cleanup worker's `try_send` is the argument `sent`.
use rust_ma_core.Common.{
  ℕ, ◌*◌, ◌^◌, ◌-◌, Str, Bool, true, false, Option, none, some, List, ◌∷◌, Result, ok, err, map_err,
  if◌then◌else◌,
}
use rust_ma_core.Pinning.{Request, Scheduler, schedule, in_flight_pin_name}
use rust_ma_core.Kubo.{
  History, Node, KuboError, IpnsPublishOptions, asked_remote_pin, refused, least, saturating_add,
  with_retry,
}

pub record RemotePinOptions : Type 0 where
  pub service : Str
  pub name : Str

pub data RemotePinStatus : Type 0 where
  replicated : Bool → RemotePinStatus
  degraded : KuboError → RemotePinStatus

pub record DidDocumentPublishOptions : Type 0 where
  pub key_parts : List Str
  pub ipns : IpnsPublishOptions
  pub attempts : ℕ
  pub initial_backoff : ℕ
  pub remote_pin : Option RemotePinOptions
  pub overwrite : Bool

abbrev pub second : ℕ
second = 1000000000

-- `Duration::MAX` in nanoseconds, and the delay after two delays.
unfoldable pub next_pin_delay : ℕ → ℕ → ℕ
next_pin_delay previous_delay delay =
    least (saturating_add (2 ^ 64 * second - 1) previous_delay delay) (30 * second)

abbrev pub pin_name_of : Str → Option RemotePinOptions → Str
pin_name_of key_name none = key_name
pin_name_of key_name (some remote) = remote.name

-- With `overwrite` the pin is added under the in-flight name.
unfoldable pub add_name : Bool → Str → Str
unfolding in_flight_pin_name
add_name overwrite pin_name = if overwrite then in_flight_pin_name pin_name else pin_name

abbrev pub with_cleanup : Bool → RemotePinStatus → RemotePinStatus
with_cleanup scheduled (replicated before) = replicated scheduled
with_cleanup scheduled (degraded e) = degraded e

abbrev pub map_status : Bool → Option RemotePinStatus → Option RemotePinStatus
map_status scheduled none = none
map_status scheduled (some status) = some (with_cleanup scheduled status)

-- The status and the service of a replication that ended.
abbrev pub pinned :
    RemotePinOptions → Result KuboError (Unit {0}) → Option RemotePinStatus × Option Str
pinned remote (ok done) = (some (replicated false), some remote.service)
pinned remote (err e) = (some (degraded e), none)

module _ (node : Node) where
  unfoldable pub ask_remote_pin :
      RemotePinOptions → Str → History → History × Result KuboError (Unit {0})
  ask_remote_pin remote cid h = (
    asked_remote_pin remote.service cid remote.name ∷ h,
    map_err refused (node.remote_pin_add_named remote.service cid remote.name h),
  )

  unfoldable pub remote_pin_with_retry :
      RemotePinOptions → Str → ℕ → ℕ → History → History × Result KuboError (Unit {0})
  unfolding ask_remote_pin next_pin_delay with_retry
  remote_pin_with_retry remote cid attempts initial_backoff h =
      with_retry next_pin_delay (ask_remote_pin remote cid) (λ e. e) attempts initial_backoff h

  unfoldable pub replicate :
      Option RemotePinOptions
      → Str
      → ℕ
      → ℕ
      → History
      → History × (Option RemotePinStatus × Option Str)
  unfolding remote_pin_with_retry
  replicate none cid attempts initial_backoff h = (h, (none, none))
  replicate (some remote) cid attempts initial_backoff h =
      let (after, result) = remote_pin_with_retry remote cid attempts initial_backoff h in
      (after, pinned remote result)

  unfoldable pub confirm_pins_and_schedule_cleanup :
      Str
      → Bool
      → Scheduler
      → Str
      → Str
      → DidDocumentPublishOptions
      → History
      → History × (Scheduler × (Bool × Option RemotePinStatus))
  unfolding replicate schedule
  confirm_pins_and_schedule_cleanup kubo_url sent cleanup pin_name published_cid options h =
      let (after, (remote_pin, remote_service)) =
        replicate options.remote_pin published_cid options.attempts options.initial_backoff h in
      let request : Request = record {
        kubo_url = kubo_url;
        name = pin_name;
        protected_cid = published_cid;
        cleanup_local = true;
        remote_service = remote_service;
      } in
      let (scheduled, scheduler) = schedule sent request cleanup in
      if options.overwrite
      then (after, (scheduler, (scheduled, map_status scheduled remote_pin)))
      else (after, (cleanup, (false, map_status false remote_pin)))
