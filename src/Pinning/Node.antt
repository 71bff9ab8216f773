-- ===== src/Pinning/Node.antt =====
-- The cleanup passes of src/kubo/pinning.rs over a node's pins. What the node answers is the
-- parameter `kubo`; the calls that change pins are returned as commands.
use rust_ma_core.Common.{
  Str, Bool, false, not, ◌||◌, str_eq, any, is_empty, is_some, map, Option, none, some, List, [],
  ◌∷◌, ◌++◌, if◌then◌else◌,
}
use rust_ma_core.Pinning.{Request, in_flight_pin_name, stale_pins}

-- A call that changes a node's pins.
pub data Command : Type 0 where
  pin_rm : Str → Command
  pin_add : Str → Str → Command
  remote_pin_rm : Str → Str → Str → Command
  remote_pin_add : Str → Str → Str → Command

-- What the node answers: the pins under a name, if they can be listed, and whether a removal works.
pub record Kubo : Type 0 where
  pub list_local : Str → Option (List Str)
  pub list_remote : Str → Str → Option (List Str)
  pub rm_works : Str → Bool
  pub remote_rm_works : Str → Str → Str → Bool

module _ (kubo : Kubo) where
  open kubo use {list_local, list_remote, rm_works, remote_rm_works}

  -- The part of a pass that follows the listing.
  unfoldable pub local_pass : Request → List Str → List Str → List Command × Bool
  unfolding stale_pins
  local_pass request final_pins temp_pins =
      let stale = stale_pins (final_pins ++ temp_pins) request.protected_cid in
      if not (is_empty stale)
      then (map pin_rm stale, any rm_works stale)
      else if not (any (λ cid. str_eq cid request.protected_cid) final_pins)
      then (pin_add request.protected_cid request.name ∷ [], false)
      else ([], false)

  -- The pass by what the two listings return.
  unfoldable pub local_listed :
      Request → Option (List Str) → Option (List Str) → List Command × Bool
  unfolding local_pass
  local_listed request none temp_pins = ([], false)
  local_listed request (some final_pins) none = ([], false)
  local_listed request (some final_pins) (some temp_pins) = local_pass request final_pins temp_pins

  unfoldable pub cleanup_local_pass : Request → List Command × Bool
  unfolding local_listed in_flight_pin_name
  cleanup_local_pass request =
      local_listed request (list_local request.name) (list_local (in_flight_pin_name request.name))

  -- The migration of a pin under the in-flight name.
  unfoldable pub migrate : Str → Request → List Str → List Str → List Command
  unfolding in_flight_pin_name
  migrate service request final_pins temp_pins =
      let cid = request.protected_cid in
      let temp_name = in_flight_pin_name request.name in
      if not (any (λ p. str_eq p cid) temp_pins)
      then []
      else if any (λ p. str_eq p cid) final_pins
      then remote_pin_rm service cid temp_name ∷ []
      else if remote_rm_works service cid temp_name
      then remote_pin_rm service cid temp_name ∷ remote_pin_add service cid request.name ∷ []
      else remote_pin_rm service cid temp_name ∷ []

  unfoldable pub remote_pass : Str → Request → List Str → List Str → List Command × Bool
  unfolding stale_pins migrate
  remote_pass service request final_pins temp_pins =
      let stale_final = stale_pins final_pins request.protected_cid in
      let stale_temp = stale_pins temp_pins request.protected_cid in
      let temp_name = in_flight_pin_name request.name in
      if not (is_empty stale_final) || not (is_empty stale_temp)
      then (
        map (λ cid. remote_pin_rm service cid request.name) stale_final
            ++ map (λ cid. remote_pin_rm service cid temp_name) stale_temp,
        any (λ cid. remote_rm_works service cid request.name) stale_final
            || any (λ cid. remote_rm_works service cid temp_name) stale_temp,
      )
      else (migrate service request final_pins temp_pins, false)

  unfoldable pub remote_listed :
      Str → Request → Option (List Str) → Option (List Str) → List Command × Bool
  unfolding remote_pass
  remote_listed service request none temp_pins = ([], false)
  remote_listed service request (some final_pins) none = ([], false)
  remote_listed service request (some final_pins) (some temp_pins) =
      remote_pass service request final_pins temp_pins

  -- The pass for the service that the request names, if it names one.
  unfoldable pub remote_at : Request → Option Str → List Command × Bool
  unfolding remote_listed in_flight_pin_name
  remote_at request none = ([], false)
  remote_at request (some service) =
      remote_listed service request (list_remote service request.name)
        (list_remote service (in_flight_pin_name request.name))

  unfoldable pub cleanup_remote_pass : Request → List Command × Bool
  unfolding remote_at
  cleanup_remote_pass request = remote_at request request.remote_service

  unfoldable pub cleanup_one_batch : Request → List Command × Bool
  unfolding cleanup_local_pass cleanup_remote_pass
  cleanup_one_batch request =
      let none_made : List Command × Bool = ([], false) in
      let local = if request.cleanup_local then cleanup_local_pass request else none_made in
      let remote =
        if is_some request.remote_service then cleanup_remote_pass request else none_made in
      (local.0 ++ remote.0, local.1 || remote.1)
