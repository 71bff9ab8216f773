-- ===== src/Pinning/Passes.antt =====
-- What a cleanup batch of src/kubo/pinning.rs may remove.
use rust_ma_core.Common.{
  Str, Bool, true, false, not, ◌||◌, str_eq, str_eq_refl, all, all-append, map, Option, none, some,
  List, [], ◌∷◌, ◌++◌, ◌≡◌, inl, inr, refl, arith, Bool-cases,
}
use rust_ma_core.Pinning.{Request, in_flight_pin_name, stale_pins}
use rust_ma_core.Pinning.Node.{
  Command, Kubo, pin_rm, pin_add, remote_pin_rm, remote_pin_add, local_pass, local_listed,
  cleanup_local_pass, migrate, remote_pass, remote_listed, remote_at, cleanup_remote_pass,
  cleanup_one_batch,
}

-- A command adds only the protected cid, and removes it at most remotely under the in-flight name.
abbrev pub spares : Request → Command → Bool
spares request (pin_rm cid) = not (str_eq cid request.protected_cid)
spares request (pin_add cid name) = str_eq cid request.protected_cid
spares request (remote_pin_rm service cid name) =
    not (str_eq cid request.protected_cid) || str_eq name (in_flight_pin_name request.name)
spares request (remote_pin_add service cid name) = str_eq cid request.protected_cid

all-stale_pins :
    (request : Request) (command : Str → Command) (pins : List Str)
    → ((cid : Str) → str_eq cid request.protected_cid ≡ false → spares request (command cid) ≡ true)
    → all (spares request) (map command (stale_pins pins request.protected_cid)) ≡ true
unfolding stale_pins
all-stale_pins request command [] f = refl
all-stale_pins request command (cid ∷ pins) f =
    elim (Bool-cases (str_eq cid request.protected_cid)) [
      | inl e ↦ rw e (all-stale_pins request command pins f)
      | inr e ↦ rw (e, f cid e) (all-stale_pins request command pins f)
    ]

module _ (kubo : Kubo) where
  all-local_pass :
      (request : Request) (final_pins temp_pins : List Str)
      → all (spares request) ((local_pass kubo request final_pins temp_pins).0) ≡ true
  unfolding local_pass stale_pins
  all-local_pass request final_pins temp_pins = ground (
    arith,
    all-stale_pins request pin_rm (final_pins ++ temp_pins) (λ cid e. ground arith),
    str_eq_refl request.protected_cid,
  )

  all-local_listed :
      (request : Request) (f t : Option (List Str))
      → all (spares request) ((local_listed kubo request f t).0) ≡ true
  unfolding local_listed
  all-local_listed request none t = refl
  all-local_listed request (some f) none = refl
  all-local_listed request (some f) (some t) = all-local_pass request f t

  all-migrate :
      (service : Str) (request : Request) (final_pins temp_pins : List Str)
      → all (spares request) (migrate kubo service request final_pins temp_pins) ≡ true
  unfolding migrate
  all-migrate service request final_pins temp_pins =
      ground
        (arith, str_eq_refl request.protected_cid, str_eq_refl (in_flight_pin_name request.name))

  all-remote_pass :
      (service : Str) (request : Request) (final_pins temp_pins : List Str)
      → all (spares request) ((remote_pass kubo service request final_pins temp_pins).0) ≡ true
  unfolding remote_pass
  all-remote_pass service request final_pins temp_pins =
      let at_final = λ (cid : Str). remote_pin_rm service cid request.name in
      let at_temp = λ (cid : Str). remote_pin_rm service cid (in_flight_pin_name request.name) in
      ground (
        arith,
        all-append (spares request) (map at_final (stale_pins final_pins request.protected_cid))
            (map at_temp (stale_pins temp_pins request.protected_cid)),
        all-stale_pins request at_final final_pins (λ cid e. ground arith),
        all-stale_pins request at_temp temp_pins (λ cid e. ground arith),
        all-migrate service request final_pins temp_pins,
      )

  all-remote_listed :
      (service : Str) (request : Request) (f t : Option (List Str))
      → all (spares request) ((remote_listed kubo service request f t).0) ≡ true
  unfolding remote_listed
  all-remote_listed service request none t = refl
  all-remote_listed service request (some f) none = refl
  all-remote_listed service request (some f) (some t) = all-remote_pass service request f t

  all-remote_at :
      (request : Request) (o : Option Str)
      → all (spares request) ((remote_at kubo request o).0) ≡ true
  unfolding remote_at
  all-remote_at request none = refl
  all-remote_at request (some service) = all-remote_listed service request _ _

  -- A cleanup batch adds pins of the protected cid only, and removes no pin of the protected cid
  -- but a remote one under the in-flight name, whatever the node lists and whichever calls work.
  pub all-cleanup_one_batch :
      (request : Request) → all (spares request) ((cleanup_one_batch kubo request).0) ≡ true
  unfolding cleanup_one_batch
  all-cleanup_one_batch request =
      let local = cleanup_local_pass kubo request in
      let remote = cleanup_remote_pass kubo request in
      ground (
        arith,
        all-append (spares request) local.0 remote.0,
        all-append (spares request) local.0 [],
        all-local_listed request (kubo.list_local request.name)
            (kubo.list_local (in_flight_pin_name request.name)),
        all-remote_at request request.remote_service,
      )
