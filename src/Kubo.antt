-- ===== src/Kubo.antt =====
-- src/kubo/kubo.rs: the calls of a Kubo node with their retry loops. The node is a parameter that
-- answers each call from the calls and delays so far. Durations are in nanoseconds. The errors are
-- texts in the source; here the constructor is the step that failed.
pub mod Keys
pub mod Retry
pub mod Confirmed
pub mod Tests
use rust_ma_core.Common.{
  ℕ, zero, suc, ◌+◌, ◌*◌, ◌/◌, ◌-◌, ◌^◌, leb, ◌==◌, Str, codes, Bool, true, false, is_empty, str_eq,
  trim, trim_start_matches, Option, none, some, List, [], ◌∷◌, ◌++◌, Result, ok, err, map_err, ◌≡◌,
  refl, if◌then◌else◌,
}

pub record IpnsPublishOptions : Type 0 where
  pub timeout : ℕ
  pub allow_offline : Bool
  pub lifetime : Str
  pub ttl : Option Str
  pub resolve : Bool
  pub quieter : Bool

-- What a node was asked, and the delays in between; the newest stands first.
pub data Call : Type 0 where
  slept : ℕ → Call
  asked_version : Call
  asked_publish : List (Str × Str) → Call
  asked_resolve : Str → Bool → Call
  asked_remote_pin : Str → Str → Str → Call
  asked_keys : Call
  asked_import : Str → List ℕ → Call
  asked_dag_put : List ℕ → Bool → Call
  asked_pin : Str → Str → Call

abbrev pub History : Type 0
History = List Call

-- A key of a response, by both spellings of its name and its id.
pub record ListedKey : Type 0 where
  pub name : Str × Str
  pub id : Str × Str

-- The answers of a node; an answer with two texts has the two spellings of its field.
pub record Node : Type 0 where
  pub version : History → Result Str (Str × Str)
  pub name_publish : List (Str × Str) → History → Result Str (Str × Str)
  pub name_resolve : Str → Bool → History → Result Str Str
  pub remote_pin_add_named : Str → Str → Str → History → Result Str (Unit {0})
  pub list_keys : History → Result Str (List ListedKey)
  pub import_key : Str → List ℕ → History → Result Str ListedKey
  pub dag_put_cbor : List ℕ → Bool → History → Result Str Str
  pub pin_add_named : Str → Str → History → Result Str (Unit {0})

pub data KuboError : Type 0 where
  no_attempts missing_version missing_value missing_key : KuboError
  refused : Str → KuboError
  not_ready not_published : KuboError → KuboError
  resolve_mismatch : Str → Str → Str → KuboError

-- The loop that strips a leading "/ipfs/".
unfoldable pub strip_ipfs : Str → Str
strip_ipfs (a ∷ b ∷ c ∷ d ∷ e ∷ f ∷ rest) =
    let stripped = strip_ipfs rest in
    if str_eq (a ∷ b ∷ c ∷ d ∷ e ∷ f ∷ []) (codes "/ipfs/")
    then stripped
    else a ∷ b ∷ c ∷ d ∷ e ∷ f ∷ rest
strip_ipfs s = s

unfoldable pub normalize_cid_arg : Str → Str
unfolding strip_ipfs trim trim_start_matches
normalize_cid_arg cid_or_path = trim_start_matches b'/' (strip_ipfs (trim cid_or_path))

unfoldable pub normalize_ipfs_arg : Str → Str
unfolding strip_ipfs trim trim_start_matches
normalize_ipfs_arg cid_or_path =
    codes "/ipfs/" ++ trim_start_matches b'/' (strip_ipfs (trim cid_or_path))

abbrev pub least : ℕ → ℕ → ℕ
least a b = if leb a b then a else b

abbrev pub saturating_add : ℕ → ℕ → ℕ → ℕ
saturating_add max a b = least (a + b) max

abbrev pub milli : ℕ
milli = 1000000

-- The delay after the delays `fib_prev` and `fib_curr`, at most `limit` milliseconds.
unfoldable pub next_delay : ℕ → ℕ → ℕ → ℕ
next_delay limit fib_prev fib_curr =
    least (saturating_add (2 ^ 128 - 1) (fib_prev / milli) (fib_curr / milli)) limit * milli

-- The shape of a retry loop: `left` attempts after the one at hand, the delay before the next one,
-- and what an attempt does.
module _ {A : Type 0} (next : ℕ → ℕ → ℕ) (attempt : History → History × Result KuboError A) where
  unfoldable pub retry : ℕ → ℕ → ℕ → History → History × Result KuboError A
  retry zero prev curr h = attempt h
  retry (suc left) prev curr h =
      let (after, result) = attempt h in
      elim result [
        | ok value ↦ (after, ok value)
        | err e ↦ retry left curr (next prev curr) (slept curr ∷ after)
      ]

  -- `for attempt in 1..=attempts` behind the test for no attempts.
  unfoldable pub with_retry :
      (KuboError → KuboError) → ℕ → ℕ → History → History × Result KuboError A
  unfolding retry
  with_retry failing zero initial h = (h, err no_attempts)
  with_retry failing (suc left) initial h =
      let (after, result) = retry left 0 initial h in (after, map_err failing result)

-- The first spelling that is not empty.
abbrev pub spelled : Str × Str → Str
spelled (upper, lower) = if is_empty upper then lower else upper

abbrev pub ready : Result Str (Str × Str) → Result KuboError (Unit {0})
unfolding trim
ready (err e) = err (refused e)
ready (ok parsed) = if is_empty (trim (spelled parsed)) then err missing_version else ok tt

abbrev pub value_of : Result Str (Str × Str) → Result KuboError Str
value_of (err e) = err (refused e)
value_of (ok parsed) = if is_empty (spelled parsed) then err missing_value else ok (spelled parsed)

abbrev truth : Bool → Str
truth b = if b then codes "true" else codes "false"

abbrev ttl_param : Option Str → List (Str × Str)
ttl_param none = []
ttl_param (some ttl) = (codes "ttl", ttl) ∷ []

unfoldable pub publish_params : Str → Str → IpnsPublishOptions → List (Str × Str)
unfolding normalize_ipfs_arg
publish_params key_name cid options =
    (codes "arg", normalize_ipfs_arg cid)
    ∷ (codes "key", key_name)
    ∷ (codes "allow-offline", truth options.allow_offline)
    ∷ (codes "lifetime", options.lifetime)
    ∷ (codes "resolve", truth options.resolve)
    ∷ (codes "quieter", truth options.quieter)
    ∷ ttl_param options.ttl

module _ (node : Node) where
  unfoldable pub ask_version : History → History × Result KuboError (Unit {0})
  ask_version h = (asked_version ∷ h, ready (node.version h))

  unfoldable pub wait_for_api : ℕ → History → History × Result KuboError (Unit {0})
  unfolding ask_version with_retry next_delay
  wait_for_api attempts h =
      with_retry (next_delay 5000) ask_version not_ready attempts (200 * milli) h

  unfoldable pub name_publish_with_options :
      Str → Str → IpnsPublishOptions → History → History × Result KuboError Str
  unfolding publish_params
  name_publish_with_options key_name cid options h =
      let params = publish_params key_name cid options in
      (asked_publish params ∷ h, value_of (node.name_publish params h))

  -- The answer of the resolution of the name.
  unfoldable pub check_target : Str → Str → Result Str Str → Result KuboError Str
  unfolding normalize_ipfs_arg trim
  check_target ipns_id cid (err e) = err (refused e)
  check_target ipns_id cid (ok resolved) =
      if str_eq (trim resolved) (normalize_ipfs_arg cid)
      then ok resolved
      else err (resolve_mismatch ipns_id (normalize_ipfs_arg cid) resolved)

  unfoldable pub verify_name_target_after_error :
      Str → Str → History → History × Result KuboError Str
  unfolding check_target
  verify_name_target_after_error ipns_id cid h =
      let path = codes "/ipns/" ++ ipns_id in
      (asked_resolve path true ∷ h, check_target ipns_id cid (node.name_resolve path true h))

  -- The body of the retry loop: a publication that fails is accepted if the name resolves to the
  -- target; else the first error stands.
  unfoldable pub publish_attempt :
      Str → Str → Str → IpnsPublishOptions → History → History × Result KuboError Str
  unfolding name_publish_with_options verify_name_target_after_error
  publish_attempt key_name ipns_id cid options h =
      let (after, result) = name_publish_with_options key_name cid options h in
      elim result [
        | ok value ↦ (after, ok value)
        | err e ↦
            let (verified, target) = verify_name_target_after_error ipns_id cid after in
            elim target [ ok value ↦ (verified, ok value) | err t ↦ (verified, err e) ]
      ]

  unfoldable pub name_publish_with_retry :
      Str → Str → Str → IpnsPublishOptions → ℕ → ℕ → History → History × Result KuboError Str
  unfolding publish_attempt with_retry next_delay
  name_publish_with_retry key_name ipns_id cid options attempts initial_backoff h =
      with_retry (next_delay 30000) (publish_attempt key_name ipns_id cid options) not_published
        attempts initial_backoff h
