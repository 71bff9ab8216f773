-- ===== src/Acl/Tests.antt =====
-- Decisions of src/acl/mod.rs from its own tests, and its theorems at concrete maps.
use rust_ma_core.Common.{Str, codes, true, false, [], ◌∷◌, ◌≡◌, refl, ◌↔◌, ok, is_ok, some}
use rust_ma_core.Acl.{
  CapabilityEntry, deny, allow, AclMap, cap_inbox, has, lookup, check_cap, normalize_principal,
  serialize, deserialize,
}
use rust_ma_core.Acl.Entry.{has-deserialize-serialize}
use rust_ma_core.Acl.Decision.{Governs, local_entity, check_cap_iff}

abbrev bob : Str
bob = codes "did:ma:bob"

-- Everyone is denied, the local entities too; bob has the inbox.
abbrev closed : AclMap
closed = (codes "*", deny) ∷ (codes "#", deny) ∷ (bob, allow (cap_inbox ∷ [])) ∷ []

local_denied : is_ok (check_cap closed (codes "#fortune") cap_inbox) ≡ false
unfolding check_cap lookup normalize_principal
local_denied = refl

bob_url_allowed : check_cap closed (codes "did:ma:bob#sign") cap_inbox ≡ ok tt
unfolding check_cap lookup normalize_principal
bob_url_allowed = refl

bob_normal : normalize_principal bob ≡ bob
unfolding normalize_principal
bob_normal = refl

bob_entry : lookup (normalize_principal bob) closed ≡ some (allow (cap_inbox ∷ []))
unfolding lookup normalize_principal
bob_entry = refl

fortune_denied : Governs closed (normalize_principal (codes "#fortune")) deny
unfolding lookup normalize_principal
fortune_denied = local_entity refl refl refl

has-deserialize-serialize_example :
    (entry' : CapabilityEntry) × (deserialize (serialize (allow [])) ≡ ok entry')
    × ((cap : Str) → has entry' cap ≡ has (allow []) cap)
has-deserialize-serialize_example = has-deserialize-serialize (allow [])

check_cap_iff_example : (check_cap closed bob cap_inbox ≡ ok tt) ↔ (
    (entry : CapabilityEntry) × Governs closed (normalize_principal bob) entry
    × (has entry cap_inbox ≡ true))
check_cap_iff_example = check_cap_iff closed bob cap_inbox
