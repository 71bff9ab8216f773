-- ===== src/Acl.antt =====
-- src/acl/mod.rs: capability-based access control. An `AclMap` (a `HashMap`) is an association list
-- that is read by `lookup`; the code depends on no order of its entries.
pub mod Sets
pub mod Entry
pub mod Decision
pub mod Keys
pub mod Tests
use rust_ma_core.Common.{
  ℕ, zero, suc, String, Str, codes, str_eq, starts_with, strip_prefix, find, contains_char, take,
  drop, is_empty, Bool, true, false, not, ◌&&◌, ◌||◌, Option, none, some, List, [], ◌∷◌, ◌++◌,
  Result, ok, err, if◌then◌else◌,
}
use rust_ma_core.Error.{acl, ServiceResult}
use Sets.{StrSet, contains, collect}

abbrev pub cap_inbox : Str
cap_inbox = codes "inbox"

abbrev pub cap_ipfs : Str
cap_ipfs = codes "ipfs"

abbrev pub wildcard : Str
wildcard = codes "*"

abbrev pub group_prefix : Str
group_prefix = codes "+"

abbrev pub local_entity_wildcard : Str
local_entity_wildcard = codes "#"

abbrev pub did_scheme : Str
did_scheme = codes "did:"

pub data CapabilityEntry : Type 0 where
  deny : CapabilityEntry
  allow : StrSet → CapabilityEntry

unfoldable pub from_caps : List Str → CapabilityEntry
from_caps caps = allow (collect caps)

unfoldable pub has : CapabilityEntry → Str → Bool
has deny cap = false
has (allow caps) cap = contains cap caps || contains wildcard caps

unfoldable pub is_deny : CapabilityEntry → Bool
is_deny deny = true
is_deny (allow caps) = false

abbrev pub AclMap : Type 0
AclMap = List (Str × CapabilityEntry)

-- `acl.get(key)`.
unfoldable pub lookup : Str → AclMap → Option CapabilityEntry
lookup key [] = none
lookup key ((k, entry) ∷ rest) = if str_eq k key then some entry else lookup key rest

unfoldable pub apply_entry : CapabilityEntry → Str → Str → ServiceResult (Unit {0})
apply_entry deny cap caller = err (acl (codes "operation denied for " ++ caller))
apply_entry (allow caps) cap caller =
    if contains cap caps || contains wildcard caps
    then ok tt
    else err (acl (codes "capability '" ++ cap ++ codes "' denied for " ++ caller))

-- `&did[..pos]` is the text before the fragment.
unfoldable pub normalize_principal : Str → Str
normalize_principal did =
    if starts_with did_scheme did
    then elim (find b'#' did) [ none ↦ did | some pos ↦ take pos did ]
    else did

-- The last step of `check_cap`: the global wildcard.
unfoldable pub check_global : AclMap → Str → Str → ServiceResult (Unit {0})
unfolding apply_entry
check_global map caller cap = elim (lookup wildcard map) [
  | none ↦ err (acl (codes "no ACL entry for " ++ caller))
  | some entry ↦ apply_entry entry cap caller
]

-- The second step: the wildcard of the local entities.
unfoldable pub check_local : AclMap → Str → Str → ServiceResult (Unit {0})
unfolding apply_entry check_global
check_local map caller cap =
    if starts_with local_entity_wildcard (normalize_principal caller)
    then elim (lookup local_entity_wildcard map) [
      | none ↦ check_global map caller cap
      | some entry ↦ apply_entry entry cap caller
    ]
    else check_global map caller cap

unfoldable pub check_cap : AclMap → Str → Str → ServiceResult (Unit {0})
unfolding apply_entry check_local
check_cap map caller cap = elim (lookup (normalize_principal caller) map) [
  | none ↦ check_local map caller cap
  | some entry ↦ apply_entry entry cap caller
]

unfoldable pub is_valid_acl_key : Str → Bool
is_valid_acl_key key = not (is_empty key)

-- The body of `is_valid_group_key`, behind the prefix.
abbrev group_rest : Str → Bool
group_rest rest = elim (find b'.' rest) [
  | none ↦ false
  | some dot ↦ not (is_empty (take dot rest)) && not (is_empty (drop (suc dot) rest))
]

unfoldable pub is_valid_group_key : Str → Bool
is_valid_group_key key = elim (strip_prefix group_prefix key) [
  | none ↦ false
  | some rest ↦ group_rest rest
]

unfoldable pub is_principal_key : Str → Bool
unfolding is_valid_group_key
is_principal_key key =
    str_eq key wildcard
    || (starts_with did_scheme key && not (contains_char b'#' key))
    || starts_with local_entity_wildcard key
    || is_valid_group_key key

-- The message shows the key with `{:?}`; the only key that is refused is the empty one.
unfoldable pub validate_acl_map : AclMap → ServiceResult (Unit {0})
unfolding is_valid_acl_key
validate_acl_map [] = ok tt
validate_acl_map ((key, entry) ∷ rest) =
    let later = validate_acl_map rest in
    if is_valid_acl_key key
    then later
    else err (acl (codes "invalid ACL key " ++ b'"' ∷ b'"' ∷ codes ": key must be non-empty"))

pub data DeError : Type 0 where
  custom : Str → DeError
  no_variant : DeError

-- The serde values that an entry is read from; `other` is any value that is neither null, a text
-- nor a sequence of texts.
pub data Value : Type 0 where
  null other : Value
  str : Str → Value
  seq : List Str → Value

unfoldable pub serialize : CapabilityEntry → Value
serialize deny = null
serialize (allow caps) = seq caps

unfoldable pub deserialize : Value → Result DeError CapabilityEntry
deserialize null = ok deny
deserialize (seq []) = ok deny
deserialize (seq (cap ∷ caps)) = ok (allow (collect (cap ∷ caps)))
deserialize (str s) =
    err (custom (codes "invalid ACL entry: use a YAML sequence for Allow or null for Deny"))
deserialize other = err no_variant
