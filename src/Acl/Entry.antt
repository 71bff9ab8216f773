-- ===== src/Acl/Entry.antt =====
-- The entries of src/acl/mod.rs: which capabilities they grant, and their serde form.
use rust_ma_core.Common.{Str, ◌||◌, List, [], ◌∷◌, ◌≡◌, refl, ◌≢◌, ap, ok}
use rust_ma_core.Acl.Sets.{
  contains, collect, IsIncreasing, collect_of_IsIncreasing, contains-collect,
}
use rust_ma_core.Acl.{
  CapabilityEntry, deny, allow, wildcard, from_caps, has, serialize, deserialize,
}

-- `from_caps` grants a capability exactly if it, or the wildcard, is in the list.
pub has-from_caps :
    (caps : List Str) (cap : Str)
    → has (from_caps caps) cap ≡ (contains cap caps || contains wildcard caps)
unfolding has from_caps
has-from_caps caps cap = rw (contains-collect cap caps, contains-collect wildcard caps)

-- The entries that `BTreeSet` can hold.
abbrev pub IsOrdered : CapabilityEntry → Type 0
IsOrdered deny = Unit
IsOrdered (allow caps) = IsIncreasing caps

-- Reading a written entry gives it back, unless it allows nothing.
pub deserialize-serialize :
    (entry : CapabilityEntry)
    → IsOrdered entry
    → entry ≢ allow []
    → deserialize (serialize entry) ≡ ok entry
unfolding serialize deserialize
deserialize-serialize deny h k = refl
deserialize-serialize (allow []) h k = absurd (k refl)
deserialize-serialize (allow (cap ∷ caps)) h k =
    ap (λ set. ok (allow set)) (collect_of_IsIncreasing (cap ∷ caps) h)

-- Whatever the entry, reading what was written gives one that grants the same capabilities.
pub has-deserialize-serialize :
    (entry : CapabilityEntry)
    → (entry' : CapabilityEntry) × (deserialize (serialize entry) ≡ ok entry')
      × ((cap : Str) → has entry' cap ≡ has entry cap)
unfolding serialize deserialize has collect from_caps
has-deserialize-serialize deny = (deny, refl, λ cap. refl)
has-deserialize-serialize (allow []) = (deny, refl, λ cap. refl)
has-deserialize-serialize (allow (c ∷ caps)) =
    (allow (collect (c ∷ caps)), refl, has-from_caps (c ∷ caps))
