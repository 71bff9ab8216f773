-- ===== src/Acl/Decision.antt =====
-- What `check_cap` of src/acl/mod.rs decides, against a description of the entry that governs.
use rust_ma_core.Common.{
  Str, codes, true, false, none, some, [], ◌∷◌, ◌++◌, ◌≡◌, refl, sym, ap, ◌∙◌, ◌↔◌, ◌⊎◌, inl, inr,
  arith, starts_with, strip_prefix, strip_prefix-append, strip_prefix_sound, Free, find-Free,
  find-append, length, take, ok, err, is_ok, Result-cases, Option-cases, Bool-cases, append_assoc,
  is_some,
}
use rust_ma_core.Error.{acl}
use rust_ma_core.Acl.{
  CapabilityEntry, deny, allow, AclMap, wildcard, local_entity_wildcard, did_scheme, has, lookup,
  apply_entry, normalize_principal, check_global, check_local, check_cap,
}

-- The entry that decides for a normalised principal: its own, else that of the local entities if
-- it is one, else the global one.
pub data Governs (map : AclMap) (p : Str) (entry : CapabilityEntry) : Type 0 where
  direct : lookup p map ≡ some entry → Governs map p entry
  local_entity :
      lookup p map ≡ none
      → starts_with local_entity_wildcard p ≡ true
      → lookup local_entity_wildcard map ≡ some entry
      → Governs map p entry
  global :
      lookup p map ≡ none
      → ((starts_with local_entity_wildcard p ≡ false) ⊎ (lookup local_entity_wildcard map ≡ none))
      → lookup wildcard map ≡ some entry
      → Governs map p entry

is_ok-apply_entry :
    (entry : CapabilityEntry) (cap caller : Str)
    → is_ok (apply_entry entry cap caller) ≡ has entry cap
unfolding apply_entry has
is_ok-apply_entry deny cap caller = refl
is_ok-apply_entry (allow caps) cap caller = ground arith

module _ (map : AclMap) (caller cap : Str) where
  check_cap_of_Governs :
      (entry : CapabilityEntry)
      → Governs map (normalize_principal caller) entry
      → check_cap map caller cap ≡ apply_entry entry cap caller
  unfolding check_cap check_local check_global
  check_cap_of_Governs entry (direct h) = ground arith
  check_cap_of_Governs entry (local_entity h k l) = ground arith
  check_cap_of_Governs entry (global h k l) = ground arith

  governed :
      is_ok (check_cap map caller cap) ≡ true
      → (entry : CapabilityEntry) × Governs map (normalize_principal caller) entry
  unfolding check_cap check_local check_global
  governed h = elim (Option-cases (lookup (normalize_principal caller) map)) [
    | inr (entry, found) ↦ (entry, direct found)
    | inl missing ↦
        elim (Bool-cases (starts_with local_entity_wildcard (normalize_principal caller))) [
          | inl is_local ↦ elim (Option-cases (lookup local_entity_wildcard map)) [
            | inr (entry, found) ↦ (entry, local_entity missing is_local found)
            | inl absent ↦ elim (Option-cases (lookup wildcard map)) [
              | inr (entry, found) ↦ (entry, global missing (inr absent) found)
              | inl no_entry ↦ absurd (ground arith)
            ]
          ]
          | inr is_remote ↦ elim (Option-cases (lookup wildcard map)) [
            | inr (entry, found) ↦ (entry, global missing (inl is_remote) found)
            | inl no_entry ↦ absurd (ground arith)
          ]
        ]
  ]

  is_ok-check_cap :
      (entry : CapabilityEntry)
      → Governs map (normalize_principal caller) entry
      → is_ok (check_cap map caller cap) ≡ has entry cap
  is_ok-check_cap entry g =
      ap is_ok (check_cap_of_Governs entry g) ∙ is_ok-apply_entry entry cap caller

  -- A caller passes exactly if an entry governs the normalised caller and grants the capability.
  pub check_cap_iff : (check_cap map caller cap ≡ ok tt) ↔ (
      (entry : CapabilityEntry) × Governs map (normalize_principal caller) entry
      × (has entry cap ≡ true))
  check_cap_iff = (
    λ h.
        let (entry, g) = governed (ap is_ok h) in
        (entry, g, sym (is_ok-check_cap entry g) ∙ ap is_ok h),
    λ (entry, g, h). elim (Result-cases (check_cap map caller cap)) [
      | inl (unit, e) ↦ e
      | inr (e, failed) ↦ cc (is_ok-check_cap entry g)
    ],
  )

  -- If the governing entry is a deny, the caller is refused every capability, with the message that
  -- says so.
  pub check_cap-denied :
      Governs map (normalize_principal caller) deny
      → check_cap map caller cap ≡ err (acl (codes "operation denied for " ++ caller))
  unfolding apply_entry
  check_cap-denied g = check_cap_of_Governs deny g

  -- An entry of the caller's own decides alone: neither a wildcard deny nor a wildcard allow
  -- changes what it grants.
  pub check_cap-direct :
      (entry : CapabilityEntry)
      → lookup (normalize_principal caller) map ≡ some entry
      → is_ok (check_cap map caller cap) ≡ has entry cap
  check_cap-direct entry h = is_ok-check_cap entry (direct h)

take-length-append : (a b : Str) → take (length a) (a ++ b) ≡ a
take-length-append [] b = refl
take-length-append (x ∷ a) b = ap (◌∷◌ x) (take-length-append a b)

starts_with-append : (p a b : Str) → starts_with p a ≡ true → starts_with p (a ++ b) ≡ true
starts_with-append p a b h = elim (Option-cases (strip_prefix p a)) [
  | inl missing ↦ cc (ap is_some missing)
  | inr (r, found) ↦ rw (strip_prefix_sound p a r found, append_assoc, strip_prefix-append) refl
]

-- The fragment of a DID-URL is dropped.
pub normalize_principal-url :
    (did fragment : Str)
    → starts_with did_scheme did ≡ true
    → Free b'#' did
    → normalize_principal (did ++ b'#' ∷ fragment) ≡ did
unfolding normalize_principal
normalize_principal-url did fragment h free =
    rw (starts_with-append did_scheme did (b'#' ∷ fragment) h, find-append b'#' did fragment free)
      (take-length-append did (b'#' ∷ fragment))

pub normalize_principal-bare : (did : Str) → Free b'#' did → normalize_principal did ≡ did
unfolding normalize_principal
normalize_principal-bare did free = ground (arith, find-Free b'#' did free)

same_verdict :
    (map : AclMap) (a b cap : Str)
    → normalize_principal a ≡ normalize_principal b
    → is_ok (check_cap map a cap) ≡ is_ok (check_cap map b cap)
unfolding check_cap check_local check_global
same_verdict map a b cap h = ground (
  arith,
  λ (e : CapabilityEntry). is_ok-apply_entry e cap a,
  λ (e : CapabilityEntry). is_ok-apply_entry e cap b,
)

-- A DID-URL of any fragment passes exactly where its bare DID does.
pub check_cap-fragment :
    (map : AclMap) (did fragment cap : Str)
    → starts_with did_scheme did ≡ true
    → Free b'#' did
    → is_ok (check_cap map (did ++ b'#' ∷ fragment) cap) ≡ is_ok (check_cap map did cap)
check_cap-fragment map did fragment cap h free =
    same_verdict map _ _ cap
      (normalize_principal-url did fragment h free ∙ sym (normalize_principal-bare did free))
