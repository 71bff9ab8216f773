-- ===== src/Acl/Keys.antt =====
-- The key forms of src/acl/mod.rs.
use rust_ma_core.Common.{
  ℕ, suc, Str, true, false, [], ◌∷◌, ◌++◌, ◌≡◌, refl, ◌↔◌, inl, inr, find-Free, ◌≢◌, ap, arith, ok,
  starts_with, strip_prefix, strip_prefix_sound, Free, find, find-append, find-none-Free,
  find-some-split, take, drop, length, is_empty, All, Option-cases, is_some,
}
use rust_ma_core.Acl.{
  AclMap, CapabilityEntry, did_scheme, group_prefix, normalize_principal, is_valid_acl_key,
  is_valid_group_key, is_principal_key, validate_acl_map,
}

abbrev pub IsGroupKey : Str → Type 0
IsGroupKey key =
    (handle : Str) × (path : Str) × (key ≡ b'+' ∷ handle ++ b'.' ∷ path)
    × Free b'.' handle
    × (handle ≢ [])
    × (path ≢ [])

take-length : (a b : Str) → take (length a) (a ++ b) ≡ a
take-length [] b = refl
take-length (x ∷ a) b = ap (◌∷◌ x) (take-length a b)

drop-length : (a b : Str) (c : ℕ) → drop (suc (length a)) (a ++ c ∷ b) ≡ b
drop-length [] b c = refl
drop-length (x ∷ a) b c = drop-length a b c

is_empty-eq-false : (s : Str) → s ≢ [] → is_empty s ≡ false
is_empty-eq-false [] h = absurd (h refl)
is_empty-eq-false (x ∷ s) h = refl

-- A group key is a plus sign, a handle without dots, a dot and a path, neither of them empty.
pub is_valid_group_key_iff : (key : Str) → (is_valid_group_key key ≡ true) ↔ IsGroupKey key
unfolding is_valid_group_key
is_valid_group_key_iff key = (
  λ h. elim (Option-cases (strip_prefix group_prefix key)) [
    | inl missing ↦ absurd (ground arith)
    | inr (rest, found) ↦ elim (Option-cases (find b'.' rest)) [
      | inl no_dot ↦ absurd (ground arith)
      | inr (dot, at) ↦ (
        take dot rest,
        drop (suc dot) rest,
        ground (
          arith,
          strip_prefix_sound group_prefix key rest found,
          find-some-split b'.' rest dot at,
        ),
        (find-some-split b'.' rest dot at).1,
        ground arith,
        ground arith,
      )
    ]
  ],
  λ (handle, path, shape, free, h, p). ground (
    arith,
    find-append b'.' handle path free,
    take-length handle (b'.' ∷ path),
    drop-length handle path b'.',
    is_empty-eq-false handle h,
    is_empty-eq-false path p,
  ),
)

-- Every non-empty text is a valid key: a map is refused exactly if one of its keys is empty.
pub validate_acl_map_iff :
    (map : AclMap)
    → (validate_acl_map map ≡ ok tt) ↔ All (λ (entry : Str × CapabilityEntry). entry.0 ≢ []) map
unfolding validate_acl_map
validate_acl_map_iff [] = (λ h. tt, λ h. refl)
validate_acl_map_iff (([], entry) ∷ rest) = (λ h. cc, λ h. absurd (h.0 refl))
validate_acl_map_iff (((c ∷ key), entry) ∷ rest) =
    (λ h. ((λ e. cc), (validate_acl_map_iff rest).0 h), λ h. (validate_acl_map_iff rest).1 h.1)

-- A DID-URL with a fragment is no principal key, and yet a valid key of a map.
pub url_key :
    (did fragment : Str)
    → starts_with did_scheme did ≡ true
    → Free b'#' did
    → (is_principal_key (did ++ b'#' ∷ fragment) ≡ false)
      × (is_valid_acl_key (did ++ b'#' ∷ fragment) ≡ true)
unfolding is_principal_key is_valid_acl_key is_valid_group_key
url_key [] fragment h free = cc
url_key (c ∷ did) fragment h free = (ground (arith, find-append b'#' (c ∷ did) fragment free), refl)

principal_of_did : (rest : Str) → is_principal_key (normalize_principal (did_scheme ++ rest)) ≡ true
unfolding is_principal_key normalize_principal
principal_of_did rest = elim (Option-cases (find b'#' rest)) [
  | inl missing ↦ ground (arith, find-Free b'#' rest (find-none-Free b'#' rest missing))
  | inr (i, found) ↦
      ground (arith, find-Free b'#' (take i rest) (find-some-split b'#' rest i found).1)
]

-- A remote caller is always looked up under a principal key.
pub normalize_principal-IsPrincipal :
    (did : Str)
    → starts_with did_scheme did ≡ true
    → is_principal_key (normalize_principal did) ≡ true
normalize_principal-IsPrincipal did h = elim (Option-cases (strip_prefix did_scheme did)) [
  | inl missing ↦ cc (ap is_some missing)
  | inr (rest, found) ↦ rw (strip_prefix_sound did_scheme did rest found) (principal_of_did rest)
]
