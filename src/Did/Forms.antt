-- ===== src/Did/Forms.antt =====
-- The constructors and the validators of src/did.rs, related to what `parse` accepts.
use rust_ma_core.Common.{
  Str, true, Option, none, some, ok, err, ◌>>◌, ◌≡◌, refl, ◌⊎◌, arith, inl, inr, >>=-eq-ok,
  Result-cases, subst,
}
use rust_ma_core.Error.{missing_fragment, unexpected_fragment}
use rust_ma_core.External.Cids.{CidLib}
use rust_ma_core.Did.{
  Did, id, is_url, is_bare, validate_fragment, validate_identifier, new_url, parse,
  validate_resource, validate_identity, try_from,
}
use rust_ma_core.Did.Parse.{IsValid, parse_iff}

abbrev pub fragment_of : Option Str → Str → Str
fragment_of none generated = generated
fragment_of (some f) generated = f

module _ (lib : CidLib) where
  try_from_of_IsValid : (did : Did) → IsValid lib did → try_from lib (id did) ≡ ok did
  unfolding try_from
  try_from_of_IsValid did valid = rw ((parse_iff lib (id did) did).1 (refl, valid)) refl

  -- What the common part of `new_url` returns.
  made_of :
      (ipns frag : Str) (did : Did)
      → (do
        validate_identifier lib ipns
        validate_fragment frag
        ok (record { ipns = ipns; fragment = some frag }))
        ≡ ok did
      → (try_from lib (id did) ≡ ok did)
        × (is_url did ≡ true)
        × (did.ipns ≡ ipns)
        × (did.fragment ≡ some frag)
  unfolding is_url
  made_of ipns frag did h =
      let (u, valid, e) = >>=-eq-ok (validate_identifier lib ipns) _ h in
      let (v, valid_f, e') = >>=-eq-ok (validate_fragment frag) _ e in
      let made : ◌≡◌ {A = Did} (record { ipns = ipns; fragment = some frag }) did = ground arith in
      subst
        (λ d.
          (try_from lib (id d) ≡ ok d)
          × (is_url d ≡ true)
          × (d.ipns ≡ ipns)
          × (d.fragment ≡ some frag))
        made
        (
          try_from_of_IsValid (record { ipns = ipns; fragment = some frag }) (valid, valid_f),
          refl,
          refl,
          refl,
        )

  -- Reading the text of a DID-URL that was made from parts gives it back; it has the fragment that
  -- was given, or the generated one.
  pub try_from-new_url :
      (ipns : Str) (fragment : Option Str) (generated : Str) (did : Did)
      → new_url lib ipns fragment generated ≡ ok did
      → (try_from lib (id did) ≡ ok did)
        × (is_url did ≡ true)
        × (did.ipns ≡ ipns)
        × (did.fragment ≡ some (fragment_of fragment generated))
  unfolding new_url
  try_from-new_url ipns none generated did h = made_of ipns generated did h
  try_from-new_url ipns (some f) generated did h = made_of ipns f did h

  -- The two validators split the texts that `validate` accepts: one of them accepts, by whether
  -- there is a fragment, and the other names what it misses.
  pub validate_split :
      (input : Str) (did : Did)
      → try_from lib input ≡ ok did
      → ((is_url did ≡ true)
          × (validate_resource lib input ≡ ok tt)
          × (validate_identity lib input ≡ err unexpected_fragment))
        ⊎ ((is_bare did ≡ true)
            × (validate_resource lib input ≡ err missing_fragment)
            × (validate_identity lib input ≡ ok tt))
  unfolding try_from validate_resource validate_identity is_url is_bare
  validate_split input did h = elim (Result-cases (parse lib input)) [
    | inr (e, failed) ↦ absurd (ground arith)
    | inl ((ipns, none), parsed) ↦ inr (ground arith, ground arith, ground arith)
    | inl ((ipns, some f), parsed) ↦ inl (ground arith, ground arith, ground arith)
  ]
