-- ===== src/Did/Parse.antt =====
-- What `Did::parse` of src/did.rs accepts, against the printed form.
use rust_ma_core.Common.{
  ℕ, Str, Bool, true, false, all, is_nanoid_char, is_ascii_alphanumeric, str_eq_sound, split, join,
  join-split, split_of_Free, split-append, split-ne-nil, Free, All, strip_prefix,
  strip_prefix_sound, Option, none, some, List, [], ◌∷◌, ◌++◌, ok, err, ◌≡◌, refl, ◌↔◌, ◌≢◌, arith,
  Option-cases, inl, inr, >>=-eq-ok, subst,
}
use rust_ma_core.Error.{invalid_did_format}
use rust_ma_core.External.Cids.{CidLib}
use rust_ma_core.Did.{
  Did, did_prefix, base_id, id, validate_fragment, validate_identifier, parse_parts, parse,
}

nonhash_chars : (p : ℕ → Bool) (c : ℕ) (s : Str) → p c ≡ false → All (λ x. p x ≡ true) s → Free c s
nonhash_chars p c [] h k = tt
nonhash_chars p c (x ∷ s) h k = ((λ e. cc (k.0, h, e)), nonhash_chars p c s h k.1)

chars_kept : (p : ℕ → Bool) (s : Str) → all p s ≡ true → All (λ x. p x ≡ true) s
chars_kept p [] h = tt
chars_kept p (x ∷ s) h = ground (arith, chars_kept p s)

-- A valid fragment is not empty and has no `#`.
pub validate_fragment-Free : (s : Str) → validate_fragment s ≡ ok tt → (s ≢ []) × Free b'#' s
unfolding validate_fragment
validate_fragment-Free [] h = cc
validate_fragment-Free (c ∷ s) h = (
  (λ e. cc),
  nonhash_chars is_nanoid_char b'#' (c ∷ s) refl (chars_kept is_nanoid_char (c ∷ s) (ground arith)),
)

-- The fragment, if there is one, is valid.
abbrev pub FragmentIsValid : Option Str → Type 0
FragmentIsValid none = Unit
FragmentIsValid (some fragment) = validate_fragment fragment ≡ ok tt

abbrev pair : Did → Str × Option Str
pair did = (did.ipns, did.fragment)

module _ (lib : CidLib) where
  open lib use {base36_encode, base36_alphabet, to_bytes, cid_try_from}

  -- A valid identifier is not empty and has no `#`: it is a base 36 text.
  pub validate_identifier-Free :
      (s : Str) → validate_identifier lib s ≡ ok tt → (s ≢ []) × Free b'#' s
  unfolding validate_identifier
  validate_identifier-Free [] h = cc
  validate_identifier-Free (c ∷ s) h = elim (Option-cases (cid_try_from (c ∷ s))) [
    | inl refused ↦ absurd (ground arith)
    | inr (cid, parsed) ↦
        let same : base36_encode (to_bytes cid) ≡ c ∷ s =
          str_eq_sound (base36_encode (to_bytes cid)) (c ∷ s) (ground arith) in
        (
          (λ e. cc),
          nonhash_chars is_ascii_alphanumeric b'#' (c ∷ s) refl (
              subst (All (λ x. is_ascii_alphanumeric x ≡ true)) same
                (base36_alphabet (to_bytes cid))),
        )
  ]

  abbrev pub IsValid : Did → Type 0
  IsValid did = (validate_identifier lib did.ipns ≡ ok tt) × FragmentIsValid did.fragment

  parse_parts_sound :
      (parts : List Str) (did : Did)
      → parse_parts lib parts ≡ ok (pair did)
      → (did_prefix ++ join b'#' parts ≡ id did) × IsValid did
  unfolding parse_parts id base_id
  parse_parts_sound [] did h = cc
  parse_parts_sound ([] ∷ []) did h = cc
  parse_parts_sound ((c ∷ i) ∷ []) did h =
      let (u, valid, e) = >>=-eq-ok (validate_identifier lib (c ∷ i)) _ h in ground arith
  parse_parts_sound (i ∷ f ∷ []) did h =
      let (u, valid, e) = >>=-eq-ok (validate_identifier lib i) _ h in
      let (v, valid_f, e') = >>=-eq-ok (validate_fragment f) _ e in ground arith
  parse_parts_sound (i ∷ f ∷ g ∷ rest) did h = cc

  parse_sound :
      (input : Str) (did : Did) → parse lib input ≡ ok (pair did) → (input ≡ id did) × IsValid did
  unfolding parse
  parse_sound [] did h = cc
  parse_sound (c ∷ s) did h = elim (Option-cases (strip_prefix did_prefix (c ∷ s))) [
    | inl missing ↦ absurd (ground arith)
    | inr (stripped, found) ↦ ground (
      arith,
      parse_parts_sound (split b'#' stripped) did (ground arith),
      strip_prefix_sound did_prefix (c ∷ s) stripped found,
      join-split b'#' stripped,
    )
  ]

  parse-bare :
      (i : Str) → validate_identifier lib i ≡ ok tt → parse lib (did_prefix ++ i) ≡ ok (i, none)
  unfolding parse parse_parts
  parse-bare [] h = absurd ((validate_identifier-Free [] h).0 refl)
  parse-bare (c ∷ i) h =
      rw (split_of_Free b'#' (c ∷ i) (validate_identifier-Free (c ∷ i) h).1, h) refl

  parse-url :
      (i f : Str)
      → validate_identifier lib i ≡ ok tt
      → validate_fragment f ≡ ok tt
      → parse lib (did_prefix ++ (i ++ b'#' ∷ f)) ≡ ok (i, some f)
  unfolding parse parse_parts
  parse-url i f h k =
      rw
        (
          split-append b'#' i f (validate_identifier-Free i h).1,
          split_of_Free b'#' f (validate_fragment-Free f k).1,
          h,
          k,
        )
        refl

  parse-id :
      (i : Str) (f : Option Str)
      → IsValid (record { ipns = i; fragment = f })
      → parse lib (id (record { ipns = i; fragment = f })) ≡ ok (i, f)
  unfolding id base_id
  parse-id i none h = parse-bare i h.0
  parse-id i (some f) h = parse-url i f h.0 h.1

  -- `parse` accepts exactly the printed form of the DIDs whose identifier and fragment are valid,
  -- and gives their parts.
  pub parse_iff :
      (input : Str) (did : Did)
      → (parse lib input ≡ ok (did.ipns, did.fragment)) ↔ ((input ≡ id did) × IsValid did)
  parse_iff input did =
      (parse_sound input did, λ (printed, valid). rw printed (parse-id did.ipns did.fragment valid))

  three_parts :
      (i f : Str) (parts : List Str)
      → parts ≢ []
      → parse_parts lib (i ∷ f ∷ parts) ≡ err invalid_did_format
  unfolding parse_parts
  three_parts i f [] h = absurd (h refl)
  three_parts [] f (p ∷ parts) h = refl
  three_parts (c ∷ i) f (p ∷ parts) h = refl

  -- A text with two fragments is no DID, whatever its parts are.
  pub parse-two_fragments :
      (identifier fragment rest : Str)
      → Free b'#' identifier
      → Free b'#' fragment
      → parse lib (did_prefix ++ (identifier ++ b'#' ∷ (fragment ++ b'#' ∷ rest)))
        ≡ err invalid_did_format
  unfolding parse
  parse-two_fragments i f rest h k =
      rw (split-append b'#' i (f ++ b'#' ∷ rest) h, split-append b'#' f rest k)
        (three_parts i f (split b'#' rest) (split-ne-nil b'#' rest))
