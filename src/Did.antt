-- ===== src/Did.antt =====
-- src/did.rs: `did:ma:` identifiers. The crates that decide what an identifier is are the parameter
-- `lib`; a generated nanoid is an argument.
pub mod Parse
pub mod Forms
pub mod Tests
use rust_ma_core.Common.{
  ℕ, Str, codes, Bool, true, false, not, ◌&&◌, ◌||◌, ◌==◌, str_eq, all, is_empty, is_some,
  is_nanoid_char, split, strip_prefix, Option, none, some, List, [], ◌∷◌, ◌++◌, ok, err, ok_or,
  fail_if, ◌>>=◌, ◌>>◌, if◌then◌else◌,
}
use rust_ma_core.Error.{
  MaError, MaResult, empty_did, invalid_did_prefix, missing_identifier, missing_fragment,
  unexpected_fragment, invalid_did_format, invalid_fragment, invalid_identifier,
}
use rust_ma_core.External.Cids.{CidLib}

abbrev pub did_prefix : Str
did_prefix = codes "did:ma:"

abbrev pub libp2p_key_codec : ℕ
libp2p_key_codec = 0x72

pub record Did : Type 0 where
  pub ipns : Str
  pub fragment : Option Str

-- The source tests the bytes; a character outside ASCII has only bytes that fail.
unfoldable pub validate_fragment : Str → MaResult (Unit {0})
validate_fragment input =
    if is_empty input || not (all is_nanoid_char input) then err (invalid_fragment input) else ok tt

unfoldable pub base_id : Did → Str
base_id did = did_prefix ++ did.ipns

unfoldable pub id : Did → Str
unfolding base_id
id did = elim did.fragment [ none ↦ base_id did | some fragment ↦ base_id did ++ b'#' ∷ fragment ]

unfoldable pub is_url : Did → Bool
is_url did = is_some did.fragment

unfoldable pub is_bare : Did → Bool
is_bare did = not (is_some did.fragment)

module _ (lib : CidLib) where
  open lib use {
    cid_try_from, is_v1, codec, to_bytes, hash, base36_encode, peer_id_digest, try_decode_protobuf,
    is_ed25519,
  }

  unfoldable pub validate_identifier : Str → MaResult (Unit {0})
  validate_identifier input = if is_empty input then err missing_identifier else do
    cid ← ok_or (cid_try_from input) invalid_identifier
    fail_if
        (not (is_v1 cid)
          || not (codec cid == libp2p_key_codec)
          || not (str_eq (base36_encode (to_bytes cid)) input))
        invalid_identifier
    digest ← ok_or (peer_id_digest (hash cid)) invalid_identifier
    public_key ← ok_or (try_decode_protobuf digest) invalid_identifier
    fail_if (not (is_ed25519 public_key)) invalid_identifier

  unfoldable pub new_identity : Str → MaResult Did
  new_identity ipns = do validate_identifier ipns; ok (record { ipns = ipns; fragment = none })

  -- `generated` is the nanoid that is taken if no fragment is given.
  unfoldable pub new_url : Str → Option Str → Str → MaResult Did
  new_url ipns fragment generated =
      let frag : Str = elim fragment [ none ↦ generated | some f ↦ f ] in
      do
        validate_identifier ipns
        validate_fragment frag
        ok (record { ipns = ipns; fragment = some frag })

  unfoldable pub with_fragment : Did → Str → MaResult Did
  unfolding new_url
  with_fragment did fragment = new_url did.ipns (some fragment) []

  -- The match on the parts between the `#` characters.
  unfoldable pub parse_parts : List Str → MaResult (Str × Option Str)
  parse_parts [] = err missing_identifier
  parse_parts ([] ∷ []) = err missing_identifier
  parse_parts ((c ∷ identifier) ∷ []) = do
    validate_identifier (c ∷ identifier)
    ok (c ∷ identifier, none)
  parse_parts (identifier ∷ fragment ∷ []) = do
    validate_identifier identifier
    validate_fragment fragment
    ok (identifier, some fragment)
  parse_parts (identifier ∷ fragment ∷ more ∷ rest) = err invalid_did_format

  unfoldable pub parse : Str → MaResult (Str × Option Str)
  unfolding parse_parts
  parse input = if is_empty input then err empty_did else do
    stripped ← ok_or (strip_prefix did_prefix input) invalid_did_prefix
    parse_parts (split b'#' stripped)

  unfoldable pub validate : Str → MaResult (Unit {0})
  validate input = do parsed ← parse input; ok tt

  unfoldable pub validate_url : Str → MaResult (Unit {0})
  unfolding validate
  validate_url input = validate input

  unfoldable pub validate_resource : Str → MaResult (Unit {0})
  validate_resource input = do
    (ipns, fragment) ← parse input
    elim fragment [ none ↦ err missing_fragment | some f ↦ ok tt ]

  unfoldable pub validate_identity : Str → MaResult (Unit {0})
  validate_identity input = do
    (ipns, fragment) ← parse input
    elim fragment [ none ↦ ok tt | some f ↦ err unexpected_fragment ]

  unfoldable pub try_from : Str → MaResult Did
  try_from value = do
    (ipns, fragment) ← parse value
    ok (record { ipns = ipns; fragment = fragment })
