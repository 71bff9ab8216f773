-- ===== src/Doc/Method.antt =====
-- `VerificationMethod` and `Proof` of src/doc.rs, and the keys of src/key.rs.
use rust_ma_core.Common.{
  ℕ, Str, Bytes, Bool, not, ◌==◌, length, str_eq, is_empty, split, head?, none, some, [], ◌∷◌, ◌++◌,
  ok, err, ok_or, fail_if, ◌>>=◌, ◌>>◌, if◌then◌else◌,
}
use rust_ma_core.Error.{
  MaResult, missing_identifier, missing_fragment, unexpected_fragment,
  verification_method_missing_type, invalid_verification_method_type, empty_controller,
  empty_public_key_multibase, invalid_key_type, invalid_multicodec, invalid_key_length,
}
use rust_ma_core.Did
use rust_ma_core.Did.{Did}
use rust_ma_core.Multiformat.{public_key_multibase_encode, public_key_multibase_decode}
use rust_ma_core.Doc.Types.{
  VerificationMethod, Proof, SigningKey, EncryptionKey, multikey, default_proof_type,
  default_proof_purpose, codec_ed25519_pub, codec_x25519_pub,
}
use rust_ma_core.Doc.Crates.{DocCrates}

-- `Proof::default()`.
abbrev pub no_proof : Proof
no_proof = record {
  proof_type = [];
  verification_method = [];
  proof_purpose = [];
  proof_value = [];
}

unfoldable pub new_proof : Str → Str → Proof
new_proof proof_value verification_method = record {
  proof_type = default_proof_type;
  verification_method = verification_method;
  proof_purpose = default_proof_purpose;
  proof_value = proof_value;
}

unfoldable pub is_empty_proof : Proof → Bool
is_empty_proof proof = is_empty proof.proof_value

module _ (crates : DocCrates) where
  open crates use {cids, multi, crypto}

  unfoldable pub validate_bare_did : Str → MaResult (Unit {0})
  validate_bare_did value = do
    did ← Did.try_from cids value
    elim did.fragment [ none ↦ ok tt | some f ↦ err unexpected_fragment ]

  -- The match on the key type.
  unfoldable pub check_key_type : Str → MaResult (Unit {0})
  check_key_type key_type =
      if is_empty key_type
      then err verification_method_missing_type
      else if str_eq key_type multikey
      then ok tt
      else err (invalid_verification_method_type key_type)

  unfoldable pub validate_method : VerificationMethod → MaResult (Unit {0})
  unfolding check_key_type validate_bare_did
  validate_method method = do
    Did.validate_resource cids method.id
    check_key_type method.key_type
    fail_if (is_empty method.controller) empty_controller
    validate_bare_did method.controller
    fail_if (is_empty method.public_key_multibase) empty_public_key_multibase
    decoded ← public_key_multibase_decode multi method.public_key_multibase
    ok tt

  unfoldable pub new_method : Str → Str → Str → Str → Str → MaResult VerificationMethod
  new_method id controller key_type fragment public_key_multibase = do
    base_id ← ok_or (head? (split b'#' id)) missing_identifier
    let method : VerificationMethod = record {
      id = base_id ++ b'#' ∷ fragment;
      key_type = key_type;
      controller = controller;
      public_key_multibase = public_key_multibase;
    }
    validate_method method
    ok method

  unfoldable pub fragment : VerificationMethod → MaResult Str
  fragment method = do did ← Did.try_from cids method.id; ok_or did.fragment missing_fragment

  -- `TryFrom<&SigningKey>` and `TryFrom<&EncryptionKey>`.
  unfoldable pub method_of_signing_key : SigningKey → MaResult VerificationMethod
  unfolding new_method
  method_of_signing_key key = do
    f ← ok_or key.did.fragment missing_fragment
    new_method (Did.base_id key.did) (Did.base_id key.did) key.key_type f key.public_key_multibase

  unfoldable pub method_of_encryption_key : EncryptionKey → MaResult VerificationMethod
  unfolding new_method
  method_of_encryption_key key = do
    f ← ok_or key.did.fragment missing_fragment
    new_method (Did.base_id key.did) (Did.base_id key.did) key.key_type f key.public_key_multibase

  -- `SigningKey::from_private_key_bytes`; `generate` is this at a random secret.
  unfoldable pub signing_key_from_bytes : Did → Bytes → SigningKey
  signing_key_from_bytes did secret = record {
    did = did;
    key_type = multikey;
    secret_key = secret;
    public_key_multibase =
        public_key_multibase_encode multi codec_ed25519_pub (crypto.ed25519_public secret);
  }

  unfoldable pub sign_bytes : SigningKey → Bytes → Bytes
  sign_bytes key bytes = crypto.ed25519_sign key.secret_key bytes

  -- The checks that `validate` makes of both kinds of keys.
  abbrev validate_key : Did → Str → Str → ℕ → MaResult (Unit {0})
  validate_key did key_type text expected = do
    Did.validate cids (Did.id did)
    fail_if (not (str_eq key_type multikey)) invalid_key_type
    (codec, key_bytes) ← public_key_multibase_decode multi text
    fail_if (not (codec == expected)) (invalid_multicodec expected codec)
    fail_if (not (length key_bytes == 32)) (invalid_key_length 32 (length key_bytes))

  unfoldable pub validate_signing_key : SigningKey → MaResult (Unit {0})
  validate_signing_key key =
      validate_key key.did key.key_type key.public_key_multibase codec_ed25519_pub

  unfoldable pub encryption_key_from_bytes : Did → Bytes → EncryptionKey
  encryption_key_from_bytes did private_key =
      let public_key = crypto.x25519_public private_key in
      record {
        did = did;
        key_type = multikey;
        private_key = private_key;
        public_key = public_key;
        public_key_multibase = public_key_multibase_encode multi codec_x25519_pub public_key;
      }

  unfoldable pub shared_secret : EncryptionKey → Bytes → Bytes
  shared_secret key other = crypto.x25519_shared key.private_key other

  unfoldable pub validate_encryption_key : EncryptionKey → MaResult (Unit {0})
  validate_encryption_key key =
      validate_key key.did key.key_type key.public_key_multibase codec_x25519_pub
