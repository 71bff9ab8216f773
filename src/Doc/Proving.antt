-- ===== src/Doc/Proving.antt =====
-- Keys, proof and validation of `Document` in src/doc.rs, and `parse_document_bytes` of
-- src/ipfs/resolver.rs.
use rust_ma_core.Common.{
  ℕ, ◌+◌, Str, Bytes, codes, Bool, true, false, not, ◌&&◌, ◌==◌, ltb, length, any, str_eq, is_empty,
  head?, List, [], ◌∷◌, ok, ok_or, map_err, fail_if, ensure, ◌>>=◌, ◌>>◌, if◌then◌else◌, Result,
}
use rust_ma_core.Error.{
  MaError, MaResult, unknown_verification_method, invalid_multicodec, invalid_key_length,
  invalid_public_key_multibase, missing_proof, invalid_proof_type, invalid_proof_purpose,
  invalid_document_signature, empty_context, invalid_context, empty_controller, invalid_created_at,
  invalid_updated_at,
}
use rust_ma_core.Did
use rust_ma_core.Multiformat.{
  public_key_multibase_decode, signature_multibase_encode, signature_multibase_decode,
}
use rust_ma_core.Doc.Types.{
  VerificationMethod, Document, SigningKey, default_did_context, default_proof_type,
  default_proof_purpose, codec_ed25519_pub, codec_x25519_pub, codec_eddsa_sig,
}
use rust_ma_core.Doc.Crates.{DocCrates}
use rust_ma_core.Doc.Method.{
  no_proof, new_proof, is_empty_proof, validate_bare_did, validate_method, sign_bytes,
}
use rust_ma_core.Doc.Operations.{get_verification_method_by_id, encode, decode}

-- `value.len()`, in bytes of UTF-8.
unfoldable pub byte_len : Str → ℕ
byte_len [] = 0
byte_len (c ∷ s) =
    (if ltb c 0x80 then 1 else if ltb c 0x800 then 2 else if ltb c 0x10000 then 3 else 4)
    + byte_len s

-- `value.ends_with(c)`.
unfoldable pub ends_with_char : ℕ → Str → Bool
ends_with_char c [] = false
ends_with_char c (x ∷ []) = x == c
ends_with_char c (x ∷ y ∷ s) = ends_with_char c (y ∷ s)

-- Equality of lists of texts.
abbrev pub strs_eq : List Str → List Str → Bool
strs_eq [] [] = true
strs_eq [] (y ∷ ys) = false
strs_eq (x ∷ xs) [] = false
strs_eq (x ∷ xs) (y ∷ ys) = str_eq x y && strs_eq xs ys

unfoldable pub payload_document : Document → Document
payload_document doc = record doc { proof = no_proof }

-- The texts of the errors are those of `MaError`, and stay values here: which of the three steps
-- failed is the constructor.
pub data ParseError : Type 0 where
  decode_failed validation_failed proof_failed : MaError → ParseError

module _ (crates : DocCrates) where
  open crates use {cids, multi, rfc3339_parses}
  open crates.crypto use {
    VerifyingKey, verifying_key_from_bytes, signature_from_slice, ed25519_verify, blake3_hash,
  }

  unfoldable pub is_valid_rfc3339_utc : Str → Bool
  unfolding byte_len ends_with_char
  is_valid_rfc3339_utc value =
      byte_len value == 20 && ends_with_char b'Z' value && rfc3339_parses value

  -- The codec and length checks that the two key getters share.
  unfoldable pub key_bytes : ℕ → VerificationMethod → MaResult Bytes
  key_bytes expected vm = do
    (codec, bytes) ← public_key_multibase_decode multi vm.public_key_multibase
    fail_if (not (codec == expected)) (invalid_multicodec expected codec)
    fail_if (not (length bytes == 32)) (invalid_key_length 32 (length bytes))
    ok bytes

  unfoldable pub verifying_key_for_method : Document → Str → MaResult VerifyingKey
  unfolding key_bytes
  verifying_key_for_method doc method_id = do
    vm ← get_verification_method_by_id doc method_id
    bytes ← key_bytes codec_ed25519_pub vm
    ok_or (verifying_key_from_bytes bytes) MaError.crypto

  unfoldable pub assertion_method_public_key : Document → MaResult VerifyingKey
  unfolding verifying_key_for_method
  assertion_method_public_key doc = do
    assertion_id ←
        ok_or (head? doc.assertion_method) (unknown_verification_method (codes "assertionMethod"))
    verifying_key_for_method doc assertion_id

  unfoldable pub key_agreement_public_key_bytes : Document → MaResult Bytes
  unfolding key_bytes
  key_agreement_public_key_bytes doc = do
    agreement_id ←
        ok_or (head? doc.key_agreement) (unknown_verification_method (codes "keyAgreement"))
    vm ← get_verification_method_by_id doc agreement_id
    key_bytes codec_x25519_pub vm

  unfoldable pub payload_bytes : Document → MaResult Bytes
  unfolding payload_document encode
  payload_bytes doc = encode crates (payload_document doc)

  unfoldable pub payload_hash : Document → MaResult Bytes
  unfolding payload_bytes
  payload_hash doc = do bytes ← payload_bytes doc; ok (blake3_hash bytes)

  unfoldable pub sign : SigningKey → VerificationMethod → Document → MaResult Document
  sign signing_key vm doc = do
    fail_if (not (str_eq signing_key.public_key_multibase vm.public_key_multibase))
        invalid_public_key_multibase
    hash ← payload_hash doc
    ok (record doc {
      proof =
          new_proof
            (signature_multibase_encode multi codec_eddsa_sig (sign_bytes crates signing_key hash))
            vm.id;
    })

  unfoldable pub verify : Document → MaResult (Unit {0})
  verify doc = do
    fail_if (is_empty_proof doc.proof) missing_proof
    fail_if (not (str_eq doc.proof.proof_type default_proof_type))
        (invalid_proof_type doc.proof.proof_type)
    fail_if (not (str_eq doc.proof.proof_purpose default_proof_purpose))
        (invalid_proof_purpose doc.proof.proof_purpose)
    (codec, sig_bytes) ← signature_multibase_decode multi doc.proof.proof_value
    fail_if (not (codec == codec_eddsa_sig)) invalid_document_signature
    signature ← ok_or (signature_from_slice sig_bytes) invalid_document_signature
    fail_if (not (any (str_eq doc.proof.verification_method) doc.assertion_method))
        (unknown_verification_method doc.proof.verification_method)
    public_key ← verifying_key_for_method doc doc.proof.verification_method
    hash ← payload_hash doc
    ensure (ed25519_verify public_key hash signature) invalid_document_signature

  -- The loops of `validate`.
  unfoldable pub validate_controllers : List Str → MaResult (Unit {0})
  validate_controllers [] = ok tt
  validate_controllers (controller ∷ rest) = do
    validate_bare_did crates controller
    validate_controllers rest

  unfoldable pub validate_methods : List VerificationMethod → MaResult (Unit {0})
  validate_methods [] = ok tt
  validate_methods (method ∷ rest) = do validate_method crates method; validate_methods rest

  unfoldable pub validate_relationships : Document → List Str → ℕ → MaResult (Unit {0})
  validate_relationships doc [] expected = ok tt
  validate_relationships doc (method_id ∷ rest) expected = do
    Did.validate_resource cids method_id
    method ← get_verification_method_by_id doc method_id
    (codec, bytes) ← public_key_multibase_decode multi method.public_key_multibase
    fail_if (not (codec == expected)) (invalid_multicodec expected codec)
    validate_relationships doc rest expected

  unfoldable pub validate : Document → MaResult (Unit {0})
  unfolding validate_controllers validate_methods validate_relationships
  validate doc = do
    fail_if (not (strs_eq doc.context default_did_context))
        (if is_empty doc.context then empty_context else invalid_context)
    validate_bare_did crates doc.id
    fail_if (is_empty doc.controller) empty_controller
    validate_controllers doc.controller
    fail_if (not (is_valid_rfc3339_utc doc.created_at)) (invalid_created_at doc.created_at)
    fail_if (not (is_valid_rfc3339_utc doc.updated_at)) (invalid_updated_at doc.updated_at)
    validate_methods doc.verification_method
    fail_if (is_empty doc.assertion_method) (unknown_verification_method (codes "assertionMethod"))
    fail_if (is_empty doc.key_agreement) (unknown_verification_method (codes "keyAgreement"))
    validate_relationships doc doc.assertion_method codec_ed25519_pub
    validate_relationships doc doc.key_agreement codec_x25519_pub

  unfoldable pub parse_document_bytes : Bytes → Result ParseError Document
  unfolding decode validate verify
  parse_document_bytes bytes = do
    document ← map_err decode_failed (decode crates bytes)
    map_err validation_failed (validate document)
    map_err proof_failed (verify document)
    ok document
