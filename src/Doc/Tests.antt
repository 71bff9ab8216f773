-- ===== src/Doc/Tests.antt =====
-- The theorems on src/doc.rs at a concrete document, over the toy crates.
use rust_ma_core.Common.{Str, Bytes, codes, ◌++◌, none, [], ◌∷◌, ok, ◌≡◌, refl}
use rust_ma_core.Did
use rust_ma_core.Did.{Did}
use rust_ma_core.Multiformat.{
  public_key_multibase_encode, public_key_multibase_decode, signature_multibase_encode,
}
use rust_ma_core.Doc.Types.{
  VerificationMethod, Document, codec_x25519_pub, codec_ed25519_pub, multikey,
}
use rust_ma_core.Doc.Crates.{toy_doc_crates}
use rust_ma_core.Doc.Method.{
  no_proof, new_proof, signing_key_from_bytes, sign_bytes, validate_method, validate_bare_did,
}
use rust_ma_core.Doc.Operations.{
  get_verification_method_by_id, find_method, add_verification_method,
}
use rust_ma_core.Doc.Proving.{sign, verify, validate, is_valid_rfc3339_utc, payload_hash}
use rust_ma_core.Doc.Signing.{IsProved, verify-sign, verify-IsProved}
use rust_ma_core.Doc.Validity.{IsWellFormed, validate-IsWellFormed}
use rust_ma_core.Doc.Types.{text, field, end}
use rust_ma_core.Doc.Extension.{MaExtension}

abbrev pub alice : Did
alice = record { ipns = codes "k51"; fragment = none }

abbrev pub alice_id : Str
alice_id = codes "did:ma:k51"

abbrev pub secret : Bytes
secret = 1 ∷ []

abbrev pub sign_vm : VerificationMethod
sign_vm = record {
  id = codes "did:ma:k51#sign";
  key_type = multikey;
  controller = alice_id;
  public_key_multibase =
      codes "z" ++ (codec_ed25519_pub ∷ toy_doc_crates.crypto.ed25519_public secret);
}

abbrev pub enc_vm : VerificationMethod
enc_vm = record {
  id = codes "did:ma:k51#enc";
  key_type = multikey;
  controller = alice_id;
  public_key_multibase =
      codes "z" ++ (codec_x25519_pub ∷ toy_doc_crates.crypto.x25519_public secret);
}

abbrev pub now : Str
now = codes "2026-08-08T12:34:56Z"

abbrev pub unsigned : Document
unsigned = record {
  context = codes "https://www.w3.org/ns/did/v1.1" ∷ [];
  id = alice_id;
  controller = alice_id ∷ [];
  verification_method = sign_vm ∷ enc_vm ∷ [];
  assertion_method = codes "did:ma:k51#sign" ∷ [];
  key_agreement = codes "did:ma:k51#enc" ∷ [];
  proof = no_proof;
  created_at = now;
  updated_at = now;
  ma = none;
}

abbrev pub signed : Document
signed = record unsigned {
  proof =
      new_proof
        (codes "z"
          ++ (0xd0ed
              ∷ toy_doc_crates.crypto.ed25519_sign secret
                  (toy_doc_crates.crypto.blake3_hash alice_id)))
        (codes "did:ma:k51#sign");
}

is_signed :
    sign toy_doc_crates (signing_key_from_bytes toy_doc_crates alice secret) sign_vm unsigned
    ≡ ok signed
unfolding sign payload_hash signing_key_from_bytes sign_bytes signature_multibase_encode
    public_key_multibase_encode
is_signed = refl

verify-sign_example : verify toy_doc_crates signed ≡ ok tt
unfolding find_method
verify-sign_example =
    verify-sign toy_doc_crates unsigned signed sign_vm alice secret is_signed refl refl

is_verified : verify toy_doc_crates signed ≡ ok tt
unfolding find_method
is_verified = verify-sign toy_doc_crates unsigned signed sign_vm alice secret is_signed refl refl

verify-IsProved_example : IsProved toy_doc_crates signed
verify-IsProved_example = verify-IsProved toy_doc_crates signed is_verified

is_valid : validate toy_doc_crates signed ≡ ok tt
unfolding validate validate_method is_valid_rfc3339_utc validate_bare_did find_method
    Did.validate_resource Did.try_from Did.parse Did.validate_identifier Did.validate_fragment
    public_key_multibase_decode get_verification_method_by_id
is_valid = refl

validate-IsWellFormed_example : IsWellFormed toy_doc_crates signed
validate-IsWellFormed_example = validate-IsWellFormed toy_doc_crates signed is_valid

abbrev empty_doc : Document
empty_doc = record unsigned { verification_method = sign_vm ∷ [] }

is_added : add_verification_method toy_doc_crates enc_vm empty_doc ≡ ok unsigned
unfolding add_verification_method validate_method validate_bare_did Did.validate_resource
    Did.try_from Did.parse Did.validate_identifier Did.validate_fragment public_key_multibase_decode
is_added = refl

abbrev color : Str
color = codes "color"

-- The extension with one extra field.
abbrev colored : MaExtension
colored = record { fields = field color (text color) end }
