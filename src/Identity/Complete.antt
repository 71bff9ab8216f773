-- ===== src/Identity/Complete.antt =====
-- Generated identities of src/identity.rs work: their documents validate, verify, and publish the
-- keys with which messages are signed and opened.
use rust_ma_core.Common.{
  Str, Bytes, codes, true, str_eq_refl, Option, none, some, [], ◌++◌, ok, ◌≡◌, refl, arith,
}
use rust_ma_core.Did
use rust_ma_core.Did.{Did, did_prefix, validate_identifier}
use rust_ma_core.Multiformat.RoundTrip.{multibase_decode-encode_length}
use rust_ma_core.Doc.Types.{
  VerificationMethod, Document, Ipld, Proof, codec_ed25519_pub, codec_x25519_pub, codec_eddsa_sig,
}
use rust_ma_core.Doc.Method.{
  no_proof, new_proof, sign_bytes, validate_bare_did, signing_key_from_bytes,
  encryption_key_from_bytes,
}
use rust_ma_core.Doc.Operations.{find_method, get_verification_method_by_id, encode}
use rust_ma_core.Doc.Proving.{
  payload_document, payload_bytes, payload_hash, sign, verify, validate, is_valid_rfc3339_utc,
  validate_controllers, validate_methods, validate_relationships, key_agreement_public_key_bytes,
  key_bytes,
}
use rust_ma_core.Doc.Signing.{verify-sign}
use rust_ma_core.Multiformat.{signature_multibase_encode}
use rust_ma_core.Msg.Crates.{MsgCrates}
use rust_ma_core.Msg.Signed.{Publishes}
use rust_ma_core.Identity.{GeneratedIdentity, HexLib, build_identity_from_keys}
use rust_ma_core.Identity.Generated.{
  str_eq-append, method_of, document_of, parsed_bare, parsed_url, validate-method_of, built,
  sign_fragment_valid, enc_fragment_valid,
}

module _ (crates : MsgCrates) (hex : HexLib) where
  open crates use {doc}
  open doc use {cids, multi, crypto}

  -- What a document of an identity is for: it belongs to the identifier, is valid and proved, and
  -- publishes the two keys.
  pub record IsWorking (ipns : Str) (sign_secret enc_secret : Bytes) (document : Document)
      : Type 0 where
    pub owner : document.id ≡ did_prefix ++ ipns
    pub validated : validate doc document ≡ ok tt
    pub proved : verify doc document ≡ ok tt
    pub signing : Publishes crates sign_secret document
    pub agreement :
        key_agreement_public_key_bytes doc document ≡ ok (crypto.x25519_public enc_secret)

  -- The identity's document works, and its secrets are handed over in hexadecimal digits.
  pub record IsComplete (ipns : Str) (sign_secret enc_secret : Bytes) (identity : GeneratedIdentity)
      : Type 0 where
    pub subject : identity.subject_url ≡ record { ipns = ipns; fragment = none }
    pub working : IsWorking ipns sign_secret enc_secret identity.document
    pub sign_secret_kept : hex.decode identity.signing_private_key_hex ≡ some sign_secret
    pub enc_secret_kept : hex.decode identity.encryption_private_key_hex ≡ some enc_secret

  module _ (ipns : Str) (did : Did) (sign_secret enc_secret : Bytes) where
    abbrev pub own_document : Str → Str → Option Ipld → Proof → Document
    own_document =
        document_of doc ipns (crypto.ed25519_public sign_secret) (crypto.x25519_public enc_secret)

    abbrev pub sign_vm : VerificationMethod
    sign_vm =
        method_of doc ipns (codes "sign") codec_ed25519_pub (crypto.ed25519_public sign_secret)

    abbrev pub own_proof : Bytes → Proof
    own_proof b =
        new_proof
          (signature_multibase_encode multi codec_eddsa_sig
            (sign_bytes doc (signing_key_from_bytes doc did sign_secret) (crypto.blake3_hash b)))
          sign_vm.id

    pub found_sign :
        find_method sign_vm.id (own_document [] [] none no_proof).verification_method ≡ some sign_vm
    unfolding find_method
    found_sign = rw (str_eq_refl sign_vm.id) refl

    found_enc :
        find_method
          (did_prefix ++ (ipns ++ codes "#enc"))
          (own_document [] [] none no_proof).verification_method
        ≡ some (method_of doc ipns (codes "enc") codec_x25519_pub (crypto.x25519_public enc_secret))
    unfolding find_method
    found_enc =
        rw (str_eq-append ipns (codes "#sign") (codes "#enc"), str_eq_refl (ipns ++ codes "#enc"))
          refl

    module _ (created updated : Str) (ma : Option Ipld) where
      agrees :
          (proof : Proof)
          → key_agreement_public_key_bytes doc (own_document created updated ma proof)
            ≡ ok (crypto.x25519_public enc_secret)
      unfolding key_agreement_public_key_bytes get_verification_method_by_id key_bytes
      agrees proof =
          rw
            (
              found_enc,
              (multibase_decode-encode_length multi codec_x25519_pub 31
                  (crypto.x25519_public enc_secret) (omega arith)
                  (crypto.x25519_public_length enc_secret)).0,
              crypto.x25519_public_length enc_secret,
            )
            refl

      validates :
          (proof : Proof)
          → validate_identifier cids ipns ≡ ok tt
          → is_valid_rfc3339_utc doc created ≡ true
          → is_valid_rfc3339_utc doc updated ≡ true
          → validate doc (own_document created updated ma proof) ≡ ok tt
      unfolding validate validate_controllers validate_methods validate_relationships
          validate_bare_did Did.try_from Did.validate_resource get_verification_method_by_id
      validates proof valid created_ok updated_ok =
          rw
            (
              parsed_bare doc ipns valid,
              created_ok,
              updated_ok,
              validate-method_of doc ipns (codes "sign") codec_ed25519_pub
                  (crypto.ed25519_public sign_secret) valid (sign_fragment_valid doc) (omega arith)
                  (crypto.ed25519_public_length sign_secret),
              validate-method_of doc ipns (codes "enc") codec_x25519_pub
                  (crypto.x25519_public enc_secret) valid (enc_fragment_valid doc) (omega arith)
                  (crypto.x25519_public_length enc_secret),
              parsed_url doc ipns (codes "sign") valid (sign_fragment_valid doc),
              found_sign,
              (multibase_decode-encode_length multi codec_ed25519_pub 31
                  (crypto.ed25519_public sign_secret) (omega arith)
                  (crypto.ed25519_public_length sign_secret)).0,
              parsed_url doc ipns (codes "enc") valid (enc_fragment_valid doc),
              found_enc,
              (multibase_decode-encode_length multi codec_x25519_pub 31
                  (crypto.x25519_public enc_secret) (omega arith)
                  (crypto.x25519_public_length enc_secret)).0,
            )
            refl

      -- Signing such a document with the identity's key succeeds as long as it can be serialised,
      -- and the result works.
      pub signed_works :
          (proof : Proof) (b : Bytes)
          → doc.to_vec (payload_document (own_document created updated ma proof)) ≡ ok b
          → validate_identifier cids ipns ≡ ok tt
          → is_valid_rfc3339_utc doc created ≡ true
          → is_valid_rfc3339_utc doc updated ≡ true
          → (sign doc
                (signing_key_from_bytes doc did sign_secret)
                sign_vm
                (own_document created updated ma proof)
              ≡ ok (own_document created updated ma (own_proof b)))
            × IsWorking ipns sign_secret enc_secret (own_document created updated ma (own_proof b))
      unfolding sign signing_key_from_bytes payload_hash payload_bytes encode
      signed_works proof b written valid created_ok updated_ok =
          let signed : sign doc (signing_key_from_bytes doc did sign_secret) sign_vm
                (own_document created updated ma proof)
              ≡ ok (own_document created updated ma (own_proof b)) =
            rw (str_eq_refl sign_vm.public_key_multibase, written) refl in
          (
            signed,
            record {
              owner = refl;
              validated = validates (own_proof b) valid created_ok updated_ok;
              proved =
                  verify-sign doc (own_document created updated ma proof)
                    (own_document created updated ma (own_proof b)) sign_vm did sign_secret signed
                    found_sign (rw (str_eq_refl sign_vm.id) refl);
              signing = record {
                did = did;
                vm = sign_vm;
                first = refl;
                found = found_sign;
                published = refl;
              };
              agreement = agrees (own_proof b);
            },
          )

    -- From an identifier that is valid, any two secrets and a clock that writes a valid time, an
    -- identity is built, as long as documents can be serialised: the document of its subject
    -- validates and verifies, publishes the key with which messages of its owner verify and the
    -- key with which envelopes are opened, and the two secrets can be read back.
    pub build_identity_from_keys-IsComplete :
        (now : Str) (enc_did : Did)
        → validate_identifier cids ipns ≡ ok tt
        → is_valid_rfc3339_utc doc now ≡ true
        → ((d : Document) → (b : Bytes) × (doc.to_vec d ≡ ok b))
        → (b : Bytes) × (identity : GeneratedIdentity) × (build_identity_from_keys doc hex ipns
              (signing_key_from_bytes doc did sign_secret)
              (encryption_key_from_bytes doc enc_did enc_secret)
              now
            ≡ ok identity)
          × IsComplete ipns sign_secret enc_secret identity
          × (identity.document ≡ own_document now now none (own_proof b))
    build_identity_from_keys-IsComplete now enc_did valid timed serializes =
        let (b, written) = serializes (payload_document (own_document now now none no_proof)) in
        let (signed, working) = signed_works now now none no_proof b written valid timed timed in
        (
          b,
          record {
            subject_url = record { ipns = ipns; fragment = none };
            document = own_document now now none (own_proof b);
            signing_private_key_hex = hex.encode sign_secret;
            encryption_private_key_hex = hex.encode enc_secret;
          },
          built doc hex ipns now did sign_secret enc_did enc_secret
              (own_document now now none (own_proof b)) valid signed,
          record {
            subject = refl;
            working = working;
            sign_secret_kept = hex.hex_round_trip sign_secret;
            enc_secret_kept = hex.hex_round_trip enc_secret;
          },
          refl,
        )
