-- ===== src/Secrets/Identities.antt =====
-- The identity of a bundle of src/config/secrets.rs and its documents work.
use rust_ma_core.Common.{Str, Bytes, codes, true, Option, none, some, [], ok, ap, subst, ◌≡◌, refl}
use rust_ma_core.Error.{MaError, Error}
use rust_ma_core.Did
use rust_ma_core.Did.{Did, validate_identifier, validate_fragment}
use rust_ma_core.Doc.Types.{Document, Ipld, Fields, end, field, map}
use rust_ma_core.Doc.Extension.{
  MaExtension, set_ma_extension, ma_field, get, ma_field-set_ma_extension,
}
use rust_ma_core.Doc.Method.{signing_key_from_bytes}
use rust_ma_core.Doc.Operations.{get_verification_method_by_id, touch}
use rust_ma_core.Doc.Proving.{payload_document, is_valid_rfc3339_utc}
use rust_ma_core.Msg.Crates.{MsgCrates}
use rust_ma_core.Identity.{GeneratedIdentity, HexLib, PeerLib, ipns_from_secret}
use rust_ma_core.Identity.Generated.{sign_fragment_valid, enc_fragment_valid}
use rust_ma_core.Identity.Complete.{
  IsWorking, own_document, own_proof, found_sign, sign_vm, signed_works,
  build_identity_from_keys-IsComplete,
}
use rust_ma_core.Identity.Derived.{derived_valid}
use rust_ma_core.Secrets.{SecretBundle}
use rust_ma_core.Secrets.Documents.{signing_key, encryption_key, generate_identity, build_document}

module _ (crates : MsgCrates) (hex : HexLib) (peers : PeerLib crates.doc.cids)
    (display : Error → Str) (display_ma : MaError → Str) (bundle : SecretBundle) where
  open crates use {doc}
  open doc use {cids}
  open cids use {Multihash, base36_encode, to_bytes}
  open peers use {keypair_multihash, new_v1}

  module _ (h : Multihash) (made : keypair_multihash bundle.ipns_secret_key ≡ some h) where
    abbrev ipns : Str
    ipns = base36_encode (to_bytes (new_v1 Did.libp2p_key_codec h))

    abbrev sign_did : Did
    sign_did = record { ipns = ipns; fragment = some (codes "sign") }

    abbrev enc_did : Did
    enc_did = record { ipns = ipns; fragment = some (codes "enc") }

    valid : validate_identifier cids ipns ≡ ok tt
    valid = derived_valid crates hex peers bundle.ipns_secret_key h made

    derived : ipns_from_secret doc hex peers bundle.ipns_secret_key ≡ ok ipns
    unfolding ipns_from_secret
    derived = rw made refl

    sign_url : Did.new_url cids ipns (some (codes "sign")) [] ≡ ok sign_did
    unfolding Did.new_url
    sign_url = rw (valid, sign_fragment_valid doc) refl

    enc_url : Did.new_url cids ipns (some (codes "enc")) [] ≡ ok enc_did
    unfolding Did.new_url
    enc_url = rw (valid, enc_fragment_valid doc) refl

    -- The documents of the bundle, by their times, extension and signed bytes.
    abbrev of_bundle : Str → Option Ipld → Bytes → Document
    of_bundle updated ma b =
        own_document crates hex ipns sign_did bundle.did_signing_key bundle.did_encryption_key
          bundle.created_at updated ma
          (own_proof crates hex ipns sign_did bundle.did_signing_key bundle.did_encryption_key b)

    found :
        (updated : Str) (ma : Option Ipld) (b : Bytes)
        → get_verification_method_by_id
            (of_bundle updated ma b)
            (sign_vm crates hex ipns sign_did bundle.did_signing_key bundle.did_encryption_key).id
          ≡ ok (sign_vm crates hex ipns sign_did bundle.did_signing_key bundle.did_encryption_key)
    unfolding get_verification_method_by_id
    found updated ma b =
        rw (found_sign crates hex ipns sign_did bundle.did_signing_key bundle.did_encryption_key)
          refl

    generated :
        (now : Str)
        → is_valid_rfc3339_utc doc now ≡ true
        → is_valid_rfc3339_utc doc bundle.created_at ≡ true
        → ((d : Document) → (b : Bytes) × (doc.to_vec d ≡ ok b))
        → (b : Bytes) × (identity : GeneratedIdentity) × (generate_identity doc hex peers display
              display_ma now bundle
            ≡ ok identity)
          × (identity.document ≡ of_bundle now none b)
          × IsWorking crates hex ipns bundle.did_signing_key bundle.did_encryption_key
              identity.document
    unfolding generate_identity encryption_key
    generated now now_ok created_ok serializes =
        let (first, identity, built, complete, same) =
          build_identity_from_keys-IsComplete crates hex ipns sign_did bundle.did_signing_key
            bundle.did_encryption_key now enc_did valid now_ok serializes in
        let draft = of_bundle now none first in
        let (b, written) = serializes (payload_document draft) in
        let (signed, working) =
          signed_works crates hex ipns sign_did bundle.did_signing_key bundle.did_encryption_key
            bundle.created_at now none draft.proof b written valid created_ok now_ok in
        (
          b,
          record identity { document = of_bundle now none b },
          rw (derived, sign_url, enc_url, built, same, found now none first, signed) refl,
          refl,
          working,
        )

    -- A bundle gives one identity: its identifier is derived from the bundle's secret, its keys are
    -- the bundle's, its document works and keeps the bundle's time of creation. The time of its
    -- last update is the time of the call.
    pub generate_identity-IsWorking :
        (now : Str)
        → is_valid_rfc3339_utc doc now ≡ true
        → is_valid_rfc3339_utc doc bundle.created_at ≡ true
        → ((d : Document) → (b : Bytes) × (doc.to_vec d ≡ ok b))
        → (identity : GeneratedIdentity) × (generate_identity doc hex peers display display_ma now
              bundle
            ≡ ok identity)
          × IsWorking crates hex ipns bundle.did_signing_key bundle.did_encryption_key
              identity.document
          × (identity.document.created_at ≡ bundle.created_at)
          × (identity.document.updated_at ≡ now)
    generate_identity-IsWorking now now_ok created_ok serializes =
        let (b, identity, made_identity, same, working) =
          generated now now_ok created_ok serializes in
        (identity, made_identity, working, ap (λ d. d.created_at) same, ap (λ d. d.updated_at) same)

    extended :
        (ext : MaExtension) (d : Document)
        → (ma : Option Ipld) × (set_ma_extension ext d ≡ record d { ma = ma })
    unfolding set_ma_extension
    extended ext d = go ext.fields
      where
        go :
            (fields : Fields)
            → (ma : Option Ipld) × (set_ma_extension (record { fields = fields }) d
                ≡ record d { ma = ma })
        go end = (none, refl)
        go (field k v rest) = (some (map (field k v rest)), refl)

    -- A bundle builds a document if its IPNS secret is a key, both readings of the clock and the
    -- bundle's time of creation are valid UTC times, and every document is serialised. The document
    -- works, shows exactly the fields of the extension, keeps the bundle's time of creation and has
    -- the second reading of the clock as its last update; the bundle's signing key is made of its
    -- secret for the `#sign` identifier.
    pub build_document-IsWorking :
        (now touched : Str) (ext : MaExtension)
        → is_valid_rfc3339_utc doc now ≡ true
        → is_valid_rfc3339_utc doc touched ≡ true
        → is_valid_rfc3339_utc doc bundle.created_at ≡ true
        → ((d : Document) → (b : Bytes) × (doc.to_vec d ≡ ok b))
        → (document : Document) × (build_document doc hex peers display display_ma now touched ext
              bundle
            ≡ ok document)
          × IsWorking crates hex ipns bundle.did_signing_key bundle.did_encryption_key document
          × ((key : Str) → ma_field key document ≡ get key ext.fields)
          × (document.created_at ≡ bundle.created_at)
          × (document.updated_at ≡ touched)
          × (signing_key doc hex peers display display_ma bundle
              ≡ ok (signing_key_from_bytes doc sign_did bundle.did_signing_key))
    unfolding build_document signing_key touch
    build_document-IsWorking now touched ext now_ok touched_ok created_ok serializes =
        let (first, identity, made_identity, same, working) =
          generated now now_ok created_ok serializes in
        let (ma, with_ma) = extended ext (of_bundle now none first) in
        let draft =
          own_document crates hex ipns sign_did bundle.did_signing_key bundle.did_encryption_key
            bundle.created_at touched ma
            (own_proof crates hex ipns sign_did bundle.did_signing_key bundle.did_encryption_key
              first) in
        let (b, written) = serializes (payload_document draft) in
        let (signed, works) =
          signed_works crates hex ipns sign_did bundle.did_signing_key bundle.did_encryption_key
            bundle.created_at touched ma draft.proof b written valid created_ok touched_ok in
        (
          of_bundle touched ma b,
          rw (made_identity, derived, sign_url, same, found now none first, with_ma, signed) refl,
          works,
          λ key.
              subst
                (λ d.
                  ma_field key (record (of_bundle touched ma b) { ma = d.ma }) ≡ get key ext.fields)
                with_ma (ma_field-set_ma_extension key ext (of_bundle now none first)),
          refl,
          refl,
          rw (derived, sign_url) refl,
        )
