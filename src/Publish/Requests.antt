-- ===== src/Publish/Requests.antt =====
-- What an accepted publish request of src/ipfs/publish.rs establishes.
use rust_ma_core.Common.{
  not, str_eq, str_eq_sound, ok, map_err, fail_if, ◌≡◌, subst, arith, >>=-eq-ok, >>-eq-ok,
  map_err-eq-ok, not-eq-ok,
}
use rust_ma_core.Did
use rust_ma_core.Did.{Did}
use rust_ma_core.Doc.Operations
use rust_ma_core.Doc.Proving
use rust_ma_core.Doc.Signing.{IsProved, verify-IsProved}
use rust_ma_core.Doc.Validity.{IsWellFormed, validate-IsWellFormed}
use rust_ma_core.Msg.Types.{Reading, Message}
use rust_ma_core.Msg.Crates.{MsgCrates, CborLib}
use rust_ma_core.Msg.Create
use rust_ma_core.Msg.Signed.{IsAuthentic, verify-IsAuthentic}
use rust_ma_core.Publish.{
  IdentityPublishRequest, IpfsStoreRequest, ValidatedIdentityPublish,
  message_type_identity_publish_request, validate_identity_publish_message,
}

module _ (crates : MsgCrates) (publish_cbor : CborLib IdentityPublishRequest)
    (store_cbor : CborLib IpfsStoreRequest) where
  open crates use {doc}
  open crates.doc use {cids}

  -- What is known of a request that may be published.
  pub record IsAuthorized (message : Message) (valid : ValidatedIdentityPublish) : Type 0 where
    pub sender : Did
    pub kind : message.message_type ≡ message_type_identity_publish_request
    pub content :
        publish_cbor.from_reader (Create.payload crates message)
        ≡ ok (record { document = valid.document_bytes; ipns_secret_key = valid.ipns_secret_key })
    pub decoded : Operations.decode doc valid.document_bytes ≡ ok valid.document
    pub well_formed : IsWellFormed doc valid.document
    pub proved : IsProved doc valid.document
    pub owner : Did.try_from cids valid.document.id ≡ ok valid.document_did
    pub from : Did.try_from cids message.from ≡ ok sender
    pub same : valid.document_did.ipns ≡ sender.ipns
    pub authentic : IsAuthentic crates message valid.document

  -- A publish request is accepted only with the document that its payload holds: that document is
  -- well formed and carries its own valid proof, it belongs to the identity that sent the request,
  -- and the request is signed with the key that this very document publishes for assertions.
  pub validate_identity_publish_message-IsAuthorized :
      (now : Reading) (message : Message) (valid : ValidatedIdentityPublish)
      → validate_identity_publish_message crates publish_cbor store_cbor now message ≡ ok valid
      → IsAuthorized message valid
  unfolding validate_identity_publish_message
  validate_identity_publish_message-IsAuthorized now message valid e =
      let (p1, h1) =
        >>-eq-ok
          (fail_if (not (str_eq message.message_type message_type_identity_publish_request)) _) _
          e in
      let (payload, p2, h2) =
        >>=-eq-ok (map_err _ (publish_cbor.from_reader (Create.payload crates message))) _ h1 in
      let (sender, p3, h3) = >>=-eq-ok (map_err _ (Did.try_from cids message.from)) _ h2 in
      let (document, p4, h4) =
        >>=-eq-ok (map_err _ (Operations.decode doc payload.document)) _ h3 in
      let (p5, h5) = >>-eq-ok (map_err _ (Proving.validate doc document)) _ h4 in
      let (p6, h6) = >>-eq-ok (map_err _ (Proving.verify doc document)) _ h5 in
      let (document_did, p7, h7) = >>=-eq-ok (map_err _ (Did.try_from cids document.id)) _ h6 in
      let (p8, h8) = >>-eq-ok (fail_if (not (str_eq document_did.ipns sender.ipns)) _) _ h7 in
      let (p9, h9) =
        >>-eq-ok (map_err _ (Create.verify_with_document crates now message document)) _ h8 in
      let made : record {
        document_bytes = payload.document;
        ipns_secret_key = payload.ipns_secret_key;
        document = document;
        document_did = document_did;
      }
          ≡ valid =
        ground (arith, h9) in
      subst (IsAuthorized message) made (record {
        sender = sender;
        kind = str_eq_sound _ _ (not-eq-ok _ _ p1);
        content = map_err-eq-ok _ _ p2;
        decoded = map_err-eq-ok _ _ p4;
        well_formed = validate-IsWellFormed doc document (map_err-eq-ok _ _ p5);
        proved = verify-IsProved doc document (map_err-eq-ok _ _ p6);
        owner = map_err-eq-ok _ _ p7;
        from = map_err-eq-ok _ _ p3;
        same = str_eq_sound _ _ (not-eq-ok _ _ p8);
        authentic = (verify-IsAuthentic crates now message document (map_err-eq-ok _ _ p9)).0;
      })
