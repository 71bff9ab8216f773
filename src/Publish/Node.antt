-- ===== src/Publish/Node.antt =====
-- src/ipfs/publish.rs: publishing a document through a Kubo node, and its replication on a remote pin
-- service. Each outcome of the cleanup worker's `try_send` is the argument `sent`.
use rust_ma_core.Common.{
  ◌==◌, Str, Bytes, codes, Bool, true, false, is_empty, length, str_eq, trim, take, map, join,
  Option, none, some, List, [], ◌∷◌, ◌++◌, Result, ok, err, map_err, fail_if, ensure, ◌>>=◌, ◌>>◌,
}
use rust_ma_core.Error.{MaError}
use rust_ma_core.Did
use rust_ma_core.Did.{Did}
use rust_ma_core.Doc.Crates.{DocCrates}
use rust_ma_core.Doc.Operations
use rust_ma_core.Identity.{HexLib}
use rust_ma_core.Pinning.{Scheduler}
use rust_ma_core.Publish.{sanitize_key_part, document_ma_type}
use rust_ma_core.Kubo.{
  History, Node, KuboError, asked_dag_put, asked_pin, refused, name_publish_with_retry,
}
use rust_ma_core.Kubo.Keys.{KuboKey, list_keys, import_key, find_key}
use rust_ma_core.Publish.Replication.{
  RemotePinStatus, DidDocumentPublishOptions, pin_name_of, add_name,
  confirm_pins_and_schedule_cleanup,
}

pub record PublishedDidDocument : Type 0 where
  pub cid : Str
  pub key_name : Str
  pub ipns_id : Str
  pub local_pinned : Bool
  pub cleanup_scheduled : Bool
  pub remote_pin : Option RemotePinStatus

pub data PublishFailure : Type 0 where
  invalid_document : MaError → PublishFailure
  invalid_did : Str → MaError → PublishFailure
  key_mismatch : Str → Str → Str → PublishFailure
  key_required key_size : PublishFailure
  invalid_key : Str → PublishFailure
  import_mismatch : Str → Str → PublishFailure
  failed : KuboError → PublishFailure

abbrev unknown_if_none : List Str → List Str
unknown_if_none [] = codes "unknown" ∷ []
unknown_if_none (p ∷ parts) = map sanitize_key_part (p ∷ parts)

abbrev or_kind : Str → List Str → List Str
or_kind kind [] = kind ∷ []
or_kind kind (p ∷ parts) = p ∷ parts

module _ (node : Node) where
  unfoldable pub put_document : Bytes → History → History × Result KuboError Str
  put_document bytes h =
      (asked_dag_put bytes false ∷ h, map_err refused (node.dag_put_cbor bytes false h))

  unfoldable pub pin_document : Str → Str → History → History × Result KuboError (Unit {0})
  pin_document cid name h =
      (asked_pin cid name ∷ h, map_err refused (node.pin_add_named cid name h))

-- `?` on a step that talks to the node.
abbrev pub next :
    {A B E F : Type 0}
    → (F → E)
    → History × Result F A
    → (A → History → History × Result E B)
    → History × Result E B
next failing (h, ok a) rest = rest a h
next failing (h, err e) rest = (h, err (failing e))

module _ (crates : DocCrates) (hex : HexLib) where
  open crates use {cids, crypto}

  unfoldable pub ipns_key_name_for_parts : List Str → Str → Str
  unfolding sanitize_key_part
  ipns_key_name_for_parts parts ipns_id =
      let hash = hex.encode (crypto.blake3_hash ipns_id) in
      codes "ma-" ++ (join b'-' (unknown_if_none parts) ++ (codes "-" ++ take 16 hash))

  -- The identity of the document and the name of its key.
  unfoldable pub prepare : Bytes → DidDocumentPublishOptions → Result PublishFailure (Did × Str)
  unfolding ipns_key_name_for_parts document_ma_type
  prepare did_document options = do
    document ← map_err invalid_document (Operations.decode crates did_document)
    document_did ← map_err (invalid_did document.id) (Did.try_from cids document.id)
    let key_parts : List Str = or_kind (document_ma_type document) options.key_parts
    ok (document_did, ipns_key_name_for_parts key_parts document_did.ipns)

  -- `keypair_protobuf` is `Keypair::ed25519_from_bytes` and `to_protobuf_encoding` of the crate
  -- `libp2p_identity`.
  module _ (keypair_protobuf : Bytes → Result Str Bytes) (node : Node) where
    unfoldable pub protobuf_key : Bytes → Result PublishFailure Bytes
    protobuf_key ipns_private_key = do
      fail_if (is_empty ipns_private_key) key_required
      ensure (length ipns_private_key == 32) key_size
      map_err invalid_key (keypair_protobuf ipns_private_key)

    unfoldable pub check_imported : Str → KuboKey → Result PublishFailure (Unit {0})
    unfolding trim
    check_imported ipns_id key =
        ensure (str_eq (trim key.id) ipns_id) (import_mismatch key.id ipns_id)

    -- The key that is there has to be that of the document; a key that is not there is imported.
    unfoldable pub use_key :
        Str → Str → Bytes → Option KuboKey → History → History × Result PublishFailure (Unit {0})
    unfolding protobuf_key check_imported trim
    use_key key_name ipns_id ipns_private_key (some existing) h =
        (h, ensure (str_eq (trim existing.id) ipns_id) (key_mismatch key_name existing.id ipns_id))
    use_key key_name ipns_id ipns_private_key none h =
        next (λ e. e) (h, protobuf_key ipns_private_key)
          (λ bytes h1.
            next failed (import_key node key_name bytes h1)
              (λ key h2. (h2, check_imported ipns_id key)))

    unfoldable pub publish_did_document_to_kubo :
        Str
        → Bool
        → Scheduler
        → Bytes
        → Bytes
        → DidDocumentPublishOptions
        → History
        → History × Result PublishFailure (PublishedDidDocument × Scheduler)
    unfolding prepare list_keys use_key put_document pin_document add_name name_publish_with_retry
        confirm_pins_and_schedule_cleanup
    publish_did_document_to_kubo kubo_url sent cleanup did_document ipns_private_key options h =
        next (λ e. e) (h, prepare did_document options)
          (λ prepared h0.
            let did : Did = prepared.0 in
            let key_name : Str = prepared.1 in
            next failed (list_keys node h0) (λ keys h1.
              next (λ e. e) (use_key key_name did.ipns ipns_private_key (find_key key_name keys) h1)
                (λ used h2.
                  let pin_name : Str = pin_name_of key_name options.remote_pin in
                  next failed (put_document node did_document h2) (λ cid h3.
                    next failed (pin_document node cid (add_name options.overwrite pin_name) h3)
                      (λ done h4.
                        next failed
                          (name_publish_with_retry node key_name did.ipns cid options.ipns
                            options.attempts options.initial_backoff h4)
                          (λ value h5.
                            let (end, (scheduler, (scheduled, status))) =
                              confirm_pins_and_schedule_cleanup node kubo_url sent cleanup pin_name
                                cid options h5 in
                            let published : PublishedDidDocument = record {
                              cid = cid;
                              key_name = key_name;
                              ipns_id = did.ipns;
                              local_pinned = true;
                              cleanup_scheduled = scheduled;
                              remote_pin = status;
                            } in
                            (end, ok (published, scheduler))))))))
