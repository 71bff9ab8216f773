-- ===== src/Publish.antt =====
-- src/ipfs/publish.rs: key names, and the requests that ask a node to publish a document or to store
-- content. The errors are texts in the source; here the constructor is the step that failed.
pub mod Names
pub mod Node
pub mod Published
pub mod Replication
pub mod Requests
pub mod Tests
use rust_ma_core.Common.{
  ℕ, Str, Bytes, codes, Bool, true, false, not, ◌&&◌, ◌||◌, ◌==◌, is_ascii_alphanumeric,
  to_ascii_lowercase, is_empty, str_eq, none, some, Option, List, [], ◌∷◌, ◌++◌, Result, ok, err,
  map_err, fail_if, ◌>>=◌, ◌>>◌, if◌then◌else◌,
}
use rust_ma_core.Error.{MaError}
use rust_ma_core.Did
use rust_ma_core.Did.{Did}
use rust_ma_core.Doc.Types.{Document, Ipld, Fields, SigningKey, text}
use rust_ma_core.Doc.Extension.{get}
use rust_ma_core.Doc.Operations
use rust_ma_core.Doc.Proving
use rust_ma_core.Msg.Types.{Reading, Message}
use rust_ma_core.Msg.Crates.{MsgCrates, CborLib}
use rust_ma_core.Msg.Create

abbrev pub message_type_identity_publish_request : Str
message_type_identity_publish_request = codes "application/vnd.ma.identity.publish.request"

abbrev pub message_type_ipfs_request : Str
message_type_ipfs_request = codes "application/vnd.ma.ipfs.request"

pub record IdentityPublishRequest : Type 0 where
  pub document : Bytes
  pub ipns_secret_key : Bytes

pub record IpfsStoreRequest : Type 0 where
  pub content : Bytes
  pub content_type : Str

pub record ValidatedIdentityPublish : Type 0 where
  pub document_bytes : Bytes
  pub ipns_secret_key : Bytes
  pub document : Document
  pub document_did : Did

pub record ValidatedIpfsStore : Type 0 where
  pub content : Bytes
  pub content_type : Str
  pub sender_did : Str
  pub msg_id : Str

pub data PublishError : Type 0 where
  unexpected_type : Str → PublishError
  encode_failed payload_failed : Str → PublishError
  invalid_message invalid_sender invalid_bytes invalid_document unproved_document :
      MaError → PublishError
  invalid_document_did unsigned_request creation_failed : MaError → PublishError
  ipns_mismatch : Str → Str → PublishError

abbrev pub is_separator : ℕ → Bool
is_separator ch = ch == b'-' || ch == b'_'

-- The loop of `sanitize_key_part`. A character outside ASCII has several bytes; all but the first
-- meet a separator and change nothing.
unfoldable pub sanitize_loop : Str → Bool → Str → Str
sanitize_loop sanitized last_was_separator [] = sanitized
sanitize_loop sanitized last_was_separator (ch ∷ rest) =
    let pushed = sanitize_loop (sanitized ++ to_ascii_lowercase ch ∷ []) false rest in
    let kept = sanitize_loop (sanitized ++ ch ∷ []) true rest in
    let dashed = sanitize_loop (sanitized ++ b'-' ∷ []) true rest in
    let skipped = sanitize_loop sanitized last_was_separator rest in
    if is_ascii_alphanumeric ch
    then pushed
    else if last_was_separator || is_empty sanitized
    then skipped
    else if is_separator ch
    then kept
    else dashed

-- Drops a separator that would end the text.
abbrev pub cons_kept : ℕ → Str → Str
cons_kept c [] = if is_separator c then [] else c ∷ []
cons_kept c (d ∷ s) = c ∷ d ∷ s

-- `while sanitized.ends_with(['-', '_'])`, the pop.
unfoldable pub pop_separators : Str → Str
pop_separators [] = []
pop_separators (c ∷ s) = cons_kept c (pop_separators s)

abbrev pub or_unknown : Str → Str
or_unknown [] = codes "unknown"
or_unknown (c ∷ s) = c ∷ s

unfoldable pub sanitize_key_part : Str → Str
unfolding sanitize_loop pop_separators
sanitize_key_part part = or_unknown (pop_separators (sanitize_loop [] false part))

abbrev kind_of : Option Ipld → Str
kind_of none = codes "unknown"
kind_of (some (Ipld.text kind)) = kind
kind_of (some value) = codes "unknown"

abbrev kind_of_ma : Option Ipld → Str
kind_of_ma none = codes "unknown"
kind_of_ma (some (Ipld.map fields)) = kind_of (get (codes "type") fields)
kind_of_ma (some value) = codes "unknown"

unfoldable pub document_ma_type : Document → Str
unfolding get
document_ma_type document = kind_of_ma document.ma

module _ (crates : MsgCrates) (publish_cbor : CborLib IdentityPublishRequest)
    (store_cbor : CborLib IpfsStoreRequest) where
  open crates use {doc}
  open crates.doc use {cids}

  unfoldable pub generate_identity_publish_request : Document → Bytes → Result PublishError Bytes
  generate_identity_publish_request did_document ipns_secret_key = do
    document_bytes ← map_err invalid_bytes (Operations.encode doc did_document)
    map_err encode_failed (
        publish_cbor.into_writer
          (record { document = document_bytes; ipns_secret_key = ipns_secret_key }))

  -- The first four arguments are those of `Message::new`.
  unfoldable pub generate_ipfs_store_request :
      Str
      → Reading
      → Reading
      → Reading
      → Str
      → Str
      → Bytes
      → Str
      → SigningKey
      → Result PublishError Message
  generate_ipfs_store_request id start created checked sender_did publisher_did content content_type
        signing_key =
      do
        payload ←
            map_err encode_failed
              (store_cbor.into_writer (record { content = content; content_type = content_type }))
        map_err creation_failed (
            Create.new crates id start created checked sender_did publisher_did
              message_type_ipfs_request (codes "application/cbor") payload signing_key)

  unfoldable pub validate_identity_publish_message :
      Reading → Message → Result PublishError ValidatedIdentityPublish
  validate_identity_publish_message reading message = do
    fail_if (not (str_eq message.message_type message_type_identity_publish_request))
        (unexpected_type message.message_type)
    payload ← map_err payload_failed (publish_cbor.from_reader (Create.payload crates message))
    sender_did ← map_err invalid_sender (Did.try_from cids message.from)
    document ← map_err invalid_bytes (Operations.decode doc payload.document)
    map_err invalid_document (Proving.validate doc document)
    map_err unproved_document (Proving.verify doc document)
    document_did ← map_err invalid_document_did (Did.try_from cids document.id)
    fail_if (not (str_eq document_did.ipns sender_did.ipns))
        (ipns_mismatch sender_did.ipns document_did.ipns)
    map_err unsigned_request (Create.verify_with_document crates reading message document)
    ok (record {
      document_bytes = payload.document;
      ipns_secret_key = payload.ipns_secret_key;
      document = document;
      document_did = document_did;
    })

  unfoldable pub validate_identity_publish_request :
      Reading → Bytes → Result PublishError ValidatedIdentityPublish
  unfolding validate_identity_publish_message
  validate_identity_publish_request reading message_cbor = do
    message ← map_err invalid_message (Create.decode crates message_cbor)
    validate_identity_publish_message reading message

  unfoldable pub validate_ipfs_request : Message → Result PublishError ValidatedIpfsStore
  validate_ipfs_request message = do
    fail_if (not (str_eq message.message_type message_type_ipfs_request))
        (unexpected_type message.message_type)
    payload ← map_err payload_failed (store_cbor.from_reader (Create.payload crates message))
    ok (record {
      content = payload.content;
      content_type = payload.content_type;
      sender_did = message.from;
      msg_id = message.id;
    })
