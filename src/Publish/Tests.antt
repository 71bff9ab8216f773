-- ===== src/Publish/Tests.antt =====
-- The theorems on src/ipfs/publish.rs at a concrete request, over the toy crates.
use rust_ma_core.Common.{
  Str, Bytes, codes, none, some, true, [], ◌∷◌, Result, ok, ◌>>=◌, ◌≡◌, refl, trim,
}
use rust_ma_core.External.Crypto.{pad}
use rust_ma_core.Did
use rust_ma_core.Did.{Did}
use rust_ma_core.Multiformat.{public_key_multibase_decode, signature_multibase_decode}
use rust_ma_core.Doc.Crates.{DocCrates, toy_doc_crates}
use rust_ma_core.Doc.Method.{validate_method, validate_bare_did, is_empty_proof, new_proof}
use rust_ma_core.Doc.Operations
use rust_ma_core.Doc.Proving
use rust_ma_core.Doc.Tests.{alice, alice_id, secret, signed}
use rust_ma_core.Msg.Types.{Headers, Message}
use rust_ma_core.Msg.Crates.{
  MsgCrates, CborLib, toy_msg_crates, write, read, read_rest-append, part, writer, written,
  write_headers,
}
use rust_ma_core.Msg.Check
use rust_ma_core.Msg.Create
use rust_ma_core.Publish.{
  IdentityPublishRequest, IpfsStoreRequest, ValidatedIdentityPublish,
  validate_identity_publish_message, sanitize_key_part,
}
use rust_ma_core.Identity.Tests.{toy_hex}
use rust_ma_core.Pinning
use rust_ma_core.Pinning.{Request, schedule}
use rust_ma_core.Kubo.{History}
use rust_ma_core.Kubo.Tests.{slow}
use rust_ma_core.Kubo.Tests.{options as name_options}
use rust_ma_core.Publish.Replication.{DidDocumentPublishOptions, replicated}
use rust_ma_core.Publish.Node.{
  PublishedDidDocument, ipns_key_name_for_parts, publish_did_document_to_kubo,
}
use rust_ma_core.Publish.Published.{IsPublished, publish_did_document_to_kubo-IsPublished}
use rust_ma_core.Publish.Requests.{IsAuthorized, validate_identity_publish_message-IsAuthorized}

sanitize_test : sanitize_key_part (codes "--My Site!? v2__") ≡ codes "my-site-v2"
unfolding sanitize_key_part
sanitize_test = refl

-- Every document is read as the signed one.
abbrev doc_crates : DocCrates
doc_crates = record toy_doc_crates { from_slice = λ b. ok signed }

abbrev crates : MsgCrates
crates = record toy_msg_crates { doc = doc_crates }

abbrev write_request : IdentityPublishRequest → Bytes
write_request r = write r.document (write r.ipns_secret_key [])

abbrev read_request : Bytes → Result Str IdentityPublishRequest
read_request b = do
  (document, b1) ← part (read b)
  (key, b2) ← part (read b1)
  ok (record { document = document; ipns_secret_key = key })

read_request-write_request : (r : IdentityPublishRequest) → read_request (write_request r) ≡ ok r
read_request-write_request r =
    rw (read_rest-append r.document, read_rest-append r.ipns_secret_key) refl

abbrev publish_cbor : CborLib IdentityPublishRequest
publish_cbor = record {
  into_writer = writer write_request;
  from_reader = read_request;
  cbor_round_trip = written write_request read_request read_request-write_request;
}

abbrev write_store : IpfsStoreRequest → Bytes
write_store r = write r.content (write r.content_type [])

abbrev read_store : Bytes → Result Str IpfsStoreRequest
read_store b = do
  (content, b1) ← part (read b)
  (content_type, b2) ← part (read b1)
  ok (record { content = content; content_type = content_type })

read_store-write_store : (r : IpfsStoreRequest) → read_store (write_store r) ≡ ok r
read_store-write_store r = rw (read_rest-append r.content, read_rest-append r.content_type) refl

abbrev store_cbor : CborLib IpfsStoreRequest
store_cbor = record {
  into_writer = writer write_store;
  from_reader = read_store;
  cbor_round_trip = written write_store read_store read_store-write_store;
}

abbrev content : Bytes
content = 0x51 ∷ write_request (record { document = codes "doc"; ipns_secret_key = secret })

abbrev unsigned_request : Headers
unsigned_request = record {
  id = codes "m2";
  protocol = codes "/ma/0.0.1";
  message_type = codes "application/vnd.ma.identity.publish.request";
  from = alice_id;
  to = alice_id;
  created_at = 1000;
  exp = 4600;
  content_type = codes "application/cbor";
  reply_to = none;
  content_hash = pad 32 content;
  signature = [];
}

abbrev request : Message
request = record {
  id = codes "m2";
  protocol = codes "/ma/0.0.1";
  message_type = codes "application/vnd.ma.identity.publish.request";
  from = alice_id;
  to = alice_id;
  created_at = 1000;
  exp = 4600;
  content_type = codes "application/cbor";
  reply_to = none;
  content = content;
  signature = pad 64 (write_headers unsigned_request);
}

abbrev published : ValidatedIdentityPublish
published = record {
  document_bytes = codes "doc";
  ipns_secret_key = secret;
  document = signed;
  document_did = alice;
}

payload_read :
    Create.payload crates request
    ≡ write_request (record { document = codes "doc"; ipns_secret_key = secret })
unfolding Create.payload
payload_read = refl

is_alice : Did.try_from doc_crates.cids alice_id ≡ ok alice
unfolding Did.try_from Did.parse Did.validate_identifier Did.validate_fragment
is_alice = refl

is_decoded : Operations.decode doc_crates (codes "doc") ≡ ok signed
unfolding Operations.decode
is_decoded = refl

is_valid : Proving.validate doc_crates signed ≡ ok tt
unfolding Proving.validate validate_method Proving.is_valid_rfc3339_utc validate_bare_did
    Operations.find_method Did.validate_resource Did.try_from Did.parse Did.validate_identifier
    Did.validate_fragment public_key_multibase_decode Operations.get_verification_method_by_id
is_valid = refl

is_proved : Proving.verify doc_crates signed ≡ ok tt
unfolding Proving.verify new_proof is_empty_proof signature_multibase_decode
    public_key_multibase_decode Proving.verifying_key_for_method
    Operations.get_verification_method_by_id Proving.payload_hash
is_proved = refl

headers_valid : Check.validate doc_crates.cids (ok 1100) (Create.headers crates request) ≡ ok tt
unfolding Check.validate Check.validate_protocol trim Create.headers Did.validate Did.validate_url
    Did.parse Did.validate_identifier Did.validate_fragment
headers_valid = refl

key_found : Proving.assertion_method_public_key doc_crates signed ≡ ok (pad 32 secret)
unfolding Proving.assertion_method_public_key Operations.get_verification_method_by_id
    public_key_multibase_decode
key_found = refl

is_authentic : Create.verify_with_document crates (ok 1100) request signed ≡ ok tt
unfolding Create.verify_with_document Did.base_id Create.unsigned_headers_cbor Create.to_cbor
is_authentic = rw (is_alice, headers_valid, key_found) refl

is_accepted :
    validate_identity_publish_message crates publish_cbor store_cbor (ok 1100) request
    ≡ ok published
unfolding validate_identity_publish_message
is_accepted =
    rw (payload_read, is_alice, is_decoded, is_valid, is_proved, is_alice, is_authentic) refl

validate_identity_publish_message-IsAuthorized_example :
    IsAuthorized crates publish_cbor store_cbor request published
validate_identity_publish_message-IsAuthorized_example =
    validate_identity_publish_message-IsAuthorized crates publish_cbor store_cbor (ok 1100) request
      published is_accepted

abbrev options : DidDocumentPublishOptions
options = record {
  key_parts = [];
  ipns = name_options;
  attempts = 3;
  initial_backoff = 1000000000;
  remote_pin = some (record { service = codes "remote"; name = codes "site" });
  overwrite = true;
}

abbrev site_request : Request
site_request = record {
  kubo_url = codes "url";
  name = codes "site";
  protected_cid = codes "bafy";
  cleanup_local = true;
  remote_service = some (codes "remote");
}

abbrev outcome : PublishedDidDocument
outcome = record {
  cid = codes "bafy";
  key_name = ipns_key_name_for_parts doc_crates toy_hex (codes "unknown" ∷ []) (codes "k51");
  ipns_id = codes "k51";
  local_pinned = true;
  cleanup_scheduled = true;
  remote_pin = some (replicated true);
}

abbrev protobuf : Bytes → Result Str Bytes
protobuf b = ok b

abbrev end : History
end =
    (publish_did_document_to_kubo doc_crates toy_hex protobuf slow (codes "url") true Pinning.new []
      (pad 32 secret) options []).0

is_published :
    publish_did_document_to_kubo doc_crates toy_hex protobuf slow
      (codes "url")
      true
      Pinning.new
      []
      (pad 32 secret)
      options
      []
    ≡ (end, ok (outcome, (schedule true site_request Pinning.new).1))
unfolding publish_did_document_to_kubo Operations.decode Did.try_from Did.parse
    Did.validate_identifier rust_ma_core.Kubo.Keys.import_key rust_ma_core.Kubo.Keys.key_of
    Pinning.new
is_published = refl

publish_did_document_to_kubo-IsPublished_example :
    IsPublished slow doc_crates toy_hex protobuf [] options outcome
publish_did_document_to_kubo-IsPublished_example =
    publish_did_document_to_kubo-IsPublished slow doc_crates toy_hex protobuf (codes "url") true
      Pinning.new [] (pad 32 secret) options [] end outcome
      ((schedule true site_request Pinning.new).1) is_published
