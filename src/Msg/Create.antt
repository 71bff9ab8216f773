-- ===== src/Msg/Create.antt =====
-- `Message` of src/msg.rs: creation, signing and verification. A generated id and the clock's
-- readings are arguments, one reading for each call of the clock, in the order of the calls.
use rust_ma_core.Common.{
  ℕ, Str, Bytes, codes, not, str_eq, is_empty, none, some, [], ok, err, ok_or, map_err, fail_if,
  ensure, ◌>>=◌, ◌>>◌, if◌then◌else◌,
}
use rust_ma_core.Error.{
  MaResult, missing_content, missing_sender, missing_signature, invalid_recipient,
  invalid_message_signature, cbor_encode, cbor_decode,
}
use rust_ma_core.Did
use rust_ma_core.Multiformat.{
  codec_identity, codec_cbor, codec_dag_cbor, multicodec_encode, multicodec_decode,
}
use rust_ma_core.Doc.Types.{Document, SigningKey}
use rust_ma_core.Doc.Method.{sign_bytes}
use rust_ma_core.Doc.Proving.{assertion_method_public_key}
use rust_ma_core.Msg.Types.{
  Reading, Headers, Message, MessageOptions, default_protocol, default_message_ttl_secs,
}
use rust_ma_core.Msg.Crates.{MsgCrates}
use rust_ma_core.Msg.Check.{add_u64, validate}

unfoldable pub codec_for : Str → ℕ
codec_for content_type =
    if str_eq content_type (codes "application/vnd.ipld.dag-cbor")
    then codec_dag_cbor
    else if str_eq content_type (codes "application/cbor")
    then codec_cbor
    else if str_eq content_type (codes "application/vnd.ma.term")
    then codec_cbor
    else codec_identity

unfoldable pub validate_content : Message → MaResult (Unit {0})
validate_content message = fail_if (is_empty message.content) missing_content

module _ (crates : MsgCrates) where
  open crates use {doc, headers_cbor, message_cbor}
  open crates.doc use {cids, multi, crypto}

  unfoldable pub encode_content : ℕ → Bytes → Bytes
  unfolding multicodec_encode
  encode_content codec payload = multicodec_encode multi codec payload

  unfoldable pub decode_content : Bytes → MaResult (ℕ × Bytes)
  unfolding multicodec_decode
  decode_content content = multicodec_decode multi content

  unfoldable pub payload : Message → Bytes
  unfolding decode_content
  payload message = elim (decode_content message.content) [
    | ok (codec, p) ↦ p
    | err e ↦ message.content
  ]

  unfoldable pub encode : Message → MaResult Bytes
  encode message = map_err cbor_encode (message_cbor.into_writer message)

  unfoldable pub decode : Bytes → MaResult Message
  decode bytes = map_err cbor_decode (message_cbor.from_reader bytes)

  unfoldable pub content_hash : Bytes → Bytes
  content_hash content = crypto.blake3_hash content

  unfoldable pub unsigned_headers : Message → Headers
  unfolding content_hash
  unsigned_headers message = record {
    id = message.id;
    protocol = message.protocol;
    message_type = message.message_type;
    from = message.from;
    to = message.to;
    created_at = message.created_at;
    exp = message.exp;
    content_type = message.content_type;
    reply_to = message.reply_to;
    content_hash = content_hash message.content;
    signature = [];
  }

  unfoldable pub headers : Message → Headers
  unfolding unsigned_headers
  headers message = record (unsigned_headers message) { signature = message.signature }

  unfoldable pub to_cbor : Headers → MaResult Bytes
  to_cbor h = map_err cbor_encode (headers_cbor.into_writer h)

  unfoldable pub unsigned_headers_cbor : Message → MaResult Bytes
  unsigned_headers_cbor message = to_cbor (unsigned_headers message)

  unfoldable pub sign : SigningKey → Message → MaResult Message
  unfolding sign_bytes
  sign signing_key message = do
    bytes ← unsigned_headers_cbor message
    ok (record message { signature = sign_bytes doc signing_key bytes })

  -- The message before it is signed; `id` is the nanoid that is taken.
  unfoldable pub draft : Str → ℕ → Str → Str → Str → Str → Bytes → MessageOptions → Message
  unfolding codec_for encode_content
  draft id created_at from to message_type content_type content options = record {
    id = id;
    protocol = default_protocol;
    message_type = message_type;
    from = from;
    to = to;
    created_at = created_at;
    exp = options.exp;
    content_type = content_type;
    reply_to = options.reply_to;
    content = encode_content (codec_for content_type) content;
    signature = [];
  }

  unfoldable pub new_with_options :
      Str
      → Reading
      → Reading
      → Str
      → Str
      → Str
      → Str
      → Bytes
      → MessageOptions
      → SigningKey
      → MaResult Message
  unfolding draft validate validate_content sign
  new_with_options id created checked from to message_type content_type content options
        signing_key =
      do
        created_at ← created
        let message : Message =
            draft id created_at from to message_type content_type content options
        validate cids checked (unsigned_headers message)
        validate_content message
        sign signing_key message

  unfoldable pub new_with_exp :
      Str → Reading → Reading → Str → Str → Str → Str → Bytes → ℕ → SigningKey → MaResult Message
  unfolding new_with_options
  new_with_exp id created checked from to message_type content_type content exp signing_key =
      new_with_options id created checked from to message_type content_type content
        (record { exp = exp; reply_to = none }) signing_key

  unfoldable pub new :
      Str
      → Reading
      → Reading
      → Reading
      → Str
      → Str
      → Str
      → Str
      → Bytes
      → SigningKey
      → MaResult Message
  unfolding new_with_exp
  new id start created checked from to message_type content_type content signing_key = do
    now ← start
    new_with_exp id created checked from to message_type content_type content
        (add_u64 now default_message_ttl_secs) signing_key

  unfoldable pub new_reply :
      Str
      → Reading
      → Reading
      → Reading
      → Str
      → Str
      → Str
      → Str
      → Bytes
      → Str
      → SigningKey
      → MaResult Message
  unfolding new_with_options
  new_reply id start created checked from to message_type content_type content reply_to
        signing_key =
      do
        now ← start
        new_with_options id created checked from to message_type content_type content
            (record { exp = add_u64 now default_message_ttl_secs; reply_to = some reply_to })
            signing_key

  unfoldable pub verify_with_document : Reading → Message → Document → MaResult (Unit {0})
  unfolding headers
  verify_with_document reading message sender_document = do
    fail_if (is_empty message.from) missing_sender
    fail_if (is_empty message.signature) missing_signature
    sender_did ← Did.try_from cids message.from
    fail_if (not (str_eq sender_document.id (Did.base_id sender_did))) invalid_recipient
    validate cids reading (headers message)
    bytes ← unsigned_headers_cbor message
    signature ← ok_or (crypto.signature_from_slice message.signature) invalid_message_signature
    key ← assertion_method_public_key doc sender_document
    ensure (crypto.ed25519_verify key bytes signature) invalid_message_signature

  -- The content is put in afterwards.
  unfoldable pub from_headers : Reading → Headers → MaResult Message
  from_headers reading h = do
    validate cids reading h
    ok (record {
      id = h.id;
      protocol = h.protocol;
      message_type = h.message_type;
      from = h.from;
      to = h.to;
      created_at = h.created_at;
      exp = h.exp;
      content_type = h.content_type;
      reply_to = h.reply_to;
      content = [];
      signature = h.signature;
    })
