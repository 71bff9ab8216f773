-- ===== src/Msg/Signed.antt =====
-- What creating and verifying messages of src/msg.rs establishes.
use rust_ma_core.Common.{
  ℕ, ◌<◌, ◌++◌, ◌||◌, codes, append-nil, err, ◌∙◌, Bool-cases, Str, Bytes, true, false, not, head?,
  str_eq, str_eq_sound, str_eq_refl, is_empty, length, some, [], ◌∷◌, ok, ok_or, fail_if, ◌≡◌, refl,
  ap, sym, subst, arith, >>=-eq-ok, >>-eq-ok, ensure-eq-ok, ok_or-eq-ok, not-eq-ok, if◌then◌else◌,
}
use rust_ma_core.Error.{missing_content_type, invalid_public_key_multibase}
use rust_ma_core.External.Multi.{u64_mod}
use rust_ma_core.External.Cids.{CidLib}
use rust_ma_core.Did
use rust_ma_core.Did.{Did}
use rust_ma_core.Multiformat.{multicodec_encode}
use rust_ma_core.Multiformat.RoundTrip.{multicodec_decode-encode}
use rust_ma_core.Doc.Types.{Document, VerificationMethod, SigningKey}
use rust_ma_core.Doc.Method.{signing_key_from_bytes, sign_bytes}
use rust_ma_core.Doc.Operations.{find_method, get_verification_method_by_id}
use rust_ma_core.Doc.Proving.{assertion_method_public_key}
use rust_ma_core.Doc.Signing.{key_of_method}
use rust_ma_core.Msg.Types.{Reading, Headers, Message, MessageOptions}
use rust_ma_core.Msg.Crates.{MsgCrates}
use rust_ma_core.Msg.Check.{
  validate_message_id, validate_protocol, validate_reply_to, validate_recipient, validate,
  validate_message_freshness,
}
use rust_ma_core.Msg.Create.{
  codec_for, validate_content, encode_content, decode_content, payload, unsigned_headers, headers,
  to_cbor, unsigned_headers_cbor, sign, draft, new_with_options, verify_with_document,
}

codec_for-bound : (content_type : Str) → codec_for content_type < u64_mod
unfolding codec_for
codec_for-bound content_type = ground arith

-- Validated headers stay valid at any other time at which they are fresh, whatever their signature.
pub validate-again :
    (cids : CidLib) (first later : Reading) (h : Headers) (signature : Bytes)
    → validate cids first h ≡ ok tt
    → validate_message_freshness later h.created_at h.exp ≡ ok tt
    → validate cids later (record h { signature = signature }) ≡ ok tt
unfolding validate
validate-again cids first later h signature valid fresh =
    let (p1, h1) = >>-eq-ok (validate_message_id h.id) _ valid in
    let (p2, h2) = >>-eq-ok (validate_protocol h.protocol) _ h1 in
    let (p3, h3) = >>-eq-ok (validate_reply_to h.reply_to) _ h2 in
    let (p4, h4) = >>-eq-ok (fail_if (is_empty h.content_type) missing_content_type) _ h3 in
    let (p5, h5) = >>-eq-ok (Did.validate cids h.from) _ h4 in
    let (p6, h6) = >>-eq-ok (validate_recipient cids h) _ h5 in
    rw (p1, p2, p3, p4, p5, p6, fresh) refl

from-nonempty :
    (cids : CidLib) (from : Str) (did : Did)
    → Did.try_from cids from ≡ ok did
    → is_empty from ≡ false
unfolding Did.try_from Did.parse
from-nonempty cids [] did h = cc
from-nonempty cids (c ∷ from) did h = refl

nonempty-length : (b : Bytes) → length b ≡ 64 → is_empty b ≡ false
nonempty-length [] h = absurd (omega arith)
nonempty-length (c ∷ b) h = refl

-- The codec of a content type.
abbrev pub codec_of : Str → ℕ
codec_of content_type =
    if str_eq content_type (codes "application/vnd.ipld.dag-cbor")
    then 0x71
    else if str_eq content_type (codes "application/cbor")
        || str_eq content_type (codes "application/vnd.ma.term")
    then 0x51
    else 0

codec_for_lem : (content_type : Str) → codec_for content_type ≡ codec_of content_type
unfolding codec_for
codec_for_lem content_type =
    ground (arith, Bool-cases (str_eq content_type (codes "application/cbor")))

module _ (crates : MsgCrates) where
  open crates use {doc}
  open crates.doc use {cids, multi, crypto}
  open crates.doc.crypto use {
    Signature, VerifyingKey, signature_from_slice, verifying_key_from_bytes, ed25519_verify,
    ed25519_public, ed25519_sign, ed25519_correct, ed25519_sign_nonempty,
  }

  -- What has happened when a message is created.
  new_inversion :
      (id : Str) (created checked : Reading) (from to message_type content_type : Str)
      (content : Bytes) (options : MessageOptions) (key : SigningKey) (message : Message)
      → new_with_options crates id created checked from to message_type content_type content options
          key
        ≡ ok message
      → (at : ℕ) × (bytes : Bytes) × (validate cids checked (
            unsigned_headers crates
              (draft crates id at from to message_type content_type content options))
          ≡ ok tt)
        × (unsigned_headers_cbor crates
              (draft crates id at from to message_type content_type content options)
            ≡ ok bytes)
        × (record (draft crates id at from to message_type content_type content options) {
          signature = sign_bytes doc key bytes;
        }
            ≡ message)
  unfolding new_with_options sign
  new_inversion id created checked from to message_type content_type content options key message h =
      let (at, created_ok, h1) = >>=-eq-ok created _ h in
      let m : Message = draft crates id at from to message_type content_type content options in
      let (valid, h2) = >>-eq-ok (validate cids checked (unsigned_headers crates m)) _ h1 in
      let (u, h3) = >>-eq-ok (validate_content m) _ h2 in
      let (bytes, encoded, h4) = >>=-eq-ok (unsigned_headers_cbor crates m) _ h3 in
      (at, bytes, valid, encoded, ground arith)

  payload-decoded :
      (codec : ℕ) (content : Bytes) (message : Message)
      → message.content ≡ multi.varint_encode codec ++ content
      → decode_content crates message.content
        ≡ (if is_empty content then err invalid_public_key_multibase else ok (codec, content))
      → payload crates message ≡ (if is_empty content then multi.varint_encode codec else content)
  unfolding payload
  payload-decoded codec [] message carried decoded =
      rw (payload, decoded) (carried ∙ append-nil (multi.varint_encode codec))
  payload-decoded codec (c ∷ content) message carried decoded = rw (payload, decoded) refl

  carried-codec :
      (content_type : Str) (content : Bytes) (message : Message)
      → message.content ≡ encode_content crates (codec_for content_type) content
      → (message.content ≡ multi.varint_encode (codec_of content_type) ++ content)
        × (decode_content crates message.content ≡ (
            if is_empty content
            then err invalid_public_key_multibase
            else ok (codec_of content_type, content)))
        × (payload crates message
            ≡ (if is_empty content then multi.varint_encode (codec_of content_type) else content))
  unfolding decode_content encode_content multicodec_encode
  carried-codec content_type content message made =
      let codec = codec_for_lem content_type in
      let bound = codec_for-bound content_type in
      let decoded = multicodec_decode-encode multi (codec_for content_type) content bound in
      let carried = made ∙ ap (λ c. multi.varint_encode c ++ content) codec in
      let parts : decode_content crates message.content ≡ (
          if is_empty content
          then err invalid_public_key_multibase
          else ok (codec_of content_type, content)) =
        rw (made, decoded, codec) refl in
      (carried, parts, payload-decoded (codec_of content_type) content message carried parts)

  -- A created message carries its content behind the codec of its type: DAG-CBOR, CBOR for CBOR
  -- and for terms, and else the identity. Content that is not empty is decoded to that codec and the
  -- content, and given back as payload; empty content is not decoded, and the payload is then the
  -- bytes of the codec.
  pub payload-new :
      (id : Str) (created checked : Reading) (from to message_type content_type : Str)
      (content : Bytes) (options : MessageOptions) (key : SigningKey) (message : Message)
      → new_with_options crates id created checked from to message_type content_type content options
          key
        ≡ ok message
      → (message.content ≡ multi.varint_encode (codec_of content_type) ++ content)
        × (decode_content crates message.content ≡ (
            if is_empty content
            then err invalid_public_key_multibase
            else ok (codec_of content_type, content)))
        × (payload crates message
            ≡ (if is_empty content then multi.varint_encode (codec_of content_type) else content))
  unfolding draft
  payload-new id created checked from to message_type content_type content options key message h =
      let (at, bytes, valid, encoded, made) =
        new_inversion id created checked from to message_type content_type content options key
          message h in
      carried-codec content_type content message (ap (λ m. m.content) (sym made))

  -- The document publishes the key of the secret as its first assertion method.
  pub record Publishes (secret : Bytes) (document : Document) : Type 0 where
    pub did : Did
    pub vm : VerificationMethod
    pub first : head? document.assertion_method ≡ some vm.id
    pub found : find_method vm.id document.verification_method ≡ some vm
    pub published :
        (signing_key_from_bytes doc did secret).public_key_multibase ≡ vm.public_key_multibase

  assertion_key :
      (secret : Bytes) (document : Document) (key : VerifyingKey)
      → Publishes secret document
      → verifying_key_from_bytes (ed25519_public secret) ≡ some key
      → assertion_method_public_key doc document ≡ ok key
  unfolding assertion_method_public_key
  assertion_key secret document key p made =
      rw (p.first, key_of_method doc document p.vm p.did secret key p.found p.published made) refl

  -- A valid message with the signature of a secret.
  verify-signed :
      (checked later : Reading) (m : Message) (sender : Did) (secret bytes : Bytes)
      (document : Document)
      → validate cids checked (unsigned_headers crates m) ≡ ok tt
      → unsigned_headers_cbor crates m ≡ ok bytes
      → Did.try_from cids m.from ≡ ok sender
      → document.id ≡ Did.base_id sender
      → Publishes secret document
      → validate_message_freshness later m.created_at m.exp ≡ ok tt
      → verify_with_document crates later
          (record m { signature = ed25519_sign secret bytes })
          document
        ≡ ok tt
  unfolding verify_with_document unsigned_headers_cbor assertion_method_public_key
      get_verification_method_by_id
  verify-signed checked later m sender secret bytes document valid encoded parsed owner published
        fresh =
      let (key, sig, keyed, signed, verified) = ed25519_correct secret bytes in
      rw
        (
          from-nonempty cids m.from sender parsed,
          nonempty-length (ed25519_sign secret bytes) (ed25519_sign_nonempty secret bytes),
          parsed,
          owner,
          str_eq_refl (Did.base_id sender),
          validate-again cids checked later (unsigned_headers crates m) (ed25519_sign secret bytes)
              valid fresh,
          encoded,
          signed,
          assertion_key secret document key published keyed,
          verified,
        )
        refl

  -- A message that was created with a secret verifies, at any time at which it is still fresh,
  -- against a document of its sender that publishes the secret's key.
  pub verify-new :
      (id : Str) (created checked later : Reading) (from to message_type content_type : Str)
      (content : Bytes) (options : MessageOptions) (key_did sender : Did) (secret : Bytes)
      (message : Message) (document : Document)
      → new_with_options crates id created checked from to message_type content_type content options
          (signing_key_from_bytes doc key_did secret)
        ≡ ok message
      → Did.try_from cids from ≡ ok sender
      → document.id ≡ Did.base_id sender
      → Publishes secret document
      → validate_message_freshness later message.created_at message.exp ≡ ok tt
      → verify_with_document crates later message document ≡ ok tt
  unfolding sign_bytes draft signing_key_from_bytes
  verify-new id created checked later from to message_type content_type content options key_did
        sender secret message document h parsed owner published fresh =
      let (at, bytes, valid, encoded, made) =
        new_inversion id created checked from to message_type content_type content options
          (signing_key_from_bytes doc key_did secret) message h in
      subst (λ m. verify_with_document crates later m document ≡ ok tt) made
        (verify-signed checked later
          (draft crates id at from to message_type content_type content options) sender secret bytes
          document valid encoded parsed owner published
          (subst (λ m. validate_message_freshness later m.created_at m.exp ≡ ok tt) (sym made)
            fresh))

  -- What `verify_with_document` has established when it accepts.
  pub record IsAuthentic (message : Message) (document : Document) : Type 0 where
    pub sender : Did
    pub bytes : Bytes
    pub signature : Signature
    pub key : VerifyingKey
    pub parsed : Did.try_from cids message.from ≡ ok sender
    pub owner : document.id ≡ Did.base_id sender
    pub encoded : to_cbor crates (unsigned_headers crates message) ≡ ok bytes
    pub signed : signature_from_slice message.signature ≡ some signature
    pub keyed : assertion_method_public_key doc document ≡ ok key
    pub verified : ed25519_verify key bytes signature ≡ true

  -- A message is accepted only as one of the document's owner, with a signature of its headers and
  -- of its content's hash by the document's assertion key, and with valid headers.
  pub verify-IsAuthentic :
      (now : Reading) (message : Message) (document : Document)
      → verify_with_document crates now message document ≡ ok tt
      → IsAuthentic message document × (validate cids now (headers crates message) ≡ ok tt)
  unfolding verify_with_document unsigned_headers_cbor
  verify-IsAuthentic now message document h =
      let (u1, h1) = >>-eq-ok (fail_if (is_empty message.from) _) _ h in
      let (u2, h2) = >>-eq-ok (fail_if (is_empty message.signature) _) _ h1 in
      let (sender, parsed, h3) = >>=-eq-ok (Did.try_from cids message.from) _ h2 in
      let (u4, h4) = >>-eq-ok (fail_if (not (str_eq document.id (Did.base_id sender))) _) _ h3 in
      let (valid, h5) = >>-eq-ok (validate cids now (headers crates message)) _ h4 in
      let (bytes, encoded, h6) = >>=-eq-ok (unsigned_headers_cbor crates message) _ h5 in
      let (signature, p7, h7) = >>=-eq-ok (ok_or (signature_from_slice message.signature) _) _ h6 in
      let (key, keyed, h8) = >>=-eq-ok (assertion_method_public_key doc document) _ h7 in
      (
        record {
          sender = sender;
          bytes = bytes;
          signature = signature;
          key = key;
          parsed = parsed;
          owner = str_eq_sound _ _ (not-eq-ok _ _ u4);
          encoded = encoded;
          signed = ok_or-eq-ok _ _ p7;
          keyed = keyed;
          verified = ensure-eq-ok _ _ h8;
        },
        valid,
      )
