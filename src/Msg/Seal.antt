-- ===== src/Msg/Seal.antt =====
-- Encryption and `Envelope` of src/msg.rs. Nonces and the ephemeral secret are arguments, as the
-- readings of the clock are.
use rust_ma_core.Common.{
  Str, Bytes, codes, not, ◌==◌, ltb, length, take, drop, is_empty, ◌++◌, ok, err, ok_or, map_err,
  fail_if, ◌>>=◌, ◌>>◌, if◌then◌else◌,
}
use rust_ma_core.Error.{
  MaError, MaResult, missing_envelope_field, invalid_ephemeral_key_length, ciphertext_too_short,
  cbor_encode, cbor_decode,
}
use rust_ma_core.Doc.Types.{Document, EncryptionKey}
use rust_ma_core.Doc.Method.{shared_secret}
use rust_ma_core.Doc.Proving.{key_agreement_public_key_bytes}
use rust_ma_core.Msg.Types.{
  Reading, Headers, Message, Envelope, ReplayGuard, blake3_headers_label, blake3_content_label,
}
use rust_ma_core.Msg.Crates.{MsgCrates}
use rust_ma_core.Msg.Check.{validate}
use rust_ma_core.Msg.Create.{headers, to_cbor, verify_with_document, from_headers}
use rust_ma_core.Msg.Replay.{check_and_insert}

-- `Envelope::verify`.
unfoldable pub verify : Envelope → MaResult (Unit {0})
verify envelope = do
  fail_if (is_empty envelope.ephemeral_key) (missing_envelope_field (codes "ephemeralKey"))
  fail_if (not (length envelope.ephemeral_key == 32)) invalid_ephemeral_key_length
  fail_if (is_empty envelope.encrypted_content) (missing_envelope_field (codes "encryptedContent"))
  fail_if (is_empty envelope.encrypted_headers) (missing_envelope_field (codes "encryptedHeaders"))

module _ (crates : MsgCrates) where
  open crates use {doc, headers_cbor, envelope_cbor}
  open crates.doc use {cids, crypto}

  unfoldable pub encode : Envelope → MaResult Bytes
  encode envelope = map_err cbor_encode (envelope_cbor.into_writer envelope)

  unfoldable pub decode : Bytes → MaResult Envelope
  decode bytes = map_err cbor_decode (envelope_cbor.from_reader bytes)

  unfoldable pub derive_symmetric_key : Bytes → Str → Bytes
  derive_symmetric_key shared label = crypto.blake3_derive_key label shared

  unfoldable pub encrypt : Bytes → Bytes → Bytes → MaResult Bytes
  encrypt nonce plain key = do
    encrypted ← ok_or (crypto.aead_encrypt key nonce plain) MaError.crypto
    ok (nonce ++ encrypted)

  unfoldable pub decrypt : Bytes → Bytes → Str → MaResult Bytes
  unfolding derive_symmetric_key
  decrypt sealed shared label =
      if ltb (length sealed) 24
      then err ciphertext_too_short
      else ok_or
          (crypto.aead_decrypt (derive_symmetric_key shared label) (take 24 sealed)
            (drop 24 sealed))
          MaError.crypto

  unfoldable pub compute_shared_secret : Bytes → EncryptionKey → MaResult Bytes
  unfolding shared_secret
  compute_shared_secret ephemeral_key recipient_key =
      if length ephemeral_key == 32
      then ok (shared_secret doc recipient_key ephemeral_key)
      else err invalid_ephemeral_key_length

  unfoldable pub enclose_for :
      Reading → Bytes → Bytes → Bytes → Message → Document → MaResult Envelope
  unfolding derive_symmetric_key
  enclose_for reading ephemeral_secret headers_nonce content_nonce message recipient_document = do
    validate cids reading (headers crates message)
    recipient_public_key ← key_agreement_public_key_bytes doc recipient_document
    let shared : Bytes = crypto.x25519_shared ephemeral_secret recipient_public_key
    headers_bytes ← to_cbor crates (headers crates message)
    encrypted_headers ←
        encrypt headers_nonce headers_bytes (derive_symmetric_key shared blake3_headers_label)
    encrypted_content ←
        encrypt content_nonce message.content (derive_symmetric_key shared blake3_content_label)
    ok (record {
      ephemeral_key = crypto.x25519_public ephemeral_secret;
      encrypted_content = encrypted_content;
      encrypted_headers = encrypted_headers;
    })

  unfoldable pub decrypt_headers : Envelope → Bytes → MaResult Headers
  unfolding decrypt
  decrypt_headers envelope shared = do
    decrypted ← decrypt envelope.encrypted_headers shared blake3_headers_label
    map_err cbor_decode (headers_cbor.from_reader decrypted)

  unfoldable pub decrypt_content : Envelope → Bytes → MaResult Bytes
  unfolding decrypt
  decrypt_content envelope shared = decrypt envelope.encrypted_content shared blake3_content_label

  -- The readings are those of `headers.validate()` and of `from_headers`.
  unfoldable pub decrypt_envelope : Reading → Reading → EncryptionKey → Envelope → MaResult Message
  decrypt_envelope checked made recipient_key envelope = do
    verify envelope
    shared ← compute_shared_secret envelope.ephemeral_key recipient_key
    h ← decrypt_headers envelope shared
    validate cids checked h
    content ← decrypt_content envelope shared
    message ← from_headers crates made h
    ok (record message { content = content })

  unfoldable pub open_envelope :
      Reading → Reading → Reading → EncryptionKey → Document → Envelope → MaResult Message
  open_envelope checked made verified recipient_key sender_document envelope = do
    verify envelope
    shared ← compute_shared_secret envelope.ephemeral_key recipient_key
    h ← decrypt_headers envelope shared
    validate cids checked h
    content ← decrypt_content envelope shared
    bare ← from_headers crates made h
    let message : Message = record bare { content = content }
    verify_with_document crates verified message sender_document
    ok message

  -- The part of `open_with_replay_guard` in front of the guard's check.
  unfoldable pub open_unguarded :
      Reading → Reading → EncryptionKey → Document → Envelope → MaResult Message
  open_unguarded made verified recipient_key sender_document envelope = do
    verify envelope
    shared ← compute_shared_secret envelope.ephemeral_key recipient_key
    h ← decrypt_headers envelope shared
    content ← decrypt_content envelope shared
    bare ← from_headers crates made h
    let message : Message = record bare { content = content }
    verify_with_document crates verified message sender_document
    ok message

  -- The guard is asked about an opened message; its readings are those of `check_and_insert`.
  unfoldable pub check_opened :
      Reading → Reading → Reading → ReplayGuard → MaResult Message → ReplayGuard × MaResult Message
  check_opened checked pruned inserted guard (err e) = (guard, err e)
  check_opened checked pruned inserted guard (ok message) =
      let (after, result) =
        check_and_insert cids checked pruned inserted (headers crates message) guard in
      (after, result >> ok message)

  unfoldable pub open_with_replay_guard :
      Reading
      → Reading
      → Reading
      → Reading
      → Reading
      → EncryptionKey
      → Document
      → Envelope
      → ReplayGuard
      → ReplayGuard × MaResult Message
  open_with_replay_guard made verified checked pruned inserted recipient_key sender_document
        envelope guard =
      check_opened checked pruned inserted guard
        (open_unguarded made verified recipient_key sender_document envelope)
