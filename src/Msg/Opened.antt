-- ===== src/Msg/Opened.antt =====
-- What enclosing and opening of src/msg.rs establish together.
use rust_ma_core.Common.{
  Str, Bytes, false, is_empty, length, length-append, take-append, drop-append, ltb, [], ◌∷◌, ◌++◌,
  ok, ok_or, ◌≡◌, refl, subst, arith, >>=-eq-ok, >>-eq-ok, ok_or-eq-ok, map_err-eq-ok,
}
use rust_ma_core.Error.{MaError}
use rust_ma_core.Doc.Types.{Document, EncryptionKey}
use rust_ma_core.Doc.Method.{shared_secret}
use rust_ma_core.Doc.Proving.{key_agreement_public_key_bytes}
use rust_ma_core.Msg.Types.{Reading, Message, Envelope, blake3_headers_label, blake3_content_label}
use rust_ma_core.Msg.Crates.{MsgCrates}
use rust_ma_core.Msg.Check.{validate, validate_message_freshness}
use rust_ma_core.Msg.Create.{headers, unsigned_headers, to_cbor, verify_with_document, from_headers}
use rust_ma_core.Msg.Seal.{
  verify, derive_symmetric_key, encrypt, decrypt, compute_shared_secret, enclose_for,
  decrypt_headers, decrypt_content, open_envelope,
}
use rust_ma_core.Msg.Signed.{validate-again}

nonempty-append : (a b : Bytes) → length a ≡ 24 → is_empty (a ++ b) ≡ false
nonempty-append [] b h = absurd (omega arith)
nonempty-append (c ∷ a) b h = refl

long-append : (a b : Bytes) → length a ≡ 24 → ltb (length (a ++ b)) 24 ≡ false
long-append a b h = ground (arith, length-append a b)

module _ (crates : MsgCrates) where
  open crates use {doc, headers_cbor}
  open crates.doc use {cids, crypto}
  open crates.doc.crypto use {
    x25519_public, x25519_shared, x25519_agree, x25519_public_length, aead_encrypt, aead_correct,
  }

  -- What is encrypted under a 24-byte nonce is decrypted with the same secret and label.
  pub decrypt-encrypt :
      (nonce plain shared : Bytes) (label : Str) (sealed : Bytes)
      → length nonce ≡ 24
      → encrypt crates nonce plain (derive_symmetric_key crates shared label) ≡ ok sealed
      → (decrypt crates sealed shared label ≡ ok plain) × (is_empty sealed ≡ false)
  unfolding encrypt decrypt
  decrypt-encrypt nonce plain shared label sealed len h =
      let (b, made, e) =
        >>=-eq-ok
          (ok_or (aead_encrypt (derive_symmetric_key crates shared label) nonce plain)
            MaError.crypto)
          _ h in
      let same : nonce ++ b ≡ sealed = ground arith in
      subst (λ s. (decrypt crates s shared label ≡ ok plain) × (is_empty s ≡ false)) same
        (
          rw
              (
                long-append nonce b len,
                take-append 24 nonce b len,
                drop-append 24 nonce b len,
                aead_correct (derive_symmetric_key crates shared label) nonce plain
                    (ok_or-eq-ok _ _ made),
              )
              refl,
          nonempty-append nonce b len,
        )

  -- An envelope whose parts decrypt to a valid message is opened to it.
  opened :
      (checked made verified : Reading) (key : EncryptionKey) (sender : Document)
      (envelope : Envelope) (message : Message) (shared : Bytes)
      → verify envelope ≡ ok tt
      → compute_shared_secret crates envelope.ephemeral_key key ≡ ok shared
      → decrypt_headers crates envelope shared ≡ ok (headers crates message)
      → decrypt_content crates envelope shared ≡ ok message.content
      → validate cids checked (headers crates message) ≡ ok tt
      → validate cids made (headers crates message) ≡ ok tt
      → verify_with_document crates verified message sender ≡ ok tt
      → open_envelope crates checked made verified key sender envelope ≡ ok message
  unfolding open_envelope from_headers headers verify_with_document
  opened checked made verified key sender envelope message shared shape agreed hs content ok1 ok2
        authentic =
      rw (shape, agreed, hs, ok1, content, ok2, authentic) refl

  -- The parts of an envelope, and that they fit the message and the secret.
  record IsSealed (message : Message) (shared : Bytes) (key : Bytes) (envelope : Envelope)
      : Type 0 where
    ephemeral : key ≡ envelope.ephemeral_key
    hs : decrypt_headers crates envelope shared ≡ ok (headers crates message)
    content : decrypt_content crates envelope shared ≡ ok message.content
    hs_nonempty : is_empty envelope.encrypted_headers ≡ false
    content_nonempty : is_empty envelope.encrypted_content ≡ false

  sealed :
      (now : Reading) (secret headers_nonce content_nonce public : Bytes) (message : Message)
      (recipient : Document) (envelope : Envelope)
      → enclose_for crates now secret headers_nonce content_nonce message recipient ≡ ok envelope
      → length headers_nonce ≡ 24
      → length content_nonce ≡ 24
      → key_agreement_public_key_bytes doc recipient ≡ ok public
      → (validate cids now (headers crates message) ≡ ok tt)
        × IsSealed message (x25519_shared secret public) (x25519_public secret) envelope
  unfolding enclose_for to_cbor decrypt_headers decrypt_content
  sealed now secret headers_nonce content_nonce public message recipient envelope h hn cn
        published =
      let (valid, h1) = >>-eq-ok (validate cids now (headers crates message)) _ h in
      let (public', p2, h2) = >>=-eq-ok (key_agreement_public_key_bytes doc recipient) _ h1 in
      let same : public' ≡ public = ground (arith, p2, published) in
      let shared = x25519_shared secret public' in
      let (bytes, p3, h3) = >>=-eq-ok (to_cbor crates (headers crates message)) _ h2 in
      let (eh, p4, h4) =
        >>=-eq-ok
          (encrypt crates headers_nonce bytes
            (derive_symmetric_key crates shared blake3_headers_label))
          _ h3 in
      let (ec, p5, h5) =
        >>=-eq-ok
          (encrypt crates content_nonce message.content
            (derive_symmetric_key crates shared blake3_content_label))
          _ h4 in
      let (dh, nh) = decrypt-encrypt headers_nonce bytes shared blake3_headers_label eh hn p4 in
      let (dc, nc) =
        decrypt-encrypt content_nonce message.content shared blake3_content_label ec cn p5 in
      let made : record {
        ephemeral_key = x25519_public secret;
        encrypted_content = ec;
        encrypted_headers = eh;
      }
          ≡ envelope =
        ground (arith, h5) in
      let read = headers_cbor.cbor_round_trip (headers crates message) (map_err-eq-ok _ _ p3) in
      (
        valid,
        subst (λ p. IsSealed message (x25519_shared secret p) (x25519_public secret) envelope) same
            (subst (IsSealed message shared (x25519_public secret)) made (record {
              ephemeral = refl;
              hs = rw (dh, read) refl;
              content = dc;
              hs_nonempty = nh;
              content_nonempty = nc;
            })),
      )

  nonempty_key : (secret : Bytes) → is_empty (x25519_public secret) ≡ false
  nonempty_key secret = ground (arith, x25519_public_length secret)

  -- A message that was enclosed for a recipient is opened to the same message with the recipient's
  -- key: the recipient's document publishes the key, the nonces have 24 bytes, and the message is
  -- still fresh and verifies against the sender's document.
  pub open-enclose_for :
      (enclosed checked made verified : Reading) (secret headers_nonce content_nonce : Bytes)
      (message : Message) (recipient sender : Document) (key : EncryptionKey) (envelope : Envelope)
      → enclose_for crates enclosed secret headers_nonce content_nonce message recipient
        ≡ ok envelope
      → length headers_nonce ≡ 24
      → length content_nonce ≡ 24
      → key_agreement_public_key_bytes doc recipient ≡ ok (x25519_public key.private_key)
      → validate_message_freshness checked message.created_at message.exp ≡ ok tt
      → validate_message_freshness made message.created_at message.exp ≡ ok tt
      → verify_with_document crates verified message sender ≡ ok tt
      → open_envelope crates checked made verified key sender envelope ≡ ok message
  unfolding verify compute_shared_secret shared_secret headers unsigned_headers
  open-enclose_for enclosed checked made verified secret headers_nonce content_nonce message
        recipient sender key envelope h hn cn published fresh1 fresh2 authentic =
      let (valid, parts) =
        sealed enclosed secret headers_nonce content_nonce (x25519_public key.private_key) message
          recipient envelope h hn cn published in
      opened checked made verified key sender envelope message
        (x25519_shared secret (x25519_public key.private_key))
        (rw
          (
            ← parts.ephemeral,
            nonempty_key secret,
            x25519_public_length secret,
            parts.content_nonempty,
            parts.hs_nonempty,
          )
          refl)
        (rw (← parts.ephemeral, x25519_public_length secret, x25519_agree key.private_key secret)
          refl)
        parts.hs parts.content
        (validate-again cids enclosed checked (headers crates message) message.signature valid
          fresh1)
        (validate-again cids enclosed made (headers crates message) message.signature valid fresh2)
        authentic
