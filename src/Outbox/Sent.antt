-- ===== src/Outbox/Sent.antt =====
-- What src/outbox.rs hands to the wire.
use rust_ma_core.Common.{
  Bytes, false, str_eq, length, some, ok, map_err, ◌≡◌, refl, arith, >>=-eq-ok, >>-eq-ok,
  map_err-eq-ok, Result-cases, Bool-cases,
}
use rust_ma_core.Error.{ServiceResult, validation}
use rust_ma_core.Doc.Types.{Document, EncryptionKey}
use rust_ma_core.Doc.Proving.{key_agreement_public_key_bytes}
use rust_ma_core.Msg.Types.{Reading, Message, Envelope, message_type_broadcast}
use rust_ma_core.Msg.Crates.{MsgCrates}
use rust_ma_core.Msg.Check
use rust_ma_core.Msg.Check.{validate_message_freshness}
use rust_ma_core.Msg.Create
use rust_ma_core.Msg.Seal
use rust_ma_core.Msg.Opened.{open-enclose_for}
use rust_ma_core.Outbox.{Outbox, Draw, seal, payload_of, deliver, send}

module _ (crates : MsgCrates) (wire : Bytes → ServiceResult (Unit {0})) where
  open crates use {doc, envelope_cbor}

  pub sent_payload :
      (checked enclosed : Reading) (draw : Draw) (message : Message) (outbox : Outbox)
      (payload : Bytes)
      → (send crates wire checked enclosed draw message outbox).0 ≡ some payload
      → payload_of crates wire checked enclosed draw message outbox ≡ ok payload
  unfolding send deliver
  sent_payload checked enclosed draw message outbox payload h = ground (
    arith,
    h,
    Result-cases (payload_of crates wire checked enclosed draw message outbox),
    Bool-cases outbox.is_open,
  )

  sealed_payload :
      (checked enclosed : Reading) (draw : Draw) (message : Message) (outbox : Outbox)
      (payload : Bytes)
      → payload_of crates wire checked enclosed draw message outbox ≡ ok payload
      → outbox.local ≡ false
      → str_eq message.message_type message_type_broadcast ≡ false
      → seal crates wire enclosed draw message outbox.recipient_document ≡ ok payload
  unfolding payload_of
  sealed_payload checked enclosed draw message outbox payload h remote kind =
      let (u, h1) =
        >>-eq-ok
          (map_err validation (Check.validate doc.cids checked (Create.headers crates message))) _
          h in
      ground (arith, h1, remote, kind)

  -- A message that is not a broadcast leaves an outbox that is not local only as the bytes of an
  -- envelope, which the recipient opens to the same message: the recipient's document publishes
  -- the key, the nonces have 24 bytes, and the message is fresh and verifies when it is opened.
  pub open-send :
      (checked enclosed opened made verified : Reading) (draw : Draw) (message : Message)
      (outbox : Outbox) (sender : Document) (key : EncryptionKey) (payload : Bytes)
      → (send crates wire checked enclosed draw message outbox).0 ≡ some payload
      → outbox.local ≡ false
      → str_eq message.message_type message_type_broadcast ≡ false
      → length draw.headers_nonce ≡ 24
      → length draw.content_nonce ≡ 24
      → key_agreement_public_key_bytes doc outbox.recipient_document
        ≡ ok (doc.crypto.x25519_public key.private_key)
      → validate_message_freshness opened message.created_at message.exp ≡ ok tt
      → validate_message_freshness made message.created_at message.exp ≡ ok tt
      → Create.verify_with_document crates verified message sender ≡ ok tt
      → (envelope : Envelope) × (Seal.decode crates payload ≡ ok envelope)
        × (Seal.open_envelope crates opened made verified key sender envelope ≡ ok message)
  unfolding seal Seal.encode Seal.decode
  open-send checked enclosed opened made verified draw message outbox sender key payload h remote
        kind hn cn published fresh1 fresh2 authentic =
      let handed = sent_payload checked enclosed draw message outbox payload h in
      let made_payload =
        sealed_payload checked enclosed draw message outbox payload handed remote kind in
      let (envelope, p1, h1) =
        >>=-eq-ok
          (map_err validation (
            Seal.enclose_for crates enclosed draw.secret draw.headers_nonce draw.content_nonce
              message outbox.recipient_document))
          _ made_payload in
      let encoded = map_err-eq-ok _ _ (map_err-eq-ok _ _ h1) in
      (
        envelope,
        rw (envelope_cbor.cbor_round_trip envelope encoded) refl,
        open-enclose_for crates enclosed opened made verified draw.secret draw.headers_nonce
            draw.content_nonce message outbox.recipient_document sender key envelope
            (map_err-eq-ok _ _ p1) hn cn published fresh1 fresh2 authentic,
      )
