-- ===== src/Inbound/Delivered.antt =====
-- From `Outbox::send` of src/outbox.rs to the inbox of the recipient's endpoint in
-- src/iroh/endpoint.rs.
use rust_ma_core.Common.{
  ℕ, Str, Bytes, false, any, str_eq, str_eq_refl, length, Option, some, ok, ◌≡◌, refl, subst, arith,
  >>-eq-ok, >>=-eq-ok, Bool-cases, inl, inr,
}
use rust_ma_core.Error.{ServiceResult}
use rust_ma_core.Did
use rust_ma_core.Doc.Types.{Document, EncryptionKey}
use rust_ma_core.Doc.Proving.{key_agreement_public_key_bytes}
use rust_ma_core.Inbox
use rust_ma_core.Inbox.{Inbox}
use rust_ma_core.Msg.Types.{Reading, Message, Envelope, message_type_broadcast}
use rust_ma_core.Msg.Crates.{MsgCrates}
use rust_ma_core.Msg.Check
use rust_ma_core.Msg.Check.{validate_message_freshness}
use rust_ma_core.Msg.Create
use rust_ma_core.Msg.Seal
use rust_ma_core.Msg.Window.{blocks, check_and_insert_iff}
use rust_ma_core.Outbox.{Outbox, Draw, send}
use rust_ma_core.Outbox.Sent.{open-send}
use rust_ma_core.Inbound.{
  Clocks, Shared, complete, skip_resolver_verification, same_base_did, read_payload,
  check_recipient, verify_sender, authenticate, deliver, handle_stream,
}
use rust_ma_core.Inbound.Accepted.{decode_iff}

module _ (crates : MsgCrates) where
  open crates use {doc}
  open doc use {cids}

  -- What opening proves, decryption and verification prove one by one.
  opened_parts :
      (opened made verified : Reading) (key : EncryptionKey) (sender : Document)
      (envelope : Envelope) (message : Message)
      → Seal.open_envelope crates opened made verified key sender envelope ≡ ok message
      → (Seal.decrypt_envelope crates opened made key envelope ≡ ok message)
        × (Create.verify_with_document crates verified message sender ≡ ok tt)
  unfolding Seal.open_envelope Seal.decrypt_envelope
  opened_parts opened made verified key sender envelope message e =
      let (u1, h1) = >>-eq-ok (Seal.verify envelope) _ e in
      let (shared, p2, h2) =
        >>=-eq-ok (Seal.compute_shared_secret crates envelope.ephemeral_key key) _ h1 in
      let (h, p3, h3) = >>=-eq-ok (Seal.decrypt_headers crates envelope shared) _ h2 in
      let (u4, h4) = >>-eq-ok (Check.validate cids opened h) _ h3 in
      let (content, p5, h5) = >>=-eq-ok (Seal.decrypt_content crates envelope shared) _ h4 in
      let (bare, p6, h6) = >>=-eq-ok (Create.from_headers crates made h) _ h5 in
      let found : Message = record bare { content = content } in
      let (p7, h7) = >>-eq-ok (Create.verify_with_document crates verified found sender) _ h6 in
      let same : found ≡ message = ground (arith, h7) in
      (
        rw (u1, p2, p3, u4, p5, p6) h7,
        subst (λ m. Create.verify_with_document crates verified m sender ≡ ok tt) same p7,
      )

  module _ (resolver : Str → ServiceResult Document) where
    pub authenticate-opened :
        (clocks : Clocks) (key : EncryptionKey) (sender : Document) (payload : Bytes)
        (envelope : Envelope) (message : Message) (protocol base : Str) (left right : Option Str)
        → Seal.decode crates payload ≡ ok envelope
        → Seal.open_envelope crates clocks.opened clocks.made clocks.verified key sender envelope
          ≡ ok message
        → str_eq message.message_type message_type_broadcast ≡ false
        → Did.parse cids message.to ≡ ok (base, left)
        → Did.parse cids (Did.id key.did) ≡ ok (base, right)
        → resolver message.from ≡ ok sender
        → authenticate crates resolver clocks key payload protocol ≡ ok message
    unfolding authenticate read_payload check_recipient same_base_did verify_sender
    authenticate-opened clocks key sender payload envelope message protocol base left right decoded
          opened kind to_base own_base found =
        let (decrypted, verified) =
          opened_parts clocks.opened clocks.made clocks.verified key sender envelope message
            opened in
        elim (Bool-cases (skip_resolver_verification protocol message.message_type)) [
          | inl skipped ↦
              rw
                (
                  authenticate,
                  read_payload,
                  decoded,
                  decrypted,
                  kind,
                  to_base,
                  own_base,
                  str_eq_refl base,
                  skipped,
                )
                refl
          | inr asked ↦
              rw
                (
                  authenticate,
                  read_payload,
                  decoded,
                  decrypted,
                  kind,
                  to_base,
                  own_base,
                  str_eq_refl base,
                  asked,
                  found,
                  verified,
                )
                refl
        ]

    -- A message that is not a broadcast and that an outbox hands to the wire is pushed, unchanged,
    -- into the inbox of the stream that carries the bytes: the stream reaches the identity that the
    -- message names, whose document publishes the key; the sender's document is resolved; the
    -- message is fresh and verifies; and the guard has no entry for its id in the window.
    pub deliver-send :
        (wire : Bytes → ServiceResult (Unit {0})) (checked enclosed : Reading) (draw : Draw)
        (message : Message) (outbox : Outbox) (sender : Document) (payload : Bytes)
        (clocks : Clocks) (s : Shared) (inbox : Inbox) (protocol base : Str)
        (left right : Option Str) (now pruned inserted : ℕ)
        → (send crates wire checked enclosed draw message outbox).0 ≡ some payload
        → outbox.local ≡ false
        → str_eq message.message_type message_type_broadcast ≡ false
        → length draw.headers_nonce ≡ 24
        → length draw.content_nonce ≡ 24
        → key_agreement_public_key_bytes doc outbox.recipient_document
          ≡ ok (doc.crypto.x25519_public s.security.recipient_key.private_key)
        → validate_message_freshness clocks.opened message.created_at message.exp ≡ ok tt
        → validate_message_freshness clocks.made message.created_at message.exp ≡ ok tt
        → Create.verify_with_document crates clocks.verified message sender ≡ ok tt
        → Did.parse cids message.to ≡ ok (base, left)
        → Did.parse cids (Did.id s.security.recipient_key.did) ≡ ok (base, right)
        → resolver message.from ≡ ok sender
        → clocks.pruned ≡ ok pruned
        → clocks.inserted ≡ ok inserted
        → Check.validate cids clocks.checked (Create.headers crates message) ≡ ok tt
        → any
            (blocks message.id s.security.replay_guard.window_secs pruned)
            s.security.replay_guard.seen
          ≡ false
        → (handle_stream crates resolver clocks now protocol inbox (complete payload) s).store
          ≡ (Inbox.push inbox now message.exp message s.store).1
    unfolding handle_stream deliver Create.headers Create.unsigned_headers
    deliver-send wire checked enclosed draw message outbox sender payload clocks s inbox protocol
          base left right now pruned inserted sent remote kind hn cn published fresh1 fresh2
          verified to_base own_base found at_pruned at_inserted valid unseen =
        let (envelope, decoded, opened) =
          open-send crates wire checked enclosed clocks.opened clocks.made clocks.verified draw
            message outbox sender s.security.recipient_key payload sent remote kind hn cn published
            fresh1 fresh2 verified in
        let authentic =
          authenticate-opened clocks s.security.recipient_key sender payload envelope message
            protocol base left right decoded opened kind to_base own_base found in
        let accepted =
          (check_and_insert_iff cids clocks.checked pruned inserted (Create.headers crates message)
              s.security.replay_guard).1
            (valid, unseen) in
        let decoded_message =
          (decode_iff crates resolver clocks s.security payload protocol message).1
            (authentic, rw (at_pruned, at_inserted) accepted) in
        rw decoded_message refl
