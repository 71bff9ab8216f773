-- ===== src/Inbound.antt =====
-- `InboundSecurity` of src/iroh/endpoint.rs and the handling of one inbound stream: decoding,
-- decryption, authentication, the replay guard and the delivery to an inbox. The resolver of
-- documents is the parameter `resolver`. Each reading of the clock is a field of `Clocks`.
pub mod Accepted
pub mod Once
pub mod Delivered
pub mod Tests
use rust_ma_core.Common.{
  ℕ, Str, Bytes, codes, Bool, true, false, ◌&&◌, not, str_eq, ok, err, fail_if, map_err, ◌>>=◌,
  ◌>>◌, if◌then◌else◌,
}
use rust_ma_core.Error.{
  Error, ServiceResult, validation, broadcast_must_not_be_encrypted, encryption_required,
  invalid_recipient,
}
use rust_ma_core.Did
use rust_ma_core.Doc.Types.{Document, EncryptionKey}
use rust_ma_core.Inbox
use rust_ma_core.Inbox.{Inbox, Store}
use rust_ma_core.Msg.Types.{Reading, Message, ReplayGuard, message_type_broadcast}
use rust_ma_core.Msg.Crates.{MsgCrates}
use rust_ma_core.Msg.Create
use rust_ma_core.Msg.Replay.{default_guard, check_and_insert}
use rust_ma_core.Msg.Seal
use rust_ma_core.Publish.{message_type_identity_publish_request}

abbrev pub ipfs_protocol_id : Str
ipfs_protocol_id = codes "/ma/ipfs/0.0.1"

-- The resolver and the crates are parameters; the guard is shared by all clones.
pub record InboundSecurity : Type 0 where
  pub recipient_key : EncryptionKey
  pub replay_guard : ReplayGuard

unfoldable pub new : EncryptionKey → InboundSecurity
unfolding default_guard
new recipient_key = record { recipient_key = recipient_key; replay_guard = default_guard }

unfoldable pub skip_resolver_verification : Str → Str → Bool
skip_resolver_verification protocol message_type =
    str_eq protocol ipfs_protocol_id && str_eq message_type message_type_identity_publish_request

-- The readings of `decrypt` (two), of the verification and of the guard (three).
pub record Clocks : Type 0 where
  pub opened : Reading
  pub made : Reading
  pub verified : Reading
  pub checked : Reading
  pub pruned : Reading
  pub inserted : Reading

-- What became of reading a stream to its end, under the limits of size and time.
pub data Incoming : Type 0 where
  complete : Bytes → Incoming
  failed : Incoming
  timed_out : Incoming

-- The shared state of the tasks: the security with its guard, and the queues of the inboxes.
pub record Shared : Type 0 where
  pub security : InboundSecurity
  pub store : Store Message

module _ (crates : MsgCrates) where
  open crates use {doc}
  open doc use {cids}

  unfoldable pub same_base_did : Str → Str → ServiceResult Bool
  same_base_did left right = do
    (left_base, left_fragment) ← map_err validation (Did.parse cids left)
    (right_base, right_fragment) ← map_err validation (Did.parse cids right)
    ok (str_eq left_base right_base)

  -- The message of a payload, and if it came in an envelope.
  unfoldable pub read_payload : Clocks → EncryptionKey → Bytes → ServiceResult (Message × Bool)
  read_payload clocks recipient_key payload = elim (Seal.decode crates payload) [
    | ok envelope ↦ do
      message ←
          map_err validation
            (Seal.decrypt_envelope crates clocks.opened clocks.made recipient_key envelope)
      ok (message, true)
    | err e ↦ do message ← map_err validation (Create.decode crates payload); ok (message, false)
  ]

  -- `encrypted && !same_base_did(..)?`.
  unfoldable pub check_recipient : Bool → Message → EncryptionKey → ServiceResult (Unit {0})
  unfolding same_base_did
  check_recipient false message recipient_key = ok tt
  check_recipient true message recipient_key = do
    same ← same_base_did message.to (Did.id recipient_key.did)
    fail_if (not same) (validation invalid_recipient)

  module _ (resolver : Str → ServiceResult Document) where
    unfoldable pub verify_sender : Reading → Str → Message → ServiceResult (Unit {0})
    verify_sender verified protocol message =
        if skip_resolver_verification protocol message.message_type then ok tt else do
          sender_document ← resolver message.from
          map_err validation (Create.verify_with_document crates verified message sender_document)

    -- The part of `decode` in front of the replay guard.
    unfoldable pub authenticate : Clocks → EncryptionKey → Bytes → Str → ServiceResult Message
    authenticate clocks recipient_key payload protocol = do
      (message, encrypted) ← read_payload clocks recipient_key payload
      fail_if (encrypted && str_eq message.message_type message_type_broadcast)
          (validation broadcast_must_not_be_encrypted)
      fail_if (not encrypted && not (str_eq message.message_type message_type_broadcast))
          (validation encryption_required)
      check_recipient encrypted message recipient_key
      verify_sender clocks.verified protocol message
      ok message

    -- The guard is asked about an authenticated message.
    unfoldable pub admit :
        Clocks → ReplayGuard → ServiceResult Message → ReplayGuard × ServiceResult Message
    admit clocks guard (err e) = (guard, err e)
    admit clocks guard (ok message) =
        let (after, result) =
          check_and_insert cids clocks.checked clocks.pruned clocks.inserted
            (Create.headers crates message) guard in
        (after, map_err validation result >> ok message)

    unfoldable pub decode :
        Clocks → InboundSecurity → Bytes → Str → InboundSecurity × ServiceResult Message
    decode clocks security payload protocol =
        let (guard, result) =
          admit clocks security.replay_guard
            (authenticate clocks security.recipient_key payload protocol) in
        (record security { replay_guard = guard }, result)

    unfoldable pub deliver : ℕ → Inbox → ServiceResult Message → Store Message → Store Message
    deliver now inbox (err e) store = store
    deliver now inbox (ok message) store = (Inbox.push inbox now message.exp message store).1

    -- The task of one stream: the stream is read, decoded and delivered; an error drops it.
    unfoldable pub handle_stream : Clocks → ℕ → Str → Inbox → Incoming → Shared → Shared
    unfolding deliver
    handle_stream clocks now protocol inbox failed s = s
    handle_stream clocks now protocol inbox timed_out s = s
    handle_stream clocks now protocol inbox (complete payload) s =
        let (security, result) = decode clocks s.security payload protocol in
        record { security = security; store = deliver now inbox result s.store }
