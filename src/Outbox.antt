-- ===== src/Outbox.antt =====
-- src/outbox.rs: sending a message through a transport. What the wire answers is the parameter
-- `wire`; `send` also returns the payload that was handed to it.
pub mod Sent
pub mod Tests
use rust_ma_core.Common.{
  Str, Bytes, codes, Bool, true, false, ◌||◌, str_eq, Option, none, some, ok, err, map_err, ◌>>=◌,
  ◌>>◌, if◌then◌else◌,
}
use rust_ma_core.Error.{Error, ServiceResult, validation, connection_closed}
use rust_ma_core.Doc.Types.{Document}
use rust_ma_core.Msg.Types.{Reading, Message, message_type_broadcast}
use rust_ma_core.Msg.Crates.{MsgCrates}
use rust_ma_core.Msg.Check
use rust_ma_core.Msg.Create
use rust_ma_core.Msg.Seal

-- `inner` is `none` or a transport.
pub record Outbox : Type 0 where
  pub is_open : Bool
  pub recipient_document : Document
  pub local : Bool
  pub did : Str
  pub protocol : Str

unfoldable pub from_transport : Document → Bool → Str → Str → Outbox
from_transport recipient_document local did protocol = record {
  is_open = true;
  recipient_document = recipient_document;
  local = local;
  did = did;
  protocol = protocol;
}

unfoldable pub close : Outbox → Outbox
close outbox = record outbox { is_open = false }

-- What a sealing draws at random: the ephemeral secret and the two nonces.
pub record Draw : Type 0 where
  pub secret : Bytes
  pub headers_nonce : Bytes
  pub content_nonce : Bytes

module _ (crates : MsgCrates) (wire : Bytes → ServiceResult (Unit {0})) where
  open crates use {doc}

  -- The envelope of a message, encoded.
  unfoldable pub seal : Reading → Draw → Message → Document → ServiceResult Bytes
  seal enclosed draw message recipient_document = do
    envelope ← map_err validation (
        Seal.enclose_for crates enclosed draw.secret draw.headers_nonce draw.content_nonce message
          recipient_document)
    map_err validation (Seal.encode crates envelope)

  -- The second reading is that of `enclose_for`.
  unfoldable pub payload_of : Reading → Reading → Draw → Message → Outbox → ServiceResult Bytes
  unfolding seal
  payload_of checked enclosed draw message outbox = do
    map_err validation (Check.validate doc.cids checked (Create.headers crates message))
    if outbox.local || str_eq message.message_type message_type_broadcast
        then map_err validation (Create.encode crates message)
        else seal enclosed draw message outbox.recipient_document

  unfoldable pub deliver : Outbox → Bytes → Option Bytes × ServiceResult (Unit {0})
  deliver outbox payload =
      if outbox.is_open
      then (some payload, wire payload)
      else (none, err (connection_closed (codes "outbox is closed")))

  unfoldable pub send :
      Reading → Reading → Draw → Message → Outbox → Option Bytes × ServiceResult (Unit {0})
  unfolding deliver
  send checked enclosed draw message outbox =
      elim (payload_of checked enclosed draw message outbox) [
        | err e ↦ (none, err e)
        | ok payload ↦ deliver outbox payload
      ]
