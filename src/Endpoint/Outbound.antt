-- ===== src/Endpoint/Outbound.antt =====
-- The sending side of src/iroh/endpoint.rs and the default methods of src/endpoint.rs. The network
-- is a parameter: the parser of endpoint ids, the relay, connections and channels.
use rust_ma_core.Common.{
  ℕ, Str, Bytes, codes, true, false, List, [], ◌∷◌, Result, not, str_eq, trim, Option, none, some,
  ◌++◌, ok, err, fail_if, ok_or, map_err, ◌>>=◌, ◌>>◌, if◌then◌else◌,
}
use rust_ma_core.Common.Maps.{get}
use rust_ma_core.Error.{
  Error, ServiceResult, validation, transport, no_inbox_transport, invalid_message_type,
}
use rust_ma_core.Inbox
use rust_ma_core.Inbox.{Inbox, Store}
use rust_ma_core.Doc.Types.{Document, Ipld}
use rust_ma_core.Doc.Extension
use rust_ma_core.Doc.Extension.{MaExtension, ma_field, services_key}
use rust_ma_core.Msg.Types.{Reading, Message, message_type_broadcast}
use rust_ma_core.Msg.Crates.{MsgCrates}
use rust_ma_core.Msg.Check
use rust_ma_core.Msg.Create
use rust_ma_core.Outbox.{Outbox, from_transport}
use rust_ma_core.Transport.{
  Json, Items, nil, item, text, array, normalize_protocol, resolve_endpoint_for_protocol,
}
use rust_ma_core.Endpoint.{IrohEndpoint, services}

-- `Value::Array` of the strings.
abbrev pub json_texts : List Str → Items
json_texts [] = nil
json_texts (s ∷ rest) = item (text s) (json_texts rest)

unfoldable pub services_json : IrohEndpoint → Json
services_json e = array (json_texts (services e))

unfoldable pub ma_extension : IrohEndpoint → MaExtension
ma_extension e = Extension.services (services e) Extension.new

-- An id of an endpoint and the relay that is hinted.
pub record EndpointAddr (EndpointId : Type 0) : Type 0 where
  pub id : EndpointId
  pub relay_url : Option Str

pub record Network : Type 1 where
  pub EndpointId : Type 0
  pub parse_endpoint_id : Str → Result Str EndpointId
  pub first_relay_url : Option Str
  pub get_or_connect : Str → EndpointAddr EndpointId → Str → ServiceResult ℕ
  pub open_addr_cached : Str → EndpointAddr EndpointId → Str → ServiceResult ℕ
  pub channel_send : ℕ → Bytes → ServiceResult (Unit {0})

-- The wire of an outbox: `LoopbackWire` or `CachedChannel`.
pub data Wire : Type 0 where
  loopback_wire : Inbox → Wire
  cached_channel : ℕ → Wire

abbrev pub no_local_inbox : Str → Error
no_local_inbox protocol = no_inbox_transport (codes "no local inbox for " ++ protocol)

module _ (net : Network) where
  open net use {
    EndpointId, parse_endpoint_id, first_relay_url, get_or_connect, open_addr_cached, channel_send,
  }

  unfoldable pub resolve_addr : Str → ServiceResult (EndpointAddr EndpointId)
  resolve_addr endpoint_id = do
    target_id ←
        map_err (λ e. transport (codes "invalid endpoint id: " ++ e))
          (parse_endpoint_id (trim endpoint_id))
    ok (record { id = target_id; relay_url = first_relay_url })

  unfoldable pub connect_local : Document → Str → Str → IrohEndpoint → ServiceResult (Outbox × Wire)
  connect_local doc did protocol e = do
    inbox ← ok_or (get str_eq (normalize_protocol protocol) e.inboxes) (no_local_inbox protocol)
    ok (from_transport doc true did protocol, loopback_wire inbox)

  unfoldable pub connect_remote : Document → Str → Str → Str → ServiceResult (Outbox × Wire)
  unfolding resolve_addr
  connect_remote doc endpoint_id did protocol = do
    addr ← resolve_addr endpoint_id
    connection ← get_or_connect endpoint_id addr protocol
    ok (from_transport doc false did protocol, cached_channel connection)

  unfoldable pub connect_outbox :
      Document → Str → Str → Str → IrohEndpoint → ServiceResult (Outbox × Wire)
  unfolding connect_local connect_remote
  connect_outbox doc endpoint_id did protocol e =
      if str_eq endpoint_id e.endpoint_id
      then connect_local doc did protocol e
      else connect_remote doc endpoint_id did protocol

  module _ (to_value : Ipld → Option Json) where
    -- `services.and_then(|services| serde_json::to_value(services).ok())`.
    unfoldable pub document_services : Document → Option Json
    document_services doc = elim (ma_field services_key doc) [
      | none ↦ none
      | some value ↦ to_value value
    ]

    unfoldable pub outbox :
        (Str → ServiceResult Document) → Str → Str → IrohEndpoint → ServiceResult (Outbox × Wire)
    unfolding document_services
    outbox resolver did protocol e = do
      doc ← resolver did
      endpoint_id ←
          ok_or (resolve_endpoint_for_protocol (document_services doc) protocol)
            (no_inbox_transport (did ++ codes " has no service for " ++ protocol))
      connect_outbox doc endpoint_id did protocol e

  module _ (crates : MsgCrates) where
    open crates use {doc}

    -- `LoopbackWire::send_payload`: the inbox is written unless an error comes first.
    unfoldable pub checked_payload : Reading → Bytes → ServiceResult Message
    checked_payload checked payload = do
      message ← map_err validation (Create.decode crates payload)
      map_err validation (Check.validate doc.cids checked (Create.headers crates message))
      ok message

    -- The push of a message behind a chain of fallible steps.
    unfoldable pub push_checked :
        ℕ → Inbox → ServiceResult Message → Store Message → ServiceResult (Unit {0}) × Store Message
    push_checked now inbox (err e) store = (err e, store)
    push_checked now inbox (ok message) store =
        (ok tt, (Inbox.push inbox now message.exp message store).1)

    unfoldable pub loopback_send_payload :
        Reading → ℕ → Inbox → Bytes → Store Message → ServiceResult (Unit {0}) × Store Message
    unfolding checked_payload push_checked
    loopback_send_payload checked now inbox payload store =
        push_checked now inbox (checked_payload checked payload) store

    unfoldable pub check_broadcast : Reading → Message → ServiceResult (Unit {0})
    check_broadcast checked message = do
      map_err validation (Check.validate doc.cids checked (Create.headers crates message))
      fail_if (not (str_eq message.message_type message_type_broadcast))
          (validation invalid_message_type)

    -- The local inbox of a broadcast, or the bytes and the channel of a remote one.
    unfoldable pub local_broadcast : Reading → Str → Message → IrohEndpoint → ServiceResult Inbox
    unfolding check_broadcast
    local_broadcast checked protocol message e = do
      check_broadcast checked message
      ok_or (get str_eq (normalize_protocol protocol) e.inboxes) (no_local_inbox protocol)

    unfoldable pub remote_broadcast : Reading → Str → Str → Message → ServiceResult (Unit {0})
    unfolding check_broadcast resolve_addr
    remote_broadcast checked target protocol message = do
      check_broadcast checked message
      cbor ← map_err validation (Create.encode crates message)
      addr ← resolve_addr target
      channel ← open_addr_cached target addr protocol
      channel_send channel cbor

    abbrev pub push_local :
        ℕ → ServiceResult Inbox → Message → Store Message → ServiceResult (Unit {0}) × Store Message
    push_local now (err e) message store = (err e, store)
    push_local now (ok inbox) message store =
        (ok tt, (Inbox.push inbox now message.exp message store).1)

    unfoldable pub send_broadcast_to :
        Reading
        → ℕ
        → Str
        → Str
        → Message
        → IrohEndpoint
        → Store Message
        → ServiceResult (Unit {0}) × Store Message
    unfolding local_broadcast remote_broadcast
    send_broadcast_to checked now target protocol message e store =
        if str_eq target e.endpoint_id
        then push_local now (local_broadcast checked protocol message e) message store
        else (remote_broadcast checked target protocol message, store)
