-- ===== src/Endpoint/Broadcast.antt =====
-- Broadcasts, and what a refused message leaves, in src/iroh/endpoint.rs.
use rust_ma_core.Common.{
  ℕ, Str, Bytes, true, str_eq, str_eq_iff, str_eq_refl, some, ok, err, map_err, ◌≡◌, ◌⊎◌, ◌≢◌, inl,
  inr, refl, arith, >>=-eq-ok, >>-eq-ok, map_err-eq-ok, not-eq-ok, ok_or-eq-ok, Bool-cases,
  Result-cases,
}
use rust_ma_core.Common.Maps.{get}
use rust_ma_core.Error.{Error, ServiceResult, validation}
use rust_ma_core.Inbox
use rust_ma_core.Inbox.{Inbox, Store}
use rust_ma_core.Msg.Types.{Reading, Message, message_type_broadcast}
use rust_ma_core.Msg.Crates.{MsgCrates}
use rust_ma_core.Msg.Check
use rust_ma_core.Msg.Create
use rust_ma_core.Transport.{normalize_protocol}
use rust_ma_core.Endpoint.{IrohEndpoint}
use rust_ma_core.Endpoint.Outbound.{
  Network, checked_payload, push_checked, loopback_send_payload, check_broadcast, push_local,
  local_broadcast, remote_broadcast, send_broadcast_to,
}

module _ (net : Network) (crates : MsgCrates) where
  open crates use {doc}

  check_broadcast-eq-ok :
      (checked : Reading) (message : Message)
      → check_broadcast net crates checked message ≡ ok tt
      → (Check.validate doc.cids checked (Create.headers crates message) ≡ ok tt)
        × (str_eq message.message_type message_type_broadcast ≡ true)
  unfolding check_broadcast
  check_broadcast-eq-ok checked message h =
      let (valid, h1) =
        >>-eq-ok
          (map_err validation (Check.validate doc.cids checked (Create.headers crates message))) _
          h in
      (map_err-eq-ok _ _ valid, not-eq-ok _ _ h1)

  push_local-eq-ok :
      (now : ℕ) (r : ServiceResult Inbox) (message : Message) (store after : Store Message)
      → push_local net crates now r message store ≡ (ok tt, after)
      → (inbox : Inbox) × (r ≡ ok inbox)
        × (after ≡ (Inbox.push inbox now message.exp message store).1)
  push_local-eq-ok now (err x) message store after h = cc
  push_local-eq-ok now (ok inbox) message store after h = (inbox, refl, ground (arith, h))

  -- A broadcast that was sent was a valid one: its headers are valid and it has the type of a
  -- broadcast. Sent to the endpoint itself, it was pushed into the inbox of the protocol; sent to
  -- another endpoint, it was encoded, and no inbox was touched.
  pub send_broadcast_to-IsBroadcast :
      (checked : Reading) (now : ℕ) (target protocol : Str) (message : Message) (e : IrohEndpoint)
      (store after : Store Message)
      → send_broadcast_to net crates checked now target protocol message e store ≡ (ok tt, after)
      → (Check.validate doc.cids checked (Create.headers crates message) ≡ ok tt)
        × (str_eq message.message_type message_type_broadcast ≡ true)
        × (((target ≡ e.endpoint_id)
              × ((inbox : Inbox) × (get str_eq (normalize_protocol protocol) e.inboxes ≡ some inbox)
                  × (after ≡ (Inbox.push inbox now message.exp message store).1)))
            ⊎ ((target ≢ e.endpoint_id)
                × (after ≡ store)
                × ((cbor : Bytes) × (Create.encode crates message ≡ ok cbor))))
  unfolding send_broadcast_to local_broadcast remote_broadcast
  send_broadcast_to-IsBroadcast checked now target protocol message e store after h =
      elim (Bool-cases (str_eq target e.endpoint_id)) [
        | inl here ↦
            let sent : push_local net crates now
                  (local_broadcast net crates checked protocol message e) message store
                ≡ (ok tt, after) =
              ground (arith, h, here) in
            let (inbox, found, pushed) =
              push_local-eq-ok now (local_broadcast net crates checked protocol message e) message
                store after sent in
            let (p1, h1) = >>-eq-ok (check_broadcast net crates checked message) _ found in
            let (valid, kind) = check_broadcast-eq-ok checked message p1 in
            (
              valid,
              kind,
              inl ((str_eq_iff target e.endpoint_id).0 here, (inbox, ok_or-eq-ok _ _ h1, pushed)),
            )
        | inr there ↦
            let sent : remote_broadcast net crates checked target protocol message ≡ ok tt =
              ground (arith, h, there) in
            let (p1, h1) = >>-eq-ok (check_broadcast net crates checked message) _ sent in
            let (valid, kind) = check_broadcast-eq-ok checked message p1 in
            let (cbor, encoded, h2) =
              >>=-eq-ok (map_err validation (Create.encode crates message)) _ h1 in
            (
              valid,
              kind,
              inr (
                λ same. ground (arith, there, same, str_eq_refl e.endpoint_id),
                ground (arith, h, there),
                (cbor, map_err-eq-ok _ _ encoded),
              ),
            )
      ]

  -- A broadcast or a message to the endpoint itself that is refused leaves every inbox as it was.
  pub send_broadcast_to-refused :
      (checked : Reading) (now : ℕ) (target protocol : Str) (message : Message) (e : IrohEndpoint)
      (inbox : Inbox) (payload : Bytes) (store : Store Message) (x y : Error)
      → (send_broadcast_to net crates checked now target protocol message e store).0 ≡ err x
      → (loopback_send_payload net crates checked now inbox payload store).0 ≡ err y
      → ((send_broadcast_to net crates checked now target protocol message e store).1 ≡ store)
        × ((loopback_send_payload net crates checked now inbox payload store).1 ≡ store)
  unfolding send_broadcast_to loopback_send_payload push_checked
  send_broadcast_to-refused checked now target protocol message e inbox payload store x y h k = (
    ground (
      arith,
      h,
      Bool-cases (str_eq target e.endpoint_id),
      Result-cases (local_broadcast net crates checked protocol message e),
    ),
    ground (arith, k, Result-cases (checked_payload net crates checked payload)),
  )
