-- ===== src/Endpoint/Sending.antt =====
-- What the sending side of src/endpoint.rs and src/iroh/endpoint.rs reaches.
use rust_ma_core.Common.{
  Str, true, false, is_empty, map, to_ascii_lowercase, str_eq, str_eq_iff, trim, All, Option, some,
  List, [], ◌∷◌, ok, ◌≡◌, inl, inr, refl, arith, Bool-cases,
}
use rust_ma_core.Error.{ServiceResult}
use rust_ma_core.Inbox
use rust_ma_core.Inbox.{Inbox, Store}
use rust_ma_core.Doc.Types.{Document, Ipld, list}
use rust_ma_core.Doc.Extension
use rust_ma_core.Doc.Extension.{ma_field, services_key, texts, set_ma_extension, ma_field-built}
use rust_ma_core.Msg.Types.{Message}
use rust_ma_core.Msg.Check
use rust_ma_core.Msg.Create
use rust_ma_core.Outbox.{Outbox}
use rust_ma_core.Transport.{
  Json, array, normalize_protocol, transport_string, resolve_endpoint_for_protocol,
}
use rust_ma_core.Transport.Strings.{IsEndpointId}
use rust_ma_core.Transport.Services.{
  services_of, endpoint_of, resolve_endpoint_for_protocol-services_of,
}
use rust_ma_core.Endpoint.{IrohEndpoint, contains, services}
use rust_ma_core.Endpoint.Registry.{IsNormal, IsRegistered}
use rust_ma_core.Endpoint.Outbound.{
  json_texts, ma_extension, Network, connect_outbox, document_services, outbox,
}

-- The pairs that are printed as the services of one endpoint.
abbrev pairs : Str → List Str → List (Str × Str)
pairs id [] = []
pairs id (p ∷ rest) = (id, p) ∷ pairs id rest

json_texts-services :
    (id : Str) (ps : List Str)
    → json_texts (map (transport_string id) ps) ≡ services_of (pairs id ps)
json_texts-services id [] = refl
json_texts-services id (p ∷ rest) = rw (json_texts-services id rest) refl

All-pairs : (id : Str) (ps : List Str) → IsEndpointId id → All (λ s. IsEndpointId s.0) (pairs id ps)
All-pairs id [] h = tt
All-pairs id (p ∷ rest) h = (h, All-pairs id rest h)

endpoint_of-pairs :
    (id target : Str) (ps : List Str)
    → All IsNormal ps
    → is_empty (trim target) ≡ false
    → contains target ps ≡ true
    → endpoint_of target (pairs id ps) ≡ some (map to_ascii_lowercase id)
endpoint_of-pairs id target [] n h c = cc
endpoint_of-pairs id target (p ∷ rest) n h c = elim (Bool-cases (str_eq p target)) [
  | inl same ↦
      let eq : p ≡ target = (str_eq_iff p target).0 same in
      let clear : is_empty (trim p) ≡ false = rw eq h in rw (clear, n.0, same) refl
  | inr other ↦
      let later : contains target rest ≡ true = ground (arith, c, other) in
      ground (arith, n.0, other, endpoint_of-pairs id target rest (n.1) h later)
]

resolved :
    (e : IrohEndpoint) (store : Store Message) (protocol : Str)
    → IsRegistered e store
    → IsEndpointId e.endpoint_id
    → map to_ascii_lowercase e.endpoint_id ≡ e.endpoint_id
    → is_empty (trim (normalize_protocol protocol)) ≡ false
    → contains (normalize_protocol protocol) e.protocols ≡ true
    → resolve_endpoint_for_protocol (some (array (json_texts (services e)))) protocol
      ≡ some e.endpoint_id
unfolding services
resolved e store protocol v id lower clear known =
    rw
      (
        json_texts-services e.endpoint_id e.protocols,
        resolve_endpoint_for_protocol-services_of protocol (pairs e.endpoint_id e.protocols)
            (All-pairs e.endpoint_id e.protocols id),
        endpoint_of-pairs e.endpoint_id (normalize_protocol protocol) e.protocols v.normal clear
            known,
        lower,
      )
      refl

module _ (net : Network) where
  -- A document that was given an endpoint's own `ma` extension leads every caller that asks for one
  -- of the endpoint's services, by any spelling of its protocol, to that endpoint: the id is
  -- printed in 64 lower case digits, the protocol is not blank, and the values of the document
  -- are turned to JSON as they are.
  pub outbox-ma_extension :
      (to_value : Ipld → Option Json) (resolver : Str → ServiceResult Document)
      (e caller : IrohEndpoint) (store : Store Message) (doc : Document) (did protocol : Str)
      → ((l : List Str) → to_value (list (texts l)) ≡ some (array (json_texts l)))
      → IsRegistered e store
      → IsEndpointId e.endpoint_id
      → map to_ascii_lowercase e.endpoint_id ≡ e.endpoint_id
      → is_empty (trim (normalize_protocol protocol)) ≡ false
      → contains (normalize_protocol protocol) e.protocols ≡ true
      → resolver did ≡ ok (set_ma_extension (ma_extension e) doc)
      → outbox net to_value resolver did protocol caller
        ≡ connect_outbox net
            (set_ma_extension (ma_extension e) doc)
            e.endpoint_id
            did
            protocol
            caller
  unfolding outbox document_services ma_extension
  outbox-ma_extension to_value resolver e caller store doc did protocol law v id lower clear known
        found =
      let field : ma_field services_key (set_ma_extension (ma_extension e) doc)
          ≡ some (list (texts (services e))) =
        (ma_field-built Extension.new doc services_key [] [] (services e) (list (texts []))).1 in
      rw
        (
          outbox,
          found,
          document_services,
          field,
          law (services e),
          resolved e store protocol v id lower clear known,
        )
        refl
