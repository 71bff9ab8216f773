-- ===== src/Transport/Services.antt =====
-- Resolving an endpoint from a document's list of services, in src/transport.rs.
use rust_ma_core.Common.{
  Str, is_empty, to_ascii_lowercase, trim, str_eq, map, All, Option, none, some, List, [], ◌∷◌, ◌≡◌,
  refl, arith, if◌then◌else◌,
}
use rust_ma_core.Transport.{
  Items, text, array, nil, item, normalize_protocol, transport_string, first_endpoint,
  endpoint_for_service_item, resolve_endpoint_for_protocol,
}
use rust_ma_core.Transport.Strings.{IsEndpointId, normalize_protocol_idem, parse-transport_string}

-- The services that are printed for endpoints and protocols.
abbrev pub services_of : List (Str × Str) → Items
services_of [] = nil
services_of ((id, protocol) ∷ rest) = item (text (transport_string id protocol)) (services_of rest)

-- The endpoint of the first pair with the protocol, in its normal form; a blank one is passed over.
abbrev pub endpoint_of : Str → List (Str × Str) → Option Str
endpoint_of target [] = none
endpoint_of target ((id, protocol) ∷ rest) =
    let later = endpoint_of target rest in
    if is_empty (trim protocol)
    then later
    else if str_eq (normalize_protocol protocol) target
    then some (map to_ascii_lowercase id)
    else later

item_lem :
    (target id protocol : Str)
    → IsEndpointId id
    → endpoint_for_service_item target (text (transport_string id protocol)) ≡ (
        if is_empty (trim protocol)
        then none
        else if str_eq (normalize_protocol protocol) target
        then some (map to_ascii_lowercase id)
        else none)
unfolding endpoint_for_service_item
item_lem target id protocol h =
    let (endpoint, found) = parse-transport_string id protocol h in
    ground (arith, endpoint, found, normalize_protocol_idem protocol)

first_endpoint-services_of :
    (target : Str) (services : List (Str × Str))
    → All (λ s. IsEndpointId s.0) services
    → first_endpoint (endpoint_for_service_item target) (services_of services)
      ≡ endpoint_of target services
unfolding first_endpoint
first_endpoint-services_of target [] h = refl
first_endpoint-services_of target ((id, protocol) ∷ rest) h =
    ground (arith, item_lem target id protocol h.0, first_endpoint-services_of target rest h.1)

-- From the services that a document lists as printed strings, the endpoint of the first one with
-- the wanted protocol is found, in lower case; protocols are compared in their normal form, so
-- that blanks around them and repeated slashes in front do not matter.
pub resolve_endpoint_for_protocol-services_of :
    (target : Str) (services : List (Str × Str))
    → All (λ s. IsEndpointId s.0) services
    → resolve_endpoint_for_protocol (some (array (services_of services))) target
      ≡ endpoint_of (normalize_protocol target) services
unfolding resolve_endpoint_for_protocol
resolve_endpoint_for_protocol-services_of target services h =
    first_endpoint-services_of (normalize_protocol target) services h
