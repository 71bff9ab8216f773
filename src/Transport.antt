-- ===== src/Transport.antt =====
-- src/transport.rs: transport strings `/iroh/<endpoint-id>/<protocol>` and the endpoints that a
-- document's services name. A JSON value keeps what the code looks at.
pub mod Strings
pub mod Services
pub mod Tests
use rust_ma_core.Common.{
  Str, codes, not, ◌||◌, ◌==◌, all, is_empty, is_ascii_hexdigit, to_ascii_lowercase, trim,
  trim_start_matches, split, strip_prefix, find, drop, head?, str_eq, map, Option, none, some, [],
  ◌∷◌, ◌++◌, length, if◌then◌else◌,
}

abbrev pub iroh_prefix : Str
iroh_prefix = codes "/iroh/"

-- `serde_json::Value`: a text, an array, an object as its keys and values, or another value.
mutual
  pub data Json : Type 0 where
    text : Str → Json
    array : Items → Json
    object : Entries → Json
    other : Json

  pub data Items : Type 0 where
    nil : Items
    item : Json → Items → Items

  pub data Entries : Type 0 where
    end : Entries
    entry : Str → Json → Entries → Entries

-- `a.or_else(b)`, and the loop that returns the first result.
abbrev pub or_else {ℓ} : {A : Type ℓ} → Option A → Option A → Option A
or_else none o = o
or_else (some a) o = some a

-- `len()` counts bytes; 64 bytes that are all hexadecimal digits are 64 characters.
unfoldable pub normalize_address : Str → Option Str
normalize_address endpoint =
    if not (length endpoint == 64) || not (all is_ascii_hexdigit endpoint)
    then none
    else some (map to_ascii_lowercase endpoint)

unfoldable pub normalize_endpoint_id : Str → Option Str
unfolding normalize_address
normalize_endpoint_id address = elim (strip_prefix iroh_prefix (trim address)) [
  | none ↦ normalize_address (trim address)
  | some endpoint ↦ normalize_address endpoint
]

-- `rest.split('/').next().unwrap_or_default()`.
unfoldable pub first_segment : Str → Str
first_segment rest = elim (head? (split b'/' rest)) [ none ↦ [] | some s ↦ s ]

-- The part behind the prefix.
unfoldable pub endpoint_of_rest : Str → Option Str
unfolding first_segment normalize_endpoint_id
endpoint_of_rest rest =
    let endpoint = trim (first_segment rest) in
    if is_empty endpoint then none else normalize_endpoint_id endpoint

unfoldable pub endpoint_id_from_transport : Str → Option Str
unfolding endpoint_of_rest
endpoint_id_from_transport input =
    let value = trim input in
    if is_empty value then none else elim (strip_prefix iroh_prefix value) [
      | some rest ↦ endpoint_of_rest rest
      | none ↦ normalize_endpoint_id value
    ]

-- The text from the first slash on is never empty.
unfoldable pub protocol_of_rest : Str → Option Str
protocol_of_rest rest = elim (find b'/' rest) [
  | none ↦ none
  | some after_id ↦ some (drop after_id rest)
]

unfoldable pub protocol_from_transport : Str → Option Str
unfolding protocol_of_rest
protocol_from_transport input = elim (strip_prefix iroh_prefix (trim input)) [
  | none ↦ none
  | some rest ↦ protocol_of_rest rest
]

unfoldable pub normalize_protocol : Str → Str
unfolding trim_start_matches
normalize_protocol input =
    let protocol = trim input in
    if is_empty protocol then [] else b'/' ∷ trim_start_matches b'/' protocol

unfoldable pub transport_string : Str → Str → Str
unfolding normalize_protocol
transport_string endpoint_id protocol = iroh_prefix ++ endpoint_id ++ normalize_protocol protocol

-- `map.get(key)`.
unfoldable pub get : Str → Entries → Option Json
get key end = none
get key (entry k v rest) = let later = get key rest in if str_eq k key then some v else later

abbrev pub as_str : Json → Option Str
as_str (text s) = some s
as_str (array items) = none
as_str (object entries) = none
as_str other = none

-- One round of the loop over the keys.
unfoldable pub endpoint_at : Str → Entries → Option Str
unfolding get endpoint_id_from_transport
endpoint_at key entries = elim (get key entries) [
  | none ↦ none
  | some v ↦ elim (as_str v) [ none ↦ none | some s ↦ endpoint_id_from_transport s ]
]

unfoldable pub endpoint_of_object : Entries → Option Str
unfolding endpoint_at
endpoint_of_object entries = or_else (endpoint_at (codes "endpoint_id") entries) (
    or_else (endpoint_at (codes "endpointId") entries)
      (or_else (endpoint_at (codes "iroh") entries) (endpoint_at (codes "address") entries)))

unfoldable pub endpoint_id_from_transport_value : Json → Option Str
unfolding endpoint_of_object
endpoint_id_from_transport_value (text s) = endpoint_id_from_transport s
endpoint_id_from_transport_value (object entries) = endpoint_of_object entries
endpoint_id_from_transport_value (array items) = none
endpoint_id_from_transport_value other = none

-- The loop over an array: the first item that yields an endpoint.
unfoldable pub first_endpoint : (Json → Option Str) → Items → Option Str
first_endpoint f nil = none
first_endpoint f (item v rest) = or_else (f v) (first_endpoint f rest)

abbrev resolve_value : (Json → Option Str) → Json → Option Str
resolve_value f (array items) = first_endpoint f items
resolve_value f (text s) = f (text s)
resolve_value f (object entries) = f (object entries)
resolve_value f other = f other

unfoldable pub resolve_inbox_endpoint_id : Option Json → Option Str
unfolding first_endpoint endpoint_id_from_transport_value
resolve_inbox_endpoint_id none = none
resolve_inbox_endpoint_id (some services) = resolve_value endpoint_id_from_transport_value services

-- The protocol of an object: `protocol`, else `service`, else `alpn`, if it is a text.
unfoldable pub protocol_of_object : Entries → Option Str
unfolding get
protocol_of_object entries =
    elim (or_else (get (codes "protocol") entries)
      (or_else (get (codes "service") entries) (get (codes "alpn") entries))) [
        | none ↦ none
        | some v ↦ as_str v
      ]

unfoldable pub endpoint_for_service_item : Str → Json → Option Str
unfolding protocol_from_transport normalize_protocol endpoint_id_from_transport protocol_of_object
    endpoint_of_object
endpoint_for_service_item target (text s) = elim (protocol_from_transport s) [
  | none ↦ none
  | some protocol ↦
      if str_eq (normalize_protocol protocol) target then endpoint_id_from_transport s else none
]
endpoint_for_service_item target (object entries) = elim (protocol_of_object entries) [
  | none ↦ none
  | some protocol ↦
      if str_eq (normalize_protocol protocol) target then endpoint_of_object entries else none
]
endpoint_for_service_item target (array items) = none
endpoint_for_service_item target other = none

unfoldable pub resolve_endpoint_for_protocol : Option Json → Str → Option Str
unfolding first_endpoint endpoint_for_service_item
resolve_endpoint_for_protocol none target_protocol = none
resolve_endpoint_for_protocol (some services) target_protocol =
    resolve_value (endpoint_for_service_item (normalize_protocol target_protocol)) services
