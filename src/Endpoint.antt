-- ===== src/Endpoint.antt =====
-- `IrohEndpoint` of src/iroh/endpoint.rs: the registered services with their inboxes, the inbound
-- router and the cached connections. The queues of the inboxes stand in the store of Inbox; a
-- connection is its handle.
pub mod Registry
pub mod History
pub mod Outbound
pub mod Replies
pub mod Connections
pub mod Exclusive
pub mod Sharing
pub mod Sending
pub mod Broadcast
pub mod Tests
use rust_ma_core.Common.{
  is_some, ℕ, Str, Bool, true, false, not, any, retain, is_empty, map, str_eq, Option, none, some,
  List, [], ◌∷◌, ◌++◌, if◌then◌else◌,
}
use rust_ma_core.Common.Maps.{get, insert, remove}
use rust_ma_core.Inbox
use rust_ma_core.Inbox.{Inbox, Store}
use rust_ma_core.Msg.Types.{Message}
use rust_ma_core.Transport.{normalize_protocol, transport_string}

abbrev pub default_inbox_capacity : ℕ
default_inbox_capacity = 256

-- A map with texts as keys.
abbrev pub Inboxes : Type 0
Inboxes = List (Str × Inbox)

-- The router is none or the protocols and inboxes of its handlers.
pub record IrohEndpoint : Type 0 where
  pub endpoint_id : Str
  pub protocols : List Str
  pub inboxes : Inboxes
  pub router : Option Inboxes
  pub connection_cache : List ((Str × Str) × ℕ)

unfoldable pub new : Str → IrohEndpoint
new endpoint_id = record {
  endpoint_id = endpoint_id;
  protocols = [];
  inboxes = [];
  router = none;
  connection_cache = [];
}

abbrev pub contains : Str → List Str → Bool
contains p = any (λ q. str_eq q p)

-- The handlers that the loop of `start_router` registers.
unfoldable pub handlers : List Str → Inboxes → Inboxes
handlers [] inboxes = []
handlers (p ∷ rest) inboxes = elim (get str_eq p inboxes) [
  | none ↦ handlers rest inboxes
  | some inbox ↦ (p, inbox) ∷ handlers rest inboxes
]

unfoldable pub start_router : IrohEndpoint → IrohEndpoint
unfolding handlers
start_router e =
    if is_some e.router then e else record e { router = some (handlers e.protocols e.inboxes) }

unfoldable pub reload_router_if_running : IrohEndpoint → IrohEndpoint
unfolding start_router
reload_router_if_running e =
    if is_some e.router then start_router (record e { router = none }) else e

unfoldable pub remove_service : Str → IrohEndpoint → Bool × IrohEndpoint
unfolding reload_router_if_running
remove_service protocol e =
    let normalized = normalize_protocol protocol in
    if is_some (get str_eq normalized e.inboxes)
    then (
      true,
      reload_router_if_running (record e {
        inboxes = remove str_eq normalized e.inboxes;
        protocols = retain (λ p. not (str_eq p normalized)) e.protocols;
      }),
    )
    else (false, e)

-- `if !protocols.contains(&normalized) { protocols.push(..) }`.
unfoldable pub list_protocol : Str → List Str → List Str
list_protocol normalized protocols =
    if contains normalized protocols then protocols else protocols ++ normalized ∷ []

-- `if router.is_some() { reload } else { start }`.
unfoldable pub serve : IrohEndpoint → IrohEndpoint
unfolding reload_router_if_running
serve e = if is_some e.router then reload_router_if_running e else start_router e

-- `none` is the panic of an inbox without capacity.
unfoldable pub service :
    Str → IrohEndpoint → Store Message → Option (Inbox × IrohEndpoint × Store Message)
unfolding list_protocol serve
service protocol e store =
    let normalized = normalize_protocol protocol in
    let listed : IrohEndpoint = record e { protocols = list_protocol normalized e.protocols } in
    elim (get str_eq normalized e.inboxes) [
      | some existing ↦ some (existing, listed, store)
      | none ↦ elim (Inbox.new {A = Message} default_inbox_capacity store) [
        | none ↦ none
        | some (inbox, after) ↦ some (
          inbox,
          serve (record listed { inboxes = insert str_eq normalized inbox e.inboxes }),
          after,
        )
      ]
    ]

unfoldable pub services : IrohEndpoint → List Str
services e = map (transport_string e.endpoint_id) e.protocols

-- The connections that are closed, and the endpoint after it.
unfoldable pub close : IrohEndpoint → List ℕ × IrohEndpoint
close e =
    (map (λ entry. entry.1) e.connection_cache, record e { connection_cache = []; router = none })
