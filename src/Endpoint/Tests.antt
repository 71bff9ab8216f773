-- ===== src/Endpoint/Tests.antt =====
-- The theorems on src/endpoint.rs and src/iroh/endpoint.rs at a concrete endpoint, over the toy
-- crates.
use rust_ma_core.Common.{
  trim, ℕ, Str, codes, true, str_eq, none, some, List, [], ◌∷◌, ◌++◌, ok, err, ◌≡◌, refl, arith,
}
use rust_ma_core.Common.Maps.{get}
use rust_ma_core.Error.{validation, cbor_decode}
use rust_ma_core.External.Cids.{toy_cids}
use rust_ma_core.Did
use rust_ma_core.Inbox
use rust_ma_core.Inbox.{Inbox, Store}
use rust_ma_core.Doc.Types
use rust_ma_core.Doc.Types.{Document, Ipld}
use rust_ma_core.Doc.Extension.{texts, set_ma_extension}
use rust_ma_core.Doc.Tests.{alice_id, unsigned}
use rust_ma_core.Msg.Types.{Message, message_type_broadcast}
use rust_ma_core.Msg.Crates.{toy_msg_crates}
use rust_ma_core.Msg.Check.{validate, validate_protocol}
use rust_ma_core.Msg.Create
use rust_ma_core.Msg.Tests.{recipient_key, at, message, is_fresh}
use rust_ma_core.Outbox.{Outbox}
use rust_ma_core.Transport
use rust_ma_core.Transport.{Json, array, normalize_protocol}
use rust_ma_core.Endpoint
use rust_ma_core.Endpoint.{IrohEndpoint, services, service, remove_service}
use rust_ma_core.Endpoint.Registry.{
  IsRegistered, registered, fresh_queue, new_inbox, service_known, service_new,
  registered-IsRegistered,
}
use rust_ma_core.Endpoint.History.{
  State, registers, removes, closes, run, new-IsRegistered, run-IsRegistered,
}
use rust_ma_core.Endpoint.Outbound.{
  json_texts, ma_extension, Network, connect_outbox, outbox, checked_payload, loopback_send_payload,
  check_broadcast, local_broadcast, send_broadcast_to, no_local_inbox,
}
use rust_ma_core.Inbound.{Clocks, Shared}
use rust_ma_core.Endpoint.Sending.{outbox-ma_extension}
use rust_ma_core.Endpoint.Connections
use rust_ma_core.Endpoint.Connections.{Event, acts, returned, initial, is_closed, step}
use rust_ma_core.Endpoint.Exclusive.{step-live}
use rust_ma_core.Endpoint.Sharing.{run-shared}

abbrev id : Str
id = codes "0123456789abcdef0123456789abcdef0123456789abcdef0123456789abcdef"

abbrev inbox_protocol : Str
inbox_protocol = codes "/ma/inbox/0.0.1"

abbrev spelled : Str
spelled = codes "ma/inbox/0.0.1"

-- `Endpoint.new id`.
abbrev empty : IrohEndpoint
empty = record {
  endpoint_id = id;
  protocols = [];
  inboxes = [];
  router = none;
  connection_cache = [];
}

abbrev endpoint : IrohEndpoint
endpoint = registered inbox_protocol empty []

abbrev store : Store Message
store = [] ++ fresh_queue ∷ []

is_normal : normalize_protocol inbox_protocol ≡ inbox_protocol
unfolding normalize_protocol trim
is_normal = refl

is_registered : IsRegistered endpoint store
unfolding Endpoint.new
is_registered = registered-IsRegistered inbox_protocol empty [] is_normal (new-IsRegistered id) refl

run-IsRegistered_example :
    (t : State) × (run
        (registers spelled ∷ registers (codes "/ma/chat") ∷ removes spelled ∷ closes ∷ [])
        (Endpoint.new id, [])
      ≡ some t)
    × IsRegistered t.0 t.1
run-IsRegistered_example =
    run-IsRegistered id
      (registers spelled ∷ registers (codes "/ma/chat") ∷ removes spelled ∷ closes ∷ [])

abbrev inbox : Inbox
inbox = new_inbox []

is_known : get str_eq (normalize_protocol spelled) endpoint.inboxes ≡ some inbox
unfolding normalize_protocol trim
is_known = refl

is_again : service spelled endpoint store ≡ some (inbox, endpoint, store)
is_again = service_known spelled endpoint store inbox is_registered is_known

abbrev network : Network
network = record {
  EndpointId = Str;
  parse_endpoint_id = λ s. ok s;
  first_relay_url = none;
  get_or_connect = λ i addr p. ok 7;
  open_addr_cached = λ i addr p. ok 7;
  channel_send = λ c b. ok tt;
}

-- A conversion that keeps texts and lists.
unfoldable mutual
  to_json : Ipld → Json
  to_json (Types.text s) = Transport.text s
  to_json (Types.list items) = array (to_items items)
  to_json v = Transport.other

  to_items : Types.Items → Transport.Items
  to_items Types.nil = Transport.nil
  to_items (Types.item v rest) = Transport.item (to_json v) (to_items rest)

to_items-texts : (l : List Str) → to_items (texts l) ≡ json_texts l
unfolding to_items to_json
to_items-texts [] = refl
to_items-texts (s ∷ rest) = rw (to_items-texts rest) refl

to_value-texts :
    (l : List Str) → some (to_json (Types.list (texts l))) ≡ some (array (json_texts l))
unfolding to_json
to_value-texts l = rw (to_items-texts l) refl

abbrev published : Document
published = set_ma_extension (ma_extension endpoint) unsigned

outbox-ma_extension_example :
    outbox network (λ v. some (to_json v)) (λ did. ok published) alice_id spelled endpoint
    ≡ connect_outbox network published id alice_id spelled endpoint
unfolding normalize_protocol trim
outbox-ma_extension_example =
    outbox-ma_extension network (λ v. some (to_json v)) (λ did. ok published) endpoint endpoint
      store unsigned alice_id spelled to_value-texts is_registered (refl, refl) refl refl refl refl

abbrev local_outbox : Outbox
local_outbox = record {
  is_open = true;
  recipient_document = published;
  local = true;
  did = alice_id;
  protocol = spelled;
}

abbrev broadcast : Message
broadcast = record message { message_type = message_type_broadcast; to = [] }

is_broadcast : validate toy_cids at (Create.headers toy_msg_crates broadcast) ≡ ok tt
unfolding Create.headers Create.unsigned_headers validate validate_protocol trim Did.validate
    Did.validate_url Did.parse Did.validate_identifier Did.validate_fragment
is_broadcast = rw (is_fresh 1000 (omega arith) (omega arith)) refl

abbrev after_broadcast : Store Message
after_broadcast = (Inbox.push inbox 1000 4600 broadcast store).1

is_pushed :
    send_broadcast_to network toy_msg_crates at 1000 id spelled broadcast endpoint store
    ≡ (ok tt, after_broadcast)
unfolding send_broadcast_to local_broadcast check_broadcast normalize_protocol trim
is_pushed = rw is_broadcast refl

is_unregistered :
    (send_broadcast_to network toy_msg_crates at 1000 id alice_id broadcast endpoint store).0
    ≡ err (no_local_inbox alice_id)
unfolding send_broadcast_to local_broadcast check_broadcast normalize_protocol trim
is_unregistered = rw is_broadcast refl

is_garbage :
    (loopback_send_payload network toy_msg_crates at 1000 inbox [] store).0
    ≡ err (validation (cbor_decode []))
unfolding loopback_send_payload checked_payload Create.decode
is_garbage = refl

abbrev first : ℕ
first = 7

-- Two calls look at the empty cache before either connects.
abbrev events : List Event
events =
    acts 0 (ok 7)
    ∷ acts 1 (ok 8)
    ∷ acts 0 (ok 7)
    ∷ acts 1 (ok 8)
    ∷ acts 0 (ok 7)
    ∷ acts 1 (ok 8)
    ∷ acts 0 (ok 7)
    ∷ acts 0 (ok 7)
    ∷ acts 0 (ok 7)
    ∷ acts 1 (ok 8)
    ∷ acts 1 (ok 8)
    ∷ acts 1 (ok 8)
    ∷ []

run-shared_example : (first ≡ first) × ((Connections.run events initial).made ≡ 1)
unfolding Connections.run
run-shared_example = run-shared events 0 1 first first refl refl refl

abbrev start_id : ℕ
start_id = 0

abbrev begun : List Event
begun = acts 0 (ok 7) ∷ acts 0 (ok 7) ∷ acts 0 (ok 7) ∷ []

step-live_example : (step (acts 1 (ok 8)) (Connections.run events initial)).cached ≡ some first
unfolding Connections.run
step-live_example = step-live events 1 first (ok 8) refl refl refl

abbrev shared : Shared
shared = record {
  security = record {
    recipient_key = recipient_key;
    replay_guard = record { seen = []; window_secs = 120 };
  };
  store = store;
}

abbrev clocks : Clocks
clocks = record { opened = at; made = at; verified = at; checked = at; pruned = at; inserted = at }

is_first :
    service spelled empty [] ≡ some (inbox, registered (normalize_protocol spelled) empty [], store)
unfolding normalize_protocol trim Endpoint.new
is_first = service_new spelled empty [] (new-IsRegistered id) refl
