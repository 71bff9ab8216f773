-- ===== src/Inbound/Tests.antt =====
-- The theorems on the inbound side of src/iroh/endpoint.rs at a concrete message, over the toy
-- crates.
use rust_ma_core.Common.{
  Str, Bytes, codes, any, true, none, some, [], ◌∷◌, List, ok, err, ◌≡◌, refl, arith,
}
use rust_ma_core.Error.{ServiceResult, validation, cbor_decode, replay_detected}
use rust_ma_core.External.Cids.{toy_cids}
use rust_ma_core.TtlQueue.{TtlQueue}
use rust_ma_core.Did
use rust_ma_core.Inbox
use rust_ma_core.Inbox.{Inbox}
use rust_ma_core.Doc.Types.{Document}
use rust_ma_core.Doc.Tests.{unsigned}
use rust_ma_core.Msg.Types.{Message}
use rust_ma_core.Msg.Crates.{toy_msg_crates, write_envelope}
use rust_ma_core.Msg.Check.{validate}
use rust_ma_core.Msg.Create
use rust_ma_core.Msg.Replay.{in_window}
use rust_ma_core.Msg.Seal
use rust_ma_core.Msg.Window.{blocks, check_and_insert_iff}
use rust_ma_core.Msg.Tests.{
  at, later, message, recipient_key, envelope, is_fresh, is_valid, is_published, is_authentic,
}
use rust_ma_core.Outbox.Sent.{open-send}
use rust_ma_core.Outbox.Tests.{outbox, draw, wire, is_sent}
use rust_ma_core.Inbound.{
  InboundSecurity, Clocks, Shared, Incoming, complete, failed, read_payload, authenticate, decode,
  admit, handle_stream,
}
use rust_ma_core.Inbound.Accepted.{
  IsAdmissible, guard_step, decode_iff, decode-IsAdmissible, decode-refused,
}
use rust_ma_core.Inbound.Once.{Arrival, handle_all, handle, deliver_once}
use rust_ma_core.Inbound.Delivered.{authenticate-opened, deliver-send}

abbrev protocol : Str
protocol = codes "/ma/inbox/0.0.1"

abbrev resolver : Str → ServiceResult Document
resolver did = ok unsigned

abbrev clocks : Clocks
clocks = record {
  opened = at;
  made = at;
  verified = later;
  checked = later;
  pruned = later;
  inserted = later;
}

abbrev pub payload : Bytes
payload = write_envelope envelope

abbrev security : InboundSecurity
security = record {
  recipient_key = recipient_key;
  replay_guard = record { seen = []; window_secs = 120 };
}

abbrev queue : TtlQueue Message
queue = record { buf = []; capacity = 256 }

abbrev shared : Shared
shared = record { security = security; store = queue ∷ [] }

abbrev inbox : Inbox
inbox = record { queue = 0 }

is_to : Did.parse toy_cids message.to ≡ ok (codes "k51", some (codes "inbox"))
unfolding Did.parse Did.validate_identifier Did.validate_fragment
is_to = refl

is_own : Did.parse toy_cids (Did.id recipient_key.did) ≡ ok (codes "k51", none)
unfolding Did.id Did.base_id Did.parse Did.validate_identifier
is_own = refl

is_still_valid : validate toy_cids later (Create.headers toy_msg_crates message) ≡ ok tt
unfolding Create.headers Create.unsigned_headers
is_still_valid = is_valid later (is_fresh 1100 (omega arith) (omega arith))

is_delivered :
    (handle_stream toy_msg_crates resolver clocks 1100 protocol inbox
      (complete payload)
      shared).store
    ≡ (Inbox.push inbox 1100 4600 message (queue ∷ [])).1
is_delivered =
    deliver-send toy_msg_crates resolver wire at at draw message outbox unsigned payload clocks
      shared inbox protocol (codes "k51") (some (codes "inbox")) none 1100 1100 1100 is_sent refl
      refl refl refl is_published (is_fresh 1000 (omega arith) (omega arith))
      (is_fresh 1000 (omega arith) (omega arith)) is_authentic is_to is_own refl refl refl
      is_still_valid refl

deliver-send_example :
    (handle_stream toy_msg_crates resolver clocks 1100 protocol inbox
      (complete payload)
      shared).store
    ≡ (Inbox.push inbox 1100 4600 message (queue ∷ [])).1
deliver-send_example =
    deliver-send toy_msg_crates resolver wire at at draw message outbox unsigned payload clocks
      shared inbox protocol (codes "k51") (some (codes "inbox")) none 1100 1100 1100 is_sent refl
      refl refl refl is_published (is_fresh 1000 (omega arith) (omega arith))
      (is_fresh 1000 (omega arith) (omega arith)) is_authentic is_to is_own refl refl refl
      is_still_valid refl

is_authenticated :
    authenticate toy_msg_crates resolver clocks recipient_key payload protocol ≡ ok message
is_authenticated =
    let (e, decoded, opened) =
      open-send toy_msg_crates wire at at at at later draw message outbox unsigned recipient_key
        payload is_sent refl refl refl refl is_published (is_fresh 1000 (omega arith) (omega arith))
        (is_fresh 1000 (omega arith) (omega arith)) is_authentic in
    authenticate-opened toy_msg_crates resolver clocks recipient_key unsigned payload e message
      protocol (codes "k51") (some (codes "inbox")) none decoded opened refl is_to is_own refl

is_decoded : (decode toy_msg_crates resolver clocks security payload protocol).1 ≡ ok message
unfolding Create.headers Create.unsigned_headers
is_decoded = (decode_iff toy_msg_crates resolver clocks security payload protocol message).1 (
  is_authenticated,
  (check_and_insert_iff toy_cids later 1100 1100 (Create.headers toy_msg_crates message)
        security.replay_guard).1
      (is_still_valid, refl),
)

decode-IsAdmissible_example :
    IsAdmissible toy_msg_crates resolver clocks recipient_key payload protocol message
    × ((guard_step toy_msg_crates resolver clocks message security.replay_guard).1 ≡ ok tt)
decode-IsAdmissible_example =
    decode-IsAdmissible toy_msg_crates resolver clocks security payload protocol message is_decoded

-- A guard that blocks another id, and a payload that is neither an envelope nor a message.
abbrev busy : InboundSecurity
busy = record {
  recipient_key = recipient_key;
  replay_guard = record { seen = (codes "m2", 1000) ∷ []; window_secs = 120 };
}

is_refused :
    (decode toy_msg_crates resolver clocks busy [] protocol).1 ≡ err (validation (cbor_decode []))
unfolding decode authenticate read_payload Seal.decode Create.decode admit
is_refused = refl

is_kept :
    any
      (blocks (codes "m2") 120 1100)
      (decode toy_msg_crates resolver clocks busy [] protocol).0.replay_guard.seen
    ≡ true
unfolding decode authenticate read_payload Seal.decode Create.decode admit in_window
is_kept = refl

decode-refused_example : any (blocks (codes "m2") 120 1100) busy.replay_guard.seen ≡ true
decode-refused_example =
    decode-refused toy_msg_crates resolver clocks busy [] protocol (validation (cbor_decode []))
      (codes "m2") 1100 is_refused is_kept

abbrev arrival : Incoming → Arrival
arrival incoming = record {
  clocks = clocks;
  now = 1100;
  protocol = protocol;
  inbox = inbox;
  incoming = incoming;
}

abbrev between : List Arrival
between = arrival failed ∷ arrival (complete []) ∷ []

abbrev last : Shared
last =
    handle_all toy_msg_crates resolver between
      (handle toy_msg_crates resolver (arrival (complete payload)) shared)

deliver_once_example :
    ((decode toy_msg_crates resolver clocks last.security payload protocol).1
      ≡ err (validation replay_detected))
    × ((handle toy_msg_crates resolver (arrival (complete payload)) last).store ≡ last.store)
deliver_once_example =
    deliver_once toy_msg_crates resolver shared (arrival (complete payload))
      (arrival (complete payload)) payload payload message message between 1100 1100 refl is_decoded
      refl (omega arith, (omega arith, tt)) refl is_authenticated refl is_still_valid refl
      (omega arith)
