-- ===== src/Outbox/Tests.antt =====
-- The theorem on src/outbox.rs at a concrete message, over the toy crates.
use rust_ma_core.Common.{Bytes, codes, true, false, some, ok, ◌≡◌, refl, arith}
use rust_ma_core.Error.{ServiceResult}
use rust_ma_core.External.Cids.{toy_cids}
use rust_ma_core.Doc.Tests.{alice_id, unsigned}
use rust_ma_core.Msg.Crates.{toy_msg_crates, write_envelope}
use rust_ma_core.Msg.Check
use rust_ma_core.Msg.Create
use rust_ma_core.Msg.Seal
use rust_ma_core.Msg.Tests.{at, message, hello, nonce, envelope, is_enclosed, is_fresh, is_valid}
use rust_ma_core.Outbox.{Outbox, Draw, payload_of, deliver, send}

abbrev pub outbox : Outbox
outbox = record {
  is_open = true;
  recipient_document = unsigned;
  local = false;
  did = alice_id;
  protocol = codes "/ma/inbox/0.0.1";
}

abbrev pub draw : Draw
draw = record { secret = hello; headers_nonce = nonce; content_nonce = nonce }

abbrev pub wire : Bytes → ServiceResult (Unit {0})
wire payload = ok tt

headers_valid : Check.validate toy_cids at (Create.headers toy_msg_crates message) ≡ ok tt
unfolding Create.headers
headers_valid = is_valid at (is_fresh 1000 (omega arith) (omega arith))

is_made : payload_of toy_msg_crates wire at at draw message outbox ≡ ok (write_envelope envelope)
unfolding payload_of Seal.encode
is_made = rw (headers_valid, is_enclosed) refl

pub is_sent :
    (send toy_msg_crates wire at at draw message outbox).0 ≡ some (write_envelope envelope)
unfolding send deliver
is_sent = rw (send, is_made) refl
