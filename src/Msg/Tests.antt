-- ===== src/Msg/Tests.antt =====
-- The theorems on src/msg.rs at concrete messages, over the toy crates.
use rust_ma_core.Common.{
  trim, ℕ, ◌+◌, Str, Bytes, codes, none, [], ◌∷◌, ◌++◌, ok, err, ◌≡◌, ◌↔◌, ◌⊎◌, ◌≤◌, inr, refl,
  arith,
}
use rust_ma_core.Error.{message_too_old, replay_detected}
use rust_ma_core.External.Cids.{toy_cids}
use rust_ma_core.External.Crypto.{pad}
use rust_ma_core.Did
use rust_ma_core.Multiformat.{public_key_multibase_encode, public_key_multibase_decode}
use rust_ma_core.Doc.Crates.{toy_doc_crates}
use rust_ma_core.Doc.Types.{multikey, EncryptionKey}
use rust_ma_core.Doc.Method.{signing_key_from_bytes}
use rust_ma_core.Doc.Operations.{find_method, get_verification_method_by_id}
use rust_ma_core.Doc.Proving.{key_agreement_public_key_bytes}
use rust_ma_core.Doc.Tests.{alice, alice_id, secret, unsigned, sign_vm, enc_vm}
use rust_ma_core.Msg.Types.{Reading, Headers, Message, MessageOptions, Envelope, ReplayGuard}
use rust_ma_core.Msg.Crates.{toy_msg_crates, write_headers}
use rust_ma_core.Msg.Check.{validate, validate_protocol, validate_message_freshness}
use rust_ma_core.Msg.Create.{
  unsigned_headers, unsigned_headers_cbor, to_cbor, payload, decode_content, new_with_options,
  verify_with_document, headers,
}
use rust_ma_core.Msg.Replay.{new}
use rust_ma_core.Msg.Seal.{encrypt, enclose_for, open_envelope}
use rust_ma_core.Msg.Fresh.{validate_message_freshness_iff, validate_message_freshness-wraps}
use rust_ma_core.Msg.Window.{Call, call, run, check_and_insert_iff, no_replay, replay-after_window}
use rust_ma_core.Msg.Signed.{Publishes, IsAuthentic, payload-new, verify-new, verify-IsAuthentic}
use rust_ma_core.Msg.Opened.{open-enclose_for}
use rust_ma_core.Msg.Guarded.{
  open_unguarded-open, IsContentOf, Opening, run_opening, found, open-IsAuthentic,
  open_with_replay_guard_iff, open_once,
}

abbrev pub at : Reading
at = ok 1000

abbrev pub later : Reading
later = ok 1100

-- After the guard's window and before the message's expiry.
abbrev much_later : Reading
much_later = ok 2000

abbrev pub hello : Bytes
hello = codes "hello"

abbrev pub inbox : Str
inbox = codes "did:ma:k51#inbox"

abbrev pub unsigned_message : Headers
unsigned_message = record {
  id = codes "m1";
  protocol = codes "/ma/0.0.1";
  message_type = codes "application/vnd.ma.message";
  from = alice_id;
  to = inbox;
  created_at = 1000;
  exp = 4600;
  content_type = codes "text/plain";
  reply_to = none;
  content_hash = pad 32 (0 ∷ hello);
  signature = [];
}

abbrev pub message : Message
message = record {
  id = codes "m1";
  protocol = codes "/ma/0.0.1";
  message_type = codes "application/vnd.ma.message";
  from = alice_id;
  to = inbox;
  created_at = 1000;
  exp = 4600;
  content_type = codes "text/plain";
  reply_to = none;
  content = 0 ∷ hello;
  signature = pad 64 (write_headers unsigned_message);
}

abbrev pub message_headers : Headers
message_headers = record unsigned_message { signature = message.signature }

abbrev options : MessageOptions
options = record { exp = 4600; reply_to = none }

is_new :
    new_with_options toy_msg_crates
      (codes "m1")
      at
      at
      alice_id
      inbox
      (codes "application/vnd.ma.message")
      (codes "text/plain")
      hello
      options
      (signing_key_from_bytes toy_doc_crates alice secret)
    ≡ ok message
unfolding new_with_options signing_key_from_bytes unsigned_headers unsigned_headers_cbor to_cbor
    validate_protocol trim Did.validate Did.validate_url Did.parse Did.validate_identifier
    Did.validate_fragment
is_new = refl

pub is_valid :
    (now : Reading)
    → validate_message_freshness now 1000 4600 ≡ ok tt
    → validate toy_cids now message_headers ≡ ok tt
unfolding validate validate_protocol trim Did.validate Did.validate_url Did.parse
    Did.validate_identifier Did.validate_fragment
is_valid now h = rw h refl

payload-new_example :
    (message.content ≡ toy_doc_crates.multi.varint_encode 0 ++ hello)
    × (decode_content toy_msg_crates message.content ≡ ok (0, hello))
    × (payload toy_msg_crates message ≡ hello)
payload-new_example =
    payload-new toy_msg_crates (codes "m1") at at alice_id inbox
      (codes "application/vnd.ma.message") (codes "text/plain") hello options
      (signing_key_from_bytes toy_doc_crates alice secret) message is_new

publishes : Publishes toy_msg_crates secret unsigned
unfolding find_method signing_key_from_bytes public_key_multibase_encode
publishes = record { did = alice; vm = sign_vm; first = refl; found = refl; published = refl }

is_alice : Did.try_from toy_cids alice_id ≡ ok alice
unfolding Did.try_from Did.parse Did.validate_identifier Did.validate_fragment
is_alice = refl

pub is_fresh :
    (now : ℕ) → 1000 ≤ now → now ≤ 4600 → validate_message_freshness (ok now) 1000 4600 ≡ ok tt
is_fresh now h k =
    (validate_message_freshness_iff now 1000 4600 (omega arith) (omega arith)).1
      (omega arith, inr (omega arith))

pub is_authentic : verify_with_document toy_msg_crates later message unsigned ≡ ok tt
unfolding Did.base_id
is_authentic =
    verify-new toy_msg_crates (codes "m1") at at later alice_id inbox
      (codes "application/vnd.ma.message") (codes "text/plain") hello options alice alice secret
      message unsigned is_new is_alice refl publishes (is_fresh 1100 (omega arith) (omega arith))

verify-new_example : verify_with_document toy_msg_crates later message unsigned ≡ ok tt
unfolding Did.base_id
verify-new_example =
    verify-new toy_msg_crates (codes "m1") at at later alice_id inbox
      (codes "application/vnd.ma.message") (codes "text/plain") hello options alice alice secret
      message unsigned is_new is_alice refl publishes (is_fresh 1100 (omega arith) (omega arith))

verify-IsAuthentic_example :
    IsAuthentic toy_msg_crates message unsigned
    × (validate toy_cids later (headers toy_msg_crates message) ≡ ok tt)
verify-IsAuthentic_example = verify-IsAuthentic toy_msg_crates later message unsigned is_authentic

abbrev expiry : ℕ
expiry = 970

validate_message_freshness_iff_example :
    (validate_message_freshness at 1030 970 ≡ ok tt)
    ↔ ((1030 ≤ 1000 + 30) × ((expiry ≡ 0) ⊎ (1000 ≤ expiry + 30)))
validate_message_freshness_iff_example =
    validate_message_freshness_iff 1000 1030 970 (omega arith) (omega arith)

validate_message_freshness-wraps_example :
    validate_message_freshness at 1000 18446744073709551615 ≡ err message_too_old
validate_message_freshness-wraps_example =
    validate_message_freshness-wraps 1000 1000 18446744073709551615 (omega arith) (omega arith)
      (omega arith) (omega arith) (omega arith)

abbrev guard : ReplayGuard
guard = record { seen = []; window_secs = 120 }

abbrev call_at : Reading → Call
call_at now = record { headers = message_headers; checked = now; pruned = now; inserted = now }

is_accepted : (call toy_cids (call_at at) guard).1 ≡ ok tt
is_accepted =
    (check_and_insert_iff toy_cids at 1000 1000 message_headers guard).1
      (is_valid at (is_fresh 1000 (omega arith) (omega arith)), refl)

no_replay_example :
    (call toy_cids
      (call_at later)
      (run toy_cids (call_at later ∷ []) ((call toy_cids (call_at at) guard).0))).1
    ≡ err replay_detected
no_replay_example =
    no_replay toy_cids guard (call_at at) (call_at later) (call_at later ∷ []) 1000 1100 refl
      is_accepted (omega arith, tt) refl
      (is_valid later (is_fresh 1100 (omega arith) (omega arith))) refl (omega arith)

is_accepted_new : (call toy_cids (call_at at) (new 120)).1 ≡ ok tt
unfolding new
is_accepted_new = is_accepted

replay-after_window_example :
    (call toy_cids (call_at much_later) ((call toy_cids (call_at at) (new 120)).0)).1 ≡ ok tt
replay-after_window_example =
    replay-after_window toy_cids 120 (call_at at) (call_at much_later) 1000 2000 2000 refl
      is_accepted_new (is_valid much_later (is_fresh 2000 (omega arith) (omega arith))) refl refl
      (omega arith)

-- The recipient is the sender; the ephemeral secret and the nonces are constants.
abbrev pub recipient_key : EncryptionKey
recipient_key = record {
  did = alice;
  key_type = multikey;
  private_key = secret;
  public_key = pad 32 secret;
  public_key_multibase = enc_vm.public_key_multibase;
}

abbrev pub nonce : Bytes
nonce = pad 24 []

abbrev pub envelope : Envelope
envelope = record {
  ephemeral_key = pad 32 hello;
  encrypted_content = nonce ++ 7 ∷ message.content;
  encrypted_headers = nonce ++ 7 ∷ write_headers message_headers;
}

pub is_enclosed : enclose_for toy_msg_crates at hello nonce nonce message unsigned ≡ ok envelope
unfolding enclose_for validate validate_protocol trim headers unsigned_headers to_cbor encrypt
    key_agreement_public_key_bytes find_method get_verification_method_by_id
    public_key_multibase_decode Did.validate Did.validate_url Did.parse Did.validate_identifier
    Did.validate_fragment
is_enclosed = refl

pub is_published : key_agreement_public_key_bytes toy_doc_crates unsigned ≡ ok (pad 32 secret)
unfolding key_agreement_public_key_bytes find_method get_verification_method_by_id
    public_key_multibase_decode
is_published = refl

is_opened : open_envelope toy_msg_crates at at later recipient_key unsigned envelope ≡ ok message
is_opened =
    open-enclose_for toy_msg_crates at at at later hello nonce nonce message unsigned unsigned
      recipient_key envelope is_enclosed refl refl is_published
      (is_fresh 1000 (omega arith) (omega arith)) (is_fresh 1000 (omega arith) (omega arith))
      is_authentic

open-enclose_for_example :
    open_envelope toy_msg_crates at at later recipient_key unsigned envelope ≡ ok message
open-enclose_for_example =
    open-enclose_for toy_msg_crates at at at later hello nonce nonce message unsigned unsigned
      recipient_key envelope is_enclosed refl refl is_published
      (is_fresh 1000 (omega arith) (omega arith)) (is_fresh 1000 (omega arith) (omega arith))
      is_authentic

open-IsAuthentic_example :
    IsContentOf toy_msg_crates message recipient_key envelope
    × IsAuthentic toy_msg_crates message unsigned
    × (validate toy_cids later (headers toy_msg_crates message) ≡ ok tt)
open-IsAuthentic_example =
    open-IsAuthentic toy_msg_crates at at later recipient_key unsigned envelope message is_opened

abbrev opening_at : Reading → Opening toy_msg_crates
opening_at now = record {
  made = now;
  verified = later;
  checked = now;
  pruned = now;
  inserted = now;
  key = recipient_key;
  sender = unsigned;
  envelope = envelope;
}

is_found :
    (now : Reading)
    → validate_message_freshness now 1000 4600 ≡ ok tt
    → found toy_msg_crates (opening_at now) ≡ ok message
is_found now h =
    open_unguarded-open toy_msg_crates at now later recipient_key unsigned envelope message (
      open-enclose_for toy_msg_crates at at now later hello nonce nonce message unsigned unsigned
        recipient_key envelope is_enclosed refl refl is_published
        (is_fresh 1000 (omega arith) (omega arith)) h is_authentic)

is_first : (run_opening toy_msg_crates (opening_at at) guard).1 ≡ ok message
unfolding headers unsigned_headers
is_first =
    (open_with_replay_guard_iff toy_msg_crates (opening_at at) guard message).1
      (is_found at (is_fresh 1000 (omega arith) (omega arith)), is_accepted)

is_valid_copy : validate toy_cids later (headers toy_msg_crates message) ≡ ok tt
unfolding headers unsigned_headers
is_valid_copy = is_valid later (is_fresh 1100 (omega arith) (omega arith))

open_once_example :
    (run_opening toy_msg_crates
      (opening_at later)
      (run toy_cids (call_at later ∷ []) ((run_opening toy_msg_crates (opening_at at) guard).0))).1
    ≡ err replay_detected
open_once_example =
    open_once toy_msg_crates guard (opening_at at) (opening_at later) message message
      (call_at later ∷ []) 1000 1100 is_first refl (omega arith, tt)
      (is_found later (is_fresh 1100 (omega arith) (omega arith))) refl is_valid_copy refl
      (omega arith)
