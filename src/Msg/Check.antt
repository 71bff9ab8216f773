-- ===== src/Msg/Check.antt =====
-- The checks of src/msg.rs: message ids, the protocol, freshness, headers. A call of the clock is
-- an argument; sums of seconds wrap at 64 bits.
use rust_ma_core.Common.{
  ℕ, ◌+◌, ◌%◌, Str, not, ◌==◌, ltb, str_eq, all, is_empty, trim, is_nanoid_char, Option, none, some,
  none, some, ok, err, map_err, fail_if, ◌>>=◌, ◌>>◌, if◌then◌else◌,
}
use rust_ma_core.Error.{
  MaResult, empty_message_id, invalid_message_id, invalid_message_type, missing_content_type,
  invalid_recipient, broadcast_must_not_have_recipient, message_requires_recipient,
  message_from_future, message_too_old,
}
use rust_ma_core.External.Cids.{CidLib}
use rust_ma_core.External.Multi.{u64_mod}
use rust_ma_core.Did
use rust_ma_core.Msg.Types.{
  Reading, Headers, default_protocol, default_max_clock_skew_secs, message_type_broadcast,
}

-- `a + b` on `u64`, without overflow checks.
abbrev pub add_u64 : ℕ → ℕ → ℕ
add_u64 a b = (a + b) % u64_mod

unfoldable pub validate_message_id : Str → MaResult (Unit {0})
validate_message_id id =
    if is_empty id
    then err empty_message_id
    else if not (all is_nanoid_char id)
    then err invalid_message_id
    else ok tt

-- `if let Some(reply_to)`.
unfoldable pub validate_reply_to : Option Str → MaResult (Unit {0})
unfolding validate_message_id
validate_reply_to none = ok tt
validate_reply_to (some reply_to) = validate_message_id reply_to

unfoldable pub validate_protocol : Str → MaResult (Unit {0})
validate_protocol kind = if str_eq kind default_protocol then ok tt else err invalid_message_type

unfoldable pub validate_message_freshness : Reading → ℕ → ℕ → MaResult (Unit {0})
validate_message_freshness reading created_at exp = do
  now ← reading
  fail_if (ltb (add_u64 now default_max_clock_skew_secs) created_at) message_from_future
  if exp == 0
      then ok tt
      else fail_if (ltb (add_u64 exp default_max_clock_skew_secs) now) message_too_old

module _ (cids : CidLib) where
  -- The check of the recipient by the message's type.
  unfoldable pub validate_recipient : Headers → MaResult (Unit {0})
  validate_recipient headers =
      let recipient_is_empty = is_empty (trim headers.to) in
      if str_eq headers.message_type message_type_broadcast
      then fail_if (not recipient_is_empty) broadcast_must_not_have_recipient
      else do
        fail_if recipient_is_empty message_requires_recipient
        map_err (λ e. invalid_recipient) (Did.validate_url cids headers.to)

  -- `Headers::validate`.
  unfoldable pub validate : Reading → Headers → MaResult (Unit {0})
  unfolding validate_reply_to validate_recipient validate_message_freshness
  validate reading headers = do
    validate_message_id headers.id
    validate_protocol headers.protocol
    validate_reply_to headers.reply_to
    fail_if (is_empty headers.content_type) missing_content_type
    Did.validate cids headers.from
    validate_recipient headers
    validate_message_freshness reading headers.created_at headers.exp
