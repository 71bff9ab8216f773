-- ===== src/Msg/Fresh.antt =====
-- When src/msg.rs takes headers for fresh and for valid.
use rust_ma_core.Common.{
  ℕ, ◌+◌, ◌≤◌, ◌<◌, Str, Bool, true, false, not, ◌>>◌, is_empty, trim, all, str_eq, str_eq_sound,
  str_eq_iff, is_nanoid_char, Option, none, some, [], ok, err, ◌≡◌, ◌≢◌, ◌↔◌, ◌⊎◌, inl, inr, refl,
  arith, >>-eq-ok, map_err-eq-ok, fail_if-eq-ok, fail_if, map_err, Bool-cases, ne-nil_of_is_empty,
  if◌then◌else◌,
}
use rust_ma_core.Error.{MaError, MaResult, message_too_old, missing_content_type}
use rust_ma_core.External.Cids.{CidLib}
use rust_ma_core.External.Multi.{u64_mod}
use rust_ma_core.Did
use rust_ma_core.Msg.Types.{Reading, Headers, default_protocol, message_type_broadcast}
use rust_ma_core.Msg.Check.{
  validate_message_id, validate_reply_to, validate_protocol, validate_message_freshness,
  validate_recipient, validate,
}

-- At a time and for an expiry that leave room for the skew in 64 bits, headers are fresh exactly if
-- they were created at most 30 seconds ahead, and never expire or expired at most 30 seconds ago.
pub validate_message_freshness_iff :
    (now created_at exp : ℕ)
    → now + 30 < u64_mod
    → exp + 30 < u64_mod
    → (validate_message_freshness (ok now) created_at exp ≡ ok tt)
      ↔ ((created_at ≤ now + 30) × ((exp ≡ 0) ⊎ (now ≤ exp + 30)))
unfolding validate_message_freshness
validate_message_freshness_iff now created_at exp hn he = ground arith

-- An expiry in the last 30 seconds that 64 bits hold wraps: headers with it are refused as too old
-- at any time from 30 seconds after the epoch on, unless they come from the future.
pub validate_message_freshness-wraps :
    (now created_at exp : ℕ)
    → now + 30 < u64_mod
    → 30 ≤ now
    → created_at ≤ now + 30
    → exp < u64_mod
    → u64_mod ≤ exp + 30
    → validate_message_freshness (ok now) created_at exp ≡ err message_too_old
unfolding validate_message_freshness
validate_message_freshness-wraps now created_at exp hn h30 hc he hw = ground arith

abbrev pub IsMessageId : Str → Type 0
IsMessageId id = (id ≢ []) × (all is_nanoid_char id ≡ true)

validate_message_id_sound : (id : Str) → validate_message_id id ≡ ok tt → IsMessageId id
unfolding validate_message_id
validate_message_id_sound id h = (
  ne-nil_of_is_empty id (ground (arith, Bool-cases (is_empty id))),
  ground (arith, Bool-cases (is_empty id), Bool-cases (all is_nanoid_char id)),
)

abbrev pub ReplyIsValid : Option Str → Type 0
ReplyIsValid none = Unit
ReplyIsValid (some id) = IsMessageId id

-- What validated headers are: their ids, the protocol, the sender and the recipient.
pub record HeadersAreValid (cids : CidLib) (h : Headers) : Type 0 where
  pub id : IsMessageId h.id
  pub protocol : h.protocol ≡ default_protocol
  pub reply_to : ReplyIsValid h.reply_to
  pub content_type : h.content_type ≢ []
  pub from : Did.validate cids h.from ≡ ok tt
  -- A broadcast has a blank recipient, any other message a valid one.
  pub to :
      ((h.message_type ≡ message_type_broadcast) × (is_empty (trim h.to) ≡ true))
      ⊎ ((h.message_type ≢ message_type_broadcast)
          × (is_empty (trim h.to) ≡ false)
          × (Did.validate_url cids h.to ≡ ok tt))

-- The outcomes of the recipient's checks that let the headers pass.
recipient_cases :
    (b e : Bool) (r : MaResult (Unit {0})) (e1 e2 e3 : MaError)
    → (if b then fail_if (not e) e1 else (fail_if e e2 >> map_err (λ x. e3) r)) ≡ ok tt
    → ((b ≡ true) × (e ≡ true)) ⊎ ((b ≡ false) × (e ≡ false) × (r ≡ ok tt))
recipient_cases true true r e1 e2 e3 h = inl (refl, refl)
recipient_cases true false r e1 e2 e3 h = cc
recipient_cases false true r e1 e2 e3 h = cc
recipient_cases false false r e1 e2 e3 h = inr (refl, refl, map_err-eq-ok _ r h)

module _ (cids : CidLib) where
  recipient_sound :
      (h : Headers)
      → validate_recipient cids h ≡ ok tt
      → ((h.message_type ≡ message_type_broadcast) × (is_empty (trim h.to) ≡ true))
        ⊎ ((h.message_type ≢ message_type_broadcast)
            × (is_empty (trim h.to) ≡ false)
            × (Did.validate_url cids h.to ≡ ok tt))
  unfolding validate_recipient
  recipient_sound h e =
      let is_broadcast = str_eq h.message_type message_type_broadcast in
      elim (recipient_cases is_broadcast (is_empty (trim h.to)) (Did.validate_url cids h.to) _ _ _
        e) [
          | inl (b, blank) ↦ inl (str_eq_sound h.message_type message_type_broadcast b, blank)
          | inr (b, nonblank, valid) ↦ inr (
            λ q. ground (arith, b, str_eq_iff h.message_type message_type_broadcast),
            nonblank,
            valid,
          )
        ]

  reply_sound : (o : Option Str) → validate_reply_to o ≡ ok tt → ReplyIsValid o
  unfolding validate_reply_to
  reply_sound none e = tt
  reply_sound (some id) e = validate_message_id_sound id e

  -- Headers that pass the validation have well-formed ids, the protocol of this version, a content
  -- type, a sender, a recipient as their type asks for, and a fresh time.
  pub validate-HeadersAreValid :
      (now : Reading) (h : Headers)
      → validate cids now h ≡ ok tt
      → HeadersAreValid cids h × (validate_message_freshness now h.created_at h.exp ≡ ok tt)
  unfolding validate validate_protocol
  validate-HeadersAreValid now h e =
      let (p1, h1) = >>-eq-ok (validate_message_id h.id) _ e in
      let (p2, h2) = >>-eq-ok (validate_protocol h.protocol) _ h1 in
      let (p3, h3) = >>-eq-ok (validate_reply_to h.reply_to) _ h2 in
      let (p4, h4) = >>-eq-ok (fail_if (is_empty h.content_type) missing_content_type) _ h3 in
      let (p5, h5) = >>-eq-ok (Did.validate cids h.from) _ h4 in
      let (p6, h6) = >>-eq-ok (validate_recipient cids h) _ h5 in
      (
        record {
          id = validate_message_id_sound h.id p1;
          protocol =
              str_eq_sound h.protocol default_protocol
                (ground (arith, Bool-cases (str_eq h.protocol default_protocol)));
          reply_to = reply_sound h.reply_to p3;
          content_type = ne-nil_of_is_empty h.content_type (fail_if-eq-ok _ _ p4);
          from = p5;
          to = recipient_sound h p6;
        },
        h6,
      )
