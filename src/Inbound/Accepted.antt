-- ===== src/Inbound/Accepted.antt =====
-- What `InboundSecurity::decode` of src/iroh/endpoint.rs lets pass, and what an error leaves.
use rust_ma_core.Common.{
  ℕ, Str, Bytes, Bool, true, false, ◌&&◌, not, any, str_eq, retain, List, [], ◌∷◌, ◌↔◌, ap, subst,
  Option, ok, err, fail_if, map_err, ◌≡◌, ◌⊎◌, inl, inr, refl, arith, >>=-eq-ok, >>-eq-ok,
  map_err-eq-ok, not-eq-ok, Bool-cases, Result-cases, str_eq_iff,
}
use rust_ma_core.Error.{ServiceResult, MaResult, MaError, Error, validation}
use rust_ma_core.Did
use rust_ma_core.Doc.Types.{Document, EncryptionKey}
use rust_ma_core.External.Cids.{CidLib}
use rust_ma_core.Msg.Types.{Reading, Headers, Message, ReplayGuard, message_type_broadcast}
use rust_ma_core.Msg.Crates.{MsgCrates}
use rust_ma_core.Msg.Check
use rust_ma_core.Msg.Create
use rust_ma_core.Msg.Replay.{check_and_insert, prune_old, prune, insert_new, insert, in_window}
use rust_ma_core.Msg.Window.{blocks}
use rust_ma_core.Msg.Signed.{IsAuthentic, verify-IsAuthentic}
use rust_ma_core.Inbound.{
  InboundSecurity, Clocks, skip_resolver_verification, same_base_did, read_payload, check_recipient,
  verify_sender, authenticate, admit, decode,
}

module _ (id : Str) (now : ℕ) where
  blocks-retain :
      (w t : ℕ) (seen : List (Str × ℕ))
      → any (blocks id w now) (retain (in_window w t) seen) ≡ true
      → any (blocks id w now) seen ≡ true
  unfolding in_window
  blocks-retain w t [] h = h
  blocks-retain w t (entry ∷ seen) h = ground (arith, h, blocks-retain w t seen)

  blocks-prune_old :
      (reading : Reading) (guard : ReplayGuard)
      → any (blocks id guard.window_secs now) (prune_old reading guard).0.seen ≡ true
      → any (blocks id guard.window_secs now) guard.seen ≡ true
  unfolding prune_old prune
  blocks-prune_old (ok t) guard h = blocks-retain guard.window_secs t guard.seen h
  blocks-prune_old (err e) guard h = h

  insert_new-refused :
      (reading : Reading) (other : Str) (guard : ReplayGuard) (e : MaError)
      → (insert_new reading other guard).1 ≡ err e
      → (insert_new reading other guard).0 ≡ guard
  unfolding insert_new insert
  insert_new-refused (ok t) other guard e h = ground (arith, h)
  insert_new-refused (err x) other guard e h = ground (arith, h)

  check_and_insert-refused :
      (cids : CidLib) (checked pruned inserted : Reading) (h : Headers) (guard : ReplayGuard)
      (e : MaError)
      → (check_and_insert cids checked pruned inserted h guard).1 ≡ err e
      → any
          (blocks id guard.window_secs now)
          (check_and_insert cids checked pruned inserted h guard).0.seen
        ≡ true
      → any (blocks id guard.window_secs now) guard.seen ≡ true
  unfolding check_and_insert
  check_and_insert-refused cids checked pruned inserted h guard e refused b = ground (
    arith,
    Result-cases (Check.validate cids checked h),
    Result-cases ((prune_old pruned guard).1),
    insert_new-refused inserted h.id ((prune_old pruned guard).0) e,
    blocks-prune_old pruned guard,
    refused,
    b,
  )

module _ (crates : MsgCrates) where
  open crates use {doc}
  open doc use {cids}

  -- An encrypted message names the identity of the recipient's key.
  abbrev pub IsFor : Bool → Message → EncryptionKey → Type 0
  IsFor false message key = Unit
  IsFor true message key =
      (base : Str) × (left : Option Str) × (right : Option Str) × (Did.parse cids message.to
        ≡ ok (base, left))
      × (Did.parse cids (Did.id key.did) ≡ ok (base, right))

  check_recipient-IsFor :
      (encrypted : Bool) (message : Message) (key : EncryptionKey)
      → check_recipient crates encrypted message key ≡ ok tt
      → IsFor encrypted message key
  unfolding check_recipient same_base_did
  check_recipient-IsFor false message key h = tt
  check_recipient-IsFor true message key h =
      let (same, h1, h2) = >>=-eq-ok (same_base_did crates message.to (Did.id key.did)) _ h in
      let ((base, left), p3, h3) =
        >>=-eq-ok (map_err validation (Did.parse cids message.to)) _ h1 in
      let ((other, right), p4, h4) =
        >>=-eq-ok (map_err validation (Did.parse cids (Did.id key.did))) _ h3 in
      (
        base,
        left,
        right,
        map_err-eq-ok _ _ p3,
        ground (arith, map_err-eq-ok _ _ p4, not-eq-ok same _ h2, h4, (str_eq_iff base other).0),
      )

  module _ (resolver : Str → ServiceResult Document) where
    -- The sender's document was resolved and proves the message, or the verification is left to
    -- the handler of identity publications.
    abbrev pub IsVouched : Reading → Str → Message → Type 0
    IsVouched verified protocol message =
        (skip_resolver_verification protocol message.message_type ≡ true)
        ⊎ ((document : Document) × (resolver message.from ≡ ok document)
            × IsAuthentic crates message document
            × (Check.validate cids verified (Create.headers crates message) ≡ ok tt))

    verify_sender-IsVouched :
        (verified : Reading) (protocol : Str) (message : Message)
        → verify_sender crates resolver verified protocol message ≡ ok tt
        → IsVouched verified protocol message
    unfolding verify_sender
    verify_sender-IsVouched verified protocol message h =
        elim (Bool-cases (skip_resolver_verification protocol message.message_type)) [
          | inl skipped ↦ inl skipped
          | inr asked ↦
              let h0 = rw asked at h in
              let (document, found, h1) = >>=-eq-ok (resolver message.from) _ h0 in
              let (authentic, valid) =
                verify-IsAuthentic crates verified message document (map_err-eq-ok _ _ h1) in
              inr (document, found, authentic, valid)
        ]

    pub record IsAdmissible (clocks : Clocks) (key : EncryptionKey) (payload : Bytes)
        (protocol : Str) (message : Message) : Type 0 where
      pub encrypted : Bool
      pub read : read_payload crates clocks key payload ≡ ok (message, encrypted)
      pub kind : str_eq message.message_type message_type_broadcast ≡ not encrypted
      pub recipient : IsFor encrypted message key
      pub vouched : IsVouched clocks.verified protocol message

    kind_lem :
        (encrypted broadcast : Bool) (e f : Error)
        → fail_if (encrypted && broadcast) e ≡ ok tt
        → fail_if (not encrypted && not broadcast) f ≡ ok tt
        → broadcast ≡ not encrypted
    kind_lem true true e f h k = cc
    kind_lem true false e f h k = refl
    kind_lem false true e f h k = refl
    kind_lem false false e f h k = cc

    pub authenticate-IsAdmissible :
        (clocks : Clocks) (key : EncryptionKey) (payload : Bytes) (protocol : Str)
        (message : Message)
        → authenticate crates resolver clocks key payload protocol ≡ ok message
        → IsAdmissible clocks key payload protocol message
    unfolding authenticate
    authenticate-IsAdmissible clocks key payload protocol message h =
        let ((m, encrypted), read, h1) = >>=-eq-ok (read_payload crates clocks key payload) _ h in
        let broadcast = str_eq m.message_type message_type_broadcast in
        let (k1, h2) = >>-eq-ok (fail_if (encrypted && broadcast) _) _ h1 in
        let (k2, h3) = >>-eq-ok (fail_if (not encrypted && not broadcast) _) _ h2 in
        let (k3, h4) = >>-eq-ok (check_recipient crates encrypted m key) _ h3 in
        let (k4, h5) = >>-eq-ok (verify_sender crates resolver clocks.verified protocol m) _ h4 in
        let same : m ≡ message = ground (arith, h5) in
        subst (λ x. IsAdmissible clocks key payload protocol x) same
          (record {
            encrypted = encrypted;
            read = read;
            kind = kind_lem encrypted broadcast _ _ k1 k2;
            recipient = check_recipient-IsFor encrypted m key k3;
            vouched = verify_sender-IsVouched clocks.verified protocol m k4;
          })

    -- The guard's step that `decode` makes for a message.
    abbrev pub guard_step : Clocks → Message → ReplayGuard → ReplayGuard × MaResult (Unit {0})
    guard_step clocks message =
        check_and_insert cids clocks.checked clocks.pruned clocks.inserted
          (Create.headers crates message)

    pub admit_iff :
        (clocks : Clocks) (guard : ReplayGuard) (r : ServiceResult Message) (message : Message)
        → ((admit crates resolver clocks guard r).1 ≡ ok message)
          ↔ ((r ≡ ok message) × ((guard_step clocks message guard).1 ≡ ok tt))
    unfolding admit
    admit_iff clocks guard (err e) message = (λ h. cc, λ h. cc)
    admit_iff clocks guard (ok m) message = (
      λ h.
          let (accepted, rest) = >>-eq-ok (map_err validation (guard_step clocks m guard).1) _ h in
          let same : m ≡ message = ground (arith, rest) in
          (
            ap ok same,
            subst (λ x. (guard_step clocks x guard).1 ≡ ok tt) same (map_err-eq-ok _ _ accepted),
          ),
      λ h. let same : m ≡ message = ground (arith, h.0) in rw (same, h.1) refl,
    )

    -- A payload is decoded to a message exactly if it is authenticated as one and the replay guard
    -- accepts the message's headers.
    pub decode_iff :
        (clocks : Clocks) (security : InboundSecurity) (payload : Bytes) (protocol : Str)
        (message : Message)
        → ((decode crates resolver clocks security payload protocol).1 ≡ ok message) ↔ (
            (authenticate crates resolver clocks security.recipient_key payload protocol
              ≡ ok message)
            × ((guard_step clocks message security.replay_guard).1 ≡ ok tt))
    unfolding decode
    decode_iff clocks security payload protocol message =
        admit_iff clocks security.replay_guard
          (authenticate crates resolver clocks security.recipient_key payload protocol) message

    -- A payload is decoded to a message only if it was an envelope for the recipient's key or plain
    -- bytes, plain exactly for broadcasts; if an encrypted message names the recipient's identity;
    -- if the resolved document of its sender proves it, unless it is an identity publication on the
    -- protocol of the publisher; and if the replay guard accepts it.
    pub decode-IsAdmissible :
        (clocks : Clocks) (security : InboundSecurity) (payload : Bytes) (protocol : Str)
        (message : Message)
        → (decode crates resolver clocks security payload protocol).1 ≡ ok message
        → IsAdmissible clocks security.recipient_key payload protocol message
          × ((guard_step clocks message security.replay_guard).1 ≡ ok tt)
    decode-IsAdmissible clocks security payload protocol message h =
        let (found, accepted) = (decode_iff clocks security payload protocol message).0 h in
        (
          authenticate-IsAdmissible clocks security.recipient_key payload protocol message found,
          accepted,
        )

    admit-refused :
        (clocks : Clocks) (guard : ReplayGuard) (r : ServiceResult Message) (e : Error) (id : Str)
        (now : ℕ)
        → (admit crates resolver clocks guard r).1 ≡ err e
        → any (blocks id guard.window_secs now) (admit crates resolver clocks guard r).0.seen ≡ true
        → any (blocks id guard.window_secs now) guard.seen ≡ true
    unfolding admit
    admit-refused clocks guard (err x) e id now h b = b
    admit-refused clocks guard (ok m) e id now h b =
        elim (Result-cases ((guard_step clocks m guard).1)) [
          | inl (u, accepted) ↦ cc (rw accepted at h)
          | inr (x, refused) ↦
              check_and_insert-refused id now cids clocks.checked clocks.pruned clocks.inserted
                (Create.headers crates m) guard x refused b
        ]

    -- A payload that is refused, for whatever reason, makes the replay guard block no id at any time
    -- at which it did not block it before.
    pub decode-refused :
        (clocks : Clocks) (security : InboundSecurity) (payload : Bytes) (protocol : Str)
        (e : Error) (id : Str) (now : ℕ)
        → (decode crates resolver clocks security payload protocol).1 ≡ err e
        → any
            (blocks id security.replay_guard.window_secs now)
            (decode crates resolver clocks security payload protocol).0.replay_guard.seen
          ≡ true
        → any (blocks id security.replay_guard.window_secs now) security.replay_guard.seen ≡ true
    unfolding decode
    decode-refused clocks security payload protocol e id now =
        admit-refused clocks security.replay_guard
          (authenticate crates resolver clocks security.recipient_key payload protocol) e id now
