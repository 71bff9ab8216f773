-- ===== src/Msg/Guarded.antt =====
-- What an opened envelope of src/msg.rs proves, and opening under the replay guard.
use rust_ma_core.Common.{
  ℕ, ◌+◌, ◌≤◌, Bytes, All, List, ok, err, ◌>>◌, ◌≡◌, ◌↔◌, refl, ap, subst, arith, >>=-eq-ok,
  >>-eq-ok,
}
use rust_ma_core.Error.{MaResult, replay_detected}
use rust_ma_core.Doc.Types.{Document, EncryptionKey}
use rust_ma_core.Msg.Types.{Reading, Headers, Message, Envelope, ReplayGuard}
use rust_ma_core.Msg.Crates.{MsgCrates}
use rust_ma_core.Msg.Check.{validate}
use rust_ma_core.Msg.Create.{headers, unsigned_headers, from_headers, verify_with_document}
use rust_ma_core.Msg.Replay.{check_and_insert}
use rust_ma_core.Msg.Seal.{
  verify, compute_shared_secret, decrypt_headers, decrypt_content, open_envelope, open_unguarded,
  check_opened, open_with_replay_guard,
}
use rust_ma_core.Msg.Signed.{IsAuthentic, verify-IsAuthentic}
use rust_ma_core.Msg.Window.{Call, call, run, IsUpTo, no_replay}

module _ (crates : MsgCrates) where
  open crates use {doc}
  open crates.doc use {cids}

  -- What the envelope held for the recipient's key.
  pub record IsContentOf (message : Message) (key : EncryptionKey) (envelope : Envelope)
      : Type 0 where
    pub shared : Bytes
    pub h : Headers
    pub agreed : compute_shared_secret crates envelope.ephemeral_key key ≡ ok shared
    pub read : decrypt_headers crates envelope shared ≡ ok h
    pub content : decrypt_content crates envelope shared ≡ ok message.content
    pub id : h.id ≡ message.id
    pub from : h.from ≡ message.from
    pub to : h.to ≡ message.to
    pub signature : h.signature ≡ message.signature

  -- A message is opened only as the decrypted content of the envelope, and as an authentic message
  -- of the sender whose document is given, with valid headers.
  pub open-IsAuthentic :
      (checked made verified : Reading) (key : EncryptionKey) (sender : Document)
      (envelope : Envelope) (message : Message)
      → open_envelope crates checked made verified key sender envelope ≡ ok message
      → IsContentOf message key envelope
        × IsAuthentic crates message sender
        × (validate cids verified (headers crates message) ≡ ok tt)
  unfolding open_envelope from_headers
  open-IsAuthentic checked made verified key sender envelope message e =
      let (u1, h1) = >>-eq-ok (verify envelope) _ e in
      let (shared, agreed, h2) =
        >>=-eq-ok (compute_shared_secret crates envelope.ephemeral_key key) _ h1 in
      let (h, read, h3) = >>=-eq-ok (decrypt_headers crates envelope shared) _ h2 in
      let (u4, h4) = >>-eq-ok (validate cids checked h) _ h3 in
      let (content, p5, h5) = >>=-eq-ok (decrypt_content crates envelope shared) _ h4 in
      let (bare, p6, h6) = >>=-eq-ok (from_headers crates made h) _ h5 in
      let (p7, h7) =
        >>-eq-ok (verify_with_document crates verified (record bare { content = content }) sender) _
          h6 in
      let (u8, p8) = >>-eq-ok (validate cids made h) _ p6 in
      let same : record bare { content = content } ≡ message = ground arith in
      let authentic =
        verify-IsAuthentic crates verified message sender
          (subst (λ m. verify_with_document crates verified m sender ≡ ok tt) same p7) in
      (
        record {
          shared = shared;
          h = h;
          agreed = agreed;
          read = read;
          content = ground (arith, p5, same);
          id = ground (arith, p8, same);
          from = ground (arith, p8, same);
          to = ground (arith, p8, same);
          signature = ground (arith, p8, same);
        },
        authentic.0,
        authentic.1,
      )

  -- Opening under the guard leaves out the first check of the headers, so it finds what `open` finds.
  pub open_unguarded-open :
      (checked made verified : Reading) (key : EncryptionKey) (sender : Document)
      (envelope : Envelope) (message : Message)
      → open_envelope crates checked made verified key sender envelope ≡ ok message
      → open_unguarded crates made verified key sender envelope ≡ ok message
  unfolding open_envelope open_unguarded
  open_unguarded-open checked made verified key sender envelope message e =
      let (u1, h1) = >>-eq-ok (verify envelope) _ e in
      let (shared, agreed, h2) =
        >>=-eq-ok (compute_shared_secret crates envelope.ephemeral_key key) _ h1 in
      let (h, read, h3) = >>=-eq-ok (decrypt_headers crates envelope shared) _ h2 in
      let (u4, h4) = >>-eq-ok (validate cids checked h) _ h3 in rw (u1, agreed, read) h4

  -- One opening under the guard: the readings, the key, the sender's document and the envelope.
  pub record Opening : Type 0 where
    pub made : Reading
    pub verified : Reading
    pub checked : Reading
    pub pruned : Reading
    pub inserted : Reading
    pub key : EncryptionKey
    pub sender : Document
    pub envelope : Envelope

  abbrev pub run_opening : Opening → ReplayGuard → ReplayGuard × MaResult Message
  run_opening o guard =
      open_with_replay_guard crates o.made o.verified o.checked o.pruned o.inserted o.key o.sender
        o.envelope guard

  -- The message that an opening finds, before the guard is asked.
  abbrev pub found : Opening → MaResult Message
  found o = open_unguarded crates o.made o.verified o.key o.sender o.envelope

  -- What an opening asks of the guard.
  abbrev pub guard_call : Opening → Message → Call
  guard_call o message = record {
    headers = headers crates message;
    checked = o.checked;
    pruned = o.pruned;
    inserted = o.inserted;
  }

  check_opened_iff :
      (checked pruned inserted : Reading) (guard : ReplayGuard) (r : MaResult Message)
      (message : Message)
      → ((check_opened crates checked pruned inserted guard r).1 ≡ ok message) ↔ (
          (r ≡ ok message)
          × ((check_and_insert cids checked pruned inserted (headers crates message) guard).1
              ≡ ok tt))
  unfolding check_opened
  check_opened_iff checked pruned inserted guard (err e) message = (λ h. cc, λ h. cc)
  check_opened_iff checked pruned inserted guard (ok m) message = (
    λ h.
        let (accepted, rest) =
          >>-eq-ok (check_and_insert cids checked pruned inserted (headers crates m) guard).1 _ h in
        let same : m ≡ message = ground arith in
        (
          ap ok same,
          subst
              (λ x.
                (check_and_insert cids checked pruned inserted (headers crates x) guard).1 ≡ ok tt)
              same accepted,
        ),
    λ h. let same : m ≡ message = ground (arith, h.0) in rw (same, h.1) refl,
  )

  -- An opening under the guard yields a message exactly if the envelope does and the guard accepts
  -- its headers.
  pub open_with_replay_guard_iff :
      (o : Opening) (guard : ReplayGuard) (message : Message)
      → ((run_opening o guard).1 ≡ ok message)
        ↔ ((found o ≡ ok message) × ((call cids (guard_call o message) guard).1 ≡ ok tt))
  unfolding open_with_replay_guard
  open_with_replay_guard_iff o guard message =
      check_opened_iff o.checked o.pruned o.inserted guard (found o) message

  opened_guard :
      (o : Opening) (guard : ReplayGuard) (message : Message)
      → found o ≡ ok message
      → ((run_opening o guard).0 ≡ (call cids (guard_call o message) guard).0)
        × ((run_opening o guard).1 ≡ ((call cids (guard_call o message) guard).1 >> ok message))
  unfolding open_with_replay_guard check_opened
  opened_guard o guard message e = rw e (refl, refl)

  -- An envelope that was opened under the guard blocks its message's id for the window: after any
  -- calls of the guard that prune no later than the window's end, every opening that finds a valid
  -- message with that id is refused as a replay up to the window's end.
  pub open_once :
      (guard : ReplayGuard) (o p : Opening) (message copy : Message) (between : List Call)
      (at now : ℕ)
      → (run_opening o guard).1 ≡ ok message
      → o.inserted ≡ ok at
      → All (λ b. IsUpTo (at + guard.window_secs) b.pruned) between
      → found p ≡ ok copy
      → copy.id ≡ message.id
      → validate cids p.checked (headers crates copy) ≡ ok tt
      → p.pruned ≡ ok now
      → now ≤ at + guard.window_secs
      → (run_opening p (run cids between ((run_opening o guard).0))).1 ≡ err replay_detected
  unfolding headers unsigned_headers
  open_once guard o p message copy between at now opened at_eq in_time again same valid now_eq
        bound =
      let (first, accepted) = (open_with_replay_guard_iff o guard message).0 opened in
      let refused =
        no_replay cids guard (guard_call o message) (guard_call p copy) between at now at_eq
          accepted in_time same valid now_eq bound in
      rw
        (
          (opened_guard o guard message first).0,
          (opened_guard p (run cids between ((call cids (guard_call o message) guard).0)) copy
              again).1,
          refused,
        )
        refl
