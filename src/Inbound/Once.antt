-- ===== src/Inbound/Once.antt =====
-- Histories of inbound streams of src/iroh/endpoint.rs: the tasks share one replay guard, and each
-- asks it under its lock, so a history of streams is the sequence of their tasks.
use rust_ma_core.Common.{
  ℕ, ◌+◌, ◌≤◌, Str, Bytes, All, All-append, List, [], ◌∷◌, ◌++◌, ok, err, ◌≡◌, refl,
}
use rust_ma_core.Error.{ServiceResult, validation, replay_detected}
use rust_ma_core.Doc.Types.{Document, EncryptionKey}
use rust_ma_core.Inbox.{Inbox}
use rust_ma_core.Msg.Types.{Message, ReplayGuard}
use rust_ma_core.Msg.Crates.{MsgCrates}
use rust_ma_core.Msg.Check
use rust_ma_core.Msg.Create
use rust_ma_core.Msg.Window
use rust_ma_core.Msg.Window.{Call, call, IsUpTo, no_replay}
use rust_ma_core.Inbound.{
  InboundSecurity, Clocks, Incoming, complete, failed, timed_out, Shared, authenticate, admit,
  decode, handle_stream,
}
use rust_ma_core.Inbound.Accepted.{decode_iff, guard_step}

-- One inbound stream: the readings of its task, the time of the delivery, the protocol and the
-- inbox of its handler, and what was read.
pub record Arrival : Type 0 where
  pub clocks : Clocks
  pub now : ℕ
  pub protocol : Str
  pub inbox : Inbox
  pub incoming : Incoming

module _ (crates : MsgCrates) (resolver : Str → ServiceResult Document) where
  open crates use {doc}
  open doc use {cids}

  abbrev pub handle : Arrival → Shared → Shared
  handle a s = handle_stream crates resolver a.clocks a.now a.protocol a.inbox a.incoming s

  unfoldable pub handle_all : List Arrival → Shared → Shared
  handle_all [] s = s
  handle_all (a ∷ rest) s = handle_all rest (handle a s)

  abbrev pub guard_call : Clocks → Message → Call
  guard_call clocks message = record {
    headers = Create.headers crates message;
    checked = clocks.checked;
    pruned = clocks.pruned;
    inserted = clocks.inserted;
  }

  -- What a stream's task asks of the guard.
  abbrev asked : Clocks → ServiceResult Message → List Call
  asked clocks (err e) = []
  asked clocks (ok message) = guard_call clocks message ∷ []

  abbrev calls_of : EncryptionKey → Clocks → Str → Incoming → List Call
  calls_of key clocks protocol failed = []
  calls_of key clocks protocol timed_out = []
  calls_of key clocks protocol (complete payload) =
      asked clocks (authenticate crates resolver clocks key payload protocol)

  abbrev all_calls : EncryptionKey → List Arrival → List Call
  all_calls key [] = []
  all_calls key (a ∷ rest) = calls_of key a.clocks a.protocol a.incoming ++ all_calls key rest

  admit-asked :
      (clocks : Clocks) (r : ServiceResult Message) (guard : ReplayGuard)
      → (admit crates resolver clocks guard r).0 ≡ Window.run cids (asked clocks r) guard
  unfolding admit
  admit-asked clocks (err e) guard = refl
  admit-asked clocks (ok message) guard = refl

  handled :
      (clocks : Clocks) (now : ℕ) (protocol : Str) (inbox : Inbox) (incoming : Incoming)
      (s : Shared)
      → (handle_stream crates resolver clocks now protocol inbox incoming s).security ≡ record {
        recipient_key = s.security.recipient_key;
        replay_guard =
            Window.run cids
              (calls_of s.security.recipient_key clocks protocol incoming)
              s.security.replay_guard;
      }
  unfolding handle_stream decode
  handled clocks now protocol inbox failed s = refl
  handled clocks now protocol inbox timed_out s = refl
  handled clocks now protocol inbox (complete payload) s =
      rw
        (admit-asked clocks
          (authenticate crates resolver clocks s.security.recipient_key payload protocol)
          s.security.replay_guard)
        refl

  run-append :
      (xs ys : List Call) (guard : ReplayGuard)
      → Window.run cids (xs ++ ys) guard ≡ Window.run cids ys (Window.run cids xs guard)
  run-append [] ys guard = refl
  run-append (x ∷ xs) ys guard = run-append xs ys ((call cids x guard).0)

  all_handled :
      (arrivals : List Arrival) (s : Shared)
      → (handle_all arrivals s).security ≡ record {
        recipient_key = s.security.recipient_key;
        replay_guard =
            Window.run cids (all_calls s.security.recipient_key arrivals) s.security.replay_guard;
      }
  unfolding handle_all
  all_handled [] s = refl
  all_handled (a ∷ rest) s =
      rw
        (
          all_handled rest (handle a s),
          handled a.clocks a.now a.protocol a.inbox a.incoming s,
          run-append (calls_of s.security.recipient_key a.clocks a.protocol a.incoming)
              (all_calls s.security.recipient_key rest) s.security.replay_guard,
        )
        refl

  asked-IsUpTo :
      (limit : ℕ) (clocks : Clocks) (r : ServiceResult Message)
      → IsUpTo limit clocks.pruned
      → All (λ c. IsUpTo limit c.pruned) (asked clocks r)
  asked-IsUpTo limit clocks (err e) h = tt
  asked-IsUpTo limit clocks (ok message) h = (h, tt)

  calls_of-IsUpTo :
      (limit : ℕ) (key : EncryptionKey) (clocks : Clocks) (protocol : Str) (incoming : Incoming)
      → IsUpTo limit clocks.pruned
      → All (λ c. IsUpTo limit c.pruned) (calls_of key clocks protocol incoming)
  calls_of-IsUpTo limit key clocks protocol failed h = tt
  calls_of-IsUpTo limit key clocks protocol timed_out h = tt
  calls_of-IsUpTo limit key clocks protocol (complete payload) h =
      asked-IsUpTo limit clocks (authenticate crates resolver clocks key payload protocol) h

  all_calls-IsUpTo :
      (limit : ℕ) (key : EncryptionKey) (arrivals : List Arrival)
      → All (λ a. IsUpTo limit a.clocks.pruned) arrivals
      → All (λ c. IsUpTo limit c.pruned) (all_calls key arrivals)
  all_calls-IsUpTo limit key [] h = tt
  all_calls-IsUpTo limit key (a ∷ rest) h =
      All-append (λ c. IsUpTo limit c.pruned) (calls_of key a.clocks a.protocol a.incoming)
        (all_calls key rest) (calls_of-IsUpTo limit key a.clocks a.protocol a.incoming (h.0))
        (all_calls-IsUpTo limit key rest (h.1))

  decode-replayed :
      (clocks : Clocks) (security : InboundSecurity) (payload : Bytes) (protocol : Str)
      (copy : Message)
      → authenticate crates resolver clocks security.recipient_key payload protocol ≡ ok copy
      → (guard_step crates resolver clocks copy security.replay_guard).1 ≡ err replay_detected
      → (decode crates resolver clocks security payload protocol).1
        ≡ err (validation replay_detected)
  unfolding decode admit
  decode-replayed clocks security payload protocol copy found refused =
      rw (found, admit, refused) refl

  security_after :
      (a : Arrival) (payload : Bytes) (message : Message) (between : List Arrival) (s : Shared)
      → a.incoming ≡ complete payload
      → authenticate crates resolver a.clocks s.security.recipient_key payload a.protocol
        ≡ ok message
      → (handle_all between (handle a s)).security ≡ record {
        recipient_key = s.security.recipient_key;
        replay_guard =
            Window.run cids
              (all_calls s.security.recipient_key between)
              ((call cids (guard_call a.clocks message) s.security.replay_guard).0);
      }
  security_after a payload message between s read found =
      rw
        (
          all_handled between (handle a s),
          handled a.clocks a.now a.protocol a.inbox a.incoming s,
          read,
          found,
        )
        refl

  -- A message that one stream delivered is delivered by no other stream of the endpoint within the
  -- window of the guard, whatever its protocol and inbox: after any streams in between that prune
  -- no later than the window's end, a payload that is authenticated as a valid message with the
  -- same id is refused as a replay up to the window's end, and its task leaves the queues alone.
  pub deliver_once :
      (s : Shared) (a b : Arrival) (payload copied : Bytes) (message copy : Message)
      (between : List Arrival) (at now : ℕ)
      → a.incoming ≡ complete payload
      → (decode crates resolver a.clocks s.security payload a.protocol).1 ≡ ok message
      → a.clocks.inserted ≡ ok at
      → All (λ x. IsUpTo (at + s.security.replay_guard.window_secs) x.clocks.pruned) between
      → b.incoming ≡ complete copied
      → authenticate crates resolver b.clocks s.security.recipient_key copied b.protocol ≡ ok copy
      → copy.id ≡ message.id
      → Check.validate cids b.clocks.checked (Create.headers crates copy) ≡ ok tt
      → b.clocks.pruned ≡ ok now
      → now ≤ at + s.security.replay_guard.window_secs
      → ((decode crates resolver b.clocks
            (handle_all between (handle a s)).security
            copied
            b.protocol).1
          ≡ err (validation replay_detected))
        × ((handle b (handle_all between (handle a s))).store
            ≡ (handle_all between (handle a s)).store)
  unfolding handle_stream Create.headers Create.unsigned_headers
  deliver_once s a b payload copied message copy between at now read accepted entered in_time
        read_copy found_copy same valid pruned bound =
      let (found, first) =
        (decode_iff crates resolver a.clocks s.security payload a.protocol message).0 accepted in
      let key = s.security.recipient_key in
      let last = handle_all between (handle a s) in
      let after = security_after a payload message between s read found in
      let refused =
        no_replay cids s.security.replay_guard (guard_call a.clocks message)
          (guard_call b.clocks copy) (all_calls key between) at now entered first
          (all_calls-IsUpTo (at + s.security.replay_guard.window_secs) key between in_time) same
          valid pruned bound in
      let replayed =
        decode-replayed b.clocks last.security copied b.protocol copy (rw after found_copy)
          (rw after refused) in
      (replayed, rw (read_copy, replayed) refl)
