-- ===== src/Msg/Window.antt =====
-- What the replay guard of src/msg.rs blocks, and for how long.
use rust_ma_core.Common.{
  ℕ, ◌+◌, ◌≤◌, ◌<◌, Str, Bool, true, false, ◌&&◌, ◌==◌, str_eq, str_eq_refl, any, retain, All, List,
  [], ◌∷◌, ok, err, ◌≡◌, ◌↔◌, refl, ◌∙◌, sym, subst, arith, Result-cases,
}
use rust_ma_core.Error.{MaResult, replay_detected}
use rust_ma_core.External.Cids.{CidLib}
use rust_ma_core.Msg.Types.{Reading, Headers, ReplayGuard}
use rust_ma_core.Msg.Check.{validate}
use rust_ma_core.Msg.Replay.{
  new, in_window, prune, prune_old, contains_key, insert, insert_new, check_and_insert,
}

-- An entry for the id that is still in the window.
abbrev pub blocks : Str → ℕ → ℕ → Str × ℕ → Bool
blocks id window_secs now entry = str_eq entry.0 id && in_window window_secs now entry

any-retain :
    (id : Str) (w now : ℕ) (seen : List (Str × ℕ))
    → any (λ entry. str_eq entry.0 id) (retain (in_window w now) seen) ≡ any (blocks id w now) seen
any-retain id w now [] = refl
any-retain id w now (entry ∷ seen) = ground (arith, any-retain id w now seen)

-- One call of the guard, with what it is given.
pub record Call : Type 0 where
  pub headers : Headers
  pub checked : Reading
  pub pruned : Reading
  pub inserted : Reading

module _ (cids : CidLib) where
  abbrev pub call : Call → ReplayGuard → ReplayGuard × MaResult (Unit {0})
  call c guard = check_and_insert cids c.checked c.pruned c.inserted c.headers guard

  -- The guard after a sequence of calls.
  abbrev pub run : List Call → ReplayGuard → ReplayGuard
  run [] guard = guard
  run (c ∷ rest) guard = run rest ((call c guard).0)

  -- With a clock that works, headers are accepted exactly if they are valid and no entry for their
  -- id is in the window.
  pub check_and_insert_iff :
      (checked : Reading) (now at : ℕ) (h : Headers) (guard : ReplayGuard)
      → ((check_and_insert cids checked (ok now) (ok at) h guard).1 ≡ ok tt) ↔ (
          (validate cids checked h ≡ ok tt)
          × (any (blocks h.id guard.window_secs now) guard.seen ≡ false))
  unfolding check_and_insert prune_old prune insert_new contains_key insert
  check_and_insert_iff checked now at h guard = ground (
    arith,
    any-retain h.id guard.window_secs now guard.seen,
    Result-cases (validate cids checked h),
  )

-- The id was entered at the time.
abbrev entered : Str → ℕ → List (Str × ℕ) → Bool
entered id at seen = any (λ entry. str_eq entry.0 id && entry.1 == at) seen

-- The pruning's clock, if it works, is at most at the limit.
abbrev pub IsUpTo : ℕ → Reading → Type 0
IsUpTo limit (ok now) = now ≤ limit
IsUpTo limit (err e) = Unit

entered-retain :
    (id : Str) (w at now : ℕ) (seen : List (Str × ℕ))
    → now ≤ at + w
    → entered id at seen ≡ true
    → entered id at (retain (in_window w now) seen) ≡ true
unfolding in_window
entered-retain id w at now [] h e = cc
entered-retain id w at now (entry ∷ seen) h e = ground (arith, entered-retain id w at now seen h)

entered-blocks :
    (id : Str) (w at now : ℕ) (seen : List (Str × ℕ))
    → now ≤ at + w
    → entered id at seen ≡ true
    → any (blocks id w now) seen ≡ true
unfolding in_window
entered-blocks id w at now [] h e = cc
entered-blocks id w at now (entry ∷ seen) h e = ground (arith, entered-blocks id w at now seen h)

entered-prune_old :
    (reading : Reading) (id : Str) (at : ℕ) (guard : ReplayGuard)
    → IsUpTo (at + guard.window_secs) reading
    → entered id at guard.seen ≡ true
    → entered id at (prune_old reading guard).0.seen ≡ true
unfolding prune_old prune
entered-prune_old (ok now) id at guard h e =
    entered-retain id guard.window_secs at now guard.seen h e
entered-prune_old (err x) id at guard h e = e

entered-insert_new :
    (reading : Reading) (id new_id : Str) (at : ℕ) (guard : ReplayGuard)
    → entered id at guard.seen ≡ true
    → entered id at (insert_new reading new_id guard).0.seen ≡ true
unfolding insert_new insert
entered-insert_new (ok t) id new_id at guard e = ground arith
entered-insert_new (err x) id new_id at guard e = ground arith

window-insert_new :
    (reading : Reading) (id : Str) (guard : ReplayGuard)
    → (insert_new reading id guard).0.window_secs ≡ guard.window_secs
unfolding insert_new insert
window-insert_new (ok t) id guard = ground arith
window-insert_new (err x) id guard = ground arith

window-prune_old :
    (reading : Reading) (guard : ReplayGuard)
    → (prune_old reading guard).0.window_secs ≡ guard.window_secs
unfolding prune_old prune
window-prune_old (ok now) guard = refl
window-prune_old (err x) guard = refl

module _ (cids : CidLib) where
  window-call :
      (c : Call) (guard : ReplayGuard) → (call cids c guard).0.window_secs ≡ guard.window_secs
  unfolding check_and_insert
  window-call c guard = ground (
    arith,
    window-prune_old c.pruned guard,
    window-insert_new c.inserted c.headers.id ((prune_old c.pruned guard).0),
    Result-cases (validate cids c.checked c.headers),
    Result-cases ((prune_old c.pruned guard).1),
  )

  entered-call :
      (c : Call) (id : Str) (at : ℕ) (guard : ReplayGuard)
      → IsUpTo (at + guard.window_secs) c.pruned
      → entered id at guard.seen ≡ true
      → entered id at (call cids c guard).0.seen ≡ true
  unfolding check_and_insert
  entered-call c id at guard h e = ground (
    arith,
    entered-prune_old c.pruned id at guard h e,
    entered-insert_new c.inserted id c.headers.id at ((prune_old c.pruned guard).0),
    Result-cases (validate cids c.checked c.headers),
    Result-cases ((prune_old c.pruned guard).1),
  )

  entered-run :
      (calls : List Call) (id : Str) (at w : ℕ) (guard : ReplayGuard)
      → guard.window_secs ≡ w
      → All (λ c. IsUpTo (at + w) c.pruned) calls
      → entered id at guard.seen ≡ true
      → (entered id at (run cids calls guard).seen ≡ true)
        × ((run cids calls guard).window_secs ≡ w)
  entered-run [] id at w guard same h e = (e, same)
  entered-run (c ∷ rest) id at w guard same h e =
      let in_time = subst (λ x. IsUpTo (at + x) c.pruned) (sym same) (h.0) in
      entered-run rest id at w ((call cids c guard).0) (window-call c guard ∙ same) (h.1)
        (entered-call c id at guard in_time e)

  entered-accepted :
      (c : Call) (at : ℕ) (guard : ReplayGuard)
      → c.inserted ≡ ok at
      → (call cids c guard).1 ≡ ok tt
      → entered c.headers.id at (call cids c guard).0.seen ≡ true
  unfolding check_and_insert insert_new insert
  entered-accepted c at guard e h = ground (
    arith,
    e,
    str_eq_refl c.headers.id,
    Result-cases (validate cids c.checked c.headers),
    Result-cases ((prune_old c.pruned guard).1),
  )

  refused :
      (d : Call) (now : ℕ) (guard : ReplayGuard)
      → validate cids d.checked d.headers ≡ ok tt
      → d.pruned ≡ ok now
      → any (blocks d.headers.id guard.window_secs now) guard.seen ≡ true
      → (call cids d guard).1 ≡ err replay_detected
  unfolding check_and_insert prune_old prune insert_new contains_key
  refused d now guard valid pruned blocked =
      ground
        (arith, valid, pruned, any-retain d.headers.id guard.window_secs now guard.seen, blocked)

  -- Headers that were accepted block their id for the whole window: after any calls in between,
  -- none of which pruned later than the window's end, valid headers with that id are refused as a
  -- replay at any time up to the window's end.
  pub no_replay :
      (guard : ReplayGuard) (c d : Call) (between : List Call) (at now : ℕ)
      → c.inserted ≡ ok at
      → (call cids c guard).1 ≡ ok tt
      → All (λ b. IsUpTo (at + guard.window_secs) b.pruned) between
      → d.headers.id ≡ c.headers.id
      → validate cids d.checked d.headers ≡ ok tt
      → d.pruned ≡ ok now
      → now ≤ at + guard.window_secs
      → (call cids d (run cids between ((call cids c guard).0))).1 ≡ err replay_detected
  no_replay guard c d between at now e accepted in_time same valid pruned bound =
      let after = (call cids c guard).0 in
      let (held, window) =
        entered-run between d.headers.id at guard.window_secs after (window-call c guard) in_time
          (rw same (entered-accepted c at guard e accepted)) in
      let last = run cids between after in
      refused d now last valid pruned
        (entered-blocks d.headers.id last.window_secs at now last.seen (rw window bound) held)

  -- A guard that has accepted one message accepts its id again once the window is over, as long as
  -- the headers are valid: the window, not the message's expiry, bounds the protection.
  pub replay-after_window :
      (w : ℕ) (c d : Call) (at now later : ℕ)
      → c.inserted ≡ ok at
      → (call cids c (new w)).1 ≡ ok tt
      → validate cids d.checked d.headers ≡ ok tt
      → d.pruned ≡ ok now
      → d.inserted ≡ ok later
      → at + w < now
      → (call cids d ((call cids c (new w)).0)).1 ≡ ok tt
  unfolding check_and_insert new insert_new insert contains_key prune_old prune in_window
  replay-after_window w c d at now later e accepted valid pruned inserted over = ground (
    arith,
    Result-cases (validate cids c.checked c.headers),
    Result-cases c.pruned,
    e,
    accepted,
    valid,
    pruned,
    inserted,
  )
