-- ===== src/Kubo/Confirmed.antt =====
-- What a successful end of the retry loops of src/kubo/kubo.rs says, and how they wait.
use rust_ma_core.Common.{
  ℕ, zero, suc, ◌≤◌, ◌*◌, Str, codes, true, str_eq, str_eq_iff, trim, ◌++◌, ◌∷◌, ok, err, Result,
  map_err, Result-cases, Bool-cases, inl, inr, ◌⊎◌, ◌≡◌, ◌∙◌, refl, ap, sym, subst, arith,
}
use rust_ma_core.Kubo.{
  History, Node, slept, asked_publish, asked_resolve, IpnsPublishOptions, KuboError, not_published,
  milli, next_delay, with_retry, value_of, publish_params, normalize_ipfs_arg, check_target,
  publish_attempt, name_publish_with_options, verify_name_target_after_error,
  name_publish_with_retry,
}
use rust_ma_core.Kubo.Retry.{Tried, untried, retried, Ends, next_delay_le, retry_lem}

module _ (node : Node) where
  -- The node's answers for a name that is published: a publication that worked, or a resolution to
  -- the target.
  abbrev pub IsConfirmed : Str → Str → Str → IpnsPublishOptions → Str → History → Type 0
  IsConfirmed key_name ipns_id cid options value before =
      (value_of (node.name_publish (publish_params key_name cid options) before) ≡ ok value)
      ⊎ ((node.name_resolve (codes "/ipns/" ++ ipns_id) true before ≡ ok value)
          × (trim value ≡ normalize_ipfs_arg cid))

  target_lem :
      (ipns_id cid value : Str) (answer : Result Str Str)
      → check_target node ipns_id cid answer ≡ ok value
      → (answer ≡ ok value) × (trim value ≡ normalize_ipfs_arg cid)
  unfolding check_target
  target_lem ipns_id cid value (err e) h = absurd (ground (arith, h))
  target_lem ipns_id cid value (ok resolved) h =
      elim (Bool-cases (str_eq (trim resolved) (normalize_ipfs_arg cid))) [
        | inl same ↦
            let equal : resolved ≡ value = ground (arith, h, same) in
            (
              ap ok equal,
              subst (λ v. trim v ≡ normalize_ipfs_arg cid) equal
                  ((str_eq_iff (trim resolved) (normalize_ipfs_arg cid)).0 same),
            )
        | inr other ↦ absurd (ground (arith, h, other))
      ]

  -- The answers to an attempt: to the publication, and to the resolution after it.
  abbrev published : Str → Str → IpnsPublishOptions → History → Result KuboError Str
  published key_name cid options h =
      value_of (node.name_publish (publish_params key_name cid options) h)

  abbrev asked : Str → Str → IpnsPublishOptions → History → History
  asked key_name cid options h = asked_publish (publish_params key_name cid options) ∷ h

  abbrev resolved : Str → Str → Str → IpnsPublishOptions → History → Result KuboError Str
  resolved key_name ipns_id cid options h =
      check_target node ipns_id cid
        (node.name_resolve (codes "/ipns/" ++ ipns_id) true (asked key_name cid options h))

  abbrev second : Str → Str → Str → IpnsPublishOptions → History → History
  second key_name ipns_id cid options h =
      asked_resolve (codes "/ipns/" ++ ipns_id) true ∷ asked key_name cid options h

  -- An attempt by its two answers.
  abbrev attempted :
      History
      → History
      → Result KuboError Str
      → Result KuboError Str
      → History × Result KuboError Str
  attempted first later (ok value) target = (first, ok value)
  attempted first later (err e) (ok value) = (later, ok value)
  attempted first later (err e) (err t) = (later, err e)

  attempt_lem :
      (key_name ipns_id cid : Str) (options : IpnsPublishOptions) (h : History)
      → publish_attempt node key_name ipns_id cid options h
        ≡ attempted
            (asked key_name cid options h)
            (second key_name ipns_id cid options h)
            (published key_name cid options h)
            (resolved key_name ipns_id cid options h)
  unfolding publish_attempt name_publish_with_options verify_name_target_after_error
  attempt_lem key_name ipns_id cid options h =
      elim (Result-cases (published key_name cid options h)) [
        | inl (v, e) ↦ rw (publish_attempt, e) refl
        | inr (e, failed) ↦ elim (Result-cases (resolved key_name ipns_id cid options h)) [
          | inl (v, found) ↦ rw (publish_attempt, failed, found) refl
          | inr (t, lost) ↦ rw (publish_attempt, failed, lost) refl
        ]
      ]

  module _ (key_name ipns_id cid : Str) (options : IpnsPublishOptions) (bound : ℕ) where
    -- Attempts since `start` in which the node refused to publish the name and the name did not
    -- resolve to the target, each followed by a delay of at most `bound`.
    pub data IsRefused (start : History) : ℕ → History → Type 0 where
      begins : IsRefused start zero start
      again :
          {n : ℕ} {now : History} (t : ℕ) (e f : KuboError)
          → IsRefused start n now
          → published key_name cid options now ≡ err e
          → resolved key_name ipns_id cid options now ≡ err f
          → t ≤ bound
          → IsRefused start (suc n) (slept t ∷ second key_name ipns_id cid options now)

    -- The last attempt: the node published the name; or it refused, and the name resolves to the
    -- target; or both failed, as in all attempts before it, and none is left.
    pub data Outcome (left failures : ℕ) (before : History) (end : History × Result KuboError Str)
        : Type 0 where
      accepted :
          (value : Str)
          → published key_name cid options before ≡ ok value
          → end ≡ (asked key_name cid options before, ok value)
          → Outcome left failures before end
      verified :
          (e : KuboError) (value : Str)
          → published key_name cid options before ≡ err e
          → node.name_resolve (codes "/ipns/" ++ ipns_id) true (asked key_name cid options before)
            ≡ ok value
          → trim value ≡ normalize_ipfs_arg cid
          → end ≡ (second key_name ipns_id cid options before, ok value)
          → Outcome left failures before end
      given_up :
          (e f : KuboError)
          → published key_name cid options before ≡ err e
          → resolved key_name ipns_id cid options before ≡ err f
          → failures ≡ left
          → end ≡ (second key_name ipns_id cid options before, err (not_published e))
          → Outcome left failures before end

    pub record IsPublication (left : ℕ) (start : History) (end : History × Result KuboError Str)
        : Type 0 where
      pub failures : ℕ
      pub before : History
      pub refused : IsRefused start failures before
      pub few : failures ≤ left
      pub outcome : Outcome left failures before end

    abbrev attempt : History → History × Result KuboError Str
    attempt = publish_attempt node key_name ipns_id cid options

    -- The two answers of a failed attempt.
    attempt-failed :
        (h : History) (e : KuboError)
        → (attempt h).1 ≡ err e
        → (f : KuboError) × (published key_name cid options h ≡ err e)
          × (resolved key_name ipns_id cid options h ≡ err f)
          × (attempt h ≡ (second key_name ipns_id cid options h, err e))
    attempt-failed h e failed =
        let answers = attempt_lem key_name ipns_id cid options h in
        let result = rw answers at failed in
        elim (Result-cases (published key_name cid options h)) [
          | inl (v, p) ↦ let never = rw p at result in absurd (ground (arith, never))
          | inr (x, p) ↦ elim (Result-cases (resolved key_name ipns_id cid options h)) [
            | inl (v, r) ↦ let never = rw (p, r) at result in absurd (ground (arith, never))
            | inr (f, r) ↦
                let same = rw (p, r) at result in
                (
                  f,
                  p ∙ same,
                  r,
                  (rw (answers, p, r) (ap (λ x. (second key_name ipns_id cid options h, x)) same)),
                )
          ]
        ]

    tried-IsRefused :
        {start now : History} {n : ℕ} → Tried attempt bound start n now → IsRefused start n now
    tried-IsRefused untried = begins
    tried-IsRefused {start = start} (retried {n = n} {now = now} t e earlier failed le) =
        let (f, p, r, same) = attempt-failed now e failed in
        subst (λ h. IsRefused start (suc n) (slept t ∷ h)) (sym (ap (λ x. x.0) same))
          (again t e f (tried-IsRefused earlier) p r le)

    -- The result of the loop, as the caller sees it.
    reported : History × Result KuboError Str → History × Result KuboError Str
    reported (h, r) = (h, map_err not_published r)

    outcome_lem :
        (left failures : ℕ) (before : History)
        → Ends attempt bound left failures before
        → Outcome left failures before (reported (attempt before))
    unfolding reported
    outcome_lem left failures before ends =
        let answers = attempt_lem key_name ipns_id cid options before in
        elim (Result-cases (published key_name cid options before)) [
          | inl (v, p) ↦ accepted v p (rw (answers, p) refl)
          | inr (e, p) ↦ elim (Result-cases (resolved key_name ipns_id cid options before)) [
            | inl (v, r) ↦
                let (found, same) = target_lem ipns_id cid v _ r in
                verified e v p found same (rw (answers, p, r) refl)
            | inr (f, r) ↦
                given_up e f p r (last ends (rw (p, r) at answers)) (rw (answers, p, r) refl)
          ]
        ]
      where
        last :
            {h : History} {e : KuboError}
            → Ends attempt bound left failures before
            → attempt before ≡ (h, err e)
            → failures ≡ left
        last (inl (value, worked)) failed =
            absurd (ground (arith, sym worked ∙ ap (λ x. x.1) failed))
        last (inr (e, failed, total)) same = total

    -- A publication with retries, of `suc left` attempts, is a run of at most as many attempts. In
    -- each but the last the node refused to publish the name and did not resolve it to the target
    -- either, and a delay of at most `bound` followed; `bound` is at least the initial delay and 30
    -- seconds. The last attempt published the name, or found it resolved to the target after an
    -- error, and this is reported; or it failed too, all the attempts are used up, and the error of
    -- its publication is reported.
    pub name_publish_with_retry_lem :
        (left initial : ℕ) (start : History)
        → initial ≤ bound
        → 30000 * milli ≤ bound
        → IsPublication left start
            (name_publish_with_retry node key_name ipns_id cid options (suc left) initial start)
    unfolding name_publish_with_retry with_retry reported
    name_publish_with_retry_lem left initial start le fits =
        let run =
          retry_lem (next_delay 30000) attempt bound
            (λ prev curr. omega (arith, next_delay_le 30000 prev curr, fits)) left 0 initial 0 left
            start start le (omega arith) untried in
        record {
          failures = run.failures;
          before = run.before;
          refused = tried-IsRefused run.tried;
          few = run.few;
          outcome =
              subst (λ end. Outcome left run.failures run.before (reported end)) run.same
                (outcome_lem left run.failures run.before run.ends);
        }

    outcome-IsConfirmed :
        {left failures : ℕ} {before : History} {end : History × Result KuboError Str} (value : Str)
        → Outcome left failures before end
        → end.1 ≡ ok value
        → (at : History) × IsConfirmed key_name ipns_id cid options value at
    outcome-IsConfirmed {before = before} value (accepted v p same) e =
        (before, inl (p ∙ sym (ap (λ x. x.1) same) ∙ e))
    outcome-IsConfirmed {before = before} value (verified x v p found target same) e =
        let equal : v ≡ value = ground (arith, sym (ap (λ y. y.1) same) ∙ e) in
        (
          asked key_name cid options before,
          inr (found ∙ ap ok equal, subst (λ u. trim u ≡ normalize_ipfs_arg cid) equal target),
        )
    outcome-IsConfirmed value (given_up x f p r total same) e =
        absurd (ground (arith, sym (ap (λ y. y.1) same) ∙ e))

    pub name_publish_with_retry-IsConfirmed :
        (left initial : ℕ) (start : History) (value : Str)
        → initial ≤ bound
        → 30000 * milli ≤ bound
        → (name_publish_with_retry node key_name ipns_id cid options (suc left) initial start).1
          ≡ ok value
        → (at : History) × IsConfirmed key_name ipns_id cid options value at
    name_publish_with_retry-IsConfirmed left initial start value le fits worked =
        outcome-IsConfirmed value (name_publish_with_retry_lem left initial start le fits).outcome
          worked
