-- ===== src/Kubo/Retry.antt =====
-- The runs of the retry loops of src/kubo/kubo.rs: which attempts failed, how long the loop waited in
-- between, and which attempt ended it.
use rust_ma_core.Common.{
  ℕ, zero, suc, ◌*◌, ◌≤◌, leb, Bool-cases, inl, inr, ◌⊎◌, ◌+◌, ◌∷◌, Result, ok, err, Result-cases,
  ◌≡◌, refl, ap, subst, ◌∙◌, arith,
}
use rust_ma_core.Kubo.{History, KuboError, slept, least, milli, next_delay, retry}

pub least_le : (a b : ℕ) → least a b ≤ b
least_le a b = ground (arith, Bool-cases (leb a b))

pub next_delay_le : (limit prev curr : ℕ) → next_delay limit prev curr ≤ limit * milli
unfolding next_delay
next_delay_le limit prev curr = times_le _ limit milli (least_le _ limit)
  where
    times_le : (a b c : ℕ) → a ≤ b → a * c ≤ b * c
    times_le a b zero h = omega arith
    times_le a b (suc c) h = omega (arith, times_le a b c h)

module _ {A : Type 0} (attempt : History → History × Result KuboError A) (bound : ℕ) where
  -- Attempts that failed since `start`, each followed by a delay.
  pub data Tried (start : History) : ℕ → History → Type 0 where
    untried : Tried start zero start
    retried :
        {n : ℕ} {now : History} (t : ℕ) (e : KuboError)
        → Tried start n now
        → (attempt now).1 ≡ err e
        → t ≤ bound
        → Tried start (suc n) (slept t ∷ (attempt now).0)

  -- How the attempt at `before` ends a loop that may fail at most `most` times in front of it.
  abbrev pub Ends : ℕ → ℕ → History → Type 0
  Ends most failures before =
      ((value : A) × ((attempt before).1 ≡ ok value))
      ⊎ ((e : KuboError) × ((attempt before).1 ≡ err e) × (failures ≡ most))

  pub record IsRun (start : History) (most : ℕ) (end : History × Result KuboError A) : Type 0 where
    pub failures : ℕ
    pub before : History
    pub tried : Tried start failures before
    pub few : failures ≤ most
    pub same : attempt before ≡ end
    pub ends : Ends most failures before

module _ {A : Type 0} (next : ℕ → ℕ → ℕ) (attempt : History → History × Result KuboError A)
    (bound : ℕ) (bounded : (prev curr : ℕ) → next prev curr ≤ bound) where
  ended :
      (left prev curr : ℕ) (h : History) (value : A)
      → (attempt h).1 ≡ ok value
      → attempt h ≡ retry next attempt (suc left) prev curr h
  unfolding retry
  ended left prev curr h value worked =
      ap (λ r. ((attempt h).0, r)) worked ∙ rw (retry, worked) refl

  went_on :
      (left prev curr : ℕ) (h : History) (e : KuboError)
      → (attempt h).1 ≡ err e
      → retry next attempt left curr (next prev curr) (slept curr ∷ (attempt h).0)
        ≡ retry next attempt (suc left) prev curr h
  unfolding retry
  went_on left prev curr h e failed = rw (retry, failed) refl

  pub retry_lem :
      (left prev curr n most : ℕ) (start h : History)
      → curr ≤ bound
      → n + left ≡ most
      → Tried attempt bound start n h
      → IsRun attempt bound start most (retry next attempt left prev curr h)
  unfolding retry
  retry_lem zero prev curr n most start h le total tried = record {
    failures = n;
    before = h;
    tried = tried;
    few = omega arith;
    same = refl;
    ends = elim (Result-cases (attempt h).1) [
      | inl (value, worked) ↦ inl (value, worked)
      | inr (e, failed) ↦ inr (e, failed, omega arith)
    ];
  }
  retry_lem (suc left) prev curr n most start h le total tried = elim (Result-cases (attempt h).1) [
    | inl (value, worked) ↦ record {
      failures = n;
      before = h;
      tried = tried;
      few = omega arith;
      same = ended left prev curr h value worked;
      ends = inl (value, worked);
    }
    | inr (e, failed) ↦
        subst (λ end. IsRun attempt bound start most end) (went_on left prev curr h e failed)
          (retry_lem left curr (next prev curr) (suc n) most start (slept curr ∷ (attempt h).0)
            (bounded prev curr) (omega arith) (retried curr e tried failed le))
  ]
