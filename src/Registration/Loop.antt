-- ===== src/Registration/Loop.antt =====
-- The retry loop of the registration-token service (server/internal/pki/registration_tokens.go).
use power_manage.Shared.{
  ℕ, zero, suc, ◌+◌, ◌<◌, ◌≤◌, ◌≡◌, ◌≢◌, ◌⊎◌, true, refl, sym, ap, ◌∙◌, inl, inr, Result, ok, err,
  ◌==◌, arith, Result-cases, Bool-cases, subst,
}
use power_manage.EventStore.{StoreError}
use power_manage.Registration.{RegistrationError}
use power_manage.Registration.Service.{
  attempt_of, ServiceError, retry_limit, Round, Attempt, finished, conflicted, cas_loop,
  wait_for_cas_retry,
}

pub Attempt-cases : {A : Type 0} (a : Attempt A) → ((x : A) × (a ≡ finished x)) ⊎ (a ≡ conflicted)
Attempt-cases (finished x) = inl (x, refl)
Attempt-cases conflicted = inr refl

pub attempt_of-finished :
    {A : Type 0} (r : Result (StoreError RegistrationError) A) {a : A}
    → attempt_of r ≡ ok (finished a)
    → r ≡ ok a
unfolding attempt_of
attempt_of-finished (ok x) {a = a} h = ground (arith, h)
attempt_of-finished (err e) h = absurd (ground (arith, h))

module _ {A : Type 0} (try : Round → Result ServiceError (Attempt A)) (rounds : ℕ → Round) where
  -- The outcome of the loop is that of one of its passes.
  pub cas_loop-eq-ok :
      (attempt left : ℕ) {a : A}
      → cas_loop try rounds attempt left ≡ ok a
      → (n : ℕ) × (n < attempt + left) × (try (rounds n) ≡ ok (finished a))
  unfolding cas_loop wait_for_cas_retry
  cas_loop-eq-ok attempt zero h = absurd (ground (arith, h))
  cas_loop-eq-ok attempt (suc left) {a = a} h = elim (Result-cases (try (rounds attempt))) [
    | inr (e, bad) ↦ absurd (ground (arith, bad, h))
    | inl (outcome, done) ↦ elim (Attempt-cases outcome) [
      | inl (x, is) ↦
          let e : x ≡ a = ground (arith, done, is, h) in
          (attempt, omega arith, done ∙ ap ok (is ∙ ap finished e))
      | inr is ↦
          let (n, lt, found) =
            cas_loop-eq-ok (suc attempt) left {a = a} (ground (arith, done, is, h)) in
          (n, omega (arith, lt), found)
    ]
  ]

  -- The loop reports its retry limit only after a conflict in every pass.
  pub cas_loop-retry_limit :
      ((n : ℕ) → try (rounds n) ≢ err retry_limit)
      → (attempt left n : ℕ) → cas_loop try rounds attempt left ≡ err retry_limit
      → attempt ≤ n
      → n < attempt + left
      → try (rounds n) ≡ ok conflicted
  unfolding cas_loop wait_for_cas_retry
  cas_loop-retry_limit never attempt zero n h le lt = absurd (omega (arith, le, lt))
  cas_loop-retry_limit never attempt (suc left) n h le lt =
      elim (Result-cases (try (rounds attempt))) [
        | inr (e, bad) ↦
            let is : e ≡ retry_limit = ground (arith, bad, h) in
            absurd (never attempt (bad ∙ ap err is))
        | inl (outcome, done) ↦ elim (Attempt-cases outcome) [
          | inl (x, is) ↦ absurd (ground (arith, done, is, h))
          | inr is ↦ elim (Bool-cases (n == attempt)) [
            | inl same ↦
                let e : attempt ≡ n = ground (arith, same) in
                subst (λ m. try (rounds m) ≡ ok conflicted) e (done ∙ ap ok is)
            | inr other ↦
                cas_loop-retry_limit never (suc attempt) left n
                  (ground (arith, done, is, h, other, le, lt)) (ground (arith, other, le))
                  (omega (arith, lt))
          ]
        ]
      ]

  first-error :
      (attempt left : ℕ) {e : ServiceError}
      → try (rounds attempt) ≡ err e
      → cas_loop try rounds attempt (suc left) ≡ err e
  unfolding cas_loop
  first-error attempt left h = ground (arith, h)

  after-conflict :
      (attempt left : ℕ) {e : ServiceError}
      → try (rounds attempt) ≡ ok conflicted
      → (rounds attempt).live ≡ true
      → (rounds attempt).waited ≡ true
      → 0 < left
      → cas_loop try rounds (suc attempt) left ≡ err e
      → cas_loop try rounds attempt (suc left) ≡ err e
  unfolding cas_loop wait_for_cas_retry
  after-conflict attempt left lost live waited more rest =
      ground (arith, lost, live, waited, more, rest)

  -- A pass that conflicted and waited for its retry.
  abbrev pub IsLost : ℕ → Type 0
  IsLost m =
      (try (rounds m) ≡ ok conflicted) × ((rounds m).live ≡ true) × ((rounds m).waited ≡ true)

  -- Lost passes lead to the error of the pass after them.
  pub cas_loop-skip :
      (attempt left n : ℕ) (e : ServiceError)
      → ((m : ℕ) → m < n → IsLost (m + attempt))
      → n < left
      → try (rounds (n + attempt)) ≡ err e
      → cas_loop try rounds attempt left ≡ err e
  cas_loop-skip attempt zero n e before lt last = absurd (omega (arith, lt))
  cas_loop-skip attempt (suc left) zero e before lt last =
      let start : attempt ≡ 0 + attempt = omega arith in
      first-error attempt left (ap (λ k. try (rounds k)) start ∙ last)
  cas_loop-skip attempt (suc left) (suc n) e before lt last =
      let start : 0 + attempt ≡ attempt = omega arith in
      let (lost, live, waited) = subst IsLost start (before 0 (omega arith)) in
      let shift : (m : ℕ) → m + suc attempt ≡ suc m + attempt = λ m. omega arith in
      after-conflict attempt left lost live waited (omega (arith, lt)) (
        cas_loop-skip (suc attempt) left n e
          (λ m less. subst IsLost (sym (shift m)) (before (suc m) (omega (arith, less))))
          (omega (arith, lt)) (ap (λ k. try (rounds k)) (shift n) ∙ last))
