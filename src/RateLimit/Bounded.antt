-- ===== src/RateLimit/Bounded.antt =====
-- The memory that the failure ladder holds (server/internal/auth/ratelimit.go), over all its operations.
use power_manage.Shared.{
  ◌<◌, ◌≤◌, ◌≡◌, refl, subst, ◌⊎◌, inl, inr, Bool, true, false, ◌||◌, not, List, [], ◌∷◌, none,
  some, ok, arith, length, All, Bool-cases, Option-cases, Result-cases, if-cases, ◌↔◌, ◌≢◌,
}
use power_manage.Shared.Int.{ℤ, pos, ltb_ℤ, ◌<ℤ◌}
use power_manage.Shared.Bytes.{Bytes}
use power_manage.RateLimit.{
  BucketKey, FailureLimit, Buckets, dimension_ip, dimension_account, prune, prune_key,
  record_failure, record_both, over_capacity, failure_bucket_capacity, sweep, admit, record_attempt,
  allow, FailureLadder, RateLimitPolicy, AuthenticationAttempt, find_policy, check_policies,
  new_failure_ladder, ip_key, account_key_of, valid_authentication_attempt, is_zero_time,
  valid_failure_limit,
}
use power_manage.RateLimit.Buckets.{length-prune, length-prune_key}
use power_manage.RateLimit.Within.{
  WithinLimit, IsBounded, limit_of, length-record_both, record_failure-WithinLimit,
  prune_key-WithinLimit, sweep-WithinLimit,
}

-- A limit that allows attempts, and for some time.
abbrev IsPositive : FailureLimit → Type 0
IsPositive limit = (pos 0 <ℤ limit.attempts) × (pos 0 <ℤ limit.window)

abbrev pub IsRegistered : Bytes × RateLimitPolicy → Type 0
IsRegistered e = (0 < length (e.0)) × IsPositive (e.1).per_ip × IsPositive (e.1).per_account

check_policies_iff :
    (policies : List (Bytes × RateLimitPolicy))
    → (check_policies policies ≡ ok tt) ↔ All IsRegistered policies
unfolding check_policies valid_failure_limit
check_policies_iff [] = ((λ h. tt), (λ h. refl))
check_policies_iff ((procedure, policy) ∷ rest) = (
  (λ h. ground (arith, h, (check_policies_iff rest).0)),
  (λ h. ground (arith, h, (check_policies_iff rest).1)),
)

-- The constructor accepts a registry exactly when it is not empty and each entry names a procedure and
-- has limits with a positive number of attempts and a positive window; the ladder has that registry, no
-- buckets, and the zero time for its next sweep.
pub new_failure_ladder_iff :
    (policies : List (Bytes × RateLimitPolicy)) (l : FailureLadder)
    → (new_failure_ladder policies ≡ ok l) ↔ (
        (0 < length policies)
        × All IsRegistered policies
        × (l.policies ≡ policies)
        × (l.buckets ≡ [])
        × (l.next_sweep ≡ pos 0))
unfolding new_failure_ladder
new_failure_ladder_iff policies l = (
  (λ h. ground (arith, h, (check_policies_iff policies).0)),
  (λ h. ground (arith, h, (check_policies_iff policies).1)),
)

pub new_failure_ladder-IsBounded :
    (policies : List (Bytes × RateLimitPolicy)) {l : FailureLadder}
    → new_failure_ladder policies ≡ ok l
    → IsBounded l
unfolding new_failure_ladder IsBounded
new_failure_ladder-IsBounded policies {l = l} h = elim (Result-cases (check_policies policies)) [
  | inl (tt, e) ↦
      let fresh : FailureLadder = record {
        policies = policies;
        buckets = [];
        next_sweep = pos 0;
      } in
      let same : fresh ≡ l = ground (arith, e, h) in
      subst
        (λ c.
          (check_policies c.policies ≡ ok tt)
          × (length c.buckets ≤ failure_bucket_capacity)
          × All (WithinLimit c.policies) c.buckets)
        same (e, omega arith, tt)
  | inr (f, e) ↦ ground (arith, e, h)
]

module _ (policy : RateLimitPolicy) (k₁ k₂ : BucketKey) (now : ℤ) where
  record_both-WithinLimit :
      (policies : List (Bytes × RateLimitPolicy)) (m : Buckets)
      → check_policies policies ≡ ok tt
      → find_policy policies k₁.procedure ≡ some policy
      → find_policy policies k₂.procedure ≡ some policy
      → k₁.dimension ≡ dimension_ip
      → k₂.dimension ≡ dimension_account
      → All (WithinLimit policies) m
      → All (WithinLimit policies) (record_both m policy k₁ k₂ now).0
  unfolding record_both limit_of
  record_both-WithinLimit policies m v e₁ e₂ d₁ d₂ h =
      let first : All (WithinLimit policies) (record_failure m k₁ policy.per_ip now).0 =
        subst (λ d. All (WithinLimit policies) (record_failure m k₁ (limit_of policy d) now).0) d₁
          (record_failure-WithinLimit policies v m k₁ now e₁ h) in
      let m₁ : Buckets = (record_failure m k₁ policy.per_ip now).0 in
      subst (λ d. All (WithinLimit policies) (record_failure m₁ k₂ (limit_of policy d) now).0) d₂
        (record_failure-WithinLimit policies v m₁ k₂ now e₂ first)

  admit-IsBounded :
      (l : FailureLadder)
      → find_policy l.policies k₁.procedure ≡ some policy
      → find_policy l.policies k₂.procedure ≡ some policy
      → k₁.dimension ≡ dimension_ip
      → k₂.dimension ≡ dimension_account
      → IsBounded l
      → IsBounded (admit l policy k₁ k₂ now).0
  unfolding admit IsBounded
  admit-IsBounded l e₁ e₂ d₁ d₂ (v, size, within) =
      let pruned : Buckets = prune l.buckets now in
      let within' : All (WithinLimit l.policies) pruned =
        sweep-WithinLimit l.policies v l.buckets now within in
      let shorter : length pruned ≤ failure_bucket_capacity =
        omega (arith, size, length-prune l.buckets now) in
      if-cases (λ (r : FailureLadder × Bool). IsBounded r.0) (not (over_capacity l.buckets k₁ k₂))
        (λ c. (
          v,
          length-record_both l.buckets policy k₁ k₂ now (ground (arith, c)),
          record_both-WithinLimit l.policies l.buckets v e₁ e₂ d₁ d₂ within,
        ))
        (λ _.
          if-cases (λ (r : FailureLadder × Bool). IsBounded r.0) (over_capacity pruned k₁ k₂)
            (λ _. (v, shorter, within'))
            (λ c. (
              v,
              length-record_both pruned policy k₁ k₂ now c,
              record_both-WithinLimit l.policies pruned v e₁ e₂ d₁ d₂ within',
            )))

sweep-IsBounded : (l : FailureLadder) (now : ℤ) → IsBounded l → IsBounded (sweep l now)
unfolding sweep IsBounded
sweep-IsBounded l now (v, size, within) =
    if-cases IsBounded (is_zero_time l.next_sweep || not (ltb_ℤ now l.next_sweep))
      (λ _. (
        v,
        omega (arith, size, length-prune l.buckets now),
        sweep-WithinLimit l.policies v l.buckets now within,
      ))
      (λ _. (v, size, within))

sweep-policies : (l : FailureLadder) (now : ℤ) → (sweep l now).policies ≡ l.policies
unfolding sweep
sweep-policies l now =
    if-cases (λ (s : FailureLadder). s.policies ≡ l.policies)
      (is_zero_time l.next_sweep || not (ltb_ℤ now l.next_sweep)) (λ _. refl) (λ _. refl)

prune_key-IsBounded :
    (l : FailureLadder) (k : BucketKey) (limit : FailureLimit) (now : ℤ)
    → IsBounded l
    → IsBounded (record l { buckets = prune_key l.buckets k limit now })
unfolding IsBounded
prune_key-IsBounded l k limit now (v, size, within) = (
  v,
  omega (arith, size, length-prune_key l.buckets k limit now),
  prune_key-WithinLimit l.policies v l.buckets k limit now within,
)

-- An attempt, whatever it is and whenever it comes, leaves a ladder within its bounds: at most 4096
-- buckets, each of a registered procedure and with no more attempts than its limit.
pub allow-IsBounded :
    (l : FailureLadder) (attempt : AuthenticationAttempt) (now : ℤ)
    → IsBounded l
    → IsBounded (allow l attempt now).0
unfolding allow record_attempt
allow-IsBounded l attempt now h = elim (Option-cases (find_policy l.policies attempt.procedure)) [
  | inl e ↦ rw (e, allow) h
  | inr (policy, e) ↦
      let swept : FailureLadder = sweep l now in
      let known : find_policy swept.policies attempt.procedure ≡ some policy =
        cc (e, sweep-policies l now) in
      let k₁ : BucketKey = ip_key attempt in
      let k₂ : BucketKey = account_key_of attempt in
      let first : FailureLadder = record swept {
        buckets = prune_key swept.buckets k₁ policy.per_ip now;
      } in
      let second : FailureLadder = record first {
        buckets = prune_key first.buckets k₂ policy.per_account now;
      } in
      rw (e, allow)
        (if-cases (λ (r : FailureLadder × Bool). IsBounded r.0)
          (not (valid_authentication_attempt attempt)) (λ _. h)
          (λ _.
            if-cases (λ (r : FailureLadder × Bool). IsBounded r.0) attempt.succeeded (λ _. h)
              (λ _. admit-IsBounded policy k₁ k₂ now second known known refl refl (
                prune_key-IsBounded first k₂ policy.per_account now
                  (prune_key-IsBounded swept k₁ policy.per_ip now (sweep-IsBounded l now h))))))
]

-- The state of the ladder changes only for a failed and valid attempt of a registered procedure; every
-- other attempt is answered without a record: yes to a valid success, and no to the rest.
pub allow-unrecorded :
    (l : FailureLadder) (attempt : AuthenticationAttempt) (now : ℤ)
    → (find_policy l.policies attempt.procedure ≡ none)
      ⊎ (valid_authentication_attempt attempt ≡ false)
      ⊎ (attempt.succeeded ≡ true)
    → ((allow l attempt now).0 ≡ l)
      × (((allow l attempt now).1 ≡ true) ↔ (
          (find_policy l.policies attempt.procedure ≢ none)
          × (valid_authentication_attempt attempt ≡ true)))
unfolding allow
allow-unrecorded l attempt now h = elim (Option-cases (find_policy l.policies attempt.procedure)) [
  | inl e ↦ ground (arith, e)
  | inr (policy, e) ↦ elim (Bool-cases (valid_authentication_attempt attempt)) [
    | inl v ↦ ground (arith, e, h, v)
    | inr v ↦ ground (arith, e, h, v)
  ]
]
