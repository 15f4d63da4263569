-- ===== src/RateLimit/Within.antt =====
-- The memory that one step of the failure ladder takes (server/internal/auth/ratelimit.go): the number
-- of buckets, and the attempts of one bucket.
use power_manage.Shared.{
  ℕ, ◌+◌, ◌≤◌, ◌≡◌, sym, subst, inl, inr, true, false, List, [], ◌∷◌, some, ok, arith, length,
  length-append, All, Bool-cases, Option-cases,
}
use power_manage.Shared.Int.{ℤ, pos, ◌-ℤ◌, ltb_ℤ, ◌≤ℤ◌}
use power_manage.Shared.Bytes.{Bytes}
use power_manage.RateLimit.{
  BucketKey, FailureBucket, FailureLimit, Buckets, FailureDimension, dimension_ip,
  dimension_account, key_eq, find_bucket, set_bucket, delete_bucket, current_failures, prune,
  prune_key, keep_bucket, update_or_delete, record_failure, push_attempt, attempts_or_none,
  record_both, over_capacity, new_bucket_count, failure_bucket_capacity, FailureLadder,
  RateLimitPolicy, find_policy, check_policies, valid_failure_limit,
}
use power_manage.RateLimit.Buckets.{
  key_eq→eq, find_bucket-set_bucket, length-set_bucket, length-current_failures,
}

-- The limit that the registry sets for a bucket.
unfoldable pub limit_of : RateLimitPolicy → FailureDimension → FailureLimit
limit_of policy dimension_ip = policy.per_ip
limit_of policy dimension_account = policy.per_account

-- A bucket of a registered procedure, with no more attempts than its limit.
unfoldable pub WithinLimit : List (Bytes × RateLimitPolicy) → BucketKey × FailureBucket → Type 0
WithinLimit policies entry =
    (policy : RateLimitPolicy) × (find_policy policies entry.0.procedure ≡ some policy)
    × (pos (length entry.1.attempts) ≤ℤ (limit_of policy entry.0.dimension).attempts)

unfoldable pub IsBounded : FailureLadder → Type 0
IsBounded l =
    (check_policies l.policies ≡ ok tt)
    × (length l.buckets ≤ failure_bucket_capacity)
    × All (WithinLimit l.policies) l.buckets

valid_policy :
    (m : List (Bytes × RateLimitPolicy)) (p : Bytes) {policy : RateLimitPolicy}
    → check_policies m ≡ ok tt
    → find_policy m p ≡ some policy
    → (valid_failure_limit policy.per_ip ≡ true) × (valid_failure_limit policy.per_account ≡ true)
unfolding check_policies find_policy
valid_policy [] p h e = cc
valid_policy ((q, c) ∷ m) p {policy = policy} h e =
    ground (arith, valid_policy m p {policy = policy})

-- Two writes add a bucket for each key that is missing, at most.
length-set_both :
    (m : Buckets) (k₁ k₂ : BucketKey) (b₁ b₂ : FailureBucket) {bound : ℕ}
    → new_bucket_count m k₁ k₂ + length m ≤ bound
    → length (set_bucket (set_bucket m k₁ b₁) k₂ b₂) ≤ bound
unfolding new_bucket_count
length-set_both m k₁ k₂ b₁ b₂ h = ground (
  arith,
  length-set_bucket m k₁ b₁,
  length-set_bucket (set_bucket m k₁ b₁) k₂ b₂,
  find_bucket-set_bucket m k₁ k₂ b₁,
)

pub length-record_both :
    (m : Buckets) (policy : RateLimitPolicy) (k₁ k₂ : BucketKey) (now : ℤ)
    → over_capacity m k₁ k₂ ≡ false
    → length (record_both m policy k₁ k₂ now).0 ≤ failure_bucket_capacity
unfolding record_both record_failure over_capacity new_bucket_count
length-record_both m policy k₁ k₂ now h =
    let attempts_at : Buckets → BucketKey → List ℤ = λ m k. attempts_or_none (find_bucket m k) in
    let b₁ : FailureBucket = record {
      attempts = push_attempt (attempts_at m k₁) policy.per_ip now;
      window = policy.per_ip.window;
    } in
    let m₁ : Buckets = set_bucket m k₁ b₁ in
    let b₂ : FailureBucket = record {
      attempts = push_attempt (attempts_at m₁ k₂) policy.per_account now;
      window = policy.per_account.window;
    } in
    length-set_both m k₁ k₂ b₁ b₂ (ground arith)

module _ (P : BucketKey × FailureBucket → Type 0) where
  All-delete_bucket : (m : Buckets) (k : BucketKey) → All P m → All P (delete_bucket m k)
  unfolding delete_bucket
  All-delete_bucket [] k h = tt
  All-delete_bucket ((j, c) ∷ m) k h = elim (Bool-cases (key_eq j k)) [
    | inl e ↦ rw e h.1
    | inr e ↦ rw e (h.0, All-delete_bucket m k h.1)
  ]

  All-set_bucket :
      (m : Buckets) (k : BucketKey) (b : FailureBucket)
      → P (k, b)
      → All P m
      → All P (set_bucket m k b)
  unfolding set_bucket
  All-set_bucket [] k b p h = (p, tt)
  All-set_bucket ((j, c) ∷ m) k b p h = elim (Bool-cases (key_eq j k)) [
    | inl e ↦ rw e (subst (λ i. P (i, b)) (sym (key_eq→eq j k e)) p, h.1)
    | inr e ↦ rw e (h.0, All-set_bucket m k b p h.1)
  ]

  All-update_or_delete :
      (m : Buckets) (k : BucketKey) (b : FailureBucket)
      → P (k, b)
      → All P m
      → All P (update_or_delete m k b)
  unfolding update_or_delete
  All-update_or_delete m k b p h =
      elim b.attempts
        as (λ ts. All P (elim ts [ [] ↦ delete_bucket m k | _ ∷ _ ↦ set_bucket m k b ])) [
          | [] ↦ All-delete_bucket m k h
          | _ ∷ _ ↦ All-set_bucket m k b p h
        ]

  find_bucket_head :
      (j k : BucketKey) (c : FailureBucket) (m : Buckets) {b : FailureBucket}
      → key_eq j k ≡ true
      → find_bucket ((j, c) ∷ m) k ≡ some b
      → c ≡ b
  unfolding find_bucket
  find_bucket_head j k c m t e = ground (arith, t)

  All-find_bucket :
      (m : Buckets) (k : BucketKey) {b : FailureBucket}
      → All P m
      → find_bucket m k ≡ some b
      → P (k, b)
  unfolding find_bucket
  All-find_bucket [] k h e = cc
  All-find_bucket ((j, c) ∷ m) k {b = b} h e = elim (Bool-cases (key_eq j k)) [
    | inl t ↦ subst P (cc (key_eq→eq j k t, find_bucket_head j k c m t e)) h.0
    | inr t ↦ All-find_bucket m k h.1 (ground (arith, t))
  ]

  All-keep_bucket :
      (k : BucketKey) (b : FailureBucket) (ts : List ℤ) (m : Buckets)
      → P (k, record b { attempts = ts })
      → All P m
      → All P (keep_bucket k b ts m)
  unfolding keep_bucket
  All-keep_bucket k b [] m p h = h
  All-keep_bucket k b (t ∷ ts) m p h = (p, h)

  All-prune :
      (m : Buckets) (now : ℤ)
      → ((k : BucketKey) (b : FailureBucket) (ts : List ℤ)
          → length ts ≤ length b.attempts
          → P (k, b)
          → P (k, record b { attempts = ts }))
      → All P m
      → All P (prune m now)
  unfolding prune
  All-prune [] now f h = tt
  All-prune ((k, b) ∷ m) now f h =
      let rest : All P (prune m now) = All-prune m now f h.1 in
      All-keep_bucket k b (current_failures b.attempts (now -ℤ b.window)) (prune m now)
        (f k b _ (length-current_failures b.attempts (now -ℤ b.window)) h.0) rest

WithinLimit-shorter :
    (policies : List (Bytes × RateLimitPolicy)) (k : BucketKey) (b : FailureBucket) (ts : List ℤ)
    (w : ℤ)
    → length ts ≤ length b.attempts
    → WithinLimit policies (k, b)
    → WithinLimit policies (k, record { attempts = ts; window = w })
unfolding WithinLimit
WithinLimit-shorter policies k b ts w h (policy, known, bound) =
    (policy, known, omega (arith, h, bound))

-- A recorded attempt leaves at most the limit's attempts, when the limit is positive.
length-push_attempt :
    (attempts : List ℤ) (limit : FailureLimit) (now : ℤ)
    → ltb_ℤ (pos 0) limit.attempts ≡ true
    → pos (length attempts) ≤ℤ limit.attempts
    → pos (length (push_attempt attempts limit now)) ≤ℤ limit.attempts
unfolding push_attempt
length-push_attempt [] limit now h k = ground arith
length-push_attempt (t ∷ ts) limit now h k =
    ground (arith, length-append ts (now ∷ []), length-append (t ∷ ts) (now ∷ []))

module _ (policies : List (Bytes × RateLimitPolicy)) (valid : check_policies policies ≡ ok tt) where
  limit_positive :
      (p : Bytes) (d : FailureDimension) {policy : RateLimitPolicy}
      → find_policy policies p ≡ some policy
      → ltb_ℤ (pos 0) (limit_of policy d).attempts ≡ true
  unfolding limit_of valid_failure_limit
  limit_positive p dimension_ip {policy = policy} e =
      ground (arith, valid_policy policies p {policy = policy} valid e)
  limit_positive p dimension_account {policy = policy} e =
      ground (arith, valid_policy policies p {policy = policy} valid e)

  found_within :
      (k : BucketKey) (b : FailureBucket) {policy : RateLimitPolicy}
      → find_policy policies k.procedure ≡ some policy
      → WithinLimit policies (k, b)
      → pos (length b.attempts) ≤ℤ (limit_of policy k.dimension).attempts
  unfolding WithinLimit
  found_within k b {policy = policy} e (other, known, bound) =
      let same : some other ≡ some policy = cc (known, e) in
      subst (λ c. pos (length b.attempts) ≤ℤ (limit_of c k.dimension).attempts)
        (ground (arith, same)) bound

  attempts_within :
      (m : Buckets) (k : BucketKey) {policy : RateLimitPolicy}
      → find_policy policies k.procedure ≡ some policy
      → All (WithinLimit policies) m
      → pos (length (attempts_or_none (find_bucket m k))) ≤ℤ (limit_of policy k.dimension).attempts
  attempts_within m k {policy = policy} e h = elim (Option-cases (find_bucket m k)) [
    | inl n ↦ ground (arith, n, limit_positive k.procedure k.dimension {policy = policy} e)
    | inr (b, n) ↦ rw n (found_within k b e (All-find_bucket (WithinLimit policies) m k h n))
  ]

  pub record_failure-WithinLimit :
      (m : Buckets) (k : BucketKey) (now : ℤ) {policy : RateLimitPolicy}
      → find_policy policies k.procedure ≡ some policy
      → All (WithinLimit policies) m
      → All (WithinLimit policies) (record_failure m k (limit_of policy k.dimension) now).0
  unfolding record_failure WithinLimit
  record_failure-WithinLimit m k now {policy = policy} e h =
      All-set_bucket (WithinLimit policies) m k _
        (
          policy,
          e,
          length-push_attempt (attempts_or_none (find_bucket m k)) (limit_of policy k.dimension) now
              (limit_positive k.procedure k.dimension e) (attempts_within m k e h),
        )
        h

  pub prune_key-WithinLimit :
      (m : Buckets) (k : BucketKey) (limit : FailureLimit) (now : ℤ)
      → All (WithinLimit policies) m
      → All (WithinLimit policies) (prune_key m k limit now)
  unfolding prune_key
  prune_key-WithinLimit m k limit now h = elim (Option-cases (find_bucket m k)) [
    | inl e ↦ rw (e, prune_key) h
    | inr (b, e) ↦
        rw (e, prune_key)
          (All-update_or_delete (WithinLimit policies) m k _
            (WithinLimit-shorter policies k b _ limit.window
              (length-current_failures b.attempts (now -ℤ limit.window))
              (All-find_bucket (WithinLimit policies) m k h e))
            h)
  ]

  pub sweep-WithinLimit :
      (m : Buckets) (now : ℤ)
      → All (WithinLimit policies) m
      → All (WithinLimit policies) (prune m now)
  sweep-WithinLimit m now h =
      All-prune (WithinLimit policies) m now
        (λ k b ts le w. WithinLimit-shorter policies k b ts b.window le w) h
