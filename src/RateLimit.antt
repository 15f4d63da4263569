-- ===== src/RateLimit.antt =====
-- server/internal/auth/ratelimit.go: the failure ladder of the public authentication procedures.
pub mod Buckets
pub mod Within
pub mod Bounded
mod Examples
use power_manage.Shared.{
  ℕ, zero, suc, ◌+◌, ◌*◌, Bool, true, false, ◌&&◌, ◌||◌, not, List, [], ◌∷◌, ◌++◌, Option, none,
  some, Result, ok, err, ltb, leb, ◌==◌, if◌then◌else◌, length, any,
}
use power_manage.Shared.Int.{ℤ, pos, negsuc, ltb_ℤ, ◌+ℤ◌, ◌-ℤ◌}
use power_manage.Shared.Bytes.{Bytes, bytes_eq}
use power_manage.Shared.Utf8.{valid_utf8}

abbrev pub failure_bucket_capacity : ℕ
failure_bucket_capacity = 4096

abbrev max_account_key_bytes : ℕ
max_account_key_bytes = 512

-- Durations and instants are nanoseconds; instants count from Go's zero time.
pub record FailureLimit : Type 0 where
  pub attempts : ℤ
  pub window : ℤ

pub record RateLimitPolicy : Type 0 where
  pub per_ip : FailureLimit
  pub per_account : FailureLimit

-- The client IP is `none` for the invalid `netip.Addr`, and otherwise `Unmap().String()`.
pub record AuthenticationAttempt : Type 0 where
  pub procedure : Bytes
  pub client_ip : Option Bytes
  pub account_key : Bytes
  pub succeeded : Bool

pub data FailureDimension : Type 0 where
  dimension_ip dimension_account : FailureDimension

pub record BucketKey : Type 0 where
  pub procedure : Bytes
  pub value : Bytes
  pub dimension : FailureDimension

pub record FailureBucket : Type 0 where
  pub attempts : List ℤ
  pub window : ℤ

-- The bucket map is an association list with at most one entry for a key.
abbrev pub Buckets : Type 0
Buckets = List (BucketKey × FailureBucket)

pub record FailureLadder : Type 0 where
  pub policies : List (Bytes × RateLimitPolicy)
  pub buckets : Buckets
  pub next_sweep : ℤ

abbrev same_dimension : FailureDimension → FailureDimension → Bool
same_dimension dimension_ip dimension_ip = true
same_dimension dimension_account dimension_account = true
same_dimension _ _ = false

unfoldable pub key_eq : BucketKey → BucketKey → Bool
key_eq a b =
    bytes_eq a.procedure b.procedure
    && bytes_eq a.value b.value
    && same_dimension a.dimension b.dimension

abbrev pub is_zero_time : ℤ → Bool
is_zero_time (pos n) = n == 0
is_zero_time (negsuc n) = false

abbrev is_positive : ℤ → Bool
is_positive n = ltb_ℤ (pos 0) n

unfoldable pub valid_failure_limit : FailureLimit → Bool
valid_failure_limit limit = is_positive limit.attempts && is_positive limit.window

pub data LadderError : Type 0 where
  empty_registry empty_procedure invalid_policy : LadderError

-- The loop of `NewFailureLadder`; Go's map order decides only which of two errors is returned.
unfoldable pub check_policies : List (Bytes × RateLimitPolicy) → Result LadderError (Unit {0})
check_policies [] = ok tt
check_policies ((procedure, policy) ∷ rest) =
    let after = check_policies rest in
    if length procedure == 0
    then err empty_procedure
    else (if not (valid_failure_limit policy.per_ip) || not (valid_failure_limit policy.per_account)
        then err invalid_policy
        else after)

unfoldable pub new_failure_ladder :
    List (Bytes × RateLimitPolicy) → Result LadderError FailureLadder
new_failure_ladder policies =
    if length policies == 0 then err empty_registry else elim (check_policies policies) [
      | ok _ ↦ ok (record { policies = policies; buckets = []; next_sweep = pos 0 })
      | err e ↦ err e
    ]

unfoldable pub find_policy : List (Bytes × RateLimitPolicy) → Bytes → Option RateLimitPolicy
find_policy [] p = none
find_policy ((q, policy) ∷ m) p = if bytes_eq q p then some policy else find_policy m p

unfoldable pub find_bucket : Buckets → BucketKey → Option FailureBucket
find_bucket [] k = none
find_bucket ((j, b) ∷ m) k = if key_eq j k then some b else find_bucket m k

unfoldable pub set_bucket : Buckets → BucketKey → FailureBucket → Buckets
set_bucket [] k b = (k, b) ∷ []
set_bucket ((j, c) ∷ m) k b = if key_eq j k then (j, b) ∷ m else (j, c) ∷ set_bucket m k b

unfoldable pub delete_bucket : Buckets → BucketKey → Buckets
delete_bucket [] k = []
delete_bucket ((j, c) ∷ m) k = if key_eq j k then m else (j, c) ∷ delete_bucket m k

-- `currentFailures`: the attempts from the first one after the cutoff on.
unfoldable pub current_failures : List ℤ → ℤ → List ℤ
current_failures [] cutoff = []
current_failures (t ∷ ts) cutoff =
    let rest = current_failures ts cutoff in if ltb_ℤ cutoff t then t ∷ ts else rest

unfoldable pub keep_bucket : BucketKey → FailureBucket → List ℤ → Buckets → Buckets
keep_bucket k b [] m = m
keep_bucket k b (t ∷ ts) m = (k, record b { attempts = t ∷ ts }) ∷ m

-- `prune`: each bucket by its own window.
unfoldable pub prune : Buckets → ℤ → Buckets
unfolding keep_bucket
prune [] now = []
prune ((k, b) ∷ m) now =
    keep_bucket k b (current_failures b.attempts (now -ℤ b.window)) (prune m now)

unfoldable pub update_or_delete : Buckets → BucketKey → FailureBucket → Buckets
update_or_delete m k b = elim b.attempts [ [] ↦ delete_bucket m k | _ ∷ _ ↦ set_bucket m k b ]

-- One round of `pruneKeys`.
unfoldable pub prune_key : Buckets → BucketKey → FailureLimit → ℤ → Buckets
unfolding update_or_delete
prune_key m k limit now = elim (find_bucket m k) [
  | none ↦ m
  | some b ↦ update_or_delete m k (record {
    attempts = current_failures b.attempts (now -ℤ limit.window);
    window = limit.window;
  })
]

abbrev missing : Buckets → BucketKey → ℕ
missing m k = elim (find_bucket m k) [ none ↦ 1 | some _ ↦ 0 ]

unfoldable pub new_bucket_count : Buckets → BucketKey → BucketKey → ℕ
new_bucket_count m k₁ k₂ = missing m k₁ + missing m k₂

abbrev drop_first : List ℤ → List ℤ
drop_first [] = []
drop_first (t ∷ ts) = ts

abbrev pub attempts_or_none : Option FailureBucket → List ℤ
attempts_or_none none = []
attempts_or_none (some b) = b.attempts

-- `len(bucket.attempts) >= limit.Attempts`.
abbrev pub is_full : List ℤ → FailureLimit → Bool
is_full attempts limit = not (ltb_ℤ (pos (length attempts)) limit.attempts)

-- A full bucket forgets its oldest attempt; both ways the new one goes to the end.
unfoldable pub push_attempt : List ℤ → FailureLimit → ℤ → List ℤ
push_attempt attempts limit now =
    if is_full attempts limit then drop_first attempts ++ now ∷ [] else attempts ++ now ∷ []

-- One round of the recording loop: the buckets, and whether the bucket had room.
unfoldable pub record_failure : Buckets → BucketKey → FailureLimit → ℤ → Buckets × Bool
record_failure m k limit now =
    let attempts = attempts_or_none (find_bucket m k) in
    (
      set_bucket m k (record { attempts = push_attempt attempts limit now; window = limit.window }),
      not (is_full attempts limit),
    )

abbrev has_nul : Bytes → Bool
has_nul s = any (λ c. c == 0) s

unfoldable pub valid_authentication_attempt : AuthenticationAttempt → Bool
valid_authentication_attempt a =
    not (length a.procedure == 0)
    && elim a.client_ip [ none ↦ false | some _ ↦ true ]
    && not (length a.account_key == 0)
    && leb (length a.account_key) max_account_key_bytes
    && valid_utf8 a.account_key
    && not (has_nul a.account_key)

abbrev ip_text : Option Bytes → Bytes
ip_text none = []
ip_text (some s) = s

abbrev pub ip_key : AuthenticationAttempt → BucketKey
ip_key a = record { procedure = a.procedure; value = ip_text a.client_ip; dimension = dimension_ip }

abbrev pub account_key_of : AuthenticationAttempt → BucketKey
account_key_of a = record {
  procedure = a.procedure;
  value = a.account_key;
  dimension = dimension_account;
}

abbrev minute : ℤ
minute = pos (60 * 1000000000)

-- The sweep of all buckets, at most once a minute.
unfoldable pub sweep : FailureLadder → ℤ → FailureLadder
sweep l now =
    if is_zero_time l.next_sweep || not (ltb_ℤ now l.next_sweep)
    then record l { buckets = prune l.buckets now; next_sweep = now +ℤ minute }
    else l

-- Both rounds of the recording loop.
unfoldable pub record_both : Buckets → RateLimitPolicy → BucketKey → BucketKey → ℤ → Buckets × Bool
record_both m policy k₁ k₂ now =
    let first = record_failure m k₁ policy.per_ip now in
    let second = record_failure first.0 k₂ policy.per_account now in (second.0, first.1 && second.1)

-- `newBucketCount(keys) + len(buckets) > failureBucketCapacity`.
unfoldable pub over_capacity : Buckets → BucketKey → BucketKey → Bool
over_capacity m k₁ k₂ = ltb failure_bucket_capacity (new_bucket_count m k₁ k₂ + length m)

-- The part of `Allow` behind the pruning of the two keys.
unfoldable pub admit :
    FailureLadder → RateLimitPolicy → BucketKey → BucketKey → ℤ → FailureLadder × Bool
admit l policy k₁ k₂ now =
    let done = record_both l.buckets policy k₁ k₂ now in
    let pruned = prune l.buckets now in
    let done' = record_both pruned policy k₁ k₂ now in
    if not (over_capacity l.buckets k₁ k₂)
    then (record l { buckets = done.0 }, done.1)
    else (if over_capacity pruned k₁ k₂
        then (record l { buckets = pruned }, false)
        else (record l { buckets = done'.0 }, done'.1))

-- A failed attempt of a known procedure.
unfoldable pub record_attempt :
    FailureLadder → RateLimitPolicy → AuthenticationAttempt → ℤ → FailureLadder × Bool
record_attempt l policy attempt now =
    let k₁ = ip_key attempt in
    let k₂ = account_key_of attempt in
    let swept = sweep l now in
    let m = prune_key (prune_key swept.buckets k₁ policy.per_ip now) k₂ policy.per_account now in
    admit (record swept { buckets = m }) policy k₁ k₂ now

-- `Allow`, under the ladder's mutex: the new ladder and the answer. A nil ladder answers false.
unfoldable pub allow : FailureLadder → AuthenticationAttempt → ℤ → FailureLadder × Bool
allow l attempt now = elim (find_policy l.policies attempt.procedure) [
  | none ↦ (l, false)
  | some policy ↦
      if not (valid_authentication_attempt attempt)
      then (l, false)
      else (if attempt.succeeded then (l, true) else record_attempt l policy attempt now)
]
