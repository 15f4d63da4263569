-- ===== src/RateLimit/Buckets.antt =====
-- The laws of the bucket map (server/internal/auth/ratelimit.go), and that no operation on it makes it
-- grow unseen.
use power_manage.Shared.{
  ◌+◌, ◌≤◌, ◌≡◌, refl, inl, inr, true, List, [], ◌∷◌, none, some, arith, length, Option-cases,
  if◌then◌else◌,
}
use power_manage.Shared.Int.{ℤ, ◌-ℤ◌}
use power_manage.Shared.Bytes.{bytes_eq→eq, bytes_eq_refl}
use power_manage.RateLimit.{
  BucketKey, FailureBucket, FailureLimit, Buckets, key_eq, find_bucket, set_bucket, delete_bucket,
  current_failures, prune, prune_key,
}

pub key_eq→eq : (a b : BucketKey) → key_eq a b ≡ true → a ≡ b
unfolding key_eq
key_eq→eq a b h = ground (arith, bytes_eq→eq a.procedure b.procedure, bytes_eq→eq a.value b.value)

pub key_eq_refl : (a : BucketKey) → key_eq a a ≡ true
unfolding key_eq
key_eq_refl a = ground (arith, bytes_eq_refl a.procedure, bytes_eq_refl a.value)

pub find_bucket-set_bucket :
    (m : Buckets) (j k : BucketKey) (b : FailureBucket)
    → find_bucket (set_bucket m j b) k ≡ (if key_eq j k then some b else find_bucket m k)
unfolding find_bucket set_bucket
find_bucket-set_bucket [] j k b = refl
find_bucket-set_bucket ((i, c) ∷ m) j k b = ground (
  arith,
  key_eq→eq i j,
  key_eq→eq i k,
  key_eq→eq j k,
  key_eq_refl k,
  find_bucket-set_bucket m j k b,
)

-- A write makes the map longer exactly when the key was missing.
pub length-set_bucket :
    (m : Buckets) (k : BucketKey) (b : FailureBucket)
    → length (set_bucket m k b) ≡ elim (find_bucket m k) [ none ↦ length m + 1 | some _ ↦ length m ]
unfolding find_bucket set_bucket
length-set_bucket [] k b = omega arith
length-set_bucket ((i, c) ∷ m) k b = ground (arith, length-set_bucket m k b)

pub length-delete_bucket : (m : Buckets) (k : BucketKey) → length (delete_bucket m k) ≤ length m
unfolding delete_bucket
length-delete_bucket [] k = omega arith
length-delete_bucket ((i, c) ∷ m) k = ground (arith, length-delete_bucket m k)

pub length-current_failures :
    (ts : List ℤ) (cutoff : ℤ) → length (current_failures ts cutoff) ≤ length ts
unfolding current_failures
length-current_failures [] cutoff = omega arith
length-current_failures (t ∷ ts) cutoff = ground (arith, length-current_failures ts cutoff)

pub length-prune : (m : Buckets) (now : ℤ) → length (prune m now) ≤ length m
unfolding prune
length-prune [] now = omega arith
length-prune ((k, b) ∷ m) now = ground (arith, length-prune m now)

pub length-prune_key :
    (m : Buckets) (k : BucketKey) (limit : FailureLimit) (now : ℤ)
    → length (prune_key m k limit now) ≤ length m
unfolding prune_key
length-prune_key m k limit now = elim (Option-cases (find_bucket m k)) [
  | inl e ↦ rw (e, prune_key) (omega arith)
  | inr (b, e) ↦
      let fresh : FailureBucket = record {
        attempts = current_failures b.attempts (now -ℤ limit.window);
        window = limit.window;
      } in
      ground (arith, e, length-set_bucket m k fresh, length-delete_bucket m k)
]
